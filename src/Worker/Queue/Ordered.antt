-- ===== src/Worker/Queue/Ordered.antt =====
-- pkg/worker/priority_queue.go: entries kept in the order of the queue.
use lemmings.Common.{
  ◌≡◌, ap, ◌∙◌, Bool, if_elim, true, List, [], ◌∷◌, All, All-mono, ◌<ℤ◌, ltb_ℤ, if◌then◌else◌,
  arith,
}
use mathlib.Core.Bool.{Bool-set}
use mathlib.Core.Logic.Or
use mathlib.Core.List.{Perm, Mem, not-mem-nil, mem-cons}
use mathlib.Core.List.Perm
use lemmings.Worker.Queue.Items.{Entry, before}

module _ {T : Type 0} where
  unfoldable pub insert_entry : Entry T → List (Entry T) → List (Entry T)
  insert_entry e [] = e ∷ []
  insert_entry e (x ∷ l) = if ltb_ℤ x.priority e.priority then e ∷ x ∷ l else x ∷ insert_entry e l

  abbrev pub IsOrdered : List (Entry T) → Type 0
  IsOrdered [] = Unit
  IsOrdered (x ∷ l) = All (λ y. before x y ≡ true) l × IsOrdered l

  pub insert_entry-Perm : (e : Entry T) (l : List (Entry T)) → Perm (insert_entry e l) (e ∷ l)
  unfolding insert_entry
  insert_entry-Perm e [] = Perm.refl (e ∷ [])
  insert_entry-Perm e (x ∷ l) =
      if_elim (λ a. Perm a (e ∷ x ∷ l)) (ltb_ℤ x.priority e.priority)
        (λ here. Perm.refl (e ∷ x ∷ l))
        (λ later. Perm.trans (Perm.cons x (insert_entry-Perm e l)) (Perm.swap e x l))

  pub All-insert_entry :
      (P : Entry T → Type 0) (e : Entry T) (l : List (Entry T))
      → P e
      → All P l
      → All P (insert_entry e l)
  unfolding insert_entry
  All-insert_entry P e [] p h = (p, tt)
  All-insert_entry P e (x ∷ l) p h =
      if_elim (All P) (ltb_ℤ x.priority e.priority) (λ here. (p, h))
        (λ later. (h.0, All-insert_entry P e l p h.1))

  pub insert_entry-IsOrdered :
      (e : Entry T) (l : List (Entry T))
      → All (λ x. x.timestamp <ℤ e.timestamp) l
      → IsOrdered l
      → IsOrdered (insert_entry e l)
  unfolding insert_entry
  insert_entry-IsOrdered e [] old o = (tt, tt)
  insert_entry-IsOrdered e (x ∷ l) old o =
      if_elim IsOrdered (ltb_ℤ x.priority e.priority)
        (λ here.
          let first : before e x ≡ true = ground arith in
          ((first, All-mono _ _ l (λ y h. ground (arith, here, h)) o.0), o))
        (λ later.
          let second : before x e ≡ true = ground (arith, old.0) in
          (All-insert_entry _ e l second o.0, insert_entry-IsOrdered e l old.1 o.1))

  pub mem_All :
      (f : Entry T → Bool) (b : Bool) (l : List (Entry T)) {y : Entry T}
      → All (λ x. f x ≡ b) l
      → Mem y l
      → f y ≡ b
  mem_All f b [] h m = absurd (not-mem-nil m)
  mem_All f b (x ∷ l) h m =
      Or.elim (Bool-set _ _) (mem-cons.0 m) (λ e. ap f e ∙ h.0) (mem_All f b l h.1)
