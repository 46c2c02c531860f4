-- ===== src/Worker/Heap/Laws.antt =====
-- What an implementation of heap.Interface has to satisfy, and the heap order.
use lemmings.Common.{
  ℕ, zero, suc, ◌<◌, ◌≡◌, ◌≢◌, Bool, true, false, List, [], ◌∷◌, ◌++◌, length, get_or, exchange,
  arith, All, All-get_or, Bool-cases, inl, inr,
}
use native.Mathlib.Decide.{ℕ_discrete}
use lemmings.Worker.Heap.{Interface, parent}

-- A strict weak order: `before x y` says that `x` comes out before `y`.
pub record Order {B : Type 0} (before : B → B → Bool) : Type 0 where
  pub asymmetric : (x y : B) → before x y ≡ true → before y x ≡ false
  pub transitive : (x y z : B) → before y x ≡ false → before z y ≡ false → before z x ≡ false

-- The implementation shows its elements as a list of `B`, `d` standing outside of it, which its
-- operations read and change as a slice. `IsGood` is what it keeps besides.
pub record Laws {H X B : Type 0} (h : Interface H X) (d : B) (before : B → B → Bool) : Type 1 where
  pub IsGood : H → Type 0
  pub items : H → List B
  pub item : X → B
  pub order : Order before
  pub len-items : (s : H) → h.len s ≡ length (items s)
  pub less-items :
      (s : H) (i j : ℕ)
      → i < length (items s)
      → j < length (items s)
      → h.less s i j ≡ before (get_or (items s) i d) (get_or (items s) j d)
  pub swap-items :
      (s : H) (i j : ℕ)
      → i < length (items s)
      → j < length (items s)
      → items (h.swap i j s) ≡ exchange d i j (items s)
  pub swap-IsGood :
      (s : H) (i j : ℕ)
      → i < length (items s)
      → j < length (items s)
      → IsGood s
      → IsGood (h.swap i j s)
  pub push-items : (s : H) (x : X) → items (h.push x s) ≡ items s ++ item x ∷ []
  pub push-IsGood : (s : H) (x : X) → IsGood s → IsGood (h.push x s)
  pub pop-items :
      (s : H) → 0 < length (items s) → items (h.pop s).1 ++ item (h.pop s).0 ∷ [] ≡ items s
  pub pop-IsGood : (s : H) → IsGood s → IsGood (h.pop s).1

module _ {B : Type 0} (d : B) (before : B → B → Bool) where
  -- `y` does not come before `x`.
  abbrev pub NotAfter : B → B → Type 0
  NotAfter x y = before y x ≡ false

  -- Among the first `n` elements, none comes before its parent.
  abbrev pub IsHeap : ℕ → List B → Type 0
  IsHeap n a = (c : ℕ) → 0 < c → c < n → NotAfter (get_or a (parent c) d) (get_or a c d)

  root_first_below :
      (k n : ℕ) (a : List B) (i : ℕ)
      → Order before
      → IsHeap n a
      → i < k
      → i < n
      → i ≢ 0
      → NotAfter (get_or a 0 d) (get_or a i d)
  root_first_below zero n a i o h f p z = absurd (omega arith)
  root_first_below (suc k) n a i o h f p z = ground (
    arith,
    h i,
    root_first_below k n a (parent i) o h,
    o.transitive (get_or a 0 d) (get_or a (parent i) d) (get_or a i d),
  )

  pub irreflexive : Order before → (x : B) → before x x ≡ false
  irreflexive o x = elim (Bool-cases (before x x)) [ inl e ↦ o.asymmetric x x e | inr e ↦ e ]

  -- No element of a heap comes before its root.
  pub root_first :
      (a : List B) → Order before → IsHeap (length a) a → All (NotAfter (get_or a 0 d)) a
  root_first a o h = All-get_or (NotAfter (get_or a 0 d)) d a (λ i p. elim (ℕ_discrete i 0) [
    | yes e ↦ rw e (irreflexive o (get_or a 0 d))
    | no ne ↦ root_first_below (suc i) (length a) a i o h (omega arith) p ne
  ])
