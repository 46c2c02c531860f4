-- ===== src/Worker/Heap/Ends.antt =====
-- container/heap: what heap.Push and heap.Pop do.
use lemmings.Common.{
  ℕ, suc, ◌-◌, ◌<◌, ◌≡◌, sym, ap, subst, ◌∙◌, Bool, List, [], ◌∷◌, ◌++◌, length, length-append,
  get_or, get_or-append, get_or-last, get_or-exchange, length-exchange, exchange, exchange-Perm,
  length-Perm, All, arith,
}
use mathlib.Core.List.{Perm, perm_middle, append-nil}
use mathlib.Core.List.Perm
use lemmings.Worker.Heap.{Interface, parent, down, push, pop}
use lemmings.Worker.Heap.Laws.{Laws, NotAfter, IsHeap, root_first}
use lemmings.Worker.Heap.Up.{UpInv, up-Heaped}
use lemmings.Worker.Heap.Down.{DownInv, down-Settled}

module _ {H X B : Type 0} (h : Interface H X) (d : B) (before : B → B → Bool)
    (l : Laws h d before) where
  -- A state of the implementation whose elements are in heap order.
  pub record IsValid (s : H) : Type 0 where
    pub good : l.IsGood s
    pub heap : IsHeap d before (length (l.items s)) (l.items s)

  at_end : (a : List B) (x : B) → Perm (a ++ x ∷ []) (x ∷ a)
  at_end a x = rw (append-nil a) at (perm_middle {a = x} a [])

  grown-UpInv :
      (a : List B) (x : B) → IsHeap d before (length a) a → UpInv d before (a ++ x ∷ []) (length a)
  grown-UpInv a x heap =
      let size = length-append a (x ∷ []) in
      record {
        inside = omega (arith, size);
        edges = λ c low high other. ground (
          arith,
          size,
          heap c,
          get_or-append d a (x ∷ []) c,
          get_or-append d a (x ∷ []) (parent c),
        );
        bridged = λ c low high below some. absurd (omega (arith, size));
      }

  -- heap.Push adds the element.
  pub push_lem :
      (x : X) (s : H)
      → IsValid s
      → IsValid (push h x s) × Perm (l.items (push h x s)) (l.item x ∷ l.items s)
  unfolding push
  push_lem x s v =
      let a = l.items s in
      let e = l.push-items s x in
      let last : length a ≡ h.len (h.push x s) - 1 =
        omega (arith, l.len-items (h.push x s), ap length e, length-append a (l.item x ∷ [])) in
      let start =
        subst (λ b. UpInv d before b (length a)) (sym e) (grown-UpInv a (l.item x) v.heap) in
      let r =
        up-Heaped h d before l (h.len (h.push x s) - 1) (h.push x s) (l.push-IsGood s x v.good)
          (subst (UpInv d before (l.items (h.push x s))) last start) in
      (
        record { good = r.good; heap = r.heap },
        Perm.trans r.same (subst (λ b. Perm b (l.item x ∷ a)) (sym e) (at_end a (l.item x))),
      )

  swapped-DownInv :
      (a : List B) (n : ℕ)
      → length a ≡ suc n
      → IsHeap d before (length a) a
      → DownInv d before n (exchange d 0 n a) 0
  swapped-DownInv a n size heap =
      let at = get_or-exchange d 0 n a (omega arith) (omega arith) in
      record {
        inside = omega (arith, length-exchange d 0 n a);
        edges = λ c low high other. ground (arith, size, heap c, at c, at (parent c));
        bridged = λ c low high below some. absurd (omega arith);
      }

  -- What heap.Pop returns: the root, which no element comes before, and the others.
  pub record Popped (s : H) (r : X × H) : Type 0 where
    pub valid : IsValid r.1
    pub same : Perm (l.item r.0 ∷ l.items r.1) (l.items s)
    pub first : All (NotAfter d before (l.item r.0)) (l.items s)
    pub root : l.item r.0 ≡ get_or (l.items s) 0 d

  shorter-IsHeap :
      (a : List B) (x : B) → IsHeap d before (length a) (a ++ x ∷ []) → IsHeap d before (length a) a
  shorter-IsHeap a x heap c low high =
      ground (arith, heap c, get_or-append d a (x ∷ []) c, get_or-append d a (x ∷ []) (parent c))

  pub pop_lem : (s : H) → 0 < length (l.items s) → IsValid s → Popped s (pop h s)
  unfolding pop
  pop_lem s some v =
      let a = l.items s in
      let n = h.len s - 1 in
      let size : length a ≡ suc n = omega (arith, l.len-items s) in
      let hi : 0 < length a = some in
      let hn : n < length a = omega (arith, size) in
      let moved = l.swap-items s 0 n hi hn in
      let r =
        down-Settled h d before l n 0 (h.swap 0 n s) (l.swap-IsGood s 0 n hi hn v.good)
          (subst (λ b. DownInv d before n b 0) (sym moved) (swapped-DownInv a n size v.heap)) in
      let t = down h n 0 (h.swap 0 n s) in
      let all =
        Perm.trans r.same (subst (λ b. Perm b a) (sym moved) (exchange-Perm d 0 n a hi hn)) in
      let size_t = length-Perm (l.items t) a all in
      let split = l.pop-items t (omega (arith, size_t)) in
      let rest = l.items (h.pop t).1 in
      let top = l.item (h.pop t).0 in
      let size_rest : length rest ≡ n =
        omega (arith, size_t, ap length split, length-append rest (top ∷ [])) in
      let top_at : top ≡ get_or (l.items t) n d =
        sym (get_or-last d rest top)
        ∙ ap (λ k. get_or (rest ++ top ∷ []) k d) size_rest
        ∙ ap (λ b. get_or b n d) split in
      let root : top ≡ get_or a 0 d =
        top_at
        ∙ r.kept
        ∙ ap (λ b. get_or b n d) moved
        ∙ ground (arith, get_or-exchange d 0 n a hi hn n) in
      let heap_t : IsHeap d before (length rest) (rest ++ top ∷ []) =
        subst (λ b. IsHeap d before (length rest) b) (sym split)
          (subst (λ k. IsHeap d before k (l.items t)) (sym size_rest) r.heap) in
      record {
        valid = record { good = l.pop-IsGood t r.good; heap = shorter-IsHeap rest top heap_t };
        same = Perm.trans (Perm.symm (at_end rest top)) (subst (λ b. Perm b a) (sym split) all);
        first = rw root (root_first d before a l.order v.heap);
        root = root;
      }
