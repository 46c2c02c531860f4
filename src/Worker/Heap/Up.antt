-- ===== src/Worker/Heap/Up.antt =====
-- container/heap: `up` restores the heap order above an element.
use lemmings.Common.{
  ℕ, zero, suc, ◌<◌, ◌≡◌, ◌≢◌, sym, subst, Bool, true, ◌||◌, not, Bool-cases, inl, inr, List,
  length, get_or, exchange, get_or-exchange, length-exchange, exchange-Perm, ◌==◌, arith,
}
use mathlib.Core.List.{Perm}
use mathlib.Core.List.Perm
use lemmings.Worker.Heap.{Interface, parent, up_loop, up}
use lemmings.Worker.Heap.Laws.{Order, Laws, NotAfter, IsHeap}

module _ {B : Type 0} (d : B) (before : B → B → Bool) where
  -- The order may fail only between `j` and its parent.
  pub record UpInv (a : List B) (j : ℕ) : Type 0 where
    pub inside : j < length a
    pub edges :
        (c : ℕ)
        → 0 < c
        → c < length a
        → c ≢ j
        → NotAfter d before (get_or a (parent c) d) (get_or a c d)
    pub bridged :
        (c : ℕ)
        → 0 < c
        → c < length a
        → parent c ≡ j
        → 0 < j
        → NotAfter d before (get_or a (parent j) d) (get_or a c d)

  exchange-UpInv :
      (a : List B) (j : ℕ)
      → Order before
      → UpInv a j
      → 0 < j
      → before (get_or a j d) (get_or a (parent j) d) ≡ true
      → UpInv (exchange d (parent j) j a) (parent j)
  exchange-UpInv a j o v positive first =
      let p = parent j in
      let size = length-exchange d p j a in
      let at = get_or-exchange d p j a (omega (arith, v.inside)) v.inside in
      let down_one = o.asymmetric (get_or a j d) (get_or a p d) first in
      record {
        inside = omega (arith, size, v.inside);
        edges = λ c low high other. ground (
          arith,
          size,
          down_one,
          at c,
          at (parent c),
          v.edges c,
          v.bridged c,
          o.transitive (get_or a j d) (get_or a p d) (get_or a c d),
        );
        bridged = λ c low high below some. ground (
          arith,
          size,
          at c,
          at (parent p),
          v.edges c,
          v.edges p,
          o.transitive (get_or a (parent p) d) (get_or a p d) (get_or a c d),
        );
      }

module _ {H X B : Type 0} (h : Interface H X) (d : B) (before : B → B → Bool)
    (l : Laws h d before) where
  -- `t` holds the elements of `s`, as a heap.
  pub record Heaped (s t : H) : Type 0 where
    pub good : l.IsGood t
    pub heap : IsHeap d before (length (l.items t)) (l.items t)
    pub same : Perm (l.items t) (l.items s)

  up_loop-Heaped :
      (k j : ℕ) (s : H)
      → j < k
      → l.IsGood s
      → UpInv d before (l.items s) j
      → Heaped s (up_loop h k j s)
  unfolding up_loop
  up_loop-Heaped zero j s f g v = absurd (omega arith)
  up_loop-Heaped (suc k) j s f g v =
      let a = l.items s in
      let above : parent j < length a = omega (arith, v.inside) in
      let compared = l.less-items s j (parent j) v.inside above in
      elim (Bool-cases (parent j == j || not (h.less s j (parent j)))) [
        | inl settled ↦
            rw (settled, up_loop)
              (record {
                good = g;
                heap = λ c low high. ground (arith, v.edges c, compared);
                same = Perm.refl a;
              })
        | inr rises ↦
            let s' = h.swap (parent j) j s in
            let first : before (get_or a j d) (get_or a (parent j) d) ≡ true =
              ground (arith, compared) in
            let positive : 0 < j = ground arith in
            let moved = l.swap-items s (parent j) j above v.inside in
            let r =
              up_loop-Heaped k (parent j) s' (omega (arith, positive))
                (l.swap-IsGood s (parent j) j above v.inside g)
                (subst (λ b. UpInv d before b (parent j)) (sym moved)
                  (exchange-UpInv d before a j l.order v positive first)) in
            rw (rises, up_loop)
              (record {
                good = r.good;
                heap = r.heap;
                same = Perm.trans r.same (
                    subst (λ b. Perm b a) (sym moved)
                      (exchange-Perm d (parent j) j a above v.inside));
              })
      ]

  pub up-Heaped : (j : ℕ) (s : H) → l.IsGood s → UpInv d before (l.items s) j → Heaped s (up h j s)
  unfolding up
  up-Heaped j s g v = up_loop-Heaped (suc j) j s (omega arith) g v
