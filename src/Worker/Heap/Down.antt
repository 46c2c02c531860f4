-- ===== src/Worker/Heap/Down.antt =====
-- container/heap: `down` restores the heap order below an element.
use lemmings.Common.{
  ℕ, zero, suc, ◌+◌, ◌*◌, ◌≤◌, ◌<◌, ◌≡◌, refl, ◌≢◌, sym, ap, subst, ◌∙◌, Bool, true, false, ◌&&◌,
  Bool-cases, inl, inr, List, length, get_or, exchange, get_or-exchange, length-exchange,
  exchange-Perm, ltb, if_elim, arith,
}
use mathlib.Core.List.{Perm}
use native.Mathlib.Decide.{ℕ_discrete}
use mathlib.Core.List.Perm
use lemmings.Worker.Heap.{Interface, parent, child, down_loop, down}
use lemmings.Worker.Heap.Laws.{Order, Laws, NotAfter, IsHeap, irreflexive}

module _ {B : Type 0} (d : B) (before : B → B → Bool) where
  -- Among the first `n` elements, the order may fail only between `i` and its children.
  pub record DownInv (n : ℕ) (a : List B) (i : ℕ) : Type 0 where
    pub inside : n ≤ length a
    pub edges :
        (c : ℕ)
        → 0 < c
        → c < n
        → parent c ≢ i
        → NotAfter d before (get_or a (parent c) d) (get_or a c d)
    pub bridged :
        (c : ℕ)
        → 0 < c
        → c < n
        → parent c ≡ i
        → 0 < i
        → NotAfter d before (get_or a (parent i) d) (get_or a c d)

  -- `m` is a child of `i`, and the other does not come before it.
  record IsFirstChild (n : ℕ) (a : List B) (i m : ℕ) : Type 0 where
    below : m < n
    positive : 0 < m
    of : parent m ≡ i
    first : (c : ℕ) → 0 < c → c < n → parent c ≡ i → NotAfter d before (get_or a m d) (get_or a c d)

  exchange-DownInv :
      (n : ℕ) (a : List B) (i m : ℕ)
      → Order before
      → DownInv n a i
      → IsFirstChild n a i m
      → before (get_or a m d) (get_or a i d) ≡ true
      → DownInv n (exchange d i m a) m
  exchange-DownInv n a i m o v s first =
      let size = length-exchange d i m a in
      let at =
        get_or-exchange d i m a (omega (arith, v.inside, s.below, s.of, s.positive))
          (omega (arith, v.inside, s.below)) in
      let up_one = o.asymmetric (get_or a m d) (get_or a i d) first in
      record {
        inside = omega (arith, size, v.inside);
        edges = λ c low high other. ground (
          arith,
          s.of,
          s.positive,
          s.below,
          up_one,
          at c,
          at (parent c),
          v.edges c,
          v.bridged c,
          v.bridged m,
          s.first c,
        );
        bridged = λ c low high below some.
            ground (arith, s.of, s.positive, s.below, at c, at (parent m), v.edges c);
      }

module _ {H X B : Type 0} (h : Interface H X) (d : B) (before : B → B → Bool)
    (l : Laws h d before) where
  child-IsFirstChild :
      (n i : ℕ) (s : H)
      → n ≤ length (l.items s)
      → 2 * i + 1 < n
      → IsFirstChild d before n (l.items s) i (child h n i s)
  unfolding child
  child-IsFirstChild n i s inside left =
      let a = l.items s in
      let one = 2 * i + 1 in
      let two = one + 1 in
      let compared = l.less-items s two one in
      if_elim (IsFirstChild d before n a i) (ltb two n && h.less s two one)
        (λ right. record {
          below = ground arith;
          positive = omega arith;
          of = omega arith;
          first = λ c low high of.
              let first : before (get_or a two d) (get_or a one d) ≡ true =
                ground (arith, compared) in
              elim (ℕ_discrete c one) [
                | yes e ↦ rw e (l.order.asymmetric _ _ first)
                | no ne ↦ (let e : c ≡ two = omega arith in rw e (irreflexive d before l.order _))
              ];
        })
        (λ only. record {
          below = left;
          positive = omega arith;
          of = omega arith;
          first = λ c low high of. elim (ℕ_discrete c one) [
            | yes e ↦ rw e (irreflexive d before l.order _)
            | no ne ↦ (let e : c ≡ two = omega arith in rw e (ground (arith, compared)))
          ];
        })

  -- `t` holds the elements of `s`, the first `n` as a heap and the next where it was.
  pub record Settled (n : ℕ) (s t : H) : Type 0 where
    pub good : l.IsGood t
    pub heap : IsHeap d before n (l.items t)
    pub same : Perm (l.items t) (l.items s)
    pub kept : get_or (l.items t) n d ≡ get_or (l.items s) n d

  down_loop-Settled :
      (k n i : ℕ) (s : H)
      → n < i + k
      → l.IsGood s
      → DownInv d before n (l.items s) i
      → Settled n s (down_loop h k n i s)
  unfolding down_loop
  down_loop-Settled zero n i s f g v = record {
    good = g;
    heap = λ c low high. ground (arith, v.edges c);
    same = Perm.refl (l.items s);
    kept = refl;
  }
  down_loop-Settled (suc k) n i s f g v =
      let a = l.items s in
      let m = child h n i s in
      elim (Bool-cases (ltb (2 * i + 1) n && h.less s m i)) [
        | inr settled ↦
            let at_rest : IsHeap d before n a = λ c low high. elim (ℕ_discrete (parent c) i) [
              | no elsewhere ↦ v.edges c low high elsewhere
              | yes of ↦
                  let left : 2 * i + 1 < n = omega arith in
                  let fc = child-IsFirstChild n i s v.inside left in
                  let compared =
                    l.less-items s m i (omega (arith, fc.below, v.inside))
                      (omega (arith, v.inside)) in
                  let last : before (get_or a m d) (get_or a i d) ≡ false =
                    ground (arith, compared) in
                  rw of (
                    l.order.transitive (get_or a i d) (get_or a m d) (get_or a c d) last
                      (fc.first c low high of))
            ] in
            rw (settled, down_loop)
              (record { good = g; heap = at_rest; same = Perm.refl a; kept = refl })
        | inl sinks ↦
            let left : 2 * i + 1 < n = ground arith in
            let fc = child-IsFirstChild n i s v.inside left in
            let hi : i < length a = omega (arith, v.inside) in
            let hm : m < length a = omega (arith, fc.below, v.inside) in
            let compared = l.less-items s m i hm hi in
            let first : before (get_or a m d) (get_or a i d) ≡ true = ground (arith, compared) in
            let moved = l.swap-items s i m hi hm in
            let at_n = get_or-exchange d i m a hi hm n in
            let r =
              down_loop-Settled k n m (h.swap i m s) (omega (arith, fc.of, fc.positive))
                (l.swap-IsGood s i m hi hm g)
                (subst (λ b. DownInv d before n b m) (sym moved)
                  (exchange-DownInv d before n a i m l.order v fc first)) in
            rw (sinks, down_loop)
              (record {
                good = r.good;
                heap = r.heap;
                same =
                    Perm.trans r.same
                      (subst (λ b. Perm b a) (sym moved) (exchange-Perm d i m a hi hm));
                kept = r.kept ∙ ap (λ b. get_or b n d) moved ∙ ground (arith, at_n, fc.below);
              })
      ]

  pub down-Settled :
      (n i : ℕ) (s : H) → l.IsGood s → DownInv d before n (l.items s) i → Settled n s (down h n i s)
  unfolding down
  down-Settled n i s g v = down_loop-Settled (suc n) n i s (omega arith) g v
