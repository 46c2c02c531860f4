-- ===== src/Worker/Heap.antt =====
-- Go's container/heap, as pkg/worker/priority_queue.go calls it: Push and Pop over an implementation of
-- heap.Interface. An `int` index does not overflow below the length of a slice.
pub mod Laws
pub mod Up
pub mod Down
pub mod Ends
use lemmings.Common.{
  ℕ, zero, suc, ◌+◌, ◌-◌, ◌*◌, ◌/◌, Bool, true, false, ◌&&◌, ◌||◌, not, ltb, ◌==◌, if◌then◌else◌,
}

-- heap.Interface: the slice is an `H`, and its elements are read and written as `X`.
pub record Interface (H X : Type 0) : Type 0 where
  pub len : H → ℕ
  pub less : H → ℕ → ℕ → Bool
  pub swap : ℕ → ℕ → H → H
  pub push : X → H → H
  pub pop : H → X × H

abbrev pub parent : ℕ → ℕ
parent j = (j - 1) / 2

module _ {H X : Type 0} (h : Interface H X) where
  -- up, with a bound on the rounds
  unfoldable pub up_loop : ℕ → ℕ → H → H
  up_loop zero j s = s
  up_loop (suc k) j s = elim (parent j == j || not (h.less s j (parent j))) [
    | true ↦ s
    | false ↦ up_loop k (parent j) (h.swap (parent j) j s)
  ]

  unfoldable pub up : ℕ → H → H
  unfolding up_loop
  up j = up_loop (suc j) j

  -- The child of `i` that `down` compares it with; there is a left one.
  unfoldable pub child : ℕ → ℕ → H → ℕ
  child n i s =
      let left = 2 * i + 1 in
      if ltb (left + 1) n && h.less s (left + 1) left then left + 1 else left

  -- down, from `i` among the first `n` elements, with a bound on the rounds
  unfoldable pub down_loop : ℕ → ℕ → ℕ → H → H
  unfolding child
  down_loop zero n i s = s
  down_loop (suc k) n i s = elim (ltb (2 * i + 1) n && h.less s (child n i s) i) [
    | false ↦ s
    | true ↦ down_loop k n (child n i s) (h.swap i (child n i s) s)
  ]

  unfoldable pub down : ℕ → ℕ → H → H
  unfolding down_loop
  down n i = down_loop (suc n) n i

  -- heap.Push and heap.Pop
  unfoldable pub push : X → H → H
  push x s = let grown = h.push x s in up (h.len grown - 1) grown

  unfoldable pub pop : H → X × H
  pop s = let n = h.len s - 1 in h.pop (down n 0 (h.swap 0 n s))
