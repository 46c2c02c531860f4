-- ===== src/Worker/Pool/Scaling.antt =====
-- pkg/worker/pool.go: calculateNewSize, scaleUp and scaleDown.
use lemmings.Common.{
  ℕ, zero, suc, ◌+◌, ◌-◌, ◌≤◌, ◌<◌, ◌≡◌, refl, ap, min, max, List, Bool-cases, Option-cases, inl,
  inr, none, Outcome, ok, ℤ, pos, ◌+ℤ◌, ◌-ℤ◌, ◌≤ℤ◌, ◌<ℤ◌, ltb_ℤ, leb_ℤ, int64, int32, int64_id,
  IsInt64, arith, int_laws, -ℤ_parts, length, pos_part, if◌then◌else◌,
}
use lemmings.Worker.Pool.{
  Pool, count, calculate_new_size, add_worker, scale_up_loop, scale_up, scale_down,
}
use lemmings.Worker.Pool.Invariant.{
  IsConsistent, Grows, Grows-refl, Grows-trans, HasIds, add_worker-Grows, add_worker_counts,
  add_worker_fails,
}
use lemmings.Worker.Pool.Removal.{Shrinks, Shrinks-refl, scale_down_loop_lem}

-- `z` moved into the range from `lo` to `hi`.
abbrev pub clamp : ℤ → ℤ → ℤ → ℤ
clamp lo hi z = if ltb_ℤ hi z then hi else if ltb_ℤ z lo then lo else z

-- The factory never fails.
abbrev pub IsTotal : {W E : Type 0} → (ℤ → Outcome E W) → Type 0
IsTotal {W} create = (id : ℤ) → (w : W) × (create id ≡ ok w)

-- The number of rounds that scaleUp and scaleDown compute is the distance to the target.
distance :
    (a b : ℕ)
    → a ≤ 9223372036854775807
    → b ≤ 9223372036854775807
    → int64 (pos a -ℤ pos b) ≡ pos a -ℤ pos b
distance a b h k = int64_id (pos a -ℤ pos b) (omega int_laws)

min_self : (n : ℕ) → min n n ≡ n
min_self n = omega arith

pos_part_sub : (a b : ℕ) → pos_part (pos a -ℤ pos b) ≡ a - b
unfolding ◌-ℤ◌
pos_part_sub a b = ground arith

module _ {W : Type 0} where
  -- For a positive maximum and a sum that does not overflow, calculateNewSize clamps the sum into the
  -- range from 1 to the maximum.
  pub calculate_new_size_lem :
      (p : Pool W) (delta : ℤ)
      → pos 0 <ℤ p.max_size
      → IsInt64 (count p +ℤ delta)
      → calculate_new_size p delta ≡ clamp (pos 1) p.max_size (count p +ℤ delta)
  unfolding calculate_new_size
  calculate_new_size_lem p delta h r = rw (int64_id (count p +ℤ delta) r) (ground arith)

  -- For a positive maximum, the result is from 1 to the maximum, also where the sum overflows.
  pub calculate_new_size_bounds :
      (p : Pool W) (delta : ℤ)
      → pos 0 <ℤ p.max_size
      → (pos 1 ≤ℤ calculate_new_size p delta) × (calculate_new_size p delta ≤ℤ p.max_size)
  unfolding calculate_new_size
  calculate_new_size_bounds p delta h = ground arith

  -- scaleDown takes the pool down to a target below its size, and otherwise does nothing.
  pub scale_down_lem :
      (pick : List (ℤ × W) → ℕ) (t : ℕ) (p : Pool W)
      → IsConsistent p
      → length p.workers ≤ 9223372036854775807
      → t ≤ 9223372036854775807
      → Shrinks (length p.workers - t) p (scale_down pick (pos t) p).0
        × ((scale_down pick (pos t) p).1 ≡ length p.workers - t)
  unfolding scale_down
  scale_down_lem pick t p c h k =
      rw (distance (length p.workers) t h k)
        (elim (Bool-cases (leb_ℤ (pos (length p.workers) -ℤ pos t) (pos 0))) [
          | inl reached ↦
              let gap : length p.workers - t ≡ 0 =
                ground (arith, -ℤ_parts (pos (length p.workers)) (pos t)) in
              rw (reached, gap) (Shrinks-refl p c, refl)
          | inr over ↦
              let both = min_self (length p.workers - t) in
              let loop = scale_down_loop_lem pick (length p.workers - t) t p 0 c in
              rw (over, pos_part_sub (length p.workers) t)
                (rw both at loop.0, omega (arith, loop.1))
        ])

module _ {W E : Type 0} (create : ℤ → Outcome E W) where
  pub add_worker_total : IsTotal create → (p : Pool W) → (add_worker create p).1 ≡ none
  unfolding add_worker
  add_worker_total total p =
      let (w, made) = total (int32 (p.next_worker_id +ℤ pos 1)) in rw (made, add_worker) refl

  -- What the loop of scaleUp guarantees whatever the factory does.
  pub record Raised (n t : ℕ) (p : Pool W) (added : ℕ) (r : Pool W × ℕ) : Type 0 where
    pub grows : Grows n p r.0
    pub counted : length r.0.workers + added ≡ length p.workers + r.1
    pub capped : length r.0.workers ≤ max (length p.workers) t

  pub scale_up_loop_lem :
      (n t : ℕ) (p : Pool W) (added : ℕ)
      → IsConsistent p
      → HasIds n p
      → Raised n t p added (scale_up_loop create n (pos t) p added)
  unfolding scale_up_loop
  scale_up_loop_lem zero t p added c h = record {
    grows = Grows-refl 0 p c;
    counted = omega arith;
    capped = omega arith;
  }
  scale_up_loop_lem (suc n) t p added c h = elim (Bool-cases (ltb_ℤ (count p) (pos t))) [
    | inr full ↦
        rw full
          (record { grows = Grows-refl (suc n) p c; counted = omega arith; capped = omega arith })
    | inl room ↦
        let one = add_worker-Grows create p c (omega int_laws) in
        elim (Option-cases (add_worker create p).1) [
          | inr (e, failed) ↦
              rw (room, failed, scale_up_loop)
                (record {
                  grows = Grows-trans 1 0 (suc n) (omega arith) one (Grows-refl 0 _ one.consistent);
                  counted = ap (λ l. length l + added) (add_worker_fails create p failed);
                  capped = omega (arith, ap length (add_worker_fails create p failed));
                })
          | inl made ↦
              let rest =
                scale_up_loop_lem n t (add_worker create p).0 (suc added) one.consistent
                  (omega (int_laws, one.next)) in
              let counts = add_worker_counts create p c (omega int_laws) made in
              let below : length p.workers < t = ground arith in
              rw (room, made, scale_up_loop)
                (record {
                  grows = Grows-trans 1 n (suc n) (omega arith) one rest.grows;
                  counted = omega (arith, counts, rest.counted);
                  capped = omega (arith, counts, rest.capped);
                })
        ]
  ]

  -- With a factory that does not fail the loop adds a worker a round until the target is met.
  pub scale_up_loop_reaches :
      (n t : ℕ) (p : Pool W) (added : ℕ)
      → IsTotal create
      → IsConsistent p
      → HasIds n p
      → length (scale_up_loop create n (pos t) p added).0.workers
        ≡ length p.workers + min n (t - length p.workers)
  unfolding scale_up_loop
  scale_up_loop_reaches zero t p added total c h = omega arith
  scale_up_loop_reaches (suc n) t p added total c h = elim (Bool-cases (ltb_ℤ (count p) (pos t))) [
    | inr full ↦ rw full (ground arith)
    | inl room ↦
        let one = add_worker-Grows create p c (omega int_laws) in
        let made = add_worker_total total p in
        let counts = add_worker_counts create p c (omega int_laws) made in
        let below : length p.workers < t = ground arith in
        let rest =
          scale_up_loop_reaches n t (add_worker create p).0 (suc added) total one.consistent
            (omega (int_laws, one.next)) in
        rw (room, made, scale_up_loop) (omega (arith, counts, rest))
  ]

  -- scaleUp, whatever the factory does.
  pub scale_up_lem :
      (t : ℕ) (p : Pool W)
      → IsConsistent p
      → HasIds t p
      → length p.workers ≤ 9223372036854775807
      → t ≤ 9223372036854775807
      → Raised (t - length p.workers) t p 0 (scale_up create (pos t) p)
  unfolding scale_up
  scale_up_lem t p c ids h k =
      rw (distance t (length p.workers) k h)
        (elim (Bool-cases (leb_ℤ (pos t -ℤ pos (length p.workers)) (pos 0))) [
          | inl reached ↦ rw reached (record {
            grows = Grows-refl (t - length p.workers) p c;
            counted = omega arith;
            capped = omega arith;
          })
          | inr under ↦
              rw (under, pos_part_sub t (length p.workers))
                (scale_up_loop_lem (t - length p.workers) t p 0 c (omega int_laws))
        ])

  pub scale_up_reaches :
      (t : ℕ) (p : Pool W)
      → IsTotal create
      → IsConsistent p
      → HasIds t p
      → length p.workers ≤ t
      → t ≤ 9223372036854775807
      → length (scale_up create (pos t) p).0.workers ≡ t
  unfolding scale_up
  scale_up_reaches t p total c ids h k =
      rw (distance t (length p.workers) k (omega arith))
        (elim (Bool-cases (leb_ℤ (pos t -ℤ pos (length p.workers)) (pos 0))) [
          | inl reached ↦ rw reached (ground (arith, -ℤ_parts (pos t) (pos (length p.workers))))
          | inr under ↦
              rw (under, pos_part_sub t (length p.workers))
                (omega (
                  arith,
                  scale_up_loop_reaches (t - length p.workers) t p 0 total c (omega int_laws),
                ))
        ])
