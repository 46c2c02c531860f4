-- ===== src/Worker/Pool/Resizing.antt =====
-- pkg/worker/pool.go: Scale.
use lemmings.Common.{
  ℕ, ◌+◌, ◌<◌, ◌≡◌, refl, sym, ap, subst, ◌≢◌, ◌∙◌, true, List, if_elim, Outcome, ℤ, pos, ◌+ℤ◌,
  ◌≤ℤ◌, ◌<ℤ◌, ltb_ℤ, IsInt64, arith, int_laws, +ℤ_parts, length, pos_part, of_nonneg,
}
use lemmings.Worker.Pool.{Pool, count, calculate_new_size, scale_up, scale_down, scale}
use lemmings.Worker.Pool.Invariant.{HasIds}
use lemmings.Worker.Pool.Removal.{Shrinks}
use lemmings.Worker.Pool.Methods.{Inv}
use lemmings.Worker.Pool.Scaling.{
  clamp, IsTotal, calculate_new_size_lem, calculate_new_size_bounds, scale_down_lem, Raised,
  scale_up_lem, scale_up_reaches,
}

clamp_above :
    (most : ℤ) (n : ℕ) (delta : ℤ)
    → pos n ≤ℤ most
    → ltb_ℤ (pos 0) delta ≡ true
    → pos n ≤ℤ clamp (pos 1) most (pos n +ℤ delta)
clamp_above most n delta h up = ground (arith, +ℤ_parts (pos n) delta)

clamp_below :
    (most : ℤ) (n : ℕ) (delta : ℤ)
    → pos 0 <ℤ most
    → 0 < n
    → ltb_ℤ delta (pos 0) ≡ true
    → clamp (pos 1) most (pos n +ℤ delta) ≤ℤ pos n
clamp_below most n delta h some_worker down = ground (arith, +ℤ_parts (pos n) delta)

module _ {W E : Type 0} (create : ℤ → Outcome E W) where
  Raised-Inv :
      (p : Pool W) (n t added : ℕ) (r : Pool W × ℕ)
      → Inv p
      → p.started ≡ true
      → pos t ≤ℤ p.max_size
      → Raised create n t p added r
      → Inv r.0
  Raised-Inv p n t added r v on h g = record {
    consistent = g.grows.consistent;
    bounded = rw g.grows.same_max (omega (arith, g.capped, v.bounded));
    positive = rw g.grows.same_max v.positive;
    fits = rw g.grows.same_max v.fits;
    sized = rw (g.grows.same_max, g.grows.same_size) v.sized;
    idle = λ off. cc (g.grows.same_started ∙ on, off);
  }

module _ {W : Type 0} where
  lowered-Inv : (p q : Pool W) (n : ℕ) → Inv p → p.started ≡ true → Shrinks n p q → Inv q
  lowered-Inv p q n v on g = record {
    consistent = g.consistent;
    bounded = rw g.same_max (omega (arith, g.removed, v.bounded));
    positive = rw g.same_max v.positive;
    fits = rw g.same_max v.fits;
    sized = rw (g.same_max, g.same_size) v.sized;
    idle = λ off. cc (g.same_started ∙ on, off);
  }

module _ {W E : Type 0} (create : ℤ → Outcome E W) (pick : List (ℤ × W) → ℕ) where
  -- What Scale guarantees whatever the factory does.
  abbrev pub Scaled : Pool W → Pool W × ℕ × ℕ → Type 0
  Scaled p r =
      Inv r.0
      × (r.0.max_size ≡ p.max_size)
      × (r.0.started ≡ p.started)
      × (length r.0.workers + r.2 ≡ length p.workers + r.1)

  Scaled-up :
      (p : Pool W) (t : ℕ)
      → Inv p
      → HasIds (pos_part p.max_size) p
      → p.started ≡ true
      → pos t ≤ℤ p.max_size
      → Scaled p ((scale_up create (pos t) p).0, (scale_up create (pos t) p).1, 0)
  Scaled-up p t v ids on h =
      let g =
        scale_up_lem create t p v.consistent (omega int_laws) (omega (arith, v.bounded, v.fits))
          (omega (arith, v.fits)) in
      (
        Raised-Inv create p _ t 0 _ v on h g,
        g.grows.same_max,
        g.grows.same_started,
        omega (arith, g.counted),
      )

  Scaled-down :
      (p : Pool W) (t : ℕ)
      → Inv p
      → p.started ≡ true
      → pos t ≤ℤ p.max_size
      → Scaled p ((scale_down pick (pos t) p).0, 0, (scale_down pick (pos t) p).1)
  Scaled-down p t v on h =
      let (g, n) =
        scale_down_lem pick t p v.consistent (omega (arith, v.bounded, v.fits))
          (omega (arith, v.fits)) in
      (lowered-Inv p _ _ v on g, g.same_max, g.same_started, omega (arith, g.removed, n))

  -- On a pool that satisfies the invariant and has an int32 id left for each worker of its maximum
  -- size, Scale keeps the invariant, so never exceeds the maximum, and its two results account
  -- exactly for the change in the number of workers, also when the factory fails half way.
  pub scale_lem :
      (p : Pool W) (delta : ℤ)
      → Inv p
      → HasIds (pos_part p.max_size) p
      → Scaled p (scale create pick p delta)
  unfolding scale
  scale_lem p delta v ids =
      let target = calculate_new_size p delta in
      let bounds = calculate_new_size_bounds p delta v.positive in
      let whole = of_nonneg target (omega (arith, bounds)) in
      let t = pos_part target in
      let fits_target = subst (λ z. z ≤ℤ p.max_size) whole bounds.1 in
      if_elim (Scaled p) p.started
        (λ on.
          if_elim (Scaled p) (ltb_ℤ (pos 0) delta)
            (λ up.
              subst (λ z. Scaled p ((scale_up create z p).0, (scale_up create z p).1, 0))
                (sym whole) (Scaled-up p t v ids on fits_target))
            (λ _.
              if_elim (Scaled p) (ltb_ℤ delta (pos 0))
                (λ down.
                  subst (λ z. Scaled p ((scale_down pick z p).0, 0, (scale_down pick z p).1))
                    (sym whole) (Scaled-down p t v on fits_target))
                (λ same. (v, refl, refl, omega arith))))
        (λ off. (v, refl, refl, omega arith))

  -- On a started pool that satisfies the invariant and has a worker, with a factory that does not
  -- fail, int32 ids left for the maximum size and no overflow of the sum, Scale by a delta other than 0
  -- ends at the sum of size and delta, clamped into the range from 1 to the maximum.
  pub scale_reaches :
      (p : Pool W) (delta : ℤ)
      → IsTotal create
      → Inv p
      → HasIds (pos_part p.max_size) p
      → p.started ≡ true
      → 0 < length p.workers
      → delta ≢ pos 0
      → IsInt64 (count p +ℤ delta)
      → count (scale create pick p delta).0 ≡ clamp (pos 1) p.max_size (count p +ℤ delta)
  unfolding scale
  scale_reaches p delta total v ids on some_worker moved r =
      let target = calculate_new_size p delta in
      let want = clamp (pos 1) p.max_size (count p +ℤ delta) in
      let clamped = calculate_new_size_lem p delta v.positive r in
      let bounds = calculate_new_size_bounds p delta v.positive in
      let whole = of_nonneg target (omega (arith, bounds)) in
      let t = pos_part target in
      let fits_target = subst (λ z. z ≤ℤ p.max_size) whole bounds.1 in
      let at_t : pos t ≡ want = sym whole ∙ clamped in
      let ends = λ (q : Pool W × ℕ × ℕ). count q.0 ≡ want in
      if_elim ends p.started
        (λ _.
          if_elim ends (ltb_ℤ (pos 0) delta)
            (λ up.
              let room = clamp_above p.max_size (length p.workers) delta v.bounded up in
              subst (λ z. count (scale_up create z p).0 ≡ want) (sym whole)
                (ap pos (
                    scale_up_reaches create t p total v.consistent (omega int_laws)
                      (omega (arith, subst (λ z. count p ≤ℤ z) (sym at_t) room))
                      (omega (arith, v.fits)))
                  ∙ at_t))
            (λ not_up.
              if_elim ends (ltb_ℤ delta (pos 0))
                (λ down.
                  let room =
                    clamp_below p.max_size (length p.workers) delta v.positive some_worker down in
                  subst (λ z. count (scale_down pick z p).0 ≡ want) (sym whole)
                    (let (g, n) =
                        scale_down_lem pick t p v.consistent (omega (arith, v.bounded, v.fits))
                          (omega (arith, v.fits)) in
                      let reached : length (scale_down pick (pos t) p).0.workers ≡ t =
                        omega (arith, g.removed, subst (λ z. z ≤ℤ count p) (sym at_t) room) in
                      ap pos reached ∙ at_t))
                (λ not_down. absurd (moved (ground arith)))))
        (λ off. cc)
