-- ===== src/Testutils/Conditions.antt =====
-- internal/testutils/utils.go: WaitForCondition.
use lemmings.Common.{
  sym, subst, ◌∙◌, ◌<ℤ◌, ℕ, zero, suc, ◌*◌, ◌≤◌, ◌≡◌, refl, ap, ◌⊎◌, inl, inr, String, Option, none,
  some, Bool, Bool-cases, true, false, ℤ, pos, ◌+ℤ◌, ◌≤ℤ◌, ltb_ℤ, if◌then◌else◌, arith, int_laws,
}

-- What WaitForCondition asks of its world: time.Now, time.Sleep and the Errorf of its test, with the text.
pub record Tester (W : Type 0) : Type 0 where
  pub now : W → ℤ × W
  pub sleep : ℤ → W → W
  pub errorf : String → W → W

-- The clock of a world: time.Now reads it, it never goes back, and a sleep of 10 ms takes at least as long.
pub record IsClock {W : Type 0} (tester : Tester W) (condition : W → Bool × W) (clock : W → ℤ)
    : Type 0 where
  pub reads : (w : W) → (tester.now w).0 ≡ clock w
  pub now_later : (w : W) → clock w ≤ℤ clock (tester.now w).1
  pub condition_later : (w : W) → clock w ≤ℤ clock (condition w).1
  pub sleep_later : (w : W) → clock w +ℤ pos 10_000_000 ≤ℤ clock (tester.sleep (pos 10_000_000) w)

module _ {W : Type 0} (tester : Tester W) (condition : W → Bool × W) where
  -- The loop of WaitForCondition and what follows it; `none` where the fuel runs out.
  unfoldable pub wait_loop : ℕ → ℤ → String → W → Option (Bool × W)
  wait_loop zero deadline text w = none
  wait_loop (suc fuel) deadline text w =
      let (time, w₁) = tester.now w in
      let (holds, w₂) = condition w₁ in
      let rest = wait_loop fuel deadline text (tester.sleep (pos 10_000_000) w₂) in
      if ltb_ℤ time deadline
      then (if holds then some (true, w₂) else rest)
      else some (false, tester.errorf text w₁)

  -- WaitForCondition
  unfoldable pub wait_for_condition : ℕ → ℤ → String → W → Option (Bool × W)
  unfolding wait_loop
  wait_for_condition fuel timeout message w =
      let (time, w₁) = tester.now w in wait_loop fuel (time +ℤ timeout) message w₁

  -- A round that does not end the loop.
  abbrev pub next : W → W
  next w = tester.sleep (pos 10_000_000) (condition (tester.now w).1).1

  -- `k` rounds from the world `w` to `v`, each of them before the deadline and without the condition.
  pub data Misses (deadline : ℤ) (v : W) : ℕ → W → Type 0 where
    done : Misses deadline v zero v
    again :
        {k : ℕ} {w : W}
        → ltb_ℤ (tester.now w).0 deadline ≡ true
        → (condition (tester.now w).1).0 ≡ false
        → Misses deadline v k (next w)
        → Misses deadline v (suc k) w

  -- How the loop ends after at most `n` misses: true, if it is then before the deadline and the condition
  -- holds, or else false after the deadline, with an error of the test.
  abbrev pub Ends : ℕ → ℤ → String → W → Option (Bool × W) → Type 0
  Ends n deadline text w result =
      (k : ℕ) × (v : W) × (k ≤ n)
      × Misses deadline v k w
      × ((ltb_ℤ (tester.now v).0 deadline ≡ true)
            × ((condition (tester.now v).1).0 ≡ true)
            × (result ≡ some (true, (condition (tester.now v).1).1))
          ⊎ (ltb_ℤ (tester.now v).0 deadline ≡ false)
            × (result ≡ some (false, tester.errorf text (tester.now v).1)))

  next_later :
      (clock : W → ℤ) (n : ℕ) (deadline : ℤ) (w : W)
      → IsClock tester condition clock
      → deadline ≤ℤ clock w +ℤ pos (10_000_000 * suc n)
      → deadline ≤ℤ clock (next w) +ℤ pos (10_000_000 * n)
  next_later clock n deadline w c h = omega (
    arith,
    int_laws,
    h,
    c.now_later w,
    c.condition_later (tester.now w).1,
    c.sleep_later (condition (tester.now w).1).1,
  )

  too_early :
      (clock : W → ℤ) (deadline : ℤ) (w : W)
      → IsClock tester condition clock
      → deadline ≤ℤ clock w +ℤ pos (10_000_000 * 0)
      → ltb_ℤ (tester.now w).0 deadline ≡ true
      → ⊥
  too_early clock deadline w c h early =
      let before : ltb_ℤ (clock w) deadline ≡ true =
        ap (λ t. ltb_ℤ t deadline) (sym (c.reads w)) ∙ early in
      let less : clock w <ℤ deadline = ground arith in omega (arith, int_laws, h, less)

  starts_within :
      (clock : W → ℤ) (n : ℕ) (timeout : ℤ) (w : W)
      → IsClock tester condition clock
      → timeout ≤ℤ pos (10_000_000 * n)
      → (tester.now w).0 +ℤ timeout ≤ℤ clock (tester.now w).1 +ℤ pos (10_000_000 * n)
  starts_within clock n timeout w c h =
      let read = c.reads w in
      let from : clock w +ℤ timeout ≤ℤ clock (tester.now w).1 +ℤ pos (10_000_000 * n) =
        omega (arith, int_laws, h, c.now_later w) in
      subst (λ t. t +ℤ timeout ≤ℤ clock (tester.now w).1 +ℤ pos (10_000_000 * n)) (sym read) from

  one_round :
      (n : ℕ) (deadline : ℤ) (text : String) (w : W)
      → (ltb_ℤ (tester.now w).0 deadline ≡ true
          → (condition (tester.now w).1).0 ≡ false
          → Ends n deadline text w (wait_loop (suc n) deadline text w))
      → Ends n deadline text w (wait_loop (suc n) deadline text w)
  unfolding wait_loop
  one_round n deadline text w missing = elim (Bool-cases (ltb_ℤ (tester.now w).0 deadline)) [
    | inr late ↦ (0, w, omega arith, done, inr (late, rw late refl))
    | inl early ↦ elim (Bool-cases (condition (tester.now w).1).0) [
      | inl holds ↦ (0, w, omega arith, done, inl (early, holds, rw (early, holds) refl))
      | inr missed ↦ missing early missed
    ]
  ]

  wait_loop-Ends :
      (clock : W → ℤ) (n : ℕ) (deadline : ℤ) (text : String) (w : W)
      → IsClock tester condition clock
      → deadline ≤ℤ clock w +ℤ pos (10_000_000 * n)
      → Ends n deadline text w (wait_loop (suc n) deadline text w)
  unfolding wait_loop
  wait_loop-Ends clock zero deadline text w c h =
      one_round 0 deadline text w (λ early missed. absurd (too_early clock deadline w c h early))
  wait_loop-Ends clock (suc m) deadline text w c h =
      one_round (suc m) deadline text w (λ early missed.
        let later = next_later clock m deadline w c h in
        let (k, v, few, misses, end) = wait_loop-Ends clock m deadline text (next w) c later in
        (suc k, v, omega arith, again early missed misses, rw (early, missed, wait_loop) end))

  -- Where time.Now reads a clock that never goes back and that a sleep of 10 ms moves by as much at least,
  -- WaitForCondition returns, after at most `n` sleeps for a timeout of at most `n` times 10 ms: true if
  -- the condition then holds, before the deadline, and else false after the deadline, having failed the
  -- test; at no round before did the condition hold, nor was the deadline over.
  pub wait_for_condition_lem :
      (clock : W → ℤ) (n : ℕ) (timeout : ℤ) (message : String) (w : W)
      → IsClock tester condition clock
      → timeout ≤ℤ pos (10_000_000 * n)
      → Ends n
          ((tester.now w).0 +ℤ timeout)
          message
          (tester.now w).1
          (wait_for_condition (suc n) timeout message w)
  unfolding wait_for_condition
  wait_for_condition_lem clock n timeout message w c h =
      wait_loop-Ends clock n ((tester.now w).0 +ℤ timeout) message (tester.now w).1 c
        (starts_within clock n timeout w c h)
