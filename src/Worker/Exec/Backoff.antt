-- ===== src/Worker/Exec/Backoff.antt =====
-- pkg/worker/worker.go: the duration of the wait between two attempts in waitForRetry.
use lemmings.Common.{
  ℕ, zero, suc, ◌-◌, ◌*◌, ◌^◌, ◌≤◌, ◌<◌, ◌≡◌, refl, inl, inr, min, Bool, true, ◌&&◌, ltb,
  Bool-cases, lt→ltb, ltb→lt, ℤ, pos, int64, eqb_ℤ, arith,
}
use native.Mathlib.Nat.{pow-suc}
use lemmings.Worker.Exec.{backoff_duration}

-- 10 ms, doubled with each attempt, up to a second.
abbrev pub doubling : ℕ → ℤ
doubling attempt = pos (min 1000000000 (10000000 * 2 ^ attempt))

abbrev past_six : ℕ → ℕ
past_six k = suc (suc (suc (suc (suc (suc (suc k))))))

above_cap : (k : ℕ) → 1000000000 ≤ 10000000 * 2 ^ past_six k
above_cap zero = omega arith
above_cap (suc k) = omega (arith, above_cap k, pow-suc 2 (past_six k))

agree_below : ℕ → Bool
agree_below zero = true
agree_below (suc n) = eqb_ℤ (backoff_duration n) (doubling n) && agree_below n

agree_below_sound :
    (n x : ℕ) → agree_below n ≡ true → x < n → eqb_ℤ (backoff_duration x) (doubling x) ≡ true
unfolding agree_below
agree_below_sound zero x h lt = absurd (omega arith)
agree_below_sound (suc n) x h lt = ground (arith, agree_below_sound n x)

table : agree_below 21 ≡ true
unfolding agree_below backoff_duration int64
table = refl

long_waits : (attempt : ℕ) → 20 < attempt → backoff_duration attempt ≡ doubling attempt
unfolding backoff_duration int64
long_waits attempt h =
    let e : past_six (attempt - 7) ≡ attempt = omega arith in
    let capped : 1000000000 ≤ 10000000 * 2 ^ attempt = rw e at (above_cap (attempt - 7)) in
    let m : min 1000000000 (10000000 * 2 ^ attempt) ≡ 1000000000 = omega arith in
    rw (lt→ltb 20 attempt h, m) refl

-- The wait is 10 ms doubled with each attempt, and a second from the eighth attempt on: the shift by
-- at most 20 neither overflows nor changes a wait.
backoff_duration_lem : (attempt : ℕ) → backoff_duration attempt ≡ doubling attempt
backoff_duration_lem attempt = elim (Bool-cases (ltb 20 attempt)) [
  | inl long ↦ long_waits attempt (ltb→lt 20 attempt long)
  | inr short ↦ eqb_sound _ _ (agree_below_sound 21 attempt table (ground arith))
]
  where
    eqb_sound : (a b : ℤ) → eqb_ℤ a b ≡ true → a ≡ b
    eqb_sound a b h = ground arith
