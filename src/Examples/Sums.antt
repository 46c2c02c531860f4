-- ===== src/Examples/Sums.antt =====
-- examples/advanced/main.go: the sums that the tasks of ProcessMath and ProcessIO compute, in closed form.
use lemmings.Common.{
  Option, ℤ, ℕ, zero, suc, ◌+◌, ◌*◌, ◌%◌, ◌<◌, ◌≡◌, refl, ap, ◌∙◌, String, none, some, pos, ◌+ℤ◌,
  mul_ℤ, int64, int64_id, pos_part, arith,
}
use lemmings.Worker.Errors.{Error}
use lemmings.Examples.{Machine, TaskResult, add_digits, add_up, math_function, io_function}

-- The sum of `j % 10` from `j` on, for so many rounds.
digits : ℕ → ℕ → ℕ
digits zero j = 0
digits (suc left) j = j % 10 + digits left (suc j)

add_pos : (a b : ℕ) → pos a +ℤ pos b ≡ pos (a + b)
unfolding ◌+ℤ◌
add_pos a b = ground arith

digits_lem :
    (left j s : ℕ)
    → s + digits left j < 9223372036854775808
    → add_digits left j (pos s) ≡ pos (s + digits left j)
unfolding add_digits digits
digits_lem zero j s h = ap pos (omega arith)
digits_lem (suc left) j s h =
    let fits : int64 (pos s +ℤ pos (j % 10)) ≡ pos (s + j % 10) =
      ap int64 (add_pos s (j % 10)) ∙ int64_id (pos (s + j % 10)) (omega arith, omega arith) in
    ap (add_digits left (suc j)) fits
    ∙ digits_lem left (suc j) (s + j % 10) (omega (arith, h))
    ∙ ap pos (omega arith)

-- Ten rounds from a multiple of ten on.
ten_digits :
    (left i : ℕ)
    → digits (suc (suc (suc (suc (suc (suc (suc (suc (suc (suc left)))))))))) (10 * i)
      ≡ 45 + digits left (10 * suc i)
unfolding digits
ten_digits left i =
    let same : (suc (suc (suc (suc (suc (suc (suc (suc (suc (suc (10 * i))))))))))) ≡ 10 * suc i =
      omega arith in
    omega (arith, ap (digits left) same)

digits-tens : (m i : ℕ) → digits (10 * m) (10 * i) ≡ 45 * m
unfolding digits
digits-tens zero i = refl
digits-tens (suc m) i =
    let more : 10 * suc m ≡ (suc (suc (suc (suc (suc (suc (suc (suc (suc (suc (10 * m))))))))))) =
      omega arith in
    ap (λ n. digits n (10 * i)) more ∙ ten_digits (10 * m) i ∙ omega (arith, digits-tens m (suc i))

math_sum :
    (c : ℕ)
    → 450000 * c < 9223372036854775808
    → add_digits (pos_part (int64 (mul_ℤ (pos c) 100000))) 0 (pos 0) ≡ pos (450000 * c)
unfolding mul_ℤ
math_sum c h =
    let whole : int64 (pos (c * 100000)) ≡ pos (10 * (10000 * c)) =
      int64_id (pos (c * 100000)) (omega arith, omega (arith, h)) ∙ ap pos (omega arith) in
    let sum = digits-tens (10000 * c) 0 in
    ap (λ n. add_digits (pos_part n) 0 (pos 0)) whole
    ∙ digits_lem (10 * (10000 * c)) 0 0 (omega (arith, h, sum))
    ∙ ap pos (omega (arith, sum))

io_sum : add_up 1000 0 (pos 0) ≡ pos 499500
unfolding add_up int64 ◌+ℤ◌
io_sum = refl

-- What a task returns that succeeds.
abbrev pub made : String → ℤ → ℤ → Option TaskResult × Option Error
made id duration value = (some (record { id = id; value = value; duration = duration }), none)

-- A task of ProcessMath returns 450000 times its complexity, as long as that is a number from 0 below
-- 2 ^ 63, and a task of ProcessIO returns 499500, whatever the time it sleeps: neither returns an error,
-- and each reports its id and the time since its start.
sums_lem :
    {W C : Type 0} (machine : Machine W) (id : String) (c : ℕ) (io_time : ℤ) (ctx : C) (w : W)
    → 450000 * c < 9223372036854775808
    → ((math_function machine id (pos c) ctx w).0
        ≡ made id (machine.since (machine.now w).0 (machine.now w).1).0 (pos (450000 * c)))
      × ((io_function machine id io_time ctx w).0
          ≡ made id
              (machine.since (machine.now w).0 (machine.sleep io_time (machine.now w).1)).0
              (pos 499500))
unfolding math_function io_function
sums_lem machine id c io_time ctx w h =
    let (start, w₁) = machine.now w in
    (
      ap (made id (machine.since start w₁).0) (math_sum c h),
      ap (made id (machine.since start (machine.sleep io_time w₁)).0) io_sum,
    )
