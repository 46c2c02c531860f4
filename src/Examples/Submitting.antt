-- ===== src/Examples/Submitting.antt =====
-- examples/advanced/main.go: what ProcessMath, ProcessIO and ProcessMixed submit and count.
use lemmings.Common.{
  ℕ, zero, suc, ◌+◌, ◌<◌, ◌≡◌, refl, ap, ◌∙◌, inl, inr, Outcome-cases, some, ok, ℤ, pos, arith,
}
use Prim.Native.String.{◌++◌}
use lemmings.Worker.Task.{Task}
use lemmings.Worker.Task.Dispatch
use lemmings.Worker.Task.Function
use lemmings.Worker.Task.Simple
use lemmings.Utils.Random.{secure_intn}
use lemmings.Manager.Lifecycle.{Manager}
use lemmings.Manager.Lifecycle.Submission.{Choice}
use lemmings.Examples.{Machine, TaskResult, draw, math_task, io_task, mixed_task}
use lemmings.Examples.Processor.{TaskProcessor, process_math, process_io, process_mixed}
use lemmings.Examples.Rounds.{Processed, Makes, process_loop-Processed}

-- rand.Int answers a positive bound with a number below it, or an error.
abbrev pub IsBelow : {W : Type 0} → Machine W → Type 0
IsBelow {W = W} machine =
    (n : ℕ) (u : W) (k : ℕ) → 0 < n → (machine.random.int n u).0 ≡ ok k → k < n

draw_three :
    {W : Type 0} (machine : Machine W) (w : W)
    → IsBelow machine
    → (k : ℕ) × ((draw machine (pos 3) w).0 ≡ pos k) × (k < 3)
unfolding draw secure_intn
draw_three machine w below = elim (Outcome-cases (machine.random.int 3 w).0) [
  | inl (k, drawn) ↦ (k, rw drawn refl, below 3 w k (omega arith) drawn)
  | inr (e, failed) ↦ (0, rw failed refl, omega arith)
]

module _ {W C K : Type 0} (machine : Machine W) where
  math_task-Makes :
      (complexity : ℤ)
      → Makes {K = K}
          (λ i v. (some (math_task {C = C} machine complexity i), v))
          (λ i. "math-" ++ machine.formats.decimal (pos i))
  unfolding math_task Dispatch.id Function.new_function_task
  math_task-Makes complexity i w = (_, refl, refl)

  io_task-Makes :
      (io_time : ℤ)
      → Makes {K = K}
          (λ i v. (some (io_task {C = C} machine io_time i), v))
          (λ i. "io-" ++ machine.formats.decimal (pos i))
  unfolding io_task Dispatch.id Function.new_function_task
  io_task-Makes io_time i w = (_, refl, refl)

  mixed_task-some :
      (kind i : ℕ)
      → kind < 3
      → (t : Task W TaskResult C K) × (mixed_task machine (pos kind) i ≡ some t)
        × (Dispatch.id t ≡ "mixed-" ++ machine.formats.decimal (pos i))
  unfolding mixed_task Dispatch.id Function.new_function_task Simple.with_retries
  mixed_task-some zero i h = (_, refl, refl)
  mixed_task-some (suc zero) i h = (_, refl, refl)
  mixed_task-some (suc (suc zero)) i h = (_, refl, refl)
  mixed_task-some (suc (suc (suc kind))) i h = absurd (omega arith)

  mixed_task-Makes :
      IsBelow machine
      → Makes {K = K}
          (λ i v.
            let (kind, v₁) = draw machine (pos 3) v in (mixed_task {C = C} machine kind i, v₁))
          (λ i. "mixed-" ++ machine.formats.decimal (pos i))
  mixed_task-Makes below i w =
      let (kind, drawn, small) = draw_three machine w below in
      let (t, is_some, named) = mixed_task-some kind i small in
      (t, ap (λ k. mixed_task machine k i) drawn ∙ is_some, named)

module _ {P W C K F : Type 0} (machine : Machine W) (choose : ℕ → Choice) where
  -- Where rand.Int answers a positive bound with a number below it, or an error, and for a number of tasks that the count of the processor
  -- can be raised by below 2 ^ 63, ProcessMath, ProcessIO and ProcessMixed do the same, although their
  -- tasks differ and ProcessMixed draws a type for each: none of them panics on a nil task; each puts the
  -- tasks before the first error at the end of the manager's queue, in order and under its own names
  -- numbered from 0, and counts each, in the manager and in the processor; the error names the task after
  -- those, and there is none if all were submitted.
  pub process_lem :
      (count n : ℕ) (complexity io_time : ℤ) (tp : TaskProcessor (Manager P W TaskResult C K F))
      (w : W)
      → IsBelow machine
      → n + count < 9223372036854775808
      → tp.total_processed ≡ pos n
      → Processed
          (λ i. "math-" ++ machine.formats.decimal (pos i))
          count
          0
          n
          tp
          (process_math machine choose (pos count) complexity tp w)
        × Processed
            (λ i. "io-" ++ machine.formats.decimal (pos i))
            count
            0
            n
            tp
            (process_io machine choose (pos count) io_time tp w)
        × Processed
            (λ i. "mixed-" ++ machine.formats.decimal (pos i))
            count
            0
            n
            tp
            (process_mixed machine choose (pos count) tp w)
  unfolding process_math process_io process_mixed
  process_lem count n complexity io_time tp w below fits total = (
    process_loop-Processed _ _ choose count 0 n tp w (math_task-Makes machine complexity) fits
        total,
    process_loop-Processed _ _ choose count 0 n tp w (io_task-Makes machine io_time) fits total,
    process_loop-Processed _ _ choose count 0 n tp w (mixed_task-Makes machine below) fits total,
  )
