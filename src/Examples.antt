-- ===== src/Examples.antt =====
-- examples/advanced/main.go and examples/simple/main.go: the tasks that the two example programs submit.
-- The tasks act on a world `W` with a clock, which a Machine reads. What SecureIntn returns without looking at
-- its error is 0 where there is one.
pub mod Sums
pub mod Processor
pub mod Rounds
pub mod Submitting
pub mod Main
pub mod Monitoring
pub mod Unfinished
mod Tests
use lemmings.Common.{
  ℕ, zero, suc, ◌%◌, String, Option, none, some, ok, err, ℤ, pos, ◌+ℤ◌, mul_ℤ, quot_ℤ, int64, ltb_ℤ,
  pos_part, if◌then◌else◌,
}
use Prim.Native.String.{◌++◌}
use lemmings.Worker.Errors.{Error, Formats, other}
use lemmings.Worker.Task.{TaskFunc, Task, simple, function}
use lemmings.Worker.Task.Simple
use lemmings.Worker.Task.Function
use lemmings.Utils.Random.{Random, secure_intn}

-- What the example programs ask of the world: time.Now, time.Since, time.Sleep, random numbers, and the texts
-- of numbers.
pub record Machine (W : Type 0) : Type 0 where
  pub now : W → ℤ × W
  pub since : ℤ → W → ℤ × W
  pub sleep : ℤ → W → W
  pub random : Random W
  pub formats : Formats

-- TaskResult; no code sets its field Error.
pub record TaskResult : Type 0 where
  pub id : String
  pub value : ℤ
  pub duration : ℤ

-- `for j := 0; j < n; j++ { result += j % 10 }`, with the rounds that are left, `j` and `result`.
unfoldable pub add_digits : ℕ → ℕ → ℤ → ℤ
add_digits zero j result = result
add_digits (suc left) j result = add_digits left (suc j) (int64 (result +ℤ pos (j % 10)))

-- `for j := 0; j < n; j++ { result += j }`
unfoldable pub add_up : ℕ → ℕ → ℤ → ℤ
add_up zero j result = result
add_up (suc left) j result = add_up left (suc j) (int64 (result +ℤ pos j))

module _ {W : Type 0} (machine : Machine W) where
  -- `v, _ := utils.SecureIntn(n)`
  unfoldable pub draw : ℤ → W → ℤ × W
  draw n w =
      let (result, w₁) = secure_intn machine.random n w in
      (elim result [ ok v ↦ v | err e ↦ pos 0 ], w₁)

module _ {W C : Type 0} (machine : Machine W) where
  -- The function of ProcessMath's tasks.
  unfoldable pub math_function : String → ℤ → TaskFunc W TaskResult C
  math_function id complexity ctx w =
      let (start, w₁) = machine.now w in
      let result = add_digits (pos_part (int64 (mul_ℤ complexity 100000))) 0 (pos 0) in
      let (duration, w₂) = machine.since start w₁ in
      ((some (record { id = id; value = result; duration = duration }), none), w₂)

  -- The function of ProcessIO's tasks.
  unfoldable pub io_function : String → ℤ → TaskFunc W TaskResult C
  io_function id io_time ctx w =
      let (start, w₁) = machine.now w in
      let w₂ = machine.sleep io_time w₁ in
      let result = add_up 1000 0 (pos 0) in
      let (duration, w₃) = machine.since start w₂ in
      ((some (record { id = id; value = result; duration = duration }), none), w₃)

  -- The functions of ProcessMixed's tasks.
  unfoldable pub mixed_cpu_function : String → TaskFunc W TaskResult C
  unfolding draw
  mixed_cpu_function id ctx w =
      let (start, w₁) = machine.now w in
      let (drawn, w₂) = draw machine (pos 10) w₁ in
      let complexity = int64 (drawn +ℤ pos 1) in
      let result = add_digits (pos_part (int64 (mul_ℤ complexity 50000))) 0 (pos 0) in
      let (duration, w₃) = machine.since start w₂ in
      ((some (record { id = id; value = result; duration = duration }), none), w₃)

  unfoldable pub mixed_io_function : String → TaskFunc W TaskResult C
  unfolding draw
  mixed_io_function id ctx w =
      let (start, w₁) = machine.now w in
      let (drawn, w₂) = draw machine (pos 500) w₁ in
      let sleep_time = int64 (mul_ℤ (int64 (drawn +ℤ pos 10)) 1000000) in
      let w₃ = machine.sleep sleep_time w₂ in
      let (duration, w₄) = machine.since start w₃ in
      (
        (some (record { id = id; value = quot_ℤ sleep_time 1000000; duration = duration }), none),
        w₄,
      )

  unfoldable pub mixed_error_function : String → TaskFunc W TaskResult C
  unfolding draw
  mixed_error_function id ctx w =
      let (chance, w₁) = draw machine (pos 10) w in
      let (start, w₂) = machine.now w₁ in
      let (drawn, w₃) = draw machine (pos 100) w₂ in
      let w₄ = machine.sleep (int64 (mul_ℤ (int64 (drawn +ℤ pos 10)) 1000000)) w₃ in
      let (duration, w₅) = machine.since start w₄ in
      if ltb_ℤ chance (pos 3)
      then ((none, some (other "random task failure")), w₁)
      else ((some (record { id = id; value = pos 42; duration = duration }), none), w₅)

  -- The function of the simple example's tasks.
  unfoldable pub simple_function : String → TaskFunc W String C
  unfolding draw
  simple_function id ctx w =
      let (drawn, w₁) = draw machine (pos 500) w in
      let w₂ = machine.sleep (int64 (mul_ℤ (int64 (drawn +ℤ pos 100)) 1000000)) w₁ in
      let (chance, w₃) = draw machine (pos 10) w₂ in
      (
        elim chance [
          | pos zero ↦ (none, some (other "random task failure"))
          | _ ↦ (some ("Result from task " ++ id), none)
        ],
        w₃,
      )

module _ {W C K : Type 0} (machine : Machine W) where
  -- The task of round `i`, in ProcessMath and in ProcessIO.
  unfoldable pub math_task : ℤ → ℕ → Task W TaskResult C K
  math_task complexity i =
      let id = "math-" ++ machine.formats.decimal (pos i) in
      function (Function.new_function_task id (some (math_function machine id complexity)))

  unfoldable pub io_task : ℤ → ℕ → Task W TaskResult C K
  io_task io_time i =
      let id = "io-" ++ machine.formats.decimal (pos i) in
      function (Function.new_function_task id (some (io_function machine id io_time)))

  -- The task of round `i` of ProcessMixed, of the type drawn; it is nil, as `none`, for no other type.
  -- WithRetries is the embedded SimpleTask's and returns that.
  unfoldable pub mixed_task : ℤ → ℕ → Option (Task W TaskResult C K)
  mixed_task (pos zero) i =
      let id = "mixed-" ++ machine.formats.decimal (pos i) in
      some (function (Function.new_function_task id (some (mixed_cpu_function machine id))))
  mixed_task (pos (suc zero)) i =
      let id = "mixed-" ++ machine.formats.decimal (pos i) in
      some (function (Function.new_function_task id (some (mixed_io_function machine id))))
  mixed_task (pos (suc (suc zero))) i =
      let id = "mixed-" ++ machine.formats.decimal (pos i) in
      let task = Function.new_function_task id (some (mixed_error_function machine id)) in
      some (simple (Simple.with_retries task.simple_task (pos 2)))
  mixed_task _ i = none

  -- The task of round `i` of the simple example.
  unfoldable pub simple_task : ℕ → Task W String C K
  simple_task i =
      let id = "task-" ++ machine.formats.decimal (pos i) in
      let task = Function.new_function_task id (some (simple_function machine id)) in
      function (Function.with_timeout task (pos 2000000000))
