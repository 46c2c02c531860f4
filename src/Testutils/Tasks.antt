-- ===== src/Testutils/Tasks.antt =====
-- internal/testutils/mocks.go and utils.go: MockTask, and the tasks that are made of one. A task's own
-- counters are cells of the world, which its constructor sets to their first values; `int_value` makes an
-- output of an int.
use lemmings.Common.{
  String, Option, none, some, Bool, true, false, ℤ, pos, ◌+ℤ◌, int64, ltb_ℤ, if◌then◌else◌,
}
use lemmings.Worker.Errors.{Error, other}
use lemmings.Worker.Task.{TaskFunc, Task, foreign}
use lemmings.Testutils.{Cell}

pub record MockTask (W V C : Type 0) : Type 0 where
  pub id : String
  pub task_type : String
  pub priority : ℤ
  pub max_retries : ℤ
  pub exec_func : Option (TaskFunc W V C)
  pub validate_err : Option Error
  pub exec_count : Cell W ℤ

module _ {W V C : Type 0} where
  -- NewMockTask
  unfoldable pub new_mock_task :
      Cell W ℤ → String → Option (TaskFunc W V C) → W → MockTask W V C × W
  new_mock_task count id exec_func w = (
    record {
      id = id;
      task_type = "mock";
      priority = pos 0;
      max_retries = pos 1;
      exec_func = exec_func;
      validate_err = none;
      exec_count = count;
    },
    count.put (pos 0) w,
  )

  -- WithPriority, WithRetries and WithValidateError, which return the task that they change
  unfoldable pub with_priority : MockTask W V C → ℤ → MockTask W V C
  with_priority t priority = record t { priority = priority }

  unfoldable pub with_retries : MockTask W V C → ℤ → MockTask W V C
  with_retries t retries = record t { max_retries = retries }

  unfoldable pub with_validate_error : MockTask W V C → Option Error → MockTask W V C
  with_validate_error t e = record t { validate_err = e }

  -- Validate
  unfoldable pub validate : MockTask W V C → W → Option Error × W
  validate t w = (t.validate_err, w)

  -- GetExecutionCount
  unfoldable pub get_execution_count : MockTask W V C → W → ℤ
  get_execution_count t w = t.exec_count.get w

module _ {W V C : Type 0} (int_value : ℤ → V) where
  -- Execute
  unfoldable pub execute : MockTask W V C → TaskFunc W V C
  execute t ctx w =
      let count = int64 (t.exec_count.get w +ℤ pos 1) in
      let w₁ = t.exec_count.put count w in
      elim t.exec_func [ some f ↦ f ctx w₁ | none ↦ ((some (int_value count), none), w₁) ]

  -- The mock as a worker.Task, by its methods.
  unfoldable pub as_task : {K : Type 0} → MockTask W V C → Task W V C K
  unfolding validate execute
  as_task t = foreign record {
    id = t.id;
    kind = t.task_type;
    priority = t.priority;
    max_retries = t.max_retries;
    validate = validate t;
    execute = execute t;
  }

  -- The function of a CounterTask, and NewCounterTask
  unfoldable pub counter_function : Cell W ℤ → TaskFunc W V C
  counter_function counter ctx w =
      let w₁ = counter.put (int64 (counter.get w +ℤ pos 1)) w in
      ((some (int_value (counter.get w₁)), none), w₁)

  unfoldable pub new_counter_task : Cell W ℤ → String → Cell W ℤ → W → MockTask W V C × W
  unfolding counter_function new_mock_task
  new_counter_task count id counter w = new_mock_task count id (some (counter_function counter)) w

  -- The function of an ErrorAfterNExecutionsTask, whose own `execCount` is the cell.
  unfoldable pub error_after_function : Cell W ℤ → ℤ → TaskFunc W V C
  error_after_function own n ctx w =
      let count = int64 (own.get w +ℤ pos 1) in
      let w₁ = own.put count w in
      if ltb_ℤ n count
      then ((none, some (other "error after N executions")), w₁)
      else ((some (int_value count), none), w₁)

  -- NewErrorAfterNExecutionsTask
  unfoldable pub new_error_after_n_executions_task :
      Cell W ℤ → Cell W ℤ → String → ℤ → W → MockTask W V C × W
  unfolding error_after_function new_mock_task
  new_error_after_n_executions_task count own id n w =
      new_mock_task count id (some (error_after_function own n)) (own.put (pos 0) w)

module _ {W V C : Type 0} (wait : C → ℤ → W → Option Error × W) (completed : V) where
  -- The function of a ContextCheckTask; `wait` is its select between the timer and the context, with the
  -- context's error if it takes that.
  unfoldable pub context_check_function : Cell W Bool → TaskFunc W V C
  context_check_function canceled ctx w =
      let (stopped, w₁) = wait ctx (pos 100_000_000) w in
      elim stopped [
        | none ↦ ((some completed, none), w₁)
        | some e ↦ ((none, some e), canceled.put true w₁)
      ]

  -- NewContextCheckTask
  unfoldable pub new_context_check_task : Cell W ℤ → Cell W Bool → String → W → MockTask W V C × W
  unfolding context_check_function new_mock_task
  new_context_check_task count canceled id w =
      new_mock_task count id (some (context_check_function canceled)) (canceled.put false w)

-- WasCanceled
unfoldable was_canceled : {W : Type 0} → Cell W Bool → W → Bool
was_canceled canceled w = canceled.get w
