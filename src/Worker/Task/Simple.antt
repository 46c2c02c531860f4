-- ===== src/Worker/Task/Simple.antt =====
-- pkg/worker/task.go: the methods of SimpleTask.
use lemmings.Common.{String, Option, none, some, ℤ, pos, if◌then◌else◌}
use text.Mathlib.Text.{◌==◌}
use lemmings.Worker.Errors.{Error, other}
use lemmings.Worker.Task.{TaskFunc, SimpleTask}

module _ {W V C K : Type 0} where
  -- NewSimpleTask
  unfoldable pub new_simple_task : String → String → Option (TaskFunc W V C) → SimpleTask W V C K
  new_simple_task id task_type fn = record {
    task_id = id;
    task_type = task_type;
    task_priority = pos 0;
    max_retry = pos 3;
    function = fn;
    validate_func = none;
    timeout = pos 0;
    callback = none;
  }

  -- WithPriority, WithRetries, WithTimeout, WithValidator and WithCallback
  unfoldable pub with_priority : SimpleTask W V C K → ℤ → SimpleTask W V C K
  with_priority t priority = record t { task_priority = priority }

  unfoldable pub with_retries : SimpleTask W V C K → ℤ → SimpleTask W V C K
  with_retries t retries = record t { max_retry = retries }

  unfoldable pub with_timeout : SimpleTask W V C K → ℤ → SimpleTask W V C K
  with_timeout t duration = record t { timeout = duration }

  unfoldable pub with_validator :
      SimpleTask W V C K → Option (W → Option Error × W) → SimpleTask W V C K
  with_validator t validator = record t { validate_func = validator }

  unfoldable pub with_callback : SimpleTask W V C K → Option K → SimpleTask W V C K
  with_callback t callback = record t { callback = callback }

  -- Validate
  unfoldable pub validate : SimpleTask W V C K → W → Option Error × W
  validate t w =
      if t.task_id == "" then (some (other "task ID cannot be empty"), w) else elim t.function [
        | none ↦ (some (other "task function cannot be nil"), w)
        | some _ ↦ elim t.validate_func [ none ↦ (none, w) | some check ↦ check w ]
      ]

  -- Execute
  unfoldable pub execute : SimpleTask W V C K → TaskFunc W V C
  execute t ctx w = elim t.function [
    | none ↦ ((none, some (other "task function is nil")), w)
    | some fn ↦ fn ctx w
  ]
