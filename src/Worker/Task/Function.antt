-- ===== src/Worker/Task/Function.antt =====
-- pkg/worker/task.go: the methods of FunctionTask.
use lemmings.Common.{String, Option, none, some, ℤ, pos, leb_ℤ, if◌then◌else◌}
use lemmings.Worker.Errors.{Error, other, deadline_exceeded, task_timeout_error}
use lemmings.Worker.Task.{TaskFunc, FunctionTask, Race, finished, expired, Timers}
use lemmings.Worker.Task.Simple

nil_function : {W V C : Type 0} → TaskFunc W V C
nil_function ctx w = ((none, some (other "task function is nil")), w)

module _ {W V C K : Type 0} where
  -- NewFunctionTask
  unfoldable pub new_function_task : String → Option (TaskFunc W V C) → FunctionTask W V C K
  unfolding nil_function
  new_function_task id fn = record {
    simple_task = record {
      task_id = id;
      task_type = "function";
      task_priority = pos 0;
      max_retry = pos 3;
      function = some (elim fn [ none ↦ nil_function | some f ↦ f ]);
      validate_func = none;
      timeout = pos 0;
      callback = none;
    };
    timeout = pos 0;
    callback = none;
  }

  -- WithTimeout, WithCallback and GetCallback
  unfoldable pub with_timeout : FunctionTask W V C K → ℤ → FunctionTask W V C K
  with_timeout t duration = record t { timeout = duration }

  unfoldable pub with_callback : FunctionTask W V C K → Option K → FunctionTask W V C K
  with_callback t callback = record t { callback = callback }

  unfoldable pub get_callback : FunctionTask W V C K → Option K
  get_callback t = t.callback

  -- The error that Execute makes of the timeout context's.
  timeout_error : FunctionTask W V C K → Error → Error
  timeout_error t deadline_exceeded = task_timeout_error t.simple_task.task_id t.timeout
  timeout_error t e = e

  race_result : FunctionTask W V C K → Race V → Option V × Option Error
  race_result t (finished result err) = (result, err)
  race_result t (expired e) = (none, some (timeout_error t e))

  -- Execute
  unfoldable pub execute : Timers W V C → FunctionTask W V C K → TaskFunc W V C
  unfolding race_result timeout_error
  execute timers t ctx w =
      let inner = timers.with_timeout ctx t.timeout in
      let (race, w') = timers.race inner (Simple.execute t.simple_task) w in
      if leb_ℤ t.timeout (pos 0)
      then Simple.execute t.simple_task ctx w
      else (race_result t race, w')
