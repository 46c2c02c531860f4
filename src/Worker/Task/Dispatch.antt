-- ===== src/Worker/Task/Dispatch.antt =====
-- pkg/worker/task.go: the methods of the Task interface, by implementation. A FunctionTask has those of
-- the SimpleTask that it embeds, and its own Execute.
use lemmings.Common.{String, Option, ℤ}
use lemmings.Worker.Errors.{Error}
use lemmings.Worker.Task.{TaskFunc, Task, simple, function, foreign, Timers}
use lemmings.Worker.Task.Simple
use lemmings.Worker.Task.Function

module _ {W V C K : Type 0} where
  unfoldable pub id : Task W V C K → String
  id (simple t) = t.task_id
  id (function t) = t.simple_task.task_id
  id (foreign t) = t.id

  unfoldable pub kind : Task W V C K → String
  kind (simple t) = t.task_type
  kind (function t) = t.simple_task.task_type
  kind (foreign t) = t.kind

  unfoldable pub priority : Task W V C K → ℤ
  priority (simple t) = t.task_priority
  priority (function t) = t.simple_task.task_priority
  priority (foreign t) = t.priority

  unfoldable pub max_retries : Task W V C K → ℤ
  max_retries (simple t) = t.max_retry
  max_retries (function t) = t.simple_task.max_retry
  max_retries (foreign t) = t.max_retries

  unfoldable pub validate : Task W V C K → W → Option Error × W
  validate (simple t) = Simple.validate t
  validate (function t) = Simple.validate t.simple_task
  validate (foreign t) = t.validate

  unfoldable pub execute : Timers W V C → Task W V C K → TaskFunc W V C
  execute timers (simple t) = Simple.execute t
  execute timers (function t) = Function.execute timers t
  execute timers (foreign t) = t.execute
