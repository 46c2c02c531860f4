-- ===== src/Worker/Task.antt =====
-- pkg/worker/task.go: the Task interface and its two implementations in the package. Code of a task's
-- own acts on an abstract world `W`; `V` are its outputs (`interface{}`, nil as `none`), `C` the
-- contexts and `K` the callbacks, which the package only stores.
pub mod Simple
pub mod Function
pub mod Dispatch
use lemmings.Common.{
  String, ◌≡◌, refl, Option, none, some, Option-cases, Bool, true, false, ℤ, pos, leb_ℤ,
  if◌then◌else◌, arith, inl, inr,
}
use text.Mathlib.Text.{◌==◌}
use lemmings.Worker.Errors.{Error, other, deadline_exceeded, task_timeout_error}

-- TaskFunc
abbrev pub TaskFunc : Type 0 → Type 0 → Type 0 → Type 0
TaskFunc W V C = C → W → (Option V × Option Error) × W

pub record SimpleTask (W V C K : Type 0) : Type 0 where
  pub task_id : String
  pub task_type : String
  pub task_priority : ℤ
  pub max_retry : ℤ
  pub function : Option (TaskFunc W V C)
  pub validate_func : Option (W → Option Error × W)
  pub timeout : ℤ
  pub callback : Option K

-- FunctionTask embeds a SimpleTask and has a timeout and a callback of its own.
pub record FunctionTask (W V C K : Type 0) : Type 0 where
  pub simple_task : SimpleTask W V C K
  pub timeout : ℤ
  pub callback : Option K

-- A Task that code outside the package implements.
pub record ForeignTask (W V C : Type 0) : Type 0 where
  pub id : String
  pub kind : String
  pub priority : ℤ
  pub max_retries : ℤ
  pub validate : W → Option Error × W
  pub execute : TaskFunc W V C

-- How the select of FunctionTask.Execute ends: with the function's result, or with the error of the
-- timeout context.
pub data Race (V : Type 0) : Type 0 where
  finished : Option V → Option Error → Race V
  expired : Error → Race V

-- context.WithTimeout and the race between the goroutine and the context: the scheduler's choice.
pub record Timers (W V C : Type 0) : Type 0 where
  pub with_timeout : C → ℤ → C
  pub race : C → TaskFunc W V C → W → Race V × W

-- The implementations of the Task interface.
pub data Task (W V C K : Type 0) : Type 0 where
  simple : SimpleTask W V C K → Task W V C K
  function : FunctionTask W V C K → Task W V C K
  foreign : ForeignTask W V C → Task W V C K
