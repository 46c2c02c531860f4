-- ===== src/Worker/Errors.antt =====
-- pkg/worker/errors.go: the error values of the package, their texts and their chains. How Go's fmt
-- prints a number and a duration is a parameter.
use lemmings.Common.{String, Option, none, some, ℤ}
use Prim.Native.String.{◌++◌}

-- The values of Go's `error` that the package makes or passes on. `other` is an error of a task's own
-- code, known by its text, or one made by errors.New; `wrapped` is fmt.Errorf with `%w` at the end.
pub data Error : Type 0 where
  other : String → Error
  canceled deadline_exceeded : Error
  wrapped : String → Error → Error
  task_error : String → ℤ → String → Error → Error
  task_error_no_cause : String → ℤ → String → Error
  task_timeout_error : String → ℤ → Error

pub record Formats : Type 0 where
  pub decimal : ℤ → String
  pub duration : ℤ → String

-- NewTaskError; a nil cause is `none`.
unfoldable pub new_task_error : String → ℤ → String → Option Error → Error
new_task_error task_id attempt message (some cause) = task_error task_id attempt message cause
new_task_error task_id attempt message none = task_error_no_cause task_id attempt message

-- Error(), of each of the errors.
unfoldable pub error_text : Formats → Error → String
error_text f (other s) = s
error_text f canceled = "context canceled"
error_text f deadline_exceeded = "context deadline exceeded"
error_text f (wrapped prefix e) = prefix ++ error_text f e
error_text f (task_error id n message cause) =
    "task " ++ (id ++ (" failed on attempt " ++ (f.decimal n ++ (": " ++ message))))
error_text f (task_error_no_cause id n message) =
    "task " ++ (id ++ (" failed on attempt " ++ (f.decimal n ++ (": " ++ message))))
error_text f (task_timeout_error id t) = "task " ++ (id ++ (" timed out after " ++ f.duration t))

-- Unwrap(), of each of the errors.
unfoldable unwrap : Error → Option Error
unwrap (wrapped prefix e) = some e
unwrap (task_error id n message cause) = some cause
unwrap e = none
