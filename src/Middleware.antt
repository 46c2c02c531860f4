-- ===== src/Middleware.antt =====
-- pkg/middleware/middleware.go. `T` are the values of the interface Task, of which the middleware calls
-- ID and Execute; `V` are outputs, `C` contexts and `W` the world, with the clock and the log. Unlike in
-- Worker, code of a task's own may panic here, since RecoveryMiddleware is about that.
pub mod Chain
pub mod Recovery
pub mod Retry
pub mod Nesting
pub mod Working
pub mod Tests
use lemmings.Common.{
  ℕ, zero, suc, ◌+◌, ◌-◌, String, Option, none, some, Bool, true, false, List, length, get_or, ℤ,
  pos, ◌+ℤ◌, int64, mul_ℤ, pos_part, ltb_ℤ, if◌then◌else◌,
}
use Prim.Native.String.{◌++◌}
use lemmings.Utils.Floats.{Floats}
use lemmings.Worker.Errors.{Error, Formats, error_text, new_task_error}

-- The value of a panic, as RecoveryMiddleware tells them apart.
pub data Panic : Type 0 where
  panic_error : Error → Panic
  panic_text : String → Panic
  panic_other : Panic

-- How a call ends.
pub data Ending (V : Type 0) : Type 0 where
  returns : Option V → Option Error → Ending V
  panics : Panic → Ending V

-- TaskHandlerFunc and TaskMiddleware
abbrev pub Handler : Type 0 → Type 0 → Type 0 → Type 0 → Type 0
Handler T V C W = C → T → W → Ending V × W

abbrev pub TaskMiddleware : Type 0 → Type 0 → Type 0 → Type 0 → Type 0
TaskMiddleware T V C W = Handler T V C W → Handler T V C W

-- What the middleware asks of the world: the clock; time.Since; the log; a context with a timeout, and
-- its cancellation; whether a context is done, and with which error; a wait that the context may cut
-- short.
pub record Env (C W : Type 0) : Type 0 where
  pub now : W → ℤ × W
  pub since : ℤ → W → ℤ × W
  pub log : String → W → W
  pub with_timeout : C → ℤ → W → C × W
  pub cancel : C → W → W
  pub poll : C → W → Option Error × W
  pub wait : C → ℤ → W → Option Error × W
  pub formats : Formats

-- wrappedTask, which WrapTask makes
pub record WrappedTask (T V C W : Type 0) : Type 0 where
  pub task : T
  pub middleware : TaskMiddleware T V C W

module _ {T V C W : Type 0} where
  -- The loop of Chain, which has the middleware before the given index to apply.
  unfoldable pub chain_loop : ℕ → List (TaskMiddleware T V C W) → Handler T V C W → Handler T V C W
  chain_loop zero ms next = next
  chain_loop (suc i) ms next = chain_loop i ms (get_or ms i (λ h. h) next)

  -- Chain
  unfoldable pub chain : List (TaskMiddleware T V C W) → TaskMiddleware T V C W
  unfolding chain_loop
  chain ms next = chain_loop (length ms) ms next

  unfoldable pub wrap_task : T → TaskMiddleware T V C W → WrappedTask T V C W
  wrap_task task middleware = record { task = task; middleware = middleware }

  -- Execute, where the first argument is the Execute of the interface
  unfoldable pub execute : Handler T V C W → WrappedTask T V C W → C → W → Ending V × W
  execute run t ctx w = t.middleware run ctx t.task w

-- The line that LoggingMiddleware logs.
unfoldable log_line : Formats → String → ℤ → Option Error → String
log_line formats task duration (some e) =
    "Task "
    ++ (task ++ (" failed after " ++ (formats.duration duration ++ (": " ++ error_text formats e))))
log_line formats task duration none =
    "Task " ++ (task ++ (" completed in " ++ formats.duration duration))

-- The error that RecoveryMiddleware makes of a panic.
unfoldable pub recovered : String → Panic → Error
recovered id (panic_error e) = e
recovered id (panic_text t) = new_task_error id (pos 0) ("panic: " ++ t) none
recovered id panic_other = new_task_error id (pos 0) "panic: unknown" none

module _ (floats : Floats) where
  open floats use {Float, tenths, times, of_int, to_int, pow}

  -- The wait in nanoseconds after an attempt.
  unfoldable pub backoff : Float → ℕ → ℤ
  backoff factor attempt =
      let backoff_ms =
        to_int (
          times (times (tenths (pos 500)) (pow (tenths (pos 20)) (of_int (pos attempt)))) factor) in
      let backoff = int64 (mul_ℤ backoff_ms 1000000) in
      if ltb_ℤ (pos 5000000000) backoff then pos 5000000000 else backoff

module _ {T V C W : Type 0} (id : T → String) where
  -- RecoveryMiddleware
  unfoldable pub recovery_middleware : TaskMiddleware T V C W
  unfolding recovered
  recovery_middleware next ctx task w =
      let (ending, w₁) = next ctx task w in
      elim ending [
        | panics p ↦ (returns none (some (recovered (id task) p)), w₁)
        | returns result err ↦ (returns result err, w₁)
      ]

module _ {T V C W : Type 0} (env : Env C W) where
  -- TimeoutMiddleware
  unfoldable pub timeout_middleware : ℤ → TaskMiddleware T V C W
  timeout_middleware timeout next ctx task w =
      let (timeout_ctx, w₁) = env.with_timeout ctx timeout w in
      let (ending, w₂) = next timeout_ctx task w₁ in (ending, env.cancel timeout_ctx w₂)

module _ {T V C W : Type 0} (env : Env C W) (id : T → String) where
  -- LoggingMiddleware
  unfoldable pub logging_middleware : TaskMiddleware T V C W
  unfolding log_line
  logging_middleware next ctx task w =
      let (start, w₁) = env.now w in
      let (ending, w₂) = next ctx task w₁ in
      elim ending [
        | panics p ↦ (panics p, w₂)
        | returns result err ↦
            let (duration, w₃) = env.since start w₂ in
            (returns result err, env.log (log_line env.formats (id task) duration err) w₃)
      ]

module _ {T V C W : Type 0} (env : Env C W) (id : T → String) (floats : Floats) where
  open floats use {Float}

  -- The loop of RetryMiddleware and what follows it. The number is how many attempts the loop's
  -- condition still allows.
  unfoldable pub retry_loop :
      ℤ → Float → Handler T V C W → C → T → ℕ → ℕ → Option Error → W → Ending V × W
  unfolding backoff
  retry_loop most factor next ctx task zero attempt last_err w = (
    returns none
        (some (new_task_error (id task) (int64 (most +ℤ pos 1)) "max retries exceeded" last_err)),
    w,
  )
  retry_loop most factor next ctx task (suc left) attempt last_err w =
      let (ending, w₁) = next ctx task w in
      let (done, w₂) = env.poll ctx w₁ in
      let (cut, w₃) = env.wait ctx (backoff floats factor attempt) w₂ in
      elim ending [
        | panics p ↦ (panics p, w₁)
        | returns result none ↦ (returns result none, w₁)
        | returns result (some e) ↦ elim done [
          | some c ↦ (returns none (some c), w₂)
          | none ↦ elim (ltb_ℤ (pos attempt) most) [
            | false ↦ retry_loop most factor next ctx task left (suc attempt) (some e) w₂
            | true ↦ elim cut [
              | some c ↦ (returns none (some c), w₃)
              | none ↦ retry_loop most factor next ctx task left (suc attempt) (some e) w₃
            ]
          ]
        ]
      ]

  -- RetryMiddleware
  unfoldable pub retry_middleware : ℤ → Float → TaskMiddleware T V C W
  unfolding retry_loop
  retry_middleware most factor next ctx task w =
      let rounds = if ltb_ℤ most (pos 0) then 0 else suc (pos_part most) in
      retry_loop most factor next ctx task rounds 0 none w
