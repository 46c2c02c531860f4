-- ===== src/Worker/Exec/Timeouts.antt =====
-- pkg/worker/task.go and pkg/worker/worker.go: a worker runs a FunctionTask whose timeout passes.
use lemmings.Common.{ℕ, zero, suc, ◌≡◌, refl, none, some, false, pos, ◌<ℤ◌, leb_ℤ, arith}
use lemmings.Worker.Errors.{
  Error, deadline_exceeded, task_timeout_error, new_task_error, error_text,
}
use lemmings.Worker.Task.{FunctionTask, function, Race, expired}
use lemmings.Worker.Task.Function
use lemmings.Worker.Task.Simple
use lemmings.Worker.Task.Dispatch
use lemmings.Worker.Exec.{Result, BaseWorker, Env, backoff_duration, finish, execute_with_retries}
use lemmings.Worker.Exec.Ways.{retries}
use lemmings.Worker.Exec.Endings.{Fails, done, run_once}
use lemmings.Worker.Exec.Outcomes.{failing_attempt, exhausted_at}

module _ {W V C K : Type 0} (env : Env W V C K) (ctx : C) (t : FunctionTask W V C K) where
  -- The race of an attempt from the world `w`, between the function and the timeout.
  abbrev pub race : W → Race V × W
  race w =
      env.timers.race (env.timers.with_timeout ctx t.timeout) (Simple.execute t.simple_task)
        (env.poll ctx w).1

  -- From the world `w`, the attempts from number `a` on time out `k` times, the context not being done
  -- before an attempt nor during a wait; then the world is `v`.
  pub data TimesOut (v : W) : ℕ → ℕ → W → Type 0 where
    at_last : {a : ℕ} {w : W} → w ≡ v → TimesOut v zero a w
    late :
        {k a : ℕ} {w : W}
        → (env.poll ctx w).0 ≡ none
        → (race w).0 ≡ expired deadline_exceeded
        → (env.wait ctx (backoff_duration a) (race w).1).0 ≡ none
        → TimesOut v k (suc a) (env.wait ctx (backoff_duration a) (race w).1).1
        → TimesOut v (suc k) a w

  abbrev timeout_error : Error
  timeout_error = task_timeout_error t.simple_task.task_id t.timeout

  run_once-late :
      (w : W)
      → pos 0 <ℤ t.timeout
      → (race w).0 ≡ expired deadline_exceeded
      → run_once env ctx (function t) w ≡ ((none, some timeout_error), (race w).1)
  unfolding Dispatch.execute Function.execute
  run_once-late w positive passed =
      let timed : leb_ℤ t.timeout (pos 0) ≡ false = ground arith in rw (timed, passed) refl

  TimesOut-Fails :
      {v : W} (k a : ℕ) {w : W}
      → pos 0 <ℤ t.timeout
      → TimesOut v k a w
      → Fails env ctx (function t) v k a w
  TimesOut-Fails zero a positive (at_last e) = done e
  TimesOut-Fails (suc k) a {w} positive (late go passed waited rest) =
      failing_attempt env ctx (function t) k a w (race w).1 go (run_once-late w positive passed)
        waited (TimesOut-Fails k (suc a) positive rest)

  -- A FunctionTask with a positive timeout that passes before the function ends, at every attempt, where the
  -- context is not done before any of them nor during a wait: all retries are made, and the worker ends
  -- with a TaskError about the last attempt, whose cause is the TaskTimeoutError with the id of the task
  -- and its timeout.
  pub timeouts_reported :
      (b : BaseWorker W V C K) (r : Result W V C K) (w v : W) (k : ℕ)
      → pos 0 <ℤ t.timeout
      → retries (function t) b ≡ pos k
      → TimesOut v k 0 (env.now w).1
      → (env.poll ctx v).0 ≡ none
      → (race v).0 ≡ expired deadline_exceeded
      → execute_with_retries env ctx (function t) b r w
        ≡ finish env b
            (record r {
              attempt = pos (suc k);
              err = some (
                  new_task_error t.simple_task.task_id
                    (pos (suc k))
                    (error_text env.formats (task_timeout_error t.simple_task.task_id t.timeout))
                    (some (task_timeout_error t.simple_task.task_id t.timeout)));
              duration = (env.since (env.now w).0 (race v).1).0;
            })
            (env.since (env.now w).0 (race v).1).1
  unfolding Dispatch.id
  timeouts_reported b r w v k positive allowed timing go passed =
      exhausted_at env ctx (function t) b r w v (race v).1 k allowed
        (TimesOut-Fails k 0 positive timing) go (run_once-late v positive passed)
