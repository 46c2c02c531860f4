-- ===== src/Worker/Tests/Exec.antt =====
-- pkg/worker/worker.go on concrete values. The world is a clock that each call may advance, a context
-- says whether it is cancelled, and an output is a number.
use lemmings.Common.{
  ℕ, suc, ◌≡◌, refl, none, some, Bool, false, [], ◌∷◌, ◌++◌, ltb, ℤ, pos, ◌≤ℤ◌, if◌then◌else◌,
  arith,
}
use lemmings.Worker.Errors.{
  deadline_exceeded, task_timeout_error, other, canceled, new_task_error, error_text,
}
use lemmings.Worker.Task.{FunctionTask, function, expired, TaskFunc, Timers, Task, simple, finished}
use lemmings.Worker.Task.Dispatch
use lemmings.Worker.Task.Simple
use lemmings.Worker.Exec.{
  Result, BaseWorker, Env, new_base_worker, finish, execute_with_retries, execute_task,
  backoff_duration,
}
use lemmings.Worker.Exec.Attempts.{execute_task_lem}
use lemmings.Worker.Exec.Ways.{Accounts}
use lemmings.Worker.Exec.Timeouts.{late, at_last, timeouts_reported}
use lemmings.Worker.Exec.Endings.{Fails, done, again, retry_succeeds, retry_exhausted}

abbrev pub timers : Timers ℕ ℕ Bool
timers = record {
  with_timeout = λ c d. c;
  race = λ c f w. (finished (f c w).0.0 (f c w).0.1, (f c w).1);
}

abbrev pub env : Env ℕ ℕ Bool Bool
env = record {
  now = λ w. (pos w, suc w);
  since = λ t w. (pos 1, suc w);
  poll = λ c w. (if c then some canceled else none, w);
  wait = λ c d w. (if c then some canceled else none, suc w);
  offer = λ r w. w;
  timers = timers;
  formats = record { decimal = λ n. "n"; duration = λ d. "d" };
}

-- Fails before time `n`.
abbrev pub flaky_function : ℕ → TaskFunc ℕ ℕ Bool
flaky_function n c w = (if ltb w n then (none, some (other "not yet")) else (some 7, none), suc w)

abbrev pub flaky : ℕ → ℤ → Task ℕ ℕ Bool Bool
flaky n most = simple record {
  task_id = "flaky";
  task_type = "test";
  task_priority = pos 0;
  max_retry = most;
  function = some (flaky_function n);
  validate_func = none;
  timeout = pos 0;
  callback = none;
}

abbrev worker : BaseWorker ℕ ℕ Bool Bool
unfolding new_base_worker
worker = new_base_worker (pos 1) (pos 2) (pos 0)

abbrev begun : Task ℕ ℕ Bool Bool → Result ℕ ℕ Bool Bool
begun task = record {
  task_id = "flaky";
  output = none;
  err = none;
  duration = pos 0;
  worker = pos 1;
  attempt = pos 0;
  task = task;
}

offers_one :
    (r : Result ℕ ℕ Bool Bool) × ((execute_task env false (flaky 4 (pos 2)) worker 0).0.offered
      ≡ worker.offered ++ r ∷ [])
    × (r.task_id ≡ Dispatch.id (flaky 4 (pos 2)))
    × (r.worker ≡ worker.id)
    × (r.task ≡ flaky 4 (pos 2))
    × (r.attempt ≤ℤ pos 3)
    × Accounts env false
        (flaky 4 (pos 2))
        (pos 2)
        worker.stats
        r
        (execute_task env false (flaky 4 (pos 2)) worker 0).0.stats
unfolding Dispatch.max_retries
offers_one = execute_task_lem env false (flaky 4 (pos 2)) worker 0

Fails-once : Fails env false (flaky 2 (pos 2)) 3 1 0 1
unfolding Dispatch.execute Simple.execute backoff_duration
Fails-once = again refl refl refl (done refl)

succeeds_second_time :
    execute_with_retries env false (flaky 2 (pos 2)) worker (begun (flaky 2 (pos 2))) 0
    ≡ finish env worker
        (record (begun (flaky 2 (pos 2))) { attempt = pos 2; output = some 7; duration = pos 1 })
        5
unfolding Dispatch.execute Simple.execute Dispatch.max_retries
succeeds_second_time =
    retry_succeeds env false (flaky 2 (pos 2)) worker (begun (flaky 2 (pos 2))) 0 3 1 1 refl
      Fails-once refl refl

Fails-first : Fails env false (flaky 9 (pos 1)) 3 1 0 1
unfolding Dispatch.execute Simple.execute backoff_duration
Fails-first = again refl refl refl (done refl)

fails_every_time :
    execute_with_retries env false (flaky 9 (pos 1)) worker (begun (flaky 9 (pos 1))) 0
    ≡ finish env worker
        (record (begun (flaky 9 (pos 1))) {
          attempt = pos 2;
          err = some (new_task_error "flaky" (pos 2) "not yet" (some (other "not yet")));
          duration = pos 1;
        })
        5
unfolding Dispatch.execute Simple.execute Dispatch.max_retries Dispatch.id error_text
fails_every_time =
    retry_exhausted env false (flaky 9 (pos 1)) worker (begun (flaky 9 (pos 1))) 0 3 1
      (other "not yet") refl Fails-first refl refl

-- A world in which each timeout passes before the function ends.
abbrev slow_env : Env ℕ ℕ Bool Bool
slow_env = record env {
  timers = record { with_timeout = λ c d. c; race = λ c f w. (expired deadline_exceeded, suc w) };
}

abbrev slow : FunctionTask ℕ ℕ Bool Bool
slow = record {
  simple_task = record {
    task_id = "slow";
    task_type = "function";
    task_priority = pos 0;
    max_retry = pos 1;
    function = some (flaky_function 0);
    validate_func = none;
    timeout = pos 0;
    callback = none;
  };
  timeout = pos 5;
  callback = none;
}

times_out_every_time :
    execute_with_retries slow_env false (function slow) worker (begun (function slow)) 0
    ≡ finish slow_env worker
        (record (begun (function slow)) {
          attempt = pos 2;
          err = some (
              new_task_error "slow"
                (pos 2)
                (error_text slow_env.formats (task_timeout_error "slow" (pos 5)))
                (some (task_timeout_error "slow" (pos 5))));
          duration = pos 1;
        })
        5
unfolding Dispatch.max_retries
times_out_every_time =
    timeouts_reported slow_env false slow worker (begun (function slow)) 0 3 1 (omega arith) refl
      (late refl refl refl (at_last refl)) refl refl
