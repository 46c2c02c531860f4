-- ===== src/Middleware/Tests.antt =====
-- pkg/middleware/middleware.go on concrete values. The world is a clock, a task is its id, a context
-- says whether it is cancelled, and an output is a number.
use lemmings.Common.{
  ℕ, suc, ◌≡◌, refl, ◌⊎◌, String, Option, none, some, Bool, false, [], ◌∷◌, ltb, pos, int64, ◌+ℤ◌,
  if◌then◌else◌,
}
use lemmings.Worker.Task.{finished}
use lemmings.Worker.Task.Dispatch
use lemmings.Worker.Exec
use lemmings.Worker.Exec.{Result, BaseWorker, new_base_worker, execute_with_retries, finish}
use lemmings.Worker.Errors.{error_text, Error, other, canceled, new_task_error}
use lemmings.Middleware.{
  Panic, panic_text, returns, panics, Handler, TaskMiddleware, Env, chain, logging_middleware,
  recovery_middleware, recovered, retry_middleware,
}
use lemmings.Middleware.Recovery.{recovery_lem}
use lemmings.Middleware.Nesting.{breaks, at_last, panics_retried}
use lemmings.Middleware.Working
use lemmings.Middleware.Working.{Methods, worker_task, panics_reported}
use lemmings.Middleware.Retry.{done, again, retry_gives_up}
use lemmings.Utils.Tests.{tenths}

abbrev id : String → String
id task = task

abbrev env : Env Bool ℕ
env = record {
  now = λ w. (pos w, suc w);
  since = λ t w. (pos 1, suc w);
  log = λ s w. suc w;
  with_timeout = λ c d w. (c, w);
  cancel = λ c w. w;
  poll = λ c w. (if c then some canceled else none, w);
  wait = λ c d w. (if c then some canceled else none, suc w);
  formats = record { decimal = λ n. "n"; duration = λ d. "d" };
}

-- Fails before time `n`.
abbrev flaky : ℕ → Handler String ℕ Bool ℕ
flaky n c task w =
    (if ltb w n then returns none (some (other "no")) else returns (some 7) none, suc w)

abbrev panicking : Handler String ℕ Bool ℕ
panicking c task w = (panics (panic_text "oh"), suc w)

abbrev retry : TaskMiddleware String ℕ Bool ℕ
retry = retry_middleware env id tenths (pos 1) (pos 20)

abbrev logging : TaskMiddleware String ℕ Bool ℕ
logging = logging_middleware env id

recovery_example :
    ((v : Option ℕ) × (e : Option Error) × ((chain (logging ∷ []) panicking false "t" 0).0
        ≡ returns v e)
      × (chain (recovery_middleware id ∷ logging ∷ []) panicking false "t" 0
          ≡ (returns v e, (chain (logging ∷ []) panicking false "t" 0).1)))
    ⊎ ((p : Panic) × ((chain (logging ∷ []) panicking false "t" 0).0 ≡ panics p)
        × (chain (recovery_middleware id ∷ logging ∷ []) panicking false "t" 0 ≡ (
          returns none (some (recovered "t" p)),
          (chain (logging ∷ []) panicking false "t" 0).1,
        )))
recovery_example = recovery_lem id (logging ∷ []) panicking false "t" 0

-- Panics before time `n`.
abbrev jumpy : ℕ → Handler String ℕ Bool ℕ
jumpy n c task w = (if ltb w n then panics (panic_text "oh") else returns (some 7) none, suc w)

retried_example :
    chain (retry ∷ recovery_middleware id ∷ []) (jumpy 1) false "t" 0 ≡ (returns (some 7) none, 3)
retried_example =
    panics_retried env id tenths (pos 20) (jumpy 1) false "t" 0 2 1 0 (some 7)
      (breaks tt refl refl (at_last refl)) refl

gives_up_example : retry_middleware env id tenths (pos 1) (pos 20) (flaky 9) false "t" 0 ≡ (
  returns none (some (new_task_error "t" (pos 2) "max retries exceeded" (some (other "no")))),
  3,
)
unfolding int64 ◌+ℤ◌
gives_up_example =
    retry_gives_up env id tenths (pos 20) (flaky 9) false "t" 0 2 1 none (other "no")
      (again refl refl refl (done refl)) refl refl

abbrev worker_env : Exec.Env ℕ ℕ Bool Bool
worker_env = record {
  now = λ w. (pos w, suc w);
  since = λ t w. (pos 1, suc w);
  poll = λ c w. (if c then some canceled else none, w);
  wait = λ c d w. (if c then some canceled else none, suc w);
  offer = λ r w. w;
  timers = record {
    with_timeout = λ c d. c;
    race = λ c f w. (finished (f c w).0.0 (f c w).0.1, (f c w).1);
  };
  formats = record { decimal = λ n. "n"; duration = λ d. "d" };
}

abbrev methods : Methods String ℕ
methods = record {
  id = id;
  kind = λ t. "test";
  priority = λ t. pos 0;
  max_retries = λ t. pos 1;
  validate = λ t w. (none, w);
}

abbrev begun : Result ℕ ℕ Bool Bool
begun = record {
  task_id = "t";
  output = none;
  err = none;
  duration = pos 0;
  worker = pos 1;
  attempt = pos 0;
  task = worker_task methods panicking [] "t";
}

abbrev worker : BaseWorker ℕ ℕ Bool Bool
unfolding new_base_worker
worker = new_base_worker (pos 1) (pos 2) (pos 0)

-- The one retry is made at time 3.
reported_example :
    execute_with_retries worker_env false (worker_task methods panicking [] "t") worker begun 0
    ≡ finish worker_env worker
        (record begun {
          attempt = pos 2;
          err = some (
              new_task_error "t"
                (pos 2)
                (error_text worker_env.formats (recovered "t" (panic_text "oh")))
                (some (recovered "t" (panic_text "oh"))));
          duration = pos 1;
        })
        5
unfolding chain Dispatch.max_retries
reported_example =
    panics_reported worker_env methods panicking [] false "t" worker begun 0 3 1 (panic_text "oh")
      refl (Working.breaks refl refl refl (Working.at_last refl)) refl refl
