-- ===== src/Worker/Exec/Outcomes.antt =====
-- pkg/worker/worker.go: the failures of executeWithRetries, by what an attempt makes of the world.
use lemmings.Common.{ℕ, suc, ◌≡◌, sym, ap, subst, ◌∙◌, Option, none, some, pos}
use lemmings.Worker.Errors.{Error, new_task_error, error_text}
use lemmings.Worker.Task.{Task}
use lemmings.Worker.Task.Dispatch
use lemmings.Worker.Exec.{Result, BaseWorker, Env, backoff_duration, finish, execute_with_retries}
use lemmings.Worker.Exec.Ways.{retries}
use lemmings.Worker.Exec.Endings.{Fails, again, run_once, retry_exhausted}

module _ {W V C K : Type 0} (env : Env W V C K) (ctx : C) (task : Task W V C K) where
  -- An attempt that leads to the world `u`, with an error, and the failures after it.
  pub failing_attempt :
      {v : W} (k a : ℕ) (w u : W) {o : Option V} {e : Error}
      → (env.poll ctx w).0 ≡ none
      → run_once env ctx task w ≡ ((o, some e), u)
      → (env.wait ctx (backoff_duration a) u).0 ≡ none
      → Fails env ctx task v k (suc a) (env.wait ctx (backoff_duration a) u).1
      → Fails env ctx task v (suc k) a w
  failing_attempt {v} k a w u go once waited rest =
      let world = ap (λ (r : (Option V × Option Error) × W). r.1) once in
      again go (ap (λ (r : (Option V × Option Error) × W). r.0.1) once)
        (ap (λ x. (env.wait ctx (backoff_duration a) x).0) world ∙ waited)
        (subst (λ x. Fails env ctx task v k (suc a) (env.wait ctx (backoff_duration a) x).1)
          (sym world) rest)

  -- How the worker ends after the last failed attempt, its number being one more than `k`, which leads to
  -- the world `u` with the error `x`.
  abbrev pub exhausted :
      BaseWorker W V C K → Result W V C K → W → ℕ → Error → W → BaseWorker W V C K × W
  exhausted b r w k x u =
      finish env b
        (record r {
          attempt = pos (suc k);
          err =
              some (
                new_task_error (Dispatch.id task) (pos (suc k)) (error_text env.formats x)
                  (some x));
          duration = (env.since (env.now w).0 u).0;
        })
        (env.since (env.now w).0 u).1

  pub exhausted_at :
      (b : BaseWorker W V C K) (r : Result W V C K) (w v u : W) (k : ℕ) {o : Option V} {x : Error}
      → retries task b ≡ pos k
      → Fails env ctx task v k 0 (env.now w).1
      → (env.poll ctx v).0 ≡ none
      → run_once env ctx task v ≡ ((o, some x), u)
      → execute_with_retries env ctx task b r w ≡ exhausted b r w k x u
  exhausted_at b r w v u k {o} {x} allowed fails go once =
      retry_exhausted env ctx task b r w v k x allowed fails go
        (ap (λ (q : (Option V × Option Error) × W). q.0.1) once)
      ∙ ap (λ (q : (Option V × Option Error) × W). exhausted b r w k x q.1) once
