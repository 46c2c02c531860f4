-- ===== src/Worker/Loop/Unused.antt =====
-- pkg/worker/worker.go: what ExecuteTask does under a context that is done.
use lemmings.Common.{
  int64, ◌+ℤ◌, ◌≡◌, refl, sym, subst, none, some, Option-cases, inl, inr, List, [], ◌∷◌, ◌++◌, ℤ,
  pos, ◌≤ℤ◌, arith,
}
use lemmings.Worker.Errors.{Error}
use lemmings.Worker.Task.{Task}
use lemmings.Worker.Task.Dispatch
use lemmings.Worker.Exec.{
  Result, BaseWorker, Env, send_result, abort, execute_with_retries, execute_task,
}
use lemmings.Worker.Exec.Ways.{retries}
use lemmings.Worker.Exec.Endings.{canceled_never_runs}
use lemmings.Worker.Loop.{start, Others}

module _ {W V C K : Type 0} where
  -- Each result has an error and no output.
  pub data Failures : List (Result W V C K) → Type 0 where
    no_results : Failures []
    one_more :
        {l : List (Result W V C K)} {e : Error} (r : Result W V C K)
        → Failures l
        → r.err ≡ some e
        → r.output ≡ none
        → Failures (l ++ r ∷ [])

  -- Nothing is counted, and only failures are offered.
  pub record IsUnused (b : BaseWorker W V C K) : Type 0 where
    pub patient : pos 0 ≤ℤ b.max_retries
    pub none_processed : b.stats.tasks_processed ≡ pos 0
    pub none_failed : b.stats.tasks_failed ≡ pos 0
    pub failures : Failures b.offered

  retries_allowed :
      (task : Task W V C K) (b : BaseWorker W V C K)
      → pos 0 ≤ℤ b.max_retries
      → pos 0 ≤ℤ retries task b
  retries_allowed task b h = ground arith

module _ {W V C K : Type 0} (env : Env W V C K) where
  -- A context that is done whenever it is asked.
  abbrev pub IsDone : C → Type 0
  IsDone c = (w : W) → (e : Error) × ((env.poll c w).0 ≡ some e)

  -- What the clock, the contexts and the result channel do to the world keeps the property.
  pub record IsKept (P : W → Type 0) : Type 0 where
    pub by_now : (w : W) → P w → P (env.now w).1
    pub by_since : (t : ℤ) (w : W) → P w → P (env.since t w).1
    pub by_poll : (c : C) (w : W) → P w → P (env.poll c w).1
    pub by_offer : (r : Result W V C K) (w : W) → P w → P (env.offer r w)

  -- Others give done contexts to ExecuteTask, and hand over tasks whose Validate keeps the property, as
  -- does what else they do to the world.
  abbrev pub keepers : (W → Type 0) → Others W V C K
  keepers P = record {
    Gives = IsDone;
    Hands = λ task. (w : W) → P w → P (Dispatch.validate task w).1;
    Turns = λ v w. P v → P w;
  }

module _ {W V C K : Type 0} (env : Env W V C K) (P : W → Type 0) (kept : IsKept env P) where
  abbrev pub Unused : BaseWorker W V C K × W → Type 0
  Unused p = IsUnused p.0 × P p.1

  send_result-Unused :
      (b : BaseWorker W V C K) (r : Result W V C K) (w : W) {e : Error}
      → r.err ≡ some e
      → r.output ≡ none
      → Unused (b, w)
      → Unused (send_result env b r w)
  unfolding send_result
  send_result-Unused b r w failed empty (h, p) = (
    record {
      patient = h.patient;
      none_processed = h.none_processed;
      none_failed = h.none_failed;
      failures = one_more r h.failures failed empty;
    },
    kept.by_offer r w p,
  )

  abort-Unused :
      (b : BaseWorker W V C K) (r : Result W V C K) (start : ℤ) (e : Error) (w : W)
      → r.output ≡ none
      → Unused (b, w)
      → Unused (abort env b r start e w)
  unfolding abort
  abort-Unused b r start e w empty (h, p) =
      let (d, v) = env.since start w in
      send_result-Unused b (record r { err = some e; duration = d }) v refl empty
        (h, kept.by_since start w p)

  retried-Unused :
      (c : C) (task : Task W V C K) (b : BaseWorker W V C K) (r : Result W V C K) (w : W)
      → IsDone env c
      → r.output ≡ none
      → Unused (b, w)
      → Unused (execute_with_retries env c task b r w)
  retried-Unused c task b r w cancelled empty (h, p) =
      let (e, done) = cancelled (env.now w).1 in
      let allowed = retries_allowed task b h.patient in
      let run = canceled_never_runs env c task b r w e allowed done in
      subst Unused (sym run) (
        abort-Unused b (record r { attempt = pos 1 }) _ e _ empty
          (h, kept.by_poll c (env.now w).1 (kept.by_now w p)))

  pub executed-Unused :
      (c : C) (task : Task W V C K) (b : BaseWorker W V C K) (w : W)
      → IsDone env c
      → (keepers env P).Hands task
      → Unused (b, w)
      → Unused (execute_task env c task b w)
  unfolding execute_task
  executed-Unused c task b w cancelled handed (h, p) =
      let (idle, w₁) = env.since b.stats.last_task_time w in
      let (time, w₂) = env.now w₁ in
      let w₃ = (Dispatch.validate task w₂).1 in
      let still : IsUnused (record b {
        stats = record (b.stats) {
          idle_time = int64 (b.stats.idle_time +ℤ idle);
          last_task_time = time;
        };
      }) =
        record {
          patient = h.patient;
          none_processed = h.none_processed;
          none_failed = h.none_failed;
          failures = h.failures;
        } in
      let p₃ = handed w₂ (kept.by_now w₁ (kept.by_since b.stats.last_task_time w p)) in
      elim (Option-cases (Dispatch.validate task w₂).0) [
        | inr (e, invalid) ↦
            rw (invalid, execute_task) (send_result-Unused _ _ w₃ refl refl (still, p₃))
        | inl valid ↦
            rw (valid, execute_task) (retried-Unused c task _ _ _ cancelled refl (still, p₃))
      ]
