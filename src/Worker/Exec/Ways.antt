-- ===== src/Worker/Exec/Ways.antt =====
-- pkg/worker/worker.go: the ways in which a run of ExecuteTask ends.
use lemmings.Common.{
  ℕ, suc, ◌≡◌, ◌⊎◌, none, some, ℤ, pos, ◌+ℤ◌, ◌<ℤ◌, int64, leb_ℤ, pos_part, if◌then◌else◌,
}
use lemmings.Worker.Errors.{Error, wrapped, new_task_error, error_text}
use lemmings.Worker.Task.{Task}
use lemmings.Worker.Task.Dispatch
use lemmings.Worker.Exec.{Result, WorkerStats, BaseWorker, Env, backoff_duration}

-- A task of that duration was counted as processed, or as failed; or none was counted.
abbrev pub AsProcessed : WorkerStats → ℤ → WorkerStats → Type 0
AsProcessed s d t =
    (t.tasks_processed ≡ int64 (s.tasks_processed +ℤ pos 1))
    × (t.tasks_failed ≡ s.tasks_failed)
    × (t.total_duration ≡ int64 (s.total_duration +ℤ d))

abbrev pub AsFailed : WorkerStats → ℤ → WorkerStats → Type 0
AsFailed s d t =
    (t.tasks_processed ≡ s.tasks_processed)
    × (t.tasks_failed ≡ int64 (s.tasks_failed +ℤ pos 1))
    × (t.total_duration ≡ int64 (s.total_duration +ℤ d))

abbrev pub Uncounted : WorkerStats → WorkerStats → Type 0
Uncounted s t =
    (t.tasks_processed ≡ s.tasks_processed)
    × (t.tasks_failed ≡ s.tasks_failed)
    × (t.total_duration ≡ s.total_duration)

module _ {W V C K : Type 0} where
  -- The number of retries that executeWithRetries allows: the task's own, or else the worker's.
  abbrev pub retries : Task W V C K → BaseWorker W V C K → ℤ
  retries task b =
      if leb_ℤ (Dispatch.max_retries task) (pos 0) then b.max_retries else Dispatch.max_retries task

module _ {W V C K : Type 0} (env : Env W V C K) (ctx : C) (task : Task W V C K) where
  -- The context ends the run with that error: it is done before an attempt or during a wait.
  abbrev pub IsCut : Error → Type 0
  IsCut e =
      ((w : W) × ((env.poll ctx w).0 ≡ some e))
      ⊎ ((n : ℕ) × (w : W) × ((env.wait ctx (backoff_duration n) w).0 ≡ some e))

  -- The ways in which ExecuteTask ends, where `most` retries are allowed: with the result `r`, while the
  -- statistics `s` become `t`.
  pub data Accounts (most : ℤ) (s : WorkerStats) (r : Result W V C K) (t : WorkerStats)
      : Type 0 where
    succeeded :
        (w : W)
        → (Dispatch.execute env.timers task ctx w).0 ≡ (r.output, none)
        → r.err ≡ none
        → AsProcessed s r.duration t
        → Accounts most s r t
    exhausted :
        (w : W) (e : Error)
        → (Dispatch.execute env.timers task ctx w).0.1 ≡ some e
        → r.attempt ≡ pos (suc (pos_part most))
        → r.err
          ≡ some (new_task_error (Dispatch.id task) r.attempt (error_text env.formats e) (some e))
        → r.output ≡ none
        → AsFailed s r.duration t
        → Accounts most s r t
    untried :
        most <ℤ pos 0
        → r.attempt ≡ pos 0
        → r.err ≡ none
        → r.output ≡ none
        → AsProcessed s r.duration t
        → Accounts most s r t
    invalid :
        (w : W) (e : Error)
        → (Dispatch.validate task w).0 ≡ some e
        → r.attempt ≡ pos 0
        → r.err ≡ some (wrapped "task validation failed: " e)
        → r.output ≡ none
        → Uncounted s t
        → Accounts most s r t
    cut_short :
        (e : Error)
        → IsCut e
        → r.err ≡ some e
        → r.output ≡ none
        → Uncounted s t
        → Accounts most s r t

  -- The idle time and the time of the last task do not matter.
  pub Accounts-idle :
      (most : ℤ) (s : WorkerStats) (r : Result W V C K) (t : WorkerStats) (idle time : ℤ)
      → Accounts most (record s { idle_time = idle; last_task_time = time }) r t
      → Accounts most s r t
  Accounts-idle most s r t idle time (succeeded w ran fine as_) = succeeded w ran fine as_
  Accounts-idle most s r t idle time (exhausted w e ran n failed empty as_) =
      exhausted w e ran n failed empty as_
  Accounts-idle most s r t idle time (untried none_left n fine empty as_) =
      untried none_left n fine empty as_
  Accounts-idle most s r t idle time (invalid w e bad n failed empty as_) =
      invalid w e bad n failed empty as_
  Accounts-idle most s r t idle time (cut_short e cut failed empty as_) =
      cut_short e cut failed empty as_
