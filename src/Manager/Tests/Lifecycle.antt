-- ===== src/Manager/Tests/Lifecycle.antt =====
-- pkg/manager/manager.go on concrete values; a worker is its id.
use lemmings.Common.{
  ◌≢◌, some, ℕ, ◌≡◌, ◌≤◌, ◌⊎◌, refl, none, some, Bool, true, false, List, [], ◌∷◌, ◌++◌, Outcome,
  ok, ℤ, pos, take, arith,
}
use lemmings.Worker.Errors.{other, canceled}
use lemmings.Worker.Task.{Task, simple}
use lemmings.Worker.Task.Dispatch
use lemmings.Worker.Task.Simple
use lemmings.Worker.Exec.{Result}
use lemmings.Worker.Pool.{Pool, initial_pool}
use lemmings.Worker.Pool
use lemmings.Worker.Pool.Contexts.{live_ids}
use lemmings.Manager.Tests.{config}
use lemmings.Utils.Tests.{tenths}
use lemmings.Manager.Config.{validate}
use lemmings.Manager.Lifecycle.{Manager, SubmitError, assemble, new_manager, start, no_stats}
use lemmings.Manager.Lifecycle.Accounting.{Event, submitted, handled, account, Counted, account_lem}
use lemmings.Manager.Lifecycle.Averages.{average_lem}
use lemmings.Manager.Lifecycle.Contexts.{here, starting, never_live}
use lemmings.Manager.Lifecycle.Submission.{sends, submit, submit_batch}
use lemmings.Manager.Lifecycle.Waiting
use lemmings.Manager.Lifecycle.Waiting.{ticks, context_done, wait_for_completion, never_completes}
use lemmings.Manager.Lifecycle.Queue.{added, submit_batch_lem}

abbrev make : ℤ → Outcome ℕ ℤ
make id = ok id

abbrev task : ℤ → Task ℕ ℕ Bool Bool
task priority = simple record {
  task_id = "task";
  task_type = "test";
  task_priority = priority;
  max_retry = pos 3;
  function = some (λ c w. ((none, none), w));
  validate_func = none;
  timeout = pos 0;
  callback = none;
}

abbrev ended : ℤ → Result ℕ ℕ Bool Bool
ended duration = record {
  task_id = "task";
  output = none;
  err = none;
  duration = duration;
  worker = pos 1;
  attempt = pos 1;
  task = task (pos 0);
}

abbrev failed : ℤ → Result ℕ ℕ Bool Bool
failed duration = record (ended duration) { err = some (other "no") }

-- One of two tasks succeeds in 10 ns and the other fails in 90 ns.
abbrev events : List (Event ℕ ℕ Bool Bool)
events =
    submitted ∷ submitted ∷ handled (ended (pos 10)) ∷ handled (failed (pos 90)) ∷ submitted ∷ []

abbrev manager : Manager ℤ ℕ ℕ Bool Bool ℤ
unfolding config
manager = assemble tenths (pos 0) config (initial_pool false (pos 4) (pos 32))

abbrev started_manager : Manager ℤ ℕ ℕ Bool Bool ℤ
unfolding manager
started_manager = record manager { started = true }

counts_example : Counted 3 1 1 (account events no_stats)
counts_example = account_lem events (omega arith)

average_example : (account events no_stats).avg_process_time ≡ pos 100
average_example =
    average_lem events (omega arith) (omega arith, (omega arith, tt)) (omega arith) (omega arith)

dead_example :
    ((start make manager).0.worker_pool.cancelled ≡ true)
    × (live_ids (start make manager).0.worker_pool.calls ≡ [])
unfolding manager config new_manager validate Pool.new_pool
dead_example =
    never_live tenths make (pos 0) config manager (start make manager).0 refl (starting here)

batch_example :
    (k : ℕ) × (k ≤ 2)
    × ((submit_batch (λ n. sends) (task (pos 1) ∷ task (pos 9) ∷ []) started_manager 0).0.1 ≡ k)
    × ((submit_batch (λ n. sends) (task (pos 1) ∷ task (pos 9) ∷ []) started_manager 0).0.0
        ≡ added (take k (task (pos 1) ∷ task (pos 9) ∷ [])) started_manager)
    × ((submit_batch
          (λ n. sends)
          (task (pos 1) ∷ task (pos 9) ∷ [])
          started_manager
          0).0.0.task_queue
        ≡ started_manager.task_queue ++ take k (task (pos 1) ∷ task (pos 9) ∷ []))
    × (((submit_batch (λ n. sends) (task (pos 1) ∷ task (pos 9) ∷ []) started_manager 0).0.2 ≡ none)
          × (k ≡ 2)
        ⊎ ((e : SubmitError) × ((submit_batch
                (λ n. sends)
                (task (pos 1) ∷ task (pos 9) ∷ [])
                started_manager
                0).0.2
              ≡ some e)))
batch_example = submit_batch_lem (λ n. sends) (task (pos 1) ∷ task (pos 9) ∷ []) started_manager 0

abbrev submitted_one : Manager ℤ ℕ ℕ Bool Bool ℤ
submitted_one = (submit true sends (task (pos 1)) started_manager 0).0.0

waits_example :
    wait_for_completion (ticks submitted_one submitted_one ∷ context_done canceled ∷ []) ≢ some none
unfolding submit started_manager Dispatch.validate Simple.validate
waits_example =
    never_completes make true sends (task (pos 1)) started_manager 0
      (ticks submitted_one submitted_one ∷ context_done canceled ∷ []) refl
      ((Waiting.here, Waiting.here), (tt, tt))
