-- ===== src/Manager/Lifecycle.antt =====
-- pkg/manager/manager.go: the Manager. Its two channels are lists of what waits in them, with their
-- capacity. The goroutines that Start launches call handleResult and AdjustBasedOnResourceUsage.
-- Logging is left out, and so are Go's memory model and the fields that nothing reads.
pub mod Accounting
pub mod Averages
pub mod Shutdown
pub mod Contexts
pub mod Submission
pub mod Queue
pub mod Waiting
use lemmings.Common.{
  ℕ, zero, suc, ◌+◌, ◌≡◌, refl, Option, none, some, Bool, true, false, ◌&&◌, List, [], ◌∷◌, ◌++◌,
  Outcome, ok, err, ℤ, pos, negsuc, ◌+ℤ◌, int64, int32, ltb_ℤ, eqb_ℤ, pos_part, quot_ℤ,
  if◌then◌else◌, length,
}
use lemmings.Utils.Floats.{Floats}
use lemmings.Worker.Errors.{Error}
use lemmings.Worker.Task.{Task, simple, function, foreign}
use lemmings.Worker.Task.Dispatch
use lemmings.Worker.Exec.{Result}
use lemmings.Worker.Pool.{Pool, PoolError, new_pool}
use lemmings.Worker.Pool
use lemmings.Manager.Config.{Config, ConfigError, validate}
use lemmings.Manager.Controller.{
  ResourceController, new_resource_controller, adjust_worker_count, enable_scaling, disable_scaling,
  other,
}

-- managerStats; the peak worker count is never written.
pub record ManagerStats : Type 0 where
  pub tasks_submitted : ℤ
  pub tasks_completed : ℤ
  pub tasks_failed : ℤ
  pub tasks_in_progress : ℤ
  pub total_task_time : ℤ
  pub avg_process_time : ℤ
  pub peak_worker_count : ℤ

-- `P` are the pool's workers. `shut_down` says whether shutdownCh is closed, and `callbacks` lists the
-- callbacks that handleResult has launched, with their results, oldest first.
pub record Manager (P W V C K F : Type 0) : Type 0 where
  pub config : Config F
  pub resource_ctrl : ResourceController F
  pub task_queue : List (Task W V C K)
  pub result_queue : List (Result W V C K)
  pub queue_cap : ℕ
  pub worker_pool : Pool P
  pub started : Bool
  pub stats : ManagerStats
  pub shut_down : Bool
  pub callbacks : List (K × Result W V C K)

pub data ManagerError (E : Type 0) : Type 0 where
  invalid_configuration : ConfigError → ManagerError E
  pool_not_created pool_not_started : PoolError E → ManagerError E
  manager_already_started : ManagerError E

pub data SubmitError : Type 0 where
  not_started shutting_down submit_timeout : SubmitError
  invalid_task : Error → SubmitError

-- How a call ends: with a value, with an error, or in a run-time panic.
pub data Ending (E A : Type 0) : Type 0 where
  returns : A → Ending E A
  fails : E → Ending E A
  panics : Ending E A

abbrev pub no_stats : ManagerStats
no_stats = record {
  tasks_submitted = pos 0;
  tasks_completed = pos 0;
  tasks_failed = pos 0;
  tasks_in_progress = pos 0;
  total_task_time = pos 0;
  avg_process_time = pos 0;
  peak_worker_count = pos 0;
}

module _ {P W V C K : Type 0} (floats : Floats) where
  open floats use {Float}

  -- The struct literal of NewManager. Its deferred `cancel` has run by the time the caller has the
  -- manager, so the context that the pool was given is cancelled.
  abbrev pub assemble : ℤ → Config Float → Pool P → Manager P W V C K Float
  assemble now c pool = record {
    config = c;
    resource_ctrl = new_resource_controller floats now c;
    task_queue = [];
    result_queue = [];
    queue_cap = pos_part c.max_tasks_in_queue;
    worker_pool = record pool { cancelled = true };
    started = false;
    stats = no_stats;
    shut_down = false;
    callbacks = [];
  }

module _ {P W V C K E : Type 0} (floats : Floats) where
  open floats use {Float}

  -- NewManager; `make` of a channel panics for a negative capacity.
  unfoldable pub new_manager : ℤ → Config Float → Ending (ManagerError E) (Manager P W V C K Float)
  new_manager now c = elim (validate floats c) [
    | some e ↦ fails (invalid_configuration e)
    | none ↦ elim (ltb_ℤ c.max_tasks_in_queue (pos 0)) [
      | true ↦ panics
      | false ↦ elim (new_pool {E = E} {W = P} false c.initial_workers c.max_workers) [
        | err e ↦ fails (pool_not_created e)
        | ok pool ↦ returns (assemble floats now c pool)
      ]
    ]
  ]

-- The counters after a task has been put into the queue.
unfoldable pub count_submitted : ManagerStats → ManagerStats
count_submitted s = record s {
  tasks_submitted = int64 (s.tasks_submitted +ℤ pos 1);
  tasks_in_progress = int32 (s.tasks_in_progress +ℤ pos 1);
}

module _ {W V C K : Type 0} where
  -- The counters of handleResult.
  unfoldable pub count_result : Result W V C K → ManagerStats → ManagerStats
  count_result r s =
      let counted : ManagerStats = elim r.err [
        | some _ ↦ record s { tasks_failed = int64 (s.tasks_failed +ℤ pos 1) }
        | none ↦ record s { tasks_completed = int64 (s.tasks_completed +ℤ pos 1) }
      ] in
      let total = int64 (s.total_task_time +ℤ r.duration) in
      record counted {
        tasks_in_progress = int32 (s.tasks_in_progress +ℤ negsuc 0);
        total_task_time = total;
        avg_process_time =
            if ltb_ℤ (pos 0) counted.tasks_completed
            then quot_ℤ total (pos_part counted.tasks_completed)
            else s.avg_process_time;
      }

  -- The callback that handleResult launches, which is that of a *SimpleTask only.
  unfoldable pub callback_of : Task W V C K → Option K
  callback_of (simple t) = t.callback
  callback_of (function t) = none
  callback_of (foreign t) = none

module _ {P W V C K E F : Type 0} where
  -- Start: the manager, and the error if there is one.
  unfoldable pub start :
      (ℤ → Outcome E P) → Manager P W V C K F → Manager P W V C K F × Option (ManagerError E)
  start create m =
      let (pool, failed) = Pool.start create m.worker_pool in
      if m.started then (m, some manager_already_started) else elim failed [
        | some e ↦ (record m { worker_pool = pool }, some (pool_not_started e))
        | none ↦ (record m { worker_pool = pool; started = true }, none)
      ]

module _ {P W V C K F : Type 0} where
  -- Stop; closing a channel a second time panics.
  unfoldable pub stop : Manager P W V C K F → Ending SubmitError (Manager P W V C K F)
  stop m =
      if m.started
      then (if m.shut_down
          then panics
          else returns (record m {
            shut_down = true;
            worker_pool = Pool.stop m.worker_pool;
            started = false;
          }))
      else returns m

  -- handleResult
  unfoldable pub handle_result : Result W V C K → Manager P W V C K F → Manager P W V C K F
  handle_result r m = record m {
    stats = count_result r m.stats;
    callbacks = elim (callback_of r.task) [
      | some k ↦ m.callbacks ++ (k, r) ∷ []
      | none ↦ m.callbacks
    ];
  }
