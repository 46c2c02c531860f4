-- ===== src/Manager/Lifecycle/Submission.antt =====
-- pkg/manager/manager.go: Submit and SubmitBatch, and what the Manager passes on or reads.
use lemmings.Common.{
  ℕ, suc, Option, none, some, Bool, ◌&&◌, List, [], ◌∷◌, ◌++◌, ℤ, pos, eqb_ℤ, if◌then◌else◌, length,
}
use lemmings.Worker.Task.{Task}
use lemmings.Worker.Task.Dispatch
use lemmings.Worker.Pool
use lemmings.Utils.Floats.{Floats}
use lemmings.Manager.Controller.{adjust_worker_count, enable_scaling, disable_scaling, other}
use lemmings.Manager.Controller.Usage.{adjust_based_on_resource_usage}
use lemmings.Manager.Lifecycle.{
  Manager, SubmitError, not_started, shutting_down, submit_timeout, invalid_task, count_submitted,
}

-- What the select of SubmitWithTimeout chooses: to send, the timer, or the closed shutdownCh. It can
-- send where the queue has room, and without a positive timeout it has no timer.
pub data Choice : Type 0 where
  sends times_out shuts : Choice

-- ManagerStats, the copy that GetStats returns
pub record PublicStats : Type 0 where
  pub tasks_submitted : ℤ
  pub tasks_completed : ℤ
  pub tasks_failed : ℤ
  pub tasks_in_progress : ℤ
  pub avg_process_time : ℤ
  pub peak_worker_count : ℤ

module _ {P W V C K F : Type 0} where
  -- The select of SubmitWithTimeout, and the counting after it.
  unfoldable pub enqueue :
      Choice → Task W V C K → Manager P W V C K F → Manager P W V C K F × Option SubmitError
  unfolding count_submitted
  enqueue sends task m =
      (record m { task_queue = m.task_queue ++ task ∷ []; stats = count_submitted m.stats }, none)
  enqueue times_out task m = (m, some submit_timeout)
  enqueue shuts task m = (m, some shutting_down)

  -- SubmitWithTimeout, given what it read in `started`, and what its select chooses.
  unfoldable pub submit :
      Bool
      → Choice
      → Task W V C K
      → Manager P W V C K F
      → W
      → (Manager P W V C K F × Option SubmitError) × W
  unfolding enqueue
  submit was_started choice task m w =
      let (invalid, w') = Dispatch.validate task w in
      if was_started
      then elim invalid [
        | some e ↦ ((m, some (invalid_task e)), w')
        | none ↦ (enqueue choice task m, w')
      ]
      else ((m, some not_started), w)

  -- The loop of SubmitBatch, with the choices of the selects and the number of tasks submitted so far.
  unfoldable pub submit_loop :
      (ℕ → Choice)
      → List (Task W V C K)
      → Manager P W V C K F
      → ℕ
      → W
      → (Manager P W V C K F × ℕ × Option SubmitError) × W
  submit_loop choose [] m n w = ((m, n, none), w)
  submit_loop choose (t ∷ ts) m n w =
      let ((m', failed), w') = submit m.started (choose n) t m w in
      elim failed [ some e ↦ ((m', n, some e), w') | none ↦ submit_loop choose ts m' (suc n) w' ]

  -- SubmitBatch
  unfoldable pub submit_batch :
      (ℕ → Choice)
      → List (Task W V C K)
      → Manager P W V C K F
      → W
      → (Manager P W V C K F × ℕ × Option SubmitError) × W
  submit_batch choose tasks m w =
      if m.started then submit_loop choose tasks m 0 w else ((m, 0, some not_started), w)

  -- EnableDynamicScaling, DisableDynamicScaling and ForceScaleWorkers
  unfoldable pub enable_dynamic_scaling : Manager P W V C K F → Manager P W V C K F
  enable_dynamic_scaling m = record m { resource_ctrl = enable_scaling m.resource_ctrl }

  unfoldable pub disable_dynamic_scaling : Manager P W V C K F → Manager P W V C K F
  disable_dynamic_scaling m = record m { resource_ctrl = disable_scaling m.resource_ctrl }

  unfoldable pub force_scale_workers : ℤ → ℤ → Manager P W V C K F → Manager P W V C K F
  force_scale_workers now n m = record m {
    resource_ctrl = adjust_worker_count now n (other "manual scaling") m.resource_ctrl;
  }

  -- GetStats
  unfoldable pub get_stats : Manager P W V C K F → PublicStats
  get_stats m = record {
    tasks_submitted = m.stats.tasks_submitted;
    tasks_completed = m.stats.tasks_completed;
    tasks_failed = m.stats.tasks_failed;
    tasks_in_progress = m.stats.tasks_in_progress;
    avg_process_time = m.stats.avg_process_time;
    peak_worker_count = m.stats.peak_worker_count;
  }

  -- GetWorkerCount, GetTaskQueueLength and GetResultQueueLength
  unfoldable pub get_worker_count : Manager P W V C K F → ℤ
  get_worker_count m = Pool.size m.worker_pool

  unfoldable pub get_task_queue_length : Manager P W V C K F → ℤ
  get_task_queue_length m = pos (length m.task_queue)

  unfoldable pub get_result_queue_length : Manager P W V C K F → ℤ
  get_result_queue_length m = pos (length m.result_queue)

  -- The test that WaitForCompletion repeats: it reads the statistics of the manager `m` and then the length
  -- of the queue, when the manager is `n`.
  unfoldable pub is_complete : Manager P W V C K F → Manager P W V C K F → Bool
  unfolding get_task_queue_length
  is_complete m n =
      eqb_ℤ m.stats.tasks_in_progress (pos 0) && eqb_ℤ (get_task_queue_length n) (pos 0)

module _ {P W V C K : Type 0} (floats : Floats) where
  open floats use {Float}

  -- What monitorResources does when its ticker ticks.
  unfoldable pub monitor_tick : ℤ → Manager P W V C K Float → Manager P W V C K Float
  monitor_tick now m = record m {
    resource_ctrl = adjust_based_on_resource_usage floats now m.resource_ctrl;
  }
