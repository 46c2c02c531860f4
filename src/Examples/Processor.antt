-- ===== src/Examples/Processor.antt =====
-- examples/advanced/main.go: the TaskProcessor. Its channel of results is only ever closed.
use lemmings.Common.{
  ℕ, zero, suc, Option, none, some, Bool, true, false, ℤ, pos, ◌+ℤ◌, int64, pos_part, ok,
  if◌then◌else◌, String,
}
use Prim.Native.String.{◌++◌}
use lemmings.Utils.Floats.{Floats}
use lemmings.Worker.Task.{Task}
use lemmings.Worker.Loop.{SimpleWorker, nil_chan, new_simple_worker}
use lemmings.Factory.{WorkerFactoryFunc, new_worker_factory}
use lemmings.Manager.Config.{Config, default_config}
use lemmings.Manager.Lifecycle.{
  Manager, ManagerError, SubmitError, not_started, Ending, returns, fails, panics,
}
use lemmings.Manager.Lifecycle
use lemmings.Manager.Lifecycle.Submission.{Choice, PublicStats, submit}
use lemmings.Manager.Lifecycle.Submission
use lemmings.Examples.{Machine, TaskResult, draw, math_task, io_task, mixed_task}

-- CustomWorker
pub record CustomWorker (W V C K : Type 0) : Type 0 where
  pub simple_worker : SimpleWorker W V C K
  pub processing_time : ℤ

module _ {W V C K : Type 0} where
  -- The worker that newCustomWorkerFactory's function makes, at the given time.
  unfoldable pub new_custom_worker : ℤ → W → ℤ → CustomWorker W V C K
  new_custom_worker time w id = record {
    simple_worker = new_simple_worker id nil_chan (pos 3) time w;
    processing_time = pos 0;
  }

  -- newCustomWorkerFactory
  unfoldable pub new_custom_worker_factory : ℤ → WorkerFactoryFunc (CustomWorker W V C K) W
  unfolding new_custom_worker new_worker_factory
  new_custom_worker_factory time =
      new_worker_factory (some (λ id w. ((new_custom_worker time w id, none), w)))

-- `M` are the processor's Manager.
pub record TaskProcessor (M : Type 0) : Type 0 where
  pub total_processed : ℤ
  pub manager : M
  pub results_closed : Bool

-- `failed to submit task`, with the task's id and the error that it wraps.
pub data ProcessError : Type 0 where
  failed_to_submit : String → SubmitError → ProcessError

-- How a call that submits tasks ends: with the processor, nil or an error, and the world, or in a panic.
pub data Submissions (M W : Type 0) : Type 0 where
  ends : TaskProcessor M → Option ProcessError → W → Submissions M W
  crashes : Submissions M W

module _ (floats : Floats) where
  open floats use {Float, tenths}

  -- The configuration of NewTaskProcessor.
  unfoldable pub processor_config : Config Float
  unfolding default_config
  processor_config = record (default_config floats) {
    initial_workers = pos 2;
    max_workers = pos 50;
    min_workers = pos 1;
    verbose = true;
    scale_up_factor = tenths (pos 12);
    scale_down_factor = tenths (pos 8);
    monitor_interval = pos 1_000_000_000;
  }

  -- NewTaskProcessor, at the given time.
  unfoldable pub new_task_processor :
      {P W V C K E : Type 0} → ℤ → Ending (ManagerError E) (TaskProcessor (Manager P W V C K Float))
  new_task_processor {P = P} {W = W} {V = V} {C = C} {K = K} {E = E} now =
      elim (Lifecycle.new_manager {P = P} {W = W} {V = V} {C = C} {K = K} {E = E} floats now
        processor_config) [
          | fails e ↦ fails e
          | panics ↦ panics
          | returns m ↦
              returns record { total_processed = pos 0; manager = m; results_closed = false }
        ]

module _ {W V C K E F : Type 0} where
  -- Start, with the time at which the pool makes its workers.
  unfoldable pub start :
      ℤ
      → W
      → TaskProcessor (Manager (CustomWorker W V C K) W V C K F)
      → TaskProcessor (Manager (CustomWorker W V C K) W V C K F) × Option (ManagerError E)
  start time w tp =
      let (m, failed) = Lifecycle.start (λ id. ok (new_custom_worker time w id)) tp.manager in
      (record tp { manager = m }, failed)

module _ {P W V C K F : Type 0} where
  -- Stop; closing a channel a second time panics.
  unfoldable pub stop :
      TaskProcessor (Manager P W V C K F) → Ending SubmitError (TaskProcessor (Manager P W V C K F))
  stop tp = elim (Lifecycle.stop tp.manager) [
    | fails e ↦ fails e
    | panics ↦ panics
    | returns m ↦
        if tp.results_closed
        then panics
        else returns (record tp { manager = m; results_closed = true })
  ]

  -- The end of a round of ProcessMath, ProcessIO and ProcessMixed: Submit, with what its select chooses,
  -- and the counting. A nil task makes Submit panic, unless the manager was not started.
  unfoldable pub submit_task :
      Choice
      → String
      → Option (Task W V C K)
      → TaskProcessor (Manager P W V C K F)
      → W
      → Submissions (Manager P W V C K F) W
  submit_task choice id none tp w =
      if tp.manager.started then crashes else ends tp (some (failed_to_submit id not_started)) w
  submit_task choice id (some task) tp w =
      let ((m, failed), w₁) = submit tp.manager.started choice task tp.manager w in
      elim failed [
        | some e ↦ ends (record tp { manager = m }) (some (failed_to_submit id e)) w₁
        | none ↦
            ends (record tp { manager = m; total_processed = int64 (tp.total_processed +ℤ pos 1) })
              none w₁
      ]

  -- Their loop: `make` makes the task of a round and `name` its id; with the rounds that are left and `i`.
  unfoldable pub process_loop :
      (ℕ → W → Option (Task W V C K) × W)
      → (ℕ → String)
      → (ℕ → Choice)
      → ℕ
      → ℕ
      → TaskProcessor (Manager P W V C K F)
      → W
      → Submissions (Manager P W V C K F) W
  process_loop make name choose zero i tp w = ends tp none w
  process_loop make name choose (suc left) i tp w =
      let (task, w₁) = make i w in
      elim (submit_task (choose i) (name i) task tp w₁) [
        | crashes ↦ crashes
        | ends tp₁ failed w₂ ↦ elim failed [
          | some e ↦ ends tp₁ (some e) w₂
          | none ↦ process_loop make name choose left (suc i) tp₁ w₂
        ]
      ]

  -- GetStats and GetProcessedCount
  unfoldable pub get_stats : TaskProcessor (Manager P W V C K F) → PublicStats
  get_stats tp = Submission.get_stats tp.manager

  unfoldable pub get_processed_count : TaskProcessor (Manager P W V C K F) → ℤ
  get_processed_count tp = tp.total_processed

module _ {P W C K F : Type 0} (machine : Machine W) (choose : ℕ → Choice) where
  -- ProcessMath
  unfoldable pub process_math :
      ℤ
      → ℤ
      → TaskProcessor (Manager P W TaskResult C K F)
      → W
      → Submissions (Manager P W TaskResult C K F) W
  process_math count complexity tp w =
      process_loop (λ i v. (some (math_task machine complexity i), v))
        (λ i. "math-" ++ machine.formats.decimal (pos i)) choose (pos_part count) 0 tp w

  -- ProcessIO
  unfoldable pub process_io :
      ℤ
      → ℤ
      → TaskProcessor (Manager P W TaskResult C K F)
      → W
      → Submissions (Manager P W TaskResult C K F) W
  process_io count io_time tp w =
      process_loop (λ i v. (some (io_task machine io_time i), v))
        (λ i. "io-" ++ machine.formats.decimal (pos i)) choose (pos_part count) 0 tp w

  -- ProcessMixed
  unfoldable pub process_mixed :
      ℤ
      → TaskProcessor (Manager P W TaskResult C K F)
      → W
      → Submissions (Manager P W TaskResult C K F) W
  process_mixed count tp w =
      process_loop
        (λ i v. let (kind, v₁) = draw machine (pos 3) v in (mixed_task machine kind i, v₁))
        (λ i. "mixed-" ++ machine.formats.decimal (pos i)) choose (pos_part count) 0 tp w
