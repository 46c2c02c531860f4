-- ===== src/Testutils/Mocks.antt =====
-- internal/testutils/mocks.go: MockWorker and MockFactory. The factory and its callers use the workers by
-- reference, so a factory's list has the workers as they were made.
use lemmings.Common.{
  ℕ, Option, none, some, Bool, true, false, List, [], ◌∷◌, ◌++◌, length, ltb, ℤ, pos, ◌+ℤ◌, int64,
  if◌then◌else◌,
}
use lemmings.Worker.Errors.{Error}
use lemmings.Worker.Task.{Task, Timers}
use lemmings.Worker.Task.Dispatch
use lemmings.Worker.Exec.{Result, WorkerStats}

-- A channel of results: what waits in it, oldest first, and its capacity.
pub record ResultChan (W V C K : Type 0) : Type 0 where
  pub waiting : List (Result W V C K)
  pub capacity : ℕ

-- A nil channel of results is `none`.
pub record MockWorker (W V C K : Type 0) : Type 0 where
  pub id : ℤ
  pub available : Bool
  pub stats : WorkerStats
  pub tasks : List (Task W V C K)
  pub started : Bool
  pub stopped : Bool
  pub result_chan : Option (ResultChan W V C K)

-- How a call of ExecuteTask goes: it returns, or its send waits for room in the channel.
pub data Executed (W V C K : Type 0) : Type 0 where
  returned blocked : MockWorker W V C K → W → Executed W V C K

-- The statistics after a task
unfoldable pub count_task : Option Error → WorkerStats → WorkerStats
count_task err s =
    let counted : WorkerStats = elim err [
      | some e ↦ record s { tasks_failed = int64 (s.tasks_failed +ℤ pos 1) }
      | none ↦ record s { tasks_processed = int64 (s.tasks_processed +ℤ pos 1) }
    ] in
    record counted { total_duration = int64 (s.total_duration +ℤ pos 1_000_000) }

module _ {W V C K : Type 0} where
  -- NewMockWorker
  unfoldable pub new_mock_worker : ℤ → Option (ResultChan W V C K) → MockWorker W V C K
  new_mock_worker id result_chan = record {
    id = id;
    available = true;
    stats = record {
      tasks_processed = pos 0;
      tasks_failed = pos 0;
      total_duration = pos 0;
      idle_time = pos 0;
      last_task_time = pos 0;
    };
    tasks = [];
    started = false;
    stopped = false;
    result_chan = result_chan;
  }

  -- Start, Stop and SetAvailable
  unfoldable pub start : MockWorker W V C K → MockWorker W V C K
  start b = record b { started = true }

  unfoldable pub stop : MockWorker W V C K → MockWorker W V C K
  stop b = record b { stopped = true }

  unfoldable pub set_available : MockWorker W V C K → Bool → MockWorker W V C K
  set_available b available = record b { available = available }

  -- The result that ExecuteTask sends.
  abbrev pub new_result :
      Task W V C K → MockWorker W V C K → Option V × Option Error → Result W V C K
  new_result task b (output, err) = record {
    task_id = Dispatch.id task;
    output = output;
    err = err;
    duration = pos 1_000_000;
    worker = b.id;
    attempt = pos 1;
    task = task;
  }

  -- ID, Available, Stats, GetTasks, IsStarted and IsStopped
  unfoldable pub get_id : MockWorker W V C K → ℤ
  get_id b = b.id

  unfoldable pub is_available : MockWorker W V C K → Bool
  is_available b = b.available

  unfoldable pub get_stats : MockWorker W V C K → WorkerStats
  get_stats b = b.stats

  unfoldable pub get_tasks : MockWorker W V C K → List (Task W V C K)
  get_tasks b = b.tasks

  unfoldable pub is_started : MockWorker W V C K → Bool
  is_started b = b.started

  unfoldable pub is_stopped : MockWorker W V C K → Bool
  is_stopped b = b.stopped

module _ {W V C K : Type 0} (timers : Timers W V C) where
  -- ExecuteTask
  unfoldable pub execute_task : C → Task W V C K → MockWorker W V C K → W → Executed W V C K
  unfolding count_task
  execute_task ctx task b w =
      let begun = record b { tasks = b.tasks ++ task ∷ [] } in
      let (end, w₁) = Dispatch.execute timers task ctx w in
      let ended = record begun { stats = count_task end.1 b.stats } in
      elim b.result_chan [
        | none ↦ returned ended w₁
        | some ch ↦
            if ltb (length ch.waiting) ch.capacity
            then returned
                (record ended {
                  result_chan =
                      some (record ch { waiting = ch.waiting ++ new_result task b end ∷ [] });
                })
                w₁
            else blocked begun w₁
      ]

-- `P` are the workers, and nil is `none`.
pub record MockFactory (P W : Type 0) : Type 0 where
  pub create_fn : Option (ℤ → W → (Option P × Option Error) × W)
  pub created_workers : List P
  pub creation_error : Option Error
  pub creation_counter : ℤ

module _ {P U : Type 0} where
  -- NewMockFactory
  unfoldable pub new_mock_factory : Option (ℤ → U → (Option P × Option Error) × U) → MockFactory P U
  new_mock_factory fn = record {
    create_fn = fn;
    created_workers = [];
    creation_error = none;
    creation_counter = pos 0;
  }

  -- SetCreationError
  unfoldable pub set_creation_error : MockFactory P U → Option Error → MockFactory P U
  set_creation_error f e = record f { creation_error = e }

  -- GetCreatedWorkers and GetCreationCount
  unfoldable pub get_created_workers : MockFactory P U → List P
  get_created_workers f = f.created_workers

  unfoldable pub get_creation_count : MockFactory P U → ℤ
  get_creation_count f = f.creation_counter

module _ {P U W V C K : Type 0} (as_worker : MockWorker W V C K → P) where
  -- What CreateWithID makes where there is no error: the function's worker, or else a MockWorker.
  abbrev pub make_worker : MockFactory P U → ℤ → U → (Option P × Option Error) × U
  make_worker f id w = elim f.create_fn [
    | some fn ↦ fn id w
    | none ↦
        let ch : ResultChan W V C K = record { waiting = []; capacity = 10 } in
        ((some (as_worker (new_mock_worker id (some ch))), none), w)
  ]

  -- CreateWithID
  unfoldable pub create_with_id :
      MockFactory P U → ℤ → U → ((Option P × Option Error) × MockFactory P U) × U
  unfolding new_mock_worker
  create_with_id f id w =
      let counted = record f { creation_counter = int64 (f.creation_counter +ℤ pos 1) } in
      let ((made, err), w₁) = make_worker f id w in
      elim f.creation_error [
        | some e ↦ (((none, some e), counted), w)
        | none ↦ elim made [
          | some worker ↦ (
            (
              (some worker, err),
              record counted { created_workers = f.created_workers ++ worker ∷ [] },
            ),
            w₁,
          )
          | none ↦ (((none, err), counted), w₁)
        ]
      ]

  -- Create
  unfoldable pub create : MockFactory P U → U → ((Option P × Option Error) × MockFactory P U) × U
  unfolding create_with_id
  create f w = create_with_id f (pos 0) w
