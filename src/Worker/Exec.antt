-- ===== src/Worker/Exec.antt =====
-- pkg/worker/worker.go: the execution of a task by a BaseWorker. Contexts, the clock and the result
-- channel are part of the world `W`; an attempt number does not reach the limit of `int`.
pub mod Backoff
pub mod Ways
pub mod Attempts
pub mod Endings
pub mod Outcomes
pub mod Timeouts
use lemmings.Common.{
  ℕ, zero, suc, ◌+◌, ◌*◌, ◌^◌, ◌≡◌, refl, String, Option, none, some, Bool, true, false, List, [],
  ◌∷◌, ◌++◌, ℤ, pos, ◌+ℤ◌, int64, leb_ℤ, ltb_ℤ, leb, ltb, pos_part, if◌then◌else◌,
}
use lemmings.Worker.Errors.{Error, wrapped, Formats, error_text, new_task_error}
use lemmings.Worker.Task.{Task, Timers}
use lemmings.Worker.Task.Dispatch

pub record Result (W V C K : Type 0) : Type 0 where
  pub task_id : String
  pub output : Option V
  pub err : Option Error
  pub duration : ℤ
  pub worker : ℤ
  pub attempt : ℤ
  pub task : Task W V C K

pub record WorkerStats : Type 0 where
  pub tasks_processed : ℤ
  pub tasks_failed : ℤ
  pub total_duration : ℤ
  pub idle_time : ℤ
  pub last_task_time : ℤ

-- A BaseWorker without its channels, which belong to the world. `offered` lists the results that
-- sendResult has offered to the result channel, oldest first.
pub record BaseWorker (W V C K : Type 0) : Type 0 where
  pub id : ℤ
  pub stats : WorkerStats
  pub available : Bool
  pub max_retries : ℤ
  pub offered : List (Result W V C K)

-- What a worker asks of the world: the clock; time.Since; whether a context is done, and with which
-- error; a wait that the context may cut short; an offer of a result to the result channel, which is
-- dropped if the channel has no room.
pub record Env (W V C K : Type 0) : Type 0 where
  pub now : W → ℤ × W
  pub since : ℤ → W → ℤ × W
  pub poll : C → W → Option Error × W
  pub wait : C → ℤ → W → Option Error × W
  pub offer : Result W V C K → W → W
  pub timers : Timers W V C
  pub formats : Formats

-- The duration in nanoseconds that waitForRetry waits for after the attempt with this number.
unfoldable pub backoff_duration : ℕ → ℤ
backoff_duration attempt =
    let shift = if ltb 20 attempt then 20 else attempt in
    let wanted = int64 (pos (2 ^ shift * 10 * 1000000)) in
    if ltb_ℤ (pos 1000000000) wanted then pos 1000000000 else wanted

module _ {W V C K : Type 0} where
  -- NewBaseWorker, at the given time.
  unfoldable pub new_base_worker : ℤ → ℤ → ℤ → BaseWorker W V C K
  new_base_worker id max_retries time = record {
    id = id;
    stats = record {
      tasks_processed = pos 0;
      tasks_failed = pos 0;
      total_duration = pos 0;
      idle_time = pos 0;
      last_task_time = time;
    };
    available = true;
    max_retries = max_retries;
    offered = [];
  }

  -- ID, Available, SetAvailable and Stats
  unfoldable pub get_id : BaseWorker W V C K → ℤ
  get_id b = b.id

  unfoldable pub is_available : BaseWorker W V C K → Bool
  is_available b = b.available

  unfoldable pub set_available : BaseWorker W V C K → Bool → BaseWorker W V C K
  set_available b available = record b { available = available }

  unfoldable pub stats : BaseWorker W V C K → WorkerStats
  stats b = b.stats

module _ {W V C K : Type 0} (env : Env W V C K) where
  -- sendResult
  unfoldable pub send_result : BaseWorker W V C K → Result W V C K → W → BaseWorker W V C K × W
  send_result b r w = (record b { offered = b.offered ++ r ∷ [] }, env.offer r w)

  -- updateTaskStats
  unfoldable pub update_task_stats :
      BaseWorker W V C K → Result W V C K → W → BaseWorker W V C K × W
  update_task_stats b r w =
      let (time, w') = env.now w in
      let s = b.stats in
      let counted : WorkerStats = elim r.err [
        | some _ ↦ record s { tasks_failed = int64 (s.tasks_failed +ℤ pos 1) }
        | none ↦ record s { tasks_processed = int64 (s.tasks_processed +ℤ pos 1) }
      ] in
      (
        record b {
          stats = record counted {
            total_duration = int64 (s.total_duration +ℤ r.duration);
            last_task_time = time;
          };
        },
        w',
      )

  -- The end of a run cut short by the context: the result carries its error and is offered.
  unfoldable pub abort :
      BaseWorker W V C K → Result W V C K → ℤ → Error → W → BaseWorker W V C K × W
  unfolding send_result
  abort b r start e w =
      let (d, w') = env.since start w in send_result b (record r { err = some e; duration = d }) w'

  -- The end of a run after the loop: the statistics are updated and the result is offered.
  unfoldable pub finish : BaseWorker W V C K → Result W V C K → W → BaseWorker W V C K × W
  unfolding update_task_stats send_result
  finish b r w = let (b', w') = update_task_stats b r w in send_result b' r w'

  -- waitForRetry; its error is the context's, where that is done before the time is over.
  abbrev pub wait_for_retry : C → ℕ → W → Option Error × W
  wait_for_retry ctx attempt w = env.wait ctx (backoff_duration attempt) w

  -- The loop of executeWithRetries and what follows it. The first number is how many attempts
  -- the loop's condition still allows, the second is `attempt`.
  unfoldable pub attempts :
      C
      → Task W V C K
      → ℕ
      → ℤ
      → ℕ
      → ℕ
      → BaseWorker W V C K
      → Result W V C K
      → W
      → BaseWorker W V C K × W
  attempts ctx task most start zero attempt b r w = finish b r w
  attempts ctx task most start (suc left) attempt b r w =
      let r₁ = record r { attempt = pos (suc attempt) } in
      let (done, w₁) = env.poll ctx w in
      let ((output, err), w₂) = Dispatch.execute env.timers task ctx w₁ in
      let (d, w₃) = env.since start w₂ in
      let (stopped, w₄) = wait_for_retry ctx attempt w₂ in
      elim done [
        | some e ↦ abort b r₁ start e w₁
        | none ↦ elim err [
          | none ↦ finish b (record r₁ { output = output; duration = d }) w₃
          | some e ↦ elim (leb most attempt) [
            | true ↦
                attempts ctx task most start left (suc attempt) b
                  (record r₁ {
                    err = some (
                        new_task_error (Dispatch.id task) (pos (suc attempt))
                          (error_text env.formats e) (some e));
                    duration = d;
                  })
                  w₃
            | false ↦ elim stopped [
              | some c ↦ abort b r₁ start c w₄
              | none ↦ attempts ctx task most start left (suc attempt) b r₁ w₄
            ]
          ]
        ]
      ]

  -- executeWithRetries: the number of retries is the task's own or else the worker's.
  unfoldable pub execute_with_retries :
      C → Task W V C K → BaseWorker W V C K → Result W V C K → W → BaseWorker W V C K × W
  execute_with_retries ctx task b r w =
      let own = Dispatch.max_retries task in
      let most = if leb_ℤ own (pos 0) then b.max_retries else own in
      let (start, w') = env.now w in
      let rounds = if ltb_ℤ most (pos 0) then 0 else suc (pos_part most) in
      attempts ctx task (pos_part most) start rounds 0 b r w'

  -- ExecuteTask
  unfoldable pub execute_task : C → Task W V C K → BaseWorker W V C K → W → BaseWorker W V C K × W
  unfolding send_result
  execute_task ctx task b w =
      let (idle, w₁) = env.since b.stats.last_task_time w in
      let (time, w₂) = env.now w₁ in
      let b' = record b {
        stats = record (b.stats) {
          idle_time = int64 (b.stats.idle_time +ℤ idle);
          last_task_time = time;
        };
      } in
      let (invalid, w₃) = Dispatch.validate task w₂ in
      let r : Result W V C K = record {
        task_id = Dispatch.id task;
        output = none;
        err = none;
        duration = pos 0;
        worker = b.id;
        attempt = pos 0;
        task = task;
      } in
      elim invalid [
        | some e ↦
            send_result b' (record r { err = some (wrapped "task validation failed: " e) }) w₃
        | none ↦ execute_with_retries ctx task b' r w₃
      ]
