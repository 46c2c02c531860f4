-- ===== src/Worker/Loop.antt =====
-- pkg/worker/worker.go: SimpleWorker, whose goroutine is a step relation: each round its select takes any
-- case that is ready. Contexts, the clock and the result channel are in the world, as in Exec. Start is
-- called once, as by the pool: a second call would launch a second goroutine. An execution is a step
-- after the one that receives its task; of two that overlap, the goroutine's and a direct call of
-- ExecuteTask, the one whose result comes first is the earlier step.
pub mod Delivery
pub mod Ending
pub mod Unused
pub mod Cancelled
use lemmings.Common.{ℕ, suc, ◌≡◌, Option, none, some, Bool, true, false, List, [], ◌∷◌, ◌++◌, ℤ}
use lemmings.Worker.Errors.{Error}
use lemmings.Worker.Task.{Task}
use lemmings.Worker.Exec.{BaseWorker, Env, new_base_worker, set_available, execute_task}

-- The task channel: nil, or what waits in it, oldest first, and whether it is closed.
pub data TaskChan (W V C K : Type 0) : Type 0 where
  nil_chan : TaskChan W V C K
  chan : List (Task W V C K) → Bool → TaskChan W V C K

-- A SimpleWorker in its world. `stopped` says whether its own context is cancelled, `started` whether its
-- goroutine was launched, `running` whether that is at its select, and `held` is the task, if any, that it
-- executes. `sent` lists what was ever put into the channel and `called` what ExecuteTask was ever given
-- directly, oldest first.
pub record SimpleWorker (W V C K : Type 0) : Type 0 where
  pub base : BaseWorker W V C K
  pub task_ch : TaskChan W V C K
  pub stopped : Bool
  pub started : Bool
  pub running : Bool
  pub held : List (Task W V C K)
  pub sent : List (Task W V C K)
  pub called : List (Task W V C K)
  pub world : W

module _ {W V C K : Type 0} where
  -- NewSimpleWorker, at the given time
  unfoldable pub new_simple_worker : ℤ → TaskChan W V C K → ℤ → ℤ → W → SimpleWorker W V C K
  unfolding new_base_worker
  new_simple_worker id ch max_retries time w = record {
    base = new_base_worker id max_retries time;
    task_ch = ch;
    stopped = false;
    started = false;
    running = false;
    held = [];
    sent = [];
    called = [];
    world = w;
  }

  -- The first Start, which launches the goroutine.
  unfoldable pub start : SimpleWorker W V C K → SimpleWorker W V C K
  start s = record s { started = true; running = true }

  -- Stop cancels the context; it returns when the goroutine has ended.
  unfoldable pub stop : SimpleWorker W V C K → SimpleWorker W V C K
  stop s = record s { stopped = true }

module _ {W V C K : Type 0} (env : Env W V C K) (ctx : C) where
  -- The goroutine takes a task from the channel, executes the task that it has taken, and does both.
  unfoldable pub take_task :
      Task W V C K → List (Task W V C K) → Bool → SimpleWorker W V C K → SimpleWorker W V C K
  take_task task rest closed s = record s {
    task_ch = chan rest closed;
    running = false;
    held = task ∷ [];
  }

  unfoldable pub execute_held : Task W V C K → SimpleWorker W V C K → SimpleWorker W V C K
  execute_held task s =
      let (base, w) = execute_task env ctx task s.base s.world in
      record s { base = base; world = w; running = true; held = [] }

  unfoldable pub receive :
      Task W V C K → List (Task W V C K) → Bool → SimpleWorker W V C K → SimpleWorker W V C K
  unfolding take_task execute_held
  receive task rest closed s = execute_held task (take_task task rest closed s)

  -- The rounds in which the goroutine ends.
  pub data Leaves (s : SimpleWorker W V C K) : SimpleWorker W V C K → Type 0 where
    context_done :
        {e : Error}
        → s.running ≡ true
        → (env.poll ctx s.world).0 ≡ some e
        → Leaves s (record s { running = false; world = (env.poll ctx s.world).1 })
    own_context_done : s.running ≡ true → s.stopped ≡ true → Leaves s (record s { running = false })
    channel_closed :
        s.running ≡ true → s.task_ch ≡ chan [] true → Leaves s (record s { running = false })

  -- A whole round of the goroutine, started with the context `ctx`.
  pub data Round (s : SimpleWorker W V C K) : SimpleWorker W V C K → Type 0 where
    leaves : {t : SimpleWorker W V C K} → Leaves s t → Round s t
    receives :
        {task : Task W V C K} {rest : List (Task W V C K)} {closed : Bool}
        → s.running ≡ true
        → s.task_ch ≡ chan (task ∷ rest) closed
        → Round s (receive task rest closed s)

  -- The parts of a round, between which others may act.
  pub data Part (s : SimpleWorker W V C K) : SimpleWorker W V C K → Type 0 where
    leaves : {t : SimpleWorker W V C K} → Leaves s t → Part s t
    takes :
        {task : Task W V C K} {rest : List (Task W V C K)} {closed : Bool}
        → s.running ≡ true
        → s.held ≡ []
        → s.task_ch ≡ chan (task ∷ rest) closed
        → Part s (take_task task rest closed s)
    executes : {task : Task W V C K} → s.held ≡ task ∷ [] → Part s (execute_held task s)

-- What others may do: the contexts that they give to ExecuteTask, the tasks that they hand over, and
-- what they do to the world.
pub record Others (W V C K : Type 0) : Type 1 where
  pub Gives : C → Type 0
  pub Hands : Task W V C K → Type 0
  pub Turns : W → W → Type 0

module _ {W V C K : Type 0} (env : Env W V C K) where
  -- A direct call of ExecuteTask
  unfoldable pub call_execute : C → Task W V C K → SimpleWorker W V C K → SimpleWorker W V C K
  call_execute ctx task s =
      let (base, w) = execute_task env ctx task s.base s.world in
      record s { base = base; world = w; called = s.called ++ task ∷ [] }

  -- What others do to a worker: its methods, a send and the close of its channel, and whatever else
  -- changes the world.
  pub data Change (others : Others W V C K) (s : SimpleWorker W V C K)
      : SimpleWorker W V C K → Type 0 where
    starts : s.started ≡ false → Change others s (start s)
    stops : Change others s (stop s)
    calls :
        {c : C} (task : Task W V C K)
        → others.Gives c
        → others.Hands task
        → Change others s (call_execute c task s)
    sets : (available : Bool) → Change others s (record s { base = set_available s.base available })
    sends :
        {tasks : List (Task W V C K)} (task : Task W V C K)
        → others.Hands task
        → s.task_ch ≡ chan tasks false
        → Change others s
            (record s { task_ch = chan (tasks ++ task ∷ []) false; sent = s.sent ++ task ∷ [] })
    closes :
        {tasks : List (Task W V C K)}
        → s.task_ch ≡ chan tasks false
        → Change others s (record s { task_ch = chan tasks true })
    passes : {w : W} → others.Turns s.world w → Change others s (record s { world = w })

  pub data Run (ctx : C) (others : Others W V C K) (s : SimpleWorker W V C K)
      : SimpleWorker W V C K → Type 0 where
    here : Run ctx others s s
    works :
        {t u : SimpleWorker W V C K} → Run ctx others s t → Part env ctx t u → Run ctx others s u
    changes :
        {t u : SimpleWorker W V C K} → Run ctx others s t → Change others t u → Run ctx others s u
