-- ===== src/Worker/Tests/Loop.antt =====
-- pkg/worker/worker.go: SimpleWorker on concrete values.
use lemmings.Common.{
  arith, ◌⊎◌, ℕ, ◌+◌, ◌≤◌, ◌≡◌, refl, none, some, Bool, true, false, [], ◌∷◌, ◌++◌, pos,
  if◌then◌else◌,
}
use lemmings.Worker.Errors.{canceled}
use lemmings.Worker.Task.{Task}
use lemmings.Worker.Task.Dispatch
use lemmings.Worker.Task.Simple
use lemmings.Worker.Exec.{Env, new_base_worker}
use lemmings.Worker.Tests.Exec.{env, flaky}
use lemmings.Worker.Loop.{
  Round, channel_closed, SimpleWorker, chan, new_simple_worker, start, receive, receives, starts,
  sends, here, works, changes, takes, executes, Others, call_execute, take_task, execute_held,
}
use lemmings.Worker.Loop.Delivery.{reported}
use lemmings.Worker.Loop.Unused.{IsKept, Failures}
use lemmings.Worker.Loop.Cancelled.{cancelled_worker_fails}
use lemmings.Worker.Loop.Ending.{none_yet, then_one, Rounds-bounded, closed_drains}

abbrev task : Task ℕ ℕ Bool Bool
task = flaky 0 (pos 1)

abbrev new : SimpleWorker ℕ ℕ Bool Bool
unfolding new_simple_worker new_base_worker
new = new_simple_worker (pos 1) (chan [] false) (pos 2) (pos 0) 0

abbrev closed : SimpleWorker ℕ ℕ Bool Bool
unfolding new
closed = record new {
  task_ch = chan (task ∷ []) true;
  sent = task ∷ [];
  started = true;
  running = true;
}

-- Others do what they like.
abbrev anyone : Others ℕ ℕ Bool Bool
anyone = record { Gives = λ c. Unit; Hands = λ t. Unit; Turns = λ v w. Unit }

-- Two tasks were sent, the first is being executed, and a third was given to ExecuteTask.
abbrev working : SimpleWorker ℕ ℕ Bool Bool
working = call_execute env false (flaky 2 (pos 1)) (
    take_task env false task (task ∷ []) false
      (record (start new) { task_ch = chan (task ∷ task ∷ []) false; sent = task ∷ task ∷ [] }))

abbrev worked : SimpleWorker ℕ ℕ Bool Bool
worked = execute_held env false task working

bounded_example : 1 + 1 ≤ 2
unfolding closed new receive
bounded_example =
    Rounds-bounded env false closed (receive env false task [] true closed) 1
      (then_one none_yet (receives refl refl))

abbrev finished : SimpleWorker ℕ ℕ Bool Bool
finished = record (receive env false task [] true closed) { running = false }

drains_example :
    ((finished.running ≡ true) × ((u : SimpleWorker ℕ ℕ Bool Bool) × Round env false finished u))
    ⊎ ((finished.running ≡ false) × (reported finished ≡ reported closed ++ task ∷ []))
unfolding closed new receive
drains_example =
    closed_drains env false (λ w. refl) (task ∷ []) closed finished 2 refl refl refl
      (then_one (then_one none_yet (receives refl refl)) (Round.leaves (channel_closed refl refl)))

-- A world that counts the executions: nothing else changes it.
abbrev counting : Env ℕ ℕ Bool Bool
counting = record env {
  now = λ w. (pos 0, w);
  since = λ t w. (pos 1, w);
  wait = λ c d w. (if c then some canceled else none, w);
}

abbrev refused : SimpleWorker ℕ ℕ Bool Bool
refused = execute_held counting true task (
    take_task counting true task [] false
      (record (start new) { task_ch = chan (task ∷ []) false; sent = task ∷ [] }))

abbrev Unexecuted : ℕ → Type 0
Unexecuted w = w ≡ 0

counting-IsKept : IsKept counting Unexecuted
counting-IsKept = record {
  by_now = λ w p. p;
  by_since = λ t w p. p;
  by_poll = λ c w p. p;
  by_offer = λ r w p. p;
}

-- The world is still 0, which executing the task would have made 1.
cancelled_example :
    (refused.world ≡ 0)
    × Failures refused.base.offered
    × (refused.base.stats.tasks_processed ≡ pos 0)
    × (refused.base.stats.tasks_failed ≡ pos 0)
unfolding new start take_task execute_held Dispatch.validate Simple.validate
cancelled_example =
    cancelled_worker_fails counting Unexecuted counting-IsKept true (pos 1) (pos 2) (pos 0)
      (chan [] false) 0 refused (λ w. (canceled, refl)) (omega arith) tt refl
      (works
        (works (changes (changes here (starts refl)) (sends task (λ w p. p) refl))
          (takes refl refl refl))
        (executes refl))
