-- ===== src/Worker/Loop/Delivery.antt =====
-- pkg/worker/worker.go: SimpleWorker neither loses nor repeats nor reorders a task.
use lemmings.Common.{◌≡◌, ap, ◌∙◌, Bool, List, [], ◌∷◌, ◌++◌, map}
use mathlib.Core.List.{map-append}
use lemmings.Worker.Task.{Task}
use lemmings.Worker.Exec.{Result, BaseWorker, Env, execute_task}
use lemmings.Worker.Exec.Attempts.{execute_task_lem}
use lemmings.Worker.Loop.{TaskChan, nil_chan, chan, SimpleWorker, receive}

-- The third list has the items of the first and of the second, in the order of each.
pub data Merges {A : Type 0} : List A → List A → List A → Type 0 where
  none_yet : Merges [] [] []
  from_left :
      {xs ys zs : List A} (x : A) → Merges xs ys zs → Merges (xs ++ x ∷ []) ys (zs ++ x ∷ [])
  from_right :
      {xs ys zs : List A} (y : A) → Merges xs ys zs → Merges xs (ys ++ y ∷ []) (zs ++ y ∷ [])

module _ {W V C K : Type 0} where
  -- What waits in a channel.
  abbrev pub waiting : TaskChan W V C K → List (Task W V C K)
  waiting nil_chan = []
  waiting (chan tasks closed) = tasks

  tasks_of : BaseWorker W V C K → List (Task W V C K)
  tasks_of b = map (λ (r : Result W V C K). r.task) b.offered

  -- The tasks that a worker has offered results about, oldest first.
  abbrev pub reported : SimpleWorker W V C K → List (Task W V C K)
  reported s = map (λ (r : Result W V C K). r.task) s.base.offered

  -- The tasks that were sent are those of which the worker has offered results, those that its
  -- goroutine executes and those that wait; and there are results about the tasks of direct calls.
  pub record Delivered (s : SimpleWorker W V C K) : Type 0 where
    pub finished : List (Task W V C K)
    pub in_order : s.sent ≡ finished ++ (s.held ++ waiting s.task_ch)
    pub all_reported : Merges finished s.called (reported s)

module _ {W V C K : Type 0} (env : Env W V C K) where
  tasks_of-execute :
      (ctx : C) (task : Task W V C K) (b : BaseWorker W V C K) (w : W)
      → tasks_of (execute_task env ctx task b w).0 ≡ tasks_of b ++ task ∷ []
  unfolding tasks_of
  tasks_of-execute ctx task b w =
      let (r, offered, same_id, same_worker, same_task, tried, accounts) =
        execute_task_lem env ctx task b w in
      let task_of = λ (x : Result W V C K). x.task in
      ap (map task_of) offered
      ∙ map-append task_of b.offered (r ∷ [])
      ∙ ap (λ t. map task_of b.offered ++ t ∷ []) same_task

  pub reported-receive :
      (ctx : C) (task : Task W V C K) (rest : List (Task W V C K)) (closed : Bool)
      (s : SimpleWorker W V C K)
      → reported (receive env ctx task rest closed s) ≡ reported s ++ task ∷ []
  unfolding receive tasks_of
  reported-receive ctx task rest closed s = tasks_of-execute ctx task s.base s.world
