-- ===== src/Worker/Loop/Cancelled.antt =====
-- pkg/worker/worker.go: what a SimpleWorker does whose context is cancelled, as the contexts are that a
-- Manager's pool gives its workers.
use lemmings.Common.{All, All-append, ◌≡◌, refl, subst, [], ◌∷◌, ℤ, pos, ◌≤ℤ◌}
use lemmings.Worker.Task.{Task}
use lemmings.Worker.Exec.{Env, new_base_worker, set_available}
use lemmings.Worker.Loop.{
  TaskChan, SimpleWorker, new_simple_worker, start, stop, take_task, execute_held, Leaves,
  context_done, own_context_done, channel_closed, Part, takes, executes, call_execute, Change,
  starts, stops, calls, sets, sends, closes, passes, Run, here, works, changes,
}
use lemmings.Worker.Loop.Delivery.{waiting}
use lemmings.Worker.Loop.Unused.{
  Failures, no_results, IsUnused, IsDone, IsKept, keepers, Unused, executed-Unused,
}

module _ {W V C K : Type 0} (env : Env W V C K) (P : W → Type 0) (kept : IsKept env P) where
  -- The worker is unused, the world has the property, and the tasks keep it.
  record Inv (s : SimpleWorker W V C K) : Type 0 where
    unused : Unused env P kept (s.base, s.world)
    waiting_keep : All (keepers env P).Hands (waiting s.task_ch)
    held_keep : All (keepers env P).Hands s.held

  execute_held-Inv :
      (ctx : C) (task : Task W V C K) (s : SimpleWorker W V C K)
      → IsDone env ctx
      → s.held ≡ task ∷ []
      → Inv s
      → Inv (execute_held env ctx task s)
  unfolding execute_held
  execute_held-Inv ctx task s cancelled holds v =
      let handed = subst (All (keepers env P).Hands) holds v.held_keep in
      record {
        unused = executed-Unused env P kept ctx task s.base s.world cancelled handed.0 v.unused;
        waiting_keep = v.waiting_keep;
        held_keep = tt;
      }

  Leaves-Inv : {ctx : C} {s t : SimpleWorker W V C K} → Leaves env ctx s t → Inv s → Inv t
  Leaves-Inv {ctx} {s} (context_done on done) v = record {
    unused = (v.unused.0, kept.by_poll ctx s.world v.unused.1);
    waiting_keep = v.waiting_keep;
    held_keep = v.held_keep;
  }
  Leaves-Inv (own_context_done on done) v = record {
    unused = v.unused;
    waiting_keep = v.waiting_keep;
    held_keep = v.held_keep;
  }
  Leaves-Inv (channel_closed on done) v = record {
    unused = v.unused;
    waiting_keep = v.waiting_keep;
    held_keep = v.held_keep;
  }

  Part-Inv :
      {ctx : C} {s t : SimpleWorker W V C K} → IsDone env ctx → Part env ctx s t → Inv s → Inv t
  unfolding take_task
  Part-Inv cancelled (Part.leaves step) v = Leaves-Inv step v
  Part-Inv {s = s} cancelled (takes {task} {rest} {closed} on free got) v =
      let handed = subst (λ c. All (keepers env P).Hands (waiting c)) got v.waiting_keep in
      record { unused = v.unused; waiting_keep = handed.1; held_keep = (handed.0, tt) }
  Part-Inv {ctx} {s} cancelled (executes {task} holds) v =
      execute_held-Inv ctx task s cancelled holds v

  Change-Inv : {s t : SimpleWorker W V C K} → Change env (keepers env P) s t → Inv s → Inv t
  unfolding start stop set_available call_execute
  Change-Inv (starts first) v = record {
    unused = v.unused;
    waiting_keep = v.waiting_keep;
    held_keep = v.held_keep;
  }
  Change-Inv stops v = record {
    unused = v.unused;
    waiting_keep = v.waiting_keep;
    held_keep = v.held_keep;
  }
  Change-Inv {s} (calls {c} task cancelled handed) v = record {
    unused = executed-Unused env P kept c task s.base s.world cancelled handed v.unused;
    waiting_keep = v.waiting_keep;
    held_keep = v.held_keep;
  }
  Change-Inv (sets available) v = record {
    unused = (
      record {
        patient = v.unused.0.patient;
        none_processed = v.unused.0.none_processed;
        none_failed = v.unused.0.none_failed;
        failures = v.unused.0.failures;
      },
      v.unused.1,
    );
    waiting_keep = v.waiting_keep;
    held_keep = v.held_keep;
  }
  Change-Inv {s} (sends {tasks} task handed open_) v = record {
    unused = v.unused;
    waiting_keep =
        All-append _ tasks (task ∷ [])
          (subst (λ c. All (keepers env P).Hands (waiting c)) open_ v.waiting_keep) (handed, tt);
    held_keep = v.held_keep;
  }
  Change-Inv {s} (closes {tasks} open_) v = record {
    unused = v.unused;
    waiting_keep = subst (λ c. All (keepers env P).Hands (waiting c)) open_ v.waiting_keep;
    held_keep = v.held_keep;
  }
  Change-Inv {s} (passes turned) v = record {
    unused = (v.unused.0, turned v.unused.1);
    waiting_keep = v.waiting_keep;
    held_keep = v.held_keep;
  }

  Run-Inv :
      {ctx : C} {s t : SimpleWorker W V C K}
      → IsDone env ctx
      → Inv s
      → Run env ctx (keepers env P) s t
      → Inv t
  Run-Inv cancelled v here = v
  Run-Inv cancelled v (works run step) = Part-Inv cancelled step (Run-Inv cancelled v run)
  Run-Inv cancelled v (changes run step) = Change-Inv step (Run-Inv cancelled v run)

  -- Under contexts that are done whenever they are asked, a worker that was made with a number of retries
  -- that is not negative executes no task, whatever its channel and direct calls of ExecuteTask bring. A
  -- property of the world, such as that nothing was executed, which the clock, the contexts, the result
  -- channel, the tasks' Validate and all others keep, still holds at the end, though executing the tasks
  -- may break it; every result that the worker offers has an error and no output; and neither of its
  -- counters of tasks moves.
  pub cancelled_worker_fails :
      (ctx : C) (id max_retries time : ℤ) (ch : TaskChan W V C K) (w : W) (t : SimpleWorker W V C K)
      → IsDone env ctx
      → pos 0 ≤ℤ max_retries
      → All (keepers env P).Hands (waiting ch)
      → P w
      → Run env ctx (keepers env P) (new_simple_worker id ch max_retries time w) t
      → P t.world
        × Failures t.base.offered
        × (t.base.stats.tasks_processed ≡ pos 0)
        × (t.base.stats.tasks_failed ≡ pos 0)
  unfolding new_simple_worker new_base_worker
  cancelled_worker_fails ctx id max_retries time ch w t cancelled allowed handed p run =
      let new : IsUnused (new_base_worker id max_retries time) = record {
        patient = allowed;
        none_processed = refl;
        none_failed = refl;
        failures = no_results;
      } in
      let v =
        Run-Inv cancelled (record { unused = (new, p); waiting_keep = handed; held_keep = tt })
          run in
      (v.unused.1, v.unused.0.failures, v.unused.0.none_processed, v.unused.0.none_failed)
