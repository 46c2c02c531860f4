-- ===== src/Examples/Monitoring.antt =====
-- examples/advanced/main.go: what has been counted as processed waits in the manager's queue.
use lemmings.Common.{
  ◌⊎◌, ℕ, zero, suc, ◌≤◌, ◌≡◌, sym, ap, subst, inl, inr, String, Option, none, some, Bool,
  Bool-cases, [], ◌∷◌, length, length-append, pos, arith,
}
use lemmings.Worker.Task.{Task}
use lemmings.Manager.Lifecycle.{Manager}
use lemmings.Manager.Lifecycle.Submission.{Choice, submit}
use lemmings.Manager.Lifecycle.Queue.{added, submit-Submitted}
use lemmings.Examples.{Machine, TaskResult}
use lemmings.Examples.Processor.{
  TaskProcessor, Submissions, ends, crashes, submit_task, process_loop, process_math, process_io,
  process_mixed,
}
use lemmings.Examples.Main
use lemmings.Examples.Main.{
  go_on, all_completed, stopped, all_submitted, panicked, submit_batches, submit_all, all_done,
  wait_loop, all_processed, monitor, submit_simple,
}

module _ {P W V C K F : Type 0} where
  -- Where the processor has counted a task, one waits in its manager's queue.
  abbrev pub IsQueued : TaskProcessor (Manager P W V C K F) → Type 0
  IsQueued tp = (tp.total_processed ≡ pos 0) ⊎ (1 ≤ length tp.manager.task_queue)

  abbrev Queued : Submissions (Manager P W V C K F) W → Type 0
  Queued (ends tp failed w) = IsQueued tp
  Queued crashes = Unit

  pub added-one :
      (t : Task W V C K) (m n : Manager P W V C K F)
      → n ≡ added (t ∷ []) m
      → 1 ≤ length n.task_queue
  added-one t m n e = omega (
    arith,
    ap (λ (x : Manager P W V C K F). length x.task_queue) e,
    length-append m.task_queue (t ∷ []),
  )

  submit_task-Queued :
      (choice : Choice) (id : String) (task : Option (Task W V C K))
      (tp : TaskProcessor (Manager P W V C K F)) (w : W)
      → IsQueued tp
      → Queued (submit_task choice id task tp w)
  unfolding submit_task
  submit_task-Queued choice id none tp w h = elim (Bool-cases tp.manager.started) [
    | inl on ↦ rw on tt
    | inr off ↦ rw off h
  ]
  submit_task-Queued choice id (some t) tp w h =
      let sent = submit tp.manager.started choice t tp.manager w in
      elim (submit-Submitted tp.manager.started choice t tp.manager w) [
        | inr (e, failed, unchanged) ↦
            rw (failed, submit_task)
              (subst (λ x. IsQueued (record tp { manager = x })) (sym unchanged) h)
        | inl (done, moved) ↦ rw (done, submit_task) (inr (added-one t tp.manager sent.0.0 moved))
      ]

  next-Queued :
      (r : Submissions (Manager P W V C K F) W)
      (next : TaskProcessor (Manager P W V C K F) → W → Submissions (Manager P W V C K F) W)
      → Queued r
      → ((tp : TaskProcessor (Manager P W V C K F)) (w : W) → IsQueued tp → Queued (next tp w))
      → Queued (elim r [
        | crashes ↦ crashes
        | ends tp failed w ↦ elim failed [ some e ↦ ends tp (some e) w | none ↦ next tp w ]
      ])
  next-Queued crashes next h keeps = tt
  next-Queued (ends tp none w) next h keeps = keeps tp w h
  next-Queued (ends tp (some e) w) next h keeps = h

  process_loop-Queued :
      (make : ℕ → W → Option (Task W V C K) × W) (name : ℕ → String) (choose : ℕ → Choice)
      (left i : ℕ) (tp : TaskProcessor (Manager P W V C K F)) (w : W)
      → IsQueued tp
      → Queued (process_loop make name choose left i tp w)
  unfolding process_loop
  process_loop-Queued make name choose zero i tp w h = h
  process_loop-Queued make name choose (suc left) i tp w h =
      let (task, w₁) = make i w in
      next-Queued (submit_task (choose i) (name i) task tp w₁)
        (process_loop make name choose left (suc i))
        (submit_task-Queued (choose i) (name i) task tp w₁ h)
        (process_loop-Queued make name choose left (suc i))

module _ {P W C K F : Type 0} (machine : Machine W) (done : W → Bool × W)
    (choose : ℕ → ℕ → Choice) where
  abbrev pub AllQueued : Main.Submitted (Manager P W TaskResult C K F) W → Type 0
  AllQueued (stopped tp w) = IsQueued tp
  AllQueued (all_submitted tp w) = IsQueued tp
  AllQueued panicked = Unit

  go_on-AllQueued :
      (r : Submissions (Manager P W TaskResult C K F) W)
      (next : TaskProcessor (Manager P W TaskResult C K F)
        → W
        → Main.Submitted (Manager P W TaskResult C K F) W)
      → Queued r
      → ((tp : TaskProcessor (Manager P W TaskResult C K F)) (w : W)
          → IsQueued tp
          → AllQueued (next tp w))
      → AllQueued (go_on r next)
  go_on-AllQueued (ends tp failed w) next h keeps = keeps tp w h
  go_on-AllQueued crashes next h keeps = tt

  submit_batches-AllQueued :
      (left : ℕ) (tp : TaskProcessor (Manager P W TaskResult C K F)) (w : W)
      → IsQueued tp
      → AllQueued (submit_batches machine done choose left tp w)
  unfolding submit_batches process_mixed
  submit_batches-AllQueued zero tp w h = h
  submit_batches-AllQueued (suc left) tp w h = elim (Bool-cases (done w).0) [
    | inl over ↦ rw (over, submit_batches) h
    | inr more ↦
        rw (more, submit_batches)
          (go_on-AllQueued _ _ (process_loop-Queued _ _ (choose left) 100 0 tp (done w).1 h)
            (λ tp₁ w₂ h₁. submit_batches-AllQueued left tp₁ _ h₁))
  ]

  pub submit_all-AllQueued :
      (tp : TaskProcessor (Manager P W TaskResult C K F)) (w : W)
      → IsQueued tp
      → AllQueued (submit_all machine done choose tp w)
  unfolding submit_all process_math process_io
  submit_all-AllQueued tp w h =
      go_on-AllQueued _ _ (process_loop-Queued _ _ (choose 6) 20 0 tp w h) (λ tp₁ w₁ h₁.
        go_on-AllQueued _ _ (process_loop-Queued _ _ (choose 5) 20 0 tp₁ w₁ h₁)
          (λ tp₂ w₂ h₂. submit_batches-AllQueued 5 tp₂ w₂ h₂))
