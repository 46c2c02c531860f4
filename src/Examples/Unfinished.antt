-- ===== src/Examples/Unfinished.antt =====
-- The wait of examples/advanced/main.go and the monitor of examples/simple/main.go: no worker takes a task
-- out of the manager's queue, so that neither sees all tasks completed.
use lemmings.Common.{
  refl, ok, Option, none, Option-cases, ◌≢◌, ◌⊎◌, ℕ, zero, suc, ◌≤◌, ◌≡◌, sym, subst, inl, inr,
  String, some, Bool, false, List, [], ◌∷◌, All, length, Outcome, ℤ, pos, arith,
}
use lemmings.Utils.Floats.{Floats}
use lemmings.Manager.Lifecycle
use lemmings.Manager.Lifecycle.{Manager, Ending, returns, fails, panics}
use lemmings.Manager.Lifecycle.Submission
use lemmings.Manager.Lifecycle.Submission.{Choice, submit}
use lemmings.Manager.Lifecycle.Queue.{submit-Submitted}
use lemmings.Manager.Lifecycle.Waiting.{WaitRound, context_done, ticks, Steps, Steps-Waits, IsLater}
use lemmings.Examples.{Machine, TaskResult, simple_task}
use lemmings.Examples.Processor
use lemmings.Examples.Processor.{
  CustomWorker, new_custom_worker, processor_config, new_task_processor, TaskProcessor,
  get_processed_count,
}
use lemmings.Examples.Main.{
  set_up, interrupted, timed_out, all_completed, all_submitted, submit_all, all_done, wait_loop,
  all_processed, monitor, submit_simple,
}
use lemmings.Examples.Monitoring.{AllQueued, submit_all-AllQueued, added-one}

not_timed_out : timed_out ≡ all_completed → ⊥
not_timed_out e = cc

not_interrupted : interrupted ≡ all_completed → ⊥
not_interrupted e = cc

not_some_interrupted : some interrupted ≡ some all_completed → ⊥
not_some_interrupted e = cc

module _ {P W V C K E F : Type 0} (create : ℤ → Outcome E P) where
  still_waits :
      (m n l : Manager P W V C K F)
      → 1 ≤ length m.task_queue
      → Steps create m n
      → Steps create n l
      → 1 ≤ length l.task_queue
  still_waits m n l h first second =
      Steps-Waits create 1 n l (Steps-Waits create 1 m n h first) second

  not_done :
      (processed : ℤ) (m n : Manager P W V C K F)
      → 1 ≤ length n.task_queue
      → all_done processed m n ≡ false
  unfolding all_done Submission.get_task_queue_length
  not_done processed m n h = ground arith

  wait_loop-unfinished :
      (tp : TaskProcessor (Manager P W V C K F)) (rounds : List (WaitRound (Manager P W V C K F)))
      → 1 ≤ length tp.manager.task_queue
      → All (IsLater create tp.manager) rounds
      → wait_loop tp rounds ≢ all_completed
  unfolding wait_loop
  wait_loop-unfinished tp [] h later e = not_timed_out e
  wait_loop-unfinished tp (context_done c ∷ rounds) h later e = not_interrupted e
  wait_loop-unfinished tp (ticks n l ∷ rounds) h later e =
      let waiting = still_waits tp.manager n l h later.0.0 later.0.1 in
      let open_ = not_done (get_processed_count tp) n l waiting in
      wait_loop-unfinished tp rounds h later.1 (rw (open_, wait_loop) at e)

  not_processed : (m n : Manager P W V C K F) → 1 ≤ length n.task_queue → all_processed m n ≡ false
  unfolding all_processed Submission.get_task_queue_length
  not_processed m n h = ground arith

  monitor-unfinished :
      (m : Manager P W V C K F) (rounds : List (WaitRound (Manager P W V C K F)))
      → 1 ≤ length m.task_queue
      → All (IsLater create m) rounds
      → monitor rounds ≢ some all_completed
  unfolding monitor
  monitor-unfinished m [] h later e = cc
  monitor-unfinished m (context_done c ∷ rounds) h later e = not_some_interrupted e
  monitor-unfinished m (ticks n l ∷ rounds) h later e =
      let open_ = not_processed n l (still_waits m n l h later.0.0 later.0.1) in
      monitor-unfinished m rounds h later.1 (rw (open_, monitor) at e)

Ending-cases :
    {E A : Type 0} (r : Ending E A)
    → ((a : A) × (r ≡ returns a)) ⊎ ((e : E) × (r ≡ fails e)) ⊎ (r ≡ panics)
Ending-cases (returns a) = inl (a, refl)
Ending-cases (fails e) = inr (inl (e, refl))
Ending-cases panics = inr (inr refl)

module _ {M : Type 0} where
  -- A processor that the example has has counted nothing.
  abbrev IsFresh : Option (TaskProcessor M) → Type 0
  IsFresh none = Unit
  IsFresh (some tp) = tp.total_processed ≡ pos 0

module _ {W : Type 0} (C K : Type 0) (floats : Floats) where
  set_up-IsFresh :
      (now time : ℤ) (w : W)
      → IsFresh (set_up {W = W} {V = TaskResult} {C = C} {K = K} floats now time w)
  unfolding set_up new_task_processor Processor.start
  set_up-IsFresh now time w =
      elim (Ending-cases (
        Lifecycle.new_manager {P = CustomWorker W TaskResult C K} {W = W} {V = TaskResult} {C = C}
          {K = K} {E = ⊥} floats now (processor_config floats))) [
            | inl (m, made) ↦
                elim (Option-cases
                  (Lifecycle.start {E = ⊥} (λ id. ok (new_custom_worker time w id)) m).1) [
                    | inl fine ↦ rw (made, fine, set_up, new_task_processor, Processor.start) refl
                    | inr (e, failed) ↦
                        rw (made, failed, set_up, new_task_processor, Processor.start) tt
                  ]
            | inr (inl (e, failed)) ↦ rw (failed, set_up, new_task_processor) tt
            | inr (inr panicked) ↦ rw (panicked, set_up, new_task_processor) tt
          ]

-- What the pool's factory makes.
abbrev pub made_at : {W C K : Type 0} → ℤ → W → ℤ → Outcome ⊥ (CustomWorker W TaskResult C K)
made_at time w id = ok (new_custom_worker time w id)

module _ {W C K : Type 0} (floats : Floats) (machine : Machine W) where
  -- The advanced example never ends with all tasks completed: once it was set up and its processor has
  -- counted a task, its wait is interrupted or times out, whatever the package does meanwhile.
  pub advanced_never_completes :
      (now time : ℤ) (done : W → Bool × W) (choose : ℕ → ℕ → Choice)
      (tp tp₁ : TaskProcessor
        (Manager (CustomWorker W TaskResult C K) W TaskResult C K floats.Float))
      (w w₁ : W)
      (rounds : List
        (WaitRound (Manager (CustomWorker W TaskResult C K) W TaskResult C K floats.Float)))
      → set_up floats now time w ≡ some tp
      → submit_all machine done choose tp w ≡ all_submitted tp₁ w₁
      → tp₁.total_processed ≢ pos 0
      → All (IsLater (made_at time w) tp₁.manager) rounds
      → wait_loop tp₁ rounds ≢ all_completed
  advanced_never_completes now time done choose tp tp₁ w w₁ rounds ready all counted later =
      let fresh = subst IsFresh ready (set_up-IsFresh C K floats now time w) in
      let kept = submit_all-AllQueued machine done choose tp w (inl fresh) in
      elim (subst (λ r. AllQueued machine done choose r) all kept) [
        | inl nothing ↦ absurd (counted nothing)
        | inr waiting ↦ wait_loop-unfinished _ tp₁ rounds waiting later
      ]

module _ {P W C K E F : Type 0} (create : ℤ → Outcome E P) (machine : Machine W) where
  -- What was counted as submitted, if anything was, waits in the queue.
  abbrev Kept : Manager P W String C K F → Type 0
  Kept m = (m.stats.tasks_submitted ≡ pos 0) ⊎ (1 ≤ length m.task_queue)

  submit_simple-Kept :
      (choose : ℕ → Choice) (left i : ℕ) (m : Manager P W String C K F) (w : W)
      → Kept m
      → Kept (submit_simple machine choose left i m w).0
  unfolding submit_simple
  submit_simple-Kept choose zero i m w h = h
  submit_simple-Kept choose (suc left) i m w h =
      let task = simple_task machine i in
      let sent = submit m.started (choose i) task m w in
      let kept : Kept sent.0.0 = elim (submit-Submitted m.started (choose i) task m w) [
        | inr (e, failed, unchanged) ↦ subst Kept (sym unchanged) h
        | inl (sent_, moved) ↦ inr (added-one task m sent.0.0 moved)
      ] in
      submit_simple-Kept choose left (suc i) sent.0.0 _ kept

  -- The monitor of the simple example never sees all tasks processed, once the example has submitted one
  -- of its hundred tasks to a manager with none submitted before, whatever the package does meanwhile.
  simple_never_completes :
      (choose : ℕ → Choice) (m : Manager P W String C K F) (w : W)
      (rounds : List (WaitRound (Manager P W String C K F)))
      → m.stats.tasks_submitted ≡ pos 0
      → (submit_simple machine choose 100 0 m w).0.stats.tasks_submitted ≢ pos 0
      → All (IsLater create (submit_simple machine choose 100 0 m w).0) rounds
      → monitor rounds ≢ some all_completed
  simple_never_completes choose m w rounds fresh counted later =
      elim (submit_simple-Kept choose 100 0 m w (inl fresh)) [
        | inl nothing ↦ absurd (counted nothing)
        | inr waiting ↦ monitor-unfinished create _ rounds waiting later
      ]
