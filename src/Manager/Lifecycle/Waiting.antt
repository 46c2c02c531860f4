-- ===== src/Manager/Lifecycle/Waiting.antt =====
-- pkg/manager/manager.go: WaitForCompletion. The pool keeps the manager's channels to itself
-- (pkg/worker/pool.go: addWorker passes a factory the id only), so that no code receives from the task
-- queue or sends to the result queue.
use lemmings.Common.{
  ◌≢◌, ℕ, ◌≤◌, ◌≡◌, subst, inl, inr, if_elim, Bool, true, false, Option, Option-cases, none, some,
  List, [], ◌∷◌, length, length-append, Outcome, ℤ, arith, All,
}
use lemmings.Worker.Errors.{Error}
use lemmings.Worker.Task.{Task}
use lemmings.Worker.Task.Dispatch
use lemmings.Worker.Exec.{Result}
use lemmings.Worker.Pool
use lemmings.Manager.Controller.{ResourceController}
use lemmings.Manager.Lifecycle.{
  Manager, ManagerError, SubmitError, Ending, returns, fails, panics, start, stop, handle_result,
}
use lemmings.Manager.Lifecycle.Submission.{
  Choice, sends, times_out, shuts, enqueue, submit, is_complete, get_task_queue_length,
}

-- A round of WaitForCompletion: its context is done, or the ticker ticks, with the manager as it is when
-- the statistics are read and when the queue is.
pub data WaitRound (M : Type 0) : Type 0 where
  context_done : Error → WaitRound M
  ticks : M → M → WaitRound M

module _ {P W V C K F : Type 0} where
  -- WaitForCompletion, for so many rounds: its error or nil, or `none` while it waits.
  unfoldable pub wait_for_completion :
      List (WaitRound (Manager P W V C K F)) → Option (Option Error)
  wait_for_completion [] = none
  wait_for_completion (context_done e ∷ rounds) = some (some e)
  wait_for_completion (ticks m n ∷ rounds) = elim (is_complete m n) [
    | true ↦ some none
    | false ↦ wait_for_completion rounds
  ]

an_error : {e : SubmitError} → some e ≡ none → ⊥
an_error e = cc

no_answer : {a : Option Error} → none ≡ some a → ⊥
no_answer e = cc

other_answer : {e : Error} → some (some e) ≡ some none → ⊥
other_answer e = cc

module _ {P W V C K E F : Type 0} (create : ℤ → Outcome E P) where
  -- What the package does to a manager: its methods and its goroutine processResults, which has a result
  -- only if the result queue does, in any order, and anything that concerns the controller only.
  pub data Steps (m : Manager P W V C K F) : Manager P W V C K F → Type 0 where
    here : Steps m m
    starting : {n : Manager P W V C K F} → Steps m n → Steps m (start create n).0
    stopping : {n l : Manager P W V C K F} → Steps m n → stop n ≡ returns l → Steps m l
    submitting :
        {n : Manager P W V C K F} (was_started : Bool) (choice : Choice) (task : Task W V C K)
        (w : W)
        → Steps m n
        → Steps m (submit was_started choice task n w).0.0
    handling :
        {n : Manager P W V C K F} {r : Result W V C K} {rs : List (Result W V C K)}
        → Steps m n
        → n.result_queue ≡ r ∷ rs
        → Steps m (handle_result r (record n { result_queue = rs }))
    controlling :
        {n : Manager P W V C K F} (r : ResourceController F)
        → Steps m n
        → Steps m (record n { resource_ctrl = r })

  -- At least so many tasks wait.
  abbrev pub Waits : ℕ → Manager P W V C K F → Type 0
  Waits k m = k ≤ length m.task_queue

  start-Waits : (k : ℕ) (m : Manager P W V C K F) → Waits k m → Waits k (start create m).0
  unfolding start
  start-Waits k m h =
      if_elim (λ (x : Manager P W V C K F × Option (ManagerError E)). Waits k x.0) m.started
        (λ on. h)
        (λ off. elim (Option-cases (Pool.start create m.worker_pool).1) [
          | inl done ↦ rw done h
          | inr (e, failed) ↦ rw failed h
        ])

  abbrev Returned : {A : Type 0} → ℕ → Ending A (Manager P W V C K F) → Type 0
  Returned k (returns m) = Waits k m
  Returned k (fails e) = Unit
  Returned k panics = Unit

  stop-Returned : (k : ℕ) (m : Manager P W V C K F) → Waits k m → Returned k (stop m)
  unfolding stop
  stop-Returned k m h =
      if_elim (Returned k) m.started
        (λ on. if_elim (Returned k) m.shut_down (λ again. tt) (λ first. h)) (λ off. h)

  enqueue-Waits :
      (k : ℕ) (choice : Choice) (task : Task W V C K) (m : Manager P W V C K F)
      → Waits k m
      → Waits k (enqueue choice task m).0
  unfolding enqueue
  enqueue-Waits k sends task m h = omega (arith, h, length-append m.task_queue (task ∷ []))
  enqueue-Waits k times_out task m h = h
  enqueue-Waits k shuts task m h = h

  pub submit-Waits :
      (k : ℕ) (was_started : Bool) (choice : Choice) (task : Task W V C K) (m : Manager P W V C K F)
      (w : W)
      → Waits k m
      → Waits k (submit was_started choice task m w).0.0
  unfolding submit
  submit-Waits k false choice task m w h = h
  submit-Waits k true choice task m w h = elim (Option-cases (Dispatch.validate task w).0) [
    | inr (e, invalid) ↦ rw (invalid, submit) h
    | inl valid ↦ rw (valid, submit) (enqueue-Waits k choice task m h)
  ]

  pub Steps-Waits : (k : ℕ) (m n : Manager P W V C K F) → Waits k m → Steps m n → Waits k n
  unfolding handle_result
  Steps-Waits k m n h here = h
  Steps-Waits k m n h (starting {n = l} run) = start-Waits k l (Steps-Waits k m l h run)
  Steps-Waits k m n h (stopping {n = l} run stopped) =
      subst (Returned k) stopped (stop-Returned k l (Steps-Waits k m l h run))
  Steps-Waits k m n h (submitting {n = l} was choice task w run) =
      submit-Waits k was choice task l w (Steps-Waits k m l h run)
  Steps-Waits k m n h (handling {n = l} run ready) = Steps-Waits k m l h run
  Steps-Waits k m n h (controlling {n = l} r run) = Steps-Waits k m l h run

  incomplete : (m n : Manager P W V C K F) → Waits 1 n → is_complete m n ≡ false
  unfolding is_complete get_task_queue_length
  incomplete m n h = ground arith

  enqueued-Waits :
      (choice : Choice) (task : Task W V C K) (m : Manager P W V C K F)
      → (enqueue choice task m).1 ≡ none
      → Waits 1 (enqueue choice task m).0
  unfolding enqueue
  enqueued-Waits sends task m e = omega (arith, length-append m.task_queue (task ∷ []))
  enqueued-Waits times_out task m e = absurd (an_error e)
  enqueued-Waits shuts task m e = absurd (an_error e)

  pub submitted-Waits :
      (was_started : Bool) (choice : Choice) (task : Task W V C K) (m : Manager P W V C K F) (w : W)
      → (submit was_started choice task m w).0.1 ≡ none
      → Waits 1 (submit was_started choice task m w).0.0
  unfolding submit
  submitted-Waits false choice task m w done = absurd (an_error done)
  submitted-Waits true choice task m w done = elim (Option-cases (Dispatch.validate task w).0) [
    | inr (e, invalid) ↦ absurd (an_error (rw (invalid, submit) at done))
    | inl valid ↦ rw (valid, submit) (enqueued-Waits choice task m (rw (valid, submit) at done))
  ]

  -- The ticks of a wait see the manager at later moments.
  abbrev pub IsLater : Manager P W V C K F → WaitRound (Manager P W V C K F) → Type 0
  IsLater m (context_done e) = Unit
  IsLater m (ticks n l) = Steps m n × Steps n l

  still-Waits :
      (m : Manager P W V C K F) (rounds : List (WaitRound (Manager P W V C K F)))
      → Waits 1 m
      → All (IsLater m) rounds
      → wait_for_completion rounds ≢ some none
  unfolding wait_for_completion
  still-Waits m [] h later e = no_answer e
  still-Waits m (context_done c ∷ rounds) h later e = other_answer e
  still-Waits m (ticks n l ∷ rounds) h later e =
      let waiting = Steps-Waits 1 n l (Steps-Waits 1 m n h later.0.0) later.0.1 in
      let open_ = incomplete n l waiting in
      still-Waits m rounds h later.1 (rw (open_, wait_for_completion) at e)

  -- Once a Submit has succeeded, WaitForCompletion never returns nil, however long it waits and whatever
  -- the package does meanwhile: no worker can take the task out of the queue.
  pub never_completes :
      (was_started : Bool) (choice : Choice) (task : Task W V C K) (m : Manager P W V C K F) (w : W)
      (rounds : List (WaitRound (Manager P W V C K F)))
      → (submit was_started choice task m w).0.1 ≡ none
      → All (IsLater (submit was_started choice task m w).0.0) rounds
      → wait_for_completion rounds ≢ some none
  never_completes was_started choice task m w rounds done later =
      still-Waits _ rounds (submitted-Waits was_started choice task m w done) later
