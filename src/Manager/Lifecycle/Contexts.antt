-- ===== src/Manager/Lifecycle/Contexts.antt =====
-- pkg/manager/manager.go: the contexts with which the workers of a manager start.
use lemmings.Common.{
  ℕ, suc, ◌∷◌, ◌≡◌, refl, subst, ◌∙◌, Bool, Bool-cases, if_elim, true, false, Option, Option-cases,
  inl, inr, List, [], Outcome, ℤ, pos, ltb_ℤ, leb_ℤ,
}
use lemmings.Utils.Floats.{Floats}
use lemmings.Worker.Task.{Task}
use lemmings.Worker.Task.Dispatch
use lemmings.Worker.Exec.{Result}
use lemmings.Worker.Pool.{Pool, PoolError, new_pool, initial_pool}
use lemmings.Worker.Pool
use lemmings.Worker.Pool.Contexts.{live_ids, Dead, start-Dead, stop-Dead}
use lemmings.Manager.Config.{Config, validate}
use lemmings.Manager.Controller.{ResourceController}
use lemmings.Manager.Lifecycle.{
  Manager, ManagerError, SubmitError, Ending, returns, fails, panics, new_manager, start, stop,
  handle_result,
}
use lemmings.Manager.Lifecycle.Submission.{
  Choice, sends, times_out, shuts, enqueue, submit, submit_loop, submit_batch, force_scale_workers,
  enable_dynamic_scaling, disable_dynamic_scaling, monitor_tick,
}

-- The pool's context is cancelled, and no worker was ever started with another.
abbrev pub IsDead : {P : Type 0} → Pool P → Type 0
IsDead p = (p.cancelled ≡ true) × (live_ids p.calls ≡ [])

Dead-IsDead : {P : Type 0} (p q : Pool P) → Dead p q → IsDead p → IsDead q
Dead-IsDead p q g h = (g.cancelled, g.same_live ∙ h.1)

module _ {P W V C K E F : Type 0} (create : ℤ → Outcome E P) where
  start-IsDead :
      (m : Manager P W V C K F) → IsDead m.worker_pool → IsDead (start create m).0.worker_pool
  unfolding start
  start-IsDead m h =
      let started = Dead-IsDead _ _ (start-Dead create m.worker_pool h.0) h in
      if_elim (λ (x : Manager P W V C K F × Option (ManagerError E)). IsDead x.0.worker_pool)
        m.started (λ on. h)
        (λ off. elim (Option-cases (Pool.start create m.worker_pool).1) [
          | inl done ↦ rw done started
          | inr (e, failed) ↦ rw failed started
        ])

  -- A call that returned a manager returned one whose pool is dead.
  abbrev Returned : {A : Type 0} → Ending A (Manager P W V C K F) → Type 0
  Returned (returns m) = IsDead m.worker_pool
  Returned (fails e) = Unit
  Returned panics = Unit

  stop-Returned : (m : Manager P W V C K F) → IsDead m.worker_pool → Returned (stop m)
  unfolding stop
  stop-Returned m h =
      if_elim Returned m.started
        (λ on.
          if_elim Returned m.shut_down (λ again. tt)
            (λ first. Dead-IsDead _ _ (stop-Dead m.worker_pool h.0) h))
        (λ off. h)

  enqueue-IsDead :
      (choice : Choice) (task : Task W V C K) (m : Manager P W V C K F)
      → IsDead m.worker_pool
      → IsDead (enqueue choice task m).0.worker_pool
  unfolding enqueue
  enqueue-IsDead sends task m h = h
  enqueue-IsDead times_out task m h = h
  enqueue-IsDead shuts task m h = h

  submit-IsDead :
      (was_started : Bool) (choice : Choice) (task : Task W V C K) (m : Manager P W V C K F) (w : W)
      → IsDead m.worker_pool
      → IsDead (submit was_started choice task m w).0.0.worker_pool
  unfolding submit
  submit-IsDead false choice task m w h = h
  submit-IsDead true choice task m w h = elim (Option-cases (Dispatch.validate task w).0) [
    | inr (e, invalid) ↦ rw (invalid, submit) h
    | inl valid ↦ rw (valid, submit) (enqueue-IsDead choice task m h)
  ]

  submit_loop-IsDead :
      (choose : ℕ → Choice) (tasks : List (Task W V C K)) (m : Manager P W V C K F) (n : ℕ) (w : W)
      → IsDead m.worker_pool
      → IsDead (submit_loop choose tasks m n w).0.0.worker_pool
  unfolding submit_loop
  submit_loop-IsDead choose [] m n w h = h
  submit_loop-IsDead choose (t ∷ ts) m n w h =
      let next = submit m.started (choose n) t m w in
      let dead = submit-IsDead m.started (choose n) t m w h in
      elim (Option-cases next.0.1) [
        | inr (e, failed) ↦ rw (failed, submit_loop) dead
        | inl done ↦
            rw (done, submit_loop) (submit_loop-IsDead choose ts next.0.0 (suc n) next.1 dead)
      ]

  submit_batch-IsDead :
      (choose : ℕ → Choice) (tasks : List (Task W V C K)) (m : Manager P W V C K F) (w : W)
      → IsDead m.worker_pool
      → IsDead (submit_batch choose tasks m w).0.0.worker_pool
  unfolding submit_batch
  submit_batch-IsDead choose tasks m w h =
      if_elim (λ (x : (Manager P W V C K F × ℕ × Option SubmitError) × W). IsDead x.0.0.worker_pool)
        m.started (λ on. submit_loop-IsDead choose tasks m 0 w h) (λ off. h)

module _ {P W V C K E : Type 0} (floats : Floats) (create : ℤ → Outcome E P) where
  open floats use {Float}

  -- What may happen to a manager: its methods in any order (but for those that change nothing), a result
  -- that its goroutine processResults handles, a tick of its goroutine monitorResources, what the
  -- monitor of the resource controller or the controller's own methods change in that, and what the
  -- workers do to the two channels.
  pub data Runs (m : Manager P W V C K Float) : Manager P W V C K Float → Type 0 where
    here : Runs m m
    starting : {n : Manager P W V C K Float} → Runs m n → Runs m (start create n).0
    stopping : {n l : Manager P W V C K Float} → Runs m n → stop n ≡ returns l → Runs m l
    submitting :
        {n : Manager P W V C K Float} (was_started : Bool) (choice : Choice) (task : Task W V C K)
        (w : W)
        → Runs m n
        → Runs m (submit was_started choice task n w).0.0
    handling :
        {n : Manager P W V C K Float} (r : Result W V C K) → Runs m n → Runs m (handle_result r n)
    forcing :
        {n : Manager P W V C K Float} (now count : ℤ)
        → Runs m n
        → Runs m (force_scale_workers now count n)
    enabling : {n : Manager P W V C K Float} → Runs m n → Runs m (enable_dynamic_scaling n)
    disabling : {n : Manager P W V C K Float} → Runs m n → Runs m (disable_dynamic_scaling n)
    batching :
        {n : Manager P W V C K Float} (choose : ℕ → Choice) (tasks : List (Task W V C K)) (w : W)
        → Runs m n
        → Runs m (submit_batch choose tasks n w).0.0
    monitoring :
        {n : Manager P W V C K Float} (now : ℤ) → Runs m n → Runs m (monitor_tick floats now n)
    controlling :
        {n : Manager P W V C K Float} (r : ResourceController Float)
        → Runs m n
        → Runs m (record n { resource_ctrl = r })
    passing :
        {n : Manager P W V C K Float} (tasks : List (Task W V C K))
        (results : List (Result W V C K))
        → Runs m n
        → Runs m (record n { task_queue = tasks; result_queue = results })

  Runs-IsDead :
      (m n : Manager P W V C K Float) → IsDead m.worker_pool → Runs m n → IsDead n.worker_pool
  unfolding handle_result force_scale_workers enable_dynamic_scaling disable_dynamic_scaling
      monitor_tick
  Runs-IsDead m n h here = h
  Runs-IsDead m n h (starting {n = l} run) = start-IsDead create l (Runs-IsDead m l h run)
  Runs-IsDead m n h (stopping {n = l} run stopped) =
      subst (Returned create) stopped (stop-Returned create l (Runs-IsDead m l h run))
  Runs-IsDead m n h (submitting {n = l} was choice task w run) =
      submit-IsDead create was choice task l w (Runs-IsDead m l h run)
  Runs-IsDead m n h (handling {n = l} r run) = Runs-IsDead m l h run
  Runs-IsDead m n h (forcing {n = l} now count run) = Runs-IsDead m l h run
  Runs-IsDead m n h (enabling {n = l} run) = Runs-IsDead m l h run
  Runs-IsDead m n h (disabling {n = l} run) = Runs-IsDead m l h run
  Runs-IsDead m n h (batching {n = l} choose tasks w run) =
      submit_batch-IsDead create choose tasks l w (Runs-IsDead m l h run)
  Runs-IsDead m n h (monitoring {n = l} now run) = Runs-IsDead m l h run
  Runs-IsDead m n h (controlling {n = l} r run) = Runs-IsDead m l h run
  Runs-IsDead m n h (passing {n = l} ts rs run) = Runs-IsDead m l h run

module _ {P E : Type 0} (floats : Floats) (create : ℤ → Outcome E P) where
  open floats use {Float}

  new-Returned :
      (W V C K : Type 0) (now : ℤ) (c : Config Float)
      → Returned {P = P} {W = W} {V = V} {C = C} {K = K} create (new_manager {E = E} floats now c)
  unfolding new_manager new_pool
  new-Returned W V C K now c = elim (Option-cases (validate floats c)) [
    | inr (e, bad) ↦ rw (bad, new_manager, Returned) tt
    | inl good ↦ elim (Bool-cases (ltb_ℤ c.max_tasks_in_queue (pos 0))) [
      | inl negative ↦ rw (good, negative, new_manager, Returned) tt
      | inr fine ↦ elim (Bool-cases (leb_ℤ c.max_workers (pos 0))) [
        | inl no_room ↦ rw (good, fine, no_room, new_manager, Returned) tt
        | inr room ↦ rw (good, fine, room, new_manager, Returned) (refl, refl)
      ]
    ]
  ]

  -- Every worker that a manager's pool ever starts gets a cancelled context: so it is after any sequence of
  -- the methods of the manager that NewManager returned, of results handled by its processResults and of
  -- ticks of its monitorResources, whatever the resource controller and the channels hold between.
  pub never_live :
      {W V C K : Type 0} (now : ℤ) (c : Config Float) (m n : Manager P W V C K Float)
      → new_manager {E = E} floats now c ≡ returns m
      → Runs floats create m n
      → (n.worker_pool.cancelled ≡ true) × (live_ids n.worker_pool.calls ≡ [])
  never_live {W} {V} {C} {K} now c m n made run =
      Runs-IsDead floats create m n (subst (Returned create) made (new-Returned W V C K now c)) run
