-- ===== src/Middleware/Working.antt =====
-- pkg/middleware/middleware.go and pkg/worker/worker.go: a worker runs a task that WrapTask has wrapped in a
-- chain whose first middleware is RecoveryMiddleware.
use lemmings.Common.{
  ℕ, zero, suc, ◌≡◌, refl, sym, ap, subst, ◌∙◌, inl, inr, String, Option, none, some, List, ◌∷◌, ℤ,
  pos,
}
use lemmings.Worker.Errors.{Error, new_task_error, error_text}
use lemmings.Worker.Task.{Task, foreign}
use lemmings.Worker.Task.Dispatch
use lemmings.Worker.Exec.{Result, BaseWorker, backoff_duration, finish, execute_with_retries}
use lemmings.Worker.Exec
use lemmings.Worker.Exec.Ways.{retries}
use lemmings.Worker.Exec.Endings.{Fails, done, run_once}
use lemmings.Worker.Exec.Outcomes.{failing_attempt, exhausted_at}
use lemmings.Middleware.{
  Panic, Ending, returns, panics, Handler, TaskMiddleware, WrappedTask, chain, wrap_task, execute,
  recovery_middleware, recovered,
}
use lemmings.Middleware.Chain.{chain_cons}
use lemmings.Middleware.Recovery.{recovery_lem}

-- The methods of a task but Execute.
pub record Methods (T W : Type 0) : Type 0 where
  pub id : T → String
  pub kind : T → String
  pub priority : T → ℤ
  pub max_retries : T → ℤ
  pub validate : T → W → Option Error × W

module _ {V : Type 0} where
  abbrev pub IsReturned : Ending V → Type 0
  IsReturned (returns v e) = Unit
  IsReturned (panics p) = ⊥

  -- What a call returns that does not panic.
  abbrev pub answer : (r : Ending V) → IsReturned r → Option V × Option Error
  answer (returns v e) h = (v, e)
  answer (panics p) h = absurd h

  answer-returns :
      (r : Ending V) (h : IsReturned r) {v : Option V} {e : Option Error}
      → r ≡ returns v e
      → answer r h ≡ (v, e)
  answer-returns r h {v} {e} same =
      subst (λ x. (g : IsReturned x) → answer x g ≡ (v, e)) (sym same) (λ g. refl) h

module _ {T V C W : Type 0} (methods : Methods T W) (run : Handler T V C W)
    (ms : List (TaskMiddleware T V C W)) where
  -- WrapTask of the chain.
  abbrev pub guarded : T → WrappedTask T V C W
  guarded t = wrap_task t (chain (recovery_middleware methods.id ∷ ms))

  pub guarded-IsReturned : (t : T) (ctx : C) (w : W) → IsReturned (execute run (guarded t) ctx w).0
  unfolding execute wrap_task
  guarded-IsReturned t ctx w = elim (recovery_lem methods.id ms run ctx t w) [
    | inl (v, e, inner, outer) ↦ rw outer tt
    | inr (p, inner, outer) ↦ rw outer tt
  ]

  -- The wrapped task as the worker sees it: its own Execute, and the other methods of the task in it.
  abbrev pub worker_task : {K : Type 0} → T → Task W V C K
  worker_task t = foreign record {
    id = methods.id t;
    kind = methods.kind t;
    priority = methods.priority t;
    max_retries = methods.max_retries t;
    validate = methods.validate t;
    execute = λ ctx w. (
      answer (execute run (guarded t) ctx w).0 (guarded-IsReturned t ctx w),
      (execute run (guarded t) ctx w).1,
    );
  }

  -- A panic becomes the error.
  panic_answer :
      (t : T) (ctx : C) (w : W) (p : Panic)
      → (chain ms run ctx t w).0 ≡ panics p
      → execute run (guarded t) ctx w
        ≡ (returns none (some (recovered (methods.id t) p)), (chain ms run ctx t w).1)
  unfolding execute wrap_task recovery_middleware
  panic_answer t ctx w p broke =
      ap (λ h. h ctx t w) (chain_cons (recovery_middleware methods.id) ms run)
      ∙ rw (broke, recovery_middleware) refl

module _ {T V C W K : Type 0} (env : Exec.Env W V C K) (methods : Methods T W)
    (run : Handler T V C W) (ms : List (TaskMiddleware T V C W)) (ctx : C) (t : T) where
  -- What the chain makes of an attempt from the world `w`, without RecoveryMiddleware.
  abbrev pub attempt : W → Ending V × W
  attempt w = chain ms run ctx t (env.poll ctx w).1

  -- From the world `w`, the attempts from number `a` on panic `k` times, the context not being done before
  -- an attempt nor during a wait; then the world is `v`.
  pub data Panics (v : W) : ℕ → ℕ → W → Type 0 where
    at_last : {a : ℕ} {w : W} → w ≡ v → Panics v zero a w
    breaks :
        {k a : ℕ} {w : W} {p : Panic}
        → (env.poll ctx w).0 ≡ none
        → (attempt w).0 ≡ panics p
        → (env.wait ctx (backoff_duration a) (attempt w).1).0 ≡ none
        → Panics v k (suc a) (env.wait ctx (backoff_duration a) (attempt w).1).1
        → Panics v (suc k) a w

  -- What the worker gets from an attempt that panics.
  run_once-panics :
      (w : W) (p : Panic)
      → (attempt w).0 ≡ panics p
      → run_once env ctx (worker_task methods run ms {K = K} t) w
        ≡ ((none, some (recovered (methods.id t) p)), (attempt w).1)
  unfolding Dispatch.execute
  run_once-panics w p broke =
      let same = panic_answer methods run ms t ctx (env.poll ctx w).1 p broke in
      ap (λ a. (a, (execute run (guarded methods run ms t) ctx (env.poll ctx w).1).1))
        (answer-returns _ (guarded-IsReturned methods run ms t ctx (env.poll ctx w).1)
          (ap (λ r. r.0) same))
      ∙ ap (λ u. ((none, some (recovered (methods.id t) p)), u)) (ap (λ r. r.1) same)

  Panics-Fails :
      {v : W} (k a : ℕ) {w : W}
      → Panics v k a w
      → Fails env ctx (worker_task methods run ms {K = K} t) v k a w
  Panics-Fails zero a (at_last e) = done e
  Panics-Fails (suc k) a {w} (breaks {p = p} go broke waited rest) =
      failing_attempt env ctx (worker_task methods run ms t) k a w (attempt w).1 go
        (run_once-panics w p broke) waited (Panics-Fails k (suc a) rest)

  -- A worker survives a task that panics, if it was wrapped in a chain that begins with
  -- RecoveryMiddleware: where the task, or the rest of the chain, panics at every attempt, and the context
  -- is not done before any of them nor during a wait, all retries are made, and the worker ends with a
  -- TaskError about the last attempt, whose cause is the error that RecoveryMiddleware makes of the last
  -- panic.
  pub panics_reported :
      (b : BaseWorker W V C K) (r : Result W V C K) (w v : W) (k : ℕ) (p : Panic)
      → retries (worker_task methods run ms t) b ≡ pos k
      → Panics v k 0 (env.now w).1
      → (env.poll ctx v).0 ≡ none
      → (attempt v).0 ≡ panics p
      → execute_with_retries env ctx (worker_task methods run ms t) b r w
        ≡ finish env b
            (record r {
              attempt = pos (suc k);
              err = some (
                  new_task_error
                    (methods.id t)
                    (pos (suc k))
                    (error_text env.formats (recovered (methods.id t) p))
                    (some (recovered (methods.id t) p)));
              duration = (env.since (env.now w).0 (attempt v).1).0;
            })
            (env.since (env.now w).0 (attempt v).1).1
  unfolding Dispatch.id
  panics_reported b r w v k p allowed panicking go broke =
      exhausted_at env ctx (worker_task methods run ms t) b r w v (attempt v).1 k allowed
        (Panics-Fails k 0 panicking) go (run_once-panics v p broke)
