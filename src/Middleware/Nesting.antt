-- ===== src/Middleware/Nesting.antt =====
-- pkg/middleware/middleware.go: RetryMiddleware around RecoveryMiddleware.
use lemmings.Common.{
  inl, inr, ℕ, zero, suc, ◌+◌, ◌≡◌, refl, sym, ap, subst, ◌∙◌, String, Option, none, some, [], ◌∷◌,
  pos,
}
use lemmings.Utils.Floats.{Floats}
use lemmings.Worker.Errors.{Error}
use lemmings.Middleware.{
  Ending, returns, panics, Handler, Env, backoff, chain, recovery_middleware, recovered,
  retry_middleware,
}
use lemmings.Middleware.Chain.{chain-nested}
use lemmings.Middleware.Recovery.{Ending-cases}
use lemmings.Middleware.Retry.{Fails, done, again, retry_returns}

-- A call ended with an error or in a panic.
abbrev pub IsBroken : {V : Type 0} → Ending V → Type 0
IsBroken (returns r none) = ⊥
IsBroken (returns r (some e)) = Unit
IsBroken (panics p) = Unit

module _ {T V C W : Type 0} (env : Env C W) (id : T → String) (floats : Floats)
    (factor : floats.Float) (next : Handler T V C W) (ctx : C) (task : T) where
  -- From the world `w`, the attempts from number `a` on break `k` times, the context not being done
  -- after an attempt nor during a wait; then the world is `v`.
  pub data Breaks (v : W) : ℕ → ℕ → W → Type 0 where
    at_last : {a : ℕ} {w : W} → w ≡ v → Breaks v zero a w
    breaks :
        {k a : ℕ} {w u : W}
        → IsBroken (next ctx task w).0
        → env.poll ctx (next ctx task w).1 ≡ (none, u)
        → (env.wait ctx (backoff floats factor a) u).0 ≡ none
        → Breaks v k (suc a) (env.wait ctx (backoff floats factor a) u).1
        → Breaks v (suc k) a w

  same_world : (w : W) → (recovery_middleware id next ctx task w).1 ≡ (next ctx task w).1
  unfolding recovery_middleware
  same_world w = elim (Ending-cases (next ctx task w).0) [
    | inl (r, e, same) ↦ rw (same, recovery_middleware) refl
    | inr (p, same) ↦ rw (same, recovery_middleware) refl
  ]

  broken_fails :
      (w : W)
      → IsBroken (next ctx task w).0
      → (r : Option V) × (e : Error) × ((recovery_middleware id next ctx task w).0
          ≡ returns r (some e))
  unfolding recovery_middleware
  broken_fails w h = elim (Ending-cases (next ctx task w).0) [
    | inl (r, none, same) ↦ absurd (subst IsBroken same h)
    | inl (r, some e, same) ↦ (r, e, rw (same, recovery_middleware) refl)
    | inr (p, same) ↦ (none, recovered (id task) p, rw (same, recovery_middleware) refl)
  ]

  Breaks-Fails :
      {v : W} (k a : ℕ) {w : W}
      → Breaks v k a w
      → Fails env id floats factor (recovery_middleware id next) ctx task v k a w
  Breaks-Fails zero a (at_last e) = done e
  Breaks-Fails {v} (suc k) a {w} (breaks {u = u} h go waited rest) =
      let (r, e, failed) = broken_fails w h in
      let polled = ap (env.poll ctx) (same_world w) ∙ go in
      let wait = λ (q : Option Error × W). env.wait ctx (backoff floats factor a) q.1 in
      again failed (ap (λ q. q.0) polled) (ap (λ q. (wait q).0) polled ∙ waited) (
        subst
          (λ q.
            Fails env id floats factor (recovery_middleware id next) ctx task v k (suc a)
              (wait q).1)
          (sym polled) (Breaks-Fails k (suc a) rest))

  -- A chain of RetryMiddleware and then RecoveryMiddleware retries after panics as after errors: where
  -- `k` attempts return an error or panic, the next one returns without an error, at least `k` retries
  -- are allowed, and the context is not done after one of the first `k` nor during a wait, it returns
  -- what that attempt returns.
  pub panics_retried :
      (w v : W) (k l : ℕ) (r : Option V)
      → Breaks v k 0 w
      → (next ctx task v).0 ≡ returns r none
      → chain
          (retry_middleware env id floats (pos (k + l)) factor ∷ recovery_middleware id ∷ [])
          next
          ctx
          task
          w
        ≡ (returns r none, (next ctx task v).1)
  unfolding recovery_middleware
  panics_retried w v k l r b succeeded =
      let retry = retry_middleware env id floats (pos (k + l)) factor in
      let recovering = recovery_middleware id next in
      let last : recovering ctx task v ≡ (returns r none, (next ctx task v).1) =
        rw (succeeded, recovery_middleware) refl in
      ap (λ h. h ctx task w) (chain-nested (retry ∷ recovery_middleware id ∷ []) next)
      ∙ retry_returns env id floats factor recovering ctx task w v k l r (Breaks-Fails k 0 b)
          (ap (λ q. q.0) last)
      ∙ ap (λ q. (returns r none, q.1)) last
