-- ===== src/Middleware/Recovery.antt =====
-- pkg/middleware/middleware.go: RecoveryMiddleware around a chain.
use lemmings.Common.{◌≡◌, refl, ap, ◌∙◌, ◌⊎◌, inl, inr, String, Option, none, some, List, ◌∷◌}
use lemmings.Worker.Errors.{Error}
use lemmings.Middleware.{
  Panic, Ending, returns, panics, Handler, TaskMiddleware, chain, recovery_middleware, recovered,
}
use lemmings.Middleware.Chain.{chain_cons}

module _ {V : Type 0} where
  pub Ending-cases :
      (r : Ending V)
      → ((v : Option V) × (e : Option Error) × (r ≡ returns v e)) ⊎ ((p : Panic) × (r ≡ panics p))
  Ending-cases (returns v e) = inl (v, e, refl)
  Ending-cases (panics p) = inr (p, refl)

module _ {T V C W : Type 0} (id : T → String) where
  -- A chain whose first middleware is RecoveryMiddleware never panics: where the others return, it
  -- returns the same, and a panic of the handler or of any of them becomes an error without a value.
  pub recovery_lem :
      (ms : List (TaskMiddleware T V C W)) (next : Handler T V C W) (ctx : C) (task : T) (w : W)
      → ((v : Option V) × (e : Option Error) × ((chain ms next ctx task w).0 ≡ returns v e)
          × (chain (recovery_middleware id ∷ ms) next ctx task w
              ≡ (returns v e, (chain ms next ctx task w).1)))
        ⊎ ((p : Panic) × ((chain ms next ctx task w).0 ≡ panics p)
            × (chain (recovery_middleware id ∷ ms) next ctx task w
                ≡ (returns none (some (recovered (id task) p)), (chain ms next ctx task w).1)))
  unfolding recovery_middleware
  recovery_lem ms next ctx task w =
      let outer = chain_cons (recovery_middleware id) ms next in
      elim (Ending-cases (chain ms next ctx task w).0) [
        | inl (v, e, same) ↦
            inl (v, e, same, ap (λ h. h ctx task w) outer ∙ rw (same, recovery_middleware) refl)
        | inr (p, same) ↦
            inr (p, same, ap (λ h. h ctx task w) outer ∙ rw (same, recovery_middleware) refl)
      ]
