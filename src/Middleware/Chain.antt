-- ===== src/Middleware/Chain.antt =====
-- pkg/middleware/middleware.go: the order in which Chain nests its middleware.
use lemmings.Common.{ℕ, zero, suc, ◌≡◌, refl, ap, ◌∙◌, List, [], ◌∷◌, length, get_or}
use lemmings.Middleware.{Handler, TaskMiddleware, chain_loop, chain}

module _ {T V C W : Type 0} where
  -- The reference: the first of the list is the outermost.
  abbrev pub nested : List (TaskMiddleware T V C W) → TaskMiddleware T V C W
  nested [] next = next
  nested (m ∷ ms) next = m (nested ms next)

  shifted_loop :
      (i : ℕ) (m : TaskMiddleware T V C W) (ms : List (TaskMiddleware T V C W))
      (next : Handler T V C W)
      → chain_loop (suc i) (m ∷ ms) next ≡ m (chain_loop i ms next)
  unfolding chain_loop
  shifted_loop zero m ms next = refl
  shifted_loop (suc i) m ms next = shifted_loop i m ms (get_or ms i (λ h. h) next)

  pub chain_cons :
      (m : TaskMiddleware T V C W) (ms : List (TaskMiddleware T V C W)) (next : Handler T V C W)
      → chain (m ∷ ms) next ≡ m (chain ms next)
  unfolding chain
  chain_cons m ms next = shifted_loop (length ms) m ms next

  -- Chain nests its middleware, the first outermost, and an empty chain is no middleware.
  pub chain-nested :
      (ms : List (TaskMiddleware T V C W)) (next : Handler T V C W) → chain ms next ≡ nested ms next
  unfolding chain chain_loop
  chain-nested [] next = refl
  chain-nested (m ∷ ms) next = chain_cons m ms next ∙ ap m (chain-nested ms next)
