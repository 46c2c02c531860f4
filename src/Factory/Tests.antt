-- ===== src/Factory/Tests.antt =====
-- internal/factory/factory.go on concrete values: the world counts the objects made, and an object is its
-- number.
use lemmings.Common.{
  ℕ, suc, ◌≤◌, ◌≡◌, refl, inr, Option, none, true, [], ◌∷◌, All, length, pos, arith,
}
use lemmings.Worker.Errors.{Error}
use lemmings.Factory.{Factory, Pool, new_pool, size}
use lemmings.Factory.Objects.{gets, puts, puts-gets, creations, never_exhausted}
use lemmings.Factory.Capacity.{Call, after, capacity_lem}

abbrev numbers : Factory ℕ ℕ
numbers w = ((w, none), suc w)

abbrev live : ℕ → Option Error × ℕ
live w = (none, w)

abbrev empty : Pool ℕ ℕ
empty = record { factory = numbers; objects = []; initialized = true; max_size = pos 2 }

stack_example :
    ((gets 0 live 2 (puts (5 ∷ 6 ∷ []) empty) 0).0 ≡ (6, none) ∷ (5, none) ∷ [])
    × ((gets 0 live 2 (puts (5 ∷ 6 ∷ []) empty) 0).1.0 ≡ empty)
stack_example = puts-gets 0 live empty (5 ∷ 6 ∷ []) 0 (inr (omega arith)) (λ v. refl)

unlimited_example :
    (gets 0 live 5 empty 0
      ≡ ((creations 0 live 5 numbers 0).0, (empty, (creations 0 live 5 numbers 0).1)))
    × (length (gets 0 live 5 empty 0).0 ≡ 5)
    × All (λ r. r.1 ≡ none) (gets 0 live 5 empty 0).0
unlimited_example = never_exhausted 0 live 5 empty 0 refl (omega arith) (λ v. refl) (λ v. refl)

capacity_example :
    size
      (after 0
        (Call.gets live ∷ Call.puts 7 ∷ Call.puts 8 ∷ Call.puts 9 ∷ [])
        (record { factory = numbers; objects = 0 ∷ []; initialized = true; max_size = pos 2 })
        1).0
    ≤ 2
unfolding new_pool
capacity_example =
    capacity_lem 0 numbers (pos 1) (pos 2) 0 1
      (record { factory = numbers; objects = 0 ∷ []; initialized = true; max_size = pos 2 })
      (Call.gets live ∷ Call.puts 7 ∷ Call.puts 8 ∷ Call.puts 9 ∷ []) refl (omega arith)
