-- ===== src/Worker/Tests/Queue.antt =====
-- pkg/worker/priority_queue.go on concrete values: a task is a number, its priority the tens of it, and
-- nil is 0.
use lemmings.Common.{ℕ, ◌/◌, ◌≡◌, refl, List, [], ◌∷◌, ℤ, pos, arith}
use native.Mathlib.Nat.{ℕ_set}
use lemmings.Worker.Queue.{new_priority_queue}
use lemmings.Worker.Queue.Fifo.{Op, pushes, pops, popped, fifo_lem}
use lemmings.Worker.Queue.Ties.{ties_reorder}

abbrev tens : ℕ → ℤ
tens t = pos (t / 10)

abbrev calls : List (Op ℕ)
calls =
    pushes (pos 1) 11
    ∷ pushes (pos 2) 31
    ∷ pops
    ∷ pushes (pos 3) 12
    ∷ pushes (pos 4) 13
    ∷ pops
    ∷ pops
    ∷ pops
    ∷ pops
    ∷ []

order_example : popped 0 tens calls (new_priority_queue 0) ≡ 31 ∷ 11 ∷ 12 ∷ 13 ∷ 0 ∷ []
order_example =
    fifo_lem 0 tens (pos 0) calls ℕ_set
      (omega arith, (omega arith, (omega arith, (omega arith, tt))))

ties_example :
    popped 0 tens
      (pushes (pos 5) 11 ∷ pushes (pos 5) 12 ∷ pushes (pos 5) 13 ∷ pops ∷ pops ∷ pops ∷ [])
      (new_priority_queue 0)
    ≡ 11 ∷ 13 ∷ 12 ∷ []
ties_example = ties_reorder 0 tens (pos 5) 11 12 13 refl refl
