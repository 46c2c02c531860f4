-- ===== src/Worker/Tests/Pool.antt =====
-- pkg/worker/pool.go on concrete values: a factory that makes an id its worker, and a map that is
-- ranged over from its first entry.
use lemmings.Common.{
  ◌++◌, ℕ, zero, suc, ◌≡◌, ◌<◌, refl, ◌⊎◌, Option, none, some, Bool, true, false, List, [], ◌∷◌,
  Outcome, ok, err, length, ℤ, pos, negsuc, ◌≤ℤ◌, ◌<ℤ◌, arith,
}
use mathlib.Core.List.{Perm}
use mathlib.Core.List.Perm
use lemmings.Worker.Pool.{new_pool, Pool, initial_pool, starts, count, stop, start, scale}
use lemmings.Worker.Pool.Invariant.{started_ids, stopped_ids}
use lemmings.Worker.Pool.Scaling.{IsTotal}
use lemmings.Worker.Pool.Methods.{Inv, StartResult, start_lem}
use lemmings.Worker.Pool.Contexts.{live_ids, here, starting, restart_cancelled}
use lemmings.Worker.Pool.Entries.{ids}
use lemmings.Worker.Pool.Lasting.{PoolCall, starting, stopping, scaling, after, calls_lem}
use lemmings.Worker.Pool.Resizing.{Scaled, scale_lem, scale_reaches}

abbrev make : ℤ → Outcome ℕ ℤ
make id = ok id

abbrev first : List (ℤ × ℤ) → ℕ
first _ = 0

make-IsTotal : IsTotal make
make-IsTotal id = (id, refl)

abbrev new : Pool ℤ
new = initial_pool false (pos 2) (pos 4)

abbrev running : Pool ℤ
running = record {
  cancelled = false;
  workers = (pos 1, pos 1) ∷ (pos 2, pos 2) ∷ [];
  size = pos 2;
  max_size = pos 4;
  next_worker_id = pos 2;
  started = true;
  calls = starts (pos 1) (pos 1) false ∷ starts (pos 2) (pos 2) false ∷ [];
}

new-Inv : Inv new
new-Inv = record {
  consistent = record { rising = omega arith; balanced = Perm.nil; nonnegative = omega arith };
  bounded = omega arith;
  positive = omega arith;
  fits = omega arith;
  sized = (omega arith, omega arith);
  idle = λ _. refl;
}

running-Inv : Inv running
running-Inv = record {
  consistent = record {
    rising = (omega arith, (omega arith, omega arith));
    balanced = Perm.refl _;
    nonnegative = omega arith;
  };
  bounded = omega arith;
  positive = omega arith;
  fits = omega arith;
  sized = (omega arith, omega arith);
  idle = λ off. cc;
}

start_example : StartResult make new (start make new)
unfolding lemmings.Common.◌+ℤ◌
start_example = start_lem make new new-Inv (omega arith)

scale_example : Scaled make first running (scale make first running (pos 9))
unfolding lemmings.Common.◌+ℤ◌
scale_example = scale_lem make first running (pos 9) running-Inv (omega arith)

reaches_example : count (scale make first running (negsuc 0)).0 ≡ pos 1
unfolding lemmings.Common.◌+ℤ◌
reaches_example =
    scale_reaches make first running (negsuc 0) make-IsTotal running-Inv (omega arith) refl
      (omega arith) (λ e. ground arith) (omega arith, omega arith)

restart_example :
    ((start make (stop running)).0.cancelled ≡ true)
    × (live_ids (start make (stop running)).0.calls ≡ pos 1 ∷ pos 2 ∷ [])
restart_example =
    restart_cancelled make first running (start make (stop running)).0 refl (starting here)

abbrev calls : List PoolCall
calls = starting ∷ scaling (pos 1) ∷ stopping ∷ starting ∷ []

calls_example :
    let q = after make first calls new in
    (count q ≤ℤ pos 4)
    × ((q.started ≡ true) ⊎ (q.workers ≡ []))
    × Perm (started_ids q.calls) (stopped_ids q.calls ++ ids q.workers)
unfolding new_pool
calls_example = calls_lem make first false (pos 2) 4 new calls (omega arith) refl (omega arith)
