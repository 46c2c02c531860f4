-- ===== src/Worker/Pool.antt =====
-- pkg/worker/pool.go: the worker pool. The factory's CreateWithID and the order in which Go ranges
-- over a map are parameters; a worker is any non-nil value, and the Start and Stop calls that the
-- pool makes on workers are listed in `calls`. The mutex makes each method one step.
pub mod Entries
pub mod Invariant
pub mod Removal
pub mod Scaling
pub mod Methods
pub mod Contexts
pub mod Resizing
pub mod Lasting
use lemmings.Common.{
  ℕ, zero, suc, ◌+◌, ◌-◌, ◌%◌, ◌≡◌, Bool, true, false, ◌||◌, List, [], ◌∷◌, ◌++◌, Option, none,
  some, map, Outcome, ok, err, ℤ, pos, ◌+ℤ◌, ◌-ℤ◌, ltb_ℤ, leb_ℤ, int64, int32, pos_part,
  if◌then◌else◌, length, get_elem?, ltb,
}
use Entries.{assign, delete}

-- A call that the pool makes on a worker: Start with a context, cancelled or not, or Stop.
pub data Call (W : Type 0) : Type 0 where
  starts : ℤ → W → Bool → Call W
  stops : ℤ → W → Call W

pub record Pool (W : Type 0) : Type 0 where
  pub cancelled : Bool
  pub workers : List (ℤ × W)
  pub size : ℤ
  pub max_size : ℤ
  pub next_worker_id : ℤ
  pub started : Bool
  pub calls : List (Call W)

pub data PoolError (E : Type 0) : Type 0 where
  max_size_not_positive already_started : PoolError E
  create_failed : ℤ → E → PoolError E
  add_failed : PoolError E → PoolError E

-- The struct literal of NewPool.
abbrev pub initial_pool : {W : Type 0} → Bool → ℤ → ℤ → Pool W
initial_pool parent_cancelled size max_size = record {
  cancelled = parent_cancelled;
  workers = [];
  size = size;
  max_size = max_size;
  next_worker_id = pos 0;
  started = false;
  calls = [];
}

-- NewPool; the first argument says whether the context it is given is cancelled.
unfoldable pub new_pool : {E W : Type 0} → Bool → ℤ → ℤ → Outcome (PoolError E) (Pool W)
new_pool parent_cancelled initial_size max_size =
    let raised = if ltb_ℤ initial_size (pos 0) then pos 0 else initial_size in
    let size = if ltb_ℤ max_size raised then max_size else raised in
    if leb_ℤ max_size (pos 0)
    then err max_size_not_positive
    else ok (initial_pool parent_cancelled size max_size)

module _ {W : Type 0} where
  abbrev pub count : Pool W → ℤ
  count p = pos (length p.workers)

  -- Size, GetActiveWorkerCount and GetMaxSize.
  unfoldable pub size : Pool W → ℤ
  size p = count p

  unfoldable pub get_active_worker_count : Pool W → ℤ
  unfolding size
  get_active_worker_count p = size p

  unfoldable pub get_max_size : Pool W → ℤ
  get_max_size p = p.max_size

  abbrev pub stop_calls : List (ℤ × W) → List (Call W)
  stop_calls = map (λ e. stops e.0 e.1)

  -- stopAllWorkers
  unfoldable pub stop_all_workers : Pool W → Pool W
  stop_all_workers p = record p { workers = []; calls = p.calls ++ stop_calls p.workers }

  -- Stop
  unfoldable pub stop : Pool W → Pool W
  unfolding stop_all_workers
  stop p =
      if p.started
      then record (stop_all_workers (record p { cancelled = true })) { started = false }
      else p

  -- calculateNewSize
  unfoldable pub calculate_new_size : Pool W → ℤ → ℤ
  calculate_new_size p delta =
      let wanted = int64 (count p +ℤ delta) in
      let raised = if ltb_ℤ wanted (pos 1) then pos 1 else wanted in
      if ltb_ℤ p.max_size raised then p.max_size else raised

  drop_entry : Pool W → Option (ℤ × W) → Pool W × Bool
  drop_entry p none = (p, false)
  drop_entry p (some (id, w)) =
      (record p { workers = delete id p.workers; calls = p.calls ++ stops id w ∷ [] }, true)

  -- removeWorker; `pick` stands for the entry at which Go's range over the map begins.
  unfoldable pub remove_worker : (List (ℤ × W) → ℕ) → Pool W → Pool W × Bool
  unfolding drop_entry
  remove_worker pick p = drop_entry p (get_elem? p.workers (pick p.workers % length p.workers))

  -- The loop of scaleDown: rounds left, target, pool, workers removed so far.
  unfoldable pub scale_down_loop : (List (ℤ × W) → ℕ) → ℕ → ℤ → Pool W → ℕ → Pool W × ℕ
  scale_down_loop pick zero target p removed = (p, removed)
  scale_down_loop pick (suc n) target p removed =
      if ltb_ℤ target (count p)
      then elim (remove_worker pick p).1 [
        | true ↦ scale_down_loop pick n target (remove_worker pick p).0 (suc removed)
        | false ↦ ((remove_worker pick p).0, removed)
      ]
      else (p, removed)

  -- scaleDown
  unfoldable pub scale_down : (List (ℤ × W) → ℕ) → ℤ → Pool W → Pool W × ℕ
  scale_down pick target p =
      let to_remove = int64 (count p -ℤ target) in
      if leb_ℤ to_remove (pos 0)
      then (p, 0)
      else scale_down_loop pick (pos_part to_remove) target p 0

module _ {W E : Type 0} (create : ℤ → Outcome E W) where
  -- addWorker; the error is nil if the worker was added.
  unfoldable pub add_worker : Pool W → Pool W × Option (PoolError E)
  add_worker p =
      let id = int32 (p.next_worker_id +ℤ pos 1) in
      elim (create id) [
        | err e ↦ (record p { next_worker_id = id }, some (create_failed id e))
        | ok w ↦ (
          record p {
            next_worker_id = id;
            workers = assign id w p.workers;
            calls = p.calls ++ starts id w p.cancelled ∷ [];
          },
          none,
        )
      ]

  -- The loop of Start, with the number of workers still to add.
  unfoldable pub start_loop : ℕ → Pool W → Pool W × Option (PoolError E)
  start_loop zero p = (p, none)
  start_loop (suc n) p = elim (add_worker p).1 [
    | none ↦ start_loop n (add_worker p).0
    | some e ↦ ((add_worker p).0, some e)
  ]

  finish_start : Pool W × Option (PoolError E) → Pool W × Option (PoolError E)
  unfolding stop_all_workers
  finish_start (p, none) = (record p { started = true }, none)
  finish_start (p, some e) = (stop_all_workers p, some (add_failed e))

  -- Start
  unfoldable pub start : Pool W → Pool W × Option (PoolError E)
  unfolding finish_start
  start p =
      if p.started then (p, some already_started) else finish_start (start_loop (pos_part p.size) p)

  -- The loop of scaleUp: rounds left, target, pool, workers added so far.
  unfoldable pub scale_up_loop : ℕ → ℤ → Pool W → ℕ → Pool W × ℕ
  scale_up_loop zero target p added = (p, added)
  scale_up_loop (suc n) target p added =
      if ltb_ℤ (count p) target
      then elim (add_worker p).1 [
        | none ↦ scale_up_loop n target (add_worker p).0 (suc added)
        | some e ↦ ((add_worker p).0, added)
      ]
      else (p, added)

  -- scaleUp
  unfoldable pub scale_up : ℤ → Pool W → Pool W × ℕ
  scale_up target p =
      let to_add = int64 (target -ℤ count p) in
      if leb_ℤ to_add (pos 0) then (p, 0) else scale_up_loop (pos_part to_add) target p 0

  -- Scale: the pool, the number of workers added and the number removed.
  unfoldable pub scale : (List (ℤ × W) → ℕ) → Pool W → ℤ → Pool W × ℕ × ℕ
  scale pick p delta =
      let target = calculate_new_size p delta in
      let up = scale_up target p in
      let down = scale_down pick target p in
      if p.started
      then (if ltb_ℤ (pos 0) delta
          then (up.0, up.1, 0)
          else (if ltb_ℤ delta (pos 0) then (down.0, 0, down.1) else (p, 0, 0)))
      else (p, 0, 0)
