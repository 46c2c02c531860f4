-- ===== src/Worker/Pool/Removal.antt =====
-- pkg/worker/pool.go: removeWorker, stopAllWorkers and scaleDown.
use lemmings.Common.{
  ℕ, zero, suc, ◌+◌, ◌-◌, ◌%◌, ◌<◌, ◌≡◌, refl, ap, ◌∙◌, min, true, List, [], ◌∷◌, ◌++◌, inl, inr,
  Bool-cases, some, ℤ, pos, ltb_ℤ, arith, length, get_elem?, get_elem?-some,
}
use mathlib.Core.List.{Perm, append_assoc, append-nil}
use mathlib.Core.List.Perm
use lemmings.Worker.Pool.Entries.{ids, delete, delete-Rising, delete-perm, length-delete}
use lemmings.Worker.Pool.{
  Pool, stops, count, stop_calls, stop_all_workers, drop_entry, remove_worker, scale_down_loop,
}
use lemmings.Worker.Pool.Invariant.{
  started_ids, stopped_ids, started_ids-append, stopped_ids-append, IsConsistent,
}

module _ {W : Type 0} where
  -- `q` is `p` with `n` workers stopped and taken out.
  pub record Shrinks (n : ℕ) (p q : Pool W) : Type 0 where
    pub consistent : IsConsistent q
    pub removed : length q.workers + n ≡ length p.workers
    pub same_max : q.max_size ≡ p.max_size
    pub same_size : q.size ≡ p.size
    pub same_started : q.started ≡ p.started
    pub same_context : q.cancelled ≡ p.cancelled

  stop_calls_started : (m : List (ℤ × W)) → started_ids (stop_calls m) ≡ []
  stop_calls_started [] = refl
  stop_calls_started (e ∷ m) = stop_calls_started m

  stop_calls_stopped : (m : List (ℤ × W)) → stopped_ids (stop_calls m) ≡ ids m
  stop_calls_stopped [] = refl
  stop_calls_stopped (e ∷ m) = ap (◌∷◌ e.0) (stop_calls_stopped m)

  -- stopAllWorkers stops each worker of the map once and empties the map.
  pub stop_all-IsConsistent : (p : Pool W) → IsConsistent p → IsConsistent (stop_all_workers p)
  unfolding stop_all_workers
  stop_all-IsConsistent p c = record {
    rising = c.nonnegative;
    balanced =
        rw
          (
            started_ids-append p.calls (stop_calls p.workers),
            stopped_ids-append p.calls (stop_calls p.workers),
            stop_calls_started p.workers,
            stop_calls_stopped p.workers,
          )
          (rw (append-nil (started_ids p.calls), append-nil (stopped_ids p.calls ++ ids p.workers))
            c.balanced);
    nonnegative = c.nonnegative;
  }

  drop_balanced :
      (p : Pool W) (i : ℕ) (id : ℤ) (w : W)
      → IsConsistent p
      → get_elem? p.workers i ≡ some (id, w)
      → Perm
          (started_ids (p.calls ++ stops id w ∷ []))
          (stopped_ids (p.calls ++ stops id w ∷ []) ++ ids (delete id p.workers))
  drop_balanced p i id w c e =
      rw
        (
          started_ids-append p.calls (stops id w ∷ []),
          stopped_ids-append p.calls (stops id w ∷ []),
          append-nil (started_ids p.calls),
          append_assoc (stopped_ids p.calls) (id ∷ []) (ids (delete id p.workers)),
        )
        (Perm.trans c.balanced
          (Perm.append_left (stopped_ids p.calls) (delete-perm p.workers i id w e)))

  drop_found :
      (p : Pool W) (i : ℕ) (id : ℤ) (w : W)
      → IsConsistent p
      → get_elem? p.workers i ≡ some (id, w)
      → Shrinks 1 p (record p { workers = delete id p.workers; calls = p.calls ++ stops id w ∷ [] })
  drop_found p i id w c e = record {
    consistent = record {
      rising = delete-Rising (pos 0) p.next_worker_id id p.workers c.rising;
      balanced = drop_balanced p i id w c e;
      nonnegative = c.nonnegative;
    };
    removed = omega (arith, length-delete p.workers i id w e);
    same_max = refl;
    same_size = refl;
    same_started = refl;
    same_context = refl;
  }

  drop_at :
      (p : Pool W) (i : ℕ)
      → IsConsistent p
      → i < length p.workers
      → Shrinks 1 p (drop_entry p (get_elem? p.workers i)).0
        × ((drop_entry p (get_elem? p.workers i)).1 ≡ true)
  unfolding drop_entry
  drop_at p i c h =
      let ((id, w), e) = get_elem?-some p.workers i h in
      rw (e, drop_entry) (drop_found p i id w c e, refl)

  -- removeWorker on a pool with a worker removes and stops exactly one.
  pub remove_worker-Shrinks :
      (pick : List (ℤ × W) → ℕ) (p : Pool W)
      → IsConsistent p
      → 0 < length p.workers
      → Shrinks 1 p (remove_worker pick p).0 × ((remove_worker pick p).1 ≡ true)
  unfolding remove_worker
  remove_worker-Shrinks pick p c h = drop_at p (pick p.workers % length p.workers) c (grind arith)

  pub Shrinks-refl : (p : Pool W) → IsConsistent p → Shrinks 0 p p
  Shrinks-refl p c = record {
    consistent = c;
    removed = omega arith;
    same_max = refl;
    same_size = refl;
    same_started = refl;
    same_context = refl;
  }

  Shrinks-trans :
      {p q r : Pool W} (m n k : ℕ) → m + n ≡ k → Shrinks m p q → Shrinks n q r → Shrinks k p r
  Shrinks-trans m n k e g h = record {
    consistent = h.consistent;
    removed = omega (arith, g.removed, h.removed);
    same_max = h.same_max ∙ g.same_max;
    same_size = h.same_size ∙ g.same_size;
    same_started = h.same_started ∙ g.same_started;
    same_context = h.same_context ∙ g.same_context;
  }

  -- The loop of scaleDown removes a worker a round until the target is met, and counts them.
  pub scale_down_loop_lem :
      (pick : List (ℤ × W) → ℕ) (n t : ℕ) (p : Pool W) (r : ℕ)
      → IsConsistent p
      → Shrinks (min n (length p.workers - t)) p (scale_down_loop pick n (pos t) p r).0
        × ((scale_down_loop pick n (pos t) p r).1 ≡ r + min n (length p.workers - t))
  unfolding scale_down_loop
  scale_down_loop_lem pick zero t p r c =
      let none_removed : min 0 (length p.workers - t) ≡ 0 = omega arith in
      rw none_removed (Shrinks-refl p c, omega arith)
  scale_down_loop_lem pick (suc n) t p r c = elim (Bool-cases (ltb_ℤ (pos t) (count p))) [
    | inr met ↦
        let none_removed : min (suc n) (length p.workers - t) ≡ 0 = ground arith in
        rw (met, none_removed) (Shrinks-refl p c, omega arith)
    | inl over ↦
        let (one, removed) = remove_worker-Shrinks pick p c (ground arith) in
        let (rest, counted) =
          scale_down_loop_lem pick n t (remove_worker pick p).0 (suc r) one.consistent in
        let above : t < length p.workers = ground arith in
        rw (over, removed, scale_down_loop)
          (
            Shrinks-trans 1 _ (min (suc n) (length p.workers - t)) (omega (arith, one.removed)) one
                rest,
            omega (arith, counted, one.removed),
          )
  ]
