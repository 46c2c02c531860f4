-- ===== src/Worker/Pool/Invariant.antt =====
-- pkg/worker/pool.go: what holds of a Pool between two method calls, and that each method keeps it.
use lemmings.Common.{
  ℕ, zero, suc, ◌+◌, ◌≤◌, ◌≡◌, refl, ap, ◌∙◌, inl, inr, List, [], ◌∷◌, ◌++◌, none, some,
  Option-cases, Outcome, Outcome-cases, ℤ, pos, ◌+ℤ◌, ◌≤ℤ◌, ◌<ℤ◌, arith, int_laws, int32, int32_id,
  length,
}
use mathlib.Core.List.{Perm, append_assoc, append-nil, map-append}
use mathlib.Core.List.Perm
use lemmings.Worker.Pool.Entries.{
  ids, assign, Rising, Rising-upper, assign_fresh, assign-Rising, length-assign,
}
use lemmings.Worker.Pool.{Pool, PoolError, Call, starts, stops, add_worker, start_loop}

module _ {W : Type 0} where
  -- The ids of the workers that were started, and of those that were stopped.
  abbrev pub started_ids : List (Call W) → List ℤ
  started_ids [] = []
  started_ids (starts id w c ∷ cs) = id ∷ started_ids cs
  started_ids (stops id w ∷ cs) = started_ids cs

  abbrev pub stopped_ids : List (Call W) → List ℤ
  stopped_ids [] = []
  stopped_ids (starts id w c ∷ cs) = stopped_ids cs
  stopped_ids (stops id w ∷ cs) = id ∷ stopped_ids cs

  pub started_ids-append :
      (cs ds : List (Call W)) → started_ids (cs ++ ds) ≡ started_ids cs ++ started_ids ds
  started_ids-append [] ds = refl
  started_ids-append (starts id w c ∷ cs) ds = ap (◌∷◌ id) (started_ids-append cs ds)
  started_ids-append (stops id w ∷ cs) ds = started_ids-append cs ds

  pub stopped_ids-append :
      (cs ds : List (Call W)) → stopped_ids (cs ++ ds) ≡ stopped_ids cs ++ stopped_ids ds
  stopped_ids-append [] ds = refl
  stopped_ids-append (starts id w c ∷ cs) ds = stopped_ids-append cs ds
  stopped_ids-append (stops id w ∷ cs) ds = ap (◌∷◌ id) (stopped_ids-append cs ds)

  -- Ids are handed out once, and a worker is in the map exactly when it was started and not stopped.
  pub record IsConsistent (p : Pool W) : Type 0 where
    pub rising : Rising (pos 0) p.next_worker_id p.workers
    pub balanced : Perm (started_ids p.calls) (stopped_ids p.calls ++ ids p.workers)
    pub nonnegative : pos 0 ≤ℤ p.next_worker_id

  -- `q` differs from `p` by at most `n` new workers and ids.
  pub record Grows (n : ℕ) (p q : Pool W) : Type 0 where
    pub consistent : IsConsistent q
    pub next : q.next_worker_id ≤ℤ p.next_worker_id +ℤ pos n
    pub at_least : length p.workers ≤ length q.workers
    pub at_most : length q.workers ≤ length p.workers + n
    pub same_max : q.max_size ≡ p.max_size
    pub same_size : q.size ≡ p.size
    pub same_started : q.started ≡ p.started
    pub same_context : q.cancelled ≡ p.cancelled

  -- There are int32 ids left for `n` more workers.
  abbrev pub HasIds : ℕ → Pool W → Type 0
  HasIds n p = p.next_worker_id +ℤ pos n ≤ℤ pos 2147483647

  -- The id that addWorker hands out next has not wrapped.
  pub fresh_id :
      (p : Pool W)
      → IsConsistent p
      → HasIds 1 p
      → int32 (p.next_worker_id +ℤ pos 1) ≡ p.next_worker_id +ℤ pos 1
  fresh_id p c h = int32_id (p.next_worker_id +ℤ pos 1) (omega (int_laws, c.nonnegative))

  above_next :
      (p : Pool W)
      → IsConsistent p
      → HasIds 1 p
      → p.next_worker_id <ℤ int32 (p.next_worker_id +ℤ pos 1)
  above_next p c h = rw (fresh_id p c h) (omega int_laws)

  pub Grows-refl : (n : ℕ) (p : Pool W) → IsConsistent p → Grows n p p
  Grows-refl n p c = record {
    consistent = c;
    next = omega int_laws;
    at_least = omega arith;
    at_most = omega arith;
    same_max = refl;
    same_size = refl;
    same_started = refl;
    same_context = refl;
  }

  pub Grows-trans :
      {p q r : Pool W} (m n k : ℕ) → m + n ≤ k → Grows m p q → Grows n q r → Grows k p r
  Grows-trans m n k le g h = record {
    consistent = h.consistent;
    next = omega (int_laws, g.next, h.next);
    at_least = omega (arith, g.at_least, h.at_least);
    at_most = omega (arith, g.at_most, h.at_most);
    same_max = h.same_max ∙ g.same_max;
    same_size = h.same_size ∙ g.same_size;
    same_started = h.same_started ∙ g.same_started;
    same_context = h.same_context ∙ g.same_context;
  }

  -- A new id without a worker, as when the factory fails.
  skip_id :
      (p : Pool W) (id : ℤ)
      → IsConsistent p
      → id ≡ p.next_worker_id +ℤ pos 1
      → Grows 1 p (record p { next_worker_id = id })
  skip_id p id c e = record {
    consistent = record {
      rising = Rising-upper (pos 0) p.next_worker_id id p.workers (rw e (omega int_laws)) c.rising;
      balanced = c.balanced;
      nonnegative = rw e (omega (int_laws, c.nonnegative));
    };
    next = rw e (omega arith);
    at_least = omega arith;
    at_most = omega arith;
    same_max = refl;
    same_size = refl;
    same_started = refl;
    same_context = refl;
  }

  -- A worker under a fresh id.
  added_balanced :
      (p : Pool W) (id : ℤ) (w : W)
      → IsConsistent p
      → p.next_worker_id <ℤ id
      → Perm
          (started_ids (p.calls ++ starts id w p.cancelled ∷ []))
          (stopped_ids (p.calls ++ starts id w p.cancelled ∷ []) ++ ids (assign id w p.workers))
  added_balanced p id w c h =
      rw
        (
          started_ids-append p.calls (starts id w p.cancelled ∷ []),
          stopped_ids-append p.calls (starts id w p.cancelled ∷ []),
          assign_fresh (pos 0) p.next_worker_id id w p.workers c.rising h,
          map-append (λ (e : ℤ × W). e.0) p.workers ((id, w) ∷ []),
          append-nil (stopped_ids p.calls),
          ← append_assoc (stopped_ids p.calls) (ids p.workers) (id ∷ []),
        )
        (Perm.append_right (id ∷ []) c.balanced)

  add_entry :
      (p : Pool W) (id : ℤ) (w : W)
      → IsConsistent p
      → id ≡ p.next_worker_id +ℤ pos 1
      → Grows 1 p (record p {
        next_worker_id = id;
        workers = assign id w p.workers;
        calls = p.calls ++ starts id w p.cancelled ∷ [];
      })
  add_entry p id w c e =
      let above : p.next_worker_id <ℤ id = rw e (omega int_laws) in
      let longer = length-assign (pos 0) p.next_worker_id id w p.workers c.rising above in
      record {
        consistent = record {
          rising = assign-Rising (pos 0) p.next_worker_id id w p.workers c.rising above;
          balanced = added_balanced p id w c above;
          nonnegative = omega (arith, c.nonnegative);
        };
        next = rw e (omega arith);
        at_least = omega (arith, longer);
        at_most = omega (arith, longer);
        same_max = refl;
        same_size = refl;
        same_started = refl;
        same_context = refl;
      }

module _ {W E : Type 0} (create : ℤ → Outcome E W) where
  -- addWorker adds one worker under a new id, or reports an error and leaves the map alone.
  pub add_worker-Grows :
      (p : Pool W) → IsConsistent p → HasIds 1 p → Grows 1 p (add_worker create p).0
  unfolding add_worker
  add_worker-Grows p c h = elim (Outcome-cases (create (int32 (p.next_worker_id +ℤ pos 1)))) [
    | inr (e, failed) ↦ rw (failed, add_worker) (skip_id p _ c (fresh_id p c h))
    | inl (w, made) ↦ rw (made, add_worker) (add_entry p _ w c (fresh_id p c h))
  ]

  -- The pool as it is when addWorker reports no error has one worker more.
  pub add_worker_counts :
      (p : Pool W)
      → IsConsistent p
      → HasIds 1 p
      → (add_worker create p).1 ≡ none
      → length (add_worker create p).0.workers ≡ suc (length p.workers)
  unfolding add_worker
  add_worker_counts p c h done = elim (Outcome-cases (create (int32 (p.next_worker_id +ℤ pos 1)))) [
    | inr (e, failed) ↦ ground arith
    | inl (w, made) ↦
        rw (made, add_worker)
          (length-assign (pos 0) p.next_worker_id _ w p.workers c.rising (above_next p c h))
  ]

  -- An error of addWorker leaves the map alone.
  pub add_worker_fails :
      (p : Pool W) {e : PoolError E}
      → (add_worker create p).1 ≡ some e
      → (add_worker create p).0.workers ≡ p.workers
  unfolding add_worker
  add_worker_fails p h = ground arith

  pub start_loop-Grows :
      (n : ℕ) (p : Pool W) → IsConsistent p → HasIds n p → Grows n p (start_loop create n p).0
  unfolding start_loop
  start_loop-Grows zero p c h = Grows-refl 0 p c
  start_loop-Grows (suc n) p c h =
      let one = add_worker-Grows p c (omega int_laws) in
      elim (Option-cases (add_worker create p).1) [
        | inr (e, failed) ↦
            rw (failed, start_loop)
              (Grows-trans 1 0 (suc n) (omega arith) one (Grows-refl 0 _ one.consistent))
        | inl made ↦
            rw (made, start_loop)
              (Grows-trans 1 n (suc n) (omega arith) one (
                start_loop-Grows n (add_worker create p).0 one.consistent
                  (omega (int_laws, one.next))))
      ]

  -- If Start's loop ends without an error, it has added every worker it was to add.
  pub start_loop_counts :
      (n : ℕ) (p : Pool W)
      → IsConsistent p
      → HasIds n p
      → (start_loop create n p).1 ≡ none
      → length (start_loop create n p).0.workers ≡ length p.workers + n
  unfolding start_loop
  start_loop_counts zero p c h done = omega arith
  start_loop_counts (suc n) p c h done =
      let one = add_worker-Grows p c (omega int_laws) in
      elim (Option-cases (add_worker create p).1) [
        | inr (e, failed) ↦ ground arith
        | inl made ↦ ground (
          arith,
          add_worker_counts p c (omega int_laws) made,
          start_loop_counts n (add_worker create p).0 one.consistent (omega (int_laws, one.next)),
        )
      ]
