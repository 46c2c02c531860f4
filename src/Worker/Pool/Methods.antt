-- ===== src/Worker/Pool/Methods.antt =====
-- pkg/worker/pool.go: NewPool, Start, Stop and Scale keep the pool's invariant, and what they do.
use lemmings.Common.{
  ◌≡◌, refl, ap, ◌∙◌, ◌⊎◌, Bool, true, false, [], ◌++◌, Bool-cases, if_elim, Option, Option-cases,
  inl, inr, none, some, Outcome, ok, err, ℤ, pos, ◌≤ℤ◌, ◌<ℤ◌, leb_ℤ, arith, length, pos_part,
  eq_of_parts, neg_part_zero,
}
use mathlib.Core.List.{Perm, append-nil}
use mathlib.Core.List.Perm
use lemmings.Worker.Pool.{
  Pool, PoolError, max_size_not_positive, already_started, add_failed, initial_pool, count,
  new_pool, stop_calls, stop_all_workers, stop, start_loop, finish_start, start,
}
use lemmings.Worker.Pool.Invariant.{
  started_ids, stopped_ids, IsConsistent, Grows, HasIds, start_loop-Grows, start_loop_counts,
}
use lemmings.Worker.Pool.Removal.{stop_all-IsConsistent}
use lemmings.Worker.Pool.Scaling.{clamp}

module _ {W : Type 0} where
  -- What holds of a pool between two method calls.
  pub record Inv (p : Pool W) : Type 0 where
    pub consistent : IsConsistent p
    pub bounded : count p ≤ℤ p.max_size
    pub positive : pos 0 <ℤ p.max_size
    pub fits : p.max_size ≤ℤ pos 9223372036854775807
    pub sized : (pos 0 ≤ℤ p.size) × (p.size ≤ℤ p.max_size)
    pub idle : p.started ≡ false → p.workers ≡ []

  -- NewPool refuses a maximum below one. Otherwise the pool is empty and not started, its initial
  -- size is clamped into the range from 0 to the maximum, its ids begin at 1, and it satisfies the
  -- invariant.
  pub new_pool_lem :
      {E : Type 0} (parent : Bool) (initial most : ℤ)
      → most ≤ℤ pos 9223372036854775807
      → ((most ≤ℤ pos 0)
          × (new_pool {E = E} {W = W} parent initial most ≡ err max_size_not_positive))
        ⊎ ((p : Pool W) × (new_pool {E = E} {W = W} parent initial most ≡ ok p)
            × Inv p
            × (p.size ≡ clamp (pos 0) most initial)
            × (p.max_size ≡ most)
            × (p.cancelled ≡ parent)
            × (p.started ≡ false)
            × (p.next_worker_id ≡ pos 0))
  unfolding new_pool
  new_pool_lem parent initial most h = elim (Bool-cases (leb_ℤ most (pos 0))) [
    | inl refused ↦ inl (ground arith, rw refused)
    | inr accepted ↦ inr (
      initial_pool parent (clamp (pos 0) most initial) most,
      rw accepted (ground arith),
      record {
        consistent = record {
          rising = omega arith;
          balanced = Perm.nil;
          nonnegative = omega arith;
        };
        bounded = ground arith;
        positive = ground arith;
        fits = h;
        sized = ground arith;
        idle = λ _. refl;
      },
      refl,
      refl,
      refl,
      refl,
      refl,
    )
  ]

  same_pool : (p : Pool W) (c : Bool) → IsConsistent p → IsConsistent (record p { cancelled = c })
  same_pool p c v = record { rising = v.rising; balanced = v.balanced; nonnegative = v.nonnegative }

  stopped-Inv :
      (p : Pool W)
      → Inv p
      → IsConsistent (stop_all_workers (record p { cancelled = true }))
      → Inv (record (stop_all_workers (record p { cancelled = true })) { started = false })
  unfolding stop_all_workers
  stopped-Inv p v c = record {
    consistent = record { rising = c.rising; balanced = c.balanced; nonnegative = c.nonnegative };
    bounded = omega (arith, v.positive);
    positive = v.positive;
    fits = v.fits;
    sized = v.sized;
    idle = λ _. refl;
  }

  stop-Inv : (p : Pool W) → Inv p → Inv (stop p)
  unfolding stop
  stop-Inv p v =
      if_elim Inv p.started
        (λ on. stopped-Inv p v (stop_all-IsConsistent _ (same_pool p true v.consistent))) (λ off. v)

  stop_empties : (p : Pool W) → Inv p → ((stop p).workers ≡ []) × ((stop p).started ≡ false)
  unfolding stop stop_all_workers
  stop_empties p v =
      if_elim (λ (q : Pool W). (q.workers ≡ []) × (q.started ≡ false)) p.started
        (λ on. (refl, refl)) (λ off. (v.idle off, off))

  -- After Stop a pool that satisfied the invariant still does, is empty and not started, and the ids
  -- of the workers that were ever started are, with their multiplicities, those that were stopped.
  pub stop_lem :
      (p : Pool W)
      → Inv p
      → Inv (stop p)
        × ((stop p).workers ≡ [])
        × ((stop p).started ≡ false)
        × Perm (started_ids (stop p).calls) (stopped_ids (stop p).calls)
  stop_lem p v =
      let w = stop-Inv p v in
      let (none_left, off) = stop_empties p v in
      let all = rw none_left at w.consistent.balanced in
      (w, none_left, off, rw (append-nil (stopped_ids (stop p).calls)) at all)

  -- A pool that was idle and has grown by its initial size.
  module _ (p q : Pool W) (v : Inv p) (off : p.started ≡ false)
      (g : Grows (pos_part p.size) p q) where
    grown_bounded : count q ≤ℤ p.max_size
    grown_bounded =
        omega (arith, ap length (v.idle off), g.at_most, v.sized, neg_part_zero p.size v.sized.0)

    running-Inv : Inv (record q { started = true })
    running-Inv = record {
      consistent = record {
        rising = g.consistent.rising;
        balanced = g.consistent.balanced;
        nonnegative = g.consistent.nonnegative;
      };
      bounded = rw g.same_max grown_bounded;
      positive = rw g.same_max v.positive;
      fits = rw g.same_max v.fits;
      sized = rw (g.same_max, g.same_size) v.sized;
      idle = λ e. cc;
    }

    emptied-Inv : Inv (stop_all_workers q)
    unfolding stop_all_workers
    emptied-Inv = record {
      consistent = stop_all-IsConsistent q g.consistent;
      bounded = rw g.same_max (omega (arith, v.positive));
      positive = rw g.same_max v.positive;
      fits = rw g.same_max v.fits;
      sized = rw (g.same_max, g.same_size) v.sized;
      idle = λ e. refl;
    }

    emptied_balanced :
        Perm (started_ids (stop_all_workers q).calls) (stopped_ids (stop_all_workers q).calls)
    unfolding stop_all_workers
    emptied_balanced =
        rw (append-nil (stopped_ids (q.calls ++ stop_calls q.workers))) at
          ((stop_all-IsConsistent q g.consistent).balanced)

module _ {W E : Type 0} (create : ℤ → Outcome E W) where
  -- What Start does, by cases.
  abbrev pub StartResult : Pool W → Pool W × Option (PoolError E) → Type 0
  StartResult p r =
      ((p.started ≡ true) × (r ≡ (p, some already_started)))
      ⊎ ((p.started ≡ false)
          × Inv r.0
          × ((r.1 ≡ none) × (r.0.started ≡ true) × (count r.0 ≡ p.size)
              ⊎ ((e : PoolError E) × (r.1 ≡ some (add_failed e))
                  × (r.0.started ≡ false)
                  × (r.0.workers ≡ [])
                  × Perm (started_ids r.0.calls) (stopped_ids r.0.calls))))

  -- Of a pool that satisfies the invariant, with int32 ids left for its size: Start refuses a started
  -- pool and changes nothing. Otherwise it keeps the invariant and either adds as many workers as
  -- the pool's size says and marks the pool started, or it reports the factory's error, and then
  -- the pool is empty, not started, and every worker that was started has been stopped.
  pub start_lem : (p : Pool W) → Inv p → HasIds (pos_part p.size) p → StartResult p (start create p)
  unfolding start
  start_lem p v ids =
      let n = pos_part p.size in
      let loop = start_loop-Grows create n p v.consistent ids in
      if_elim (StartResult p) p.started (λ on. inl (on, refl))
        λ off. elim (Option-cases (start_loop create n p).1) [
          | inl done ↦
              let all_added : count (start_loop create n p).0 ≡ p.size = eq_of_parts _ p.size (
                omega (
                  arith,
                  start_loop_counts create n p v.consistent ids done,
                  ap length (v.idle off),
                  v.sized,
                  neg_part_zero p.size v.sized.0,
                )) in
              rw (done, finish_start)
                (inr (off, running-Inv p _ v off loop, inl (refl, refl, all_added)))
          | inr (e, failed) ↦
              rw (failed, finish_start)
                (inr (
                  off,
                  emptied-Inv p _ v off loop,
                  inr (e, refl, loop.same_started ∙ off, refl, emptied_balanced p _ v off loop),
                ))
        ]
