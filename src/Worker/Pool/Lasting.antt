-- ===== src/Worker/Pool/Lasting.antt =====
-- pkg/worker/pool.go: what a Pool keeps through any calls of its methods.
use lemmings.Common.{
  err, ◌⊎◌, Option, none, some, Bool-cases, int64, ◌-ℤ◌, ℕ, zero, suc, ◌+◌, ◌*◌, ◌≤◌, ◌≡◌, refl,
  sym, ap, subst, ◌∙◌, inl, inr, Bool, true, if_elim, Option-cases, List, [], ◌∷◌, ◌++◌, length,
  Outcome, ok, ℤ, pos, ◌+ℤ◌, ◌≤ℤ◌, ltb_ℤ, leb_ℤ, pos_part, arith, int_laws, of_nonneg,
}
use mathlib.Core.List.{Perm}
use lemmings.Worker.Pool.{
  Pool, PoolError, count, calculate_new_size, stop, stop_all_workers, start_loop, finish_start,
  start, scale_up, scale_down, scale_down_loop, remove_worker, drop_entry, scale, new_pool,
}
use lemmings.Worker.Pool.Entries.{ids}
use lemmings.Worker.Pool.Invariant.{HasIds, started_ids, stopped_ids, start_loop-Grows}
use lemmings.Worker.Pool.Methods.{Inv, new_pool_lem, start_lem, stop_lem}
use lemmings.Worker.Pool.Scaling.{calculate_new_size_bounds, scale_up_lem}
use lemmings.Worker.Pool.Resizing.{scale_lem}

-- A call of one of the methods that change the pool.
pub data PoolCall : Type 0 where
  starting stopping : PoolCall
  scaling : ℤ → PoolCall

module _ {W : Type 0} where
  -- The next id has been raised by at most `n`, and the maximum is as it was.
  abbrev Within : ℕ → Pool W → Pool W → Type 0
  Within n p q = (q.next_worker_id ≤ℤ p.next_worker_id +ℤ pos n) × (q.max_size ≡ p.max_size)

  Within-refl : (n : ℕ) (p : Pool W) → Within n p p
  Within-refl n p = (omega int_laws, refl)

  stop-Within : (n : ℕ) (p : Pool W) → Within n p (stop p)
  unfolding stop stop_all_workers
  stop-Within n p =
      if_elim (Within n p) p.started (λ on. (omega int_laws, refl)) (λ off. Within-refl n p)

module _ {W : Type 0} (pick : List (ℤ × W) → ℕ) where
  dropped-Within : (n : ℕ) (p : Pool W) (e : Option (ℤ × W)) → Within n p (drop_entry p e).0
  unfolding drop_entry
  dropped-Within n p none = (omega int_laws, refl)
  dropped-Within n p (some (id, w)) = (omega int_laws, refl)

  -- Between pools whose next ids and maxima are the same.
  again-Within : (n : ℕ) (p q r : Pool W) → Within 0 p q → Within n q r → Within n p r
  again-Within n p q r g h = (omega (int_laws, g.0, h.0), h.1 ∙ g.1)

  down_loop-Within :
      (m k : ℕ) (target : ℤ) (p : Pool W) (removed : ℕ)
      → Within k p (scale_down_loop pick m target p removed).0
  unfolding scale_down_loop remove_worker
  down_loop-Within zero k target p removed = Within-refl k p
  down_loop-Within (suc m) k target p removed =
      let removal = remove_worker pick p in
      let dropped : Within 0 p removal.0 = dropped-Within 0 p _ in
      let further = down_loop-Within m k target removal.0 (suc removed) in
      if_elim (λ (r : Pool W × ℕ). Within k p r.0) (ltb_ℤ target (count p))
        (λ more. elim (Bool-cases removal.1) [
          | inl done ↦
              rw (done, scale_down_loop)
                (again-Within k p removal.0
                  (scale_down_loop pick m target removal.0 (suc removed)).0 dropped further)
          | inr nothing ↦ rw (nothing, scale_down_loop) (dropped-Within k p _)
        ])
        (λ enough. Within-refl k p)

module _ {W E : Type 0} (create : ℤ → Outcome E W) (pick : List (ℤ × W) → ℕ) where
  start-Within :
      (p : Pool W)
      → Inv p
      → HasIds (pos_part p.size) p
      → Within (pos_part p.size) p (start create p).0
  unfolding start
  start-Within p v ids_left =
      let n = pos_part p.size in
      let g = start_loop-Grows create n p v.consistent ids_left in
      if_elim (λ (r : Pool W × Option (PoolError E)). Within n p r.0) p.started
        (λ on. Within-refl n p)
        (λ off. elim (Option-cases (start_loop create n p).1) [
          | inl done ↦ rw (done, finish_start) (g.next, g.same_max)
          | inr (e, failed) ↦ rw (failed, finish_start) (g.next, g.same_max)
        ])

  scale-Within :
      (p : Pool W) (delta : ℤ)
      → Inv p
      → HasIds (pos_part p.max_size) p
      → Within (pos_part p.max_size) p (scale create pick p delta).0
  unfolding scale scale_down
  scale-Within p delta v ids_left =
      let most = pos_part p.max_size in
      let kept = λ (r : Pool W × ℕ × ℕ). Within most p r.0 in
      let target = calculate_new_size p delta in
      let bounds = calculate_new_size_bounds p delta v.positive in
      let whole = of_nonneg target (omega (arith, bounds)) in
      let t = pos_part target in
      let fits_target = subst (λ z. z ≤ℤ p.max_size) whole bounds.1 in
      if_elim kept p.started
        (λ on.
          if_elim kept (ltb_ℤ (pos 0) delta)
            (λ up.
              let g =
                (scale_up_lem create t p v.consistent (omega int_laws)
                  (omega (arith, v.bounded, v.fits)) (omega (arith, v.fits))).grows in
              subst (λ z. Within most p (scale_up create z p).0) (sym whole)
                (omega (int_laws, g.next, fits_target), g.same_max))
            (λ _.
              if_elim kept (ltb_ℤ delta (pos 0))
                (λ down.
                  if_elim (λ (r : Pool W × ℕ). Within most p r.0)
                    (leb_ℤ (int64 (count p -ℤ target)) (pos 0)) (λ few. Within-refl most p)
                    (λ many. down_loop-Within pick _ most target p 0))
                (λ same. Within-refl most p)))
        (λ off. Within-refl most p)

  -- The pool after the calls.
  abbrev pub after : List PoolCall → Pool W → Pool W
  after [] p = p
  after (starting ∷ calls) p = after calls (start create p).0
  after (stopping ∷ calls) p = after calls (stop p)
  after (scaling delta ∷ calls) p = after calls (scale create pick p delta).0

  -- As many ids as the calls can take at most.
  abbrev needed : ℕ → List PoolCall → ℕ
  needed most [] = 0
  needed most (call ∷ calls) = most + needed most calls

  needed_lem : (most : ℕ) (calls : List PoolCall) → needed most calls ≡ length calls * most
  needed_lem most [] = grind arith
  needed_lem most (call ∷ calls) = grind (arith, needed_lem most calls)

  size_fits :
      (p : Pool W) (most : ℕ)
      → p.max_size ≡ pos most
      → p.size ≤ℤ p.max_size
      → pos_part p.size ≤ most
  size_fits p most same h =
      let within : p.size ≤ℤ pos most = subst (λ m. p.size ≤ℤ m) same h in ground arith

  start-Inv : (p : Pool W) → Inv p → HasIds (pos_part p.size) p → Inv (start create p).0
  start-Inv p v ids_left = elim (start_lem create p v ids_left) [
    | inl (on, same) ↦ subst (λ (r : Pool W × Option (PoolError E)). Inv r.0) (sym same) v
    | inr (off, kept, end) ↦ kept
  ]

  after-Inv :
      (most : ℕ) (calls : List PoolCall) (p : Pool W)
      → Inv p
      → p.max_size ≡ pos most
      → p.next_worker_id +ℤ pos (needed most calls) ≤ℤ pos 2147483647
      → Inv (after calls p) × ((after calls p).max_size ≡ pos most)
  after-Inv most [] p v same enough = (v, same)
  after-Inv most (starting ∷ calls) p v same enough =
      let ids_left : HasIds (pos_part p.size) p =
        omega (arith, int_laws, enough, v.sized, size_fits p most same v.sized.1) in
      let w = start-Within p v ids_left in
      after-Inv most calls (start create p).0 (start-Inv p v ids_left) (w.1 ∙ same)
        (omega (int_laws, w.0, enough, size_fits p most same v.sized.1))
  after-Inv most (stopping ∷ calls) p v same enough =
      let w = stop-Within 0 p in
      after-Inv most calls (stop p) (stop_lem p v).0 (w.1 ∙ same) (omega (int_laws, w.0, enough))
  after-Inv most (scaling delta ∷ calls) p v same enough =
      let top : pos_part p.max_size ≡ most = ap pos_part same in
      let ids_left : HasIds (pos_part p.max_size) p = omega (int_laws, enough, top) in
      let w = scale-Within p delta v ids_left in
      after-Inv most calls (scale create pick p delta).0
        (scale_lem create pick p delta v ids_left).0 (w.1 ∙ same)
        (omega (int_laws, w.0, enough, top))

  -- What NewPool makes, where it makes a pool.
  abbrev IsNew : ℕ → Outcome (PoolError E) (Pool W) → Type 0
  IsNew most (err e) = Unit
  IsNew most (ok p) = Inv p × (p.max_size ≡ pos most) × (p.next_worker_id ≡ pos 0)

  new_pool-IsNew :
      (parent : Bool) (initial : ℤ) (most : ℕ)
      → most ≤ 9223372036854775807
      → IsNew most (new_pool parent initial (pos most))
  new_pool-IsNew parent initial most h =
      elim (new_pool_lem {W = W} {E = E} parent initial (pos most) (omega arith)) [
        | inl (refused, same) ↦ rw same tt
        | inr (p, same, v, sized, top, context, off, next) ↦ rw same (v, top, next)
      ]

  -- Of a pool that NewPool has made with a maximum that is an int, after any calls of Start, Stop and
  -- Scale, in any order, where the number of calls times the maximum is below 2 ^ 31: it runs no more
  -- workers than its maximum; it runs none unless it is started; and the ids of the workers that were ever
  -- started are, with their multiplicities, those that were stopped and those that run.
  pub calls_lem :
      (parent : Bool) (initial : ℤ) (most : ℕ) (p : Pool W) (calls : List PoolCall)
      → most ≤ 9223372036854775807
      → new_pool {E = E} parent initial (pos most) ≡ ok p
      → length calls * most ≤ 2147483647
      → let q = after calls p in
        (count q ≤ℤ pos most)
        × ((q.started ≡ true) ⊎ (q.workers ≡ []))
        × Perm (started_ids q.calls) (stopped_ids q.calls ++ ids q.workers)
  calls_lem parent initial most p calls int made enough =
      let (v, top, next) = subst (IsNew most) made (new_pool-IsNew parent initial most int) in
      let small : pos 0 +ℤ pos (needed most calls) ≤ℤ pos 2147483647 =
        omega (int_laws, enough, needed_lem most calls) in
      let ids_left = subst (λ n. n +ℤ pos (needed most calls) ≤ℤ pos 2147483647) (sym next) small in
      let (w, same) = after-Inv most calls p v top ids_left in
      let q = after calls p in
      (
        subst (λ m. count q ≤ℤ m) same w.bounded,
        elim (Bool-cases q.started) [ inl on ↦ inl on | inr off ↦ inr (w.idle off) ],
        w.consistent.balanced,
      )
