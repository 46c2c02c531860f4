-- ===== src/Factory/Capacity.antt =====
-- internal/factory/factory.go: how many objects the pool keeps.
use lemmings.Common.{
  ◌-◌, ℕ, zero, suc, ◌+◌, ◌≤◌, max, ◌≡◌, refl, sym, ap, ◌∙◌, inl, inr, Option, Option-cases,
  if_elim, Bool-cases, false, List, [], ◌∷◌, ◌++◌, length, length-append, length-take, ℤ, pos,
  pos_part, ◌≤ℤ◌, ◌==◌, ltb_ℤ, arith,
}
use lemmings.Worker.Errors.{Error, wrapped}
use lemmings.Factory.{
  Factory, Pool, NewPool, made, failed, panics, fill, new_pool, has_room, get, put, size,
}

-- A call on a pool; Get with what the context answers.
pub data Call (T W : Type 0) : Type 0 where
  puts : T → Call T W
  gets : (W → Option Error × W) → Call T W

module _ {T W : Type 0} (zero_value : T) where
  -- The pool and the world after the calls.
  unfoldable pub after : List (Call T W) → Pool T W → W → Pool T W × W
  after [] p w = (p, w)
  after (puts x ∷ calls) p w = after calls (put x p) w
  after (gets poll ∷ calls) p w = let ((r, q), w₁) = get zero_value poll p w in after calls q w₁

  -- The pool has its factory's limit, and no more objects than the bound.
  record Fits (most : ℤ) (bound : ℕ) (p : Pool T W) : Type 0 where
    limit : p.max_size ≡ most
    few : size p ≤ bound

  put-Fits :
      (most : ℤ) (bound : ℕ) (x : T) (p : Pool T W)
      → pos 0 ≤ℤ most
      → pos_part most ≤ bound
      → Fits most bound p
      → Fits most bound (put x p)
  unfolding put has_room size
  put-Fits most bound x p h b fits =
      if_elim (Fits most bound) (has_room p)
        (λ on. record {
          limit = fits.limit;
          few = ground (arith, on, h, b, fits.limit, length-append p.objects (x ∷ []));
        })
        (λ off. fits)

  get-Fits :
      (most : ℤ) (bound : ℕ) (poll : W → Option Error × W) (p : Pool T W) (w : W)
      → Fits most bound p
      → Fits most bound (get zero_value poll p w).0.1
  unfolding get size
  get-Fits most bound poll p w fits = elim (Option-cases (poll w).0) [
    | inr (e, done) ↦ rw (done, get) fits
    | inl live ↦
        rw (live, get)
          (if_elim (λ (r : ((T × Option Error) × Pool T W) × W). Fits most bound r.0.1)
            (length p.objects == 0)
            (λ empty.
              if_elim (λ (r : ((T × Option Error) × Pool T W) × W). Fits most bound r.0.1) _
                (λ on. fits) (λ off. fits))
            (λ held. record {
              limit = fits.limit;
              few = omega (arith, length-take (length p.objects - 1) p.objects, fits.few);
            }))
  ]

  after-Fits :
      (most : ℤ) (bound : ℕ) (calls : List (Call T W)) (p : Pool T W) (w : W)
      → pos 0 ≤ℤ most
      → pos_part most ≤ bound
      → Fits most bound p
      → Fits most bound (after calls p w).0
  unfolding after
  after-Fits most bound [] p w h b fits = fits
  after-Fits most bound (puts x ∷ calls) p w h b fits =
      after-Fits most bound calls (put x p) w h b (put-Fits most bound x p h b fits)
  after-Fits most bound (gets poll ∷ calls) p w h b fits =
      after-Fits most bound calls _ _ h b (get-Fits most bound poll p w fits)

  pool_of : Pool T W → NewPool T W → Pool T W
  pool_of p (made q) = q
  pool_of p (failed e) = p
  pool_of p panics = p

  not_made : {e : Error} {q : Pool T W} → failed e ≡ made q → ⊥
  not_made e = cc

  panics_not_made : {q : Pool T W} → panics ≡ made q → ⊥
  panics_not_made e = cc

  fill-Fits :
      (most : ℤ) (left : ℕ) (p q : Pool T W) (w : W)
      → (fill left p w).0 ≡ made q
      → p.max_size ≡ most
      → Fits most (size p + left) q
  unfolding fill size pool_of
  fill-Fits most zero p q w e m =
      let same = ap (pool_of p) e in
      record {
        limit = ap (λ r. r.max_size) (sym same) ∙ m;
        few = omega (arith, ap (λ r. length r.objects) same);
      }
  fill-Fits most (suc left) p q w e m = elim (Option-cases (p.factory w).0.1) [
    | inr (x, broken) ↦
        let ended : (fill (suc left) p w).0
            ≡ failed (wrapped "failed to initialize pool object: " x) =
          rw (broken, fill) refl in
        absurd (not_made (sym ended ∙ e))
    | inl good ↦
        let grown = record p { objects = p.objects ++ (p.factory w).0.0 ∷ [] } in
        let step : fill (suc left) p w ≡ fill left grown (p.factory w).1 = rw (good, fill) refl in
        let ih = fill-Fits most left grown q (p.factory w).1 (ap (λ r. r.0) (sym step) ∙ e) m in
        record {
          limit = ih.limit;
          few = omega (arith, ih.few, length-append p.objects ((p.factory w).0.0 ∷ []));
        }
  ]

  -- A pool that NewPool has made with a maximum size that is not negative never keeps more objects than
  -- the larger of its initial and its maximum size, whatever is put into it and taken out.
  pub capacity_lem :
      (factory : Factory T W) (initial most : ℤ) (w v : W) (p : Pool T W) (calls : List (Call T W))
      → (new_pool factory initial most w).0 ≡ made p
      → pos 0 ≤ℤ most
      → size (after calls p v).0 ≤ max (pos_part initial) (pos_part most)
  unfolding new_pool size
  capacity_lem factory initial most w v p calls e h = elim (Bool-cases (ltb_ℤ initial (pos 0))) [
    | inl negative ↦ absurd (panics_not_made (rw negative at e))
    | inr natural ↦
        let start : Pool T W = record {
          factory = factory;
          objects = [];
          initialized = false;
          max_size = most;
        } in
        let bound = max (pos_part initial) (pos_part most) in
        let full = fill-Fits most (pos_part initial) start p w (rw natural at e) refl in
        let fits : Fits most bound p = record {
          limit = full.limit;
          few = omega (arith, full.few);
        } in
        (after-Fits most bound calls p v h (omega arith) fits).few
  ]
