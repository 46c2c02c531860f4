-- ===== src/Factory/Objects.antt =====
-- internal/factory/factory.go: what the pool's Get gives out.
use lemmings.Common.{
  not, ◌||◌, subst, ℕ, zero, suc, ◌+◌, ◌-◌, ◌≡◌, refl, sym, ap, ◌∙◌, ◌⊎◌, inl, inr, Option, none,
  not, ◌||◌, true, false, List, [], ◌∷◌, ◌++◌, map, length, get_or-last, length-append, take-append,
  All, All-append, pos, ◌≤ℤ◌, ◌<ℤ◌, ◌==◌, arith,
}
use mathlib.Core.List.{reverse, reverse-cons, map-append, append-nil, append_assoc}
use lemmings.Worker.Errors.{Error}
use lemmings.Factory.{Factory, Pool, has_room, get, put}

module _ {T W : Type 0} where
  -- Put, for each of the objects.
  abbrev pub puts : List T → Pool T W → Pool T W
  puts [] p = p
  puts (x ∷ xs) p = puts xs (put x p)

  -- The pool can take that many objects more.
  abbrev pub HasRoom : Pool T W → ℕ → Type 0
  HasRoom p k = (p.max_size <ℤ pos 0) ⊎ (pos (length p.objects + k) ≤ℤ p.max_size)

  HasRoom-has_room : (p : Pool T W) (k : ℕ) → HasRoom p (suc k) → has_room p ≡ true
  unfolding has_room
  HasRoom-has_room p k (inl h) = ground arith
  HasRoom-has_room p k (inr h) = ground arith

  HasRoom-put :
      (x : T) (p : Pool T W) (k : ℕ)
      → HasRoom p (suc k)
      → HasRoom (record p { objects = p.objects ++ x ∷ [] }) k
  HasRoom-put x p k (inl h) = inl h
  HasRoom-put x p k (inr h) = inr (omega (arith, h, length-append p.objects (x ∷ [])))

  puts-objects :
      (xs : List T) (p : Pool T W)
      → HasRoom p (length xs)
      → puts xs p ≡ record p { objects = p.objects ++ xs }
  unfolding put
  puts-objects [] p h = ap (λ l. record p { objects = l }) (sym (append-nil p.objects))
  puts-objects (x ∷ xs) p h =
      let grown = record p { objects = p.objects ++ x ∷ [] } in
      let added : put x p ≡ grown = rw (HasRoom-has_room p (length xs) h) refl in
      ap (puts xs) added
      ∙ puts-objects xs grown (HasRoom-put x p (length xs) h)
      ∙ ap (λ l. record p { objects = l }) (append_assoc p.objects (x ∷ []) xs)

module _ {T W : Type 0} (zero_value : T) (poll : W → Option Error × W) where
  -- Get, so many times, and what the calls return.
  abbrev pub gets : ℕ → Pool T W → W → List (T × Option Error) × (Pool T W × W)
  gets zero p w = ([], (p, w))
  gets (suc n) p w =
      let (rs, (q, w₁)) = gets n p w in
      let ((r, q'), w₂) = get zero_value poll q w₁ in (rs ++ r ∷ [], (q', w₂))

  get_last :
      (p : Pool T W) (xs : List T) (x : T) (w : W)
      → (poll w).0 ≡ none
      → (get zero_value poll (record p { objects = xs ++ x ∷ [] }) w).0
        ≡ ((x, none), record p { objects = xs })
  unfolding get
  get_last p xs x w live =
      let size = length-append xs (x ∷ []) in
      let some_left : (length (xs ++ x ∷ []) == 0) ≡ false = ground (arith, size) in
      let before : length (xs ++ x ∷ []) - 1 ≡ length xs = omega (arith, size) in
      rw (live, some_left, before, get_or-last zero_value xs x, take-append xs (x ∷ []), get) refl

  gets_all :
      (p : Pool T W) (ys xs : List T) (w : W)
      → ((v : W) → (poll v).0 ≡ none)
      → ((gets (length xs) (record p { objects = ys ++ xs }) w).0
          ≡ map (λ x. (x, none)) (reverse xs))
        × ((gets (length xs) (record p { objects = ys ++ xs }) w).1.0 ≡ record p { objects = ys })
  gets_all p ys [] w live = (refl, ap (λ l. record p { objects = l }) (append-nil ys))
  gets_all p ys (x ∷ xs) w live =
      let start = record p { objects = ys ++ x ∷ xs } in
      let shifted : record p { objects = (ys ++ x ∷ []) ++ xs } ≡ start =
        ap (λ l. record p { objects = l }) (append_assoc ys (x ∷ []) xs) in
      let (earlier, left) =
        subst
          (λ q.
            ((gets (length xs) q w).0 ≡ map (λ x. (x, none)) (reverse xs))
            × ((gets (length xs) q w).1.0 ≡ record p { objects = ys ++ x ∷ [] }))
          shifted (gets_all p (ys ++ x ∷ []) xs w live) in
      let v = (gets (length xs) start w).1.1 in
      let got = ap (λ q. (get zero_value poll q v).0) left ∙ get_last p ys x v (live v) in
      let in_order =
        ap (map (λ x. (x, none))) (reverse-cons x xs)
        ∙ map-append (λ x. (x, none)) (reverse xs) (x ∷ []) in
      (
        ap (λ r. (gets (length xs) start w).0 ++ r.0 ∷ []) got
            ∙ ap (λ rs. rs ++ (x, none) ∷ []) earlier
            ∙ sym in_order,
        ap (λ r. r.1) got,
      )

  -- The pool is a stack: where there is room for them and the context is not done, objects that are put
  -- into it come out in the opposite order, and leave the pool as it was.
  pub puts-gets :
      (p : Pool T W) (xs : List T) (w : W)
      → HasRoom p (length xs)
      → ((v : W) → (poll v).0 ≡ none)
      → ((gets (length xs) (puts xs p) w).0 ≡ map (λ x. (x, none)) (reverse xs))
        × ((gets (length xs) (puts xs p) w).1.0 ≡ p)
  puts-gets p xs w h live = rw (puts-objects xs p h) (gets_all p p.objects xs w live)

  empty-has_room :
      (p : Pool T W)
      → pos 0 <ℤ p.max_size
      → not p.initialized || has_room (record p { objects = [] }) ≡ true
  unfolding has_room
  empty-has_room p m = ground arith

  -- The factory's answers, in that many calls of Get that each make a new object.
  abbrev pub creations : ℕ → Factory T W → W → List (T × Option Error) × W
  creations zero make w = ([], w)
  creations (suc n) make w =
      let (rs, w₁) = creations n make w in let (r, w₂) = make (poll w₁).1 in (rs ++ r ∷ [], w₂)

  created_next :
      (p : Pool T W) (w : W)
      → p.objects ≡ []
      → pos 0 <ℤ p.max_size
      → (poll w).0 ≡ none
      → get zero_value poll p w ≡ (((p.factory (poll w).1).0, p), (p.factory (poll w).1).1)
  unfolding get has_room
  created_next p w h m live =
      let empty = record p { objects = [] } in
      let same : p ≡ empty = ap (λ l. record p { objects = l }) h in
      ap (λ q. get zero_value poll q w) same
      ∙ rw (live, empty-has_room p m, get) refl
      ∙ ap (λ q. (((p.factory (poll w).1).0, q), (p.factory (poll w).1).1)) (sym same)

  -- One more call of Get.
  abbrev get_more :
      List (T × Option Error) × (Pool T W × W) → List (T × Option Error) × (Pool T W × W)
  get_more x = let ((r, q), u) = get zero_value poll x.1.0 x.1.1 in (x.0 ++ r ∷ [], (q, u))

  abbrev NoneFails : List (T × Option Error) × (Pool T W × W) → Type 0
  NoneFails x = All (λ r. r.1 ≡ none) x.0

  -- The maximum size does not limit how many objects exist: where it is positive, the factory does not
  -- fail and the context is not done, an initialized pool that has no objects left answers each of any
  -- number of calls of Get, none of which fails, with what its factory, called anew, returns, and
  -- still has no objects.
  pub never_exhausted :
      (n : ℕ) (p : Pool T W) (w : W)
      → p.objects ≡ []
      → pos 0 <ℤ p.max_size
      → ((v : W) → (p.factory v).0.1 ≡ none)
      → ((v : W) → (poll v).0 ≡ none)
      → (gets n p w ≡ ((creations n p.factory w).0, (p, (creations n p.factory w).1)))
        × (length (gets n p w).0 ≡ n)
        × All (λ r. r.1 ≡ none) (gets n p w).0
  never_exhausted zero p w h m f live = (refl, refl, tt)
  never_exhausted (suc n) p w h m f live =
      let (same, same_length, all_good) = never_exhausted n p w h m f live in
      let (rs, v) = creations n p.factory w in
      let last = (get zero_value poll (gets n p w).1.0 (gets n p w).1.1).0.0 in
      let longer : length ((gets n p w).0 ++ last ∷ []) ≡ suc n =
        omega (arith, same_length, length-append (gets n p w).0 (last ∷ [])) in
      let next =
        ap (λ (x : ((T × Option Error) × Pool T W) × W). (rs ++ x.0.0 ∷ [], (x.0.1, x.1)))
          (created_next p v h m (live v)) in
      let all = ap get_more same ∙ next in
      let good = All-append _ rs _ (subst NoneFails same all_good) (f (poll v).1, tt) in
      (all, longer, subst NoneFails (sym all) good)
