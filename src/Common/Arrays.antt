-- ===== src/Common/Arrays.antt =====
-- Lists as Go slices: reads with a default, and the exchange of two entries.
use Prim.Native.Nat.{ℕ, zero, suc, ◌<◌, min}
use mathlib.Core.Path.{◌≡◌, refl, ap, ◌∙◌}
use mathlib.Core.Logic.{∥∥₁_elim}
use mathlib.Core.List.{List, [], ◌∷◌, ◌++◌, Perm, Permᴰ}
use mathlib.Core.List.Perm
use native.Mathlib.Nat.{ℕ_set}
use native.Mathlib.Omega.{arith}
use lemmings.Common.Tests.{◌==◌, if◌then◌else◌}
use lemmings.Common.Lists.{length, get_or, set, take, length-set}

module _ {ℓ} {A : Type ℓ} where
  -- The entries at `i` and `j` exchanged; `d` is read outside the slice.
  unfoldable pub exchange : A → ℕ → ℕ → List A → List A
  exchange d i j xs = set (set xs i (get_or xs j d)) j (get_or xs i d)

  equal_lengths : {xs ys : List A} → Permᴰ xs ys → length xs ≡ length ys
  equal_lengths Permᴰ.nil = refl
  equal_lengths (Permᴰ.cons _ q) = ap suc (equal_lengths q)
  equal_lengths (Permᴰ.swap _ _) = refl
  equal_lengths (Permᴰ.trans q r) = equal_lengths q ∙ equal_lengths r

  pub length-Perm : (xs ys : List A) → Perm xs ys → length xs ≡ length ys
  length-Perm xs ys p = ∥∥₁_elim p (ℕ_set _ _) equal_lengths

  pub get_or-append :
      (d : A) (xs ys : List A) (i : ℕ) → i < length xs → get_or (xs ++ ys) i d ≡ get_or xs i d
  get_or-append d [] ys i h = absurd (omega arith)
  get_or-append d (x ∷ xs) ys zero h = refl
  get_or-append d (x ∷ xs) ys (suc i) h = get_or-append d xs ys i (omega arith)

  pub get_or-last : (d : A) (xs : List A) (x : A) → get_or (xs ++ x ∷ []) (length xs) d ≡ x
  get_or-last d [] x = refl
  get_or-last d (y ∷ xs) x = get_or-last d xs x

  pub take-append : (xs ys : List A) → take (length xs) (xs ++ ys) ≡ xs
  take-append [] ys = refl
  take-append (x ∷ xs) ys = ap (◌∷◌ x) (take-append xs ys)

  pub length-take : (n : ℕ) (xs : List A) → length (take n xs) ≡ min n (length xs)
  length-take zero xs = omega arith
  length-take (suc n) [] = omega arith
  length-take (suc n) (x ∷ xs) = omega (arith, length-take n xs)

  pub get_or-take :
      (d : A) (n : ℕ) (xs : List A) (i : ℕ) → i < n → get_or (take n xs) i d ≡ get_or xs i d
  get_or-take d zero xs i h = absurd (omega arith)
  get_or-take d (suc n) [] i h = refl
  get_or-take d (suc n) (x ∷ xs) zero h = refl
  get_or-take d (suc n) (x ∷ xs) (suc i) h = get_or-take d n xs i (omega arith)

  -- A slice is all but its last entry, and that.
  pub take-get_or :
      (d : A) (n : ℕ) (xs : List A) → length xs ≡ suc n → take n xs ++ get_or xs n d ∷ [] ≡ xs
  take-get_or d n [] h = absurd (omega arith)
  take-get_or d zero (x ∷ []) h = refl
  take-get_or d zero (x ∷ y ∷ xs) h = absurd (omega arith)
  take-get_or d (suc n) (x ∷ xs) h = ap (◌∷◌ x) (take-get_or d n xs (omega arith))

  -- Reading after a write inside the slice.
  pub get_or-set :
      (d v : A) (xs : List A) (i k : ℕ)
      → i < length xs
      → get_or (set xs i v) k d ≡ (if k == i then v else get_or xs k d)
  get_or-set d v [] i k h = absurd (omega arith)
  get_or-set d v (x ∷ xs) zero zero h = refl
  get_or-set d v (x ∷ xs) zero (suc k) h = ground arith
  get_or-set d v (x ∷ xs) (suc i) zero h = ground arith
  get_or-set d v (x ∷ xs) (suc i) (suc k) h = ground (arith, get_or-set d v xs i k)

  -- The written value comes in where the old one goes out.
  set-Perm :
      (d v : A) (xs : List A) (i : ℕ) → i < length xs → Perm (v ∷ xs) (get_or xs i d ∷ set xs i v)
  set-Perm d v [] i h = absurd (omega arith)
  set-Perm d v (x ∷ xs) zero h = Perm.swap x v xs
  set-Perm d v (x ∷ xs) (suc i) h = Perm.trans (Perm.swap x v xs) (
      Perm.trans (Perm.cons x (set-Perm d v xs i (omega arith)))
        (Perm.swap (get_or xs i d) x (set xs i v)))

  pub length-exchange : (d : A) (i j : ℕ) (xs : List A) → length (exchange d i j xs) ≡ length xs
  unfolding exchange
  length-exchange d i j xs =
      length-set (set xs i (get_or xs j d)) j (get_or xs i d) ∙ length-set xs i (get_or xs j d)

  module _ (d : A) (i j : ℕ) (xs : List A) (hi : i < length xs) (hj : j < length xs) where
    written : j < length (set xs i (get_or xs j d))
    written = omega (arith, length-set xs i (get_or xs j d))

    pub get_or-exchange :
        (k : ℕ)
        → get_or (exchange d i j xs) k d
          ≡ (if k == j then get_or xs i d else if k == i then get_or xs j d else get_or xs k d)
    unfolding exchange
    get_or-exchange k = rw (
      get_or-set d (get_or xs i d) (set xs i (get_or xs j d)) j k written,
      get_or-set d (get_or xs j d) xs i k hi,
    )

    pub exchange-Perm : Perm (exchange d i j xs) xs
    unfolding exchange
    exchange-Perm =
        let once = set xs i (get_or xs j d) in
        let kept : get_or once j d ≡ get_or xs j d =
          ground (arith, get_or-set d (get_or xs j d) xs i j) in
        let first = set-Perm d (get_or xs j d) xs i hi in
        let second = rw kept at (set-Perm d (get_or xs i d) once j written) in
        Perm.symm (Perm.cons_inv (Perm.trans first second))
