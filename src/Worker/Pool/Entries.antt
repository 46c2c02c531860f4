-- ===== src/Worker/Pool/Entries.antt =====
-- pkg/worker/pool.go: the Go map from ids to workers that a Pool keeps, in order of insertion.
use lemmings.Common.{
  ℕ, zero, suc, ◌≡◌, refl, List, [], ◌∷◌, ◌++◌, some, arith, ℤ, ◌≤ℤ◌, ◌<ℤ◌, eqb_ℤ, if◌then◌else◌,
  length, get_elem?, map,
}
use mathlib.Core.List.{Perm}
use mathlib.Core.List.Perm

module _ {W : Type 0} where
  -- `m[id] = w`
  pub assign : ℤ → W → List (ℤ × W) → List (ℤ × W)
  assign id w [] = (id, w) ∷ []
  assign id w ((j, v) ∷ m) = if eqb_ℤ j id then (id, w) ∷ m else (j, v) ∷ assign id w m

  -- `delete(m, id)`
  pub delete : ℤ → List (ℤ × W) → List (ℤ × W)
  delete id [] = []
  delete id ((j, v) ∷ m) = if eqb_ℤ j id then m else (j, v) ∷ delete id m

  abbrev pub ids : List (ℤ × W) → List ℤ
  ids = map (λ e. e.0)

  -- The ids are distinct: they rise along the list, from above `lo` to at most `hi`.
  abbrev pub Rising : ℤ → ℤ → List (ℤ × W) → Type 0
  Rising lo hi [] = lo ≤ℤ hi
  Rising lo hi ((j, v) ∷ m) = (lo <ℤ j) × Rising j hi m

  pub Rising-range : (lo hi : ℤ) (m : List (ℤ × W)) → Rising lo hi m → lo ≤ℤ hi
  Rising-range lo hi [] h = h
  Rising-range lo hi ((j, v) ∷ m) h = omega (arith, Rising-range j hi m h.1)

  -- A fresh id is added at the end.
  pub assign_fresh :
      (lo hi id : ℤ) (w : W) (m : List (ℤ × W))
      → Rising lo hi m
      → hi <ℤ id
      → assign id w m ≡ m ++ (id, w) ∷ []
  unfolding assign
  assign_fresh lo hi id w [] h f = refl
  assign_fresh lo hi id w ((j, v) ∷ m) h f =
      ground (arith, Rising-range j hi m h.1, assign_fresh j hi id w m h.1 f)

  pub assign-Rising :
      (lo hi id : ℤ) (w : W) (m : List (ℤ × W))
      → Rising lo hi m
      → hi <ℤ id
      → Rising lo id (assign id w m)
  unfolding assign
  assign-Rising lo hi id w [] h f = (omega arith, omega arith)
  assign-Rising lo hi id w ((j, v) ∷ m) h f =
      ground (arith, Rising-range j hi m h.1, assign-Rising j hi id w m h.1 f)

  pub length-assign :
      (lo hi id : ℤ) (w : W) (m : List (ℤ × W))
      → Rising lo hi m
      → hi <ℤ id
      → length (assign id w m) ≡ suc (length m)
  unfolding assign
  length-assign lo hi id w [] h f = refl
  length-assign lo hi id w ((j, v) ∷ m) h f =
      ground (arith, Rising-range j hi m h.1, length-assign j hi id w m h.1 f)

  Rising-lower : (lo lo' hi : ℤ) (m : List (ℤ × W)) → lo ≤ℤ lo' → Rising lo' hi m → Rising lo hi m
  Rising-lower lo lo' hi [] h r = omega arith
  Rising-lower lo lo' hi ((j, v) ∷ m) h r = (omega arith, r.1)

  pub Rising-upper :
      (lo hi hi' : ℤ) (m : List (ℤ × W)) → hi ≤ℤ hi' → Rising lo hi m → Rising lo hi' m
  Rising-upper lo hi hi' [] h r = omega arith
  Rising-upper lo hi hi' ((j, v) ∷ m) h r = (r.0, Rising-upper j hi hi' m h r.1)

  pub delete-Rising :
      (lo hi id : ℤ) (m : List (ℤ × W)) → Rising lo hi m → Rising lo hi (delete id m)
  unfolding delete
  delete-Rising lo hi id [] h = h
  delete-Rising lo hi id ((j, v) ∷ m) h =
      ground (arith, Rising-lower lo j hi m, delete-Rising j hi id m h.1)

  pub length-delete :
      (m : List (ℤ × W)) (i : ℕ) (id : ℤ) (w : W)
      → get_elem? m i ≡ some (id, w)
      → suc (length (delete id m)) ≡ length m
  unfolding delete
  length-delete [] i id w e = absurd (ground arith)
  length-delete ((j, v) ∷ m) zero id w e = ground arith
  length-delete ((j, v) ∷ m) (suc i) id w e = ground (arith, length-delete m i id w e)

  pub delete-perm :
      (m : List (ℤ × W)) (i : ℕ) (id : ℤ) (w : W)
      → get_elem? m i ≡ some (id, w)
      → Perm (ids m) (id ∷ ids (delete id m))
  unfolding delete
  delete-perm [] i id w e = absurd (ground arith)
  delete-perm ((j, v) ∷ m) zero id w e = ground (arith, Perm.refl (id ∷ ids m))
  delete-perm ((j, v) ∷ m) (suc i) id w e = ground (
    arith,
    Perm.refl (j ∷ ids m),
    Perm.trans (Perm.cons j (delete-perm m i id w e)) (Perm.swap id j (ids (delete id m))),
  )
