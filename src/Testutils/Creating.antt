-- ===== src/Testutils/Creating.antt =====
-- internal/testutils/mocks.go: what a MockFactory records.
use lemmings.Common.{
  ℕ, suc, ◌+◌, ◌<◌, ◌≡◌, refl, sym, ap, ◌∙◌, inl, inr, Option, Option-cases, none, some, List, [],
  ◌∷◌, ◌++◌, ℤ, pos, ◌+ℤ◌, int64, arith,
}
use mathlib.Core.List.{append_assoc, append-nil}
use lemmings.Worker.Errors.{Error}
use lemmings.Manager.Lifecycle.Accounting.{int64-suc}
use lemmings.Testutils.Mocks.{
  MockWorker, MockFactory, new_mock_factory, set_creation_error, make_worker, create_with_id,
}

-- What a test does with a factory: CreateWithID, as Create does for 0, and SetCreationError.
pub data Use : Type 0 where
  creates : ℤ → Use
  sets : Option Error → Use

abbrev pub creations : List Use → ℕ
creations [] = 0
creations (creates id ∷ us) = suc (creations us)
creations (sets e ∷ us) = creations us

-- What is not nil.
abbrev pub somes : {P : Type 0} → List (Option P) → List P
somes [] = []
somes (none ∷ l) = somes l
somes (some a ∷ l) = a ∷ somes l

somes-step :
    {P : Type 0} (a : Option P) (l : List (Option P)) → somes (a ∷ []) ++ somes l ≡ somes (a ∷ l)
somes-step none l = refl
somes-step (some a) l = refl

module _ {P U W V C K : Type 0} (as_worker : MockWorker W V C K → P) where
  -- The factory after those uses, and the workers that it has returned.
  abbrev pub after : List Use → MockFactory P U → U → (MockFactory P U × List (Option P)) × U
  after [] f w = ((f, []), w)
  after (sets e ∷ us) f w = after us (set_creation_error f e) w
  after (creates id ∷ us) f w =
      let (((made, err), f₁), w₁) = create_with_id as_worker f id w in
      let ((f₂, rest), w₂) = after us f₁ w₁ in ((f₂, made ∷ rest), w₂)

  created_one :
      (f : MockFactory P U) (id : ℤ) (w : U)
      → ((create_with_id as_worker f id w).0.1.creation_counter
          ≡ int64 (f.creation_counter +ℤ pos 1))
        × ((create_with_id as_worker f id w).0.1.created_workers
            ≡ f.created_workers ++ somes ((create_with_id as_worker f id w).0.0.0 ∷ []))
  unfolding create_with_id
  created_one f id w = elim (Option-cases f.creation_error) [
    | inr (e, bad) ↦ rw (bad, create_with_id) (refl, sym (append-nil _))
    | inl good ↦ elim (Option-cases (make_worker as_worker f id w).0.0) [
      | inr (worker, is_made) ↦ rw (good, is_made, create_with_id) (refl, refl)
      | inl nil ↦ rw (good, nil, create_with_id) (refl, sym (append-nil _))
    ]
  ]

  after-counts :
      (us : List Use) (n : ℕ) (f : MockFactory P U) (w : U)
      → n + creations us < 9223372036854775808
      → f.creation_counter ≡ pos n
      → ((after us f w).0.0.creation_counter ≡ pos (n + creations us))
        × ((after us f w).0.0.created_workers ≡ f.created_workers ++ somes (after us f w).0.1)
  unfolding set_creation_error
  after-counts [] n f w h c = (c ∙ ap pos (omega arith), sym (append-nil _))
  after-counts (sets e ∷ us) n f w h c = after-counts us n (set_creation_error f e) w h c
  after-counts (creates id ∷ us) n f w h c =
      let step = create_with_id as_worker f id w in
      let (counted, recorded) = created_one f id w in
      let next = counted ∙ ap (λ x. int64 (x +ℤ pos 1)) c ∙ int64-suc n (omega arith) in
      let (count, workers) = after-counts us (suc n) step.0.1 step.1 (omega arith) next in
      let rest = (after us step.0.1 step.1).0.1 in
      (
        count ∙ ap pos (omega arith),
        workers
            ∙ ap (λ l. l ++ somes rest) recorded
            ∙ append_assoc f.created_workers (somes (step.0.0.0 ∷ [])) (somes rest)
            ∙ ap (λ l. f.created_workers ++ l) (somes-step step.0.0.0 rest),
      )

  -- A new MockFactory that is used to create workers less than 2 ^ 63 times, and whose creation error is
  -- set and reset in between: GetCreationCount is the number of those calls, failed ones included, and
  -- GetCreatedWorkers are the workers that they returned, in order, without the nil ones.
  pub mock_factory_lem :
      (fn : Option (ℤ → U → (Option P × Option Error) × U)) (us : List Use) (w : U)
      → creations us < 9223372036854775808
      → let ((f, made), v) = after us (new_mock_factory fn) w in
        (f.creation_counter ≡ pos (creations us)) × (f.created_workers ≡ somes made)
  unfolding new_mock_factory
  mock_factory_lem fn us w h =
      let (count, workers) = after-counts us 0 (new_mock_factory fn) w (omega arith) refl in
      (count ∙ ap pos (omega arith), workers)
