-- ===== src/Factory.antt =====
-- internal/factory/factory.go. `T` are the objects and `zero_value` is the zero value of their type; what
-- a factory and a context do depends on the world `W`. The mutex makes a method one step.
pub mod Objects
pub mod Capacity
pub mod Tests
use lemmings.Common.{
  ℕ, zero, suc, ◌-◌, Option, none, some, Bool, true, false, not, ◌&&◌, ◌||◌, List, [], ◌∷◌, ◌++◌,
  length, get_or, take, ◌==◌, ℤ, pos, negsuc, pos_part, ltb_ℤ, ◌==◌, if◌then◌else◌,
}
use lemmings.Worker.Errors.{Error, other, wrapped}

-- Factory, and FactoryFunc, whose Create is the function itself
abbrev pub Factory : Type 0 → Type 0 → Type 0
Factory T W = W → (T × Option Error) × W

-- WorkerFactoryFunc, with nil as `none`
pub record WorkerFactoryFunc (T W : Type 0) : Type 0 where
  pub create_fn : Option (ℤ → Factory T W)

module _ {T W : Type 0} (zero_value : T) where
  -- CreateWithID and Create
  unfoldable pub create_with_id : WorkerFactoryFunc T W → ℤ → Factory T W
  create_with_id f id w = elim f.create_fn [
    | none ↦ ((zero_value, some (other "worker factory function is nil")), w)
    | some fn ↦ fn id w
  ]

  unfoldable pub create : WorkerFactoryFunc T W → Factory T W
  unfolding create_with_id
  create f = create_with_id f (pos 0)

-- NewWorkerFactory
unfoldable pub new_worker_factory :
    {T W : Type 0} → Option (ℤ → Factory T W) → WorkerFactoryFunc T W
new_worker_factory fn = record { create_fn = fn }

pub record Pool (T W : Type 0) : Type 0 where
  pub factory : Factory T W
  pub objects : List T
  pub initialized : Bool
  pub max_size : ℤ

-- How NewPool ends; `panics` is make's, for a negative capacity.
pub data NewPool (T W : Type 0) : Type 0 where
  made : Pool T W → NewPool T W
  failed : Error → NewPool T W
  panics : NewPool T W

module _ {T W : Type 0} where
  -- The loop of NewPool, with the objects that are still to be made, and what follows it.
  unfoldable pub fill : ℕ → Pool T W → W → NewPool T W × W
  fill zero p w = (made (record p { initialized = true }), w)
  fill (suc left) p w =
      let ((object, err), w₁) = p.factory w in
      elim err [
        | some e ↦ (failed (wrapped "failed to initialize pool object: " e), w₁)
        | none ↦ fill left (record p { objects = p.objects ++ object ∷ [] }) w₁
      ]

  -- NewPool
  unfoldable pub new_pool : Factory T W → ℤ → ℤ → W → NewPool T W × W
  unfolding fill
  new_pool factory initial_size max_size w =
      if ltb_ℤ initial_size (pos 0)
      then (panics, w)
      else fill (pos_part initial_size)
          (record { factory = factory; objects = []; initialized = false; max_size = max_size }) w

  -- `p.maxSize < 0 || (p.maxSize > 0 && len(p.objects) < p.maxSize)`
  unfoldable pub has_room : Pool T W → Bool
  has_room p =
      ltb_ℤ p.max_size (pos 0)
      || (ltb_ℤ (pos 0) p.max_size && ltb_ℤ (pos (length p.objects)) p.max_size)

  -- Get, where the argument `poll` says whether the context is done
  unfoldable pub get :
      T → (W → Option Error × W) → Pool T W → W → ((T × Option Error) × Pool T W) × W
  unfolding has_room
  get zero_value poll p w =
      let (done, w₁) = poll w in
      let n = length p.objects in
      let ((object, err), w₂) = p.factory w₁ in
      elim done [
        | some e ↦ (((zero_value, some e), p), w₁)
        | none ↦
            if n == 0
            then if not p.initialized || has_room p
              then (((object, err), p), w₂)
              else (((zero_value, some (other "pool exhausted")), p), w₁)
            else (
              (
                (get_or p.objects (n - 1) zero_value, none),
                record p { objects = take (n - 1) p.objects },
              ),
              w₁,
            )
      ]

  -- Put
  unfoldable pub put : T → Pool T W → Pool T W
  unfolding has_room
  put object p = if has_room p then record p { objects = p.objects ++ object ∷ [] } else p

  -- Size
  unfoldable pub size : Pool T W → ℕ
  size p = length p.objects
