-- ===== src/Utils/Random.antt =====
-- internal/utils/random.go. crypto/rand and the conversion of four bytes to an uint32 are parameters.
use lemmings.Common.{
  neg_part_zero, ℕ, ◌%◌, ◌≤◌, ◌<◌, String, false, List, ℤ, pos, pos_part, leb_ℤ, Outcome, ok, err,
  if◌then◌else◌, ◌≡◌, refl, inl, inr, Bool-cases, ◌<ℤ◌, ◌≤ℤ◌, arith,
}
use Prim.Native.String.{◌++◌}
use native.Mathlib.Nat.{mod-lt}
use lemmings.Worker.Errors.{Error, Formats, other, error_text}

-- What the code asks of crypto/rand and encoding/binary: rand.Int below a bound, rand.Read of so many
-- bytes, and binary.BigEndian.Uint32.
pub record Random (W : Type 0) : Type 0 where
  pub int : ℕ → W → Outcome Error ℕ × W
  pub read : ℕ → W → Outcome Error (List ℕ) × W
  pub uint32 : List ℕ → ℕ

-- A result of MustSecureIntn.
pub data Must : Type 0 where
  returns : ℤ → Must
  panics : String → Must

module _ {W : Type 0} (random : Random W) where
  -- SecureIntn
  unfoldable pub secure_intn : ℤ → W → Outcome Error ℤ × W
  secure_intn n w =
      let (drawn, w₁) = random.int (pos_part n) w in
      let (bytes, w₂) = random.read 4 w in
      if leb_ℤ n (pos 0)
      then (err (other "invalid input: n must be positive"), w)
      else if leb_ℤ n (pos 2147483647)
      then (elim drawn [ ok v ↦ ok (pos v) | err e ↦ err e ], w₁)
      else (elim bytes [ ok b ↦ ok (pos (random.uint32 b % pos_part n)) | err e ↦ err e ], w₂)

  -- MustSecureIntn
  unfoldable pub must_secure_intn : Formats → ℤ → W → Must × W
  unfolding secure_intn
  must_secure_intn formats n w =
      let (result, w₁) = secure_intn n w in
      (
        elim result [
          | ok v ↦ returns v
          | err e ↦ panics ("failed to generate random number: " ++ error_text formats e)
        ],
        w₁,
      )

  -- Where rand.Int answers a positive bound with a number below it, rand.Read does not fail, and four bytes make a
  -- number below 2 ^ 32: SecureIntn of a positive number returns one in the range from 0 to below it
  -- without an error, and that is below 2 ^ 32, however large the argument is.
  pub secure_intn_bounds :
      (n : ℤ) (w : W)
      → ((k : ℕ) (u : W) → 0 < k → (i : ℕ) × ((random.int k u).0 ≡ ok i) × (i < k))
      → ((k : ℕ) (u : W) → (b : List ℕ) × ((random.read k u).0 ≡ ok b))
      → ((b : List ℕ) → random.uint32 b < 4294967296)
      → pos 0 <ℤ n
      → (v : ℤ) × ((secure_intn n w).0 ≡ ok v) × (pos 0 ≤ℤ v) × (v <ℤ n) × (v <ℤ pos 4294967296)
  unfolding secure_intn
  secure_intn_bounds n w draws reads narrow h =
      let natural = neg_part_zero n (omega arith) in
      let positive : leb_ℤ n (pos 0) ≡ false = ground arith in
      elim (Bool-cases (leb_ℤ n (pos 2147483647))) [
        | inl small ↦
            let (i, drawn, below) = draws (pos_part n) w (omega arith) in
            let narrower : pos_part n ≤ 2147483647 = ground arith in
            (
              pos i,
              rw (positive, small, drawn) refl,
              omega arith,
              omega (arith, below, natural),
              omega (arith, below, narrower),
            )
        | inr large ↦
            let (b, read) = reads 4 w in
            let below = mod-lt (random.uint32 b) {m = pos_part n} (omega arith) in
            (
              pos (random.uint32 b % pos_part n),
              rw (positive, large, read) refl,
              omega arith,
              omega (arith, below, natural),
              omega (arith, narrow b),
            )
      ]
