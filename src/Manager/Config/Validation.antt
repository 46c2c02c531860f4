-- ===== src/Manager/Config/Validation.antt =====
-- pkg/manager/config.go: what a configuration that passes Validate satisfies.
use lemmings.Common.{
  ◌≡◌, refl, ◌↔◌, Option, none, some, Bool, false, ℤ, pos, ltb_ℤ, leb_ℤ, ◌≤ℤ◌, ◌<ℤ◌, arith,
}
use lemmings.Utils.Floats.{Floats}
use lemmings.Manager.Config.{Config, validate}

-- A comparison of two floats, one of which may be NaN: that is false.
abbrev pub compare_ranks : (ℤ → ℤ → Bool) → Option ℤ → Option ℤ → Bool
compare_ranks test (some x) (some y) = test x y
compare_ranks test none o = false
compare_ranks test (some x) none = false

-- The order of the floats: a float that is not NaN has a rank by which `<` and `<=` go, and NaN, which
-- has none, compares to nothing. `mark` is the rank of a number of tenths.
pub record Ranks (floats : Floats) : Type 0 where
  pub rank : floats.Float → Option ℤ
  pub mark : ℤ → ℤ
  pub mark_lem : (n : ℤ) → rank (floats.tenths n) ≡ some (mark n)
  pub lt_lem : (a b : floats.Float) → floats.lt a b ≡ compare_ranks ltb_ℤ (rank a) (rank b)
  pub le_lem : (a b : floats.Float) → floats.le a b ≡ compare_ranks leb_ℤ (rank a) (rank b)

-- If both have a rank, the first is at most, or below, the second.
abbrev pub AtMost : Option ℤ → Option ℤ → Type 0
AtMost (some x) (some y) = x ≤ℤ y
AtMost none o = Unit
AtMost (some x) none = Unit

abbrev pub Below : Option ℤ → Option ℤ → Type 0
Below (some x) (some y) = x <ℤ y
Below none o = Unit
Below (some x) none = Unit

not_lt : (a b : Option ℤ) → (compare_ranks ltb_ℤ a b ≡ false) ↔ AtMost b a
not_lt (some x) (some y) = (λ h. ground arith, λ h. ground arith)
not_lt none none = (λ h. tt, λ h. refl)
not_lt none (some y) = (λ h. tt, λ h. refl)
not_lt (some x) none = (λ h. tt, λ h. refl)

not_le : (a b : Option ℤ) → (compare_ranks leb_ℤ a b ≡ false) ↔ Below b a
not_le (some x) (some y) = (λ h. ground arith, λ h. ground arith)
not_le none none = (λ h. tt, λ h. refl)
not_le none (some y) = (λ h. tt, λ h. refl)
not_le (some x) none = (λ h. tt, λ h. refl)

module _ (floats : Floats) where
  open floats use {Float, lt, le, tenths}

  -- No test of Validate rejects the configuration.
  pub record Passes (c : Config Float) : Type 0 where
    pub min_positive : pos 1 ≤ℤ c.min_workers
    pub min_le_initial : c.min_workers ≤ℤ c.initial_workers
    pub initial_le_max : c.initial_workers ≤ℤ c.max_workers
    pub up_low : lt c.scale_up_factor (tenths (pos 10)) ≡ false
    pub down_high : lt (tenths (pos 10)) c.scale_down_factor ≡ false
    pub down_low : le c.scale_down_factor (tenths (pos 0)) ≡ false
    pub low_low : lt c.low_memory_mark (tenths (pos 0)) ≡ false
    pub low_high : lt (tenths (pos 1000)) c.low_memory_mark ≡ false
    pub high_low : lt c.high_memory_mark (tenths (pos 0)) ≡ false
    pub high_high : lt (tenths (pos 1000)) c.high_memory_mark ≡ false
    pub marks : le c.high_memory_mark c.low_memory_mark ≡ false

  pub validate-Passes : (c : Config Float) → validate floats c ≡ none → Passes c
  unfolding validate
  validate-Passes c h = ground arith

  Passes-validate : (c : Config Float) → Passes c → validate floats c ≡ none
  unfolding validate
  Passes-validate c s = ground arith

module _ (floats : Floats) (ranks : Ranks floats) where
  open floats use {Float, lt, le, tenths}

  -- The worker counts are positive and ordered, and of the factors and marks that are not NaN, the factor
  -- to scale up is at least 1, that to scale down above 0 and at most 1, and the marks are
  -- percentages, the lower one below the higher one.
  pub record IsSound (c : Config Float) : Type 0 where
    pub min_positive : pos 1 ≤ℤ c.min_workers
    pub min_le_initial : c.min_workers ≤ℤ c.initial_workers
    pub initial_le_max : c.initial_workers ≤ℤ c.max_workers
    pub grows : AtMost (some (ranks.mark (pos 10))) (ranks.rank c.scale_up_factor)
    pub shrinks : AtMost (ranks.rank c.scale_down_factor) (some (ranks.mark (pos 10)))
    pub keeps_some : Below (some (ranks.mark (pos 0))) (ranks.rank c.scale_down_factor)
    pub low_nonnegative : AtMost (some (ranks.mark (pos 0))) (ranks.rank c.low_memory_mark)
    pub low_percent : AtMost (ranks.rank c.low_memory_mark) (some (ranks.mark (pos 1000)))
    pub high_nonnegative : AtMost (some (ranks.mark (pos 0))) (ranks.rank c.high_memory_mark)
    pub high_percent : AtMost (ranks.rank c.high_memory_mark) (some (ranks.mark (pos 1000)))
    pub marks_ordered : Below (ranks.rank c.low_memory_mark) (ranks.rank c.high_memory_mark)

  -- Each test of a float, with a number of tenths or with another float.
  lt_mark :
      (a : Float) (n : ℤ) → (lt a (tenths n) ≡ false) ↔ AtMost (some (ranks.mark n)) (ranks.rank a)
  lt_mark a n =
      let same = ranks.lt_lem a (tenths n) in
      rw (same, ranks.mark_lem n) (not_lt (ranks.rank a) (some (ranks.mark n)))

  mark_lt :
      (a : Float) (n : ℤ) → (lt (tenths n) a ≡ false) ↔ AtMost (ranks.rank a) (some (ranks.mark n))
  mark_lt a n =
      let same = ranks.lt_lem (tenths n) a in
      rw (same, ranks.mark_lem n) (not_lt (some (ranks.mark n)) (ranks.rank a))

  le_mark :
      (a : Float) (n : ℤ) → (le a (tenths n) ≡ false) ↔ Below (some (ranks.mark n)) (ranks.rank a)
  le_mark a n =
      let same = ranks.le_lem a (tenths n) in
      rw (same, ranks.mark_lem n) (not_le (ranks.rank a) (some (ranks.mark n)))

  le_float : (a b : Float) → (le a b ≡ false) ↔ Below (ranks.rank b) (ranks.rank a)
  le_float a b = rw (ranks.le_lem a b) (not_le (ranks.rank a) (ranks.rank b))

  Passes-IsSound : (c : Config Float) → Passes floats c → IsSound c
  Passes-IsSound c s = record {
    min_positive = s.min_positive;
    min_le_initial = s.min_le_initial;
    initial_le_max = s.initial_le_max;
    grows = (lt_mark c.scale_up_factor (pos 10)).0 s.up_low;
    shrinks = (mark_lt c.scale_down_factor (pos 10)).0 s.down_high;
    keeps_some = (le_mark c.scale_down_factor (pos 0)).0 s.down_low;
    low_nonnegative = (lt_mark c.low_memory_mark (pos 0)).0 s.low_low;
    low_percent = (mark_lt c.low_memory_mark (pos 1000)).0 s.low_high;
    high_nonnegative = (lt_mark c.high_memory_mark (pos 0)).0 s.high_low;
    high_percent = (mark_lt c.high_memory_mark (pos 1000)).0 s.high_high;
    marks_ordered = (le_float c.high_memory_mark c.low_memory_mark).0 s.marks;
  }

  IsSound-Passes : (c : Config Float) → IsSound c → Passes floats c
  IsSound-Passes c s = record {
    min_positive = s.min_positive;
    min_le_initial = s.min_le_initial;
    initial_le_max = s.initial_le_max;
    up_low = (lt_mark c.scale_up_factor (pos 10)).1 s.grows;
    down_high = (mark_lt c.scale_down_factor (pos 10)).1 s.shrinks;
    down_low = (le_mark c.scale_down_factor (pos 0)).1 s.keeps_some;
    low_low = (lt_mark c.low_memory_mark (pos 0)).1 s.low_nonnegative;
    low_high = (mark_lt c.low_memory_mark (pos 1000)).1 s.low_percent;
    high_low = (lt_mark c.high_memory_mark (pos 0)).1 s.high_nonnegative;
    high_high = (mark_lt c.high_memory_mark (pos 1000)).1 s.high_percent;
    marks = (le_float c.high_memory_mark c.low_memory_mark).1 s.marks_ordered;
  }

  -- Validate accepts a configuration exactly when its worker counts are positive and ordered and, of its
  -- factors and memory marks, those that are not NaN are such that the factor to scale up is at least 1,
  -- that to scale down is above 0 and at most 1, and the marks are percentages, the lower one below
  -- the higher one; so a NaN is always accepted.
  pub validate_iff : (c : Config Float) → (validate floats c ≡ none) ↔ IsSound c
  validate_iff c = (
    λ h. Passes-IsSound c (validate-Passes floats c h),
    λ s. Passes-validate floats c (IsSound-Passes c s),
  )
