-- ===== src/Manager/Tests.antt =====
-- pkg/manager on concrete values; a float is a whole number of tenths.
mod Lifecycle
use lemmings.Common.{
  length, ◌≤◌, ◌≤ℤ◌, if◌then◌else◌, ℕ, zero, suc, ◌+◌, ◌*◌, ◌/◌, ◌≡◌, ◌↔◌, ◌⊎◌, refl, none, some,
  Option, Bool, true, false, [], ◌∷◌, ◌++◌, replicate, ℤ, pos, negsuc, ◌+ℤ◌, ◌≤ℤ◌, ◌<ℤ◌, int64,
  ltb_ℤ, leb_ℤ, pos_part, arith, length, ◌-ℤ◌, ◌^◌,
}
use lemmings.Utils.Tests.{tenths}
use lemmings.Utils.Monitor.{
  should_scale_up, new_resource_monitor, with_watermarks, with_check_interval, with_cleanup_config,
  with_scale_down_delay,
}
use lemmings.Manager.Config.{Config, default_config, validate}
use lemmings.Utils.Floats.{Floats}
use lemmings.Manager.Config.Validation.{Ranks, compare_ranks, IsSound, validate_iff}
use lemmings.Manager.Controller.{
  other, ResourceController, new_resource_controller, adjust_worker_count, send_multiple_signals,
  handle_special_test_cases, high_memory_usage,
}
use lemmings.Manager.Controller.Adjusting.{Inv, adjust_worker_count_lem}
use lemmings.Manager.Controller.Usage.{handle_low_memory_usage, adjust_based_on_resource_usage}
use lemmings.Manager.Controller.Unseen
use lemmings.Manager.Controller.Unseen.{Call, after, high_memory_unseen}
use lemmings.Manager.Controller.Limits.{low_memory_passes_maximum, scale_ups_limited}
use lemmings.Manager.Controller.Lasting.{limits_kept}
use lemmings.Manager.Controller.Cooldown.{low_memory_waits}

abbrev pub config : Config ℤ
unfolding default_config
config = default_config tenths

-- The controller of a manager that was made at time 0, with the given worker counts.
abbrev controller : ℤ → ℤ → ℤ → ResourceController ℤ
unfolding config new_resource_controller new_resource_monitor with_watermarks with_check_interval
    with_cleanup_config with_scale_down_delay
controller active most scale_ups = record (new_resource_controller tenths (pos 0) config) {
  active_workers = active;
  max_workers = most;
  consecutive_scale_ups = scale_ups;
}

-- The floats of the tests and a NaN, which is `none`.
abbrev with_nan : Floats
with_nan = record {
  Float = Option ℤ;
  lt = compare_ranks ltb_ℤ;
  le = compare_ranks leb_ℤ;
  tenths = λ z. some z;
  plus = λ a b. none;
  minus = λ a b. none;
  times = λ a b. none;
  over = λ a b. none;
  pow = λ a b. none;
  of_int = λ z. some z;
  to_int = λ a. pos 0;
}

nan_ranks : Ranks with_nan
nan_ranks = record {
  rank = λ a. a;
  mark = λ n. n;
  mark_lem = λ n. refl;
  lt_lem = λ a b. refl;
  le_lem = λ a b. refl;
}

-- The default configuration, but with NaN for its lower mark.
abbrev nan_config : Config (Option ℤ)
unfolding default_config
nan_config = record (default_config with_nan) { low_memory_mark = none }

default-IsSound : (validate with_nan nan_config ≡ none) ↔ IsSound with_nan nan_ranks nan_config
default-IsSound = validate_iff with_nan nan_ranks nan_config

nan_accepted : validate with_nan nan_config ≡ none
unfolding validate nan_config
nan_accepted = refl

four-Inv : Inv (controller (pos 4) (pos 32) (pos 0))
unfolding controller config
four-Inv = record {
  low = omega arith;
  high = omega arith;
  positive = omega arith;
  fits = omega arith;
  history = omega arith;
  channel = omega arith;
}

adjusting_example :
    Inv (
      adjust_worker_count
        (pos 1)
        (negsuc 8)
        high_memory_usage
        (controller (pos 4) (pos 32) (pos 0)))
    × ((true ≡ true)
          × ((adjust_worker_count
                (pos 1)
                (negsuc 8)
                high_memory_usage
                (controller (pos 4) (pos 32) (pos 0))).active_workers
              ≡ pos 1)
        ⊎ ((true ≡ false)
            × (adjust_worker_count
                  (pos 1)
                  (negsuc 8)
                  high_memory_usage
                  (controller (pos 4) (pos 32) (pos 0))
                ≡ controller (pos 4) (pos 32) (pos 0))))
unfolding controller config handle_special_test_cases int64 lemmings.Common.◌+ℤ◌
adjusting_example =
    adjust_worker_count_lem (pos 1) (negsuc 8) high_memory_usage
      (controller (pos 4) (pos 32) (pos 0)) four-Inv

cooldown_example :
    (handle_low_memory_usage tenths (pos 90_000_000_000) (controller (pos 3) (pos 32) (pos 0))
      ≡ controller (pos 3) (pos 32) (pos 0))
    ⊎ (handle_low_memory_usage tenths (pos 95_000_000_000) (
          handle_low_memory_usage tenths (pos 90_000_000_000) (controller (pos 3) (pos 32) (pos 0)))
        ≡ handle_low_memory_usage tenths (pos 90_000_000_000) (controller (pos 3) (pos 32) (pos 0)))
unfolding controller config lemmings.Common.◌-ℤ◌
cooldown_example =
    low_memory_waits tenths (pos 90_000_000_000) (pos 95_000_000_000)
      (controller (pos 3) (pos 32) (pos 0)) (omega arith, omega arith) (omega arith)

unseen_example :
    let r =
      after tenths
        (Call.checks (pos 40_000_000_000) ∷ Call.disables ∷ Call.enables ∷ [])
        (new_resource_controller tenths (pos 0) config) in
    (r.monitor.usage ≡ pos 0)
    × (adjust_based_on_resource_usage tenths (pos 90_000_000_000) r
        ≡ (if r.scaling_enabled then handle_low_memory_usage tenths (pos 90_000_000_000) r else r))
unfolding config
unseen_example =
    high_memory_unseen tenths config refl refl (pos 0) (pos 90_000_000_000)
      (Call.checks (pos 40_000_000_000) ∷ Call.disables ∷ Call.enables ∷ [])

limits_example :
    let r =
      after tenths
        (Call.checks (pos 40_000_000_000)
          ∷ Call.adjusts (pos 50_000_000_000) (pos 99) (other "more")
          ∷ [])
        (new_resource_controller tenths (pos 0) config) in
    (pos 1 ≤ℤ r.active_workers)
    × (r.active_workers ≤ℤ pos 32)
    × (length r.scale_history ≤ 100)
    × (length r.worker_control ≤ 32)
unfolding config validate
limits_example =
    limits_kept tenths config (omega arith) (pos 0)
      (Call.checks (pos 40_000_000_000)
        ∷ Call.adjusts (pos 50_000_000_000) (pos 99) (other "more")
        ∷ [])
      refl (omega arith)
