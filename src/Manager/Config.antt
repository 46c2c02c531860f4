-- ===== src/Manager/Config.antt =====
-- pkg/manager/config.go. Durations are nanoseconds.
pub mod Options
pub mod Validation
use lemmings.Utils.Floats.{Floats}
use lemmings.Common.{
  String, Option, none, some, Bool, ◌||◌, ℤ, pos, ltb_ℤ, leb_ℤ, if◌then◌else◌, false,
}

pub record Config (F : Type 0) : Type 0 where
  pub initial_workers : ℤ
  pub max_workers : ℤ
  pub min_workers : ℤ
  pub max_tasks_in_queue : ℤ
  pub scale_up_factor : F
  pub scale_down_factor : F
  pub scale_up_delay : ℤ
  pub max_consecutive_scales : ℤ
  pub min_successful_batches : ℤ
  pub low_memory_mark : F
  pub high_memory_mark : F
  pub force_gc_threshold : F
  pub monitor_interval : ℤ
  pub min_cleanup_interval : ℤ
  pub task_timeout : ℤ
  pub target_cpu_percent : F
  pub target_memory_percent : F
  pub verbose : Bool

-- The errors of Validate, in the order in which it looks for them.
pub data ConfigError : Type 0 where
  initial_workers_not_positive max_workers_not_positive min_workers_not_positive : ConfigError
  min_above_max initial_out_of_range : ConfigError
  scale_up_factor_below_one scale_down_factor_out_of_range : ConfigError
  low_mark_out_of_range high_mark_out_of_range marks_out_of_order : ConfigError

-- `if err := first; err != nil { return err }` followed by the rest.
infixr 5 ◌or_else◌
abbrev pub ◌or_else◌ : Option ConfigError → Option ConfigError → Option ConfigError
none or_else e = e
some e or_else _ = some e

-- `if test { return error }`
abbrev pub reject : Bool → ConfigError → Option ConfigError
reject test e = if test then some e else none

module _ (floats : Floats) where
  open floats use {Float, lt, le, tenths}

  -- DefaultConfig
  unfoldable pub default_config : Config Float
  default_config = record {
    initial_workers = pos 4;
    max_workers = pos 32;
    min_workers = pos 1;
    max_tasks_in_queue = pos 1000;
    scale_up_factor = tenths (pos 15);
    scale_down_factor = tenths (pos 5);
    scale_up_delay = pos 30_000_000_000;
    max_consecutive_scales = pos 3;
    min_successful_batches = pos 2;
    low_memory_mark = tenths (pos 300);
    high_memory_mark = tenths (pos 700);
    force_gc_threshold = tenths (pos 800);
    monitor_interval = pos 5_000_000_000;
    min_cleanup_interval = pos 60_000_000_000;
    task_timeout = pos 30_000_000_000;
    target_cpu_percent = tenths (pos 700);
    target_memory_percent = tenths (pos 600);
    verbose = false;
  }

  -- validateWorkerCounts
  unfoldable pub validate_worker_counts : Config Float → Option ConfigError
  validate_worker_counts c =
      reject (leb_ℤ c.initial_workers (pos 0)) initial_workers_not_positive
      or_else reject (leb_ℤ c.max_workers (pos 0)) max_workers_not_positive
      or_else reject (leb_ℤ c.min_workers (pos 0)) min_workers_not_positive
      or_else reject (ltb_ℤ c.max_workers c.min_workers) min_above_max
      or_else reject
          (ltb_ℤ c.initial_workers c.min_workers || ltb_ℤ c.max_workers c.initial_workers)
          initial_out_of_range

  -- validateScalingFactors
  unfoldable pub validate_scaling_factors : Config Float → Option ConfigError
  validate_scaling_factors c =
      reject (lt c.scale_up_factor (tenths (pos 10))) scale_up_factor_below_one
      or_else reject
          (lt (tenths (pos 10)) c.scale_down_factor || le c.scale_down_factor (tenths (pos 0)))
          scale_down_factor_out_of_range

  -- validateMemorySettings
  unfoldable pub validate_memory_settings : Config Float → Option ConfigError
  validate_memory_settings c =
      reject (lt c.low_memory_mark (tenths (pos 0)) || lt (tenths (pos 1000)) c.low_memory_mark)
        low_mark_out_of_range
      or_else reject
          (lt c.high_memory_mark (tenths (pos 0)) || lt (tenths (pos 1000)) c.high_memory_mark)
          high_mark_out_of_range
      or_else reject (le c.high_memory_mark c.low_memory_mark) marks_out_of_order

  -- Validate
  unfoldable pub validate : Config Float → Option ConfigError
  unfolding validate_worker_counts validate_scaling_factors validate_memory_settings
  validate c =
      validate_worker_counts c or_else validate_scaling_factors c or_else validate_memory_settings c
