-- ===== src/Manager/Config/Options.antt =====
-- pkg/manager/config.go: the options, and ConfigWithOptions.
use lemmings.Common.{List, [], ◌∷◌, ℤ, Bool}
use lemmings.Utils.Floats.{Floats}
use lemmings.Manager.Config.{Config, default_config}

-- Option
abbrev pub ConfigOption : Type 0 → Type 0
ConfigOption F = Config F → Config F

module _ {F : Type 0} where
  unfoldable pub with_initial_workers : ℤ → ConfigOption F
  with_initial_workers count c = record c { initial_workers = count }

  unfoldable pub with_max_workers : ℤ → ConfigOption F
  with_max_workers count c = record c { max_workers = count }

  unfoldable pub with_min_workers : ℤ → ConfigOption F
  with_min_workers count c = record c { min_workers = count }

  unfoldable pub with_max_tasks_in_queue : ℤ → ConfigOption F
  with_max_tasks_in_queue count c = record c { max_tasks_in_queue = count }

  unfoldable pub with_scale_factors : F → F → ConfigOption F
  with_scale_factors up down c = record c { scale_up_factor = up; scale_down_factor = down }

  unfoldable pub with_memory_watermarks : F → F → ConfigOption F
  with_memory_watermarks low high c = record c { low_memory_mark = low; high_memory_mark = high }

  unfoldable pub with_monitor_interval : ℤ → ConfigOption F
  with_monitor_interval d c = record c { monitor_interval = d }

  unfoldable pub with_task_timeout : ℤ → ConfigOption F
  with_task_timeout d c = record c { task_timeout = d }

  unfoldable pub with_scale_up_delay : ℤ → ConfigOption F
  with_scale_up_delay d c = record c { scale_up_delay = d }

  unfoldable pub with_force_gc_threshold : F → ConfigOption F
  with_force_gc_threshold threshold c = record c { force_gc_threshold = threshold }

  unfoldable pub with_verbose : Bool → ConfigOption F
  with_verbose verbose c = record c { verbose = verbose }

  -- The loop of ConfigWithOptions.
  unfoldable pub apply_options : List (ConfigOption F) → Config F → Config F
  apply_options [] c = c
  apply_options (option ∷ options) c = apply_options options (option c)

-- ConfigWithOptions
unfoldable config_with_options : (f : Floats) → List (ConfigOption f.Float) → Config f.Float
unfolding apply_options
config_with_options f options = apply_options options (default_config f)
