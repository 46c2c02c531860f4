-- ===== src/Utils/Monitor.antt =====
-- internal/utils/resource.go: the ResourceMonitor. `usage` is the memory percentage last stored in its
-- SystemStats; each call that reads the clock takes the time as an argument.
pub mod Cleanups
use lemmings.Common.{
  List, [], ◌∷◌, Bool, true, false, ◌&&◌, not, ℤ, pos, ◌-ℤ◌, int64, ltb_ℤ, if◌then◌else◌,
}
use lemmings.Utils.Floats.{Floats}
use lemmings.Utils.Stats.{Sample, current_stats}

pub record ResourceMonitor (F : Type 0) : Type 0 where
  pub usage : F
  pub memory_lowmark : F
  pub memory_highmark : F
  pub check_interval : ℤ
  pub last_cleanup : ℤ
  pub cleanup_threshold : F
  pub min_cleanup_interval : ℤ
  pub scale_down_delay : ℤ
  pub last_scale_down : ℤ
  pub last_scale_up : ℤ
  pub scale_up_cooldown : ℤ

-- What a tick of the ticker finds: the answers of the runtime, and the time before and after a cleanup.
pub record Tick : Type 0 where
  pub sample : Sample
  pub now : ℤ
  pub done : ℤ

-- time.Since
abbrev pub since : ℤ → ℤ → ℤ
since now t = int64 (now -ℤ t)

module _ (floats : Floats) where
  open floats use {Float, lt, le, tenths}

  -- NewResourceMonitor before its options; the usage of a new SystemStats is 0.
  unfoldable pub new_resource_monitor : ℤ → ResourceMonitor Float
  new_resource_monitor now = record {
    usage = tenths (pos 0);
    memory_lowmark = tenths (pos 600);
    memory_highmark = tenths (pos 750);
    check_interval = pos 500_000_000;
    last_cleanup = now;
    cleanup_threshold = tenths (pos 850);
    min_cleanup_interval = pos 300_000_000_000;
    scale_down_delay = pos 30_000_000_000;
    last_scale_down = now;
    last_scale_up = now;
    scale_up_cooldown = pos 30_000_000_000;
  }

  -- ShouldScaleDown
  unfoldable pub should_scale_down : ResourceMonitor Float → Bool
  should_scale_down m = lt m.memory_highmark m.usage

  -- ShouldScaleUp
  unfoldable pub should_scale_up : ℤ → ResourceMonitor Float → Bool
  should_scale_up now m =
      if le m.memory_lowmark m.usage
      then false
      else (if ltb_ℤ (since now m.last_scale_down) m.scale_down_delay
          then false
          else not (ltb_ℤ (since now m.last_scale_up) m.scale_up_cooldown))

  -- monitorMemory, at a time `now`, and a time `done` when it has run a cleanup, which is left to the
  -- runtime; the result says whether it has.
  unfoldable pub monitor_memory : ℤ → ℤ → ResourceMonitor Float → ResourceMonitor Float × Bool
  monitor_memory now done m =
      if lt m.cleanup_threshold m.usage && ltb_ℤ m.min_cleanup_interval (since now m.last_cleanup)
      then (record m { last_cleanup = done }, true)
      else (m, false)

  -- A round of the loop of Start in which the ticker ticks: UpdateMemStats, of which the monitor reads
  -- the usage only, and monitorMemory.
  unfoldable pub tick : Tick → ResourceMonitor Float → ResourceMonitor Float × Bool
  unfolding monitor_memory
  tick t m =
      monitor_memory t.now t.done
        (record m { usage = (current_stats floats t.sample).usage_percent })

  -- Start, for so many ticks before its context is done: the monitor, and the ticks that cleaned up.
  unfoldable pub start : List Tick → ResourceMonitor Float → ResourceMonitor Float × List Tick
  start [] m = (m, [])
  start (t ∷ ts) m =
      let (m₁, cleaned) = tick t m in
      let (m₂, cleanups) = start ts m₁ in (m₂, if cleaned then t ∷ cleanups else cleanups)

module _ {F : Type 0} where
  -- WithMemoryWatermarks, WithCheckInterval, WithCleanupConfig and WithScaleDownDelay
  unfoldable pub with_watermarks : F → F → ResourceMonitor F → ResourceMonitor F
  with_watermarks low high m = record m { memory_lowmark = low; memory_highmark = high }

  unfoldable pub with_check_interval : ℤ → ResourceMonitor F → ResourceMonitor F
  with_check_interval interval m = record m { check_interval = interval }

  unfoldable pub with_cleanup_config : F → ℤ → ResourceMonitor F → ResourceMonitor F
  with_cleanup_config threshold least m = record m {
    cleanup_threshold = threshold;
    min_cleanup_interval = least;
  }

  unfoldable pub with_scale_down_delay : ℤ → ResourceMonitor F → ResourceMonitor F
  with_scale_down_delay delay m = record m { scale_down_delay = delay }

  -- RecordScaleUp and RecordScaleDown
  unfoldable pub record_scale_up : ℤ → ResourceMonitor F → ResourceMonitor F
  record_scale_up now m = record m { last_scale_up = now }

  unfoldable pub record_scale_down : ℤ → ResourceMonitor F → ResourceMonitor F
  record_scale_down now m = record m { last_scale_down = now }
