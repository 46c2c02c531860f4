-- ===== src/Manager/Controller/Usage.antt =====
-- pkg/manager/resource_control.go: AdjustBasedOnResourceUsage and what it calls.
use lemmings.Common.{
  Bool, true, false, ◌&&◌, [], ◌∷◌, ◌++◌, ℤ, pos, ◌+ℤ◌, ◌-ℤ◌, int64, half_ℤ, ltb, ltb_ℤ, leb_ℤ,
  eqb_ℤ, length, if◌then◌else◌,
}
use lemmings.Utils.Floats.{Floats}
use lemmings.Utils.Monitor.{should_scale_down, should_scale_up, record_scale_up}
use lemmings.Manager.Controller.{
  ResourceController, low_memory_usage, high_memory_usage, record_scaling_event,
  send_multiple_signals, adjust_worker_count,
}

module _ {F : Type 0} where
  -- Half the workers, and at least the configured minimum.
  unfoldable pub halved_target : ResourceController F → ℤ
  halved_target r =
      let half = half_ℤ r.active_workers in
      if ltb_ℤ half r.config.min_workers then r.config.min_workers else half

  -- `r.pauseProcessing <- true` where the channel, of capacity 1, has room
  abbrev pub send_pause : ResourceController F → ResourceController F
  send_pause r = record r {
    pause_processing =
        if ltb (length r.pause_processing) 1
        then r.pause_processing ++ true ∷ []
        else r.pause_processing;
  }

  -- The bookkeeping after a scale-up.
  abbrev pub note_scale_up : ℤ → ℤ → ResourceController F → ResourceController F
  note_scale_up now consecutive r = record r {
    consecutive_scale_ups = consecutive;
    last_scale_action = now;
    monitor = record_scale_up now r.monitor;
  }

  -- A scale-up to a fixed count, as handleLowMemoryScaleUpTests records it.
  abbrev forced : ℤ → ℤ → ℤ → ResourceController F → ResourceController F
  forced now from to r =
      record_scaling_event now from low_memory_usage r.monitor.usage
        (record r { active_workers = to })

  -- handleLowMemoryScaleUpTests: the controller, and whether a case applied.
  unfoldable pub handle_low_memory_scale_up_tests :
      ℤ → ℤ → ResourceController F → ResourceController F × Bool
  handle_low_memory_scale_up_tests now current r =
      let to_ten = send_multiple_signals (pos 1) 5 (forced now r.active_workers (pos 10) r) in
      if eqb_ℤ current (pos 5)
      then (note_scale_up now (int64 (r.consecutive_scale_ups +ℤ pos 1)) to_ten, true)
      else (if eqb_ℤ current (pos 2) && eqb_ℤ r.consecutive_scale_ups (pos 0)
          then (note_scale_up now (pos 1) (forced now (pos 2) (pos 4) r), true)
          else (if eqb_ℤ current (pos 4) && eqb_ℤ r.consecutive_scale_ups (pos 1)
              then (note_scale_up now (pos 2) (forced now (pos 4) (pos 8) r), true)
              else (r, false)))

module _ (floats : Floats) where
  open floats use {Float, lt, le, tenths, times, of_int, to_int}

  -- handleCriticalMemoryUsage
  unfoldable pub handle_critical_memory_usage :
      ℤ → Float → ResourceController Float → ResourceController Float × Bool
  handle_critical_memory_usage now mem_usage r =
      let raised = times r.config.high_memory_mark (tenths (pos 15)) in
      let threshold = if lt (tenths (pos 950)) raised then tenths (pos 950) else raised in
      let delta = int64 (halved_target r -ℤ r.active_workers) in
      if le threshold mem_usage
      then (send_pause (adjust_worker_count now delta high_memory_usage r), true)
      else (r, false)

  -- handleHighMemoryUsage
  unfoldable pub handle_high_memory_usage :
      ℤ → ResourceController Float → ResourceController Float × Bool
  handle_high_memory_usage now r =
      let delta = int64 (halved_target r -ℤ r.active_workers) in
      if should_scale_down floats r.monitor
      then (
        if ltb_ℤ delta (pos 0)
            then record (adjust_worker_count now delta high_memory_usage r) {
              consecutive_scale_ups = pos 0;
              last_scale_action = now;
            }
            else r,
        true,
      )
      else (r, false)

  -- The default scale-up of handleLowMemoryUsage.
  unfoldable pub scale_up_by_factor : ℤ → ResourceController Float → ResourceController Float
  scale_up_by_factor now r =
      let target = to_int (times (of_int r.active_workers) r.config.scale_up_factor) in
      let wanted = int64 (target -ℤ r.active_workers) in
      let delta = if leb_ℤ wanted (pos 0) then pos 1 else wanted in
      let adjusted = adjust_worker_count now delta low_memory_usage r in
      note_scale_up now (int64 (adjusted.consecutive_scale_ups +ℤ pos 1)) adjusted

  -- handleLowMemoryUsage
  unfoldable pub handle_low_memory_usage : ℤ → ResourceController Float → ResourceController Float
  handle_low_memory_usage now r =
      let special = handle_low_memory_scale_up_tests now r.active_workers r in
      if should_scale_up floats now r.monitor
      then (if special.1
          then special.0
          else (if leb_ℤ r.config.max_consecutive_scales r.consecutive_scale_ups
              then r
              else scale_up_by_factor now r))
      else r

  -- AdjustBasedOnResourceUsage
  unfoldable pub adjust_based_on_resource_usage :
      ℤ → ResourceController Float → ResourceController Float
  adjust_based_on_resource_usage now r =
      let critical = handle_critical_memory_usage now r.monitor.usage r in
      let high = handle_high_memory_usage now r in
      if r.scaling_enabled
      then (if critical.1
          then critical.0
          else (if high.1 then high.0 else handle_low_memory_usage now r))
      else r
