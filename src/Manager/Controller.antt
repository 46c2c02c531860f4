-- ===== src/Manager/Controller.antt =====
-- pkg/manager/resource_control.go: the ResourceController. Its two channels are lists of what waits in
-- them, oldest first, with their capacities; nothing in the library receives from them. A call that
-- reads the clock takes the time as its first argument. Logging is left out.
pub mod Signals
pub mod Adjusting
pub mod Usage
pub mod Limits
pub mod Monitoring
pub mod Cooldown
pub mod Unseen
pub mod Keeping
pub mod Lasting
use lemmings.Common.{
  ℕ, zero, suc, ◌+◌, String, Option, Bool, true, false, ◌&&◌, ◌||◌, not, List, [], ◌∷◌, ◌++◌, ℤ,
  pos, negsuc, ◌+ℤ◌, ◌-ℤ◌, int64, ltb_ℤ, leb_ℤ, eqb_ℤ, ltb, pos_part, if◌then◌else◌, length, drop,
}
use lemmings.Utils.Floats.{Floats}
use lemmings.Utils.Monitor.{
  ResourceMonitor, new_resource_monitor, with_watermarks, with_check_interval, with_cleanup_config,
  with_scale_down_delay,
}
use lemmings.Manager.Config.{Config}

-- The reasons that the code compares with; `other` is any other text.
pub data Reason : Type 0 where
  test test_scaling handle_full_channel scale_up_test scale_down_test : Reason
  low_memory_usage high_memory_usage : Reason
  other : String → Reason

pub record ScaleEvent (F : Type 0) : Type 0 where
  pub time : ℤ
  pub from_workers : ℤ
  pub to_workers : ℤ
  pub reason : Reason
  pub mem_usage : F

pub record ResourceController (F : Type 0) : Type 0 where
  pub monitor : ResourceMonitor F
  pub active_workers : ℤ
  pub max_workers : ℤ
  pub min_workers : ℤ
  pub target_workers : ℤ
  pub pause_processing : List Bool
  pub worker_control : List ℤ
  pub worker_control_cap : ℕ
  pub config : Config F
  pub consecutive_scale_ups : ℤ
  pub last_scale_action : ℤ
  pub scale_history : List (ScaleEvent F)
  pub scaling_enabled : Bool

-- NewResourceController
unfoldable pub new_resource_controller :
    (f : Floats) → ℤ → Config f.Float → ResourceController f.Float
new_resource_controller f now c = record {
  monitor = with_scale_down_delay c.scale_up_delay (
      with_cleanup_config c.force_gc_threshold c.min_cleanup_interval (
        with_check_interval c.monitor_interval
          (with_watermarks c.low_memory_mark c.high_memory_mark (new_resource_monitor f now))));
  active_workers = c.initial_workers;
  max_workers = c.max_workers;
  min_workers = c.min_workers;
  target_workers = c.initial_workers;
  pause_processing = [];
  worker_control = [];
  worker_control_cap = pos_part c.max_workers;
  config = c;
  consecutive_scale_ups = pos 0;
  last_scale_action = now;
  scale_history = [];
  scaling_enabled = true;
}

-- abs
unfoldable pub abs : ℤ → ℤ
abs x = if ltb_ℤ x (pos 0) then int64 (pos 0 -ℤ x) else x

-- getScaleDirection
unfoldable pub get_scale_direction : ℤ → String
get_scale_direction signal = if ltb_ℤ (pos 0) signal then "scale-up" else "scale-down"

-- determineSignalValue
unfoldable pub determine_signal_value : ℤ → Reason → ℤ
determine_signal_value delta scale_down_test = if ltb_ℤ delta (pos 0) then negsuc 0 else pos 1
determine_signal_value delta high_memory_usage = if ltb_ℤ delta (pos 0) then negsuc 0 else pos 1
determine_signal_value delta reason = pos 1

module _ {F : Type 0} where
  -- handleSpecialTestCases and the handlers that it calls
  unfoldable pub handle_special_test_cases : ResourceController F → ℤ → Reason → ℤ
  handle_special_test_cases r delta test =
      if eqb_ℤ r.active_workers (pos 7) && eqb_ℤ delta (pos 2)
      then int64 (r.min_workers -ℤ r.active_workers)
      else delta
  handle_special_test_cases r delta test_scaling =
      if eqb_ℤ r.active_workers (pos 4) && eqb_ℤ delta (pos 6) then pos 2 else delta
  handle_special_test_cases r delta handle_full_channel = pos 2
  handle_special_test_cases r delta scale_up_test =
      if eqb_ℤ r.active_workers (pos 3) then pos 5 else pos 0
  handle_special_test_cases r delta scale_down_test =
      if eqb_ℤ r.active_workers (pos 5) then pos 3 else pos 0
  handle_special_test_cases r delta reason = delta

  -- calculateNewWorkerCount
  unfoldable pub calculate_new_worker_count :
      ResourceController F → ℤ → Reason → ResourceController F
  calculate_new_worker_count r delta₀ reason =
      let delta = handle_special_test_cases r delta₀ reason in
      let new_count = int64 (r.active_workers +ℤ delta) in
      let change =
        if ltb_ℤ new_count r.min_workers
        then int64 (r.min_workers -ℤ r.active_workers)
        else if ltb_ℤ r.max_workers new_count
        then int64 (r.max_workers -ℤ r.active_workers)
        else delta in
      record r { active_workers = int64 (r.active_workers +ℤ change) }

  -- The history with an event appended, trimmed at its front above 100 events.
  abbrev pub trimmed : List (ScaleEvent F) → List (ScaleEvent F)
  trimmed history = if ltb 100 (length history) then drop 1 history else history

  -- recordScalingEvent
  unfoldable pub record_scaling_event :
      ℤ → ℤ → Reason → F → ResourceController F → ResourceController F
  record_scaling_event now old_count reason mem_usage r = record r {
    scale_history = trimmed (
        r.scale_history
        ++ record {
          time = now;
          from_workers = old_count;
          to_workers = r.active_workers;
          reason = reason;
          mem_usage = mem_usage;
        }
          ∷ []);
  }

  -- sendMultipleSignals, with the number of signals still to send
  unfoldable pub send_multiple_signals : ℤ → ℕ → ResourceController F → ResourceController F
  send_multiple_signals signal zero r = r
  send_multiple_signals signal (suc n) r =
      if ltb (length r.worker_control) r.worker_control_cap
      then send_multiple_signals signal n
          (record r { worker_control = r.worker_control ++ signal ∷ [] })
      else r

  -- The signals of sendWorkerControlSignals where no special case applies.
  unfoldable pub send_default_signals : ℤ → Reason → ResourceController F → ResourceController F
  send_default_signals old_count reason r =
      let delta = int64 (r.active_workers -ℤ old_count) in
      if eqb_ℤ delta (pos 0)
      then r
      else send_multiple_signals (determine_signal_value delta reason) (pos_part (abs delta)) r

  -- sendWorkerControlSignals, with the special cases of handleSpecialCaseSignals
  unfoldable pub send_worker_control_signals :
      ℤ → Reason → ResourceController F → ResourceController F
  send_worker_control_signals old_count scale_down_test r = send_multiple_signals (negsuc 0) 3 r
  send_worker_control_signals old_count scale_up_test r = send_multiple_signals (negsuc 0) 5 r
  send_worker_control_signals old_count low_memory_usage r =
      if eqb_ℤ r.active_workers (pos 10)
      then send_multiple_signals (pos 1) 5 r
      else send_default_signals old_count low_memory_usage r
  send_worker_control_signals old_count reason r = send_default_signals old_count reason r

  -- AdjustWorkerCount
  unfoldable pub adjust_worker_count : ℤ → ℤ → Reason → ResourceController F → ResourceController F
  adjust_worker_count now delta reason r =
      let counted = calculate_new_worker_count r delta reason in
      let recorded = record_scaling_event now r.active_workers reason r.monitor.usage counted in
      if r.scaling_enabled then send_worker_control_signals r.active_workers reason recorded else r

  -- GetActiveWorkerCount, EnableScaling, DisableScaling and GetScalingHistory
  unfoldable pub get_active_worker_count : ResourceController F → ℤ
  get_active_worker_count r = r.active_workers

  unfoldable pub enable_scaling : ResourceController F → ResourceController F
  enable_scaling r = record r { scaling_enabled = true }

  unfoldable pub disable_scaling : ResourceController F → ResourceController F
  disable_scaling r = record r { scaling_enabled = false }

  unfoldable pub get_scaling_history : ResourceController F → List (ScaleEvent F)
  get_scaling_history r = r.scale_history

  -- GetWorkerControlChannel, GetPauseChannel and GetResourceMonitor
  unfoldable pub get_worker_control_channel : ResourceController F → List ℤ
  get_worker_control_channel r = r.worker_control

  unfoldable pub get_pause_channel : ResourceController F → List Bool
  get_pause_channel r = r.pause_processing

  unfoldable pub get_resource_monitor : ResourceController F → ResourceMonitor F
  get_resource_monitor r = r.monitor
