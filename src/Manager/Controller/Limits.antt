-- ===== src/Manager/Controller/Limits.antt =====
-- pkg/manager/resource_control.go: limits that scaling on low memory keeps, and one that it passes.
use lemmings.Common.{◌≡◌, refl, true, false, ℤ, pos, ◌≤ℤ◌, ◌<ℤ◌, leb_ℤ, eqb_ℤ, arith}
use lemmings.Utils.Floats.{Floats}
use lemmings.Utils.Monitor.{should_scale_up}
use lemmings.Manager.Controller.{ResourceController, record_scaling_event}
use lemmings.Manager.Controller.Signals.{send_multiple_signals_lem}
use lemmings.Manager.Controller.Usage.{handle_low_memory_scale_up_tests, handle_low_memory_usage}

forced_ten :
    {F : Type 0} (now : ℤ) (r : ResourceController F)
    → r.active_workers ≡ pos 5
    → let s = handle_low_memory_scale_up_tests now r.active_workers r in
      (s.1 ≡ true) × (s.0.active_workers ≡ pos 10) × (s.0.max_workers ≡ r.max_workers)
unfolding handle_low_memory_scale_up_tests record_scaling_event
forced_ten now r five =
    let is_five : eqb_ℤ r.active_workers (pos 5) ≡ true = ground arith in
    rw (is_five, send_multiple_signals_lem) (refl, refl, refl)

module _ (floats : Floats) (now : ℤ) where
  open floats use {Float, lt, le}

  -- Where memory is low and there are five workers, the count becomes ten whatever the maximum is, so
  -- a maximum below ten is passed.
  pub low_memory_passes_maximum :
      (r : ResourceController Float)
      → r.active_workers ≡ pos 5
      → r.max_workers <ℤ pos 10
      → should_scale_up floats now r.monitor ≡ true
      → let r' = handle_low_memory_usage floats now r in
        (r'.active_workers ≡ pos 10) × (r'.max_workers <ℤ r'.active_workers)
  unfolding handle_low_memory_usage
  low_memory_passes_maximum r five below up =
      let (applied, ten, most) = forced_ten now r five in rw (up, applied, ten, most) (refl, below)

  -- After at least two consecutive scale-ups, and as many as the configuration allows, low memory
  -- changes nothing, unless there are five workers.
  pub scale_ups_limited :
      (r : ResourceController Float)
      → leb_ℤ r.config.max_consecutive_scales r.consecutive_scale_ups ≡ true
      → eqb_ℤ r.active_workers (pos 5) ≡ false
      → pos 2 ≤ℤ r.consecutive_scale_ups
      → handle_low_memory_usage floats now r ≡ r
  unfolding handle_low_memory_usage handle_low_memory_scale_up_tests
  scale_ups_limited r full not_five many = ground arith
