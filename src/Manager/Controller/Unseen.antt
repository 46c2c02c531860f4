-- ===== src/Manager/Controller/Unseen.antt =====
-- pkg/manager/resource_control.go: the memory usage that the controller sees. No code of the package calls
-- the Start of its ResourceMonitor (internal/utils/resource.go), which alone updates the statistics.
use lemmings.Common.{
  ◌≡◌, refl, ap, ◌∙◌, false, if_elim, List, [], ◌∷◌, ℤ, pos, leb_ℤ, if◌then◌else◌,
}
use lemmings.Utils.Floats.{Floats}
use lemmings.Utils.Monitor.{
  should_scale_down, should_scale_up, record_scale_up, new_resource_monitor, with_watermarks,
  with_check_interval, with_cleanup_config, with_scale_down_delay,
}
use lemmings.Manager.Config.{Config}
use lemmings.Manager.Controller.{
  Reason, ResourceController, new_resource_controller, adjust_worker_count, enable_scaling,
  disable_scaling,
}
use lemmings.Manager.Controller.Monitoring.{Unwatched, Noted, adjust-Unwatched, special-Noted}
use lemmings.Manager.Controller.Cooldown.{factor-Noted}
use lemmings.Manager.Controller.Usage.{
  handle_critical_memory_usage, handle_high_memory_usage, handle_low_memory_usage,
  handle_low_memory_scale_up_tests, adjust_based_on_resource_usage,
}

-- A call on the controller, with the time.
pub data Call : Type 0 where
  adjusts : ℤ → ℤ → Reason → Call
  checks : ℤ → Call
  enables disables : Call

module _ (floats : Floats) where
  open floats use {Float, lt, le, tenths, times}

  -- The controller after the calls.
  unfoldable pub after : List Call → ResourceController Float → ResourceController Float
  after [] r = r
  after (adjusts now delta reason ∷ calls) r = after calls (adjust_worker_count now delta reason r)
  after (checks now ∷ calls) r = after calls (adjust_based_on_resource_usage floats now r)
  after (enables ∷ calls) r = after calls (enable_scaling r)
  after (disables ∷ calls) r = after calls (disable_scaling r)

  -- The threshold of handleCriticalMemoryUsage.
  abbrev pub critical : Config Float → Float
  critical c =
      let raised = times c.high_memory_mark (tenths (pos 15)) in
      if lt (tenths (pos 950)) raised then tenths (pos 950) else raised

  -- The monitor has seen no usage, and watches for the mark of the configuration.
  record Unseen (c : Config Float) (r : ResourceController Float) : Type 0 where
    usage : r.monitor.usage ≡ tenths (pos 0)
    mark : r.monitor.memory_highmark ≡ c.high_memory_mark
    config : r.config ≡ c

  kept :
      (c : Config Float) (r s : ResourceController Float) → Unwatched r s → Unseen c r → Unseen c s
  kept c r s (same, same_config) u = record {
    usage = ap (λ m. m.usage) same ∙ u.usage;
    mark = ap (λ m. m.memory_highmark) same ∙ u.mark;
    config = same_config ∙ u.config;
  }

  noted :
      (c : Config Float) (now : ℤ) (r s : ResourceController Float)
      → Noted now r s
      → Unseen c r
      → Unseen c s
  unfolding record_scale_up
  noted c now r s (same, same_config) u = record {
    usage = ap (λ m. m.usage) same ∙ u.usage;
    mark = ap (λ m. m.memory_highmark) same ∙ u.mark;
    config = same_config ∙ u.config;
  }

  low-Unseen :
      (c : Config Float) (now : ℤ) (r : ResourceController Float)
      → Unseen c r
      → Unseen c (handle_low_memory_usage floats now r)
  unfolding handle_low_memory_usage
  low-Unseen c now r u =
      if_elim (Unseen c) (should_scale_up floats now r.monitor)
        (λ up.
          if_elim (Unseen c) (handle_low_memory_scale_up_tests now r.active_workers r).1
            (λ applied. noted c now r _ (special-Noted now r.active_workers r applied) u)
            (λ no.
              if_elim (Unseen c) (leb_ℤ r.config.max_consecutive_scales r.consecutive_scale_ups)
                (λ full. u) (λ more. noted c now r _ (factor-Noted floats now r) u)))
        (λ no. u)

  module _ (c : Config Float) (unmarked : lt c.high_memory_mark (tenths (pos 0)) ≡ false)
      (uncritical : le (critical c) (tenths (pos 0)) ≡ false) where
    check_low :
        (now : ℤ) (r : ResourceController Float)
        → Unseen c r
        → adjust_based_on_resource_usage floats now r
          ≡ (if r.scaling_enabled then handle_low_memory_usage floats now r else r)
    unfolding adjust_based_on_resource_usage handle_critical_memory_usage handle_high_memory_usage
        should_scale_down
    check_low now r u =
        let not_critical : le (critical r.config) r.monitor.usage ≡ false =
          rw (u.config, u.usage) uncritical in
        let not_high : lt r.monitor.memory_highmark r.monitor.usage ≡ false =
          rw (u.mark, u.usage) unmarked in
        rw (not_critical, not_high) refl

    check-Unseen :
        (now : ℤ) (r : ResourceController Float)
        → Unseen c r
        → Unseen c (adjust_based_on_resource_usage floats now r)
    check-Unseen now r u =
        rw (check_low now r u)
          (if_elim (Unseen c) r.scaling_enabled (λ on. low-Unseen c now r u) (λ off. u))

    after-Unseen :
        (calls : List Call) (r : ResourceController Float) → Unseen c r → Unseen c (after calls r)
    unfolding after enable_scaling disable_scaling
    after-Unseen [] r u = u
    after-Unseen (adjusts now delta reason ∷ calls) r u =
        after-Unseen calls _ (kept c r _ (adjust-Unwatched now delta reason r) u)
    after-Unseen (checks now ∷ calls) r u = after-Unseen calls _ (check-Unseen now r u)
    after-Unseen (enables ∷ calls) r u =
        after-Unseen calls _ (record { usage = u.usage; mark = u.mark; config = u.config })
    after-Unseen (disables ∷ calls) r u =
        after-Unseen calls _ (record { usage = u.usage; mark = u.mark; config = u.config })

    -- Where the configured high mark, and the critical threshold made of it, are not passed by a usage of
    -- 0: a controller that was made with that configuration sees a usage of 0 after any calls on it, so
    -- that AdjustBasedOnResourceUsage does no more than scale up on low memory, and that only if scaling
    -- is enabled.
    pub high_memory_unseen :
        (start now : ℤ) (calls : List Call)
        → let r = after calls (new_resource_controller floats start c) in
          (r.monitor.usage ≡ tenths (pos 0))
          × (adjust_based_on_resource_usage floats now r
              ≡ (if r.scaling_enabled then handle_low_memory_usage floats now r else r))
    unfolding new_resource_controller new_resource_monitor with_watermarks with_check_interval
        with_cleanup_config with_scale_down_delay
    high_memory_unseen start now calls =
        let u =
          after-Unseen calls (new_resource_controller floats start c)
            (record { usage = refl; mark = refl; config = refl }) in
        (u.usage, check_low now _ u)
