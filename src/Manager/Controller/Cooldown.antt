-- ===== src/Manager/Controller/Cooldown.antt =====
-- pkg/manager/resource_control.go: scaling on low memory waits for the monitor's cooldown.
use lemmings.Common.{
  ◌≡◌, refl, ap, ◌⊎◌, inl, inr, if_elim, true, false, ℤ, ◌-ℤ◌, ◌<ℤ◌, int64_id, IsInt64, ltb_ℤ,
  leb_ℤ, arith,
}
use lemmings.Utils.Floats.{Floats}
use lemmings.Utils.Monitor.{since, should_scale_up, record_scale_up}
use lemmings.Manager.Controller.{ResourceController, low_memory_usage}
use lemmings.Manager.Controller.Monitoring.{Noted, adjust-Unwatched, special-Noted}
use lemmings.Manager.Controller.Usage.{
  handle_low_memory_scale_up_tests, scale_up_by_factor, handle_low_memory_usage,
}

module _ (floats : Floats) where
  open floats use {Float, lt, le}

  cooling :
      (now later : ℤ) (r r' : ResourceController Float)
      → IsInt64 (later -ℤ now)
      → later -ℤ now <ℤ r.monitor.scale_up_cooldown
      → Noted now r r'
      → handle_low_memory_usage floats later r' ≡ r'
  unfolding handle_low_memory_usage should_scale_up record_scale_up
  cooling now later r r' fits soon noted =
      let wait : ltb_ℤ (since later now) r.monitor.scale_up_cooldown ≡ true =
        rw (int64_id (later -ℤ now) fits) (ground arith) in
      let no_scale_up : should_scale_up floats later r'.monitor ≡ false =
        rw noted.0 (ground arith) in
      rw no_scale_up refl

  pub factor-Noted :
      (now : ℤ) (r : ResourceController Float) → Noted now r (scale_up_by_factor floats now r)
  unfolding scale_up_by_factor
  factor-Noted now r =
      let kept = adjust-Unwatched now _ low_memory_usage r in
      (ap (record_scale_up now) kept.0, kept.1)

  -- Low memory scales up at most once per cooldown: if one call changes anything, a second call
  -- within the cooldown, with the times apart by an int64, changes nothing.
  pub low_memory_waits :
      (now later : ℤ) (r : ResourceController Float)
      → IsInt64 (later -ℤ now)
      → later -ℤ now <ℤ r.monitor.scale_up_cooldown
      → (handle_low_memory_usage floats now r ≡ r)
        ⊎ (handle_low_memory_usage floats later (handle_low_memory_usage floats now r)
            ≡ handle_low_memory_usage floats now r)
  unfolding handle_low_memory_usage
  low_memory_waits now later r fits soon =
      let waits =
        λ (x : ResourceController Float). (x ≡ r) ⊎ (handle_low_memory_usage floats later x ≡ x) in
      let cools = λ (x : ResourceController Float). cooling now later r x fits soon in
      if_elim waits (should_scale_up floats now r.monitor)
        (λ up.
          if_elim waits (handle_low_memory_scale_up_tests now r.active_workers r).1
            (λ applied. inr (cools _ (special-Noted now r.active_workers r applied)))
            (λ _.
              if_elim waits (leb_ℤ r.config.max_consecutive_scales r.consecutive_scale_ups)
                (λ full. inl refl) (λ more. inr (cools _ (factor-Noted now r)))))
        (λ no. inl refl)
