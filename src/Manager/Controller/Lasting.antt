-- ===== src/Manager/Controller/Lasting.antt =====
-- pkg/manager/resource_control.go: what a controller keeps, whatever is called on it.
use lemmings.Common.{
  subst, int64, ◌-ℤ◌, ◌≤◌, ◌≡◌, refl, if_elim, Bool, true, false, List, [], ◌∷◌, length, ℤ, pos,
  ◌≤ℤ◌, pos_part, leb_ℤ, ltb_ℤ, none, arith,
}
use lemmings.Utils.Floats.{Floats}
use lemmings.Utils.Monitor.{should_scale_up, should_scale_down}
use lemmings.Manager.Config.{Config, validate}
use lemmings.Manager.Config.Validation.{validate-Passes}
use lemmings.Manager.Controller.{
  ResourceController, new_resource_controller, enable_scaling, disable_scaling, low_memory_usage,
  high_memory_usage,
}
use lemmings.Manager.Controller.Usage.{
  halved_target, handle_low_memory_scale_up_tests, handle_critical_memory_usage,
  handle_high_memory_usage, scale_up_by_factor, handle_low_memory_usage,
  adjust_based_on_resource_usage,
}
use lemmings.Manager.Controller.Unseen.{Call, adjusts, checks, enables, disables, after, critical}
use lemmings.Manager.Controller.Keeping.{Lasts, aside, adjust-Lasts, special-Lasts}

module _ (floats : Floats) (c : Config floats.Float) (ten : pos 10 ≤ℤ c.max_workers) where
  critical-Lasts :
      (now : ℤ) (usage : floats.Float) (r : ResourceController floats.Float)
      → Lasts c r
      → Lasts c (handle_critical_memory_usage floats now usage r).0
  unfolding handle_critical_memory_usage
  critical-Lasts now usage r h =
      if_elim (λ (x : ResourceController floats.Float × Bool). Lasts c x.0)
        (floats.le (critical floats r.config) usage)
        (λ over.
          aside c _ _ _ _ _ _ (
            adjust-Lasts c now (int64 (halved_target r -ℤ r.active_workers)) high_memory_usage r h))
        (λ no. h)

  high-Lasts :
      (now : ℤ) (r : ResourceController floats.Float)
      → Lasts c r
      → Lasts c (handle_high_memory_usage floats now r).0
  unfolding handle_high_memory_usage
  high-Lasts now r h =
      if_elim (λ (x : ResourceController floats.Float × Bool). Lasts c x.0)
        (should_scale_down floats r.monitor)
        (λ high.
          let delta = int64 (halved_target r -ℤ r.active_workers) in
          if_elim (Lasts c) (ltb_ℤ delta (pos 0))
            (λ down. aside c _ _ _ _ _ _ (adjust-Lasts c now delta high_memory_usage r h))
            (λ no. h))
        (λ no. h)

  low-Lasts :
      (now : ℤ) (r : ResourceController floats.Float)
      → Lasts c r
      → Lasts c (handle_low_memory_usage floats now r)
  unfolding handle_low_memory_usage scale_up_by_factor
  low-Lasts now r h =
      if_elim (Lasts c) (should_scale_up floats now r.monitor)
        (λ up.
          if_elim (Lasts c) (handle_low_memory_scale_up_tests now r.active_workers r).1
            (λ applied. special-Lasts c now r ten h)
            (λ no.
              if_elim (Lasts c) (leb_ℤ r.config.max_consecutive_scales r.consecutive_scale_ups)
                (λ full. h)
                (λ more. aside c _ _ _ _ _ _ (adjust-Lasts c now _ low_memory_usage r h))))
        (λ no. h)

  checked-Lasts :
      (now : ℤ) (r : ResourceController floats.Float)
      → Lasts c r
      → Lasts c (adjust_based_on_resource_usage floats now r)
  unfolding adjust_based_on_resource_usage
  checked-Lasts now r h =
      if_elim (Lasts c) r.scaling_enabled
        (λ on.
          if_elim (Lasts c) (handle_critical_memory_usage floats now r.monitor.usage r).1
            (λ critical. critical-Lasts now r.monitor.usage r h)
            (λ no.
              if_elim (Lasts c) (handle_high_memory_usage floats now r).1
                (λ high. high-Lasts now r h) (λ low. low-Lasts now r h)))
        (λ off. h)

  after-Lasts :
      (calls : List Call) (r : ResourceController floats.Float)
      → Lasts c r
      → Lasts c (after floats calls r)
  unfolding after enable_scaling disable_scaling
  after-Lasts [] r h = h
  after-Lasts (adjusts now delta reason ∷ calls) r h =
      after-Lasts calls _ (adjust-Lasts c now delta reason r h)
  after-Lasts (checks now ∷ calls) r h = after-Lasts calls _ (checked-Lasts now r h)
  after-Lasts (enables ∷ calls) r h = after-Lasts calls _ (aside c r _ _ _ _ true h)
  after-Lasts (disables ∷ calls) r h = after-Lasts calls _ (aside c r _ _ _ _ false h)

  -- Where the configuration is valid, with a maximum from ten to the largest int, the controller that was
  -- made with it keeps within it, whatever is called on it and when: its worker count lies between the
  -- minimum and the maximum, its history has at most 100 entries, and at most the maximum of signals
  -- wait in its channel.
  pub limits_kept :
      (start : ℤ) (calls : List Call)
      → validate floats c ≡ none
      → c.max_workers ≤ℤ pos 9223372036854775807
      → let r = after floats calls (new_resource_controller floats start c) in
        (c.min_workers ≤ℤ r.active_workers)
        × (r.active_workers ≤ℤ c.max_workers)
        × (length r.scale_history ≤ 100)
        × (length r.worker_control ≤ pos_part c.max_workers)
  unfolding new_resource_controller
  limits_kept start calls valid fits =
      let sound = validate-Passes floats c valid in
      let new : Lasts c (new_resource_controller floats start c) = record {
        inv = record {
          low = sound.min_le_initial;
          high = sound.initial_le_max;
          positive = sound.min_positive;
          fits = fits;
          history = omega arith;
          channel = omega arith;
        };
        least = refl;
        most = refl;
        room = refl;
      } in
      let last = after floats calls (new_resource_controller floats start c) in
      let h = after-Lasts calls (new_resource_controller floats start c) new in
      (
        subst (λ m. m ≤ℤ last.active_workers) h.least h.inv.low,
        subst (λ m. last.active_workers ≤ℤ m) h.most h.inv.high,
        h.inv.history,
        omega (arith, h.inv.channel, h.room),
      )
