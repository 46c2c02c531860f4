-- ===== src/Manager/Controller/Keeping.antt =====
-- pkg/manager/resource_control.go: AdjustWorkerCount and the fixed steps keep a controller within its limits.
use lemmings.Common.{
  subst, ◌≤◌, ◌≡◌, refl, sym, ap, ◌∙◌, if_elim, Bool, List, length, ℤ, pos, ◌≤ℤ◌, pos_part, eqb_ℤ,
  ◌&&◌, arith,
}
use lemmings.Utils.Monitor.{ResourceMonitor}
use lemmings.Manager.Config.{Config}
use lemmings.Manager.Controller.{
  Reason, ResourceController, adjust_worker_count, record_scaling_event, calculate_new_worker_count,
  low_memory_usage,
}
use lemmings.Manager.Controller.Signals.{Signalled, send-Signalled, control-Signalled}
use lemmings.Manager.Controller.Adjusting.{
  Inv, recorded-Inv, Signalled-Inv, adjust_worker_count_lem,
}
use lemmings.Manager.Controller.Usage.{handle_low_memory_scale_up_tests}

module _ {F : Type 0} where
  -- The controller keeps its invariant and the limits of its configuration.
  pub record Lasts (c : Config F) (r : ResourceController F) : Type 0 where
    pub inv : Inv r
    pub least : r.min_workers ≡ c.min_workers
    pub most : r.max_workers ≡ c.max_workers
    pub room : r.worker_control_cap ≡ pos_part c.max_workers

  -- What neither the invariant nor the limits look at may change.
  pub aside :
      (c : Config F) (r : ResourceController F) (pauses : List Bool) (ups time : ℤ)
      (monitor : ResourceMonitor F) (enabled : Bool)
      → Lasts c r
      → Lasts c (record r {
        pause_processing = pauses;
        consecutive_scale_ups = ups;
        last_scale_action = time;
        monitor = monitor;
        scaling_enabled = enabled;
      })
  aside c r pauses ups time monitor enabled h = record {
    inv = record {
      low = h.inv.low;
      high = h.inv.high;
      positive = h.inv.positive;
      fits = h.inv.fits;
      history = h.inv.history;
      channel = h.inv.channel;
    };
    least = h.least;
    most = h.most;
    room = h.room;
  }

  Signalled-Lasts :
      (c : Config F) (r s : ResourceController F) → Signalled r s → Lasts c r → Lasts c s
  Signalled-Lasts c r s signals h = record {
    inv = Signalled-Inv r s h.inv signals;
    least = ap (λ (x : ResourceController F). x.min_workers) signals.1 ∙ h.least;
    most = ap (λ (x : ResourceController F). x.max_workers) signals.1 ∙ h.most;
    room = ap (λ (x : ResourceController F). x.worker_control_cap) signals.1 ∙ h.room;
  }

  -- The limits of two controllers are the same.
  abbrev SameLimits : ResourceController F → ResourceController F → Type 0
  SameLimits r s =
      (s.min_workers ≡ r.min_workers)
      × (s.max_workers ≡ r.max_workers)
      × (s.worker_control_cap ≡ r.worker_control_cap)

  adjust-SameLimits :
      (now delta : ℤ) (reason : Reason) (r : ResourceController F)
      → length r.worker_control ≤ r.worker_control_cap
      → SameLimits r (adjust_worker_count now delta reason r)
  unfolding adjust_worker_count record_scaling_event calculate_new_worker_count
  adjust-SameLimits now delta reason r h =
      if_elim (SameLimits r) r.scaling_enabled
        (λ on.
          let counted = calculate_new_worker_count r delta reason in
          let recorded = record_scaling_event now r.active_workers reason r.monitor.usage counted in
          let (sent, same, short) = control-Signalled r.active_workers reason recorded h in
          (
            ap (λ (x : ResourceController F). x.min_workers) same,
            ap (λ (x : ResourceController F). x.max_workers) same,
            ap (λ (x : ResourceController F). x.worker_control_cap) same,
          ))
        (λ off. (refl, refl, refl))

  pub adjust-Lasts :
      (c : Config F) (now delta : ℤ) (reason : Reason) (r : ResourceController F)
      → Lasts c r
      → Lasts c (adjust_worker_count now delta reason r)
  adjust-Lasts c now delta reason r h =
      let (same_min, same_max, same_cap) = adjust-SameLimits now delta reason r h.inv.channel in
      record {
        inv = (adjust_worker_count_lem now delta reason r h.inv).0;
        least = same_min ∙ h.least;
        most = same_max ∙ h.most;
        room = same_cap ∙ h.room;
      }

  -- A scale-up to a fixed count within the limits.
  forced-Lasts :
      (c : Config F) (now from to : ℤ) (r : ResourceController F)
      → r.active_workers ≤ℤ to
      → to ≤ℤ r.max_workers
      → Lasts c r
      → Lasts c (
          record_scaling_event now from low_memory_usage r.monitor.usage
            (record r { active_workers = to }))
  unfolding record_scaling_event
  forced-Lasts c now from to r up within h =
      let moved : Inv (record r { active_workers = to }) = record {
        low = omega (arith, h.inv.low, up);
        high = within;
        positive = h.inv.positive;
        fits = h.inv.fits;
        history = h.inv.history;
        channel = h.inv.channel;
      } in
      record {
        inv = recorded-Inv now from low_memory_usage r.monitor.usage _ moved;
        least = h.least;
        most = h.most;
        room = h.room;
      }

  -- The fixed steps of handleLowMemoryScaleUpTests go no higher than ten.
  pub special-Lasts :
      (c : Config F) (now : ℤ) (r : ResourceController F)
      → pos 10 ≤ℤ c.max_workers
      → Lasts c r
      → Lasts c (handle_low_memory_scale_up_tests now r.active_workers r).0
  unfolding handle_low_memory_scale_up_tests record_scaling_event
  special-Lasts c now r ten h =
      let kept = λ (x : ResourceController F × Bool). Lasts c x.0 in
      let forced = λ (from to : ℤ) (up : r.active_workers ≤ℤ to) (few : to ≤ℤ pos 10).
        forced-Lasts c now from to r up
          (subst (λ m. to ≤ℤ m) (sym h.most) (omega (arith, ten, few))) h in
      if_elim kept (eqb_ℤ r.active_workers (pos 5))
        (λ five.
          let ten_workers = forced r.active_workers (pos 10) (ground arith) (omega arith) in
          aside c _ _ _ _ _ _
            (Signalled-Lasts c _ _ (send-Signalled (pos 1) 5 _ h.inv.channel) ten_workers))
        (λ not_five.
          if_elim kept (eqb_ℤ r.active_workers (pos 2) && eqb_ℤ r.consecutive_scale_ups (pos 0))
            (λ two. aside c _ _ _ _ _ _ (forced (pos 2) (pos 4) (ground arith) (omega arith)))
            (λ not_two.
              if_elim kept (eqb_ℤ r.active_workers (pos 4) && eqb_ℤ r.consecutive_scale_ups (pos 1))
                (λ four. aside c _ _ _ _ _ _ (forced (pos 4) (pos 8) (ground arith) (omega arith)))
                (λ not_four. h)))
