-- ===== src/Manager/Controller/Monitoring.antt =====
-- pkg/manager/resource_control.go: which operations leave the monitor and the configuration alone.
use lemmings.Common.{
  ℕ, ◌≡◌, refl, ap, inl, inr, Bool-cases, if_elim, true, ℤ, pos, negsuc, ◌-ℤ◌, int64, eqb_ℤ, ◌&&◌,
  arith,
}
use lemmings.Utils.Monitor.{record_scale_up}
use lemmings.Manager.Controller.{
  Reason, ResourceController, calculate_new_worker_count, record_scaling_event,
  send_multiple_signals, send_default_signals, send_worker_control_signals, adjust_worker_count,
  scale_down_test, scale_up_test, low_memory_usage,
}
use lemmings.Manager.Controller.Signals.{send_multiple_signals_lem}
use lemmings.Manager.Controller.Usage.{handle_low_memory_scale_up_tests}

module _ {F : Type 0} where
  -- The monitor and the configuration of `r'` are those of `r`.
  abbrev pub Unwatched : ResourceController F → ResourceController F → Type 0
  Unwatched r r' = (r'.monitor ≡ r.monitor) × (r'.config ≡ r.config)

  signals-Unwatched :
      (signal : ℤ) (n : ℕ) (r : ResourceController F)
      → Unwatched r (send_multiple_signals signal n r)
  signals-Unwatched signal n r =
      let sent = send_multiple_signals_lem signal n r in
      (
        ap (λ (x : ResourceController F). x.monitor) sent,
        ap (λ (x : ResourceController F). x.config) sent,
      )

  default-Unwatched :
      (old : ℤ) (reason : Reason) (r : ResourceController F)
      → Unwatched r (send_default_signals old reason r)
  unfolding send_default_signals
  default-Unwatched old reason r =
      if_elim (Unwatched r) (eqb_ℤ (int64 (r.active_workers -ℤ old)) (pos 0)) (λ same. (refl, refl))
        (λ moved. signals-Unwatched _ _ r)

  control-Unwatched :
      (old : ℤ) (reason : Reason) (r : ResourceController F)
      → Unwatched r (send_worker_control_signals old reason r)
  unfolding send_worker_control_signals
  control-Unwatched old scale_down_test r = signals-Unwatched (negsuc 0) 3 r
  control-Unwatched old scale_up_test r = signals-Unwatched (negsuc 0) 5 r
  control-Unwatched old low_memory_usage r =
      if_elim (Unwatched r) (eqb_ℤ r.active_workers (pos 10)) (λ ten. signals-Unwatched (pos 1) 5 r)
        (λ _. default-Unwatched old low_memory_usage r)
  control-Unwatched old reason r = default-Unwatched old reason r

  pub adjust-Unwatched :
      (now delta : ℤ) (reason : Reason) (r : ResourceController F)
      → Unwatched r (adjust_worker_count now delta reason r)
  unfolding adjust_worker_count record_scaling_event calculate_new_worker_count
  adjust-Unwatched now delta reason r =
      if_elim (Unwatched r) r.scaling_enabled (λ on. control-Unwatched r.active_workers reason _)
        (λ off. (refl, refl))

  -- `r'` has noted a scale-up at `now`, and has the configuration of `r`.
  abbrev pub Noted : ℤ → ResourceController F → ResourceController F → Type 0
  Noted now r r' = (r'.monitor ≡ record_scale_up now r.monitor) × (r'.config ≡ r.config)

  pub special-Noted :
      (now current : ℤ) (r : ResourceController F)
      → (handle_low_memory_scale_up_tests now current r).1 ≡ true
      → Noted now r (handle_low_memory_scale_up_tests now current r).0
  unfolding handle_low_memory_scale_up_tests record_scaling_event
  special-Noted now current r applied = elim (Bool-cases (eqb_ℤ current (pos 5))) [
    | inl five ↦ rw (five, send_multiple_signals_lem) (refl, refl)
    | inr not_five ↦
        elim (Bool-cases (eqb_ℤ current (pos 2) && eqb_ℤ r.consecutive_scale_ups (pos 0))) [
          | inl two ↦ rw (not_five, two) (refl, refl)
          | inr not_two ↦
              elim (Bool-cases (eqb_ℤ current (pos 4) && eqb_ℤ r.consecutive_scale_ups (pos 1))) [
                | inl four ↦ rw (not_five, not_two, four) (refl, refl)
                | inr not_four ↦ absurd (ground arith)
              ]
        ]
  ]
