-- ===== src/Manager/Controller/Signals.antt =====
-- pkg/manager/resource_control.go: the signals that AdjustWorkerCount sends.
use lemmings.Common.{
  ℕ, zero, suc, ◌-◌, ◌≤◌, ◌≡◌, refl, ap, ◌∙◌, min, Bool-cases, if_elim, inl, inr, List, [], ◌∷◌,
  ◌++◌, ℤ, pos, negsuc, ◌-ℤ◌, int64, eqb_ℤ, arith, length, length-append, length-replicate,
  replicate, ltb,
}
use mathlib.Core.List.{append-nil, append_assoc}
use lemmings.Manager.Controller.{
  Reason, ResourceController, send_multiple_signals, send_default_signals,
  send_worker_control_signals, scale_down_test, scale_up_test, low_memory_usage,
}

module _ {F : Type 0} where
  -- sendMultipleSignals fills the channel with the signal, as often as asked or until it is full, and
  -- changes nothing else.
  pub send_multiple_signals_lem :
      (signal : ℤ) (n : ℕ) (r : ResourceController F)
      → send_multiple_signals signal n r ≡ record r {
        worker_control =
            r.worker_control
            ++ replicate (min n (r.worker_control_cap - length r.worker_control)) signal;
      }
  unfolding send_multiple_signals
  send_multiple_signals_lem signal zero r =
      let none_sent : min 0 (r.worker_control_cap - length r.worker_control) ≡ 0 = omega arith in
      rw (none_sent, append-nil r.worker_control) refl
  send_multiple_signals_lem signal (suc n) r =
      let c = r.worker_control in
      elim (Bool-cases (ltb (length c) r.worker_control_cap)) [
        | inl room ↦
            let c' = c ++ signal ∷ [] in
            let left = min n (r.worker_control_cap - length c') in
            let grown = length-append c (signal ∷ []) in
            let sent : min (suc n) (r.worker_control_cap - length c) ≡ suc left =
              ground (arith, grown) in
            rw (room, sent)
              (send_multiple_signals_lem signal n (record r { worker_control = c' })
                ∙ ap (λ l. record r { worker_control = l })
                    (append_assoc c (signal ∷ []) (replicate left signal)))
        | inr full ↦
            let none_sent : min (suc n) (r.worker_control_cap - length c) ≡ 0 = ground arith in
            rw (full, none_sent, append-nil c) refl
      ]

  -- The controller with other signals in its channel, within the capacity.
  abbrev pub Signalled : ResourceController F → ResourceController F → Type 0
  Signalled r r' =
      (c : List ℤ) × (r' ≡ record r { worker_control = c }) × (length c ≤ r.worker_control_cap)

  pub send-Signalled :
      (signal : ℤ) (n : ℕ) (r : ResourceController F)
      → length r.worker_control ≤ r.worker_control_cap
      → Signalled r (send_multiple_signals signal n r)
  send-Signalled signal n r h =
      let k = min n (r.worker_control_cap - length r.worker_control) in
      (
        _,
        send_multiple_signals_lem signal n r,
        omega
            (arith, length-append r.worker_control (replicate k signal), length-replicate k signal),
      )

  default-Signalled :
      (old : ℤ) (reason : Reason) (r : ResourceController F)
      → length r.worker_control ≤ r.worker_control_cap
      → Signalled r (send_default_signals old reason r)
  unfolding send_default_signals
  default-Signalled old reason r h =
      if_elim (Signalled r) (eqb_ℤ (int64 (r.active_workers -ℤ old)) (pos 0))
        (λ same. (r.worker_control, refl, h)) (λ moved. send-Signalled _ _ r h)

  pub control-Signalled :
      (old : ℤ) (reason : Reason) (r : ResourceController F)
      → length r.worker_control ≤ r.worker_control_cap
      → Signalled r (send_worker_control_signals old reason r)
  unfolding send_worker_control_signals
  control-Signalled old scale_down_test r h = send-Signalled (negsuc 0) 3 r h
  control-Signalled old scale_up_test r h = send-Signalled (negsuc 0) 5 r h
  control-Signalled old low_memory_usage r h =
      if_elim (Signalled r) (eqb_ℤ r.active_workers (pos 10)) (λ ten. send-Signalled (pos 1) 5 r h)
        (λ _. default-Signalled old low_memory_usage r h)
  control-Signalled old reason r h = default-Signalled old reason r h
