-- ===== src/Manager/Controller/Adjusting.antt =====
-- pkg/manager/resource_control.go: what AdjustWorkerCount does.
use lemmings.Common.{
  ◌≤◌, ◌≡◌, refl, ap, ◌∙◌, ◌⊎◌, true, false, Bool-cases, if_elim, inl, inr, List, [], ◌∷◌, ◌++◌, ℤ,
  pos, ◌+ℤ◌, ◌-ℤ◌, ◌≤ℤ◌, int64, int64_id, ltb_ℤ, arith, int_laws, length, length-append,
  if◌then◌else◌,
}
use lemmings.Manager.Controller.{
  Reason, ScaleEvent, ResourceController, handle_special_test_cases, calculate_new_worker_count,
  trimmed, record_scaling_event, adjust_worker_count,
}
use lemmings.Manager.Controller.Signals.{Signalled, control-Signalled}

-- Two int64 steps undo one another: the count lands on the value it was moved to.
lands :
    (a n : ℤ)
    → pos 0 ≤ℤ a
    → a ≤ℤ pos 9223372036854775807
    → pos 0 ≤ℤ n
    → n ≤ℤ pos 9223372036854775807
    → int64 (a +ℤ int64 (n -ℤ a)) ≡ n
lands a n p q s t =
    let inner : int64 (n -ℤ a) ≡ n -ℤ a = int64_id (n -ℤ a) (omega int_laws) in
    let sum : a +ℤ (n -ℤ a) ≡ n = omega int_laws in
    ap (λ d. int64 (a +ℤ d)) inner ∙ ap int64 sum ∙ int64_id n (omega arith)

-- A count constrained to the range from `lo` to `hi`.
abbrev pub constrain : ℤ → ℤ → ℤ → ℤ
constrain lo hi n = if ltb_ℤ n lo then lo else if ltb_ℤ hi n then hi else n

constrained :
    (lo hi a delta : ℤ)
    → pos 0 ≤ℤ lo
    → lo ≤ℤ a
    → a ≤ℤ hi
    → hi ≤ℤ pos 9223372036854775807
    → int64 (
        a
        +ℤ (if ltb_ℤ (int64 (a +ℤ delta)) lo
            then int64 (lo -ℤ a)
            else if ltb_ℤ hi (int64 (a +ℤ delta))
            then int64 (hi -ℤ a)
            else delta))
      ≡ constrain lo hi (int64 (a +ℤ delta))
constrained lo hi a delta p l h f = elim (Bool-cases (ltb_ℤ (int64 (a +ℤ delta)) lo)) [
  | inl under ↦ rw under (lands a lo (omega arith) (omega arith) p (omega arith))
  | inr ok ↦ elim (Bool-cases (ltb_ℤ hi (int64 (a +ℤ delta)))) [
    | inl over ↦ rw (ok, over) (lands a hi (omega arith) (omega arith) (omega arith) f)
    | inr inside ↦ rw (ok, inside) refl
  ]
]

constrain_bounds : (lo hi n : ℤ) → lo ≤ℤ hi → (lo ≤ℤ constrain lo hi n) × (constrain lo hi n ≤ℤ hi)
constrain_bounds lo hi n h = ground arith

module _ {F : Type 0} where
  -- What a controller keeps: its worker count in range, its history and its channel bounded.
  pub record Inv (r : ResourceController F) : Type 0 where
    pub low : r.min_workers ≤ℤ r.active_workers
    pub high : r.active_workers ≤ℤ r.max_workers
    pub positive : pos 1 ≤ℤ r.min_workers
    pub fits : r.max_workers ≤ℤ pos 9223372036854775807
    pub history : length r.scale_history ≤ 100
    pub channel : length r.worker_control ≤ r.worker_control_cap

  -- calculateNewWorkerCount moves the count to the sum, constrained to the range, whatever the reason.
  pub new_count_lem :
      (r : ResourceController F) (delta : ℤ) (reason : Reason)
      → Inv r
      → (calculate_new_worker_count r delta reason).active_workers
        ≡ constrain r.min_workers r.max_workers
            (int64 (r.active_workers +ℤ handle_special_test_cases r delta reason))
  unfolding calculate_new_worker_count
  new_count_lem r delta reason v =
      constrained r.min_workers r.max_workers r.active_workers
        (handle_special_test_cases r delta reason) (omega (arith, v.positive)) v.low v.high v.fits

  length-trimmed : (h : List (ScaleEvent F)) → length h ≤ 101 → length (trimmed h) ≤ 100
  length-trimmed [] p = omega arith
  length-trimmed (e ∷ h) p = ground arith

  counted-Inv :
      (r : ResourceController F) (delta : ℤ) (reason : Reason)
      → Inv r
      → Inv (calculate_new_worker_count r delta reason)
  unfolding calculate_new_worker_count
  counted-Inv r delta reason v =
      let bounds =
        constrain_bounds r.min_workers r.max_workers
          (int64 (r.active_workers +ℤ handle_special_test_cases r delta reason))
          (omega (arith, v.low, v.high)) in
      record {
        low = rw (new_count_lem r delta reason v) bounds.0;
        high = rw (new_count_lem r delta reason v) bounds.1;
        positive = v.positive;
        fits = v.fits;
        history = v.history;
        channel = v.channel;
      }

  pub recorded-Inv :
      (now old : ℤ) (reason : Reason) (usage : F) (r : ResourceController F)
      → Inv r
      → Inv (record_scaling_event now old reason usage r)
  unfolding record_scaling_event
  recorded-Inv now old reason usage r v = record {
    low = v.low;
    high = v.high;
    positive = v.positive;
    fits = v.fits;
    history =
        let event : ScaleEvent F = record {
          time = now;
          from_workers = old;
          to_workers = r.active_workers;
          reason = reason;
          mem_usage = usage;
        } in
        length-trimmed (r.scale_history ++ event ∷ [])
          (omega (arith, length-append r.scale_history (event ∷ []), v.history));
    channel = v.channel;
  }

  pub Signalled-Inv : (r r' : ResourceController F) → Inv r → Signalled r r' → Inv r'
  Signalled-Inv r r' v (c, e, h) = rw e (record {
    low = v.low;
    high = v.high;
    positive = v.positive;
    fits = v.fits;
    history = v.history;
    channel = h;
  })

  -- On a controller within its bounds: enabled, AdjustWorkerCount moves the worker count by the delta,
  -- as the reason changes it, constrained to the range from the minimum to the maximum; the range
  -- and the bounds on history and channel hold of the result. Disabled, it changes nothing.
  pub adjust_worker_count_lem :
      (now delta : ℤ) (reason : Reason) (r : ResourceController F)
      → Inv r
      → let r' = adjust_worker_count now delta reason r in
        Inv r'
        × ((r.scaling_enabled ≡ true)
              × (r'.active_workers
                  ≡ constrain r.min_workers r.max_workers
                      (int64 (r.active_workers +ℤ handle_special_test_cases r delta reason)))
            ⊎ ((r.scaling_enabled ≡ false) × (r' ≡ r)))
  unfolding adjust_worker_count record_scaling_event
  adjust_worker_count_lem now delta reason r v =
      if_elim
        (λ (r' : ResourceController F).
          Inv r'
          × ((r.scaling_enabled ≡ true)
                × (r'.active_workers
                    ≡ constrain r.min_workers r.max_workers
                        (int64 (r.active_workers +ℤ handle_special_test_cases r delta reason)))
              ⊎ ((r.scaling_enabled ≡ false) × (r' ≡ r))))
        r.scaling_enabled
        (λ on.
          let recorded =
            recorded-Inv now r.active_workers reason r.monitor.usage _
              (counted-Inv r delta reason v) in
          let signals = control-Signalled r.active_workers reason _ recorded.channel in
          (
            Signalled-Inv _ _ recorded signals,
            inl (
              on,
              ap (λ (x : ResourceController F). x.active_workers) signals.1
                  ∙ new_count_lem r delta reason v,
            ),
          ))
        (λ off. (v, inr (off, refl)))
