-- ===== src/Utils/Monitor/Cleanups.antt =====
-- internal/utils/resource.go: how often the monitor cleans up.
use lemmings.Common.{
  ◌⊎◌, sym, ◌≡◌, refl, subst, inl, inr, ◌&&◌, Bool, Bool-cases, true, false, List, [], ◌∷◌, All, ℤ,
  pos, ◌-ℤ◌, ◌<ℤ◌, ◌≤ℤ◌, int64_id, ltb_ℤ, arith, int_laws,
}
use lemmings.Utils.Floats.{Floats}
use lemmings.Utils.Stats.{current_stats}
use lemmings.Utils.Monitor.{ResourceMonitor, Tick, since, monitor_memory, tick, start}

-- The time of a clock that has not passed the limit of an int64.
abbrev pub IsTime : ℤ → Type 0
IsTime t = (pos 0 ≤ℤ t) × (t ≤ℤ pos 9223372036854775807)

abbrev pub IsTimely : Tick → Type 0
IsTimely t = IsTime t.now × IsTime t.done

-- Each cleanup begins more than the interval after the end of the one before it.
abbrev pub IsSpaced : ℤ → ℤ → List Tick → Type 0
IsSpaced interval last [] = Unit
IsSpaced interval last (t ∷ ts) = (interval <ℤ t.now -ℤ last) × IsSpaced interval t.done ts

second : (a b : Bool) → a && b ≡ true → b ≡ true
second a b h = ground arith

longer : (a b : ℤ) → ltb_ℤ a b ≡ true → a <ℤ b
longer a b h = ground arith

module _ (floats : Floats) where
  open floats use {Float, lt}

  tick-cases :
      (t : Tick) (m : ResourceMonitor Float)
      → IsTimely t
      → IsTime m.last_cleanup
      → ((tick floats t m).1 ≡ true)
          × ((tick floats t m).0.last_cleanup ≡ t.done)
          × ((tick floats t m).0.min_cleanup_interval ≡ m.min_cleanup_interval)
          × (m.min_cleanup_interval <ℤ t.now -ℤ m.last_cleanup)
        ⊎ (((tick floats t m).1 ≡ false)
            × ((tick floats t m).0.last_cleanup ≡ m.last_cleanup)
            × ((tick floats t m).0.min_cleanup_interval ≡ m.min_cleanup_interval))
  unfolding tick monitor_memory
  tick-cases t m timely past =
      let due = ltb_ℤ m.min_cleanup_interval (since t.now m.last_cleanup) in
      let high = lt m.cleanup_threshold (current_stats floats t.sample).usage_percent in
      let exact : since t.now m.last_cleanup ≡ t.now -ℤ m.last_cleanup =
        int64_id (t.now -ℤ m.last_cleanup)
          (omega (int_laws, timely.0, past), omega (int_laws, timely.0, past)) in
      elim (Bool-cases (high && due)) [
        | inl on ↦
            let is_due : due ≡ true = second high due on in
            inl (
              rw on refl,
              rw on refl,
              rw on refl,
              subst (λ d. m.min_cleanup_interval <ℤ d) exact
                  (longer m.min_cleanup_interval (since t.now m.last_cleanup) is_due),
            )
        | inr off ↦ inr (rw off refl, rw off refl, rw off refl)
      ]

  -- However long the monitor runs, as long as its clock gives times from 0 to the largest int64, a cleanup
  -- begins only when more than the minimum interval has passed since the end of the one before it, or
  -- since the time with which the monitor began.
  pub cleanups-IsSpaced :
      (ts : List Tick) (m : ResourceMonitor Float)
      → IsTime m.last_cleanup
      → All IsTimely ts
      → IsSpaced m.min_cleanup_interval m.last_cleanup (start floats ts m).1
  unfolding start
  cleanups-IsSpaced [] m past timely = tt
  cleanups-IsSpaced (t ∷ ts) m past timely =
      let m₁ = (tick floats t m).0 in
      let later : (d : ℤ)
          → m₁.last_cleanup ≡ d
          → m₁.min_cleanup_interval ≡ m.min_cleanup_interval
          → IsTime d
          → IsSpaced m.min_cleanup_interval d (start floats ts m₁).1 =
        λ d last interval time.
          subst (λ i. IsSpaced i d (start floats ts m₁).1) interval
            (subst (λ e. IsSpaced m₁.min_cleanup_interval e (start floats ts m₁).1) last
              (cleanups-IsSpaced ts m₁ (subst IsTime (sym last) time) timely.1)) in
      elim (tick-cases t m timely.0 past) [
        | inl (cleaned, last, interval, apart) ↦
            rw cleaned (apart, later t.done last interval timely.0.1)
        | inr (idle, last, interval) ↦ rw idle (later m.last_cleanup last interval past)
      ]
