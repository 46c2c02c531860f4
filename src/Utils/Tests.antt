-- ===== src/Utils/Tests.antt =====
-- internal/utils on concrete values; a float is a whole number of tenths.
use lemmings.Common.{
  ◌+◌, ℕ, ◌∷◌, [], ◌≡◌, refl, some, ok, ◌≤ℤ◌, ◌<ℤ◌, arith, ◌*◌, ◌/◌, ◌^◌, ℤ, pos, ◌+ℤ◌, ◌-ℤ◌, ltb_ℤ,
  leb_ℤ, pos_part,
}
use lemmings.Utils.Floats.{Floats}
use lemmings.Utils.Stats.{RuntimeStats, Sample, SystemStats, new_system_stats, current_stats}
use lemmings.Utils.Stats.History.{updates, updates_lem}
use lemmings.Utils.Monitor.{ResourceMonitor, Tick, new_resource_monitor, start}
use lemmings.Utils.Monitor.Cleanups.{IsSpaced, cleanups-IsSpaced}
use lemmings.Utils.Random.{Random, secure_intn, secure_intn_bounds}

abbrev pub tenths : Floats
tenths = record {
  Float = ℤ;
  lt = ltb_ℤ;
  le = leb_ℤ;
  tenths = λ z. z;
  plus = ◌+ℤ◌;
  minus = ◌-ℤ◌;
  over = λ a b. pos (pos_part a * 10 / pos_part b);
  pow = λ a b. pos (10 * (pos_part a / 10) ^ (pos_part b / 10));
  times = λ a b. pos (pos_part a * pos_part b / 10);
  of_int = λ z. pos (pos_part z * 10);
  to_int = λ z. pos (pos_part z / 10);
}

abbrev memory : RuntimeStats
memory = record {
  alloc = 36;
  sys = 40;
  last_gc = 0;
  pause_ns = λ i. i;
  num_gc = 1;
  heap_objects = 0;
  heap_inuse = 0;
  stack_inuse = 0;
  m_span_inuse = 0;
  m_cache_inuse = 0;
  buck_hash_sys = 0;
  gc_sys = 0;
  other_sys = 0;
  next_gc = 0;
  total_alloc = 0;
  mallocs = 0;
  frees = 0;
  pause_total_ns = 0;
}

abbrev sample : ℕ → Sample
sample n = record {
  memory = memory;
  goroutines = pos n;
  fallback_time = pos 0;
  sample_time = pos n;
  update_time = pos n;
}

history_example :
    (s : SystemStats ℤ) × (updates tenths
        (sample 1 ∷ sample 2 ∷ [])
        (new_system_stats tenths (pos 0))
      ≡ some s)
    × (s.memory_history ≡ current_stats tenths (sample 1) ∷ current_stats tenths (sample 2) ∷ [])
    × (s.goroutine_history ≡ pos 1 ∷ pos 2 ∷ [])
history_example = updates_lem tenths (pos 0) (sample 1 ∷ sample 2 ∷ [])

-- A source that always draws 0, and whose bytes make 7.
abbrev constant : Random ℕ
constant = record { int = λ k w. (ok 0, w); read = λ k w. (ok [], w); uint32 = λ b. 7 }

random_example :
    (v : ℤ) × ((secure_intn constant (pos 5_000_000_000) 0).0 ≡ ok v)
    × (pos 0 ≤ℤ v)
    × (v <ℤ pos 5_000_000_000)
    × (v <ℤ pos 4294967296)
random_example =
    secure_intn_bounds constant (pos 5_000_000_000) 0 (λ k u h. (0, refl, h)) (λ k u. ([], refl))
      (λ b. omega arith) (omega arith)

abbrev tick_at : ℕ → Tick
tick_at n = record { sample = sample n; now = pos n; done = pos (n + 1) }

abbrev monitor : ResourceMonitor ℤ
unfolding new_resource_monitor
monitor = new_resource_monitor tenths (pos 0)

cleanups_example :
    IsSpaced
      (pos 300_000_000_000)
      (pos 0)
      (start tenths (tick_at 400_000_000_000 ∷ tick_at 500_000_000_000 ∷ []) monitor).1
unfolding monitor
cleanups_example =
    cleanups-IsSpaced tenths (tick_at 400_000_000_000 ∷ tick_at 500_000_000_000 ∷ []) monitor
      (omega arith, omega arith)
      (
        ((omega arith, omega arith), (omega arith, omega arith)),
        (((omega arith, omega arith), (omega arith, omega arith)), tt),
      )
