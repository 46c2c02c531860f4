-- ===== src/Utils/Stats.antt =====
-- internal/utils/metrics.go. What runtime.ReadMemStats, runtime.NumGoroutine and time.Now answer during
-- an update is its argument; times are in nanoseconds, and the zero Time is `none`. The mutex makes a
-- method one step.
pub mod History
pub mod Trend
use lemmings.Common.{
  ℕ, zero, suc, ◌+◌, ◌-◌, ◌%◌, Option, none, some, Bool, true, false, ◌&&◌, ◌||◌, List, [], ◌∷◌,
  ◌++◌, length, drop, ℤ, pos, negsuc, ltb, leb, leb_ℤ, ltb_ℤ, if◌then◌else◌,
}
use lemmings.Utils.Floats.{Floats}

pub record MemStats (F : Type 0) : Type 0 where
  pub usage_percent : F
  pub allocated_bytes : ℕ
  pub system_bytes : ℕ
  pub gc_pause_time_ns : ℕ
  pub last_gc_time : Option ℤ
  pub num_gc : ℕ
  pub last_collection_ms : F
  pub heap_objects : ℕ
  pub heap_in_use_bytes : ℕ
  pub stack_in_use_bytes : ℕ
  pub m_span_in_use_bytes : ℕ
  pub m_cache_in_use_bytes : ℕ
  pub buck_hash_sys_bytes : ℕ
  pub gc_sys_bytes : ℕ
  pub other_sys_bytes : ℕ
  pub next_gc_size_bytes : ℕ
  pub last_sample_time : Option ℤ
  pub total_alloc_bytes : ℕ
  pub total_allocs_count : ℕ
  pub total_frees_count : ℕ
  pub pause_total_ns : ℕ

-- runtime.MemStats, as far as it is read.
pub record RuntimeStats : Type 0 where
  pub alloc : ℕ
  pub sys : ℕ
  pub last_gc : ℕ
  pub pause_ns : ℕ → ℕ
  pub num_gc : ℕ
  pub heap_objects : ℕ
  pub heap_inuse : ℕ
  pub stack_inuse : ℕ
  pub m_span_inuse : ℕ
  pub m_cache_inuse : ℕ
  pub buck_hash_sys : ℕ
  pub gc_sys : ℕ
  pub other_sys : ℕ
  pub next_gc : ℕ
  pub total_alloc : ℕ
  pub mallocs : ℕ
  pub frees : ℕ
  pub pause_total_ns : ℕ

-- The answers during one update: the clock is read for the time of the last collection, if that is too
-- large, for the sample and at the end.
pub record Sample : Type 0 where
  pub memory : RuntimeStats
  pub goroutines : ℤ
  pub fallback_time : ℤ
  pub sample_time : ℤ
  pub update_time : ℤ

pub record SystemStats (F : Type 0) : Type 0 where
  pub cpu_usage : F
  pub memory_stats : MemStats F
  pub num_goroutine : ℤ
  pub last_update : ℤ
  pub memory_history : List (MemStats F)
  pub goroutine_history : List ℤ
  pub max_history_entries : ℤ

-- A new entry of a history of at most so many; `none` is the panic of slicing off the first entry of an
-- empty one.
unfoldable pub remember : {A : Type 0} → ℤ → List A → A → Option (List A)
remember most [] x = if leb_ℤ most (pos 0) then none else some (x ∷ [])
remember most (y ∷ ys) x =
    some (if leb_ℤ most (pos (suc (length ys))) then ys ++ x ∷ [] else y ∷ ys ++ x ∷ [])

-- The index into PauseNs: `(ms.NumGC+255)%256` on an uint32.
unfoldable last_pause : RuntimeStats → ℕ
last_pause ms = ms.pause_ns ((ms.num_gc + 255) % 4294967296 % 256)

-- lastGCTime
unfoldable last_gc_time : RuntimeStats → ℤ → Option ℤ
last_gc_time ms now =
    if ltb 0 ms.last_gc
    then some (if leb ms.last_gc 9223372036854775807 then pos ms.last_gc else now)
    else none

module _ (floats : Floats) where
  open floats use {Float, lt, le, tenths, plus, minus, times, over, of_int}

  -- `float64(a) / float64(b) * 100`
  unfoldable pub percentage : ℕ → ℕ → Float
  percentage a b = times (over (of_int (pos a)) (of_int (pos b))) (tenths (pos 1000))

  zero_stats : MemStats Float
  zero_stats = record {
    usage_percent = tenths (pos 0);
    allocated_bytes = 0;
    system_bytes = 0;
    gc_pause_time_ns = 0;
    last_gc_time = none;
    num_gc = 0;
    last_collection_ms = tenths (pos 0);
    heap_objects = 0;
    heap_in_use_bytes = 0;
    stack_in_use_bytes = 0;
    m_span_in_use_bytes = 0;
    m_cache_in_use_bytes = 0;
    buck_hash_sys_bytes = 0;
    gc_sys_bytes = 0;
    other_sys_bytes = 0;
    next_gc_size_bytes = 0;
    last_sample_time = none;
    total_alloc_bytes = 0;
    total_allocs_count = 0;
    total_frees_count = 0;
    pause_total_ns = 0;
  }

  -- NewSystemStats, at the given time
  unfoldable pub new_system_stats : ℤ → SystemStats Float
  unfolding zero_stats
  new_system_stats now = record {
    cpu_usage = tenths (pos 0);
    memory_stats = zero_stats;
    num_goroutine = pos 0;
    last_update = now;
    memory_history = [];
    goroutine_history = [];
    max_history_entries = pos 100;
  }

  -- currentStats
  unfoldable pub current_stats : Sample → MemStats Float
  unfolding percentage last_gc_time last_pause
  current_stats x =
      let ms = x.memory in
      record {
        usage_percent = percentage ms.alloc ms.sys;
        allocated_bytes = ms.alloc;
        system_bytes = ms.sys;
        gc_pause_time_ns = last_pause ms;
        last_gc_time = last_gc_time ms x.fallback_time;
        num_gc = ms.num_gc;
        last_collection_ms =
            if ltb 0 ms.num_gc
            then over (of_int (pos (last_pause ms))) (tenths (pos 10000000))
            else tenths (pos 0);
        heap_objects = ms.heap_objects;
        heap_in_use_bytes = ms.heap_inuse;
        stack_in_use_bytes = ms.stack_inuse;
        m_span_in_use_bytes = ms.m_span_inuse;
        m_cache_in_use_bytes = ms.m_cache_inuse;
        buck_hash_sys_bytes = ms.buck_hash_sys;
        gc_sys_bytes = ms.gc_sys;
        other_sys_bytes = ms.other_sys;
        next_gc_size_bytes = ms.next_gc;
        last_sample_time = some x.sample_time;
        total_alloc_bytes = ms.total_alloc;
        total_allocs_count = ms.mallocs;
        total_frees_count = ms.frees;
        pause_total_ns = ms.pause_total_ns;
      }

  -- UpdateMemStats
  unfoldable pub update_mem_stats : Sample → SystemStats Float → Option (SystemStats Float)
  unfolding current_stats remember
  update_mem_stats x s =
      let memory = remember s.max_history_entries s.memory_history (current_stats x) in
      let goroutines = remember s.max_history_entries s.goroutine_history x.goroutines in
      elim memory [
        | none ↦ none
        | some memory_history ↦ elim goroutines [
          | none ↦ none
          | some goroutine_history ↦ some (record s {
            memory_stats = current_stats x;
            num_goroutine = x.goroutines;
            memory_history = memory_history;
            goroutine_history = goroutine_history;
            last_update = x.update_time;
          })
        ]
      ]

  -- GetMemUsagePercent, GetMemStats, GetNumGoroutine, GetMemoryHistory and GetGoroutineHistory
  unfoldable pub get_mem_usage_percent : SystemStats Float → Float
  get_mem_usage_percent s = s.memory_stats.usage_percent

  unfoldable pub get_mem_stats : SystemStats Float → MemStats Float
  get_mem_stats s = s.memory_stats

  unfoldable pub get_num_goroutine : SystemStats Float → ℤ
  get_num_goroutine s = s.num_goroutine

  unfoldable pub get_memory_history : SystemStats Float → List (MemStats Float)
  get_memory_history s = s.memory_history

  unfoldable pub get_goroutine_history : SystemStats Float → List ℤ
  get_goroutine_history s = s.goroutine_history

  -- SuggestGC
  unfoldable pub suggest_gc : Float → SystemStats Float → Bool
  suggest_gc threshold s =
      lt threshold s.memory_stats.usage_percent
      || (ltb_ℤ (pos 10000) s.num_goroutine && ltb 100000 s.memory_stats.heap_objects)

  -- GetSimpleMemUsagePercent
  unfoldable pub get_simple_mem_usage_percent : RuntimeStats → Float
  unfolding percentage
  get_simple_mem_usage_percent m = percentage m.alloc m.sys
