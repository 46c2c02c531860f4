-- ===== src/Utils/Stats/History.antt =====
-- internal/utils/metrics.go: the histories that UpdateMemStats keeps.
use lemmings.Common.{
  subst, ◌<◌, ℕ, zero, suc, ◌-◌, ◌≤◌, ◌≡◌, refl, sym, ap, ◌∙◌, Option, none, some, true, false,
  List, [], ◌∷◌, ◌++◌, map, length, length-append, drop, ℤ, pos, leb, if_elim, if◌then◌else◌, arith,
}
use mathlib.Core.List.{map-append, append_assoc, append-nil}
use lemmings.Utils.Floats.{Floats}
use lemmings.Utils.Stats.{
  Sample, SystemStats, remember, new_system_stats, current_stats, update_mem_stats,
}

-- The reference: the last entries, at most so many.
abbrev pub latest : {A : Type 0} → ℕ → List A → List A
latest n xs = drop (length xs - n) xs

leb→le : (a b : ℕ) → leb a b ≡ true → a ≤ b
leb→le a b h = ground arith

gt_of_leb : (a b : ℕ) → leb a b ≡ false → b < a
gt_of_leb a b h = ground arith

module _ {A : Type 0} where
  drop-drop : (k : ℕ) (xs : List A) → drop 1 (drop k xs) ≡ drop (suc k) xs
  drop-drop zero xs = refl
  drop-drop (suc k) [] = refl
  drop-drop (suc k) (x ∷ xs) = drop-drop k xs

  drop-append : (k : ℕ) (xs ys : List A) → k ≤ length xs → drop k (xs ++ ys) ≡ drop k xs ++ ys
  drop-append zero xs ys h = refl
  drop-append (suc k) [] ys h = absurd (omega arith)
  drop-append (suc k) (x ∷ xs) ys h = drop-append k xs ys (omega arith)

  length-drop : (k : ℕ) (xs : List A) → length (drop k xs) ≡ length xs - k
  length-drop zero xs = omega arith
  length-drop (suc k) [] = omega arith
  length-drop (suc k) (x ∷ xs) = omega (arith, length-drop k xs)

  remembered :
      (n : ℕ) (h : List A) (x : A)
      → remember (pos (suc n)) h x
        ≡ some (if leb (suc n) (length h) then drop 1 h ++ x ∷ [] else h ++ x ∷ [])
  unfolding remember
  remembered n [] x = ground arith
  remembered n (y ∷ ys) x = ground arith

  latest-append :
      (n : ℕ) (xs : List A) (x : A)
      → remember (pos (suc n)) (latest (suc n) xs) x ≡ some (latest (suc n) (xs ++ x ∷ []))
  latest-append n xs x =
      let grown = length-append xs (x ∷ []) in
      let kept = length-drop (length xs - suc n) xs in
      remembered n (latest (suc n) xs) x
      ∙ ap some (
          if_elim (λ l. l ≡ latest (suc n) (xs ++ x ∷ []))
            (leb (suc n) (length (latest (suc n) xs)))
            (λ full.
              let more : length (xs ++ x ∷ []) - suc n ≡ suc (length xs - suc n) =
                omega (arith, grown, kept, leb→le _ _ full) in
              ap (λ l. l ++ x ∷ []) (drop-drop (length xs - suc n) xs)
              ∙ sym (
                  drop-append (suc (length xs - suc n)) xs (x ∷ [])
                    (omega (arith, kept, leb→le _ _ full)))
              ∙ ap (λ k. drop k (xs ++ x ∷ [])) (sym more))
            (λ room.
              let none_left : length xs - suc n ≡ 0 = omega (arith, kept, gt_of_leb _ _ room) in
              let still : length (xs ++ x ∷ []) - suc n ≡ 0 =
                omega (arith, grown, kept, gt_of_leb _ _ room) in
              ap (λ k. drop k xs ++ x ∷ []) none_left
              ∙ ap (λ k. drop k (xs ++ x ∷ [])) (sym still)))

module _ (floats : Floats) where
  open floats use {Float}

  -- UpdateMemStats, with each of the samples in turn.
  abbrev pub updates : List Sample → SystemStats Float → Option (SystemStats Float)
  updates [] s = some s
  updates (x ∷ xs) s = elim (update_mem_stats floats x s) [ none ↦ none | some t ↦ updates xs t ]

  -- The histories are those of the given samples.
  record Remembers (xs : List Sample) (s : SystemStats Float) : Type 0 where
    entries : s.max_history_entries ≡ pos 100
    memory : s.memory_history ≡ latest 100 (map (current_stats floats) xs)
    goroutines : s.goroutine_history ≡ latest 100 (map (λ (x : Sample). x.goroutines) xs)

  update_mem_stats-Remembers :
      (xs : List Sample) (x : Sample) (s : SystemStats Float)
      → Remembers xs s
      → (t : SystemStats Float) × (update_mem_stats floats x s ≡ some t)
        × Remembers (xs ++ x ∷ []) t
  unfolding update_mem_stats
  update_mem_stats-Remembers xs x s r =
      let memory =
        latest-append 99 (map (current_stats floats) xs) (current_stats floats x)
        ∙ ap (λ l. some (latest 100 l)) (sym (map-append (current_stats floats) xs (x ∷ []))) in
      let goroutines =
        latest-append 99 (map (λ (y : Sample). y.goroutines) xs) x.goroutines
        ∙ ap (λ l. some (latest 100 l))
            (sym (map-append (λ (y : Sample). y.goroutines) xs (x ∷ []))) in
      let recorded : remember s.max_history_entries s.memory_history (current_stats floats x)
          ≡ some (latest 100 (map (current_stats floats) (xs ++ x ∷ []))) =
        rw (r.entries, r.memory) memory in
      let counted : remember s.max_history_entries s.goroutine_history x.goroutines
          ≡ some (latest 100 (map (λ (y : Sample). y.goroutines) (xs ++ x ∷ []))) =
        rw (r.entries, r.goroutines) goroutines in
      (
        record s {
          memory_stats = current_stats floats x;
          num_goroutine = x.goroutines;
          memory_history = latest 100 (map (current_stats floats) (xs ++ x ∷ []));
          goroutine_history = latest 100 (map (λ (y : Sample). y.goroutines) (xs ++ x ∷ []));
          last_update = x.update_time;
        },
        rw (recorded, counted, update_mem_stats) refl,
        record { entries = r.entries; memory = refl; goroutines = refl },
      )

  updates-Remembers :
      (xs ys : List Sample) (s : SystemStats Float)
      → Remembers xs s
      → (t : SystemStats Float) × (updates ys s ≡ some t) × Remembers (xs ++ ys) t
  updates-Remembers xs [] s r = (s, refl, subst (λ l. Remembers l s) (sym (append-nil xs)) r)
  updates-Remembers xs (y ∷ ys) s r =
      let (t, updated, r') = update_mem_stats-Remembers xs y s r in
      let (u, rest, r'') = updates-Remembers (xs ++ y ∷ []) ys t r' in
      (u, rw (updated, updates) rest, subst (λ l. Remembers l u) (append_assoc xs (y ∷ []) ys) r'')

  -- Any number of updates of new SystemStats succeed, and leave as histories the memory statistics and the
  -- numbers of goroutines of the latest hundred samples, oldest first.
  pub updates_lem :
      (now : ℤ) (xs : List Sample)
      → (s : SystemStats Float) × (updates xs (new_system_stats floats now) ≡ some s)
        × (s.memory_history ≡ latest 100 (map (current_stats floats) xs))
        × (s.goroutine_history ≡ latest 100 (map (λ (x : Sample). x.goroutines) xs))
  unfolding new_system_stats
  updates_lem now xs =
      let (s, updated, r) =
        updates-Remembers [] xs (new_system_stats floats now)
          (record { entries = refl; memory = refl; goroutines = refl }) in
      (s, updated, r.memory, r.goroutines)
