-- ===== src/Manager/Lifecycle/Averages.antt =====
-- pkg/manager/manager.go: the average processing time that handleResult keeps.
use lemmings.Common.{
  true, neg_part_zero, ℕ, ◌+◌, ◌/◌, ◌≤◌, ◌<◌, ◌≡◌, refl, ap, ◌∙◌, List, [], ◌∷◌, pos, ◌+ℤ◌, ◌≤ℤ◌,
  int64, int64_id, ltb_ℤ, quot_ℤ, pos_part, length, arith, int_laws,
}
use lemmings.Manager.Lifecycle.{ManagerStats, no_stats, count_submitted, count_result}
use lemmings.Manager.Lifecycle.Accounting.{
  Event, submitted, handled, account, successes, account_lem,
}

-- Where a task has completed, the average is the quotient of the other two.
abbrev pub IsAveraged : ManagerStats → Type 0
IsAveraged s =
    ltb_ℤ (pos 0) s.tasks_completed ≡ true
    → s.avg_process_time ≡ quot_ℤ s.total_task_time (pos_part s.tasks_completed)

module _ {W V C K : Type 0} where
  -- The nanoseconds that the results report, successes and failures together.
  abbrev pub spent : List (Event W V C K) → ℕ
  spent [] = 0
  spent (submitted ∷ es) = spent es
  spent (handled r ∷ es) = pos_part r.duration + spent es

  abbrev pub IsTimed : List (Event W V C K) → Type 0
  IsTimed [] = Unit
  IsTimed (submitted ∷ es) = IsTimed es
  IsTimed (handled r ∷ es) = (pos 0 ≤ℤ r.duration) × IsTimed es

  spent-account :
      (n : ℕ) (es : List (Event W V C K)) (s : ManagerStats)
      → IsTimed es
      → n + spent es ≤ 9223372036854775807
      → s.total_task_time ≡ pos n
      → (account es s).total_task_time ≡ pos (n + spent es)
  unfolding account count_submitted count_result
  spent-account n [] s t h e = e ∙ omega int_laws
  spent-account n (submitted ∷ es) s t h e = spent-account n es (count_submitted s) t h e
  spent-account n (handled r ∷ es) s t h e =
      let d = pos_part r.duration in
      let sum : s.total_task_time +ℤ r.duration ≡ pos (n + d) =
        rw e (omega (int_laws, neg_part_zero r.duration t.0)) in
      let fits = int64_id (pos (n + d)) (omega arith) in
      let counted : (count_result r s).total_task_time ≡ pos (n + d) = ap int64 sum ∙ fits in
      spent-account (n + d) es (count_result r s) t.1 (omega arith) counted ∙ omega int_laws

  account-IsAveraged :
      (es : List (Event W V C K)) (s : ManagerStats) → IsAveraged s → IsAveraged (account es s)
  unfolding account count_submitted count_result
  account-IsAveraged [] s g = g
  account-IsAveraged (submitted ∷ es) s g = account-IsAveraged es (count_submitted s) g
  account-IsAveraged (handled r ∷ es) s g =
      account-IsAveraged es (count_result r s) (λ some_done. rw some_done refl)

  -- After fewer than 2 ^ 31 submissions and results whose durations are not negative and add up to
  -- less than 2 ^ 63, one of them a success, the average time is the sum of all durations, those of
  -- failed tasks included, divided by the number of successes.
  pub average_lem :
      (es : List (Event W V C K))
      → length es ≤ 2147483647
      → IsTimed es
      → spent es ≤ 9223372036854775807
      → 0 < successes es
      → (account es no_stats).avg_process_time ≡ pos (spent es / successes es)
  unfolding quot_ℤ
  average_lem es h t fits done =
      let s = account es no_stats in
      let g = account_lem es h in
      let total : s.total_task_time ≡ pos (0 + spent es) =
        spent-account 0 es no_stats t (omega arith) refl in
      let none_before : 0 + spent es ≡ spent es = omega arith in
      let some_done : ltb_ℤ (pos 0) s.tasks_completed ≡ true = rw g.completed_is (ground arith) in
      let unset : IsAveraged no_stats = λ e. ground arith in
      account-IsAveraged es no_stats unset some_done ∙ rw (total, g.completed_is, none_before) refl
