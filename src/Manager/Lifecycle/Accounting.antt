-- ===== src/Manager/Lifecycle/Accounting.antt =====
-- pkg/manager/manager.go: the statistics after any sequence of submissions and results.
use lemmings.Common.{
  ℕ, suc, ◌+◌, ◌≤◌, ◌<◌, ◌≡◌, refl, sym, ap, subst, ◌∙◌, Option, Option-cases, none, some, inl, inr,
  List, [], ◌∷◌, pos, negsuc, ◌+ℤ◌, ◌-ℤ◌, int64, int32, int64_id, int32_id, length, arith, int_laws,
}
use lemmings.Worker.Errors.{Error}
use lemmings.Worker.Exec.{Result}
use lemmings.Manager.Lifecycle.{ManagerStats, no_stats, count_submitted, count_result}

-- What changes the statistics: the end of a Submit, or a result.
pub data Event (W V C K : Type 0) : Type 0 where
  submitted : Event W V C K
  handled : Result W V C K → Event W V C K

abbrev pub no_error : Option Error → ℕ
no_error none = 1
no_error (some e) = 0

abbrev pub an_error : Option Error → ℕ
an_error none = 0
an_error (some e) = 1

module _ {W V C K : Type 0} where
  -- The events, oldest first, counted into the statistics.
  unfoldable pub account : List (Event W V C K) → ManagerStats → ManagerStats
  account [] s = s
  account (submitted ∷ es) s = account es (count_submitted s)
  account (handled r ∷ es) s = account es (count_result r s)

  abbrev pub submissions : List (Event W V C K) → ℕ
  submissions [] = 0
  submissions (submitted ∷ es) = suc (submissions es)
  submissions (handled r ∷ es) = submissions es

  -- The results without an error, and those with one.
  abbrev pub successes : List (Event W V C K) → ℕ
  successes [] = 0
  successes (submitted ∷ es) = successes es
  successes (handled r ∷ es) = no_error r.err + successes es

  abbrev pub failures : List (Event W V C K) → ℕ
  failures [] = 0
  failures (submitted ∷ es) = failures es
  failures (handled r ∷ es) = an_error r.err + failures es

-- The statistics `s` after `a` submissions, `b` successes and `c` failures.
pub record Counted (a b c : ℕ) (s : ManagerStats) : Type 0 where
  pub submitted_is : s.tasks_submitted ≡ pos a
  pub completed_is : s.tasks_completed ≡ pos b
  pub failed_is : s.tasks_failed ≡ pos c
  pub in_progress_is : s.tasks_in_progress ≡ pos a -ℤ pos (b + c)

Counted-same :
    {a b c a' b' c' : ℕ} {s : ManagerStats}
    → Counted a b c s
    → a ≡ a'
    → b ≡ b'
    → c ≡ c'
    → Counted a' b' c' s
Counted-same {s = s} g i j k = rw⁻¹ (i, j, k) g

pub int64-suc : (n : ℕ) → n < 9223372036854775807 → int64 (pos n +ℤ pos 1) ≡ pos (suc n)
int64-suc n h = int64_id (pos n +ℤ pos 1) (omega int_laws) ∙ omega int_laws

int32_up :
    (a n : ℕ)
    → a < 2147483647
    → n ≤ 2147483647
    → int32 (pos a -ℤ pos n +ℤ pos 1) ≡ pos (suc a) -ℤ pos n
int32_up a n h k = int32_id (pos a -ℤ pos n +ℤ pos 1) (omega int_laws) ∙ omega int_laws

int32_down :
    (a n : ℕ)
    → a ≤ 2147483647
    → n < 2147483647
    → int32 (pos a -ℤ pos n +ℤ negsuc 0) ≡ pos a -ℤ pos (suc n)
int32_down a n h k = int32_id (pos a -ℤ pos n +ℤ negsuc 0) (omega int_laws) ∙ omega int_laws

Counted-submitted :
    (a b c : ℕ) (s : ManagerStats)
    → a + b + c < 2147483647
    → Counted a b c s
    → Counted (suc a) b c (count_submitted s)
unfolding count_submitted
Counted-submitted a b c s h g = record {
  submitted_is = rw g.submitted_is (int64-suc a (omega arith));
  completed_is = g.completed_is;
  failed_is = g.failed_is;
  in_progress_is = rw g.in_progress_is (int32_up a (b + c) (omega arith) (omega arith));
}

module _ {W V C K : Type 0} where
  Counted-success :
      (a b c : ℕ) (s : ManagerStats) (r : Result W V C K)
      → a + b + c < 2147483647
      → r.err ≡ none
      → Counted a b c s
      → Counted a (suc b) c (count_result r s)
  unfolding count_result
  Counted-success a b c s r h ok g =
      let next : suc (b + c) ≡ suc b + c = omega arith in
      rw ok (record {
        submitted_is = g.submitted_is;
        completed_is = rw g.completed_is (int64-suc b (omega arith));
        failed_is = g.failed_is;
        in_progress_is =
            rw g.in_progress_is
              (int32_down a (b + c) (omega arith) (omega arith) ∙ ap (λ n. pos a -ℤ pos n) next);
      })

  Counted-failure :
      (a b c : ℕ) (s : ManagerStats) (r : Result W V C K) {e : Error}
      → a + b + c < 2147483647
      → r.err ≡ some e
      → Counted a b c s
      → Counted a b (suc c) (count_result r s)
  unfolding count_result
  Counted-failure a b c s r h failed g =
      let next : suc (b + c) ≡ b + suc c = omega arith in
      rw failed (record {
        submitted_is = g.submitted_is;
        completed_is = g.completed_is;
        failed_is = rw g.failed_is (int64-suc c (omega arith));
        in_progress_is =
            rw g.in_progress_is
              (int32_down a (b + c) (omega arith) (omega arith) ∙ ap (λ n. pos a -ℤ pos n) next);
      })

  Counted-handled :
      (a b c : ℕ) (s : ManagerStats) (r : Result W V C K)
      → a + b + c < 2147483647
      → Counted a b c s
      → Counted a (b + no_error r.err) (c + an_error r.err) (count_result r s)
  Counted-handled a b c s r h g =
      let counts =
        λ (e : Option Error). Counted a (b + no_error e) (c + an_error e) (count_result r s) in
      elim (Option-cases r.err) [
        | inl ok ↦
            subst counts (sym ok)
              (Counted-same (Counted-success a b c s r h ok g) refl (omega arith) (omega arith))
        | inr (e, failed) ↦
            subst counts (sym failed)
              (Counted-same (Counted-failure a b c s r h failed g) refl (omega arith) (omega arith))
      ]

  Counted-account :
      (a b c : ℕ) (es : List (Event W V C K)) (s : ManagerStats)
      → a + b + c + length es ≤ 2147483647
      → Counted a b c s
      → Counted (a + submissions es) (b + successes es) (c + failures es) (account es s)
  unfolding account
  Counted-account a b c [] s h g = Counted-same g (omega arith) (omega arith) (omega arith)
  Counted-account a b c (submitted ∷ es) s h g =
      Counted-same
        (Counted-account (suc a) b c es _ (omega arith) (Counted-submitted a b c s (omega arith) g))
        (omega arith) refl refl
  Counted-account a b c (handled r ∷ es) s h g =
      let one : no_error r.err + an_error r.err ≡ 1 = ground arith in
      Counted-same
        (Counted-account a (b + no_error r.err) (c + an_error r.err) es _ (omega arith)
          (Counted-handled a b c s r (omega arith) g))
        refl (omega arith) (omega arith)

  -- After any sequence of fewer than 2 ^ 31 submissions and results, in whatever order, the counters
  -- of a new manager are the numbers of submissions, of results without an error and of results with
  -- one, and the tasks in progress are the submissions less all results.
  pub account_lem :
      (es : List (Event W V C K))
      → length es ≤ 2147483647
      → Counted (submissions es) (successes es) (failures es) (account es no_stats)
  account_lem es h =
      Counted-same
        (Counted-account 0 0 0 es no_stats (omega arith) (record {
          submitted_is = refl;
          completed_is = refl;
          failed_is = refl;
          in_progress_is = omega int_laws;
        }))
        (omega arith) (omega arith) (omega arith)
