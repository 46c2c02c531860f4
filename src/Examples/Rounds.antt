-- ===== src/Examples/Rounds.antt =====
-- examples/advanced/main.go: the rounds of ProcessMath, ProcessIO and ProcessMixed.
use lemmings.Common.{
  ℕ, zero, suc, ◌+◌, ◌≤◌, ◌<◌, ◌≡◌, refl, ap, ◌∙◌, ◌⊎◌, inl, inr, String, Option, none, some, List,
  [], ◌∷◌, map, length, ℤ, pos, ◌+ℤ◌, int64, arith,
}
use lemmings.Worker.Task.{Task}
use lemmings.Worker.Task.Dispatch
use lemmings.Manager.Lifecycle.{Manager, SubmitError}
use lemmings.Manager.Lifecycle.Submission.{Choice, submit}
use lemmings.Manager.Lifecycle.Queue.{added, submit-Submitted}
use lemmings.Manager.Lifecycle.Accounting.{int64-suc}
use lemmings.Examples.Processor.{
  TaskProcessor, failed_to_submit, Submissions, ends, crashes, submit_task, process_loop,
}

-- The names of `k` rounds from round `i` on.
abbrev pub names : (ℕ → String) → ℕ → ℕ → List String
names name i zero = []
names name i (suc k) = name i ∷ names name (suc i) k

module _ {P W V C K F : Type 0} where
  -- What `left` rounds from round `i` on do to a processor that has counted `n`: they do not panic; as many
  -- tasks as there are names before the first error go to the end of the manager's queue, in the order of
  -- the rounds, and each is counted by the manager and by the processor; the error is about the task of
  -- the next round, and there is none if that was the last.
  abbrev pub Processed :
      (ℕ → String)
      → ℕ
      → ℕ
      → ℕ
      → TaskProcessor (Manager P W V C K F)
      → Submissions (Manager P W V C K F) W
      → Type 0
  Processed name left i n tp crashes = ⊥
  Processed name left i n tp (ends tp₁ failed w) =
      (ts : List (Task W V C K)) × (length ts ≤ left)
      × (map Dispatch.id ts ≡ names name i (length ts))
      × (tp₁.manager ≡ added ts tp.manager)
      × (tp₁.total_processed ≡ pos (n + length ts))
      × ((failed ≡ none) × (length ts ≡ left)
          ⊎ ((e : SubmitError) × (failed ≡ some (failed_to_submit (name (i + length ts)) e))))

  after_one :
      (name : ℕ → String) (left i n : ℕ) (tp tp₁ : TaskProcessor (Manager P W V C K F))
      (t : Task W V C K) (r : Submissions (Manager P W V C K F) W)
      → Dispatch.id t ≡ name i
      → tp₁.manager ≡ added (t ∷ []) tp.manager
      → Processed name left (suc i) (suc n) tp₁ r
      → Processed name (suc left) i n tp r
  after_one name left i n tp tp₁ t crashes named moved h = h
  after_one name left i n tp tp₁ t (ends tp₂ failed w) named moved
        (ts, short, same_ids, same, total, end) =
      let next : suc i + length ts ≡ i + suc (length ts) = omega arith in
      (
        t ∷ ts,
        omega arith,
        ap (λ x. x ∷ map Dispatch.id ts) named ∙ ap (λ l. name i ∷ l) same_ids,
        same ∙ ap (added ts) moved,
        total ∙ ap pos (omega arith),
        elim end [
          | inl (fine, all) ↦ inl (fine, ap suc all)
          | inr (e, bad) ↦ inr (e, bad ∙ ap (λ k. some (failed_to_submit (name k) e)) next)
        ],
      )

-- Every round makes a task, whose id is its name.
abbrev pub Makes : {W V C K : Type 0} → (ℕ → W → Option (Task W V C K) × W) → (ℕ → String) → Type 0
Makes {W = W} {V = V} {C = C} {K = K} make name =
    (i : ℕ) (w : W) → (t : Task W V C K) × ((make i w).0 ≡ some t) × (Dispatch.id t ≡ name i)

next_total :
    (n m : ℕ) (a : ℤ)
    → n + suc m < 9223372036854775808
    → a ≡ pos n
    → int64 (a +ℤ pos 1) ≡ pos (suc n)
next_total n m a fits e = ap (λ x. int64 (x +ℤ pos 1)) e ∙ int64-suc n (omega arith)

module _ {P W V C K F : Type 0} where
  pub process_loop-Processed :
      (make : ℕ → W → Option (Task W V C K) × W) (name : ℕ → String) (choose : ℕ → Choice)
      (left i n : ℕ) (tp : TaskProcessor (Manager P W V C K F)) (w : W)
      → Makes make name
      → n + left < 9223372036854775808
      → tp.total_processed ≡ pos n
      → Processed name left i n tp (process_loop make name choose left i tp w)
  unfolding process_loop submit_task
  process_loop-Processed make name choose zero i n tp w makes fits total =
      ([], omega arith, refl, refl, total ∙ ap pos (omega arith), inl (refl, refl))
  process_loop-Processed make name choose (suc left) i n tp w makes fits total =
      let (t, is_made, named) = makes i w in
      let sent = submit tp.manager.started (choose i) t tp.manager (make i w).1 in
      let tp₁ = record tp {
        manager = sent.0.0;
        total_processed = int64 (tp.total_processed +ℤ pos 1);
      } in
      elim (submit-Submitted tp.manager.started (choose i) t tp.manager (make i w).1) [
        | inr (e, failed, unchanged) ↦
            rw (is_made, failed, process_loop)
              (
                [],
                omega arith,
                refl,
                unchanged,
                total ∙ ap pos (omega arith),
                inr (e, ap (λ k. some (failed_to_submit (name k) e)) (omega arith)),
              )
        | inl (done, moved) ↦
            rw (is_made, done, process_loop)
              (after_one name left i n tp tp₁ t _ named moved (
                process_loop-Processed make name choose left (suc i) (suc n) tp₁ sent.1 makes
                  (omega arith) (next_total n left tp.total_processed fits total)))
      ]
