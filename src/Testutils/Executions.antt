-- ===== src/Testutils/Executions.antt =====
-- internal/testutils: an ErrorAfterNExecutionsTask that is executed many times.
use lemmings.Common.{
  subst, ℕ, zero, suc, ◌+◌, ◌<◌, ◌≡◌, refl, sym, ap, ◌∙◌, Bool-cases, inl, inr, String, Option,
  none, some, List, [], ◌∷◌, ℤ, pos, ◌+ℤ◌, int64, ltb_ℤ, if◌then◌else◌, arith,
}
use lemmings.Worker.Errors.{Error, other}
use lemmings.Manager.Lifecycle.Accounting.{int64-suc}
use lemmings.Testutils.{Cell}
use lemmings.Testutils.Tasks.{
  MockTask, execute, new_mock_task, error_after_function, new_error_after_n_executions_task,
  get_execution_count,
}

-- Two variables that are not the same.
pub record Apart {W A B : Type 0} (c : Cell W A) (d : Cell W B) : Type 0 where
  pub first_kept : (b : B) (w : W) → c.get (d.put b w) ≡ c.get w
  pub second_kept : (a : A) (w : W) → d.get (c.put a w) ≡ d.get w

-- The number of the execution up to the n-th, and then the error.
abbrev pub answer : {V : Type 0} → (ℤ → V) → ℤ → ℕ → Option V × Option Error
answer int_value n a =
    if ltb_ℤ n (pos a)
    then (none, some (other "error after N executions"))
    else (some (int_value (pos a)), none)

-- The answers to `k` executions after `a` of them.
abbrev pub answers : {V : Type 0} → (ℤ → V) → ℤ → ℕ → ℕ → List (Option V × Option Error)
answers int_value n a zero = []
answers int_value n a (suc k) = answer int_value n (suc a) ∷ answers int_value n (suc a) k

counted : (a : ℕ) (x : ℤ) → a < 9223372036854775807 → x ≡ pos a → int64 (x +ℤ pos 1) ≡ pos (suc a)
counted a x h e = ap (λ y. int64 (y +ℤ pos 1)) e ∙ int64-suc a h

module _ {W V C : Type 0} (int_value : ℤ → V) where
  -- What so many executions return, one after another, and the world after them.
  abbrev pub executions : MockTask W V C → C → ℕ → W → List (Option V × Option Error) × W
  executions t ctx zero w = ([], w)
  executions t ctx (suc k) w =
      let (r, w₁) = execute int_value t ctx w in
      let (rs, w₂) = executions t ctx k w₁ in (r ∷ rs, w₂)

module _ {W V C : Type 0} (int_value : ℤ → V) (count own : Cell W ℤ) (apart : Apart count own)
    (id : String) (n : ℤ) (ctx : C) where
  abbrev task : MockTask W V C
  task = record {
    id = id;
    task_type = "mock";
    priority = pos 0;
    max_retries = pos 1;
    exec_func = some (error_after_function int_value own n);
    validate_err = none;
    exec_count = count;
  }

  -- The task has been executed `a` times, as both of its counters say.
  abbrev Counts : ℕ → W → Type 0
  Counts a w = (count.get w ≡ pos a) × (own.get w ≡ pos a)

  executed_once :
      (a : ℕ) (w : W)
      → a < 9223372036854775807
      → Counts a w
      → ((execute int_value task ctx w).0 ≡ answer int_value n (suc a))
        × Counts (suc a) (execute int_value task ctx w).1
  unfolding execute error_after_function
  executed_once a w h c =
      let first = counted a (count.get w) h c.0 in
      let w₁ = count.put (int64 (count.get w +ℤ pos 1)) w in
      let second = counted a (own.get w₁) h (apart.second_kept _ w ∙ c.1) in
      let v = own.put (int64 (own.get w₁ +ℤ pos 1)) w₁ in
      let counts : Counts (suc a) v =
        (apart.first_kept _ w₁ ∙ count.get_put _ w ∙ first, own.get_put _ w₁ ∙ second) in
      let same = ap (ltb_ℤ n) (sym second) in
      elim (Bool-cases (ltb_ℤ n (int64 (own.get w₁ +ℤ pos 1)))) [
        | inl over ↦ let expected = same ∙ over in rw (over, expected) (refl, counts)
        | inr within ↦
            let expected = same ∙ within in
            rw (within, expected) (ap (λ m. (some (int_value m), none)) second, counts)
      ]

  executions-Counts :
      (a k : ℕ) (w : W)
      → a + k < 9223372036854775808
      → Counts a w
      → ((executions int_value task ctx k w).0 ≡ answers int_value n a k)
        × Counts (a + k) (executions int_value task ctx k w).1
  executions-Counts a zero w h c = (refl, subst (λ m. Counts m w) (sym (omega arith)) c)
  executions-Counts a (suc k) w h c =
      let (answered, c₁) = executed_once a w (omega arith) c in
      let w₁ = (execute int_value task ctx w).1 in
      let (rest, c₂) = executions-Counts (suc a) k w₁ (omega arith) c₁ in
      let same : suc a + k ≡ a + suc k = omega arith in
      (
        ap (λ r. r ∷ (executions int_value task ctx k w₁).0) answered
            ∙ ap (λ rs. answer int_value n (suc a) ∷ rs) rest,
        subst (λ m. Counts m (executions int_value task ctx (suc k) w).1) same c₂,
      )

  -- However often an ErrorAfterNExecutionsTask is executed, below 2 ^ 63 times, its two counters being
  -- different variables: the first n executions return their numbers, from 1, and all others the error; and
  -- GetExecutionCount says how many they were.
  pub error_after_lem :
      (k : ℕ) (w : W)
      → k < 9223372036854775808
      → let (t, v) = new_error_after_n_executions_task int_value count own id n w in
        ((executions int_value t ctx k v).0 ≡ answers int_value n 0 k)
        × (get_execution_count t (executions int_value t ctx k v).1 ≡ pos k)
  unfolding new_error_after_n_executions_task get_execution_count new_mock_task
  error_after_lem k w h =
      let v = count.put (pos 0) (own.put (pos 0) w) in
      let (answered, c) =
        executions-Counts 0 k v (omega arith)
          (count.get_put _ _, apart.second_kept _ _ ∙ own.get_put _ w) in
      (answered, c.0 ∙ ap pos (omega arith))
