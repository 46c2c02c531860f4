-- ===== src/Worker/Exec/Attempts.antt =====
-- pkg/worker/worker.go: how executeWithRetries and ExecuteTask end.
use lemmings.Common.{
  ℕ, zero, suc, ◌+◌, ◌≤◌, ◌≡◌, refl, ◌∙◌, inl, inr, Option, none, some, Option-cases, Bool-cases,
  ap, [], ◌∷◌, ◌++◌, ℤ, pos, ◌≤ℤ◌, ◌<ℤ◌, leb, ltb_ℤ, pos_part, arith,
}
use lemmings.Worker.Errors.{Error, new_task_error, error_text}
use lemmings.Worker.Task.{Task}
use lemmings.Worker.Task.Dispatch
use lemmings.Worker.Exec.{
  Result, BaseWorker, Env, backoff_duration, abort, finish, attempts, execute_with_retries,
  execute_task,
}
use lemmings.Worker.Exec.Ways.{
  AsProcessed, AsFailed, retries, IsCut, Accounts, succeeded, exhausted, untried, invalid,
  cut_short, Accounts-idle,
}

module _ {W V C K : Type 0} (env : Env W V C K) (ctx : C) (task : Task W V C K) where
  -- `b` has become `b'` by offering exactly one result, about the task of `r`, in one of these ways.
  pub record Ended (most : ℤ) (b : BaseWorker W V C K) (r : Result W V C K)
      (b' : BaseWorker W V C K) : Type 0 where
    pub result : Result W V C K
    pub offered_once : b'.offered ≡ b.offered ++ result ∷ []
    pub same_id : result.task_id ≡ r.task_id
    pub same_worker : result.worker ≡ r.worker
    pub same_task : result.task ≡ r.task
    pub tried : result.attempt ≤ℤ pos (suc (pos_part most))
    pub accounts : Accounts env ctx task most b.stats result b'.stats

  finish-AsProcessed :
      (b : BaseWorker W V C K) (r : Result W V C K) (w : W)
      → r.err ≡ none
      → AsProcessed b.stats r.duration (finish env b r w).0.stats
  unfolding finish
  finish-AsProcessed b r w e = ground arith

  finish-AsFailed :
      (b : BaseWorker W V C K) (r : Result W V C K) (w : W) {e : Error}
      → r.err ≡ some e
      → AsFailed b.stats r.duration (finish env b r w).0.stats
  unfolding finish
  finish-AsFailed b r w e = ground arith

  finish-Ended :
      (most : ℤ) (b : BaseWorker W V C K) (r : Result W V C K) (w : W)
      → r.attempt ≤ℤ pos (suc (pos_part most))
      → Accounts env ctx task most b.stats r (finish env b r w).0.stats
      → Ended most b r (finish env b r w).0
  unfolding finish
  finish-Ended most b r w h accounts = record {
    result = r;
    offered_once = refl;
    same_id = refl;
    same_worker = refl;
    same_task = refl;
    tried = h;
    accounts = accounts;
  }

  abort-Ended :
      (most : ℤ) (b : BaseWorker W V C K) (r : Result W V C K) (start : ℤ) (e : Error) (w : W)
      → r.attempt ≤ℤ pos (suc (pos_part most))
      → r.output ≡ none
      → IsCut env ctx task e
      → Ended most b r (abort env b r start e w).0
  unfolding abort
  abort-Ended most b r start e w h empty cut = record {
    result = record r { err = some e; duration = (env.since start w).0 };
    offered_once = refl;
    same_id = refl;
    same_worker = refl;
    same_task = refl;
    tried = h;
    accounts = cut_short e cut refl empty (refl, refl, refl);
  }

  -- The changes of the result that the loop makes keep what it is about.
  Ended-change :
      (most : ℤ) (b b' : BaseWorker W V C K) (r r' : Result W V C K)
      → r.task_id ≡ r'.task_id
      → r.worker ≡ r'.worker
      → r.task ≡ r'.task
      → Ended most b r b'
      → Ended most b r' b'
  Ended-change most b b' r r' i j k g = record {
    result = g.result;
    offered_once = g.offered_once;
    same_id = g.same_id ∙ i;
    same_worker = g.same_worker ∙ j;
    same_task = g.same_task ∙ k;
    tried = g.tried;
    accounts = g.accounts;
  }

  -- The last attempt fails.
  last-Ended :
      (most : ℤ) (start : ℤ) (left attempt : ℕ) (b : BaseWorker W V C K) (r : Result W V C K)
      (e : Error) (w v : W)
      → left ≡ 0
      → r.attempt ≡ pos (suc (pos_part most))
      → r.err
        ≡ some (new_task_error (Dispatch.id task) r.attempt (error_text env.formats e) (some e))
      → r.output ≡ none
      → (Dispatch.execute env.timers task ctx w).0.1 ≡ some e
      → Ended most b r (attempts env ctx task (pos_part most) start left attempt b r v).0
  unfolding attempts
  last-Ended most start zero attempt b r e w v none_left number failed empty ran =
      finish-Ended most b r v (omega (arith, ap pos_part number))
        (exhausted w e ran number failed empty (finish-AsFailed b r v failed))
  last-Ended most start (suc left) attempt b r e w v none_left number failed empty ran =
      absurd (omega arith)

  both : {A B : Type 0} (p : A × Option B) → p.1 ≡ none → p ≡ (p.0, none)
  both p h = ground arith

  attempts-Ended :
      (most start : ℤ) (left attempt : ℕ) (b : BaseWorker W V C K) (r : Result W V C K) (w : W)
      → attempt + left ≡ suc (pos_part most)
      → attempt ≤ pos_part most
      → r.err ≡ none
      → r.output ≡ none
      → Ended most b r (attempts env ctx task (pos_part most) start left attempt b r w).0
  unfolding attempts
  attempts-Ended most start zero attempt b r w h within fresh empty = absurd (omega arith)
  attempts-Ended most start (suc left) attempt b r w h within fresh empty =
      let w₁ = (env.poll ctx w).1 in
      let m = pos_part most in
      let r₁ = record r { attempt = pos (suc attempt) } in
      let run = Dispatch.execute env.timers task ctx w₁ in
      let d = (env.since start run.1).0 in
      let stopped = env.wait ctx (backoff_duration attempt) run.1 in
      let about_r =
        λ (r₂ : Result W V C K) (b' : BaseWorker W V C K). Ended-change most b b' r₂ r in
      elim (Option-cases (env.poll ctx w).0) [
        | inr (e, done) ↦
            rw (done, attempts)
              (about_r r₁ _ refl refl refl
                (abort-Ended most b r₁ start e w₁ (omega arith) empty (inl (w, done))))
        | inl go ↦ elim (Option-cases run.0.1) [
          | inl fine ↦
              let r₂ = record r₁ { output = run.0.0; duration = d } in
              let v = (env.since start run.1).1 in
              rw (go, fine, attempts)
                (about_r r₂ _ refl refl refl (
                  finish-Ended most b r₂ v (omega arith)
                    (succeeded w₁ (both run.0 fine) fresh (finish-AsProcessed b r₂ v fresh))))
          | inr (e, failed) ↦ elim (Bool-cases (leb m attempt)) [
            | inl last ↦
                let none_left : left ≡ 0 = ground arith in
                let number : pos (suc attempt) ≡ pos (suc m) = ground arith in
                rw (go, failed, last, attempts)
                  (about_r _ _ refl refl refl (
                    last-Ended most start left (suc attempt) b _ e w₁ _ none_left number refl empty
                      failed))
            | inr more ↦ elim (Option-cases stopped.0) [
              | inr (c, cut) ↦
                  rw (go, failed, more, cut, attempts)
                    (about_r r₁ _ refl refl refl (
                      abort-Ended most b r₁ start c stopped.1 (omega arith) empty
                        (inr (attempt, run.1, cut))))
              | inl again ↦
                  let sum : suc attempt + left ≡ suc m = omega arith in
                  let below : suc attempt ≤ m = ground arith in
                  rw (go, failed, more, again, attempts)
                    (about_r r₁ _ refl refl refl (
                      attempts-Ended most start left (suc attempt) b r₁ stopped.1 sum below fresh
                        empty))
            ]
          ]
        ]
      ]

  execute_with_retries-Ended :
      (b : BaseWorker W V C K) (r : Result W V C K) (w : W)
      → r.attempt ≡ pos 0
      → r.err ≡ none
      → r.output ≡ none
      → Ended (retries task b) b r (execute_with_retries env ctx task b r w).0
  unfolding execute_with_retries attempts
  execute_with_retries-Ended b r w h fresh empty =
      let most = retries task b in
      let (start, v) = env.now w in
      elim (Bool-cases (ltb_ℤ most (pos 0))) [
        | inl negative ↦
            let below : most <ℤ pos 0 = ground arith in
            let tried : r.attempt ≤ℤ pos (suc (pos_part most)) = ground arith in
            rw (negative, attempts)
              (finish-Ended most b r v tried
                (untried below h fresh empty (finish-AsProcessed b r v fresh)))
        | inr enough ↦
            rw (enough, execute_with_retries)
              (attempts-Ended most start (suc (pos_part most)) 0 b r v (omega arith) (omega arith)
                fresh empty)
      ]

module _ {W V C K : Type 0} (env : Env W V C K) where
  -- What ExecuteTask guarantees, whatever the task, the context and the world do: it offers exactly
  -- one result to the result channel, about the task and with the worker's id; that result reports at
  -- most one attempt more than the retries allowed; and the run ended in one of five ways. An
  -- execution succeeded, whose output the result has, and the task counts as processed. Or the last
  -- allowed execution failed, the result has a TaskError about it, and the task counts as failed. Or
  -- the retries are negative, the result is empty, and the task counts as processed. Or Validate failed, or
  -- the context was done before an attempt or during a wait: the result has that error, and nothing
  -- is counted. What counts also adds the result's duration to the total.
  pub execute_task_lem :
      (ctx : C) (task : Task W V C K) (b : BaseWorker W V C K) (w : W)
      → (r : Result W V C K) × ((execute_task env ctx task b w).0.offered ≡ b.offered ++ r ∷ [])
        × (r.task_id ≡ Dispatch.id task)
        × (r.worker ≡ b.id)
        × (r.task ≡ task)
        × (r.attempt ≤ℤ pos (suc (pos_part (retries task b))))
        × Accounts env ctx task (retries task b) b.stats r (execute_task env ctx task b w).0.stats
  unfolding execute_task
  execute_task_lem ctx task b w =
      let (idle, w₁) = env.since b.stats.last_task_time w in
      let (time, w₂) = env.now w₁ in
      elim (Option-cases (Dispatch.validate task w₂).0) [
        | inr (e, bad) ↦
            rw (bad, execute_task)
              (
                _,
                refl,
                refl,
                refl,
                refl,
                omega arith,
                invalid w₂ e bad refl refl refl (refl, refl, refl),
              )
        | inl valid ↦
            let g =
              execute_with_retries-Ended env ctx task _ _ (Dispatch.validate task w₂).1 refl refl
                refl in
            rw (valid, execute_task)
              (
                g.result,
                g.offered_once,
                g.same_id,
                g.same_worker,
                g.same_task,
                g.tried,
                Accounts-idle env ctx task _ b.stats g.result _ _ _ g.accounts,
              )
      ]
