-- ===== src/Worker/Exec/Endings.antt =====
-- pkg/worker/worker.go: what the result of executeWithRetries says on each way through its loop.
use lemmings.Common.{
  ◌≤ℤ◌, ℕ, zero, suc, ◌+◌, ◌≤◌, ◌≡◌, refl, ap, ◌∙◌, Option, none, some, true, false, ℤ, pos, ◌<ℤ◌,
  leb, ltb_ℤ, arith, if◌then◌else◌,
}
use native.Mathlib.Nat.{zero-add}
use lemmings.Worker.Errors.{Error, new_task_error, error_text}
use lemmings.Worker.Task.{Task}
use lemmings.Worker.Task.Dispatch
use lemmings.Worker.Exec.{
  Result, BaseWorker, Env, backoff_duration, abort, finish, attempts, execute_with_retries,
}
use lemmings.Worker.Exec.Ways.{retries}

module _ {W V C K : Type 0} (env : Env W V C K) (ctx : C) (task : Task W V C K) where
  abbrev pub run_once : W → (Option V × Option Error) × W
  run_once w = Dispatch.execute env.timers task ctx (env.poll ctx w).1

  -- From the world `w`, the attempts from number `a` on fail `k` times, the context not being done
  -- before an attempt nor during a wait; then the world is `v`.
  pub data Fails (v : W) : ℕ → ℕ → W → Type 0 where
    done : {a : ℕ} {w : W} → w ≡ v → Fails v zero a w
    again :
        {k a : ℕ} {w : W} {e : Error}
        → (env.poll ctx w).0 ≡ none
        → (run_once w).0.1 ≡ some e
        → (env.wait ctx (backoff_duration a) (run_once w).1).0 ≡ none
        → Fails v k (suc a) (env.wait ctx (backoff_duration a) (run_once w).1).1
        → Fails v (suc k) a w

  -- An attempt overwrites the number of the attempt before it.
  attempts_overwrites :
      (most : ℕ) (start : ℤ) (l a : ℕ) (b : BaseWorker W V C K) (r : Result W V C K) (n : ℤ) (w : W)
      → attempts env ctx task most start (suc l) a b (record r { attempt = n }) w
        ≡ attempts env ctx task most start (suc l) a b r w
  unfolding attempts
  attempts_overwrites most start l a b r n w = refl

  first_fails :
      (most : ℕ) (start : ℤ) (left a : ℕ) (b : BaseWorker W V C K) (r : Result W V C K) (w : W)
      {e : Error}
      → (env.poll ctx w).0 ≡ none
      → (run_once w).0.1 ≡ some e
      → leb most a ≡ false
      → (env.wait ctx (backoff_duration a) (run_once w).1).0 ≡ none
      → attempts env ctx task most start (suc left) a b r w
        ≡ attempts env ctx task most start left
            (suc a)
            b
            (record r { attempt = pos (suc a) })
            (env.wait ctx (backoff_duration a) (run_once w).1).1
  unfolding attempts
  first_fails most start left a b r w go failed more waited =
      rw (go, failed, more, waited, attempts) refl

  -- After `k` failures the loop is where it would be had it begun with attempt `k`.
  attempts_after :
      (most : ℕ) (start : ℤ) (l : ℕ) (b : BaseWorker W V C K) {v : W} (r : Result W V C K) {k a : ℕ}
      {w : W}
      → Fails v k a w
      → k + a ≤ most
      → attempts env ctx task most start (k + suc l) a b r w
        ≡ attempts env ctx task most start (suc l) (k + a) b r v
  attempts_after most start l b r {k = zero} {a = a} (done e) h = rw (e, zero-add, zero-add) refl
  attempts_after most start l b {v} r {k = suc k} {a = a} {w = w} (again go failed waited rest) h =
      let more : leb most a ≡ false = ground arith in
      let r₁ = record r { attempt = pos (suc a) } in
      let shifted : k + suc a ≡ suc k + a = omega arith in
      let unfolded : suc k + suc l ≡ suc (k + suc l) = omega arith in
      ap (λ n. attempts env ctx task most start n a b r w) unfolded
      ∙ first_fails most start (k + suc l) a b r w go failed more waited
      ∙ attempts_after most start l b r₁ rest (omega arith)
      ∙ attempts_overwrites most start l (k + suc a) b r (pos (suc a)) v
      ∙ ap (λ n. attempts env ctx task most start (suc l) n b r v) shifted

  -- The same, for executeWithRetries.
  execute_after :
      (b : BaseWorker W V C K) (r : Result W V C K) (w : W) {v : W} (k l : ℕ)
      → retries task b ≡ pos (k + l)
      → Fails v k 0 (env.now w).1
      → execute_with_retries env ctx task b r w
        ≡ attempts env ctx task (k + l) (env.now w).0 (suc l) k b r v
  unfolding execute_with_retries
  execute_after b r w {v} k l e f =
      let rounds : (if ltb_ℤ (pos (k + l)) (pos 0) then 0 else suc (k + l)) ≡ k + suc l =
        ground arith in
      let flat : k + 0 ≡ k = omega arith in
      rw e (
        ap (λ n. attempts env ctx task (k + l) (env.now w).0 n 0 b r (env.now w).1) rounds
        ∙ attempts_after (k + l) (env.now w).0 l b r f (omega arith)
        ∙ ap (λ n. attempts env ctx task (k + l) (env.now w).0 (suc l) n b r v) flat)

  -- A task that fails `k` times and then succeeds, where `k` retries are allowed and the context is
  -- not done before any of its attempts nor during a wait, ends with the output, no error, and
  -- attempt number `k + 1`.
  pub retry_succeeds :
      (b : BaseWorker W V C K) (r : Result W V C K) (w v : W) (k l : ℕ)
      → retries task b ≡ pos (k + l)
      → Fails v k 0 (env.now w).1
      → (env.poll ctx v).0 ≡ none
      → (run_once v).0.1 ≡ none
      → execute_with_retries env ctx task b r w
        ≡ finish env b
            (record r {
              attempt = pos (suc k);
              output = (run_once v).0.0;
              duration = (env.since (env.now w).0 (run_once v).1).0;
            })
            (env.since (env.now w).0 (run_once v).1).1
  unfolding attempts
  retry_succeeds b r w v k l e f go succeeded =
      execute_after b r w k l e f ∙ rw (go, succeeded, attempts) refl

  -- A task that fails at every attempt, where the context is not done before any of them nor during a
  -- wait, ends with a TaskError about the last one, whose number is one more than the retries.
  pub retry_exhausted :
      (b : BaseWorker W V C K) (r : Result W V C K) (w v : W) (k : ℕ) (x : Error)
      → retries task b ≡ pos k
      → Fails v k 0 (env.now w).1
      → (env.poll ctx v).0 ≡ none
      → (run_once v).0.1 ≡ some x
      → execute_with_retries env ctx task b r w
        ≡ finish env b
            (record r {
              attempt = pos (suc k);
              err = some (
                  new_task_error
                    (Dispatch.id task)
                    (pos (suc k))
                    (error_text env.formats x)
                    (some x));
              duration = (env.since (env.now w).0 (run_once v).1).0;
            })
            (env.since (env.now w).0 (run_once v).1).1
  unfolding attempts
  retry_exhausted b r w v k x e f go failed =
      let flat : k + 0 ≡ k = omega arith in
      let last : leb (k + 0) k ≡ true = ground arith in
      execute_after b r w k 0 (rw flat e) f ∙ rw (go, failed, last, attempts) refl

  -- Where the retries are not negative, a task whose context is done before its first attempt is never
  -- executed: the result has the context's error and attempt number 1, and no counter moves.
  pub canceled_never_runs :
      (b : BaseWorker W V C K) (r : Result W V C K) (w : W) (e : Error)
      → pos 0 ≤ℤ retries task b
      → (env.poll ctx (env.now w).1).0 ≡ some e
      → execute_with_retries env ctx task b r w
        ≡ abort env b (record r { attempt = pos 1 }) (env.now w).0 e (env.poll ctx (env.now w).1).1
  unfolding execute_with_retries attempts
  canceled_never_runs b r w e h stop =
      let enough : ltb_ℤ (retries task b) (pos 0) ≡ false = ground arith in
      rw (enough, stop, attempts) refl

  -- With a negative number of retries no attempt is made, and the result is offered as it was begun,
  -- after the counters have followed it.
  pub negative_retries_skip :
      (b : BaseWorker W V C K) (r : Result W V C K) (w : W)
      → retries task b <ℤ pos 0
      → execute_with_retries env ctx task b r w ≡ finish env b r (env.now w).1
  unfolding execute_with_retries attempts
  negative_retries_skip b r w h =
      let none_left : ltb_ℤ (retries task b) (pos 0) ≡ true = ground arith in
      rw (none_left, attempts) refl
