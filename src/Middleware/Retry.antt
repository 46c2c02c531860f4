-- ===== src/Middleware/Retry.antt =====
-- pkg/middleware/middleware.go: how RetryMiddleware ends.
use lemmings.Common.{
  ℕ, zero, suc, ◌+◌, ◌≤◌, ◌≡◌, refl, sym, ap, ◌∙◌, String, Option, none, some, true, false, ℤ, pos,
  ◌+ℤ◌, int64, ltb_ℤ, if◌then◌else◌, arith,
}
use lemmings.Utils.Floats.{Floats}
use lemmings.Worker.Errors.{Error, new_task_error}
use lemmings.Middleware.{returns, Handler, Env, backoff, retry_loop, retry_middleware}

module _ {T V C W : Type 0} (env : Env C W) (id : T → String) (floats : Floats)
    (factor : floats.Float) (next : Handler T V C W) (ctx : C) (task : T) where
  -- The world after an attempt, when the context has been asked, and after the wait that follows it.
  abbrev pub asked : W → Option Error × W
  asked w = env.poll ctx (next ctx task w).1

  abbrev pub waited : ℕ → W → Option Error × W
  waited a w = env.wait ctx (backoff floats factor a) (asked w).1

  -- From the world `w`, the attempts from number `a` on return an error `k` times, the context not
  -- being done after an attempt nor during a wait; then the world is `v`.
  pub data Fails (v : W) : ℕ → ℕ → W → Type 0 where
    done : {a : ℕ} {w : W} → w ≡ v → Fails v zero a w
    again :
        {k a : ℕ} {w : W} {r : Option V} {e : Error}
        → (next ctx task w).0 ≡ returns r (some e)
        → (asked w).0 ≡ none
        → (waited a w).0 ≡ none
        → Fails v k (suc a) (waited a w).1
        → Fails v (suc k) a w

  -- An attempt overwrites the error of the attempt before it.
  loop_overwrites :
      (most : ℤ) (l a : ℕ) (x y : Option Error) (w : W)
      → retry_loop env id floats most factor next ctx task (suc l) a x w
        ≡ retry_loop env id floats most factor next ctx task (suc l) a y w
  unfolding retry_loop
  loop_overwrites most l a x y w = refl

  first_fails :
      (most l a : ℕ) (x : Option Error) (w : W) {r : Option V} {e : Error}
      → suc a ≤ most
      → (next ctx task w).0 ≡ returns r (some e)
      → (asked w).0 ≡ none
      → (waited a w).0 ≡ none
      → retry_loop env id floats (pos most) factor next ctx task (suc l) a x w
        ≡ retry_loop env id floats (pos most) factor next ctx task l (suc a) (some e) (waited a w).1
  unfolding retry_loop
  first_fails most l a x w h failed go waited_for =
      let more : ltb_ℤ (pos a) (pos most) ≡ true = ground arith in
      rw (failed, go, more, waited_for, retry_loop) refl

  -- After `k` failures the loop is where it would be had it begun with attempt `k`.
  loop_after :
      (most l : ℕ) {v : W} (x : Option Error) {k a : ℕ} {w : W}
      → Fails v k a w
      → k + a ≤ most
      → retry_loop env id floats (pos most) factor next ctx task (k + suc l) a x w
        ≡ retry_loop env id floats (pos most) factor next ctx task (suc l) (k + a) none v
  loop_after most l {v} x {k = zero} {a = a} (done e) h =
      let unchanged : zero + suc l ≡ suc l = omega arith in
      let here : zero + a ≡ a = omega arith in
      rw (e, unchanged, here) (loop_overwrites (pos most) l a x none v)
  loop_after most l {v} x {k = suc k} {a = a} {w = w} (again {e = e} failed go waited_for rest) h =
      let shifted : k + suc a ≡ suc k + a = omega arith in
      let unfolded : suc k + suc l ≡ suc (k + suc l) = omega arith in
      ap (λ n. retry_loop env id floats (pos most) factor next ctx task n a x w) unfolded
      ∙ first_fails most (k + suc l) a x w (omega arith) failed go waited_for
      ∙ loop_after most l (some e) rest (omega arith)
      ∙ ap (λ n. retry_loop env id floats (pos most) factor next ctx task (suc l) n none v) shifted

  middleware_after :
      (w : W) {v : W} (k l : ℕ)
      → Fails v k 0 w
      → retry_middleware env id floats (pos (k + l)) factor next ctx task w
        ≡ retry_loop env id floats (pos (k + l)) factor next ctx task (suc l) k none v
  unfolding retry_middleware
  middleware_after w {v} k l f =
      let rounds : (if ltb_ℤ (pos (k + l)) (pos 0) then 0 else suc (k + l)) ≡ k + suc l =
        ground arith in
      let flat : k + 0 ≡ k = omega arith in
      ap (λ n. retry_loop env id floats (pos (k + l)) factor next ctx task n 0 none w) rounds
      ∙ loop_after (k + l) l none f (omega arith)
      ∙ ap (λ n. retry_loop env id floats (pos (k + l)) factor next ctx task (suc l) n none v) flat

  -- Where `k` attempts return an error, the next one returns without one, at least `k` retries are
  -- allowed, and the context is not done after one of the first `k` nor during a wait, the
  -- RetryMiddleware returns what that attempt returns, and calls the handler no more.
  pub retry_returns :
      (w v : W) (k l : ℕ) (r : Option V)
      → Fails v k 0 w
      → (next ctx task v).0 ≡ returns r none
      → retry_middleware env id floats (pos (k + l)) factor next ctx task w
        ≡ (returns r none, (next ctx task v).1)
  unfolding retry_loop
  retry_returns w v k l r f succeeded = middleware_after w k l f ∙ rw (succeeded, retry_loop) refl

  -- Where `k` retries are allowed and `k + 1` attempts return an error, the context not being done after
  -- any of them nor during a wait, the RetryMiddleware returns a TaskError about attempt `k + 1` with the
  -- last of the errors as its cause, and has not waited after the last attempt.
  pub retry_gives_up :
      (w v : W) (k : ℕ) (r : Option V) (e : Error)
      → Fails v k 0 w
      → (next ctx task v).0 ≡ returns r (some e)
      → (asked v).0 ≡ none
      → retry_middleware env id floats (pos k) factor next ctx task w ≡ (
        returns none (
            some
              (new_task_error (id task) (int64 (pos k +ℤ pos 1)) "max retries exceeded" (some e))),
        (asked v).1,
      )
  unfolding retry_loop
  retry_gives_up w v k r e f failed go =
      let flat : k + 0 ≡ k = omega arith in
      let last : ltb_ℤ (pos k) (pos k) ≡ false = ground arith in
      ap (λ n. retry_middleware env id floats (pos n) factor next ctx task w) (sym flat)
      ∙ middleware_after w k 0 f
      ∙ ap (λ n. retry_loop env id floats (pos n) factor next ctx task 1 k none v) flat
      ∙ rw (failed, go, last, retry_loop) refl
