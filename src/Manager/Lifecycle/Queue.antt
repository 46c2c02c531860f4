-- ===== src/Manager/Lifecycle/Queue.antt =====
-- pkg/manager/manager.go: what Submit and SubmitBatch put into the queue.
use lemmings.Common.{
  ℕ, suc, ◌+◌, ◌≤◌, ◌≡◌, refl, sym, ap, ◌∙◌, ◌⊎◌, inl, inr, Option, Option-cases, none, some, Bool,
  if_elim, true, false, List, [], ◌∷◌, ◌++◌, length, take, arith,
}
use mathlib.Core.List.{append-nil, append_assoc}
use lemmings.Worker.Task.{Task}
use lemmings.Worker.Task.Dispatch
use lemmings.Manager.Lifecycle.{
  Manager, SubmitError, not_started, shutting_down, submit_timeout, invalid_task, count_submitted,
}
use lemmings.Manager.Lifecycle.Submission.{
  Choice, sends, times_out, shuts, enqueue, submit, submit_loop, submit_batch,
}

module _ {P W V C K F : Type 0} where
  -- `n` tasks have been put into the queue of `m` and counted, and nothing else has changed.
  abbrev pub added : List (Task W V C K) → Manager P W V C K F → Manager P W V C K F
  added [] m = m
  added (t ∷ ts) m =
      added ts (record m { task_queue = m.task_queue ++ t ∷ []; stats = count_submitted m.stats })

  added-queue :
      (ts : List (Task W V C K)) (m : Manager P W V C K F)
      → (added ts m).task_queue ≡ m.task_queue ++ ts
  added-queue [] m = sym (append-nil m.task_queue)
  added-queue (t ∷ ts) m = added-queue ts _ ∙ append_assoc m.task_queue (t ∷ []) ts

  -- Either the task went to the end of the queue and was counted, or there is an error and nothing has
  -- changed.
  abbrev pub Submitted :
      Task W V C K → Manager P W V C K F → Manager P W V C K F × Option SubmitError → Type 0
  Submitted t m r =
      ((r.1 ≡ none) × (r.0 ≡ added (t ∷ []) m)) ⊎ ((e : SubmitError) × (r.1 ≡ some e) × (r.0 ≡ m))

  enqueue-Submitted :
      (choice : Choice) (t : Task W V C K) (m : Manager P W V C K F)
      → Submitted t m (enqueue choice t m)
  unfolding enqueue
  enqueue-Submitted sends t m = inl (refl, refl)
  enqueue-Submitted times_out t m = inr (submit_timeout, refl, refl)
  enqueue-Submitted shuts t m = inr (shutting_down, refl, refl)

  pub submit-Submitted :
      (was_started : Bool) (choice : Choice) (t : Task W V C K) (m : Manager P W V C K F) (w : W)
      → Submitted t m (submit was_started choice t m w).0
  unfolding submit
  submit-Submitted false choice t m w = inr (not_started, refl, refl)
  submit-Submitted true choice t m w = elim (Option-cases (Dispatch.validate t w).0) [
    | inr (e, invalid) ↦ rw (invalid, submit) (inr (invalid_task e, refl, refl))
    | inl valid ↦ rw (valid, submit) (enqueue-Submitted choice t m)
  ]

  -- The outcome of a batch that began with `n` tasks submitted before: the first `k` tasks went into
  -- the queue, and they are all of them unless there is an error.
  abbrev pub Batched :
      List (Task W V C K)
      → Manager P W V C K F
      → ℕ
      → Manager P W V C K F × ℕ × Option SubmitError
      → Type 0
  Batched ts m n r =
      (k : ℕ) × (k ≤ length ts)
      × (r.1 ≡ n + k)
      × (r.0 ≡ added (take k ts) m)
      × ((r.2 ≡ none) × (k ≡ length ts) ⊎ ((e : SubmitError) × (r.2 ≡ some e)))

  submit_loop-Batched :
      (choose : ℕ → Choice) (ts : List (Task W V C K)) (m : Manager P W V C K F) (n : ℕ) (w : W)
      → Batched ts m n (submit_loop choose ts m n w).0
  unfolding submit_loop
  submit_loop-Batched choose [] m n w = (0, omega arith, omega arith, refl, inl (refl, refl))
  submit_loop-Batched choose (t ∷ ts) m n w =
      let sent = submit m.started (choose n) t m w in
      let (k, short, counted, same, end) = submit_loop-Batched choose ts sent.0.0 (suc n) sent.1 in
      elim (submit-Submitted m.started (choose n) t m w) [
        | inr (e, failed, unchanged) ↦
            rw (failed, submit_loop) (0, omega arith, omega arith, unchanged, inr (e, refl))
        | inl (done, moved) ↦
            rw (done, submit_loop)
              (
                suc k,
                omega arith,
                counted ∙ omega arith,
                same ∙ ap (added (take k ts)) moved,
                elim end [ inl (fine, all) ↦ inl (fine, ap suc all) | inr bad ↦ inr bad ],
              )
      ]

  -- SubmitBatch puts a prefix of the tasks at the end of the queue, in the order in which they are
  -- given and whatever their priorities, counts each, and returns the prefix's length; the prefix is
  -- the whole batch unless it returns an error.
  pub submit_batch_lem :
      (choose : ℕ → Choice) (ts : List (Task W V C K)) (m : Manager P W V C K F) (w : W)
      → (k : ℕ) × (k ≤ length ts)
        × ((submit_batch choose ts m w).0.1 ≡ k)
        × ((submit_batch choose ts m w).0.0 ≡ added (take k ts) m)
        × ((submit_batch choose ts m w).0.0.task_queue ≡ m.task_queue ++ take k ts)
        × (((submit_batch choose ts m w).0.2 ≡ none) × (k ≡ length ts)
            ⊎ ((e : SubmitError) × ((submit_batch choose ts m w).0.2 ≡ some e)))
  unfolding submit_batch
  submit_batch_lem choose ts m w =
      let run = submit_loop choose ts m 0 w in
      let (k, short, counted, same, end) =
        if_elim (λ (r : (Manager P W V C K F × ℕ × Option SubmitError) × W). Batched ts m 0 r.0)
          m.started (λ on. submit_loop-Batched choose ts m 0 w)
          (λ off. (0, omega arith, omega arith, refl, inr (not_started, refl))) in
      (
        k,
        short,
        counted ∙ omega arith,
        same,
        ap (λ (x : Manager P W V C K F). x.task_queue) same ∙ added-queue (take k ts) m,
        end,
      )
