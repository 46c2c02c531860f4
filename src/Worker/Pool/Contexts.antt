-- ===== src/Worker/Pool/Contexts.antt =====
-- pkg/worker/pool.go: the contexts that the pool hands to the workers it starts.
use lemmings.Common.{
  ℕ, zero, suc, ◌≡◌, refl, ap, ◌∙◌, true, false, Bool-cases, if_elim, Option, Option-cases, inl,
  inr, none, some, Outcome, Outcome-cases, List, [], ◌∷◌, ◌++◌, ℤ, pos, ◌+ℤ◌, ◌-ℤ◌, int32, int64,
  leb_ℤ, ltb_ℤ, pos_part,
}
use lemmings.Worker.Pool.{
  Pool, PoolError, Call, starts, stops, count, stop_calls, stop_all_workers, stop, remove_worker,
  drop_entry, scale_down_loop, scale_down, add_worker, start_loop, finish_start, start,
  scale_up_loop, scale_up, scale, calculate_new_size,
}

module _ {W : Type 0} where
  -- The ids of the workers that were started with a context that was not cancelled at the time.
  abbrev pub live_ids : List (Call W) → List ℤ
  live_ids [] = []
  live_ids (starts id w true ∷ cs) = live_ids cs
  live_ids (starts id w false ∷ cs) = id ∷ live_ids cs
  live_ids (stops id w ∷ cs) = live_ids cs

  -- `q` has a cancelled context, and no worker was started with another since `p`.
  pub record Dead (p q : Pool W) : Type 0 where
    pub cancelled : q.cancelled ≡ true
    pub same_live : live_ids q.calls ≡ live_ids p.calls

  live_ids-append : (cs ds : List (Call W)) → live_ids ds ≡ [] → live_ids (cs ++ ds) ≡ live_ids cs
  live_ids-append [] ds h = h
  live_ids-append (starts id w true ∷ cs) ds h = live_ids-append cs ds h
  live_ids-append (starts id w false ∷ cs) ds h = ap (◌∷◌ id) (live_ids-append cs ds h)
  live_ids-append (stops id w ∷ cs) ds h = live_ids-append cs ds h

  stops_only : (m : List (ℤ × W)) → live_ids (stop_calls m) ≡ []
  stops_only [] = refl
  stops_only (e ∷ m) = stops_only m

  pub Dead-refl : (p : Pool W) → p.cancelled ≡ true → Dead p p
  Dead-refl p c = record { cancelled = c; same_live = refl }

  pub Dead-trans : (p q r : Pool W) → Dead p q → Dead q r → Dead p r
  Dead-trans p q r g h = record { cancelled = h.cancelled; same_live = h.same_live ∙ g.same_live }

  pub stop_all-Dead : (p : Pool W) → p.cancelled ≡ true → Dead p (stop_all_workers p)
  unfolding stop_all_workers
  stop_all-Dead p c = record {
    cancelled = c;
    same_live = live_ids-append p.calls (stop_calls p.workers) (stops_only p.workers);
  }

  dropped-Dead : (p : Pool W) (e : Option (ℤ × W)) → p.cancelled ≡ true → Dead p (drop_entry p e).0
  unfolding drop_entry
  dropped-Dead p none c = Dead-refl p c
  dropped-Dead p (some (id, w)) c = record {
    cancelled = c;
    same_live = live_ids-append p.calls (stops id w ∷ []) refl;
  }

  remove_worker-Dead :
      (pick : List (ℤ × W) → ℕ) (p : Pool W) → p.cancelled ≡ true → Dead p (remove_worker pick p).0
  unfolding remove_worker
  remove_worker-Dead pick p = dropped-Dead p _

  pub stop-Dead : (p : Pool W) → p.cancelled ≡ true → Dead p (stop p)
  unfolding stop stop_all_workers
  stop-Dead p c =
      let emptied = stop_all-Dead (record p { cancelled = true }) refl in
      if_elim (Dead p) p.started (λ on. record { cancelled = refl; same_live = emptied.same_live })
        (λ off. Dead-refl p c)

  scale_down_loop-Dead :
      (pick : List (ℤ × W) → ℕ) (n : ℕ) (target : ℤ) (p : Pool W) (removed : ℕ)
      → p.cancelled ≡ true
      → Dead p (scale_down_loop pick n target p removed).0
  unfolding scale_down_loop
  scale_down_loop-Dead pick zero target p removed c = Dead-refl p c
  scale_down_loop-Dead pick (suc n) target p removed c =
      let one = remove_worker-Dead pick p c in
      if_elim (λ (r : Pool W × ℕ). Dead p r.0) (ltb_ℤ target (count p))
        (λ more. elim (Bool-cases (remove_worker pick p).1) [
          | inl gone ↦
              rw (gone, scale_down_loop)
                (Dead-trans p _ _ one (scale_down_loop-Dead pick n target _ _ one.cancelled))
          | inr kept ↦ rw (kept, scale_down_loop) one
        ])
        (λ _. Dead-refl p c)

module _ {W E : Type 0} (create : ℤ → Outcome E W) where
  add_worker-Dead : (p : Pool W) → p.cancelled ≡ true → Dead p (add_worker create p).0
  unfolding add_worker
  add_worker-Dead p c = elim (Outcome-cases (create (int32 (p.next_worker_id +ℤ pos 1)))) [
    | inr (e, failed) ↦ rw (failed, add_worker) (record { cancelled = c; same_live = refl })
    | inl (w, made) ↦
        rw (made, add_worker)
          (record { cancelled = c; same_live = live_ids-append p.calls _ (rw c refl) })
  ]

  start_loop-Dead : (n : ℕ) (p : Pool W) → p.cancelled ≡ true → Dead p (start_loop create n p).0
  unfolding start_loop
  start_loop-Dead zero p c = Dead-refl p c
  start_loop-Dead (suc n) p c =
      let one = add_worker-Dead p c in
      elim (Option-cases (add_worker create p).1) [
        | inr (e, failed) ↦ rw (failed, start_loop) one
        | inl done ↦
            rw (done, start_loop) (Dead-trans p _ _ one (start_loop-Dead n _ one.cancelled))
      ]

  scale_up_loop-Dead :
      (n : ℕ) (target : ℤ) (p : Pool W) (added : ℕ)
      → p.cancelled ≡ true
      → Dead p (scale_up_loop create n target p added).0
  unfolding scale_up_loop
  scale_up_loop-Dead zero target p added c = Dead-refl p c
  scale_up_loop-Dead (suc n) target p added c =
      let one = add_worker-Dead p c in
      if_elim (λ (r : Pool W × ℕ). Dead p r.0) (ltb_ℤ (count p) target)
        (λ more. elim (Option-cases (add_worker create p).1) [
          | inr (e, failed) ↦ rw (failed, scale_up_loop) one
          | inl done ↦
              rw (done, scale_up_loop)
                (Dead-trans p _ _ one (scale_up_loop-Dead n target _ _ one.cancelled))
        ])
        (λ _. Dead-refl p c)

  pub start-Dead : (p : Pool W) → p.cancelled ≡ true → Dead p (start create p).0
  unfolding start
  start-Dead p c =
      let all = start_loop-Dead (pos_part p.size) p c in
      if_elim (λ (r : Pool W × Option (PoolError E)). Dead p r.0) p.started (λ on. Dead-refl p c)
        (λ off. elim (Option-cases (start_loop create (pos_part p.size) p).1) [
          | inl done ↦
              rw (done, finish_start)
                (record { cancelled = all.cancelled; same_live = all.same_live })
          | inr (e, failed) ↦
              rw (failed, finish_start) (Dead-trans p _ _ all (stop_all-Dead _ all.cancelled))
        ])

  pub scale-Dead :
      (pick : List (ℤ × W) → ℕ) (p : Pool W) (delta : ℤ)
      → p.cancelled ≡ true
      → Dead p (scale create pick p delta).0
  unfolding scale scale_up scale_down
  scale-Dead pick p delta c =
      let ends = λ (r : Pool W × ℕ × ℕ). Dead p r.0 in
      let loops = λ (r : Pool W × ℕ). Dead p r.0 in
      let target = calculate_new_size p delta in
      if_elim ends p.started
        (λ _.
          if_elim ends (ltb_ℤ (pos 0) delta)
            (λ _.
              if_elim loops (leb_ℤ (int64 (target -ℤ count p)) (pos 0)) (λ _. Dead-refl p c)
                (λ _. scale_up_loop-Dead _ target p 0 c))
            (λ _.
              if_elim ends (ltb_ℤ delta (pos 0))
                (λ _.
                  if_elim loops (leb_ℤ (int64 (count p -ℤ target)) (pos 0)) (λ _. Dead-refl p c)
                    (λ _. scale_down_loop-Dead pick _ target p 0 c))
                (λ _. Dead-refl p c)))
        (λ _. Dead-refl p c)

module _ {W E : Type 0} (create : ℤ → Outcome E W) (pick : List (ℤ × W) → ℕ) where
  -- The pools that Start, Stop and Scale make of a pool, called in any order.
  pub data Reaches (p : Pool W) : Pool W → Type 0 where
    here : Reaches p p
    starting : {q : Pool W} → Reaches p q → Reaches p (start create q).0
    stopping : {q : Pool W} → Reaches p q → Reaches p (stop q)
    scaling : {q : Pool W} (delta : ℤ) → Reaches p q → Reaches p (scale create pick q delta).0

  -- A pool whose context is cancelled starts no worker with a live context, whatever is called.
  pub cancelled_forever : (p q : Pool W) → p.cancelled ≡ true → Reaches p q → Dead p q
  cancelled_forever p q c here = Dead-refl p c
  cancelled_forever p q c (starting {q = q₁} run) =
      let g = cancelled_forever p q₁ c run in Dead-trans p q₁ _ g (start-Dead create q₁ g.cancelled)
  cancelled_forever p q c (stopping {q = q₁} run) =
      let g = cancelled_forever p q₁ c run in Dead-trans p q₁ _ g (stop-Dead q₁ g.cancelled)
  cancelled_forever p q c (scaling {q = q₁} delta run) =
      let g = cancelled_forever p q₁ c run in
      Dead-trans p q₁ _ g (scale-Dead create pick q₁ delta g.cancelled)

  stopped_same_live : (p : Pool W) → live_ids (stop p).calls ≡ live_ids p.calls
  unfolding stop stop_all_workers
  stopped_same_live p =
      let emptied = stop_all-Dead (record p { cancelled = true }) refl in
      if_elim (λ (q : Pool W). live_ids q.calls ≡ live_ids p.calls) p.started
        (λ on. emptied.same_live) (λ off. refl)

  stop_cancels : (p : Pool W) → p.started ≡ true → (stop p).cancelled ≡ true
  unfolding stop stop_all_workers
  stop_cancels p on = simp on

  -- Once a started pool has been stopped, it never starts a worker with a live context again: every
  -- later Start and Scale, in whatever order, hands out a cancelled one.
  pub restart_cancelled :
      (p q : Pool W)
      → p.started ≡ true
      → Reaches (stop p) q
      → (q.cancelled ≡ true) × (live_ids q.calls ≡ live_ids p.calls)
  restart_cancelled p q on run =
      let g = cancelled_forever (stop p) q (stop_cancels p on) run in
      (g.cancelled, g.same_live ∙ stopped_same_live p)
