-- ===== src/Manager/Lifecycle/Shutdown.antt =====
-- pkg/manager/manager.go: Stop after a restart, and the contexts of the workers.
use lemmings.Common.{
  ◌≡◌, refl, sym, ap, ◌∙◌, Bool, if_elim, true, Option, Option-cases, none, inl, inr, Outcome, ℤ,
  arith,
}
use lemmings.Worker.Pool.{Pool, PoolError, new_pool}
use lemmings.Worker.Pool
use lemmings.Manager.Lifecycle.{
  Manager, ManagerError, SubmitError, Ending, returns, fails, panics, start, stop,
}

module _ {P W V C K E F : Type 0} (create : ℤ → Outcome E P) where
  -- Whether shutdownCh is closed at the end of a call that returned.
  abbrev shut_of : Ending SubmitError (Manager P W V C K F) → Bool
  shut_of (returns m) = m.shut_down
  shut_of (fails e) = true
  shut_of panics = true

  stop_shuts : (m : Manager P W V C K F) → m.started ≡ true → shut_of (stop m) ≡ true
  unfolding stop
  stop_shuts m on =
      rw on (if_elim (λ x. shut_of x ≡ true) m.shut_down (λ again. refl) (λ first. refl))

  start_keeps_shut : (m : Manager P W V C K F) → (start create m).0.shut_down ≡ m.shut_down
  unfolding start
  start_keeps_shut m =
      if_elim (λ (x : Manager P W V C K F × Option (ManagerError E)). x.0.shut_down ≡ m.shut_down)
        m.started (λ on. refl)
        (λ off. elim (Option-cases (Pool.start create m.worker_pool).1) [
          | inl done ↦ rw done refl
          | inr (e, failed) ↦ rw failed refl
        ])

  start_starts :
      (m : Manager P W V C K F) → (start create m).1 ≡ none → (start create m).0.started ≡ true
  unfolding start
  start_starts m done = ground arith

  -- A manager that was started, stopped and started again panics when it is stopped: shutdownCh is
  -- closed a second time.
  pub second_stop_panics :
      (m m₁ : Manager P W V C K F)
      → m.started ≡ true
      → stop m ≡ returns m₁
      → (start create m₁).1 ≡ none
      → stop (start create m₁).0 ≡ panics
  unfolding stop
  second_stop_panics m m₁ on stopped restarted =
      let shut = start_keeps_shut m₁ ∙ sym (ap shut_of stopped) ∙ stop_shuts m on in
      rw (start_starts m₁ restarted, shut) refl
