-- ===== src/Examples/Main.antt =====
-- The main functions of examples/advanced/main.go and examples/simple/main.go. Their factories never fail,
-- so that the type of their errors is empty. Logging, the signals and the goroutine that prints statistics are left out.
use lemmings.Common.{
  ok, ℕ, zero, suc, Option, none, some, Bool, true, false, ◌&&◌, List, [], ◌∷◌, ℤ, pos, ◌+ℤ◌, int64,
  leb_ℤ, ltb_ℤ, eqb_ℤ, String,
}
use lemmings.Utils.Floats.{Floats}
use lemmings.Worker.Loop.{SimpleWorker, nil_chan, new_simple_worker}
use lemmings.Manager.Config.{Config, default_config}
use lemmings.Manager.Lifecycle
use lemmings.Manager.Lifecycle.{Manager, returns, fails, panics}
use lemmings.Manager.Lifecycle.Submission.{
  enable_dynamic_scaling, Choice, submit, get_stats, get_task_queue_length,
}
use lemmings.Manager.Lifecycle.Waiting.{WaitRound, context_done, ticks}
use lemmings.Examples.{Machine, TaskResult, simple_task}
use lemmings.Examples.Processor.{
  CustomWorker, new_task_processor, start, TaskProcessor, Submissions, ends, crashes, process_math,
  process_io, process_mixed, get_processed_count,
}

-- How the advanced example ends: interrupted, when all tasks are completed, or after the wait's deadline.
pub data MainEnd : Type 0 where
  interrupted all_completed timed_out : MainEnd

-- The advanced example after its submissions: interrupted, all submitted, or in a panic.
pub data Submitted (M W : Type 0) : Type 0 where
  stopped all_submitted : TaskProcessor M → W → Submitted M W
  panicked : Submitted M W

-- An error is only logged.
abbrev pub go_on :
    {M W : Type 0} → Submissions M W → (TaskProcessor M → W → Submitted M W) → Submitted M W
go_on (ends tp failed w) next = next tp w
go_on crashes next = panicked

module _ {P W C K F : Type 0} (machine : Machine W) (done : W → Bool × W)
    (choose : ℕ → ℕ → Choice) where
  -- The loop over the batches, with those that are left. `done` says whether the context is done, and
  -- `choose` what the selects of Submit choose, by call, counted backwards, and by task.
  unfoldable pub submit_batches :
      ℕ
      → TaskProcessor (Manager P W TaskResult C K F)
      → W
      → Submitted (Manager P W TaskResult C K F) W
  submit_batches zero tp w = all_submitted tp w
  submit_batches (suc left) tp w =
      let (is_done, w₁) = done w in
      elim is_done [
        | true ↦ stopped tp w₁
        | false ↦
            go_on (process_mixed machine (choose left) (pos 100) tp w₁)
              (λ tp₁ w₂. submit_batches left tp₁ (machine.sleep (pos 500_000_000) w₂))
      ]

  -- The submissions of main.
  unfoldable pub submit_all :
      TaskProcessor (Manager P W TaskResult C K F) → W → Submitted (Manager P W TaskResult C K F) W
  unfolding submit_batches
  submit_all tp w = go_on (process_math machine (choose 6) (pos 20) (pos 1) tp w) (λ tp₁ w₁.
      go_on (process_io machine (choose 5) (pos 20) (pos 100_000_000) tp₁ w₁)
        (λ tp₂ w₂. submit_batches 5 tp₂ w₂))

module _ (floats : Floats) where
  open floats use {Float}

  -- The configuration of the simple example.
  unfoldable pub simple_config : Config Float
  unfolding default_config
  simple_config = record (default_config floats) {
    initial_workers = pos 5;
    max_workers = pos 20;
    verbose = true;
  }

module _ {W V C K : Type 0} (floats : Floats) where
  open floats use {Float}

  -- The start of the advanced example, up to the scaling: its processor, unless NewTaskProcessor or Start
  -- fails, or `make` panics. The first time is that of NewTaskProcessor, the other that of Start.
  -- The signals only cancel the context of main.
  unfoldable pub set_up :
      ℤ → ℤ → W → Option (TaskProcessor (Manager (CustomWorker W V C K) W V C K Float))
  set_up now time w =
      elim (new_task_processor floats {P = CustomWorker W V C K} {W = W} {V = V} {C = C} {K = K}
        {E = ⊥} now) [
          | fails e ↦ none
          | panics ↦ none
          | returns tp ↦
              let (tp₁, failed) = start {E = ⊥} time w tp in
              elim failed [
                | some e ↦ none
                | none ↦ some (record tp₁ { manager = enable_dynamic_scaling tp₁.manager })
              ]
        ]

  -- The start of the simple example, up to the scaling.
  unfoldable pub set_up_simple : ℤ → ℤ → W → Option (Manager (SimpleWorker W V C K) W V C K Float)
  unfolding simple_config
  set_up_simple now time w =
      elim (Lifecycle.new_manager {P = SimpleWorker W V C K} {W = W} {V = V} {C = C} {K = K} {E = ⊥}
        floats now (simple_config floats)) [
          | fails e ↦ none
          | panics ↦ none
          | returns m ↦
              let (m₁, failed) =
                Lifecycle.start {E = ⊥} (λ id. ok (new_simple_worker id nil_chan (pos 3) time w))
                  m in
              elim failed [ some e ↦ none | none ↦ some (enable_dynamic_scaling m₁) ]
        ]

module _ {P W V C K F : Type 0} where
  -- The test of the wait loop: it reads the statistics of the manager `m` and the length of its queue
  -- when it is `n`.
  unfoldable pub all_done : ℤ → Manager P W V C K F → Manager P W V C K F → Bool
  unfolding get_stats get_task_queue_length
  all_done processed m n =
      leb_ℤ processed (int64 ((get_stats m).tasks_completed +ℤ (get_stats m).tasks_failed))
      && eqb_ℤ (get_task_queue_length n) (pos 0)

  -- The wait loop: its rounds before the deadline, each of which ends with the context or a tick. Only
  -- main changes the count of the processor.
  unfoldable pub wait_loop :
      TaskProcessor (Manager P W V C K F) → List (WaitRound (Manager P W V C K F)) → MainEnd
  unfolding all_done get_processed_count
  wait_loop tp [] = timed_out
  wait_loop tp (context_done e ∷ rounds) = interrupted
  wait_loop tp (ticks m n ∷ rounds) = elim (all_done (get_processed_count tp) m n) [
    | true ↦ all_completed
    | false ↦ wait_loop tp rounds
  ]

  -- The test of the simple example's monitor
  unfoldable pub all_processed : Manager P W V C K F → Manager P W V C K F → Bool
  unfolding get_stats get_task_queue_length
  all_processed m n =
      leb_ℤ (get_stats m).tasks_submitted
        (int64 ((get_stats m).tasks_completed +ℤ (get_stats m).tasks_failed))
      && ltb_ℤ (pos 0) (get_stats m).tasks_submitted
      && eqb_ℤ (get_task_queue_length n) (pos 0)

  -- The monitor of the simple example, for so many rounds; `none` while it goes on.
  unfoldable pub monitor : List (WaitRound (Manager P W V C K F)) → Option MainEnd
  unfolding all_processed
  monitor [] = none
  monitor (context_done e ∷ rounds) = some interrupted
  monitor (ticks m n ∷ rounds) = elim (all_processed m n) [
    | true ↦ some all_completed
    | false ↦ monitor rounds
  ]

module _ {P W C K F : Type 0} (machine : Machine W) (choose : ℕ → Choice) where
  -- The loop of the simple example, with the tasks that are left and `i`; an error is only logged.
  unfoldable pub submit_simple : ℕ → ℕ → Manager P W String C K F → W → Manager P W String C K F × W
  submit_simple zero i m w = (m, w)
  submit_simple (suc left) i m w =
      let ((m₁, failed), w₁) = submit m.started (choose i) (simple_task machine i) m w in
      submit_simple left (suc i) m₁ (machine.sleep (pos 50_000_000) w₁)
