-- ===== src/Examples/Tests.antt =====
-- The examples on concrete values. The world is a clock in nanoseconds; a random number is one below its
-- bound; and the manager is one that was made with the default configuration.
use lemmings.Common.{
  none, Option, ◌≢◌, ℕ, zero, suc, ◌+◌, ◌-◌, refl, some, ok, err, ap, Outcome, Bool, true, false,
  [], ◌∷◌, ℤ, pos, pos_part, arith, int64, ◌+ℤ◌,
}
use lemmings.Worker.Errors.{Error}
use lemmings.Worker.Task.Dispatch
use lemmings.Worker.Task.Simple
use lemmings.Worker.Task.Function
use lemmings.Worker.Pool
use lemmings.Worker.Pool.{initial_pool}
use lemmings.Utils.Random.{secure_intn}
use lemmings.Utils.Tests.{tenths}
use lemmings.Manager.Config
use lemmings.Manager.Lifecycle
use lemmings.Manager.Lifecycle.{Manager, assemble, count_submitted}
use lemmings.Manager.Lifecycle.Submission.{enable_dynamic_scaling, Choice, sends, shuts, submit}
use lemmings.Manager.Lifecycle.Waiting
use lemmings.Manager.Lifecycle.Waiting.{context_done, ticks}
use lemmings.Examples.{Machine, TaskResult, draw, math_task, io_task, mixed_task}
use lemmings.Examples.Processor
use lemmings.Examples.Processor.{
  new_task_processor, CustomWorker, TaskProcessor, processor_config, process_math, process_io,
  process_mixed, process_loop, submit_task,
}
use lemmings.Examples.Rounds.{Processed}
use lemmings.Examples.Submitting.{IsBelow, process_lem}
use lemmings.Examples.Main
use lemmings.Examples.Main.{
  set_up, all_submitted, stopped, panicked, all_completed, submit_all, wait_loop, monitor,
  submit_simple,
}
use lemmings.Examples.Unfinished.{advanced_never_completes}

abbrev value : {E : Type 0} → Outcome E ℕ → ℕ → ℕ
value (ok n) d = n
value (err e) d = d

abbrev machine : Machine ℕ
machine = record {
  now = λ w. (pos w, w);
  since = λ t w. (pos (w - pos_part t), w);
  sleep = λ t w. w + pos_part t;
  random = record { int = λ n w. (ok (n - 1), w); read = λ n w. (ok [], w); uint32 = λ b. 0 };
  formats = record { decimal = λ n. "n"; duration = λ d. "d" };
}

abbrev manager : {P V : Type 0} → Manager P ℕ V Bool Bool ℤ
manager =
    record (assemble tenths (pos 0) (processor_config tenths)
      (initial_pool false (pos 2) (pos 50))) { started = true }

abbrev processor : TaskProcessor (Manager ℤ ℕ TaskResult Bool Bool ℤ)
processor = record { total_processed = pos 0; manager = manager; results_closed = false }

-- After one task the manager shuts down, so that the second is refused.
abbrev one : ℕ → Choice
one zero = sends
one (suc i) = shuts

below : IsBelow machine
below n u k h e = omega (arith, ap (λ (r : Outcome Error ℕ). value r n) e)

process_example :
    Processed (λ i. "math-n") 3 0 0 processor (process_math machine one (pos 3) (pos 1) processor 0)
    × Processed (λ i. "io-n") 3 0 0 processor (process_io machine one (pos 3) (pos 100) processor 0)
    × Processed (λ i. "mixed-n") 3 0 0 processor (process_mixed machine one (pos 3) processor 0)
process_example = process_lem machine one 3 0 (pos 1) (pos 100) processor 0 below (omega arith) refl

no_count : (n : ℕ) → pos (suc n) ≢ pos 0
no_count n e = omega (arith, ap pos_part e)

abbrev not_done : ℕ → Bool × ℕ
not_done w = (false, w)

-- The manager of the advanced example
abbrev CustomManager : Type 0
CustomManager = Manager (CustomWorker ℕ TaskResult Bool Bool) ℕ TaskResult Bool Bool ℤ

abbrev or_else : Option (TaskProcessor CustomManager) → TaskProcessor CustomManager
or_else (some tp) = tp
or_else none = record { total_processed = pos 9; manager = manager; results_closed = true }

abbrev started : TaskProcessor CustomManager
started = or_else (set_up tenths (pos 0) (pos 5) 5)

abbrev after : Main.Submitted CustomManager ℕ → TaskProcessor CustomManager × ℕ
after (all_submitted tp w) = (tp, w)
after (stopped tp w) = (tp, w)
after panicked = (started, 0)

abbrev submitted : TaskProcessor CustomManager × ℕ
submitted = after (submit_all machine not_done (λ call. one) started 5)

advanced_example :
    wait_loop submitted.0 (ticks submitted.0.manager submitted.0.manager ∷ []) ≢ all_completed
unfolding submit_all process_math process_loop submit_task submit Dispatch.validate math_task
    Simple.validate Function.new_function_task process_io io_task process_mixed mixed_task draw
    secure_intn Simple.with_retries count_submitted int64 ◌+ℤ◌ set_up new_task_processor
    Lifecycle.new_manager Config.validate processor_config Pool.new_pool Processor.start
    Lifecycle.start Pool.start Pool.start_loop Pool.add_worker enable_dynamic_scaling
advanced_example =
    advanced_never_completes tenths machine (pos 0) (pos 5) not_done (λ call. one) started
      submitted.0 5 submitted.1 (ticks submitted.0.manager submitted.0.manager ∷ []) refl refl
      (no_count 6) ((Waiting.here, Waiting.here), tt)
