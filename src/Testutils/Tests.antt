-- ===== src/Testutils/Tests.antt =====
-- internal/testutils on concrete values. The world is a clock in nanoseconds, a condition holds from a time
-- on, and a task returns at once.
use lemmings.Common.{
  none, suc, ◌⊎◌, ℕ, ◌+◌, ◌≤◌, ◌<◌, ◌≡◌, refl, none, some, Bool, true, false, List, [], ◌∷◌, take,
  leb, pos, ◌+ℤ◌, pos_part, arith,
}
use lemmings.Worker.Task.{Timers, Task, foreign, finished}
use lemmings.Testutils.Conditions.{
  Tester, IsClock, wait_for_condition, Ends, wait_for_condition_lem,
}
use lemmings.Testutils.Mocks.{MockWorker, returned, blocked, new_mock_worker}
use lemmings.Testutils.Filling.{execute_all, Holds, mock_worker_lem}

abbrev tester : Tester ℕ
tester = record { now = λ w. (pos w, w); sleep = λ t w. w + pos_part t; errorf = λ text w. w }

-- The condition holds after 25 ms.
abbrev late : ℕ → Bool × ℕ
late w = (leb 25_000_000 w, w)

late-IsClock : IsClock tester late (λ w. pos w)
unfolding ◌+ℤ◌
late-IsClock = record {
  reads = λ w. refl;
  now_later = λ w. omega arith;
  condition_later = λ w. omega arith;
  sleep_later = λ w. ground arith;
}

condition_example :
    Ends tester late 10
      (pos 7 +ℤ pos 100_000_000)
      "too late"
      7
      (wait_for_condition tester late 11 (pos 100_000_000) "too late" 7)
condition_example =
    wait_for_condition_lem tester late (λ w. pos w) 10 (pos 100_000_000) "too late" 7 late-IsClock
      (omega arith)

-- It is seen at the third sleep.
waited_example :
    wait_for_condition tester late 11 (pos 100_000_000) "too late" 7 ≡ some (true, 30_000_007)
unfolding wait_for_condition ◌+ℤ◌
waited_example = refl

abbrev timers : Timers ℕ ℕ Bool
timers = record {
  with_timeout = λ c d. c;
  race = λ c f w. (finished (f c w).0.0 (f c w).0.1, (f c w).1);
}

abbrev task : ℕ → Task ℕ ℕ Bool Bool
task n = foreign record {
  id = "task";
  kind = "test";
  priority = pos 0;
  max_retries = pos 1;
  validate = λ w. (none, w);
  execute = λ c w. ((some n, none), suc w);
}

abbrev three : List (Task ℕ ℕ Bool Bool)
three = task 1 ∷ task 2 ∷ task 3 ∷ []

abbrev mock : MockWorker ℕ ℕ Bool Bool
mock = new_mock_worker (pos 1) (some (record { waiting = []; capacity = 2 }))

filling_example :
    ((3 ≤ 2)
      × (b : MockWorker ℕ ℕ Bool Bool) × (v : ℕ) × (execute_all timers false three mock 0
          ≡ returned b v)
      × Holds timers false (pos 1) 0 three three b v)
    ⊎ ((2 < 3)
        × (b : MockWorker ℕ ℕ Bool Bool) × (v : ℕ) × (execute_all timers false three mock 0
            ≡ blocked b v)
        × Holds timers false (pos 1) 0 (take 3 three) (take 2 three) b v)
filling_example = mock_worker_lem timers false (pos 1) 2 three 0
