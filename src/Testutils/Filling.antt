-- ===== src/Testutils/Filling.antt =====
-- internal/testutils/mocks.go: a MockWorker whose results nobody receives.
use lemmings.Common.{
  pos, ◌⊎◌, inl, inr, Bool-cases, ℕ, zero, suc, ◌+◌, ◌≤◌, ◌<◌, ◌≡◌, refl, sym, ap, ◌∙◌, some, ltb,
  true, false, List, [], ◌∷◌, ◌++◌, length, length-append, take, ℤ, arith,
}
use mathlib.Core.List.{append_assoc, append-nil}
use lemmings.Worker.Task.{Task, Timers}
use lemmings.Worker.Task.Dispatch
use lemmings.Worker.Exec.{Result}
use lemmings.Testutils.Mocks.{
  ResultChan, MockWorker, Executed, returned, blocked, new_mock_worker, new_result, count_task,
  execute_task,
}

module _ {W V C K : Type 0} (timers : Timers W V C) (ctx : C) where
  -- Executing some tasks, one after another: the results that a worker with that id sends about them.
  abbrev pub run_all : ℤ → List (Task W V C K) → W → List (Result W V C K) × W
  run_all id [] w = ([], w)
  run_all id (t ∷ ts) w =
      let ((output, err), w₁) = Dispatch.execute timers t ctx w in
      let (rs, w₂) = run_all id ts w₁ in
      (
        record {
          task_id = Dispatch.id t;
          output = output;
          err = err;
          duration = pos 1_000_000;
          worker = id;
          attempt = pos 1;
          task = t;
        }
            ∷ rs,
        w₂,
      )

  -- From `b`, whose channel is `ch`, and the world `w` the worker has come to `b'` and `w'` by executing
  -- the tasks `given` and sending the results of the tasks `sent`, in that order.
  pub record Sent (b : MockWorker W V C K) (ch : ResultChan W V C K) (w : W)
      (given sent : List (Task W V C K)) (b' : MockWorker W V C K) (w' : W) : Type 0 where
    pub channel : ResultChan W V C K
    pub is_channel : b'.result_chan ≡ some channel
    pub same_capacity : channel.capacity ≡ ch.capacity
    pub same_id : b'.id ≡ b.id
    pub all_given : b'.tasks ≡ b.tasks ++ given
    pub all_sent : channel.waiting ≡ ch.waiting ++ (run_all b.id sent w).0
    pub longer : length channel.waiting ≡ length ch.waiting + length sent
    pub executed : w' ≡ (run_all b.id given w).1

  -- The worker `b` and the world `w'`, after the tasks `given` were executed in the world `w`, where the
  -- results of the tasks `sent` are in the channel.
  abbrev pub Holds :
      ℤ → W → List (Task W V C K) → List (Task W V C K) → MockWorker W V C K → W → Type 0
  Holds id w given sent b w' =
      (b.tasks ≡ given)
      × (w' ≡ (run_all id given w).1)
      × (ch : ResultChan W V C K) × (b.result_chan ≡ some ch)
      × (ch.waiting ≡ (run_all id sent w).0)

  Sent-Holds :
      {given sent : List (Task W V C K)} (b b₁ : MockWorker W V C K) (capacity : ℕ) (w v : W)
      → b.tasks ≡ []
      → Sent b (record { waiting = []; capacity = capacity }) w given sent b₁ v
      → Holds b.id w given sent b₁ v
  Sent-Holds {given = given} b b₁ capacity w v fresh s =
      (s.all_given ∙ ap (λ l. l ++ given) fresh, s.executed, s.channel, s.is_channel, s.all_sent)

  -- ExecuteTask of some tasks, one after another.
  abbrev pub execute_all : List (Task W V C K) → MockWorker W V C K → W → Executed W V C K
  execute_all [] b w = returned b w
  execute_all (t ∷ ts) b w = elim (execute_task timers ctx t b w) [
    | blocked b₁ w₁ ↦ blocked b₁ w₁
    | returned b₁ w₁ ↦ execute_all ts b₁ w₁
  ]

  sends_one :
      (t : Task W V C K) (b : MockWorker W V C K) (ch : ResultChan W V C K) (w : W)
      → b.result_chan ≡ some ch
      → length ch.waiting < ch.capacity
      → (b₁ : MockWorker W V C K) × (v : W) × (execute_task timers ctx t b w ≡ returned b₁ v)
        × Sent b ch w (t ∷ []) (t ∷ []) b₁ v
  unfolding execute_task
  sends_one t b ch w e h =
      let room : ltb (length ch.waiting) ch.capacity ≡ true = ground arith in
      let (end, v) = Dispatch.execute timers t ctx w in
      let ch₁ = record ch { waiting = ch.waiting ++ new_result t b end ∷ [] } in
      (
        record b {
          tasks = b.tasks ++ t ∷ [];
          stats = count_task end.1 b.stats;
          result_chan = some ch₁;
        },
        v,
        rw (e, room, execute_task) refl,
        record {
          channel = ch₁;
          is_channel = refl;
          same_capacity = refl;
          same_id = refl;
          all_given = refl;
          all_sent = refl;
          longer = length-append ch.waiting _;
          executed = refl;
        },
      )

  blocks_on :
      (t : Task W V C K) (b : MockWorker W V C K) (ch : ResultChan W V C K) (w : W)
      → b.result_chan ≡ some ch
      → ch.capacity ≤ length ch.waiting
      → (b₁ : MockWorker W V C K) × (v : W) × (execute_task timers ctx t b w ≡ blocked b₁ v)
        × Sent b ch w (t ∷ []) [] b₁ v
  unfolding execute_task
  blocks_on t b ch w e h =
      let full : ltb (length ch.waiting) ch.capacity ≡ false = ground arith in
      (
        record b { tasks = b.tasks ++ t ∷ []; result_chan = some ch },
        (Dispatch.execute timers t ctx w).1,
        rw (e, full, execute_task)
            (ap
              (λ c.
                blocked (record b { tasks = b.tasks ++ t ∷ []; result_chan = c })
                  (Dispatch.execute timers t ctx w).1)
              e),
        record {
          channel = ch;
          is_channel = refl;
          same_capacity = refl;
          same_id = refl;
          all_given = refl;
          all_sent = sym (append-nil _);
          longer = omega arith;
          executed = refl;
        },
      )

  -- What one task and those after it do.
  Sent-after :
      (b b₁ b₂ : MockWorker W V C K) (ch : ResultChan W V C K) (given sent : List (Task W V C K))
      (t : Task W V C K) (w w₁ w₂ : W) (first : Sent b ch w (t ∷ []) (t ∷ []) b₁ w₁)
      → Sent b₁ first.channel w₁ given sent b₂ w₂
      → Sent b ch w (t ∷ given) (t ∷ sent) b₂ w₂
  Sent-after b b₁ b₂ ch given sent t w w₁ w₂ first rest =
      let later = λ (ts : List (Task W V C K)).
        ap (λ i. run_all i ts w₁) first.same_id ∙ ap (run_all b.id ts) first.executed in
      record {
        channel = rest.channel;
        is_channel = rest.is_channel;
        same_capacity = rest.same_capacity ∙ first.same_capacity;
        same_id = rest.same_id ∙ first.same_id;
        all_given =
            rest.all_given
            ∙ ap (λ l. l ++ given) first.all_given
            ∙ append_assoc b.tasks (t ∷ []) given;
        all_sent =
            rest.all_sent
            ∙ ap (λ l. l ++ (run_all b₁.id sent w₁).0) first.all_sent
            ∙ append_assoc ch.waiting (run_all b.id (t ∷ []) w).0 (run_all b₁.id sent w₁).0
            ∙ ap
                (λ (x : List (Result W V C K) × W).
                  ch.waiting ++ ((run_all b.id (t ∷ []) w).0 ++ x.0))
                (later sent);
        longer = omega (arith, rest.longer, first.longer);
        executed = rest.executed ∙ ap (λ (x : List (Result W V C K) × W). x.1) (later given);
      }

  all_fit :
      (ts : List (Task W V C K)) (b : MockWorker W V C K) (ch : ResultChan W V C K) (w : W)
      → b.result_chan ≡ some ch
      → length ch.waiting + length ts ≤ ch.capacity
      → (b₁ : MockWorker W V C K) × (v : W) × (execute_all ts b w ≡ returned b₁ v)
        × Sent b ch w ts ts b₁ v
  all_fit [] b ch w e h = (
    b,
    w,
    refl,
    record {
      channel = ch;
      is_channel = e;
      same_capacity = refl;
      same_id = refl;
      all_given = sym (append-nil _);
      executed = refl;
      all_sent = sym (append-nil _);
      longer = omega arith;
    },
  )
  all_fit (t ∷ ts) b ch w e h =
      let (b₁, w₁, runs, first) = sends_one t b ch w e (omega arith) in
      let (b₂, w₂, ran, rest) =
        all_fit ts b₁ first.channel w₁ first.is_channel
          (omega (arith, h, first.longer, first.same_capacity)) in
      (b₂, w₂, rw (runs, execute_all) ran, Sent-after b b₁ b₂ ch ts ts t w w₁ w₂ first rest)

  one_blocks :
      (ts : List (Task W V C K)) (k : ℕ) (b : MockWorker W V C K) (ch : ResultChan W V C K) (w : W)
      → b.result_chan ≡ some ch
      → length ch.waiting + k ≡ ch.capacity
      → k < length ts
      → (b₁ : MockWorker W V C K) × (v : W) × (execute_all ts b w ≡ blocked b₁ v)
        × Sent b ch w (take (suc k) ts) (take k ts) b₁ v
  one_blocks [] k b ch w e full h = absurd (omega arith)
  one_blocks (t ∷ ts) zero b ch w e full h =
      let (b₁, w₁, stuck, first) = blocks_on t b ch w e (omega arith) in
      (b₁, w₁, rw (stuck, execute_all) refl, first)
  one_blocks (t ∷ ts) (suc k) b ch w e full h =
      let (b₁, w₁, runs, first) = sends_one t b ch w e (omega arith) in
      let (b₂, w₂, stuck, rest) =
        one_blocks ts k b₁ first.channel w₁ first.is_channel
          (omega (arith, full, first.longer, first.same_capacity)) (omega arith) in
      (
        b₂,
        w₂,
        rw (runs, execute_all) stuck,
        Sent-after b b₁ b₂ ch (take (suc k) ts) (take k ts) t w w₁ w₂ first rest,
      )

  -- A new MockWorker, whose channel nobody receives from, executes as many tasks as the channel has room
  -- for, one after another, and sends the result of each execution, in order; if it is given more,
  -- ExecuteTask executes the next one and then never returns, for want of room for its result.
  pub mock_worker_lem :
      (id : ℤ) (capacity : ℕ) (ts : List (Task W V C K)) (w : W)
      → let b = new_mock_worker id (some (record { waiting = []; capacity = capacity })) in
        ((length ts ≤ capacity)
          × (b₁ : MockWorker W V C K) × (v : W) × (execute_all ts b w ≡ returned b₁ v)
          × Holds id w ts ts b₁ v)
        ⊎ ((capacity < length ts)
            × (b₁ : MockWorker W V C K) × (v : W) × (execute_all ts b w ≡ blocked b₁ v)
            × Holds id w (take (suc capacity) ts) (take capacity ts) b₁ v)
  unfolding new_mock_worker
  mock_worker_lem id capacity ts w =
      let ch : ResultChan W V C K = record { waiting = []; capacity = capacity } in
      let b : MockWorker W V C K = new_mock_worker id (some ch) in
      elim (Bool-cases (ltb capacity (length ts))) [
        | inr fits ↦
            let room : length ts ≤ capacity = ground arith in
            let (b₁, v, runs, sent) = all_fit ts b ch w refl (omega arith) in
            inl (room, b₁, v, runs, Sent-Holds b b₁ capacity w v refl sent)
        | inl more ↦
            let over : capacity < length ts = ground arith in
            let (b₁, v, stuck, sent) = one_blocks ts capacity b ch w refl (omega arith) over in
            inr (over, b₁, v, stuck, Sent-Holds b b₁ capacity w v refl sent)
      ]
