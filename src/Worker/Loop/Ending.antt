-- ===== src/Worker/Loop/Ending.antt =====
-- pkg/worker/worker.go: when SimpleWorker's goroutine ends.
use lemmings.Common.{
  ◌⊎◌, inl, inr, Option, none, some, ℕ, zero, suc, ◌+◌, ◌≤◌, ◌≡◌, refl, sym, ap, ◌∙◌, Bool, true,
  false, List, [], ◌∷◌, ◌++◌, length, if◌then◌else◌, arith,
}
use mathlib.Core.List.{append-nil, append_assoc}
use lemmings.Worker.Errors.{Error}
use lemmings.Worker.Task.{Task}
use lemmings.Worker.Exec.{Env}
use lemmings.Worker.Loop.{
  TaskChan, nil_chan, chan, SimpleWorker, receive, Round, context_done, own_context_done,
  channel_closed, receives,
}
use lemmings.Worker.Loop.Delivery.{waiting, reported, reported-receive}

is_closed : {W V C K : Type 0} → TaskChan W V C K → Bool
is_closed nil_chan = false
is_closed (chan tasks closed) = closed

not_both : {o : Option Error} {e : Error} → o ≡ none → o ≡ some e → ⊥
not_both n s = cc

apart : {b : Bool} → b ≡ false → b ≡ true → ⊥
apart f t = cc

module _ {W V C K : Type 0} (env : Env W V C K) (ctx : C) where
  -- That many rounds of the goroutine, with nothing else between them.
  pub data Rounds (s : SimpleWorker W V C K) : ℕ → SimpleWorker W V C K → Type 0 where
    none_yet : Rounds s zero s
    then_one :
        {n : ℕ} {t u : SimpleWorker W V C K} → Rounds s n t → Round env ctx t u → Rounds s (suc n) u

  -- The rounds that a worker can still make.
  abbrev pub rounds_left : SimpleWorker W V C K → ℕ
  rounds_left s = if s.running then suc (length (waiting s.task_ch)) else 0

  Round-rounds_left :
      {s t : SimpleWorker W V C K} → Round env ctx s t → suc (rounds_left t) ≤ rounds_left s
  unfolding receive
  Round-rounds_left (Round.leaves (context_done on done)) = ground arith
  Round-rounds_left (Round.leaves (own_context_done on done)) = ground arith
  Round-rounds_left (Round.leaves (channel_closed on done)) = ground arith
  Round-rounds_left {s} (receives {task} {rest} {closed} on got) =
      let longer : length (waiting s.task_ch) ≡ suc (length rest) =
        ap (λ c. length (waiting c)) got in
      ground (arith, longer)

  -- Between two sends a running worker makes at most one round for each task that waits, and one more.
  pub Rounds-bounded :
      (s t : SimpleWorker W V C K) (n : ℕ) → Rounds s n t → n + rounds_left t ≤ rounds_left s
  Rounds-bounded s t zero none_yet = omega arith
  Rounds-bounded s t (suc n) (then_one {t = m} run step) =
      omega (arith, Rounds-bounded s m n run, Round-rounds_left step)

  -- The channel is closed with the tasks `l` in it, the results about `all` but these have been offered, and
  -- the worker runs or has left none.
  record Drains (all : List (Task W V C K)) (s : SimpleWorker W V C K) : Type 0 where
    left : List (Task W V C K)
    channel : s.task_ch ≡ chan left true
    accounted : reported s ++ left ≡ all
    unstopped : s.stopped ≡ false
    ended : (s.running ≡ true) ⊎ ((s.running ≡ false) × (left ≡ []))

  receive-Drains :
      (all : List (Task W V C K)) (s : SimpleWorker W V C K) (task : Task W V C K)
      (rest : List (Task W V C K)) (closed : Bool)
      → s.running ≡ true
      → s.task_ch ≡ chan (task ∷ rest) closed
      → Drains all s
      → Drains all (receive env ctx task rest closed s)
  unfolding receive is_closed
  receive-Drains all s task rest closed on got d =
      let same = sym got ∙ d.channel in
      let held : task ∷ rest ≡ d.left = ap waiting same in
      record {
        left = rest;
        channel = ap (λ c. chan rest (is_closed c)) same;
        accounted =
            ap (λ l. l ++ rest) (reported-receive env ctx task rest closed s)
            ∙ append_assoc (reported s) (task ∷ []) rest
            ∙ ap (λ l. reported s ++ l) held
            ∙ d.accounted;
        unstopped = d.unstopped;
        ended = inl refl;
      }

  module _ (undone : (w : W) → (env.poll ctx w).0 ≡ none) where
    Round-Drains :
        {s t : SimpleWorker W V C K} (all : List (Task W V C K))
        → Round env ctx s t
        → Drains all s
        → Drains all t
    Round-Drains {s} all (Round.leaves (context_done on done)) d =
        absurd (not_both (undone s.world) done)
    Round-Drains all (Round.leaves (own_context_done on done)) d = absurd (apart d.unstopped done)
    Round-Drains all (Round.leaves (channel_closed on closed)) d = record {
      left = d.left;
      channel = d.channel;
      accounted = d.accounted;
      unstopped = d.unstopped;
      ended = inr (refl, ap waiting (sym d.channel ∙ closed));
    }
    Round-Drains {s} all (receives {task} {rest} {closed} on got) d =
        receive-Drains all s task rest closed on got d

    Rounds-Drains :
        (n : ℕ) {s t : SimpleWorker W V C K} (all : List (Task W V C K))
        → Drains all s
        → Rounds s n t
        → Drains all t
    Rounds-Drains zero all d none_yet = d
    Rounds-Drains (suc n) all d (then_one run step) =
        Round-Drains all step (Rounds-Drains n all d run)

    next-Round :
        (l : List (Task W V C K)) (s : SimpleWorker W V C K)
        → s.running ≡ true
        → s.task_ch ≡ chan l true
        → (t : SimpleWorker W V C K) × Round env ctx s t
    next-Round [] s on closed = (_, Round.leaves (channel_closed on closed))
    next-Round (task ∷ rest) s on got = (_, receives on got)

    -- A running worker whose channel is closed, and whose contexts are not done, can make a next round
    -- after any number of rounds, or has ended and offered a result about each task that waited,
    -- in their order.
    pub closed_drains :
        (tasks : List (Task W V C K)) (s t : SimpleWorker W V C K) (n : ℕ)
        → s.running ≡ true
        → s.stopped ≡ false
        → s.task_ch ≡ chan tasks true
        → Rounds s n t
        → ((t.running ≡ true) × ((u : SimpleWorker W V C K) × Round env ctx t u))
          ⊎ ((t.running ≡ false) × (reported t ≡ reported s ++ tasks))
    closed_drains tasks s t n on unstopped closed run =
        let d =
          Rounds-Drains n (reported s ++ tasks)
            (record {
              left = tasks;
              channel = closed;
              accounted = refl;
              unstopped = unstopped;
              ended = inl on;
            })
            run in
        elim d.ended [
          | inl running ↦ inl (running, next-Round d.left t running d.channel)
          | inr (over, none_left) ↦ inr (
            over,
            sym (append-nil (reported t)) ∙ ap (λ l. reported t ++ l) (sym none_left) ∙ d.accounted,
          )
        ]
