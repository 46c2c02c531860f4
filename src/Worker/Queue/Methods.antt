-- ===== src/Worker/Queue/Methods.antt =====
-- pkg/worker/priority_queue.go: what Push, Pop and Peek do.
use lemmings.Common.{
  ◌<◌, ◌≡◌, refl, sym, ap, ◌∙◌, ◌⊎◌, inl, inr, Bool-cases, [], ◌∷◌, length, length-map, All, ℤ,
  ◌==◌, arith,
}
use mathlib.Core.List.{Perm}
use lemmings.Worker.Heap
use lemmings.Worker.Heap.Laws.{NotAfter}
use lemmings.Worker.Heap.Ends
use lemmings.Worker.Queue.{PriorityQueue, task_heap, new_priority_queue, push, pop, peek}
use lemmings.Worker.Queue.Items.{Entry, entry, entries, before, nil_entry, laws, get_or-entries}

module _ {T : Type 0} (nil_task : T) where
  -- The items form a heap, and each has its index.
  abbrev pub IsValid : PriorityQueue T → Type 0
  IsValid q = Ends.IsValid (task_heap nil_task) (nil_entry nil_task) before (laws nil_task) q.queue

  pub new-IsValid : IsValid (new_priority_queue nil_task)
  unfolding new_priority_queue laws
  new-IsValid = record {
    good = λ i h. absurd (omega arith);
    heap = λ c low high. absurd (omega arith);
  }

  -- Push adds the task, with its priority and the time, and keeps the invariant.
  pub push_lem :
      (priority : T → ℤ) (now : ℤ) (task : T) (q : PriorityQueue T)
      → IsValid q
      → IsValid (push nil_task priority now task q)
        × Perm
            (entries (push nil_task priority now task q).queue)
            (record { task = task; priority = priority task; timestamp = now } ∷ entries q.queue)
  unfolding push laws
  push_lem priority now task q v = Ends.push_lem _ _ _ (laws nil_task) _ q.queue v

  -- Pop of an empty queue gives nil. Otherwise Peek shows and Pop returns the task of an entry that
  -- no other comes before, by priority and then by age, and the other entries are left.
  pub pop_lem :
      (q : PriorityQueue T)
      → IsValid q
      → ((q.queue ≡ []) × (pop nil_task q ≡ (nil_task, q)) × (peek nil_task q ≡ nil_task))
        ⊎ ((e : Entry T) × ((pop nil_task q).0 ≡ e.task)
            × (peek nil_task q ≡ e.task)
            × IsValid (pop nil_task q).1
            × Perm (e ∷ entries (pop nil_task q).1.queue) (entries q.queue)
            × All (NotAfter (nil_entry nil_task) before e) (entries q.queue))
  unfolding pop peek laws
  pop_lem q v = elim (Bool-cases (length q.queue == 0)) [
    | inl empty ↦ inl (ground arith, rw empty refl, rw empty refl)
    | inr some ↦
        let positive : 0 < length (entries q.queue) = ground (arith, length-map q.queue entry) in
        let p = Ends.pop_lem _ _ _ (laws nil_task) q.queue positive v in
        inr (
          entry (Heap.pop (task_heap nil_task) q.queue).0,
          rw some refl,
          rw some (ap (λ (e : Entry T). e.task) (sym (p.root ∙ get_or-entries nil_task q.queue 0))),
          rw some p.valid,
          rw some p.same,
          p.first,
        )
  ]
