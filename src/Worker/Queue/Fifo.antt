-- ===== src/Worker/Queue/Fifo.antt =====
-- pkg/worker/priority_queue.go: any sequence of Push and Pop, under a clock that moves on between two
-- calls of Push, against a queue that is kept in order.
use lemmings.Common.{
  ◌≡◌, refl, ap, subst, ◌∙◌, inl, inr, Bool, Bool-cases, true, false, List, [], ◌∷◌, map, length,
  length-map, length-Perm, All, All-mono, ℤ, ◌≤ℤ◌, ◌<ℤ◌, ltb_ℤ, if◌then◌else◌, arith,
}
use mathlib.Core.Logic.Or
use mathlib.Core.List.{Perm, Perm-prop, Mem, mem-cons, mem-cons_self}
use mathlib.Core.List.Perm
use mathlib.Core.HLevel.{×_prop}
use lemmings.Worker.Heap.Laws.{NotAfter}
use lemmings.Worker.Queue.{PriorityQueue, new_priority_queue, push, pop}
use lemmings.Worker.Queue.Items.{Entry, entry, entries, before, nil_entry}
use lemmings.Worker.Queue.Ordered.{
  insert_entry, IsOrdered, insert_entry-Perm, All-insert_entry, insert_entry-IsOrdered, mem_All,
}
use lemmings.Worker.Queue.Methods.{IsValid, new-IsValid, push_lem, pop_lem}

-- A call on the queue; Push with the time that it reads.
pub data Op (T : Type 0) : Type 0 where
  pushes : ℤ → T → Op T
  pops : Op T

-- The times of the pushes rise, from above the given one.
abbrev pub IsRising : {T : Type 0} → ℤ → List (Op T) → Type 0
IsRising last [] = Unit
IsRising last (pushes now t ∷ ops) = (last <ℤ now) × IsRising now ops
IsRising last (pops ∷ ops) = IsRising last ops

module _ {T : Type 0} (nil_task : T) (priority : T → ℤ) where
  -- The tasks that the calls of Pop return.
  unfoldable pub popped : List (Op T) → PriorityQueue T → List T
  popped [] q = []
  popped (pushes now t ∷ ops) q = popped ops (push nil_task priority now t q)
  popped (pops ∷ ops) q = (pop nil_task q).0 ∷ popped ops (pop nil_task q).1

  -- The reference: a list in order of priority, in which a task goes behind those of its own priority.
  abbrev pub insert : T → List T → List T
  insert t [] = t ∷ []
  insert t (x ∷ s) = if ltb_ℤ (priority x) (priority t) then t ∷ x ∷ s else x ∷ insert t s

  abbrev pub expected : List (Op T) → List T → List T
  expected [] s = []
  expected (pushes now t ∷ ops) s = expected ops (insert t s)
  expected (pops ∷ ops) [] = nil_task ∷ expected ops []
  expected (pops ∷ ops) (x ∷ s) = x ∷ expected ops s

module _ {T : Type 0} where
  task_of : Entry T → T
  task_of e = e.task

  insert_entry-insert :
      (priority : T → ℤ) (nil_task : T) (e : Entry T) (l : List (Entry T))
      → e.priority ≡ priority e.task
      → All (λ x. x.priority ≡ priority x.task) l
      → map task_of (insert_entry e l) ≡ insert nil_task priority e.task (map task_of l)
  unfolding insert_entry task_of
  insert_entry-insert priority nil_task e [] p h = refl
  insert_entry-insert priority nil_task e (x ∷ l) p h =
      elim (Bool-cases (ltb_ℤ x.priority e.priority)) [
        | inl here ↦ rw (← p, ← h.0, here) refl
        | inr later ↦
            rw (← p, ← h.0, later)
              (ap (◌∷◌ x.task) (insert_entry-insert priority nil_task e l p h.1))
      ]

  -- The entry that Pop takes is the first of the ordered list.
  popped_first :
      (nil_task : T) (e x : Entry T) (l rest all : List (Entry T))
      → IsSet T
      → Perm (e ∷ rest) all
      → Perm all (x ∷ l)
      → All (NotAfter (nil_entry nil_task) before e) all
      → IsOrdered (x ∷ l)
      → (e.task ≡ x.task) × Perm rest l
  unfolding task_of
  popped_first nil_task e x l rest all set taken same first o =
      let both = Perm.trans taken same in
      let listed : Mem e (x ∷ l) = (Perm.mem_iff both).0 mem-cons_self in
      let held : Mem x all = (Perm.mem_iff same).1 mem-cons_self in
      let not_before : before x e ≡ false = mem_All (λ y. before y e) false all first held in
      Or.elim (×_prop (set _ _) Perm-prop) (mem-cons.0 listed)
        (λ same_entry. (
          ap task_of same_entry,
          Perm.cons_inv (subst (λ y. Perm (y ∷ rest) (x ∷ l)) same_entry both),
        ))
        (λ behind. absurd (apart not_before (mem_All (before x) true l o.0 behind)))
    where
      apart : {b : Bool} → b ≡ false → b ≡ true → ⊥
      apart f t = cc

module _ {T : Type 0} (nil_task : T) (priority : T → ℤ) where
  -- The queue holds the entries `l`, which are in the order of the queue, at the time of the last push.
  record Matches (clock : ℤ) (q : PriorityQueue T) (l : List (Entry T)) : Type 0 where
    valid : IsValid nil_task q
    same : Perm (entries q.queue) l
    ordered : IsOrdered l
    keyed : All (λ x. x.priority ≡ priority x.task) l
    old : All (λ x. x.timestamp ≤ℤ clock) l

  push-Matches :
      (clock now : ℤ) (t : T) (q : PriorityQueue T) (l : List (Entry T))
      → clock <ℤ now
      → Matches clock q l
      → Matches now
          (push nil_task priority now t q)
          (insert_entry (record { task = t; priority = priority t; timestamp = now }) l)
  push-Matches clock now t q l later m =
      let e : Entry T = record { task = t; priority = priority t; timestamp = now } in
      let (valid, grown) = push_lem nil_task priority now t q m.valid in
      record {
        valid = valid;
        same =
            Perm.trans grown (Perm.trans (Perm.cons e m.same) (Perm.symm (insert_entry-Perm e l)));
        ordered =
            insert_entry-IsOrdered e l (All-mono _ _ l (λ x h. omega (arith, h, later)) m.old)
              m.ordered;
        keyed = All-insert_entry _ e l refl m.keyed;
        old =
            All-insert_entry _ e l (omega arith)
              (All-mono _ _ l (λ x h. omega (arith, h, later)) m.old);
      }

  empty-Matches :
      (clock : ℤ) (q : PriorityQueue T)
      → Matches clock q []
      → ((pop nil_task q).0 ≡ nil_task) × Matches clock (pop nil_task q).1 []
  empty-Matches clock q m = elim (pop_lem nil_task q m.valid) [
    | inl (none_left, unchanged, peeked) ↦ (ap (λ r. r.0) unchanged, rw unchanged m)
    | inr (e, returned, peeked, valid, taken, first) ↦
        absurd (omega (arith, length-Perm _ _ (Perm.trans taken m.same)))
  ]

  pop-Matches :
      (clock : ℤ) (q : PriorityQueue T) (x : Entry T) (l : List (Entry T))
      → IsSet T
      → Matches clock q (x ∷ l)
      → ((pop nil_task q).0 ≡ x.task) × Matches clock (pop nil_task q).1 l
  pop-Matches clock q x l set m = elim (pop_lem nil_task q m.valid) [
    | inl (none_left, unchanged, peeked) ↦
        absurd
          (omega (arith, length-Perm _ _ m.same, ap length none_left, length-map q.queue entry))
    | inr (e, returned, peeked, valid, taken, first) ↦
        let (same_task, same) = popped_first nil_task e x l _ _ set taken m.same first m.ordered in
        (
          returned ∙ same_task,
          record {
            valid = valid;
            same = same;
            ordered = m.ordered.1;
            keyed = m.keyed.1;
            old = m.old.1;
          },
        )
  ]

  popped-expected :
      (ops : List (Op T)) (clock : ℤ) (q : PriorityQueue T) (l : List (Entry T))
      → IsSet T
      → IsRising clock ops
      → Matches clock q l
      → popped nil_task priority ops q ≡ expected nil_task priority ops (map task_of l)
  unfolding popped task_of
  popped-expected [] clock q l set r m = refl
  popped-expected (pushes now t ∷ ops) clock q l set r m =
      let e : Entry T = record { task = t; priority = priority t; timestamp = now } in
      popped-expected ops now _ (insert_entry e l) set r.1 (push-Matches clock now t q l r.0 m)
      ∙ ap (expected nil_task priority ops) (insert_entry-insert priority nil_task e l refl m.keyed)
  popped-expected (pops ∷ ops) clock q [] set r m =
      let (returned, m') = empty-Matches clock q m in
      let ih = popped-expected ops clock (pop nil_task q).1 [] set r m' in
      ap (λ t. t ∷ popped nil_task priority ops (pop nil_task q).1) returned ∙ ap (◌∷◌ nil_task) ih
  popped-expected (pops ∷ ops) clock q (x ∷ l) set r m =
      let (returned, m') = pop-Matches clock q x l set m in
      let ih = popped-expected ops clock (pop nil_task q).1 l set r m' in
      ap (λ t. t ∷ popped nil_task priority ops (pop nil_task q).1) returned ∙ ap (◌∷◌ x.task) ih

  -- Where the clock rises from each Push to the next, a new queue under any sequence of Push and Pop
  -- returns what a list returns that is kept in order of priority, the tasks of one priority in the
  -- order in which they were pushed; a Pop of an empty queue returns nil.
  pub fifo_lem :
      (start : ℤ) (ops : List (Op T))
      → IsSet T
      → IsRising start ops
      → popped nil_task priority ops (new_priority_queue nil_task)
        ≡ expected nil_task priority ops []
  unfolding new_priority_queue
  fifo_lem start ops set r =
      popped-expected ops start (new_priority_queue nil_task) [] set r (record {
        valid = new-IsValid nil_task;
        same = Perm.nil;
        ordered = tt;
        keyed = tt;
        old = tt;
      })
