-- ===== src/Worker/Queue.antt =====
-- pkg/worker/priority_queue.go. `T` are the values of the interface Task, of which the queue calls only
-- Priority, and `nil_task` is its nil. The heap's methods are called by container/heap within the
-- slice; outside of it Go panics, and here a read gives `nil_item`. The mutex makes a method one step.
pub mod Items
pub mod Methods
pub mod Ordered
pub mod Fifo
pub mod Ties
use lemmings.Common.{
  ℕ, zero, suc, ◌+◌, ◌-◌, Bool, true, false, List, [], ◌∷◌, ◌++◌, length, get_or, set, take,
  exchange, ℤ, pos, negsuc, ◌+ℤ◌, int64, eqb_ℤ, ltb_ℤ, ◌==◌, if◌then◌else◌,
}
use lemmings.Worker.Heap.{Interface}
use lemmings.Worker.Heap

pub record TaskItem (T : Type 0) : Type 0 where
  pub task : T
  pub priority : ℤ
  pub timestamp : ℤ
  pub index : ℤ

pub record PriorityQueue (T : Type 0) : Type 0 where
  pub queue : List (TaskItem T)
  pub count : ℤ

module _ {T : Type 0} (nil_task : T) where
  abbrev pub nil_item : TaskItem T
  nil_item = record { task = nil_task; priority = pos 0; timestamp = pos 0; index = pos 0 }

  -- taskHeap.Less
  unfoldable pub heap_less : List (TaskItem T) → ℕ → ℕ → Bool
  heap_less a i j =
      let x = get_or a i nil_item in
      let y = get_or a j nil_item in
      if eqb_ℤ x.priority y.priority
      then ltb_ℤ x.timestamp y.timestamp
      else ltb_ℤ y.priority x.priority

  -- `(*h)[i].index = i`
  unfoldable pub set_index : ℕ → List (TaskItem T) → List (TaskItem T)
  set_index i a = set a i (record (get_or a i nil_item) { index = pos i })

  -- taskHeap.Swap
  unfoldable pub heap_swap : ℕ → ℕ → List (TaskItem T) → List (TaskItem T)
  unfolding set_index
  heap_swap i j a = set_index j (set_index i (exchange nil_item i j a))

  -- taskHeap.Push and taskHeap.Pop
  unfoldable pub heap_push : TaskItem T → List (TaskItem T) → List (TaskItem T)
  heap_push x a = a ++ record x { index = pos (length a) } ∷ []

  unfoldable pub heap_pop : List (TaskItem T) → TaskItem T × List (TaskItem T)
  heap_pop a = let n = length a - 1 in (record (get_or a n nil_item) { index = negsuc 0 }, take n a)

  -- taskHeap as a heap.Interface
  abbrev pub task_heap : Interface (List (TaskItem T)) (TaskItem T)
  task_heap = record {
    len = length;
    less = heap_less;
    swap = heap_swap;
    push = heap_push;
    pop = heap_pop;
  }

  -- NewPriorityQueue; heap.Init does nothing with an empty heap.
  unfoldable pub new_priority_queue : PriorityQueue T
  new_priority_queue = record { queue = []; count = pos 0 }

  -- Push, at the given time
  unfoldable pub push : (T → ℤ) → ℤ → T → PriorityQueue T → PriorityQueue T
  push priority now task q =
      let item : TaskItem T = record {
        task = task;
        priority = priority task;
        timestamp = now;
        index = q.count;
      } in
      record { queue = Heap.push task_heap item q.queue; count = int64 (q.count +ℤ pos 1) }

  -- Pop
  unfoldable pub pop : PriorityQueue T → T × PriorityQueue T
  pop q =
      let (item, rest) = Heap.pop task_heap q.queue in
      if length q.queue == 0 then (nil_task, q) else (item.task, record q { queue = rest })

  -- Len and Peek
  unfoldable pub len : PriorityQueue T → ℕ
  len q = length q.queue

  unfoldable pub peek : PriorityQueue T → T
  peek q = if length q.queue == 0 then nil_task else (get_or q.queue 0 nil_item).task
