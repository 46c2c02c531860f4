-- ===== src/Worker/Queue/Ties.antt =====
-- pkg/worker/priority_queue.go: tasks of one priority that are pushed within one tick of the clock.
use lemmings.Common.{
  ℕ, ◌≡◌, refl, List, [], ◌∷◌, ℤ, pos, negsuc, int64, ◌+ℤ◌, arith, exchange, get_or, false,
}
use lemmings.Worker.Heap
use lemmings.Worker.Heap.{up, up_loop, down, down_loop, child}
use lemmings.Worker.Queue.{
  TaskItem, nil_item, push, pop, new_priority_queue, task_heap, heap_less, heap_swap, set_index,
  heap_push, heap_pop,
}
use lemmings.Worker.Queue.Fifo.{pushes, pops, popped}

module _ {T : Type 0} (nil_task : T) where
  -- Neither of two items of one priority and one time is less than the other.
  tied-less :
      (a : List (TaskItem T)) (i j : ℕ)
      → (get_or a i (nil_item nil_task)).priority ≡ (get_or a j (nil_item nil_task)).priority
      → (get_or a i (nil_item nil_task)).timestamp ≡ (get_or a j (nil_item nil_task)).timestamp
      → heap_less nil_task a i j ≡ false
  unfolding heap_less
  tied-less a i j p t = ground arith

  module _ (p now : ℤ) where
    item : T → ℤ → TaskItem T
    item t k = record { task = t; priority = p; timestamp = now; index = k }

    push_one : (a : T) (k : ℤ) → Heap.push (task_heap nil_task) (item a k) [] ≡ item a (pos 0) ∷ []
    unfolding Heap.push up up_loop item heap_push
    push_one a k = refl

    push_two :
        (a b : T) (k : ℤ)
        → Heap.push (task_heap nil_task) (item b k) (item a (pos 0) ∷ [])
          ≡ item a (pos 0) ∷ item b (pos 1) ∷ []
    unfolding Heap.push up up_loop item heap_push
    push_two a b k =
        rw (tied-less (item a (pos 0) ∷ item b (pos 1) ∷ []) 1 0 refl refl, up_loop) refl

    push_three :
        (a b c : T) (k : ℤ)
        → Heap.push (task_heap nil_task) (item c k) (item a (pos 0) ∷ item b (pos 1) ∷ [])
          ≡ item a (pos 0) ∷ item b (pos 1) ∷ item c (pos 2) ∷ []
    unfolding Heap.push up up_loop item heap_push
    push_three a b c k =
        rw
          (tied-less (item a (pos 0) ∷ item b (pos 1) ∷ item c (pos 2) ∷ []) 2 0 refl refl, up_loop)
          refl

    pop_three :
        (a b c : T)
        → Heap.pop (task_heap nil_task) (item a (pos 0) ∷ item b (pos 1) ∷ item c (pos 2) ∷ [])
          ≡ (item a (negsuc 0), item c (pos 0) ∷ item b (pos 1) ∷ [])
    unfolding Heap.pop down down_loop child item heap_pop heap_swap set_index exchange
    pop_three a b c =
        rw
          (
            tied-less (item c (pos 0) ∷ item b (pos 1) ∷ item a (pos 2) ∷ []) 1 0 refl refl,
            down_loop,
          )
          refl

    pop_two :
        (b c : T)
        → Heap.pop (task_heap nil_task) (item c (pos 0) ∷ item b (pos 1) ∷ [])
          ≡ (item c (negsuc 0), item b (pos 0) ∷ [])
    unfolding Heap.pop down down_loop child item heap_pop heap_swap set_index exchange
    pop_two b c = refl

    pop_one :
        (b : T) → Heap.pop (task_heap nil_task) (item b (pos 0) ∷ []) ≡ (item b (negsuc 0), [])
    unfolding Heap.pop down down_loop child item heap_pop heap_swap set_index exchange
    pop_one b = refl

module _ {T : Type 0} (nil_task : T) (priority : T → ℤ) where
  -- Three tasks of one priority that are pushed at one time do not come out in the order in which they
  -- went in: the third overtakes the second.
  pub ties_reorder :
      (now : ℤ) (a b c : T)
      → priority a ≡ priority c
      → priority b ≡ priority c
      → popped nil_task priority
          (pushes now a ∷ pushes now b ∷ pushes now c ∷ pops ∷ pops ∷ pops ∷ [])
          (new_priority_queue nil_task)
        ≡ a ∷ c ∷ b ∷ []
  unfolding popped new_priority_queue push pop item
  ties_reorder now a b c p q =
      let k₁ = int64 (pos 0 +ℤ pos 1) in
      let k₂ = int64 (k₁ +ℤ pos 1) in
      rw
        (
          p,
          q,
          push_one nil_task (priority c) now a (pos 0),
          push_two nil_task (priority c) now a b k₁,
          push_three nil_task (priority c) now a b c k₂,
          pop_three nil_task (priority c) now a b c,
          pop_two nil_task (priority c) now b c,
          pop_one nil_task (priority c) now b,
        )
        refl
