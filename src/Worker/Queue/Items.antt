-- ===== src/Worker/Queue/Items.antt =====
-- pkg/worker/priority_queue.go: taskHeap is a heap.Interface, and keeps the items' indices.
use lemmings.Common.{
  ℕ, zero, suc, ◌-◌, ◌<◌, ◌≡◌, refl, ap, sym, ◌∙◌, Bool, true, false, List, [], ◌∷◌, ◌++◌, map,
  length, get_or, get_or-append, get_or-last, get_or-set, set, take, length-take, get_or-take,
  take-get_or, subst, exchange, get_or-exchange, length-append, length-exchange, length-set,
  length-map, ℤ, pos, eqb_ℤ, ltb_ℤ, ◌==◌, if◌then◌else◌, arith,
}
use mathlib.Core.List.{map-append}
use native.Mathlib.Decide.{ℕ_discrete}
use lemmings.Worker.Heap.Laws.{Order, Laws}
use lemmings.Worker.Queue.{
  TaskItem, nil_item, heap_less, set_index, heap_swap, heap_push, heap_pop, task_heap,
}

-- An item without its index.
pub record Entry (T : Type 0) : Type 0 where
  pub task : T
  pub priority : ℤ
  pub timestamp : ℤ

-- The order of the queue: the higher priority first, and then the older.
abbrev pub before : {T : Type 0} → Entry T → Entry T → Bool
before x y =
    if eqb_ℤ x.priority y.priority
    then ltb_ℤ x.timestamp y.timestamp
    else ltb_ℤ y.priority x.priority

pub before-Order : {T : Type 0} → Order {B = Entry T} before
before-Order = record { asymmetric = λ x y h. ground arith; transitive = λ x y z g h. ground arith }

module _ {T : Type 0} where
  abbrev pub entry : TaskItem T → Entry T
  entry x = record { task = x.task; priority = x.priority; timestamp = x.timestamp }

  abbrev pub entries : List (TaskItem T) → List (Entry T)
  entries = map entry

module _ {T : Type 0} (nil_task : T) where
  abbrev pub nil_entry : Entry T
  nil_entry = entry (nil_item nil_task)

  -- Every item knows where it is.
  abbrev pub IsIndexed : List (TaskItem T) → Type 0
  IsIndexed a = (i : ℕ) → i < length a → (get_or a i (nil_item nil_task)).index ≡ pos i

  pub get_or-entries :
      (a : List (TaskItem T)) (i : ℕ)
      → get_or (entries a) i nil_entry ≡ entry (get_or a i (nil_item nil_task))
  get_or-entries [] i = refl
  get_or-entries (x ∷ a) zero = refl
  get_or-entries (x ∷ a) (suc i) = get_or-entries a i

  entries-set :
      (a : List (TaskItem T)) (i : ℕ) (x : TaskItem T)
      → entries (set a i x) ≡ set (entries a) i (entry x)
  entries-set [] i x = refl
  entries-set (y ∷ a) zero x = refl
  entries-set (y ∷ a) (suc i) x = ap (◌∷◌ (entry y)) (entries-set a i x)

  set_self : (a : List (Entry T)) (i : ℕ) → set a i (get_or a i nil_entry) ≡ a
  set_self [] i = refl
  set_self (x ∷ a) zero = refl
  set_self (x ∷ a) (suc i) = ap (◌∷◌ x) (set_self a i)

  entries-set_index : (i : ℕ) (a : List (TaskItem T)) → entries (set_index nil_task i a) ≡ entries a
  unfolding set_index
  entries-set_index i a =
      entries-set a i _ ∙ ap (set (entries a) i) (sym (get_or-entries a i)) ∙ set_self (entries a) i

  entries-exchange :
      (i j : ℕ) (a : List (TaskItem T))
      → entries (exchange (nil_item nil_task) i j a) ≡ exchange nil_entry i j (entries a)
  unfolding exchange
  entries-exchange i j a =
      entries-set (set a i (get_or a j (nil_item nil_task))) j _
      ∙ ap (λ b. set b j (entry (get_or a i (nil_item nil_task)))) (entries-set a i _)
      ∙ rw (get_or-entries a i, get_or-entries a j) refl

  pub entries-heap_swap :
      (i j : ℕ) (a : List (TaskItem T))
      → entries (heap_swap nil_task i j a) ≡ exchange nil_entry i j (entries a)
  unfolding heap_swap
  entries-heap_swap i j a =
      entries-set_index j (set_index nil_task i (exchange (nil_item nil_task) i j a))
      ∙ entries-set_index i (exchange (nil_item nil_task) i j a)
      ∙ entries-exchange i j a

  -- The index of the item at `k`.
  abbrev index_at : List (TaskItem T) → ℕ → ℤ
  index_at a k = (get_or a k (nil_item nil_task)).index

  index_at-set_index :
      (i k : ℕ) (a : List (TaskItem T))
      → i < length a
      → index_at (set_index nil_task i a) k ≡ (if k == i then pos i else index_at a k)
  unfolding set_index
  index_at-set_index i k a h =
      let x = record (get_or a i (nil_item nil_task)) { index = pos i } in
      ap (λ (y : TaskItem T). y.index) (get_or-set (nil_item nil_task) x a i k h)
      ∙ branches x (get_or a k (nil_item nil_task)) (k == i)
    where
      branches :
          (x y : TaskItem T) (b : Bool)
          → (if b then x else y).index ≡ (if b then x.index else y.index)
      branches x y true = refl
      branches x y false = refl

  length-heap_swap :
      (i j : ℕ) (a : List (TaskItem T)) → length (heap_swap nil_task i j a) ≡ length a
  unfolding heap_swap set_index
  length-heap_swap i j a =
      length-set (set_index nil_task i (exchange (nil_item nil_task) i j a)) j _
      ∙ length-set (exchange (nil_item nil_task) i j a) i _
      ∙ length-exchange (nil_item nil_task) i j a

  pub heap_swap-IsIndexed :
      (i j : ℕ) (a : List (TaskItem T))
      → i < length a
      → j < length a
      → IsIndexed a
      → IsIndexed (heap_swap nil_task i j a)
  unfolding heap_swap
  heap_swap-IsIndexed i j a hi hj g k h =
      let b = exchange (nil_item nil_task) i j a in
      let size = length-exchange (nil_item nil_task) i j a in
      let hi' : i < length b = omega (arith, size) in
      let hj' : j < length (set_index nil_task i b) = omega (
        arith,
        size,
        ap length (entries-set_index i b),
        length-map b entry,
        length-map (set_index nil_task i b) entry,
      ) in
      let elsewhere =
        ap (λ (y : TaskItem T). y.index) (get_or-exchange (nil_item nil_task) i j a hi hj k) in
      ground (
        arith,
        g k,
        length-heap_swap i j a,
        index_at-set_index j k (set_index nil_task i b) hj',
        index_at-set_index i k b hi',
        elsewhere,
      )

  pub entries-heap_push :
      (x : TaskItem T) (a : List (TaskItem T))
      → entries (heap_push nil_task x a) ≡ entries a ++ entry x ∷ []
  unfolding heap_push
  entries-heap_push x a = map-append entry a (record x { index = pos (length a) } ∷ [])

  pub heap_push-IsIndexed :
      (x : TaskItem T) (a : List (TaskItem T)) → IsIndexed a → IsIndexed (heap_push nil_task x a)
  unfolding heap_push
  heap_push-IsIndexed x a g k h =
      let last : TaskItem T = record x { index = pos (length a) } in
      let size = length-append a (last ∷ []) in
      elim (ℕ_discrete k (length a)) [
        | yes e ↦ rw (e, get_or-last (nil_item nil_task) a last) refl
        | no ne ↦
            let old : k < length a = omega (arith, size) in
            rw (get_or-append (nil_item nil_task) a (last ∷ []) k old) (g k old)
      ]

  pub entries-heap_pop :
      (a : List (TaskItem T))
      → 0 < length (entries a)
      → entries (heap_pop nil_task a).1 ++ entry (heap_pop nil_task a).0 ∷ [] ≡ entries a
  unfolding heap_pop
  entries-heap_pop a h =
      let n = length a - 1 in
      let last = get_or a n (nil_item nil_task) in
      let size : length a ≡ suc n = omega (arith, length-map a entry) in
      sym (map-append entry (take n a) (last ∷ []))
      ∙ ap entries (take-get_or (nil_item nil_task) n a size)

  pub heap_pop-IsIndexed : (a : List (TaskItem T)) → IsIndexed a → IsIndexed (heap_pop nil_task a).1
  unfolding heap_pop
  heap_pop-IsIndexed a g k h =
      let n = length a - 1 in
      let below : k < n = omega (arith, length-take n a) in
      rw (get_or-take (nil_item nil_task) n a k below) (g k (omega arith))

  pub entries-heap_less :
      (a : List (TaskItem T)) (i j : ℕ)
      → heap_less nil_task a i j
        ≡ before (get_or (entries a) i nil_entry) (get_or (entries a) j nil_entry)
  unfolding heap_less
  entries-heap_less a i j = rw (get_or-entries a i, get_or-entries a j) refl

  unfoldable pub laws : Laws (task_heap nil_task) nil_entry before
  laws = record {
    IsGood = IsIndexed;
    items = entries;
    item = entry;
    order = before-Order;
    len-items = λ a. sym (length-map a entry);
    less-items = λ a i j hi hj. entries-heap_less a i j;
    swap-items = λ a i j hi hj. entries-heap_swap i j a;
    swap-IsGood = λ a i j hi hj g.
        heap_swap-IsIndexed i j a (subst (λ k. i < k) (length-map a entry) hi)
          (subst (λ k. j < k) (length-map a entry) hj) g;
    push-items = λ a x. entries-heap_push x a;
    push-IsGood = λ a x g. heap_push-IsIndexed x a g;
    pop-items = entries-heap_pop;
    pop-IsGood = heap_pop-IsIndexed;
  }
