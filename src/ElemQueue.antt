-- ===== src/ElemQueue.antt =====
-- QueueCore (source/core/Synchronization.cpp, source/include/Synchronization.h): the queue behind a
-- queue refnum, a circular buffer that grows until `_maxSize`, or without bound at -1. The sentinel
-- -1 of `_front` and `_back` is `none`; `fits` is the memory manager's answer when the buffer grows,
-- and `blank` what it puts into a new element. A VIREO_ASSERT has no effect.
pub mod Valid
pub mod Placing
mod Back
mod Front
pub mod Refine
pub mod Removal
use vireo_sdk.Common.{
  ℕ, suc, ◌+◌, ◌-◌, ◌%◌, ◌⊎◌, inl, inr, Bool, true, false, not, ◌&&◌, Option, none, some, List, [],
  ◌∷◌, length, get_elem?, set, leb, ◌==◌, if◌then◌else◌,
}
use vireo_sdk.Common.Int.{ℤ, pos, negsuc, ltb_ℤ, leb_ℤ, eqb_ℤ}
use vireo_sdk.Array1D.{insert_1d}
use vireo_sdk.Observe.{Observer, Exec, observe_state_change}

pub record ElemQueue {ℓ} (A : Type ℓ) : Type ℓ where
  pub elements : List A
  pub front : Option ℕ
  pub back : Option ℕ
  pub count : ℕ
  pub max_size : ℤ
  pub observers : List Observer

-- kQueueEnqueueObserverInfo and kQueueDequeueObserverInfo.
abbrev pub enqueue_observer_info : ℤ
enqueue_observer_info = negsuc 0

abbrev pub dequeue_observer_info : ℤ
dequeue_observer_info = pos 1

abbrev pub is_at : Option ℕ → ℕ → Bool
is_at none i = false
is_at (some f) i = f == i

-- `if (j >= i) ++j`: an index behind an insertion at `i`.
abbrev pub shift_from : ℕ → Option ℕ → Option ℕ
shift_from i none = none
shift_from i (some j) = if leb i j then some (suc j) else some j

module _ {ℓ} {A : Type ℓ} where
  abbrev pub set_max_size : ℤ → ElemQueue A → ElemQueue A
  set_max_size m q = record q { max_size = if leb_ℤ (pos 0) m then m else negsuc 0 }

  abbrev pub initialize : ElemQueue A → ElemQueue A
  initialize q = record q { front = none; back = none }

  -- The test by which a full buffer may not grow.
  abbrev pub at_max : ElemQueue A → Bool
  at_max q = ltb_ℤ (pos 0) q.max_size && eqb_ℤ (pos q.count) q.max_size

  unfoldable pub has_room : ℕ → ElemQueue A → Bool
  has_room additional q =
      ltb_ℤ (pos 0) q.max_size && leb_ℤ (pos (length q.elements + additional)) q.max_size

  unfoldable pub copy_data_to_queue_element : ℕ → A → ElemQueue A → ElemQueue A
  copy_data_to_queue_element i x q = record q { elements = set q.elements i x; count = suc q.count }

  -- The element at `index`, or InitData's `none` and false.
  unfoldable pub peek : ℕ → ElemQueue A → Bool × Option A
  peek index q = elim q.front [
    | none ↦ (false, none)
    | some f ↦
        if leb q.count index
        then (false, none)
        else (true, get_elem? q.elements ((f + index) % length q.elements))
  ]

  -- The ends and the count once the element at `f`, the front, is taken off.
  abbrev pub advanced : ElemQueue A → ℕ → ElemQueue A
  advanced q f =
      if is_at q.back f
      then record q { front = none; back = none; count = q.count - 1 }
      else record q { front = some ((f + 1) % length q.elements); count = q.count - 1 }

  abbrev pub wake_enqueue : ElemQueue A → Exec → ElemQueue A × Exec
  wake_enqueue q e =
      let r = observe_state_change enqueue_observer_info false q.observers e in
      (record q { observers = r.0 }, r.1)

  abbrev pub dequeue_at :
      Bool → Option ℕ → ElemQueue A → Exec → (Bool × Option A) × ElemQueue A × Exec
  dequeue_at skip_observer none q e = ((false, none), q, e)
  dequeue_at skip_observer (some f) q e =
      let q' = advanced q f in
      let woken = wake_enqueue q' e in
      let out : Bool × Option A = (true, get_elem? q.elements f) in
      if skip_observer then (out, q', e) else (out, woken.0, woken.1)

  -- The element at the front is copied out, and taken off.
  unfoldable pub dequeue : Bool → ElemQueue A → Exec → (Bool × Option A) × ElemQueue A × Exec
  dequeue skip_observer q e = dequeue_at skip_observer q.front q e

  -- A queue that held nothing, with its buffer `xs`: both ends stand at 0.
  abbrev pub start : ElemQueue A → Bool × List A → ElemQueue A ⊎ (ℕ × ElemQueue A)
  start q (false, xs) = inl (record q { elements = xs })
  start q (true, xs) = inr (0, record q { elements = xs; front = some 0; back = some 0 })

  -- The buffer has grown by an element at `at`, behind which `back` now stands.
  abbrev pub grown_back : ℕ → ElemQueue A → Bool × List A → ElemQueue A ⊎ (ℕ × ElemQueue A)
  grown_back at q (false, xs) = inl (record q { elements = xs })
  grown_back at q (true, xs) =
      inr (at, record q { elements = xs; back = some at; front = shift_from at q.front })

  abbrev pub grown_front : ℕ → ℕ → ElemQueue A → Bool × List A → ElemQueue A ⊎ (ℕ × ElemQueue A)
  grown_front f at q (false, xs) = inl (record q { elements = xs })
  grown_front f at q (true, xs) =
      inr (f, record q { elements = xs; front = some f; back = shift_from f q.back })

  -- The write, and the wake of one waiting dequeue.
  abbrev pub store : A → Exec → ElemQueue A ⊎ (ℕ × ElemQueue A) → Bool × ElemQueue A × Exec
  store x e (inl q') = (false, q', e)
  store x e (inr (i, q')) =
      let r = observe_state_change dequeue_observer_info false q'.observers e in
      (true, record (copy_data_to_queue_element i x q') { observers = r.0 }, r.1)

module _ {ℓ} {A : Type ℓ} (fits : ℕ → Bool) (blank : A) where
  unfoldable pub resize_internal_buffer_if_empty : ElemQueue A → Bool × List A
  resize_internal_buffer_if_empty q =
      if length q.elements == 0
      then insert_1d fits blank (pos 0) (pos 1) none q.elements
      else (true, q.elements)

  -- Enqueue up to the write: the queue it leaves if it fails, or the place of the new element, which
  -- is `_back`, and the queue.
  unfoldable pub place_back : ElemQueue A → ElemQueue A ⊎ (ℕ × ElemQueue A)
  unfolding resize_internal_buffer_if_empty
  place_back q = elim q.back [
    | none ↦ start q (resize_internal_buffer_if_empty q)
    | some b ↦
        let n = length q.elements in
        let insert = (b + 1) % n in
        let at = if insert == 0 then n else insert in
        if not (is_at q.front insert)
        then inr (insert, record q { back = some insert })
        else if at_max q
        then inl q
        else grown_back at q (insert_1d fits blank (pos at) (pos 1) none q.elements)
  ]

  -- PushFront up to the write: the place of the new element, which is `_front`.
  unfoldable pub place_front : ElemQueue A → ElemQueue A ⊎ (ℕ × ElemQueue A)
  unfolding resize_internal_buffer_if_empty
  place_front q = elim q.front [
    | none ↦ start q (resize_internal_buffer_if_empty q)
    | some f ↦
        let n = length q.elements in
        let insert = if f == 0 then n - 1 else f - 1 in
        let at = (insert + 1) % n in
        let f' = if is_at q.back f then insert else at in
        if not (is_at q.back insert)
        then inr (insert, record q { front = some insert })
        else if at_max q
        then inl q
        else grown_front f' at q (insert_1d fits blank (pos at) (pos 1) none q.elements)
  ]

  unfoldable pub enqueue : A → ElemQueue A → Exec → Bool × ElemQueue A × Exec
  unfolding place_back copy_data_to_queue_element
  enqueue x q e = store x e (place_back q)

  unfoldable pub push_front : A → ElemQueue A → Exec → Bool × ElemQueue A × Exec
  unfolding place_front copy_data_to_queue_element
  push_front x q e = store x e (place_front q)
