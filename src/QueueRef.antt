-- ===== src/QueueRef.antt =====
-- The queue instructions of source/core/Synchronization.cpp: QueueRef_EnqueueCore (Enqueue,
-- EnqueueFront and LossyEnqueue), QueueRef_DequeueCore (Dequeue and PeekQueue), QueueRef_FlushQueue
-- and HandleQueueReschedule, run by one clump. The refnum has been looked up: `none` is a refnum
-- that is not valid. Every output parameter is connected; the error cluster shows only its status.
pub mod Blocking
pub mod Overflow
pub mod Flush
use vireo_sdk.Common.{
  ℕ, zero, suc, ◌+◌, Bool, true, false, not, ◌&&◌, ◌||◌, Option, none, some, List, [], ◌∷◌, ◌++◌,
  ◌==◌, if◌then◌else◌, update,
}
use vireo_sdk.Common.Int.{ℤ, pos, negsuc, ltb_ℤ, eqb_ℤ}
use vireo_sdk.Observe.{
  Observer, observer, Exec, insert_observer, timer_info, suspend_clump, reserve_observation_states,
  clear_observation_states,
}
use vireo_sdk.ElemQueue.{
  ElemQueue, enqueue, push_front, dequeue, peek, has_room, enqueue_observer_info,
  dequeue_observer_info,
}

-- Where the clump goes on: at the next instruction, or at this one once it is woken; then another
-- clump runs, or none.
pub data Continue : Type 0 where
  next_instruction : Continue
  retry : Option ℕ → Continue

-- The error codes of Synchronization.h that these instructions set.
pub data QueueError : Type 0 where
  no_error : QueueError
  queue_arg_err : QueueError
  queue_destroyed_while_waiting : QueueError

abbrev pub retry_suspended : Option ℕ × Exec → Continue × Exec
retry_suspended r = (retry r.0, r.1)

-- VIClump::WaitOnObservableObject, at this instruction.
unfoldable pub wait_on_observable_object : ℕ → Exec → Continue × Exec
unfolding suspend_clump
wait_on_observable_object c e =
    let n = e.observation_count c in
    if n == 0
    then (next_instruction, e)
    else if n == 1
    then retry_suspended
        (suspend_clump (record e { observation_count = update e.observation_count c 0 }))
    else retry_suspended (suspend_clump e)

-- HandleQueueReschedule: what happens to the queue's observers. `deadline` is the platform's
-- MillisecondsFromNowToTickCount.
unfoldable pub handle_queue_reschedule :
    (ℤ → ℤ) → ℕ → ℤ → Bool → ℤ → List Observer → Exec → Continue × List Observer × Exec
unfolding wait_on_observable_object
handle_queue_reschedule deadline c info done time_out os e =
    let reserved = not (e.observation_count c == 0) in
    let cleared = clear_observation_states c os e in
    let again = wait_on_observable_object c e in
    let tick = if ltb_ℤ (pos 0) time_out then deadline time_out else pos 0 in
    let waiting = wait_on_observable_object c (reserve_observation_states c 2 tick e) in
    if done || (reserved && eqb_ℤ (timer_info c e.timers) (pos 0))
    then (next_instruction, cleared.0, cleared.1)
    else if reserved
    then (again.0, os, again.1)
    else if not (eqb_ℤ time_out (pos 0))
    then (waiting.0, insert_observer (observer c info) os, waiting.1)
    else (next_instruction, os, e)

-- What an instruction does: where it goes on, the error it sets, its Boolean output, its element
-- output (`none` where that is InitData's), the queue and the execution context.
pub record Outcome {ℓ} (A : Type ℓ) : Type ℓ where
  pub continue : Continue
  pub error : QueueError
  pub flag : Bool
  pub element : Option A
  pub queue : Option (ElemQueue A)
  pub exec : Exec

module _ {ℓ} {A : Type ℓ} where
  -- The refnum is not valid, or the error cluster comes in with an error.
  abbrev pub rejected : ℕ → Bool → Bool → Option (ElemQueue A) → Exec → Outcome A
  rejected c input_error flag q e = record {
    continue = next_instruction;
    error =
        if input_error
        then no_error
        else if e.observation_count c == 0
        then queue_arg_err
        else queue_destroyed_while_waiting;
    flag = flag;
    element = none;
    queue = q;
    exec = e;
  }

  -- The instruction has tried, and comes to HandleQueueReschedule.
  unfoldable pub rescheduled :
      (ℤ → ℤ) → ℕ → ℤ → ℤ → Bool → Bool → Option A → ElemQueue A → Exec → Outcome A
  rescheduled deadline c info time_out done flag element q e =
      let r = handle_queue_reschedule deadline c info done time_out q.observers e in
      record {
        continue = r.0;
        error = no_error;
        flag = flag;
        element = element;
        queue = some (record q { observers = r.1 });
        exec = r.2;
      }

  -- QueueRef_DequeueCore on a queue.
  unfoldable pub dequeue_valid : (ℤ → ℤ) → ℕ → Bool → ℤ → ElemQueue A → Exec → Outcome A
  dequeue_valid deadline c preview time_out q e =
      let seen = peek 0 q in
      let taken = dequeue false q e in
      if preview
      then rescheduled deadline c dequeue_observer_info time_out seen.0 (not seen.0) seen.1 q e
      else rescheduled deadline c dequeue_observer_info time_out taken.0.0 (not taken.0.0) taken.0.1
          taken.1 taken.2

  unfoldable pub dequeue_core :
      (ℤ → ℤ) → ℕ → Bool → Bool → ℤ → Option (ElemQueue A) → Exec → Outcome A
  dequeue_core deadline c preview input_error time_out none e =
      rejected c input_error (not input_error) none e
  dequeue_core deadline c preview input_error time_out (some q) e =
      if input_error
      then rejected c input_error (not input_error) (some q) e
      else dequeue_valid deadline c preview time_out q e

  -- What LossyEnqueue does before it inserts: overflowed?, the element that overflowed, the queue.
  unfoldable pub make_room : Bool → ElemQueue A → Exec → (Bool × Option A) × ElemQueue A
  make_room lossy q e =
      let dropped = dequeue true q e in
      if lossy && (ltb_ℤ (pos 0) q.max_size && not (has_room 1 q))
      then ((true, dropped.0.1), dropped.1)
      else ((false, none), q)

module _ {ℓ} {A : Type ℓ} (fits : ℕ → Bool) (blank : A) where
  -- QueueRef_EnqueueCore on a queue.
  unfoldable pub enqueue_valid : (ℤ → ℤ) → ℕ → Bool → Bool → ℤ → A → ElemQueue A → Exec → Outcome A
  enqueue_valid deadline c lossy front time_out x q e =
      let room = make_room lossy q e in
      let put = if front then push_front fits blank x room.1 e else enqueue fits blank x room.1 e in
      rescheduled deadline c enqueue_observer_info (if lossy then pos 0 else time_out) put.0
        (if lossy then room.0.0 else not put.0) room.0.1 put.1 put.2

  unfoldable pub enqueue_core :
      (ℤ → ℤ) → ℕ → Bool → Bool → Bool → ℤ → A → Option (ElemQueue A) → Exec → Outcome A
  enqueue_core deadline c lossy front input_error time_out x none e =
      rejected c input_error (if input_error then false else not lossy) none e
  enqueue_core deadline c lossy front input_error time_out x (some q) e =
      if input_error
      then rejected c input_error false (some q) e
      else enqueue_valid deadline c lossy front time_out x q e

module _ {ℓ} {A : Type ℓ} where
  -- The loop of QueueRef_FlushQueue, `n` rounds, with the elements that it has copied out.
  unfoldable pub flush :
      ℕ → List (Option A) → ElemQueue A → Exec → List (Option A) × ElemQueue A × Exec
  flush zero out q e = (out, q, e)
  flush (suc n) out q e = let r = dequeue false q e in flush n (out ++ r.0.1 ∷ []) r.1 r.2

  unfoldable pub flush_queue : ElemQueue A → Exec → List (Option A) × ElemQueue A × Exec
  flush_queue q e = flush q.count [] q e
