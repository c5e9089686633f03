-- ===== src/QueueRef/Blocking.antt =====
-- When Enqueue and Dequeue go on, and when they wait.
use vireo_sdk.Common.{
  ℕ, ◌≡◌, ◌≢◌, refl, sym, ap, ◌∙◌, ◌⊎◌, inl, inr, Bool, true, false, none, some, List, [], ◌∷◌,
  ◌++◌, get_elem?, drop, arith, if◌then◌else◌, update, eq→beq,
}
use vireo_sdk.Common.Int.{ℤ, pos, ltb_ℤ}
use vireo_sdk.Observe.{
  Observer, observer, Exec, remove_observer, timer_info, wake, forever, suspend_clump, insert_timer,
  observe_state_change, insert_observer, clear_observation_states, reserve_observation_states,
}
use vireo_sdk.Observe.Wake.{
  timer_info-remove_observer, matching, observe_state_change-first, insert_observer-append,
}
use vireo_sdk.ElemQueue.{ElemQueue, dequeue_observer_info, dequeue, enqueue}
use vireo_sdk.ElemQueue.Refine.{enqueue-Inserts}
use vireo_sdk.ElemQueue.Valid.{contents, IsValid}
use vireo_sdk.ElemQueue.Removal.{dequeue-Takes}
use vireo_sdk.QueueRef.{
  next_instruction, retry, handle_queue_reschedule, wait_on_observable_object, rescheduled,
  dequeue_valid,
}

-- A queue instruction that holds two observation states, and that is done or whose timer has
-- fired, goes on to the next instruction; its clump is off the queue's observers and off the
-- timer list, and its states are free.
reschedule_done :
    (deadline : ℤ → ℤ) (c : ℕ) (info time_out : ℤ) (done : Bool) (os : List Observer) (e : Exec)
    → e.observation_count c ≡ 2
    → (done ≡ true) ⊎ (timer_info c e.timers ≡ pos 0)
    → handle_queue_reschedule deadline c info done time_out os e ≡ (
      next_instruction,
      remove_observer c os,
      record e {
        observation_count = update e.observation_count c 0;
        timers = remove_observer c e.timers;
      },
    )
unfolding handle_queue_reschedule clear_observation_states
reschedule_done deadline c info time_out done os e two h = ground arith

-- The first try of an instruction that may wait: it waits at the end of the queue's observers, and
-- in the timer list until its deadline, or for ever where the timeout is negative.
pub reschedule_waits :
    (deadline : ℤ → ℤ) (c : ℕ) (info time_out : ℤ) (os : List Observer) (e : Exec)
    → e.observation_count c ≡ 0
    → time_out ≢ pos 0
    → deadline time_out ≢ pos 0
    → handle_queue_reschedule deadline c info false time_out os e ≡ (
      retry (get_elem? e.run_queue 0),
      os ++ observer c info ∷ [],
      record {
        run_queue = drop 1 e.run_queue;
        observation_count = update e.observation_count c 2;
        timers =
            insert_timer c (if ltb_ℤ (pos 0) time_out then deadline time_out else forever) e.timers;
      },
    )
unfolding handle_queue_reschedule clear_observation_states reserve_observation_states timer_info
    insert_observer wait_on_observable_object suspend_clump
reschedule_waits deadline c info time_out os e zero' h d =
    ground (arith, insert_observer-append (observer c info) os)

module _ {ℓ} {A : Type ℓ} where
  dequeue-empty :
      (q : ElemQueue A) (e : Exec)
      → IsValid q
      → contents q ≡ []
      → dequeue false q e ≡ ((false, none), q, e)
  dequeue-empty q e v h = elim (dequeue-Takes false q e v) [
    | inl (_, stops) ↦ stops
    | inr (x, cut, _, _, _, _) ↦
        let bad : x ∷ contents (dequeue false q e).1 ≡ [] = sym cut ∙ h in cc
  ]

  -- A Dequeue instruction that holds two observation states, was woken, and finds its valid
  -- queue empty, goes on to the next instruction as timed out and without an element, whatever
  -- its timeout is.
  pub dequeue-robbed :
      (deadline : ℤ → ℤ) (c : ℕ) (time_out : ℤ) (q : ElemQueue A) (e : Exec)
      → IsValid q
      → contents q ≡ []
      → e.observation_count c ≡ 2
      → let r = dequeue_valid deadline c false time_out q (wake c e) in
        (r.continue ≡ next_instruction) × (r.flag ≡ true) × (r.element ≡ none)
  unfolding dequeue_valid rescheduled
  dequeue-robbed deadline c time_out q e v h two =
      let stops = dequeue-empty q (wake c e) v h in
      let gives_up =
        reschedule_done deadline c dequeue_observer_info time_out false q.observers (wake c e) two
          (inr (timer_info-remove_observer c e.timers)) in
      rw (stops, gives_up) (refl, refl, refl)

  -- A Dequeue instruction that finds a valid queue empty, with no observation state held, a
  -- timeout other than 0 and a deadline other than tick 0, suspends its clump at the
  -- instruction: the clump stands at the end of the queue's observers with two observation
  -- states, its timed-out output is set, and the queue is otherwise as before; the first clump
  -- of the run queue runs next and is off the run queue, or no clump runs where there is none.
  pub dequeue-waits :
      (deadline : ℤ → ℤ) (c : ℕ) (time_out : ℤ) (q : ElemQueue A) (e : Exec)
      → IsValid q
      → contents q ≡ []
      → e.observation_count c ≡ 0
      → time_out ≢ pos 0
      → deadline time_out ≢ pos 0
      → let r = dequeue_valid deadline c false time_out q e in
        (r.continue ≡ retry (get_elem? e.run_queue 0))
        × (r.exec.run_queue ≡ drop 1 e.run_queue)
        × (r.flag ≡ true)
        × (r.queue
            ≡ some (record q { observers = q.observers ++ observer c dequeue_observer_info ∷ [] }))
        × (r.exec.observation_count c ≡ 2)
  unfolding dequeue_valid rescheduled
  dequeue-waits deadline c time_out q e v h free t d =
      let stops = dequeue-empty q e v h in
      let waits =
        reschedule_waits deadline c dequeue_observer_info time_out q.observers e free t d in
      rw (stops, waits) (refl, refl, refl, refl, rw (eq→beq c c refl))

module _ {ℓ} {A : Type ℓ} (fits : ℕ → Bool) (blank : A) where
  -- An Enqueue that succeeds on a valid queue puts the first clump that waits for an element
  -- on the run queue, and takes it off the queue's observers and off the timer list; the other
  -- observers stay in order.
  enqueue-wakes :
      (x : A) (q : ElemQueue A) (e : Exec) (c : ℕ) (before after : List Observer)
      → IsValid q
      → q.observers ≡ before ++ observer c dequeue_observer_info ∷ after
      → matching dequeue_observer_info before ≡ []
      → (enqueue fits blank x q e).0 ≡ true
      → ((enqueue fits blank x q e).1.observers ≡ before ++ after)
        × ((enqueue fits blank x q e).2 ≡ wake c e)
  enqueue-wakes x q e c before after v os first' done = elim (enqueue-Inserts fits blank x q e v) [
    | inl (_, _, _, _, woken) ↦
        let found =
          woken
          ∙ ap (λ l. observe_state_change dequeue_observer_info false l e) os
          ∙ observe_state_change-first dequeue_observer_info before
              (observer c dequeue_observer_info) after e first' refl in
        (ap (λ (r : List Observer × Exec). r.0) found, ap (λ (r : List Observer × Exec). r.1) found)
    | inr (fails, _, _) ↦ let bad : true ≡ false = sym done ∙ fails in cc
  ]
