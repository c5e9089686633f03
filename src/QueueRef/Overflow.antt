-- ===== src/QueueRef/Overflow.antt =====
-- What LossyEnqueue drops.
use vireo_sdk.Common.{
  ℕ, ◌+◌, ◌≡◌, ◌≢◌, refl, sym, ap, ◌∙◌, ◌⊎◌, inl, inr, Bool, true, false, not, Option, none, some,
  List, [], ◌∷◌, ◌++◌, arith, length, ◌&&◌,
}
use vireo_sdk.Common.Int.{ℤ, pos, negsuc, ltb_ℤ, pos_part, ◌<ℤ◌}
use vireo_sdk.Observe.{Observer, Exec}
use vireo_sdk.ElemQueue.{ElemQueue, enqueue_observer_info, dequeue, enqueue, has_room}
use vireo_sdk.ElemQueue.Valid.{contents, IsValid}
use vireo_sdk.ElemQueue.Refine.{enqueue-Inserts}
use vireo_sdk.ElemQueue.Removal.{dequeue-Takes, length-contents, count-le-length}
use vireo_sdk.QueueRef.{
  next_instruction, Outcome, handle_queue_reschedule, rescheduled, enqueue_valid, make_room,
  clear_observation_states,
}
use vireo_sdk.ElemQueue.{dequeue_observer_info}
use vireo_sdk.Observe.{clear_observation_states}
use vireo_sdk.Observe.Wake.{observe_state_change-observation_count}

-- A clump that does not wait goes on when it is done, and leaves everything as it is.
reschedule_free :
    (deadline : ℤ → ℤ) (c : ℕ) (info t : ℤ) (os : List Observer) (e : Exec)
    → e.observation_count c ≡ 0
    → handle_queue_reschedule deadline c info true t os e ≡ (next_instruction, os, e)
unfolding handle_queue_reschedule clear_observation_states
reschedule_free deadline c info t os e free = ground arith

module _ {ℓ} {A : Type ℓ} where
  -- The outcome of LossyEnqueue as an insertion of `x` behind `kept`, with `dropped` overflowing.
  abbrev pub Appends : Bool → Option A → List A → A → Outcome A → Type ℓ
  Appends overflowed dropped kept x r =
      (r.continue ≡ next_instruction)
      × (r.flag ≡ overflowed)
      × (r.element ≡ dropped)
      × ((q' : ElemQueue A) × (r.queue ≡ some q') × (contents q' ≡ kept ++ x ∷ []) × IsValid q')

module _ {ℓ} {A : Type ℓ} (fits : ℕ → Bool) (blank : A) (grants : (n : ℕ) → fits n ≡ true)
    (deadline : ℤ → ℤ) (c : ℕ) (t : ℤ) (x : A) (q : ElemQueue A) (e : Exec) (v : IsValid q)
    (free : e.observation_count c ≡ 0) where
  -- An insertion into a queue with room below its maximum, by a clump that does not wait.
  inserted :
      (overflowed : Bool) (dropped : Option A) (q1 : ElemQueue A)
      → make_room true q e ≡ ((overflowed, dropped), q1)
      → IsValid q1
      → pos q1.count ≢ q1.max_size
      → Appends overflowed dropped
          (contents q1)
          x
          (enqueue_valid fits blank deadline c true false t x q e)
  unfolding enqueue_valid rescheduled
  inserted overflowed dropped q1 room v1 below = elim (enqueue-Inserts fits blank x q1 e v1) [
    | inl (done, holds, valid, _, woken) ↦
        let put = enqueue fits blank x q1 e in
        let still : put.2.observation_count c ≡ 0 =
          ap (λ (r : List Observer × Exec). r.1.observation_count c) woken
          ∙ ap (λ (f : ℕ → ℕ). f c)
              (observe_state_change-observation_count dequeue_observer_info false q1.observers e)
          ∙ free in
        rw
          (
            room,
            done,
            reschedule_free deadline c enqueue_observer_info (pos 0) put.1.observers put.2 still,
          )
          (refl, refl, refl, (put.1, refl, holds, valid))
    | inr (_, _, inl (_, top)) ↦ absurd (below top)
    | inr (_, _, inr (_, refused)) ↦
        let bad : true ≡ false = sym (grants (q1.count + 1)) ∙ refused in cc
  ]

  -- On a valid queue that holds an element, whose buffer has grown to its maximum size, where
  -- memory is granted and the clump does not wait, LossyEnqueue drops the oldest element,
  -- returns it as overflowed and appends the new one, however few elements the queue holds.
  pub lossy-drops :
      (y : A) (ys : List A)
      → q.max_size ≡ pos (length q.elements)
      → contents q ≡ y ∷ ys
      → Appends true (some y) ys x (enqueue_valid fits blank deadline c true false t x q e)
  unfolding make_room has_room
  lossy-drops y ys top holds = elim (dequeue-Takes true q e v) [
    | inl (none', _) ↦ let bad : y ∷ ys ≡ [] = sym holds ∙ none' in cc
    | inr (y', cut, got, v1, max1, _) ↦
        let r = dequeue true q e in
        let same : y ∷ ys ≡ y' ∷ contents r.1 = sym holds ∙ cut in
        let full : ltb_ℤ (pos 0) q.max_size && not (has_room 1 q) ≡ true =
          ground (arith, v.bounded) in
        let head : y' ≡ y = cc same in
        let tail : ys ≡ contents r.1 = cc same in
        let out : r.0.1 ≡ some y = ap (λ (p : Bool × Option A). p.1) got ∙ ap some head in
        let room : make_room true q e ≡ ((true, some y), r.1) =
          rw full (ap (λ o. ((true, o), r.1)) out) in
        rw tail (
          inserted true (some y) r.1 room v1 (λ h. absurd (
            omega (
              arith,
              ap pos_part (h ∙ max1 ∙ top),
              length-contents r.1 v1,
              length-contents q v,
              ap length cut,
              count-le-length q v,
            ))))
  ]

  -- On a valid queue whose buffer is smaller than its maximum size, or that has none, where
  -- memory is granted and the clump does not wait, LossyEnqueue appends the element and drops
  -- nothing.
  lossy-keeps :
      pos (length q.elements) <ℤ q.max_size ⊎ q.max_size ≡ negsuc 0
      → Appends false none (contents q) x (enqueue_valid fits blank deadline c true false t x q e)
  unfolding make_room has_room
  lossy-keeps small =
      let roomy : ltb_ℤ (pos 0) q.max_size && not (has_room 1 q) ≡ false =
        ground (arith, v.bounded) in
      let room : make_room true q e ≡ ((false, none), q) = rw roomy in
      inserted false none q room v (λ h. absurd (ground (arith, count-le-length q v)))
