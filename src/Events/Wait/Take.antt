-- ===== src/Events/Wait/Take.antt =====
-- What a WaitForEventsAndDispatch that goes on takes from the queues.
use vireo_sdk.Common.{
  ℕ, suc, ◌+◌, ◌≡◌, ◌≢◌, Bool, true, false, ◌||◌, Option, none, some, List, [], ◌∷◌, map, ◌==◌,
  if◌then◌else◌, arith, refl, ap, ◌∙◌, Bool-cases, Option-cases, inl, inr, get_elem?, get_elem?-set,
  drop, length, ltb, get_elem?-eq-none,
}
use vireo_sdk.RefNum.{Storage, get_ref_num_data}
use vireo_sdk.Events.{
  EventData, EventQueue, World, QueueStatus, on_queue, put_queue, get_event_data,
  done_processing_event,
}
use vireo_sdk.Events.Dynamic.{Registration}
use vireo_sdk.Events.Pending.{
  comes_before, Pending, pending_of, from_static, consider, skip_entries, earliest, static_pending,
  get_pending_event_info,
}
use vireo_sdk.Events.Delivery.{events_in, events_of}
use vireo_sdk.Events.Wait.{
  EventStruct, Tuple, Next, stops, waits, continues, branches, joined, registration_at, queue_of,
  lock_event, finish_event, finish_unless_stopped, take_event,
}

-- The registration that the choice names is the one with the chosen queue.
abbrev IsNamed : List (Option Registration) → Pending → Type 0
IsNamed all p = queue_of (registration_at p.earliest_index all) p.queue_id ≡ p.queue_id

consider-IsNamed :
    (all : List (Option Registration)) (i : ℕ) (r : Registration) (o : Option ℕ) (p : Pending)
    → get_elem? all i ≡ some (some r)
    → IsNamed all p
    → IsNamed all (consider i r o p)
consider-IsNamed all i r none p e h = h
consider-IsNamed all i r (some seq) p e h =
    elim (Bool-cases ((p.queue_id == 0) || comes_before seq p.earliest_seq)) [
      | inl taken ↦ rw taken (ap (λ o. queue_of (joined o) r.queue_id) e)
      | inr kept ↦ rw kept h
    ]

from_static-IsNamed :
    (all : List (Option Registration)) (qid : ℕ) (o : Option ℕ) → IsNamed all (from_static qid o)
from_static-IsNamed all qid none = refl
from_static-IsNamed all qid (some seq) = refl

found-lt :
    {A : Type 0} (xs : List A) (i : ℕ) (x : A) → get_elem? xs i ≡ some x → ltb i (length xs) ≡ true
found-lt xs i x e = elim (Bool-cases (ltb i (length xs))) [
  | inl l ↦ l
  | inr l ↦ let out : get_elem? xs i ≡ none = get_elem?-eq-none xs i (ground arith) in cc
]

module _ {D : Type 0} where
  earliest-IsNamed :
      (all rs : List (Option Registration)) (i : ℕ) (w : World D) (p : Pending)
      → ((k : ℕ) → get_elem? all (i + k) ≡ get_elem? rs k)
      → IsNamed all p
      → IsNamed all (earliest i rs w p)
  unfolding earliest
  earliest-IsNamed all [] i w p at h = h
  earliest-IsNamed all (none ∷ rs) i w p at h =
      earliest-IsNamed all rs (suc i) w p (λ k. ap (get_elem? all) (omega arith) ∙ at (suc k)) h
  earliest-IsNamed all (some r ∷ rs) i w p at h =
      let o = pending_of r.queue_id w in
      earliest-IsNamed all rs (suc i) w (skip_entries r (consider i r o p))
        (λ k. ap (get_elem? all) (omega arith) ∙ at (suc k))
        (consider-IsNamed all i r o p (ap (get_elem? all) (omega arith) ∙ at 0) h)

  pending-IsNamed :
      (qid : ℕ) (refs : List ℕ) (s : Storage Registration) (w : World D)
      → IsNamed (map (λ r. get_ref_num_data r s) refs) (get_pending_event_info qid refs s w)
  unfolding get_pending_event_info
  pending-IsNamed qid refs s w =
      let all = map (λ r. get_ref_num_data r s) refs in
      earliest-IsNamed all all 0 w (from_static qid (static_pending qid w))
        (λ k. ap (get_elem? all) (omega arith)) (from_static-IsNamed all qid (static_pending qid w))

  abbrev finish : ℕ → EventQueue D → EventQueue D
  finish now q = done_processing_event (get_event_data now q).1

  finished_queue :
      (now : ℕ) (es : List (EventData D)) (o : Option ℕ) (st : QueueStatus) (lock : Bool)
      → (finish now (record { events = es; wake_up = o; status = st; event_lock = lock })).events
        ≡ drop 1 es
  unfolding get_event_data done_processing_event
  finished_queue now [] o st true = refl
  finished_queue now [] o st false = refl
  finished_queue now (e ∷ es) o st lock = refl

  finished : (now : ℕ) (q : EventQueue D) → (finish now q).events ≡ drop 1 q.events
  finished now q = finished_queue now q.events q.wake_up q.status q.event_lock

  put-events :
      (qid : ℕ) (q q' : EventQueue D) (w : World D) (j : ℕ)
      → get_elem? w.queues qid ≡ some q
      → events_of j (put_queue qid q' w) ≡ (if qid == j then q'.events else events_of j w)
  put-events qid q q' w j e =
      let inside = found-lt w.queues qid q e in
      rw (get_elem?-set w.queues qid j q', inside)
        (elim (Bool-cases (qid == j)) [ inl s ↦ rw s refl | inr s ↦ rw s refl ])

  put-found :
      (qid : ℕ) (q q' : EventQueue D) (w : World D)
      → get_elem? w.queues qid ≡ some q
      → get_elem? (put_queue qid q' w).queues qid ≡ some q'
  put-found qid q q' w e =
      let inside = found-lt w.queues qid q e in
      let same : (qid == qid) ≡ true = ground arith in
      rw (get_elem?-set w.queues qid qid q', inside, same) refl

  same_events :
      (w : World D) (i j : ℕ) (q : EventQueue D)
      → (i == j) ≡ true
      → get_elem? w.queues i ≡ some q
      → events_of j w ≡ q.events
  same_events w i j q s e = let ij : i ≡ j = ground arith in rw (← ij) (ap events_in e)

  finish-lock :
      (now qid : ℕ) (w : World D) (j : ℕ)
      → events_of j (finish_event qid (lock_event now qid w))
        ≡ (if qid == j then drop 1 (events_of j w) else events_of j w)
  finish-lock now qid w j = elim (Option-cases (get_elem? w.queues qid)) [
    | inl e ↦
        let locked : lock_event now qid w ≡ w =
          ap (λ o. on_queue o w (λ q. put_queue qid (get_event_data now q).1 w)) e in
        let done : finish_event qid w ≡ w =
          ap (λ o. on_queue o w (λ q. put_queue qid (done_processing_event q) w)) e in
        ap (λ v. events_of j (finish_event qid v)) locked
        ∙ (ap (events_of j) done ∙ elim (Bool-cases (qid == j)) [
          | inl s ↦
              let ij : qid ≡ j = ground arith in
              let gone : events_of j w ≡ [] = rw (← ij) (ap events_in e) in rw (s, gone) refl
          | inr s ↦ rw s refl
        ])
    | inr (q, e) ↦
        let w' = put_queue qid (get_event_data now q).1 w in
        let locked : lock_event now qid w ≡ w' =
          ap (λ o. on_queue o w (λ q. put_queue qid (get_event_data now q).1 w)) e in
        let found = put-found qid q (get_event_data now q).1 w e in
        let done : finish_event qid w' ≡ put_queue qid (finish now q) w' =
          ap (λ o. on_queue o w' (λ q. put_queue qid (done_processing_event q) w')) found in
        ap (λ v. events_of j (finish_event qid v)) locked
        ∙ (ap (events_of j) done
            ∙ (put-events qid (get_event_data now q).1 (finish now q) w' j found
                ∙ elim (Bool-cases (qid == j)) [
                  | inl s ↦ rw (s, finished now q, same_events w qid j q s e) refl
                  | inr s ↦ rw s (put-events qid q (get_event_data now q).1 w j e ∙ rw s refl)
                ]))
  ]

  finished_next :
      (next : Next D) (qid : ℕ) (w : World D)
      → next ≢ stops
      → finish_unless_stopped next qid w ≡ finish_event qid w
  finished_next stops qid w h = absurd (h refl)
  finished_next (waits d) qid w h = refl
  finished_next continues qid w h = refl
  finished_next (branches t e i) qid w h = refl

  -- A WaitForEventsAndDispatch that goes on past its wait and is not stopped takes the first
  -- event off the queue that GetPendingEventInfo chooses, and leaves the events of every other
  -- queue as they are.
  pub take-front :
      (now : ℕ) (refs : List ℕ) (s : Storage Registration) (st : EventStruct) (tuples : List Tuple)
      (w : World D) (j : ℕ)
      → let p = get_pending_event_info st.static_qid refs s w in
        let r = take_event now refs s st tuples w in
        r.0 ≢ stops
        → events_of j r.1 ≡ (if p.queue_id == j then drop 1 (events_of j w) else events_of j w)
  unfolding take_event
  take-front now refs s st tuples w j h =
      let p = get_pending_event_info st.static_qid refs s w in
      let next = (take_event now refs s st tuples w).0 in
      let regs = map (λ r. get_ref_num_data r s) refs in
      let qid = queue_of (registration_at p.earliest_index regs) p.queue_id in
      ap (events_of j) (finished_next next qid (lock_event now qid w) h)
      ∙ (finish-lock now qid w j
          ∙ ap (λ k. if k == j then drop 1 (events_of j w) else events_of j w)
              (pending-IsNamed st.static_qid refs s w))
