-- ===== src/Events/Wait.antt =====
-- WaitForEventsAndDispatch (source/core/Events.cpp), run by one clump. The registrations are those of
-- the instruction's event registration refnums; a branch target is a number. The conversion of
-- milliseconds to a tick count in the future is a parameter.
pub mod Take
use vireo_sdk.Common.{
  ℕ, zero, suc, ◌+◌, ◌-◌, ◌%◌, ◌^◌, Bool, true, false, not, ◌&&◌, ◌||◌, Option, none, some, List,
  [], ◌∷◌, ◌++◌, map, ◌==◌, if◌then◌else◌, get_elem?, set, length, update,
}
use vireo_sdk.Common.Int.{ℤ, pos, negsuc, ◌+ℤ◌}
use vireo_sdk.Observe.{
  observer, has_occurred, suspend_clump, insert_observer, reserve_observation_states,
  clear_observation_states,
}
use vireo_sdk.RefNum.{Storage, get_ref_num_data}
use vireo_sdk.Events.{
  EventData, EventQueue, World, put_queue, at_queue, set_observer, time_out_event, get_event_data,
  done_processing_event,
}
use vireo_sdk.Events.Dynamic.{Registration, match_entries, dynamic_event_match}
use vireo_sdk.Events.Pending.{Pending, get_pending_event_info}

-- EventSpec.
pub record EventSpec : Type 0 where
  pub event_source : ℕ
  pub event_type : ℕ
  pub event_control_ref : ℕ
  pub dyn_index : ℕ

-- EventStructInfo: the static queue, the occurrence and the stored count of an event structure; with
-- them its configuration.
pub record EventStruct : Type 0 where
  pub static_qid : ℕ
  pub occurrence : ℕ
  pub set_count : ℤ
  pub specs : List EventSpec

-- WaitForEventArgs, without the data node.
pub record Tuple : Type 0 where
  pub spec_index : ℕ
  pub branch_target : ℕ

-- Where the clump goes on: nowhere; suspended, to try again; at the next instruction; or at a branch
-- target, with the event and its index.
pub data Next (D : Type 0) : Type 0 where
  stops : Next D
  waits : Option ℕ → Next D
  continues : Next D
  branches : ℕ → EventData D → ℕ → Next D

-- The UInt32 of the Int32 timeout; -1 where there is none.
abbrev pub ms_timeout : Option ℤ → ℕ
ms_timeout none = 2 ^ 32 - 1
ms_timeout (some (pos n)) = n
ms_timeout (some (negsuc n)) = 2 ^ 32 - 1 - n

-- The tuples with a branch target.
unfoldable pub count_target : ℕ → List Tuple → ℕ
count_target target [] = 0
count_target target (t ∷ ts) =
    let rest = count_target target ts in if t.branch_target == target then suc rest else rest

abbrev pub joined : Option (Option Registration) → Option Registration
joined none = none
joined (some r) = r

-- The registration that an index names, counted from 1.
abbrev pub registration_at : ℤ → List (Option Registration) → Option Registration
registration_at (negsuc n) rs = none
registration_at (pos zero) rs = none
registration_at (pos (suc i)) rs = joined (get_elem? rs i)

abbrev pub queue_of : Option Registration → ℕ → ℕ
queue_of none qid = qid
queue_of (some r) qid = r.queue_id

module _ {D : Type 0} where
  -- EventMatch.
  abbrev pub event_match : EventData D → EventSpec → ℕ → Bool
  event_match e s dyn =
      (e.event_source == s.event_source)
      && (e.event_type == s.event_type)
      && ((s.event_control_ref == 0) || (e.event_ref == s.event_control_ref))
      && (dyn == s.dyn_index)

  abbrev pub on_spec : Option EventSpec → EventData D → ℕ → Next D → Next D → Next D
  on_spec none e dyn hit miss = stops
  on_spec (some s) e dyn hit miss = if event_match e s dyn then hit else miss

  -- The loop over the tuples, of which `before` has been passed.
  unfoldable pub dispatch : List EventSpec → List Tuple → List Tuple → EventData D → ℕ → Next D
  unfolding count_target
  dispatch specs before [] e dyn = continues
  dispatch specs before (t ∷ ts) e dyn =
      on_spec (get_elem? specs t.spec_index) e dyn
        (branches t.branch_target e (count_target t.branch_target before))
        (dispatch specs (before ++ t ∷ []) ts e dyn)

  -- ObserveQueue, of the static queue and those of the registrations.
  abbrev pub observe_static : ℕ → ℕ → World D → World D
  observe_static occ qid w = if qid == 0 then w else set_observer (some occ) qid w

  unfoldable pub observe_registered : ℕ → List (Option Registration) → World D → World D
  unfolding set_observer
  observe_registered occ [] w = w
  observe_registered occ (none ∷ rs) w = observe_registered occ rs w
  observe_registered occ (some r ∷ rs) w =
      observe_registered occ rs (set_observer (some occ) r.queue_id w)

  -- The first try: the clump waits for the next time that the occurrence is set, or for the timeout.
  unfoldable pub begin_wait : (ℕ → ℤ) → ℕ → ℕ → ℕ → World D → Next D × World D
  unfolding insert_observer reserve_observation_states suspend_clump ◌+ℤ◌
  begin_wait deadline ms c o w =
      let occ = w.occurrences o in
      let r = suspend_clump (reserve_observation_states c 2 (deadline ms) w.exec) in
      (
        waits r.0,
        record w {
          occurrences = update w.occurrences o (record occ {
            observers = insert_observer (observer c (occ.set_count +ℤ pos 1)) occ.observers;
          });
          exec = r.1;
        },
      )

  abbrev pub end_wait : ℕ → ℕ → World D → World D
  end_wait c o w =
      let occ = w.occurrences o in
      let cleared = clear_observation_states c occ.observers w.exec in
      record w {
        occurrences = update w.occurrences o (record occ { observers = cleared.0 });
        exec = cleared.1;
      }

  -- GetEventData of a queue of the oracle. A queue that does not exist, which the source does not take,
  -- gives the timeout event.
  abbrev pub event_in : ℕ → Option (EventQueue D) → EventData D
  event_in now none = time_out_event now
  event_in now (some q) = (get_event_data now q).0

  abbrev pub lock_event : ℕ → ℕ → World D → World D
  lock_event now qid w = at_queue qid w λ q. put_queue qid (get_event_data now q).1 w

  abbrev pub finish_event : ℕ → World D → World D
  finish_event qid w = at_queue qid w λ q. put_queue qid (done_processing_event q) w

  abbrev pub dyn_index_of : Option Registration → EventData D → ℕ
  dyn_index_of none e = 0
  dyn_index_of (some r) e = dynamic_event_match r.entries e.event_source e.event_type e.event_ref

  -- An invalid index of a specification stops the clump before DoneProcessingEvent.
  abbrev pub finish_unless_stopped : Next D → ℕ → World D → World D
  finish_unless_stopped stops qid w = w
  finish_unless_stopped (waits d) qid w = finish_event qid w
  finish_unless_stopped continues qid w = finish_event qid w
  finish_unless_stopped (branches t e i) qid w = finish_event qid w

  -- What follows the wait: the earliest event, or the timeout, is dispatched.
  unfoldable pub take_event :
      ℕ → List ℕ → Storage Registration → EventStruct → List Tuple → World D → Next D × World D
  unfolding get_pending_event_info get_ref_num_data get_event_data done_processing_event dispatch
      match_entries
  take_event now refs s st tuples w =
      let p = get_pending_event_info st.static_qid refs s w in
      let r = registration_at p.earliest_index (map (λ r. get_ref_num_data r s) refs) in
      let qid = queue_of r p.queue_id in
      let e = event_in now (get_elem? w.queues qid) in
      let next = dispatch st.specs [] tuples e (p.dyn_index_base + dyn_index_of r e) in
      (next, finish_unless_stopped next qid (lock_event now qid w))

-- Where the clump goes on, the event structures and the world.
pub record Waited (D : Type 0) : Type 0 where
  pub next : Next D
  pub structs : List EventStruct
  pub world : World D

module _ {D : Type 0} (deadline : ℕ → ℤ) (now : ℕ) (timeout : Option ℤ) (c : ℕ) (refs : List ℕ)
    (s : Storage Registration) (tuples : List Tuple) where
  -- The end of the wait: the stored count goes up, after a timeout too.
  abbrev pub wait_over : List EventStruct → ℕ → EventStruct → World D → Waited D
  wait_over structs idx st w =
      let st' = record st { set_count = st.set_count +ℤ pos 1 } in
      let r = take_event now refs s st' tuples (end_wait c st.occurrence w) in
      record { next = r.0; structs = set structs idx st'; world = r.1 }

  abbrev pub wait_in : List EventStruct → ℕ → Option EventStruct → World D → Waited D
  wait_in structs idx none w = record { next = stops; structs = structs; world = w }
  wait_in structs idx (some st) w =
      let observed =
        observe_registered st.occurrence (map (λ r. get_ref_num_data r s) refs)
          (observe_static st.occurrence st.static_qid w) in
      let over = wait_over structs idx st observed in
      let begun = begin_wait deadline (ms_timeout timeout) c st.occurrence observed in
      if has_occurred st.set_count false (observed.occurrences st.occurrence)
      then over
      else if observed.exec.observation_count c == 0
      then record { next = begun.0; structs = structs; world = begun.1 }
      else over

  unfoldable pub wait_for_events_and_dispatch : List EventStruct → ℕ → World D → Waited D
  unfolding observe_registered has_occurred begin_wait clear_observation_states take_event
      get_ref_num_data set_observer ◌+ℤ◌
  wait_for_events_and_dispatch structs idx w = wait_in structs idx (get_elem? structs idx) w
