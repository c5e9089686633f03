-- ===== src/Events.antt =====
-- Event queues and their registration (source/core/Events.cpp, source/include/Events.h): EventData,
-- EventQueueObject and the world that they act on. An event source, type, reference, control, queue or
-- index of the registration table is the 32 bits of its machine integer. The data of an event, which
-- every queue copies, are of a type `D`; an occurrence is a number, and has its state in the world.
pub mod Oracle
pub mod Registered
pub mod Delivery
pub mod Sound
pub mod Keeps
pub mod Calls
pub mod Dynamic
pub mod Pending
pub mod Earliest
pub mod Wait
use vireo_sdk.Common.{
  ℕ, zero, suc, ◌+◌, ◌%◌, ◌^◌, Bool, true, false, not, Option, none, some, List, [], ◌∷◌, ◌++◌,
  ◌==◌, if◌then◌else◌, update, length, get_elem?, set,
}
use vireo_sdk.Observe.{Exec, Occurrence, set_occurrence}

pub record EventData (D : Type 0) : Type 0 where
  pub event_source : ℕ
  pub event_type : ℕ
  pub event_time : ℕ
  pub event_seq_index : ℕ
  pub event_ref : ℕ
  pub control_uid : ℕ
  pub event_data : Option D

pub data QueueStatus : Type 0 where
  free : QueueStatus
  active : QueueStatus

pub record EventQueue (D : Type 0) : Type 0 where
  pub events : List (EventData D)
  pub wake_up : Option ℕ
  pub status : QueueStatus
  pub event_lock : Bool

-- EventRegQueueID: a queue, and the reference that it watches.
pub record RegQueue : Type 0 where
  pub queue_id : ℕ
  pub ref : ℕ

-- EventRegInfo: the queues that are registered for an event source and type.
pub record RegInfo : Type 0 where
  pub event_source : ℕ
  pub event_type : ℕ
  pub queue_ids : List RegQueue

-- EventOracleObj: the registrations of one control, or of the application.
pub record OracleObj : Type 0 where
  pub control_uid : ℕ
  pub control_ref : ℕ
  pub reg_list : List RegInfo

-- The EventOracle, the last event sequence number, the occurrences and the execution context.
pub record World (D : Type 0) : Type 0 where
  pub queues : List (EventQueue D)
  pub event_reg : List OracleObj
  pub sequence_number : ℕ
  pub occurrences : ℕ → Occurrence
  pub exec : Exec

abbrev pub is_new : Option ℕ → ℕ → Bool
is_new none o = true
is_new (some p) o = not (p == o)

module _ {D : Type 0} where
  -- SetOccurrence of an occurrence, `n` times, and of the one that a queue wakes.
  unfoldable pub occur : ℕ → World D → World D
  occur o w =
      let r = set_occurrence (w.occurrences o) w.exec in
      record w { occurrences = update w.occurrences o r.0; exec = r.1 }

  unfoldable pub occur_times : ℕ → ℕ → World D → World D
  unfolding occur
  occur_times o zero w = w
  occur_times o (suc n) w = occur_times o n (occur o w)

  unfoldable pub signal : Option ℕ → World D → World D
  unfolding occur
  signal none w = w
  signal (some o) w = occur o w

  abbrev pub free_queue : EventQueue D
  free_queue = record { events = []; wake_up = none; status = free; event_lock = false }

  abbrev pub put_queue : ℕ → EventQueue D → World D → World D
  put_queue qid q w = record w { queues = set w.queues qid q }

  abbrev pub on_queue : Option (EventQueue D) → World D → (EventQueue D → World D) → World D
  on_queue none w f = w
  on_queue (some q) w f = f q

  -- Nothing is done to a queue that does not exist, which the source does not touch.
  abbrev pub at_queue : ℕ → World D → (EventQueue D → World D) → World D
  at_queue qid w f = on_queue (get_elem? w.queues qid) w f

  -- GetNextEventSequenceNumber.
  abbrev pub next_sequence_number : World D → ℕ
  next_sequence_number w = (w.sequence_number + 1) % 2 ^ 32

  -- EventQueueObject::OccurEvent.
  unfoldable pub deliver_to : EventData D → ℕ → World D → EventQueue D → World D
  unfolding signal
  deliver_to e qid w q =
      let n = next_sequence_number w in
      let q' = record q { events = q.events ++ record e { event_seq_index = n } ∷ [] } in
      signal q.wake_up (record w { queues = set w.queues qid q'; sequence_number = n })

  unfoldable pub deliver : EventData D → ℕ → World D → World D
  unfolding deliver_to
  deliver e qid w = at_queue qid w (deliver_to e qid w)

  -- EventQueueObject::SetObserver: an occurrence that is new to the queue is set once for each event.
  unfoldable pub set_observer : Option ℕ → ℕ → World D → World D
  unfolding occur_times
  set_observer none qid w = at_queue qid w λ q. put_queue qid (record q { wake_up = none }) w
  set_observer (some o) qid w = at_queue qid w λ q.
      let w' = put_queue qid (record q { wake_up = some o }) w in
      if is_new q.wake_up o then occur_times o (length q.events) w' else w'

  -- DiscardTopEvent: whether there was an event.
  abbrev pub discard_top_event : EventQueue D → Bool × EventQueue D
  discard_top_event q = elim q.events [
    | [] ↦ (false, q)
    | e ∷ es ↦ (true, record q { events = es })
  ]

  -- ClearQueue, whose loop takes a round for each event and one to see that there is none.
  unfoldable pub clear_rounds : ℕ → EventQueue D → EventQueue D
  clear_rounds zero q = q
  clear_rounds (suc n) q =
      let r = discard_top_event q in let rest = clear_rounds n r.1 in if r.0 then rest else r.1

  abbrev pub clear_queue : EventQueue D → EventQueue D
  clear_queue q = clear_rounds (suc (length q.events)) q

  -- DeleteEventQueue.
  unfoldable pub delete_event_queue : ℕ → World D → World D
  unfolding clear_rounds
  delete_event_queue qid w =
      at_queue qid w λ q. put_queue qid (record (clear_queue q) { status = free }) w

  -- GetEventData: the event at the front, which it locks, or the timeout event at this time.
  abbrev pub time_out_event : ℕ → EventData D
  time_out_event now = record {
    event_source = 1;
    event_type = 1;
    event_time = now;
    event_seq_index = 0;
    event_ref = 0;
    control_uid = 0;
    event_data = none;
  }

  unfoldable pub get_event_data : ℕ → EventQueue D → EventData D × EventQueue D
  get_event_data now q = elim q.events [
    | [] ↦ (time_out_event now, q)
    | e ∷ es ↦ (e, record q { event_lock = true })
  ]

  -- DoneProcessingEvent.
  unfoldable pub done_processing_event : EventQueue D → EventQueue D
  done_processing_event q =
      if q.event_lock then record (discard_top_event q).1 { event_lock = false } else q

  -- GetPendingEventSequenceNumber.
  abbrev pub pending_sequence_number : EventQueue D → Option ℕ
  pending_sequence_number q = elim q.events [ [] ↦ none | e ∷ es ↦ some e.event_seq_index ]
