-- ===== src/Examples/Events.antt =====
-- The theorems on events, at concrete worlds.
use vireo_sdk.Common.{
  ℕ, zero, suc, ◌+◌, ◌*◌, ◌^◌, ◌≡◌, ◌≢◌, refl, true, false, not, ◌&&◌, Option, none, some, List, [],
  ◌∷◌, ◌++◌, map, arith, ◌==◌, if◌then◌else◌, ◌⊎◌, drop,
}
use vireo_sdk.Common.Int.{pos}
use vireo_sdk.Observe.{Exec}
use vireo_sdk.RefNum.{Storage, init, new_ref_num, get_ref_num_data, validate_ref_num_index}
use vireo_sdk.Events.{EventData, EventQueue, RegQueue, RegInfo, World, active}
use vireo_sdk.Events.Oracle.{
  holds_queue, find_info, start_queues, start_reg, list_remove, occur_event, same_queue,
}
use vireo_sdk.Events.Registered.{is_registered, same_key, Unique, registered-remove}
use vireo_sdk.Events.Delivery.{events_of, ahead, numbered, watcher, occur_event-Once}
use vireo_sdk.Events.Sound.{Sound}
use vireo_sdk.Events.Calls.{
  Call, calls, creates, registers, occurs, takes, finishes, deletes, unregisters, IsSound,
  calls-IsSound,
}
use vireo_sdk.Events.Dynamic.{Registration, dynamic_event_match, any_ref, match_entries}
use vireo_sdk.Events.Dynamic.Found.{
  any_entry, cluster_entry, refnum_entry, match-any_entry, match-after_cluster,
}
use vireo_sdk.Events.Pending.{get_pending_event_info}
use vireo_sdk.Events.Earliest.{AreRecent, IsEarliest, Registers, AreQueues, get_pending-IsEarliest}
use vireo_sdk.Events.Wait.{EventStruct, Tuple, stops, branches, dispatch, take_event}
use vireo_sdk.Events.Wait.Take.{take-front}

abbrev idle : Exec
idle = record { run_queue = []; timers = []; observation_count = λ c. 0 }

-- A user event with the reference 5, and the queue 1 that watches it.
abbrev user_event : ℕ → EventData ℕ
user_event n = record {
  event_source = 3;
  event_type = 1000;
  event_time = 40;
  event_seq_index = n;
  event_ref = 5;
  control_uid = 0;
  event_data = some 77;
}

abbrev watching : RegQueue
watching = record { queue_id = 1; ref = 5 }

abbrev watched : List RegInfo
watched = record { event_source = 3; event_type = 1000; queue_ids = watching ∷ [] } ∷ []

watched-Unique : Unique watched
unfolding Unique holds_queue find_info
watched-Unique = ((refl, tt), refl, tt)

abbrev queue_with : List (EventData ℕ) → Option ℕ → EventQueue ℕ
queue_with es o = record { events = es; wake_up = o; status = active; event_lock = false }

abbrev world_of : List (EventQueue ℕ) → World ℕ
world_of qs = record {
  queues = record { events = []; wake_up = none; status = active; event_lock = false } ∷ qs;
  event_reg = record { control_uid = 0; control_ref = 0; reg_list = watched } ∷ [];
  sequence_number = 8;
  occurrences = λ o. record { observers = []; set_count = pos 3 };
  exec = idle;
}

abbrev two_queues : World ℕ
two_queues = world_of (
    queue_with (user_event 7 ∷ user_event 8 ∷ []) (some 0)
    ∷ queue_with (user_event 6 ∷ []) none
    ∷ [])

registered-remove_example :
    is_registered 3 1000 watching (list_remove 3 1000 watching watched).1 ≡ (
      if same_key 3 1000 3 1000 && same_queue watching watching
      then false
      else is_registered 3 1000 watching watched)
registered-remove_example = registered-remove 3 1000 3 1000 watching watching watched watched-Unique

occur_event-Once_example :
    events_of 1 (occur_event 0 (user_event 0) two_queues)
    ≡ events_of 1 two_queues
      ++ (if is_registered 3 1000 (watcher 1 (user_event 0)) watched
          then numbered (user_event 0) (8 + 1 + ahead (user_event 0) 1 (find_info 3 1000 watched))
            ∷ []
          else [])
occur_event-Once_example =
    occur_event-Once 0 1 (user_event 0) two_queues
      (record { control_uid = 0; control_ref = 0; reg_list = watched }) refl watched-Unique
      ((omega arith, tt), tt)

abbrev started : World ℕ
started = record {
  queues = start_queues;
  event_reg = start_reg;
  sequence_number = 0;
  occurrences = λ o. record { observers = []; set_count = pos 0 };
  exec = idle;
}

abbrev some_calls : List (Call ℕ)
some_calls =
    creates none
    ∷ registers 1 3 1000 0 5
    ∷ registers 1 2 18 4 9
    ∷ occurs 0 (user_event 0)
    ∷ takes 50 1
    ∷ finishes 1
    ∷ unregisters 1 3 1000 0 5
    ∷ deletes 1
    ∷ []

started-IsSound : IsSound started
unfolding Sound Unique
started-IsSound = ((tt, tt), tt)

calls-IsSound_example : IsSound (calls some_calls started)
calls-IsSound_example = calls-IsSound some_calls started started-IsSound

-- An event registration refnum of queue 2, of index 0 and magic number 7.
abbrev registrations : Storage Registration
registrations =
    (new_ref_num (record { queue_id = 2; entries = refnum_entry 3 1000 5 ∷ [] }) (init 7 true)).1

abbrev registration_ref : ℕ
registration_ref = 7 * 2 ^ 20

registered :
    get_ref_num_data registration_ref registrations
    ≡ some (record { queue_id = 2; entries = refnum_entry 3 1000 5 ∷ [] })
unfolding get_ref_num_data validate_ref_num_index new_ref_num init
registered = refl

only : (m n : ℕ) → (some m ≡ some n) → m ≡ n
only m n e = cc

recent : AreRecent two_queues 3
recent zero s e = cc
recent (suc zero) s e = let same = only 7 s e in (omega arith, omega arith)
recent (suc (suc zero)) s e = let same = only 6 s e in (omega arith, omega arith)
recent (suc (suc (suc q))) s e = cc

are_queues : AreQueues (map (λ r. get_ref_num_data r registrations) (registration_ref ∷ 44 ∷ []))
unfolding get_ref_num_data validate_ref_num_index new_ref_num init
are_queues = (omega arith, tt)

get_pending-IsEarliest_example :
    IsEarliest two_queues 3
      (λ q.
        ((◌≢◌ {A = ℕ} 1 0) × (q ≡ 1))
        ⊎ Registers q (map (λ r. get_ref_num_data r registrations) (registration_ref ∷ 44 ∷ [])))
      (get_pending_event_info 1 (registration_ref ∷ 44 ∷ []) registrations two_queues)
get_pending-IsEarliest_example =
    get_pending-IsEarliest two_queues 3 (omega arith) recent 1 (registration_ref ∷ 44 ∷ [])
      registrations are_queues

match-any_entry_example :
    (dynamic_event_match (cluster_entry 3 1000 (4 ∷ 5 ∷ []) ∷ refnum_entry 3 1000 6 ∷ []) 3 1000 6
      == 0)
    ≡ not (any_entry (cluster_entry 3 1000 (4 ∷ 5 ∷ []) ∷ refnum_entry 3 1000 6 ∷ []) 3 1000 6)
match-any_entry_example =
    match-any_entry (cluster_entry 3 1000 (4 ∷ 5 ∷ []) ∷ refnum_entry 3 1000 6 ∷ []) 3 1000 6

absent : any_ref 6 (4 ∷ 5 ∷ []) ≡ false
unfolding any_ref
absent = refl

match-after_cluster_example :
    (dynamic_event_match (cluster_entry 3 1000 (4 ∷ 5 ∷ []) ∷ refnum_entry 3 1000 6 ∷ []) 3 1000 6
      ≡ 2 + 3)
    × (dynamic_event_match (cluster_entry 3 1001 (4 ∷ 5 ∷ []) ∷ refnum_entry 3 1000 6 ∷ []) 3 1000 6
        ≡ 2)
match-after_cluster_example = match-after_cluster (4 ∷ 5 ∷ []) 3 1000 1001 6 absent (omega arith)

abbrev structure : EventStruct
structure = record {
  static_qid = 1;
  occurrence = 0;
  set_count = pos 4;
  specs =
      record { event_source = 3; event_type = 1000; event_control_ref = 0; dyn_index = 0 }
      ∷ record { event_source = 3; event_type = 1000; event_control_ref = 5; dyn_index = 1 }
      ∷ [];
}

abbrev tuples : List Tuple
tuples =
    record { spec_index = 0; branch_target = 90 }
    ∷ record { spec_index = 1; branch_target = 91 }
    ∷ []

took :
    (take_event 50 (registration_ref ∷ []) registrations structure tuples two_queues).0
    ≡ branches 91 (user_event 6) 0
unfolding take_event get_ref_num_data validate_ref_num_index new_ref_num init get_pending_event_info
    dispatch match_entries
took = refl

goes_on :
    (take_event 50 (registration_ref ∷ []) registrations structure tuples two_queues).0 ≢ stops
goes_on = λ e. (let h = took in cc)

take-front_example :
    events_of 2 (take_event 50 (registration_ref ∷ []) registrations structure tuples two_queues).1
    ≡ (if (get_pending_event_info 1 (registration_ref ∷ []) registrations two_queues).queue_id == 2
        then drop 1 (events_of 2 two_queues)
        else events_of 2 two_queues)
take-front_example =
    take-front 50 (registration_ref ∷ []) registrations structure tuples two_queues 2 goes_on
