-- ===== src/Events/Pending.antt =====
-- GetPendingEventInfo (source/core/Events.cpp): the queue whose first event was generated first, among
-- the static queue of an event structure and the queues of its event registration refnums.
use vireo_sdk.Common.{
  ℕ, suc, ◌+◌, ◌-◌, ◌%◌, ◌^◌, Bool, ◌||◌, Option, none, some, List, [], ◌∷◌, map, ◌==◌,
  if◌then◌else◌, leb, get_elem?, length,
}
use vireo_sdk.Common.Int.{ℤ, pos, negsuc}
use vireo_sdk.RefNum.{Storage, get_ref_num_data}
use vireo_sdk.Events.{EventQueue, World, pending_sequence_number}
use vireo_sdk.Events.Dynamic.{Registration}

-- EventTimeSeqCompare of two UInt32, as signed: whether the first is less than the second.
unfoldable pub comes_before : ℕ → ℕ → Bool
comes_before t1 t2 = leb (2 ^ 31) ((t1 + 2 ^ 32 - t2) % 2 ^ 32)

-- The variables of the loop; 0 is kNotAQueueID.
pub record Pending : Type 0 where
  pub queue_id : ℕ
  pub earliest_index : ℤ
  pub earliest_seq : ℕ
  pub skipped_entries : ℕ
  pub dyn_index_base : ℕ

-- The static queue, where there is one and it holds an event.
abbrev pub from_static : ℕ → Option ℕ → Pending
from_static qid none = record {
  queue_id = 0;
  earliest_index = negsuc 0;
  earliest_seq = 0;
  skipped_entries = 0;
  dyn_index_base = 0;
}
from_static qid (some seq) = record {
  queue_id = qid;
  earliest_index = pos 0;
  earliest_seq = seq;
  skipped_entries = 0;
  dyn_index_base = 0;
}

-- One registration, of which `seq` is the number of the first event.
abbrev pub consider : ℕ → Registration → Option ℕ → Pending → Pending
consider i r none p = p
consider i r (some seq) p =
    if (p.queue_id == 0) || comes_before seq p.earliest_seq
    then record p {
      queue_id = r.queue_id;
      earliest_index = pos (suc i);
      earliest_seq = seq;
      dyn_index_base = p.skipped_entries;
    }
    else p

abbrev pub skip_entries : Registration → Pending → Pending
skip_entries r p = record p { skipped_entries = p.skipped_entries + length r.entries }

module _ {D : Type 0} where
  abbrev pub pending_in : Option (EventQueue D) → Option ℕ
  pending_in none = none
  pending_in (some q) = pending_sequence_number q

  abbrev pub pending_of : ℕ → World D → Option ℕ
  pending_of qid w = pending_in (get_elem? w.queues qid)

  -- The loop over the registrations, from index `i` on; a refnum that is not valid is passed over.
  unfoldable pub earliest : ℕ → List (Option Registration) → World D → Pending → Pending
  unfolding comes_before
  earliest i [] w p = p
  earliest i (none ∷ rs) w p = earliest (suc i) rs w p
  earliest i (some r ∷ rs) w p =
      earliest (suc i) rs w (skip_entries r (consider i r (pending_of r.queue_id w) p))

  abbrev pub static_pending : ℕ → World D → Option ℕ
  static_pending qid w = if qid == 0 then none else pending_of qid w

  unfoldable pub get_pending_event_info : ℕ → List ℕ → Storage Registration → World D → Pending
  unfolding earliest get_ref_num_data
  get_pending_event_info qid refs s w =
      earliest 0 (map (λ r. get_ref_num_data r s) refs) w (from_static qid (static_pending qid w))
