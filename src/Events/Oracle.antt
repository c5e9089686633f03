-- ===== src/Events/Oracle.antt =====
-- The EventOracle: registration for events, and their broadcast (source/core/Events.cpp).
use vireo_sdk.Common.{
  ℕ, suc, ◌-◌, ◌^◌, Bool, true, false, ◌&&◌, ◌||◌, Option, none, some, List, [], ◌∷◌, ◌++◌, ◌==◌,
  if◌then◌else◌, leb, length, get_elem?, set, drop,
}
use vireo_sdk.Events.{
  EventData, EventQueue, free, active, RegQueue, RegInfo, OracleObj, World, free_queue, put_queue,
  deliver, set_observer,
}

-- kNotAnEventOracleIdx is -1.
abbrev pub not_an_event_oracle_idx : ℕ
not_an_event_oracle_idx = 2 ^ 32 - 1

abbrev pub app_event_oracle_idx : ℕ
app_event_oracle_idx = 0

abbrev pub is_for : ℕ → ℕ → RegInfo → Bool
is_for src ty i = (i.event_source == src) && (i.event_type == ty)

abbrev pub same_queue : RegQueue → RegQueue → Bool
same_queue k r = (r.queue_id == k.queue_id) && (r.ref == k.ref)

unfoldable pub holds_queue : RegQueue → List RegQueue → Bool
holds_queue k [] = false
holds_queue k (r ∷ rs) = same_queue k r || holds_queue k rs

-- EventInsertStatus.
pub data InsertStatus : Type 0 where
  new_registration : InsertStatus
  added_to_new_queue : InsertStatus
  no_change : InsertStatus

-- EventListInsert on one list of registrations.
unfoldable pub list_insert : ℕ → ℕ → RegQueue → List RegInfo → InsertStatus × List RegInfo
unfolding holds_queue
list_insert src ty k [] =
    (new_registration, record { event_source = src; event_type = ty; queue_ids = k ∷ [] } ∷ [])
list_insert src ty k (i ∷ is) =
    let rest = list_insert src ty k is in
    if is_for src ty i
    then if holds_queue k i.queue_ids
      then (no_change, i ∷ is)
      else (added_to_new_queue, record i { queue_ids = i.queue_ids ++ k ∷ [] } ∷ is)
    else (rest.0, i ∷ rest.1)

-- Takes off the first entry of a queue and a reference.
unfoldable pub erase_queue : RegQueue → List RegQueue → List RegQueue
erase_queue k [] = []
erase_queue k (r ∷ rs) = if same_queue k r then rs else r ∷ erase_queue k rs

abbrev pub put_info : RegInfo → List RegQueue → List RegInfo → List RegInfo
put_info i [] is = is
put_info i (r ∷ rs) is = record i { queue_ids = r ∷ rs } ∷ is

-- EventListRemove on one list of registrations.
unfoldable pub list_remove : ℕ → ℕ → RegQueue → List RegInfo → Bool × List RegInfo
unfolding holds_queue erase_queue
list_remove src ty k [] = (false, [])
list_remove src ty k (i ∷ is) =
    let rest = list_remove src ty k is in
    if is_for src ty i
    then if holds_queue k i.queue_ids
      then (true, put_info i (erase_queue k i.queue_ids) is)
      else (false, i ∷ is)
    else (rest.0, i ∷ rest.1)

-- The search for the registrations of an event source and type.
unfoldable pub find_info : ℕ → ℕ → List RegInfo → List RegQueue
find_info src ty [] = []
find_info src ty (i ∷ is) = if is_for src ty i then i.queue_ids else find_info src ty is

-- The index of an unused entry or of the control, from `idx` on, or else the length of the list.
unfoldable pub find_index : ℕ → ℕ → List OracleObj → ℕ
find_index uid idx [] = idx
find_index uid idx (o ∷ os) =
    let rest = find_index uid (suc idx) os in
    elim o.reg_list [ [] ↦ idx | _ ∷ _ ↦ if o.control_uid == uid then idx else rest ]

-- Whether the log got an error, the index that goes back to the caller, and the insertion's status.
pub record Registered : Type 0 where
  pub logged : Bool
  pub oracle_idx : ℕ
  pub status : InsertStatus

abbrev pub refused : Registered
refused = record { logged = true; oracle_idx = not_an_event_oracle_idx; status = no_change }

module _ {D : Type 0} where
  -- OccurEvent: an event of a reference goes to the queues that watch the reference.
  unfoldable pub broadcast : EventData D → List RegQueue → World D → World D
  unfolding deliver
  broadcast e [] w = w
  broadcast e (r ∷ rs) w =
      broadcast e rs (if r.ref == e.event_ref then deliver e r.queue_id w else w)

  unfoldable pub occur_event : ℕ → EventData D → World D → World D
  unfolding broadcast find_info
  occur_event idx e w = elim (get_elem? w.event_reg idx) [
    | none ↦ w
    | some o ↦ broadcast e (find_info e.event_source e.event_type o.reg_list) w
  ]

  abbrev pub put_obj : ℕ → OracleObj → World D → World D
  put_obj idx o w = record w { event_reg = set w.event_reg idx o }

  -- EventListInsert, at an index of the table.
  unfoldable pub event_list_insert : ℕ → RegQueue → ℕ → ℕ → World D → InsertStatus × World D
  unfolding list_insert
  event_list_insert idx k src ty w = elim (get_elem? w.event_reg idx) [
    | none ↦ (no_change, w)
    | some o ↦
        let r = list_insert src ty k o.reg_list in
        (r.0, put_obj idx (record o { reg_list = r.1 }) w)
  ]

  -- EventListRemove.
  unfoldable pub event_list_remove : ℕ → RegQueue → ℕ → ℕ → World D → Bool × World D
  unfolding list_remove
  event_list_remove idx k src ty w = elim (get_elem? w.event_reg idx) [
    | none ↦ (false, w)
    | some o ↦
        let r = list_remove src ty k o.reg_list in
        (r.0, put_obj idx (record o { reg_list = r.1 }) w)
  ]

  -- An entry of the table for a control: a new one, or one that it takes.
  abbrev pub claim : ℕ → ℕ → ℕ → Option OracleObj → World D → World D
  claim idx uid ref none w = record w {
    event_reg = w.event_reg ++ record { control_uid = uid; control_ref = ref; reg_list = [] } ∷ [];
  }
  claim idx uid ref (some o) w = put_obj idx (record o { control_uid = uid; control_ref = ref }) w

  -- The first entry that is unused or has the control, or else a new one.
  abbrev pub claim_index : ℕ → ℕ → World D → ℕ × World D
  claim_index uid ref w =
      let idx = find_index uid 1 (drop 1 w.event_reg) in
      (idx, claim idx uid ref (get_elem? w.event_reg idx) w)

  -- RegisterForEvent.
  unfoldable pub register_for_event : ℕ → ℕ → ℕ → ℕ → ℕ → World D → Registered × World D
  unfolding event_list_insert find_index
  register_for_event qid src ty uid ref w =
      let k : RegQueue = record { queue_id = qid; ref = ref } in
      let app = event_list_insert app_event_oracle_idx k src ty w in
      let c = claim_index uid ref w in
      let own = event_list_insert c.0 k src ty c.1 in
      if leb (length w.queues) qid || ((uid == 0) && (ref == 0))
      then (refused, w)
      else if uid == 0
      then (record { logged = false; oracle_idx = not_an_event_oracle_idx; status = app.0 }, app.1)
      else (record { logged = false; oracle_idx = c.0; status = own.0 }, own.1)

  -- UnregisterForEvent.
  unfoldable pub unregister_for_event : ℕ → ℕ → ℕ → ℕ → ℕ → World D → Bool × World D
  unfolding event_list_remove
  unregister_for_event qid src ty idx ref w =
      if leb (length w.queues) qid
      then (false, w)
      else event_list_remove idx (record { queue_id = qid; ref = ref }) src ty w

  -- The first queue from `qid` on that is free.
  unfoldable pub find_free : ℕ → List (EventQueue D) → ℕ
  find_free qid [] = qid
  find_free qid (q ∷ qs) =
      let rest = find_free (suc qid) qs in elim q.status [ free ↦ qid | active ↦ rest ]

  -- GetNewQueueObject: the queue, which is the first free one, or a new one.
  unfoldable pub get_new_queue_object : Option ℕ → World D → ℕ × World D
  unfolding find_free set_observer
  get_new_queue_object occ w =
      let qid = find_free 1 (drop 1 w.queues) in
      (
        qid,
        elim (get_elem? w.queues qid) [
          | some q ↦ set_observer occ qid (put_queue qid (record q { status = active }) w)
          | none ↦ record w {
            queues = w.queues ++ record free_queue { status = active; wake_up = occ } ∷ [];
          }
        ],
      )

  -- The oracle at the start: queue 0 and index 0 are reserved.
  abbrev pub start_queues : List (EventQueue D)
  start_queues = free_queue ∷ []

abbrev pub start_reg : List OracleObj
start_reg = record { control_uid = 0; control_ref = 0; reg_list = [] } ∷ []
