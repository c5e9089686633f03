-- ===== src/Events/Calls.antt =====
-- Sequences of calls of the event oracle, and the invariant that they keep.
use vireo_sdk.Common.{
  ℕ, ◌<◌, ◌&&◌, ◌||◌, Option, none, some, List, [], ◌∷◌, ◌≡◌, refl, arith, ◌==◌, leb, Bool-cases,
  Option-cases, inl, inr, length, get_elem?, set, length-append, drop,
}
use vireo_sdk.Events.{
  EventData, RegQueue, RegInfo, OracleObj, World, delete_event_queue, set_observer,
  done_processing_event, get_event_data, put_queue, at_queue, free_queue, active,
}
use vireo_sdk.Events.Oracle.{
  occur_event, event_list_insert, event_list_remove, claim_index, claim, find_free,
  app_event_oracle_idx, register_for_event, unregister_for_event, get_new_queue_object,
}
use vireo_sdk.Events.Registered.{Unique, insert-Unique, remove-Unique}
use vireo_sdk.Events.Delivery.{BelowAll}
use vireo_sdk.Events.Keeps.{
  Keeps, Keeps-trans, on_queue-Keeps, put-Keeps, set_observer-Keeps, occur_event-Keeps,
}
use vireo_sdk.Events.Sound.{
  Sound, Sound-more, Sound-at, Sound-set, Sound-snoc, insert-BelowAll, remove-BelowAll,
}

-- The calls that change the oracle; `takes` is GetEventData, `finishes` DoneProcessingEvent.
pub data Call (D : Type 0) : Type 0 where
  registers : ℕ → ℕ → ℕ → ℕ → ℕ → Call D
  unregisters : ℕ → ℕ → ℕ → ℕ → ℕ → Call D
  occurs : ℕ → EventData D → Call D
  observes : Option ℕ → ℕ → Call D
  creates : Option ℕ → Call D
  deletes : ℕ → Call D
  takes : ℕ → ℕ → Call D
  finishes : ℕ → Call D

module _ {D : Type 0} where
  unfoldable pub call : Call D → World D → World D
  unfolding register_for_event unregister_for_event occur_event set_observer get_new_queue_object
      delete_event_queue get_event_data done_processing_event
  call (registers qid src ty uid ref) w = (register_for_event qid src ty uid ref w).1
  call (unregisters qid src ty idx ref) w = (unregister_for_event qid src ty idx ref w).1
  call (occurs idx e) w = occur_event idx e w
  call (observes occ qid) w = set_observer occ qid w
  call (creates occ) w = (get_new_queue_object occ w).1
  call (deletes qid) w = delete_event_queue qid w
  call (takes now qid) w = at_queue qid w λ q. put_queue qid (get_event_data now q).1 w
  call (finishes qid) w = at_queue qid w λ q. put_queue qid (done_processing_event q) w

  unfoldable pub calls : List (Call D) → World D → World D
  unfolding call
  calls [] w = w
  calls (c ∷ cs) w = calls cs (call c w)

  abbrev pub IsSound : World D → Type 0
  IsSound w = Sound (length w.queues) w.event_reg

  Keeps-IsSound : (w w' : World D) → Keeps w w' → IsSound w → IsSound w'
  Keeps-IsSound w w' (same, size) s = rw (same, size) s

  set-IsSound :
      (w : World D) (idx : ℕ) (o : OracleObj) (is : List RegInfo)
      → IsSound w
      → Unique is
      → BelowAll (length w.queues) is
      → IsSound (record w { event_reg = set w.event_reg idx (record o { reg_list = is }) })
  set-IsSound w idx o is s u b = Sound-set (length w.queues) idx w.event_reg _ s u b

  insert-IsSound :
      (idx : ℕ) (k : RegQueue) (src ty : ℕ) (w : World D)
      → k.queue_id < length w.queues
      → IsSound w
      → IsSound (event_list_insert idx k src ty w).1
  unfolding event_list_insert
  insert-IsSound idx k src ty w low s = elim (Option-cases (get_elem? w.event_reg idx)) [
    | inl e ↦ rw (event_list_insert, e) s
    | inr (o, e) ↦
        let (u, b) = Sound-at (length w.queues) idx w.event_reg o s e in
        rw (event_list_insert, e)
          (set-IsSound w idx o _ s (insert-Unique src ty k o.reg_list u)
            (insert-BelowAll (length w.queues) src ty k o.reg_list low b))
  ]

  remove-IsSound :
      (idx : ℕ) (k : RegQueue) (src ty : ℕ) (w : World D)
      → IsSound w
      → IsSound (event_list_remove idx k src ty w).1
  unfolding event_list_remove
  remove-IsSound idx k src ty w s = elim (Option-cases (get_elem? w.event_reg idx)) [
    | inl e ↦ rw (event_list_remove, e) s
    | inr (o, e) ↦
        let (u, b) = Sound-at (length w.queues) idx w.event_reg o s e in
        rw (event_list_remove, e)
          (set-IsSound w idx o _ s (remove-Unique src ty k o.reg_list u)
            (remove-BelowAll (length w.queues) src ty k o.reg_list b))
  ]

  claim-IsSound :
      (idx uid ref : ℕ) (w : World D) (o : Option OracleObj)
      → get_elem? w.event_reg idx ≡ o
      → IsSound w
      → IsSound (claim idx uid ref o w) × (length (claim idx uid ref o w).queues ≡ length w.queues)
  unfolding Unique
  claim-IsSound idx uid ref w none e s = (Sound-snoc (length w.queues) w.event_reg _ s tt tt, refl)
  claim-IsSound idx uid ref w (some o) e s =
      let (u, b) = Sound-at (length w.queues) idx w.event_reg o s e in
      (Sound-set (length w.queues) idx w.event_reg _ s u b, refl)

  register-IsSound :
      (qid src ty uid ref : ℕ) (w : World D)
      → IsSound w
      → IsSound (register_for_event qid src ty uid ref w).1
  unfolding register_for_event
  register-IsSound qid src ty uid ref w s =
      let k : RegQueue = record { queue_id = qid; ref = ref } in
      let c = claim_index uid ref w in
      let (claimed, size) = claim-IsSound c.0 uid ref w (get_elem? w.event_reg c.0) refl s in
      elim (Bool-cases (leb (length w.queues) qid || ((uid == 0) && (ref == 0)))) [
        | inl bad ↦ rw (register_for_event, bad) s
        | inr good ↦
            let low : qid < length w.queues = ground arith in
            elim (Bool-cases (uid == 0)) [
              | inl app ↦
                  rw (register_for_event, good, app)
                    (insert-IsSound app_event_oracle_idx k src ty w low s)
              | inr own ↦
                  rw (register_for_event, good, own)
                    (insert-IsSound c.0 k src ty c.1 (omega (arith, size, low)) claimed)
            ]
      ]

  unregister-IsSound :
      (qid src ty idx ref : ℕ) (w : World D)
      → IsSound w
      → IsSound (unregister_for_event qid src ty idx ref w).1
  unfolding unregister_for_event
  unregister-IsSound qid src ty idx ref w s = elim (Bool-cases (leb (length w.queues) qid)) [
    | inl e ↦ rw (unregister_for_event, e) s
    | inr e ↦ rw (unregister_for_event, e) (remove-IsSound idx _ src ty w s)
  ]

  new_queue-IsSound :
      (occ : Option ℕ) (w : World D) → IsSound w → IsSound (get_new_queue_object occ w).1
  unfolding get_new_queue_object
  new_queue-IsSound occ w s =
      let qid = find_free 1 (drop 1 w.queues) in
      elim (Option-cases (get_elem? w.queues qid)) [
        | inl e ↦
            rw (get_new_queue_object, e)
              (Sound-more (length w.queues) _ w.event_reg
                (omega (
                  arith,
                  length-append w.queues
                      (record free_queue { status = active; wake_up = occ } ∷ []),
                ))
                s)
        | inr (q, e) ↦
            let w' = put_queue qid (record q { status = active }) w in
            rw (get_new_queue_object, e)
              (Keeps-IsSound w (set_observer occ qid w')
                (Keeps-trans w w' (set_observer occ qid w') (put-Keeps qid _ w)
                  (set_observer-Keeps occ qid w'))
                s)
      ]

  call-IsSound : (c : Call D) (w : World D) → IsSound w → IsSound (call c w)
  unfolding call delete_event_queue
  call-IsSound (registers qid src ty uid ref) w s = register-IsSound qid src ty uid ref w s
  call-IsSound (unregisters qid src ty idx ref) w s = unregister-IsSound qid src ty idx ref w s
  call-IsSound (occurs idx e) w s =
      Keeps-IsSound w (call (occurs idx e) w) (occur_event-Keeps idx e w) s
  call-IsSound (observes occ qid) w s =
      Keeps-IsSound w (call (observes occ qid) w) (set_observer-Keeps occ qid w) s
  call-IsSound (creates occ) w s = new_queue-IsSound occ w s
  call-IsSound (deletes qid) w s =
      Keeps-IsSound w (call (deletes qid) w)
        (on_queue-Keeps (get_elem? w.queues qid) w _ (λ q. put-Keeps qid _ w)) s
  call-IsSound (takes now qid) w s =
      Keeps-IsSound w (call (takes now qid) w)
        (on_queue-Keeps (get_elem? w.queues qid) w _ (λ q. put-Keeps qid _ w)) s
  call-IsSound (finishes qid) w s =
      Keeps-IsSound w (call (finishes qid) w)
        (on_queue-Keeps (get_elem? w.queues qid) w _ (λ q. put-Keeps qid _ w)) s

  -- Any sequence of registrations, unregistrations, events, observations, creations and
  -- deletions of queues, and of events taken and finished, keeps the registration table sound:
  -- no source and type has two lists, no list holds a queue and a reference twice, and every
  -- registered queue id is an index of the vector of queues, whether the queue there is in use
  -- or has been freed.
  pub calls-IsSound : (cs : List (Call D)) (w : World D) → IsSound w → IsSound (calls cs w)
  unfolding calls
  calls-IsSound [] w s = s
  calls-IsSound (c ∷ cs) w s = calls-IsSound cs (call c w) (call-IsSound c w s)
