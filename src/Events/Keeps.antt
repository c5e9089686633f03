-- ===== src/Events/Keeps.antt =====
-- What the calls that only touch queues leave as it is: the registrations and the number of queues.
use vireo_sdk.Common.{
  ℕ, zero, suc, Option, none, some, List, [], ◌∷◌, ◌≡◌, refl, ap, ◌∙◌, ◌==◌, Bool-cases,
  Option-cases, inl, inr, length, get_elem?, length-set,
}
use vireo_sdk.Events.{
  EventData, EventQueue, RegQueue, World, deliver, deliver_to, set_observer, put_queue, occur,
  occur_times, on_queue, is_new,
}
use vireo_sdk.Events.Oracle.{broadcast, occur_event, find_info}
use vireo_sdk.Events.Delivery.{signal-keeps}

module _ {D : Type 0} where
  -- What leaves the table and the number of queues as they are.
  abbrev pub Keeps : World D → World D → Type 0
  Keeps w w' = (w'.event_reg ≡ w.event_reg) × (length w'.queues ≡ length w.queues)

  pub Keeps-trans : (u v w : World D) → Keeps u v → Keeps v w → Keeps u w
  Keeps-trans u v w (a, b) (c, d) = (c ∙ a, d ∙ b)

  pub on_queue-Keeps :
      (o : Option (EventQueue D)) (w : World D) (f : EventQueue D → World D)
      → ((q : EventQueue D) → Keeps w (f q))
      → Keeps w (on_queue o w f)
  on_queue-Keeps none w f h = (refl, refl)
  on_queue-Keeps (some q) w f h = h q

  pub put-Keeps : (qid : ℕ) (q : EventQueue D) (w : World D) → Keeps w (put_queue qid q w)
  put-Keeps qid q w = (refl, length-set w.queues qid q)

  occur_times-Keeps : (o n : ℕ) (w : World D) → Keeps w (occur_times o n w)
  unfolding occur_times occur
  occur_times-Keeps o zero w = (refl, refl)
  occur_times-Keeps o (suc n) w =
      let (same, size) = occur_times-Keeps o n (occur o w) in (same, size)

  deliver_to-Keeps :
      (e : EventData D) (qid : ℕ) (w : World D) (q : EventQueue D) → Keeps w (deliver_to e qid w q)
  unfolding deliver_to
  deliver_to-Keeps e qid w q =
      let (queues, _, regs) = signal-keeps q.wake_up _ in
      (regs, ap length queues ∙ length-set w.queues qid _)

  broadcast-Keeps :
      (e : EventData D) (ks : List RegQueue) (w : World D) → Keeps w (broadcast e ks w)
  unfolding broadcast deliver
  broadcast-Keeps e [] w = (refl, refl)
  broadcast-Keeps e (r ∷ rs) w = elim (Bool-cases (r.ref == e.event_ref)) [
    | inl same ↦
        rw (broadcast, same)
          (Keeps-trans w (deliver e r.queue_id w) (broadcast e rs (deliver e r.queue_id w))
            (on_queue-Keeps (get_elem? w.queues r.queue_id) w _ (deliver_to-Keeps e r.queue_id w))
            (broadcast-Keeps e rs (deliver e r.queue_id w)))
    | inr other ↦ rw (broadcast, other) (broadcast-Keeps e rs w)
  ]

  pub set_observer-Keeps :
      (occ : Option ℕ) (qid : ℕ) (w : World D) → Keeps w (set_observer occ qid w)
  unfolding set_observer
  set_observer-Keeps none qid w =
      on_queue-Keeps (get_elem? w.queues qid) w _ (λ q. put-Keeps qid _ w)
  set_observer-Keeps (some o) qid w = on_queue-Keeps (get_elem? w.queues qid) w _ λ q.
      let w' = put_queue qid (record q { wake_up = some o }) w in
      let n = length q.events in
      elim (Bool-cases (is_new q.wake_up o)) [
        | inl e ↦
            rw e
              (Keeps-trans w w' (occur_times o n w') (put-Keeps qid _ w) (occur_times-Keeps o n w'))
        | inr e ↦ rw e (put-Keeps qid _ w)
      ]

  pub occur_event-Keeps : (idx : ℕ) (e : EventData D) (w : World D) → Keeps w (occur_event idx e w)
  unfolding occur_event
  occur_event-Keeps idx e w = elim (Option-cases (get_elem? w.event_reg idx)) [
    | inl e' ↦ rw (occur_event, e') (refl, refl)
    | inr (o, e') ↦
        rw (occur_event, e')
          (broadcast-Keeps e (find_info e.event_source e.event_type o.reg_list) w)
  ]
