-- ===== src/Events/Delivery.antt =====
-- What OccurEvent puts into the event queues.
use vireo_sdk.Common.{
  ℕ, suc, ◌+◌, ◌%◌, ◌^◌, ◌<◌, Bool, true, false, Option, none, some, List, [], ◌∷◌, ◌++◌, ◌≡◌, refl,
  sym, ap, ◌∙◌, arith, ◌==◌, if◌then◌else◌, lt→ltb, if-true, if-false, Bool-cases, inl, inr, length,
  get_elem?, get_elem?-lt, get_elem?-set, set, append-nil, length-set,
}
use vireo_sdk.Events.{
  EventData, EventQueue, RegQueue, RegInfo, OracleObj, World, occur, signal, deliver, deliver_to,
  on_queue, next_sequence_number,
}
use vireo_sdk.Events.Oracle.{is_for, holds_queue, find_info, broadcast, occur_event}
use vireo_sdk.Events.Registered.{is_registered, NoDup, same_queue-holds, Unique, NoDup-find}

-- The queues exist.
abbrev pub Below : ℕ → List RegQueue → Type 0
Below n [] = Unit
Below n (k ∷ ks) = (k.queue_id < n) × Below n ks

abbrev pub BelowAll : ℕ → List RegInfo → Type 0
BelowAll n [] = Unit
BelowAll n (i ∷ is) = Below n i.queue_ids × BelowAll n is

Below-find : (n src ty : ℕ) (is : List RegInfo) → BelowAll n is → Below n (find_info src ty is)
unfolding find_info
Below-find n src ty [] b = tt
Below-find n src ty (i ∷ is) (here, b) = elim (Bool-cases (is_for src ty i)) [
  | inl e' ↦ rw (find_info, e') here
  | inr e' ↦ rw (find_info, e') (Below-find n src ty is b)
]

module _ {D : Type 0} where
  abbrev pub events_in : Option (EventQueue D) → List (EventData D)
  events_in none = []
  events_in (some q) = q.events

  -- The events that a queue holds.
  abbrev pub events_of : ℕ → World D → List (EventData D)
  events_of qid w = events_in (get_elem? w.queues qid)

  pub signal-keeps :
      (o : Option ℕ) (w : World D)
      → ((signal o w).queues ≡ w.queues)
        × ((signal o w).sequence_number ≡ w.sequence_number)
        × ((signal o w).event_reg ≡ w.event_reg)
  unfolding signal occur
  signal-keeps none w = (refl, refl, refl)
  signal-keeps (some o) w = (refl, refl, refl)

  delivered :
      (e : EventData D) (qid : ℕ) (w : World D) (q : EventQueue D)
      → get_elem? w.queues qid ≡ some q
      → deliver e qid w ≡ deliver_to e qid w q
  unfolding deliver
  delivered e qid w q found = ap (λ o. on_queue o w (deliver_to e qid w)) found

  -- An event as it stands in a queue, with its number.
  abbrev pub numbered : EventData D → ℕ → EventData D
  numbered e n = record e { event_seq_index = n % 2 ^ 32 }

  -- The queues that exist stay, the sequence number grows by one.
  deliver-lem :
      (e : EventData D) (qid : ℕ) (w : World D)
      → qid < length w.queues
      → ((j : ℕ)
          → events_of j (deliver e qid w) ≡ (
              if qid == j
              then events_of j w ++ numbered e (w.sequence_number + 1) ∷ []
              else events_of j w))
        × ((deliver e qid w).sequence_number ≡ (w.sequence_number + 1) % 2 ^ 32)
        × (length (deliver e qid w).queues ≡ length w.queues)
  unfolding deliver_to
  deliver-lem e qid w h =
      let (q, found) = get_elem?-lt w.queues qid h in
      let n = next_sequence_number w in
      let q' : EventQueue D = record q {
        events = q.events ++ record e { event_seq_index = n } ∷ [];
      } in
      let w' : World D = record w { queues = set w.queues qid q'; sequence_number = n } in
      let (queues, number, _) = signal-keeps q.wake_up w' in
      rw (delivered e qid w q found) (
        λ j.
            ap (λ qs. events_in (get_elem? qs j)) queues
            ∙ ap events_in (get_elem?-set w.queues qid j q')
            ∙ elim (Bool-cases (qid == j)) [
              | inl e' ↦
                  let here : qid ≡ j = ground arith in
                  rw (e', lt→ltb qid (length w.queues) h)
                    (ap (λ es. es ++ numbered e (w.sequence_number + 1) ∷ [])
                      (sym (ap events_in (ap (get_elem? w.queues) (sym here) ∙ found))))
              | inr e' ↦ rw e' refl
            ],
        number,
        ap length queues ∙ length-set w.queues qid q',
      )

  -- The key of a queue that watches the reference of an event.
  abbrev pub watcher : ℕ → EventData D → RegQueue
  watcher qid e = record { queue_id = qid; ref = e.event_ref }

  -- How many deliveries of an event come before the first to a queue.
  unfoldable pub ahead : EventData D → ℕ → List RegQueue → ℕ
  ahead e qid [] = 0
  ahead e qid (r ∷ rs) =
      let rest = ahead e qid rs in
      if r.ref == e.event_ref then (if r.queue_id == qid then 0 else suc rest) else rest

  -- What a broadcast adds to a queue.
  abbrev pub Once : EventData D → ℕ → Bool → ℕ → List (EventData D) → List (EventData D) → Type 0
  Once e number watches before es es' =
      es' ≡ es ++ (if watches then numbered e (number + 1 + before) ∷ [] else [])

  -- A queue with one event more, or as it was.
  abbrev extended : EventData D → ℕ → World D → ℕ → Bool → List (EventData D)
  extended e qid w n b = events_of qid w ++ (if b then numbered e n ∷ [] else [])

  renumbered : (e : EventData D) (m n : ℕ) → m % 2 ^ 32 ≡ n % 2 ^ 32 → numbered e m ≡ numbered e n
  renumbered e m n h = ap (λ k. record e { event_seq_index = k }) h

  broadcast-Once :
      (e : EventData D) (qid : ℕ) (ks : List RegQueue) (w : World D)
      → NoDup ks
      → Below (length w.queues) ks
      → Once e w.sequence_number
          (holds_queue (watcher qid e) ks)
          (ahead e qid ks)
          (events_of qid w)
          (events_of qid (broadcast e ks w))
  unfolding broadcast NoDup holds_queue ahead
  broadcast-Once e qid [] w n b = sym (append-nil _)
  broadcast-Once e qid (r ∷ rs) w (first, n) (low, b) = elim (Bool-cases (r.ref == e.event_ref)) [
    | inr other ↦
        let ih = broadcast-Once e qid rs w n b in
        let none_more : ahead e qid (r ∷ rs) ≡ ahead e qid rs = rw (ahead, other) refl in
        let j = ahead e qid rs in
        let skip : holds_queue (watcher qid e) (r ∷ rs) ≡ holds_queue (watcher qid e) rs =
          ground arith in
        let start : broadcast e (r ∷ rs) w ≡ broadcast e rs w = rw (broadcast, other) refl in
        ap (events_of qid) start
        ∙ (ih ∙ ap (extended e qid w (w.sequence_number + 1 + j)) (sym skip))
        ∙ ap
            (λ k.
              extended e qid w (w.sequence_number + 1 + k) (holds_queue (watcher qid e) (r ∷ rs)))
            (sym none_more)
    | inl same ↦
        let (events, number, size) = deliver-lem e r.queue_id w low in
        let w' = deliver e r.queue_id w in
        let ih = broadcast-Once e qid rs w' n (rw (size) b) in
        let j = ahead e qid rs in
        let start : broadcast e (r ∷ rs) w ≡ broadcast e rs w' = rw (broadcast, same) refl in
        elim (Bool-cases (r.queue_id == qid)) [
          | inl it ↦
              let hit : holds_queue (watcher qid e) (r ∷ rs) ≡ true = ground arith in
              let gone : holds_queue (watcher qid e) rs ≡ false =
                ground (arith, same_queue-holds r (watcher qid e) rs) in
              let at_once : ahead e qid (r ∷ rs) ≡ 0 = rw (ahead, same, it) refl in
              ap (events_of qid) start
              ∙ ih
              ∙ ap (extended e qid w' (w'.sequence_number + 1 + j)) gone
              ∙ append-nil _
              ∙ events qid
              ∙ if-true _ _ it
              ∙ ap (λ m. events_of qid w ++ numbered e m ∷ []) (omega arith)
              ∙ ap (extended e qid w (w.sequence_number + 1 + 0)) (sym hit)
              ∙ ap
                  (λ k.
                    extended e qid w (w.sequence_number + 1 + k)
                      (holds_queue (watcher qid e) (r ∷ rs)))
                  (sym at_once)
          | inr not_it ↦
              let skip : holds_queue (watcher qid e) (r ∷ rs) ≡ holds_queue (watcher qid e) rs =
                ground arith in
              let one_more : ahead e qid (r ∷ rs) ≡ suc j = rw (ahead, same, not_it) refl in
              ap (events_of qid) start
              ∙ ih
              ∙ ap
                  (λ es.
                    es
                    ++ (if holds_queue (watcher qid e) rs
                        then numbered e (w'.sequence_number + 1 + j) ∷ []
                        else []))
                  (events qid ∙ if-false _ _ not_it)
              ∙ ap (λ f. events_of qid w ++ (if holds_queue (watcher qid e) rs then f ∷ [] else []))
                  (renumbered e (w'.sequence_number + 1 + j) (w.sequence_number + 1 + suc j)
                    (omega (arith, number)))
              ∙ ap (extended e qid w (w.sequence_number + 1 + suc j)) (sym skip)
              ∙ ap
                  (λ k.
                    extended e qid w (w.sequence_number + 1 + k)
                      (holds_queue (watcher qid e) (r ∷ rs)))
                  (sym one_more)
        ]
  ]

  -- Where every registration list of a registration table's entry is without double entries
  -- and its queues exist, an event that occurs at the entry is appended to a queue exactly
  -- once if the queue is registered for the event's source, type and reference, and the queue
  -- is left as it is otherwise; the event's number in the queue is 1 more than the last
  -- sequence number and the deliveries of the event before this one, modulo 2^32.
  pub occur_event-Once :
      (idx qid : ℕ) (e : EventData D) (w : World D) (o : OracleObj)
      → get_elem? w.event_reg idx ≡ some o
      → Unique o.reg_list
      → BelowAll (length w.queues) o.reg_list
      → let before = ahead e qid (find_info e.event_source e.event_type o.reg_list) in
        events_of qid (occur_event idx e w)
        ≡ events_of qid w
          ++ (if is_registered e.event_source e.event_type (watcher qid e) o.reg_list
              then numbered e (w.sequence_number + 1 + before) ∷ []
              else [])
  unfolding occur_event is_registered
  occur_event-Once idx qid e w o found u b =
      let ks = find_info e.event_source e.event_type o.reg_list in
      let ih =
        broadcast-Once e qid ks w (NoDup-find e.event_source e.event_type o.reg_list u)
          (Below-find _ e.event_source e.event_type o.reg_list b) in
      rw (occur_event, found) ih
