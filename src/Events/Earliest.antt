-- ===== src/Events/Earliest.antt =====
-- The event that an event structure takes is the one generated first.
use vireo_sdk.Common.{
  ℕ, suc, ◌+◌, ◌-◌, ◌%◌, ◌^◌, ◌≤◌, ◌<◌, ◌≡◌, ◌≢◌, true, false, ◌||◌, Option, none, some, List, [],
  ◌∷◌, map, ◌==◌, leb, arith, refl, sym, ap, ◌∙◌, Bool-cases, ◌⊎◌, inl, inr,
}
use vireo_sdk.RefNum.{Storage, get_ref_num_data}
use vireo_sdk.Events.{World}
use vireo_sdk.Events.Dynamic.{Registration}
use vireo_sdk.Events.Pending.{
  comes_before, Pending, pending_of, from_static, consider, skip_entries, earliest, static_pending,
  get_pending_event_info,
}

-- How long after the number `base` a sequence number was given.
abbrev pub age : ℕ → ℕ → ℕ
age base s = (s + 2 ^ 32 - base) % 2 ^ 32

-- A number in the window of 2^31 numbers from `base` on.
abbrev pub IsRecent : ℕ → ℕ → Type 0
IsRecent base s = (s < 2 ^ 32) × (age base s < 2 ^ 31)

comes_before-age :
    (base s t : ℕ)
    → base < 2 ^ 32
    → IsRecent base s
    → IsRecent base t
    → ((comes_before s t ≡ true) × (age base s < age base t))
      ⊎ ((comes_before s t ≡ false) × (age base t ≤ age base s))
unfolding comes_before
comes_before-age base s t hb hs ht = elim (Bool-cases (leb (2 ^ 31) ((s + 2 ^ 32 - t) % 2 ^ 32))) [
  | inl e ↦ inl (e, ground arith)
  | inr e ↦ inr (e, ground arith)
]

-- A queue of one of the registrations.
abbrev pub Registers : ℕ → List (Option Registration) → Type 0
Registers q [] = ⊥
Registers q (none ∷ rs) = Registers q rs
Registers q (some r ∷ rs) = (q ≡ r.queue_id) ⊎ Registers q rs

-- The registrations are of queues, which 0 is not.
abbrev pub AreQueues : List (Option Registration) → Type 0
AreQueues [] = Unit
AreQueues (none ∷ rs) = AreQueues rs
AreQueues (some r ∷ rs) = (r.queue_id ≢ 0) × AreQueues rs

module _ {D : Type 0} (w : World D) (base : ℕ) where
  -- Every number in front of a queue is in the window.
  abbrev pub AreRecent : Type 0
  AreRecent = (q s : ℕ) → pending_of q w ≡ some s → IsRecent base s

  -- The queues of `S` are empty; or the choice is one of them, and no event in front of one is older.
  abbrev pub IsEarliest : (ℕ → Type 0) → Pending → Type 0
  IsEarliest S p =
      ((p.queue_id ≡ 0) × ((q : ℕ) → S q → pending_of q w ≡ none))
      ⊎ ((p.queue_id ≢ 0)
          × S p.queue_id
          × (pending_of p.queue_id w ≡ some p.earliest_seq)
          × ((q s : ℕ) → S q → pending_of q w ≡ some s → age base p.earliest_seq ≤ age base s))

  module _ (low : base < 2 ^ 32) (recent : AreRecent) where
    IsEarliest-more :
        (S T : ℕ → Type 0) (p : Pending)
        → ((q : ℕ) → S q → T q)
        → ((q : ℕ) → T q → S q)
        → IsEarliest S p
        → IsEarliest T p
    IsEarliest-more S T p to from (inl (z, all)) = inl (z, λ q t. all q (from q t))
    IsEarliest-more S T p to from (inr (nz, here, e, all)) =
        inr (nz, to p.queue_id here, e, λ q s t. all q s (from q t))

    same_head :
        (q q' s : ℕ) (o : Option ℕ)
        → q ≡ q'
        → pending_of q w ≡ some s
        → pending_of q' w ≡ o
        → o ≡ some s
    same_head q q' s o eq f e = sym e ∙ (ap (λ k. pending_of k w) (sym eq) ∙ f)

    same_seq : (q q' s t : ℕ) → q ≡ q' → pending_of q w ≡ some s → pending_of q' w ≡ some t → t ≡ s
    same_seq q q' s t eq f e = let h = same_head q q' s (some t) eq f e in cc

    no_head : (q s : ℕ) → pending_of q w ≡ none → pending_of q w ≡ some s → ⊥
    no_head q s e f = cc

    consider-IsEarliest :
        (S : ℕ → Type 0) (i : ℕ) (r : Registration) (o : Option ℕ) (p : Pending)
        → r.queue_id ≢ 0
        → pending_of r.queue_id w ≡ o
        → IsEarliest S p
        → IsEarliest (λ q. S q ⊎ (q ≡ r.queue_id)) (consider i r o p)
    consider-IsEarliest S i r none p nz e (inl (z, all)) =
        inl (z, λ q t. elim t [ inl s ↦ all q s | inr q≡r ↦ ap (λ k. pending_of k w) q≡r ∙ e ])
    consider-IsEarliest S i r none p nz e (inr (nz', here, e', all)) = inr (
      nz',
      inl here,
      e',
      λ q s t f. elim t [
        | inl t' ↦ all q s t' f
        | inr q≡r ↦ absurd (no_head q s (ap (λ k. pending_of k w) q≡r ∙ e) f)
      ],
    )
    consider-IsEarliest S i r (some seq) p nz e (inl (z, all)) =
        let take : (p.queue_id == 0) || comes_before seq p.earliest_seq ≡ true = ground arith in
        rw take (
          inr (
            nz,
            inr refl,
            e,
            λ q s t f. elim t [
              | inl t' ↦ absurd (no_head q s (all q t') f)
              | inr q≡r ↦ omega (arith, same_seq q r.queue_id s seq q≡r f e)
            ],
          ))
    consider-IsEarliest S i r (some seq) p nz e (inr (nz', here, e', all)) =
        elim (comes_before-age base seq p.earliest_seq low (recent r.queue_id seq e)
          (recent p.queue_id p.earliest_seq e')) [
            | inl (before, older) ↦
                let take : (p.queue_id == 0) || comes_before seq p.earliest_seq ≡ true =
                  ground arith in
                rw take (
                  inr (
                    nz,
                    inr refl,
                    e,
                    λ q s t f. elim t [
                      | inl t' ↦ omega (arith, older, all q s t' f)
                      | inr q≡r ↦ omega (arith, same_seq q r.queue_id s seq q≡r f e)
                    ],
                  ))
            | inr (after, younger) ↦
                let keep : (p.queue_id == 0) || comes_before seq p.earliest_seq ≡ false =
                  ground arith in
                rw keep (
                  inr (
                    nz',
                    inl here,
                    e',
                    λ q s t f. elim t [
                      | inl t' ↦ all q s t' f
                      | inr q≡r ↦ omega (arith, younger, same_seq q r.queue_id s seq q≡r f e)
                    ],
                  ))
          ]

    earliest-IsEarliest :
        (S : ℕ → Type 0) (i : ℕ) (rs : List (Option Registration)) (p : Pending)
        → AreQueues rs
        → IsEarliest S p
        → IsEarliest (λ q. S q ⊎ Registers q rs) (earliest i rs w p)
    unfolding earliest
    earliest-IsEarliest S i [] p a b =
        IsEarliest-more S _ p (λ q s. inl s) (λ q t. elim t [ inl s ↦ s | inr x ↦ absurd x ]) b
    earliest-IsEarliest S i (none ∷ rs) p a b = earliest-IsEarliest S (suc i) rs p a b
    earliest-IsEarliest S i (some r ∷ rs) p (nz, a) b =
        let o = pending_of r.queue_id w in
        let p' = skip_entries r (consider i r o p) in
        let next = consider-IsEarliest S i r o p nz refl b in
        IsEarliest-more (λ q. (S q ⊎ (q ≡ r.queue_id)) ⊎ Registers q rs) _
          (earliest (suc i) rs w p')
          (λ q t. elim t [
            | inl s ↦ elim s [ inl s' ↦ inl s' | inr e ↦ inr (inl e) ]
            | inr x ↦ inr (inr x)
          ])
          (λ q t. elim t [
            | inl s ↦ inl (inl s)
            | inr x ↦ elim x [ inl e ↦ inl (inr e) | inr x' ↦ inr x' ]
          ])
          (earliest-IsEarliest (λ q. S q ⊎ (q ≡ r.queue_id)) (suc i) rs p' a next)

    from_static-IsEarliest :
        (qid : ℕ) (o : Option ℕ)
        → qid ≢ 0
        → pending_of qid w ≡ o
        → IsEarliest (λ q. (qid ≢ 0) × (q ≡ qid)) (from_static qid o)
    from_static-IsEarliest qid none nz e =
        inl (refl, λ q (_, same). ap (λ k. pending_of k w) same ∙ e)
    from_static-IsEarliest qid (some seq) nz e =
        inr (nz, (nz, refl), e, λ q s (_, same) f. omega (arith, same_seq q qid s seq same f e))

    static-IsEarliest :
        (qid : ℕ) → IsEarliest (λ q. (qid ≢ 0) × (q ≡ qid)) (from_static qid (static_pending qid w))
    static-IsEarliest qid = elim (Bool-cases (qid == 0)) [
      | inl z ↦
          let zero' : qid ≡ 0 = ground arith in rw z (inl (refl, λ q (nz, _). absurd (nz zero')))
      | inr nz ↦ rw nz (from_static-IsEarliest qid (pending_of qid w) (ground arith) refl)
    ]

    -- Where the sequence numbers in front of all queues lie within 2^31 numbers from a base
    -- on, and no registration is of queue 0, GetPendingEventInfo chooses among the static
    -- queue and the queues of the valid registrations one whose first event is the oldest,
    -- although the numbers wrap round; or it chooses queue 0, and all these queues are empty.
    pub get_pending-IsEarliest :
        (qid : ℕ) (refs : List ℕ) (s : Storage Registration)
        → AreQueues (map (λ r. get_ref_num_data r s) refs)
        → IsEarliest
            (λ q. ((qid ≢ 0) × (q ≡ qid)) ⊎ Registers q (map (λ r. get_ref_num_data r s) refs))
            (get_pending_event_info qid refs s w)
    unfolding get_pending_event_info
    get_pending-IsEarliest qid refs s a =
        let rs = map (λ r. get_ref_num_data r s) refs in
        let start = from_static qid (static_pending qid w) in
        earliest-IsEarliest (λ q. (qid ≢ 0) × (q ≡ qid)) 0 rs start a (static-IsEarliest qid)
