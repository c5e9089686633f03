-- ===== src/ElemQueue/Front.antt =====
-- The place that PushFront finds.
use vireo_sdk.Common.{
  ℕ, ◌+◌, ◌-◌, ◌%◌, ◌<◌, ◌≡◌, refl, ap, ◌≢◌, ◌≢◌, ◌≢◌, ◌≢◌, inl, inr, Bool, true, false, some, [],
  ◌∷◌, ◌++◌, length, arith, length-set, Bool-cases, ◌==◌, if◌then◌else◌,
}
use vireo_sdk.Common.Cuts.{suc-mod}
use vireo_sdk.Array1D.Laws.{insert_1d-one, insert_1d-fails}
use vireo_sdk.ElemQueue.{
  ElemQueue, copy_data_to_queue_element, place_front, resize_internal_buffer_if_empty, at_max,
  start, is_at, shift_from,
}
use vireo_sdk.ElemQueue.Valid.{IsBusy, Spans, IsValid, IsBounded}
use native.Mathlib.Decide.{dec_lt}
use vireo_sdk.ElemQueue.Placing.{
  Placed, placed, refused, at_head, written_before, opened, opened_front, grown-Placed,
  start-Placed,
}

-- The place before a ring's front, going round, is its back exactly if the ring is full.
prev_place :
    (n f b c g : ℕ)
    → Spans n f b c
    → g ≡ (if f == 0 then n - 1 else f - 1)
    → ((g + 1) % n ≡ f) × (g < n) × ((c < n) → b ≢ g) × ((c ≡ n) → b ≡ g)
prev_place n f b c g s e = ground (arith, suc-mod g n)

module _ {ℓ} {A : Type ℓ} (fits : ℕ → Bool) (blank : A) where
  place_front-roomy :
      (q : ElemQueue A) (s : IsBusy q)
      → IsBounded q.max_size (length q.elements)
      → q.count < length q.elements
      → Placed fits blank at_head q (place_front fits blank q)
  unfolding place_front copy_data_to_queue_element
  place_front-roomy q s bound room =
      let n = length q.elements in
      let i = if s.f == 0 then n - 1 else s.f - 1 in
      let prev = prev_place n s.f s.b q.count i s.spans refl in
      let ahead : is_at q.back i ≡ false = ground (arith, prev) in
      placed i (record q { front = some i }) (rw (s.front_is, place_front, ahead)) refl refl
        (λ x. rw s.front_is (written_before i s.f q.count q.elements x prev.1 room prev.0))
        (λ x. record {
          shape = inr (record {
            f = i;
            b = s.b;
            front_is = refl;
            back_is = s.back_is;
            spans = ground (arith, length-set q.elements i x, prev);
          });
          bounded = rw (length-set q.elements i x) bound;
        })

  -- A full buffer is opened at its front.
  place_front-full :
      (q : ElemQueue A) (s : IsBusy q)
      → IsBounded q.max_size (length q.elements)
      → q.count ≡ length q.elements
      → Placed fits blank at_head q (place_front fits blank q)
  unfolding place_front copy_data_to_queue_element
  place_front-full q s bound full =
      let n = length q.elements in
      let i = if s.f == 0 then n - 1 else s.f - 1 in
      let prev = prev_place n s.f s.b q.count i s.spans refl in
      let met : is_at q.back i ≡ true = ground (arith, prev) in
      elim (Bool-cases (at_max q)) [
        | inl top ↦
            refused q
              (rw (s.front_is, place_front, met, top)
                (ap (λ o. inl (record q { front = o })) s.front_is))
              (inl (refl, ground arith))
        | inr low ↦ elim (Bool-cases (fits (n + 1))) [
          | inr no' ↦
              refused _
                (rw (s.front_is, place_front, met, low, insert_1d-fails fits blank _ q.elements no')
                  (ap (λ o. inl (record q { elements = q.elements ++ blank ∷ []; front = o }))
                    s.front_is))
                (inr (refl, ground arith))
          | inl yes' ↦
              let h = if s.f == 0 then n else s.b in
              let shifted : shift_from s.f q.back ≡ some h = ground (arith, prev) in
              let kept : (if is_at q.back s.f then i else s.f) ≡ s.f = ground (arith, prev) in
              let found : place_front fits blank q ≡ inr (s.f, opened q blank s.f s.f h) = rw (
                s.front_is,
                place_front,
                met,
                low,
                prev.0,
                insert_1d-one fits blank s.f q.elements yes',
                kept,
                shifted,
              ) in
              grown-Placed fits blank at_head q s.f s.f h bound full low (ground (arith, prev))
                found
                (λ x.
                  rw s.front_is (opened_front s.f q.count q.elements blank x (omega arith) full))
        ]
      ]

  pub place_front-Placed :
      (q : ElemQueue A) → IsValid q → Placed fits blank at_head q (place_front fits blank q)
  unfolding place_front
  place_front-Placed q v = elim v.shape [
    | inl idle ↦
        let begins : place_front fits blank q
            ≡ start q (resize_internal_buffer_if_empty fits blank q) =
          rw (idle.0, place_front)
            (ap (λ o. start (record q { front = o }) (resize_internal_buffer_if_empty fits blank q))
              idle.0) in
        rw begins (start-Placed fits blank at_head q (λ x. refl) idle v.bounded)
    | inr s ↦ elim (dec_lt q.count (length q.elements)) [
      | yes room ↦ place_front-roomy q s v.bounded room
      | no full ↦ place_front-full q s v.bounded (omega (arith, s.spans))
    ]
  ]
