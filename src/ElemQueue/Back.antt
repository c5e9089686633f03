-- ===== src/ElemQueue/Back.antt =====
-- The place that Enqueue finds.
use vireo_sdk.Common.{
  ℕ, suc, ◌+◌, ◌%◌, ◌<◌, ◌≡◌, refl, ap, inl, inr, Bool, true, false, some, [], ◌∷◌, ◌++◌, length,
  arith, length-set, Bool-cases, ◌==◌, if◌then◌else◌,
}
use vireo_sdk.Common.Cuts.{add-mod}
use vireo_sdk.Array1D.Laws.{insert_1d-one, insert_1d-fails}
use vireo_sdk.ElemQueue.{
  ElemQueue, copy_data_to_queue_element, place_back, resize_internal_buffer_if_empty, at_max, start,
  is_at, shift_from,
}
use vireo_sdk.ElemQueue.Valid.{IsBusy, IsValid, IsBounded}
use native.Mathlib.Decide.{dec_lt}
use vireo_sdk.ElemQueue.Placing.{
  Placed, placed, refused, at_end, written_behind, opened, OpensBehind, opened_place, grown-Placed,
  start-Placed, next_place,
}

module _ {ℓ} {A : Type ℓ} (fits : ℕ → Bool) (blank : A) where
  place_back-roomy :
      (q : ElemQueue A) (s : IsBusy q)
      → IsBounded q.max_size (length q.elements)
      → q.count < length q.elements
      → Placed fits blank at_end q (place_back fits blank q)
  unfolding place_back copy_data_to_queue_element
  place_back-roomy q s bound room =
      let n = length q.elements in
      let i = (s.b + 1) % n in
      let next = next_place n s.f s.b q.count s.spans in
      let ahead : is_at q.front i ≡ false = ground (arith, next) in
      placed i (record q { back = some i }) (rw (s.back_is, place_back, ahead)) refl refl
        (λ x. rw s.front_is (written_behind s.f q.count i q.elements x s.spans.0 room next.0))
        (λ x. record {
          shape = inr (record {
            f = s.f;
            b = i;
            front_is = s.front_is;
            back_is = refl;
            spans = ground (arith, length-set q.elements i x, next, add-mod (s.f + q.count) n);
          });
          bounded = rw (length-set q.elements i x) bound;
        })

  -- A full buffer is opened before its front, at its end where the front is 0.
  place_back-full :
      (q : ElemQueue A) (s : IsBusy q)
      → IsBounded q.max_size (length q.elements)
      → q.count ≡ length q.elements
      → Placed fits blank at_end q (place_back fits blank q)
  unfolding place_back copy_data_to_queue_element
  place_back-full q s bound full =
      let n = length q.elements in
      let i = (s.b + 1) % n in
      let next = next_place n s.f s.b q.count s.spans in
      let met : is_at q.front i ≡ true = ground (arith, next) in
      elim (Bool-cases (at_max q)) [
        | inl top ↦
            refused q
              (rw (s.back_is, place_back, met, top)
                (ap (λ o. inl (record q { back = o })) s.back_is))
              (inl (refl, ground arith))
        | inr low ↦ elim (Bool-cases (fits (n + 1))) [
          | inr no' ↦
              refused _
                (rw (s.back_is, place_back, met, low, insert_1d-fails fits blank _ q.elements no')
                  (ap (λ o. inl (record q { elements = q.elements ++ blank ∷ []; back = o }))
                    s.back_is))
                (inr (refl, ground arith))
          | inl yes' ↦
              let at = if i == 0 then n else i in
              let g = if i == 0 then 0 else suc s.f in
              let shifted : shift_from at q.front ≡ some g = ground (arith, next) in
              let opens : OpensBehind q.elements s.f at g = ground (arith, next) in
              let found : place_back fits blank q ≡ inr (at, opened q blank at g at) = rw (
                s.back_is,
                place_back,
                met,
                low,
                insert_1d-one fits blank at q.elements yes',
                shifted,
              ) in
              grown-Placed fits blank at_end q at g at bound full low (ground (arith, next)) found
                (λ x.
                  rw s.front_is
                    (opened_place s.f at g q.count q.elements blank x (omega arith) full opens))
        ]
      ]

  pub place_back-Placed :
      (q : ElemQueue A) → IsValid q → Placed fits blank at_end q (place_back fits blank q)
  unfolding place_back
  place_back-Placed q v = elim v.shape [
    | inl idle ↦
        let begins : place_back fits blank q
            ≡ start q (resize_internal_buffer_if_empty fits blank q) =
          rw (idle.1, place_back)
            (ap (λ o. start (record q { back = o }) (resize_internal_buffer_if_empty fits blank q))
              idle.1) in
        rw begins (start-Placed fits blank at_end q (λ x. refl) idle v.bounded)
    | inr s ↦ elim (dec_lt q.count (length q.elements)) [
      | yes room ↦ place_back-roomy q s v.bounded room
      | no full ↦ place_back-full q s v.bounded (omega (arith, s.spans))
    ]
  ]
