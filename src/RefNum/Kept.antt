-- ===== src/RefNum/Kept.antt =====
-- The data that a refnum keeps under AcquireRefNumRights, ReleaseRefNumRights and DisposeRefNum.
use vireo_sdk.Common.{
  ℕ, ◌+◌, ◌-◌, ◌^◌, ◌≤◌, ◌<◌, ◌≡◌, refl, sym, ap, ◌∙◌, inl, inr, true, false, none, some, arith,
  ◌==◌, if◌then◌else◌, Bool-cases, Option-cases, if-true, if-false, eq→beq,
}
use vireo_sdk.RefNum.{
  Slot, Storage, magic_from_ref_num, index_from_ref_num, make_ref_num, validate_ref_num_index,
  dispose_ref_num, get_ref_num_data, counts, acquire_ref_num_rights, release_ref_num_rights,
  recount,
}
use vireo_sdk.RefNum.Dispose.{validate-dispose, dispose-invalid}
use vireo_sdk.RefNum.Counting.{
  ref_count, recounted, none_counts, acquired, released, validate-recount,
}

module _ {D : Type 0} where
  -- DisposeRefNum leaves no reference of the refnum, and the count of every other UInt32 as it is.
  pub dispose-counts :
      (blank : D) (r t : ℕ) (s : Storage D)
      → r < 2 ^ 32
      → t < 2 ^ 32
      → ref_count t (dispose_ref_num blank r s).1 ≡ (if t == r then 0 else ref_count t s)
  dispose-counts blank r t s hr ht = elim (Option-cases (validate_ref_num_index r s)) [
    | inl e ↦ rw (dispose-invalid blank r s e) (elim (Bool-cases (t == r)) [
      | inl eq ↦
          let same : t ≡ r = ground arith in
          rw eq (ap (λ k. ref_count k s) same ∙ none_counts r s e)
      | inr ne ↦ rw ne refl
    ])
    | inr (slot, e) ↦
        let seen = (validate-dispose blank r t s slot hr ht e).1 in
        elim (Bool-cases (t == r)) [
          | inl eq ↦ rw (ref_count, seen, eq) refl
          | inr ne ↦ rw (ref_count, seen, ne) refl
        ]
  ]

  data-at :
      (r : ℕ) (s : Storage D) (slot : Slot D)
      → validate_ref_num_index r s ≡ some slot
      → counts s slot ≡ true
      → get_ref_num_data r s ≡ some slot.ref_data
  unfolding get_ref_num_data
  data-at r s slot e live = rw (get_ref_num_data, e) (if-true _ _ live)

  -- Where references are counted, a refnum without one has no data.
  pub data-none :
      (r : ℕ) (s : Storage D)
      → s.is_ref_counted ≡ true
      → ref_count r s ≡ 0
      → get_ref_num_data r s ≡ none
  unfolding get_ref_num_data
  data-none r s counted e = elim (Option-cases (validate_ref_num_index r s)) [
    | inl e' ↦ rw (get_ref_num_data, e') refl
    | inr (slot, e') ↦
        let count : ref_count r s ≡ index_from_ref_num slot.magic_num = rw (ref_count, e') refl in
        let dead : counts s slot ≡ false = ground arith in
        rw (get_ref_num_data, e') (if-false _ _ dead)
  ]

  -- A release that is not the last leaves the data.
  pub data-release :
      (blank : D) (r : ℕ) (s : Storage D)
      → r < 2 ^ 32
      → s.is_ref_counted ≡ true
      → 2 ≤ ref_count r s
      → get_ref_num_data r (release_ref_num_rights blank r s).1 ≡ get_ref_num_data r s
  unfolding get_ref_num_data
  data-release blank r s hr counted more = elim (Option-cases (validate_ref_num_index r s)) [
    | inl e ↦ absurd (omega (arith, none_counts r s e))
    | inr (slot, e) ↦
        let c = index_from_ref_num slot.magic_num in
        let count : ref_count r s ≡ c = rw (ref_count, e) refl in
        let nz : (c == 0) ≡ false = ground arith in
        let no1 : (c == 1) ≡ false = ground arith in
        let at = validate-recount r r (c - 1) slot s hr hr e ∙ if-true _ _ (eq→beq r r refl) in
        let before : counts s slot ≡ true = ground arith in
        let after : counts s (recounted r (c - 1) slot) ≡ true =
          let low : index_from_ref_num (make_ref_num (c - 1) (magic_from_ref_num r)) ≡ c - 1 =
            omega arith in
          ground (arith, low) in
        rw (released blank r slot s counted e, nz, no1)
          (data-at r (recount r (c - 1) slot s) (recounted r (c - 1) slot) at after
            ∙ sym (data-at r s slot e before))
  ]

  -- An acquisition leaves the data.
  pub data-acquire :
      (r : ℕ) (s : Storage D)
      → r < 2 ^ 32
      → s.is_ref_counted ≡ true
      → 1 ≤ ref_count r s
      → ref_count r s + 1 < 2 ^ 20
      → get_ref_num_data r (acquire_ref_num_rights r s).1 ≡ get_ref_num_data r s
  data-acquire r s hr counted some_left small = elim (Option-cases (validate_ref_num_index r s)) [
    | inl e ↦ absurd (omega (arith, none_counts r s e))
    | inr (slot, e) ↦
        let c = index_from_ref_num slot.magic_num in
        let count : ref_count r s ≡ c = rw (ref_count, e) refl in
        let at = validate-recount r r (c + 1) slot s hr hr e ∙ if-true _ _ (eq→beq r r refl) in
        let before : counts s slot ≡ true = ground arith in
        let after : counts s (recounted r (c + 1) slot) ≡ true =
          let low : index_from_ref_num (make_ref_num (c + 1) (magic_from_ref_num r)) ≡ c + 1 =
            omega arith in
          ground (arith, low) in
        rw (acquired r slot s counted e (omega arith)) (
          data-at r (recount r (c + 1) slot s) (recounted r (c + 1) slot) at after
          ∙ sym (data-at r s slot e before))
  ]
