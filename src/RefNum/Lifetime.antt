-- ===== src/RefNum/Lifetime.antt =====
-- How long a refnum lives: AcquireRefNumRights and ReleaseRefNumRights in sequence.
use vireo_sdk.Common.{
  ℕ, zero, suc, ◌+◌, ◌-◌, ◌^◌, ◌≤◌, ◌<◌, ◌≡◌, refl, ap, ◌∙◌, ◌⊎◌, inl, inr, true, none, some, arith,
  ◌==◌, if◌then◌else◌, Bool-cases, ltb, Option-cases, if-true, if-false, eq→beq,
}
use vireo_sdk.RefNum.{
  Slot, Storage, magic_from_ref_num, index_from_ref_num, make_ref_num, validate_ref_num_index,
  dispose_ref_num, acquire_ref_num_rights, release_ref_num_rights, recount,
}
use vireo_sdk.RefNum.Invariant.{Inv}
use vireo_sdk.RefNum.Dispose.{dispose-Inv}
use vireo_sdk.RefNum.Slots.{at_index-Inv, validated}
use vireo_sdk.RefNum.Counting.{
  ref_count, acquired, released, unreleased, release-counts, none_counts, validate-last,
}

module _ {D : Type 0} where
  recount-Inv :
      (r count : ℕ) (slot : Slot D) (s : Storage D)
      → Inv s
      → validate_ref_num_index r s ≡ some slot
      → Inv (recount r count slot s)
  recount-Inv r count slot s inv e =
      at_index-Inv r slot (record slot { magic_num = make_ref_num count (magic_from_ref_num r) }) s
        inv e (validated r s slot e).0

  -- Nothing is acquired, or there was a reference.
  pub unacquired :
      (r : ℕ) (s : Storage D)
      → (acquire_ref_num_rights r s ≡ (none, s))
        ⊎ ((slot : Slot D) × (count : ℕ) × (validate_ref_num_index r s ≡ some slot)
            × (1 ≤ index_from_ref_num slot.magic_num)
            × (acquire_ref_num_rights r s ≡ (some slot.ref_data, recount r count slot s)))
  unfolding acquire_ref_num_rights
  unacquired r s = elim (Option-cases (validate_ref_num_index r s)) [
    | inl e ↦ inl (
        rw (acquire_ref_num_rights, e)
          (elim (Bool-cases s.is_ref_counted) [ inl c ↦ if-true _ _ c | inr c ↦ if-false _ _ c ]))
    | inr (slot, e) ↦
        let count = index_from_ref_num slot.magic_num in
        elim (Bool-cases s.is_ref_counted) [
          | inr c ↦ inl (rw (acquire_ref_num_rights, e) (if-false _ _ c))
          | inl c ↦ elim (Bool-cases (ltb 0 count)) [
            | inr z ↦ inl (rw (acquire_ref_num_rights, e) (if-true _ _ c ∙ rw z refl))
            | inl m ↦
                let low : 1 ≤ count = ground arith in
                inr (slot, count + 1, e, low, acquired r slot s c e low)
          ]
        ]
  ]

  -- AcquireRefNumRights keeps the invariant.
  pub acquire-Inv : (r : ℕ) (s : Storage D) → Inv s → Inv (acquire_ref_num_rights r s).1
  acquire-Inv r s inv = elim (unacquired r s) [
    | inl e ↦ rw e inv
    | inr (slot, count, e, _, made) ↦ rw made (recount-Inv r count slot s inv e)
  ]

  -- ReleaseRefNumRights keeps the invariant, whether it disposes the refnum or not.
  pub release-Inv :
      (blank : D) (r : ℕ) (s : Storage D)
      → s.is_ref_counted ≡ true
      → Inv s
      → Inv (release_ref_num_rights blank r s).1
  release-Inv blank r s counted inv = elim (Option-cases (validate_ref_num_index r s)) [
    | inl e ↦ rw (unreleased blank r s counted e) inv
    | inr (slot, e) ↦
        let c = index_from_ref_num slot.magic_num in
        let less = recount-Inv r (c - 1) slot s inv e in
        rw (released blank r slot s counted e) (elim (Bool-cases (c == 0)) [
          | inl z ↦ rw z inv
          | inr m ↦ elim (Bool-cases (c == 1)) [
            | inl one ↦ rw (m, one) (dispose-Inv blank r (recount r (c - 1) slot s) less)
            | inr many ↦ rw (m, many) less
          ]
        ])
  ]

  -- `n` releases of the same refnum.
  unfoldable pub release_times : D → ℕ → ℕ → Storage D → Storage D
  release_times blank r zero s = s
  release_times blank r (suc n) s = release_times blank r n (release_ref_num_rights blank r s).1

  pub dispose-counted :
      (blank : D) (r : ℕ) (s : Storage D)
      → (dispose_ref_num blank r s).1.is_ref_counted ≡ s.is_ref_counted
  unfolding dispose_ref_num
  dispose-counted blank r s = elim (Option-cases (validate_ref_num_index r s)) [
    | inl e ↦ rw (dispose_ref_num, e) refl
    | inr (slot, e) ↦ rw (dispose_ref_num, e) refl
  ]

  pub release-counted :
      (blank : D) (r : ℕ) (s : Storage D)
      → s.is_ref_counted ≡ true
      → (release_ref_num_rights blank r s).1.is_ref_counted ≡ true
  release-counted blank r s counted = elim (Option-cases (validate_ref_num_index r s)) [
    | inl e ↦ rw (unreleased blank r s counted e) counted
    | inr (slot, e) ↦
        let c = index_from_ref_num slot.magic_num in
        let less = recount r (c - 1) slot s in
        rw (released blank r slot s counted e) (elim (Bool-cases (c == 0)) [
          | inl z ↦ rw z counted
          | inr m ↦ elim (Bool-cases (c == 1)) [
            | inl one ↦ rw (m, one) (dispose-counted blank r less ∙ counted)
            | inr many ↦ rw (m, many) counted
          ]
        ])
  ]

  -- In a storage that counts references, after n calls of ReleaseRefNumRights a refnum's count
  -- is n less, but not below 0, and the count of every other UInt32 is as before.
  release_times-counts :
      (blank : D) (r t n : ℕ) (s : Storage D)
      → r < 2 ^ 32
      → t < 2 ^ 32
      → s.is_ref_counted ≡ true
      → ref_count t (release_times blank r n s)
        ≡ (if t == r then ref_count r s - n else ref_count t s)
  unfolding release_times
  release_times-counts blank r t zero s hr ht counted = elim (Bool-cases (t == r)) [
    | inl eq ↦ let same : t ≡ r = ground arith in rw eq (ap (λ k. ref_count k s) same ∙ omega arith)
    | inr ne ↦ rw ne refl
  ]
  release_times-counts blank r t (suc n) s hr ht counted =
      let next = (release_ref_num_rights blank r s).1 in
      let rest = release_times-counts blank r t n next hr ht (release-counted blank r s counted) in
      let own = (release-counts blank r r s hr hr counted).1 ∙ if-true _ _ (eq→beq r r refl) in
      let other = (release-counts blank r t s hr ht counted).1 in
      rest ∙ elim (Bool-cases (t == r)) [
        | inl eq ↦ rw eq (ap (λ k. k - n) own ∙ omega arith)
        | inr ne ↦ rw ne (other ∙ if-false _ _ ne)
      ]

  -- In a storage that counts references, as many calls of ReleaseRefNumRights as a refnum has
  -- references, at least one, dispose the refnum: it validates no longer.
  pub release_times-disposes :
      (blank : D) (r n : ℕ) (s : Storage D)
      → r < 2 ^ 32
      → s.is_ref_counted ≡ true
      → ref_count r s ≡ suc n
      → validate_ref_num_index r (release_times blank r (suc n) s) ≡ none
  unfolding release_times
  release_times-disposes blank r zero s hr counted e =
      elim (Option-cases (validate_ref_num_index r s)) [
        | inl none' ↦ absurd (omega (arith, none_counts r s none'))
        | inr (slot, e') ↦
            let count : ref_count r s ≡ index_from_ref_num slot.magic_num =
              rw (ref_count, e') refl in
            let one : index_from_ref_num slot.magic_num ≡ 1 = omega arith in
            rw (release_times, released blank r slot s counted e', one)
              (validate-last blank r slot s hr e')
      ]
  release_times-disposes blank r (suc n) s hr counted e =
      let own = (release-counts blank r r s hr hr counted).1 ∙ if-true _ _ (eq→beq r r refl) in
      release_times-disposes blank r n (release_ref_num_rights blank r s).1 hr
        (release-counted blank r s counted) (own ∙ omega arith)
