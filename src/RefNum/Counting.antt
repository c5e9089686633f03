-- ===== src/RefNum/Counting.antt =====
-- The reference counts under AcquireRefNumRights and ReleaseRefNumRights.
use vireo_sdk.Common.{
  ℕ, ◌+◌, ◌-◌, ◌^◌, ◌≤◌, ◌<◌, ◌≡◌, refl, sym, ap, ◌∙◌, inl, inr, true, false, none, some, arith,
  ◌==◌, if◌then◌else◌, Bool-cases, ltb, Option-cases, if-true, if-false, eq→beq, ◌&&◌,
}
use vireo_sdk.RefNum.{
  Slot, Storage, magic_from_ref_num, index_from_ref_num, make_ref_num, validate_ref_num_index,
  dispose_ref_num, get_ref_num_data, counts, acquire_ref_num_rights, release_ref_num_rights,
  recount,
}
use vireo_sdk.RefNum.Dispose.{validate-dispose}
use vireo_sdk.RefNum.Slots.{validate-at_index, validated}

magic-recounted :
    (r count : ℕ)
    → magic_from_ref_num (make_ref_num count (magic_from_ref_num r)) ≡ magic_from_ref_num r
magic-recounted r count = omega arith

if_positive {ℓ} :
    {A : Type ℓ} (n : ℕ) (x y : A) → (if ltb 0 n && true then x else y) ≡ (if n == 0 then y else x)
if_positive n x y = elim (Bool-cases (n == 0)) [
  | inl e ↦ let low : ltb 0 n ≡ false = ground arith in rw (e, low) refl
  | inr e ↦ let high : ltb 0 n ≡ true = ground arith in rw (e, high) refl
]

module _ {D : Type 0} where
  -- The reference count that the slot of a refnum keeps; 0 for a refnum that does not validate.
  abbrev pub ref_count : ℕ → Storage D → ℕ
  ref_count r s = elim (validate_ref_num_index r s) [
    | none ↦ 0
    | some slot ↦ index_from_ref_num slot.magic_num
  ]

  abbrev pub recounted : ℕ → ℕ → Slot D → Slot D
  recounted r count slot = record slot { magic_num = make_ref_num count (magic_from_ref_num r) }

  pub validate-recount :
      (r t count : ℕ) (slot : Slot D) (s : Storage D)
      → r < 2 ^ 32
      → t < 2 ^ 32
      → validate_ref_num_index r s ≡ some slot
      → validate_ref_num_index t (recount r count slot s)
        ≡ (if t == r then some (recounted r count slot) else validate_ref_num_index t s)
  validate-recount r t count slot s hr ht e =
      let held = validated r s slot e in
      validate-at_index r t slot (recounted r count slot) s hr ht e held.0 (magic-recounted r count)

  ref_count-recount :
      (r t count : ℕ) (slot : Slot D) (s : Storage D)
      → r < 2 ^ 32
      → t < 2 ^ 32
      → count < 2 ^ 20
      → validate_ref_num_index r s ≡ some slot
      → ref_count t (recount r count slot s) ≡ (if t == r then count else ref_count t s)
  ref_count-recount r t count slot s hr ht small e =
      let seen = validate-recount r t count slot s hr ht e in
      let low : index_from_ref_num (make_ref_num count (magic_from_ref_num r)) ≡ count =
        omega arith in
      elim (Bool-cases (t == r)) [
        | inl eq ↦ rw (ref_count, seen, eq) low
        | inr ne ↦ rw (ref_count, seen, ne) refl
      ]

  pub none_counts : (r : ℕ) (s : Storage D) → validate_ref_num_index r s ≡ none → ref_count r s ≡ 0
  none_counts r s e = rw (ref_count, e) refl

  pub acquired :
      (r : ℕ) (slot : Slot D) (s : Storage D)
      → s.is_ref_counted ≡ true
      → validate_ref_num_index r s ≡ some slot
      → 1 ≤ index_from_ref_num slot.magic_num
      → acquire_ref_num_rights r s
        ≡ (some slot.ref_data, recount r (index_from_ref_num slot.magic_num + 1) slot s)
  unfolding acquire_ref_num_rights
  acquired r slot s counted e lo =
      let same : (magic_from_ref_num slot.magic_num == magic_from_ref_num r) ≡ true =
        ground (arith, validated r s slot e) in
      let positive : ltb 0 (index_from_ref_num slot.magic_num) ≡ true = ground arith in
      rw (acquire_ref_num_rights, e) (if-true _ _ counted ∙ rw (positive, same) refl)

  pub released :
      (blank : D) (r : ℕ) (slot : Slot D) (s : Storage D)
      → s.is_ref_counted ≡ true
      → validate_ref_num_index r s ≡ some slot
      → let count = index_from_ref_num slot.magic_num in
        let s' = recount r (count - 1) slot s in
        release_ref_num_rights blank r s ≡ (
          if count == 0
          then (0, s)
          else (count, if count == 1 then (dispose_ref_num blank r s').1 else s'))
  unfolding release_ref_num_rights
  released blank r slot s counted e =
      let count = index_from_ref_num slot.magic_num in
      let s' = recount r (count - 1) slot s in
      let same : (magic_from_ref_num slot.magic_num == magic_from_ref_num r) ≡ true =
        ground (arith, validated r s slot e) in
      rw (release_ref_num_rights, e)
        (if-true _ _ counted
          ∙ rw same (
              if_positive count (count, if count == 1 then (dispose_ref_num blank r s').1 else s')
                (0, s)))

  pub unreleased :
      (blank : D) (r : ℕ) (s : Storage D)
      → s.is_ref_counted ≡ true
      → validate_ref_num_index r s ≡ none
      → release_ref_num_rights blank r s ≡ (0, s)
  unfolding release_ref_num_rights
  unreleased blank r s counted e = rw (release_ref_num_rights, e) (if-true _ _ counted)

  none_left :
      (r t : ℕ) (s : Storage D)
      → ref_count r s ≡ 0
      → ref_count t s ≡ (if t == r then ref_count r s - 1 else ref_count t s)
  none_left r t s e = elim (Bool-cases (t == r)) [
    | inl eq ↦ let same : t ≡ r = ground arith in rw (eq, e) (ap (λ k. ref_count k s) same ∙ e)
    | inr ne ↦ rw ne refl
  ]

  -- The last release disposes the refnum.
  last_step :
      (blank : D) (r t : ℕ) (slot : Slot D) (s : Storage D)
      → r < 2 ^ 32
      → t < 2 ^ 32
      → validate_ref_num_index r s ≡ some slot
      → validate_ref_num_index t (dispose_ref_num blank r (recount r 0 slot s)).1
        ≡ (if t == r then none else validate_ref_num_index t (recount r 0 slot s))
  last_step blank r t slot s hr ht e =
      let at = validate-recount r r 0 slot s hr hr e ∙ if-true _ _ (eq→beq r r refl) in
      (validate-dispose blank r t (recount r 0 slot s) (recounted r 0 slot) hr ht at).1

  pub validate-last :
      (blank : D) (r : ℕ) (slot : Slot D) (s : Storage D)
      → r < 2 ^ 32
      → validate_ref_num_index r s ≡ some slot
      → validate_ref_num_index r (dispose_ref_num blank r (recount r 0 slot s)).1 ≡ none
  validate-last blank r slot s hr e =
      last_step blank r r slot s hr hr e ∙ if-true _ _ (eq→beq r r refl)

  last_released :
      (blank : D) (r t : ℕ) (slot : Slot D) (s : Storage D)
      → r < 2 ^ 32
      → t < 2 ^ 32
      → validate_ref_num_index r s ≡ some slot
      → ref_count t (dispose_ref_num blank r (recount r 0 slot s)).1
        ≡ (if t == r then 0 else ref_count t s)
  last_released blank r t slot s hr ht e =
      let seen = last_step blank r t slot s hr ht e in
      elim (Bool-cases (t == r)) [
        | inl eq ↦ rw (ref_count, seen, eq) refl
        | inr ne ↦
            let after =
              seen ∙ if-false _ _ ne ∙ validate-recount r t 0 slot s hr ht e ∙ if-false _ _ ne in
            rw (ref_count, after, ne) refl
      ]

  -- In a storage that counts references, where the count of a refnum is positive and below
  -- 2^20 - 1, AcquireRefNumRights returns the data and adds one to the count, and to the count
  -- of no other UInt32.
  pub acquire-counts :
      (r t : ℕ) (s : Storage D)
      → r < 2 ^ 32
      → t < 2 ^ 32
      → s.is_ref_counted ≡ true
      → 1 ≤ ref_count r s
      → ref_count r s + 1 < 2 ^ 20
      → let u = acquire_ref_num_rights r s in
        (u.0 ≡ get_ref_num_data r s)
        × (ref_count t u.1 ≡ (if t == r then ref_count r s + 1 else ref_count t s))
  unfolding get_ref_num_data
  acquire-counts r t s hr ht counted lo hi = elim (Option-cases (validate_ref_num_index r s)) [
    | inl e ↦ absurd (omega (arith, none_counts r s e))
    | inr (slot, e) ↦
        let count : ref_count r s ≡ index_from_ref_num slot.magic_num = rw (ref_count, e) refl in
        let positive : counts s slot ≡ true = ground arith in
        let made = acquired r slot s counted e (omega arith) in
        let next =
          ref_count-recount r t (index_from_ref_num slot.magic_num + 1) slot s hr ht (omega arith)
            e in
        rw (made, count) (rw (get_ref_num_data, e) (sym (if-true _ _ positive)), next)
  ]

  -- ReleaseRefNumRights returns the reference count of `r`, and takes one from it where it is
  -- positive; the count of every other refnum is as before.
  pub release-counts :
      (blank : D) (r t : ℕ) (s : Storage D)
      → r < 2 ^ 32
      → t < 2 ^ 32
      → s.is_ref_counted ≡ true
      → let u = release_ref_num_rights blank r s in
        (u.0 ≡ ref_count r s)
        × (ref_count t u.1 ≡ (if t == r then ref_count r s - 1 else ref_count t s))
  release-counts blank r t s hr ht counted = elim (Option-cases (validate_ref_num_index r s)) [
    | inl e ↦
        rw (unreleased blank r s counted e)
          (sym (none_counts r s e), none_left r t s (none_counts r s e))
    | inr (slot, e) ↦
        let count : ref_count r s ≡ index_from_ref_num slot.magic_num = rw (ref_count, e) refl in
        let made = released blank r slot s counted e in
        let c = index_from_ref_num slot.magic_num in
        elim (Bool-cases (c == 0)) [
          | inl zero' ↦
              let none' : c ≡ 0 = ground arith in
              rw (made, zero') (sym (count ∙ none'), none_left r t s (count ∙ none'))
          | inr more ↦
              let next = ref_count-recount r t (c - 1) slot s hr ht (omega arith) e in
              elim (Bool-cases (c == 1)) [
                | inl one ↦
                    let one' : c ≡ 1 = ground arith in
                    rw (made, more, one, count, one') (refl, last_released blank r t slot s hr ht e)
                | inr many ↦ rw (made, more, many, count) (refl, next)
              ]
        ]
  ]
