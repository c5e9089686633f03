-- ===== src/RefNum/Data.antt =====
-- GetRefNumData and SetRefNumData.
use vireo_sdk.Common.{
  ℕ, ◌^◌, ◌<◌, ◌≡◌, refl, ◌⊎◌, inl, inr, true, false, some, ◌==◌, if◌then◌else◌, Bool-cases,
  Option-cases, ◌&&◌,
}
use vireo_sdk.RefNum.{
  Slot, Storage, validate_ref_num_index, get_ref_num_data, set_ref_num_data, counts,
}
use vireo_sdk.RefNum.Invariant.{Inv}
use vireo_sdk.RefNum.Slots.{at_index, validate-at_index, at_index-Inv, validated}

module _ {D : Type 0} where
  set_cases :
      (d : D) (r : ℕ) (s : Storage D)
      → ((set_ref_num_data d r s ≡ (false, s))
          ⊎ ((slot : Slot D) × (validate_ref_num_index r s ≡ some slot)
              × (counts s slot ≡ true)
              × (set_ref_num_data d r s ≡ (true, at_index r (record slot { ref_data = d }) s))))
  unfolding set_ref_num_data
  set_cases d r s = elim (Option-cases (validate_ref_num_index r s)) [
    | inl e ↦ inl (rw (set_ref_num_data, e) refl)
    | inr (slot, e) ↦ elim (Bool-cases (counts s slot)) [
      | inl c ↦ inr (slot, e, c, rw (set_ref_num_data, e, c) refl)
      | inr c ↦ inl (rw (set_ref_num_data, e, c) refl)
    ]
  ]

  -- After SetRefNumData, GetRefNumData returns the new data for the same refnum where the
  -- setting succeeded, and what it returned before for every other UInt32 and where it failed.
  get-set :
      (d : D) (r t : ℕ) (s : Storage D)
      → r < 2 ^ 32
      → t < 2 ^ 32
      → let u = set_ref_num_data d r s in
        get_ref_num_data t u.1 ≡ (if (t == r) && u.0 then some d else get_ref_num_data t s)
  unfolding get_ref_num_data
  get-set d r t s hr ht = elim (set_cases d r s) [
    | inl e ↦ rw e (elim (Bool-cases (t == r)) [ inl eq ↦ rw eq refl | inr ne ↦ rw ne refl ])
    | inr (slot, e, c, made) ↦
        let v : Slot D = record slot { ref_data = d } in
        let held = validated r s slot e in
        let seen = validate-at_index r t slot v s hr ht e held.0 held.1 in
        rw made (
          rw (get_ref_num_data, seen)
            (elim (Bool-cases (t == r)) [ inl eq ↦ rw (eq, c) refl | inr ne ↦ rw ne refl ]))
  ]

  pub set-Inv : (d : D) (r : ℕ) (s : Storage D) → Inv s → Inv (set_ref_num_data d r s).1
  set-Inv d r s inv = elim (set_cases d r s) [
    | inl e ↦ rw e inv
    | inr (slot, e, c, made) ↦
        rw made
          (at_index-Inv r slot (record slot { ref_data = d }) s inv e (validated r s slot e).0)
  ]
