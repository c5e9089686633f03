-- ===== src/RefNum/Create.antt =====
-- NewRefNum.
use vireo_sdk.Common.{
  ℕ, ◌+◌, ◌^◌, ◌≤◌, ◌<◌, ◌≡◌, ◌≢◌, refl, ap, ◌∙◌, ◌⊎◌, inl, inr, none, some, List, [], ◌∷◌, arith,
  update, ◌==◌, if◌then◌else◌, Bool-cases, Option-cases,
}
use vireo_sdk.RefNum.{
  Slot, Storage, magic_from_ref_num, magic_mask, index_from_ref_num, make_ref_num, new_ref_num,
  validate_ref_num_index, fill_slot, not_a_ref_num, accepted,
}
use vireo_sdk.RefNum.Invariant.{Inv, Chain, next_of, accepted-update, accepted-free}

module _ {D : Type 0} where
  -- The slot that the free list points at is absent or free.
  abbrev IsFree : Storage D → ℕ → Type 0
  IsFree s i =
      (s.slots i ≡ none)
      ⊎ ((slot : Slot D) × (j : ℕ) × (s.slots i ≡ some slot) × (slot.next_free ≡ some j))

  chain_head : (s : Storage D) (v : Inv s) → IsFree s s.first_free
  chain_head s v = go v.free v.chain
    where
      go : (is : List ℕ) → Chain s.slots v.size s.first_free is → IsFree s s.first_free
      go [] c = inl (v.absent s.first_free (omega arith))
      go (i ∷ is) c = elim (Option-cases (s.slots s.first_free)) [
        | inl e ↦ inl e
        | inr (slot, e) ↦ inr (slot, c.3.0, e, ground arith)
      ]

  -- NewRefNum on a storage whose first free index fits the 20 bits.
  pub new_cases :
      (d : D) (s : Storage D)
      → Inv s
      → s.first_free < 2 ^ 20
      → ((s.slots s.first_free ≡ none)
          × (new_ref_num d s
              ≡ fill_slot d s.first_free (record s { first_free = s.first_free + 1 })))
        ⊎ ((j : ℕ) × (next_of (s.slots s.first_free) ≡ some j)
            × (new_ref_num d s ≡ fill_slot d s.first_free (record s { first_free = j })))
  unfolding new_ref_num
  new_cases d s v fits =
      let low : index_from_ref_num s.first_free ≡ s.first_free = omega arith in
      elim (chain_head s v) [
        | inl e ↦ inl (e, ground arith)
        | inr (slot, j, e, free) ↦ inr (j, ground arith, ground arith)
      ]

  -- The slot that NewRefNum fills with `d`.
  abbrev pub new_slot : D → Storage D → Slot D
  new_slot d s = record {
    magic_num = make_ref_num (if s.is_ref_counted then 1 else 0) (magic_mask s.next_magic_num);
    next_free = none;
    ref_data = d;
  }

  abbrev new_at : Storage D → ℕ
  new_at s = make_ref_num s.first_free (magic_mask s.next_magic_num)

  validate-filled :
      (d : D) (s : Storage D) (t : ℕ)
      → Inv s
      → s.first_free < 2 ^ 20
      → t < 2 ^ 32
      → accepted t (s.slots s.first_free) ≡ none
      → accepted t (update s.slots s.first_free (some (new_slot d s)) (index_from_ref_num t)) ≡ (
          if t == new_at s
          then some (new_slot d s)
          else accepted t (s.slots (index_from_ref_num t)))
  validate-filled d s t v fits ht barred =
      let r = new_at s in
      let place : s.first_free ≡ index_from_ref_num r = omega arith in
      let magic : magic_from_ref_num r ≢ 0 = omega (arith, v.magic_in) in
      let same : magic_from_ref_num (new_slot d s).magic_num ≡ magic_from_ref_num r = omega arith in
      ap (λ k. accepted t (update s.slots k (some (new_slot d s)) (index_from_ref_num t))) place
      ∙ accepted-update s.slots r t (new_slot d s) (omega arith) ht refl same magic
      ∙ elim (Bool-cases (index_from_ref_num t == index_from_ref_num r)) [
        | inl e ↦
            let at : index_from_ref_num t ≡ s.first_free = ground arith in
            let old : accepted t (s.slots (index_from_ref_num t)) ≡ none =
              ap (λ k. accepted t (s.slots k)) at ∙ barred in
            rw (e, old)
        | inr e ↦ rw e
      ]

  pub new_fails :
      (d : D) (s : Storage D) → 2 ^ 20 ≤ s.first_free → new_ref_num d s ≡ (not_a_ref_num, s)
  unfolding new_ref_num
  new_fails d s h = ground arith

  -- In a storage that meets the invariant and whose first free index fits 20 bits, after
  -- NewRefNum the new refnum validates to the slot of its data, and every other UInt32
  -- validates as before.
  pub validate-new :
      (d : D) (s : Storage D) (t : ℕ)
      → Inv s
      → s.first_free < 2 ^ 20
      → t < 2 ^ 32
      → let r = new_ref_num d s in
        validate_ref_num_index t r.1
        ≡ (if t == r.0 then some (new_slot d s) else validate_ref_num_index t s)
  unfolding validate_ref_num_index
  validate-new d s t v fits ht = elim (new_cases d s v fits) [
    | inl (e, made) ↦ rw made (validate-filled d s t v fits ht (rw e))
    | inr (j, e, made) ↦ rw made (validate-filled d s t v fits ht (accepted-free t j _ e))
  ]

  fresh_at :
      (s : Storage D)
      → Inv s
      → s.first_free < 2 ^ 20
      → ((t : ℕ) → accepted t (s.slots s.first_free) ≡ none)
      → (new_at s ≢ not_a_ref_num)
        × (new_at s < 2 ^ 32)
        × (accepted (new_at s) (s.slots (index_from_ref_num (new_at s))) ≡ none)
  fresh_at s v fits barred =
      let place : index_from_ref_num (new_at s) ≡ s.first_free = omega arith in
      (
        omega (arith, v.magic_in),
        omega arith,
        ap (λ k. accepted (new_at s) (s.slots k)) place ∙ barred (new_at s),
      )

  -- In a storage that meets the invariant and whose first free index fits 20 bits, NewRefNum
  -- returns a UInt32 other than kNotARefNum that did not validate before.
  pub new-fresh :
      (d : D) (s : Storage D)
      → Inv s
      → s.first_free < 2 ^ 20
      → let r = new_ref_num d s in
        (r.0 ≢ not_a_ref_num) × (r.0 < 2 ^ 32) × (validate_ref_num_index r.0 s ≡ none)
  unfolding validate_ref_num_index
  new-fresh d s v fits = elim (new_cases d s v fits) [
    | inl (e, made) ↦ rw made (fresh_at s v fits (λ t. rw e))
    | inr (j, e, made) ↦ rw made (fresh_at s v fits (λ t. accepted-free t j _ e))
  ]
