-- ===== src/RefNum/Slots.antt =====
-- What a write to the slot that validates a refnum does (recount and SetRefNumData).
use vireo_sdk.Common.{
  ℕ, ◌^◌, ◌<◌, ◌≡◌, ◌≢◌, refl, sym, ap, ◌∙◌, inl, inr, none, some, arith, update, ◌==◌,
  if◌then◌else◌, Bool-cases,
}
use vireo_sdk.RefNum.{
  Slot, Storage, magic_from_ref_num, index_from_ref_num, validate_ref_num_index, accepted,
}
use vireo_sdk.RefNum.Invariant.{Inv, next_of, Chain-update, Chain-used, accepted-update}
use vireo_sdk.RefNum.Dispose.{accepted-some, accepted_unique}

module _ {D : Type 0} where
  -- The storage with the slot at the index of `r` replaced.
  abbrev pub at_index : ℕ → Slot D → Storage D → Storage D
  at_index r v s = record s { slots = update s.slots (index_from_ref_num r) (some v) }

  -- Where `slot` validates `r`, a slot in use with the same magic number in its place validates the
  -- same refnums.
  pub validate-at_index :
      (r t : ℕ) (slot v : Slot D) (s : Storage D)
      → r < 2 ^ 32
      → t < 2 ^ 32
      → validate_ref_num_index r s ≡ some slot
      → v.next_free ≡ none
      → magic_from_ref_num v.magic_num ≡ magic_from_ref_num r
      → validate_ref_num_index t (at_index r v s)
        ≡ (if t == r then some v else validate_ref_num_index t s)
  unfolding validate_ref_num_index
  validate-at_index r t slot v s hr ht e free magic =
      let i = index_from_ref_num r in
      let held = accepted-some r (s.slots i) slot e in
      accepted-update s.slots r t v hr ht free magic held.3 ∙ elim (Bool-cases (t == r)) [
        | inl eq ↦ rw eq refl
        | inr ne ↦ elim (Bool-cases (index_from_ref_num t == i)) [
          | inl eq' ↦
              let same : index_from_ref_num t ≡ i = ground arith in
              let apart : t ≢ r = ground arith in
              let old : accepted t (s.slots (index_from_ref_num t)) ≡ none =
                ap (λ k. accepted t (s.slots k)) same
                ∙ accepted_unique r t (s.slots i) slot hr ht same e apart in
              rw (ne, eq', old) refl
          | inr ne' ↦ rw (ne, ne') refl
        ]
      ]

  pub at_index-Inv :
      (r : ℕ) (slot v : Slot D) (s : Storage D)
      → Inv s
      → validate_ref_num_index r s ≡ some slot
      → v.next_free ≡ none
      → Inv (at_index r v s)
  unfolding validate_ref_num_index
  at_index-Inv r slot v s inv e free =
      let i = index_from_ref_num r in
      let held = accepted-some r (s.slots i) slot e in
      let out =
        Chain-used s.slots inv.size s.first_free i inv.free inv.chain
          (ap next_of held.0 ∙ held.1) in
      record {
        size = inv.size;
        free = inv.free;
        chain = Chain-update s.slots inv.size s.first_free i (some v) inv.free out inv.chain;
        small = inv.small;
        present = λ k h gone. ground (arith, inv.present k);
        absent = λ k h.
            let apart : k ≢ i = λ same.
              let gone : none ≡ some slot = sym (inv.absent k h) ∙ ap s.slots same ∙ held.0 in
              absurd (cc) in
            ground (arith, inv.absent k);
        used = inv.used;
        magic_in = inv.magic_in;
      }

  pub validated :
      (r : ℕ) (s : Storage D) (slot : Slot D)
      → validate_ref_num_index r s ≡ some slot
      → (slot.next_free ≡ none) × (magic_from_ref_num slot.magic_num ≡ magic_from_ref_num r)
  unfolding validate_ref_num_index
  validated r s slot e =
      let held = accepted-some r (s.slots (index_from_ref_num r)) slot e in (held.1, held.2)
