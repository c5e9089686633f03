-- ===== src/RefNum/Dispose.antt =====
-- DisposeRefNum: what validates after it, and that it keeps the invariant.
use vireo_sdk.Common.{
  ℕ, ◌^◌, ◌<◌, ◌≡◌, ◌≢◌, refl, sym, ap, ◌∙◌, inl, inr, Option, none, some, ◌∷◌, arith, update, ◌==◌,
  if◌then◌else◌, Bool-cases, Option-cases,
}
use native.Mathlib.Decide.{dec_lt}
use vireo_sdk.RefNum.{
  Slot, Storage, magic_from_ref_num, index_from_ref_num, validate_ref_num_index, accepted,
}
use vireo_sdk.RefNum.Bits.{ref_num-eq}
use vireo_sdk.RefNum.Invariant.{Inv, next_of, length-free-lt, Chain-update, Chain-used}
use vireo_sdk.RefNum.{dispose_ref_num, free_slot}

module _ {D : Type 0} where
  -- A slot that a refnum validates is in use, and has the magic number of the refnum.
  pub accepted-some :
      (r : ℕ) (o : Option (Slot D)) (slot : Slot D)
      → accepted r o ≡ some slot
      → (o ≡ some slot)
        × (slot.next_free ≡ none)
        × (magic_from_ref_num slot.magic_num ≡ magic_from_ref_num r)
        × (magic_from_ref_num r ≢ 0)
  accepted-some r none slot e = cc
  accepted-some r (some slot') slot e = ground arith

  pub accepted_unique :
      (r t : ℕ) (o : Option (Slot D)) (slot : Slot D)
      → r < 2 ^ 32
      → t < 2 ^ 32
      → index_from_ref_num t ≡ index_from_ref_num r
      → accepted r o ≡ some slot
      → t ≢ r
      → accepted t o ≡ none
  accepted_unique r t o slot hr ht same e ne =
      ground (arith, accepted-some r o slot e, ref_num-eq t r)

  abbrev freed_slot : D → Storage D → Slot D
  freed_slot blank s = record { magic_num = 0; next_free = some s.first_free; ref_data = blank }

  pub disposed :
      (blank : D) (r : ℕ) (s : Storage D) (slot : Slot D)
      → validate_ref_num_index r s ≡ some slot
      → dispose_ref_num blank r s ≡ (some slot.ref_data, free_slot blank r s)
  unfolding dispose_ref_num
  disposed blank r s slot e = rw (dispose_ref_num, e) refl

  validate-freed :
      (blank : D) (r t : ℕ) (s : Storage D) (slot : Slot D)
      → r < 2 ^ 32
      → t < 2 ^ 32
      → accepted r (s.slots (index_from_ref_num r)) ≡ some slot
      → accepted t
          (update s.slots (index_from_ref_num r) (some (freed_slot blank s)) (index_from_ref_num t))
        ≡ (if t == r then none else accepted t (s.slots (index_from_ref_num t)))
  validate-freed blank r t s slot hr ht e =
      elim (Bool-cases (index_from_ref_num t == index_from_ref_num r)) [
        | inl eq' ↦
            let same : index_from_ref_num t ≡ index_from_ref_num r = ground arith in
            let old : t ≢ r → accepted t (s.slots (index_from_ref_num t)) ≡ none = λ ne.
              ap (λ k. accepted t (s.slots k)) same
              ∙ accepted_unique r t (s.slots (index_from_ref_num r)) slot hr ht same e ne in
            elim (Bool-cases (t == r)) [
              | inl eq ↦ ground arith
              | inr ne ↦ let apart : t ≢ r = ground arith in let none' = old apart in ground arith
            ]
        | inr ne ↦ ground arith
      ]

  -- DisposeRefNum of a UInt32 that validates to a slot returns the slot's data; the UInt32
  -- validates no longer, and every other UInt32 validates as before.
  pub validate-dispose :
      (blank : D) (r t : ℕ) (s : Storage D) (slot : Slot D)
      → r < 2 ^ 32
      → t < 2 ^ 32
      → validate_ref_num_index r s ≡ some slot
      → let u = dispose_ref_num blank r s in
        (u.0 ≡ some slot.ref_data)
        × (validate_ref_num_index t u.1 ≡ (if t == r then none else validate_ref_num_index t s))
  unfolding validate_ref_num_index
  validate-dispose blank r t s slot hr ht e =
      rw (disposed blank r s slot e) (refl, validate-freed blank r t s slot hr ht e)

  -- A refnum that does not validate is reported as not found, and disposes nothing.
  pub dispose-invalid :
      (blank : D) (r : ℕ) (s : Storage D)
      → validate_ref_num_index r s ≡ none
      → dispose_ref_num blank r s ≡ (none, s)
  unfolding dispose_ref_num
  dispose-invalid blank r s e = rw (dispose_ref_num, e) refl

  freed-Inv :
      (blank : D) (r : ℕ) (s : Storage D) (slot : Slot D)
      → Inv s
      → accepted r (s.slots (index_from_ref_num r)) ≡ some slot
      → Inv (free_slot blank r s)
  freed-Inv blank r s slot v e =
      let i = index_from_ref_num r in
      let held = accepted-some r (s.slots i) slot e in
      let out =
        Chain-used s.slots v.size s.first_free i v.free v.chain (ap next_of held.0 ∙ held.1) in
      let inside : i < v.size = elim (dec_lt i v.size) [
        | yes h ↦ h
        | no h ↦
            let gone : none ≡ some slot = sym (v.absent i (omega arith)) ∙ held.0 in absurd (cc)
      ] in
      record {
        size = v.size;
        free = i ∷ v.free;
        chain = (
          refl,
          inside,
          out,
          (
            s.first_free,
            ground arith,
            Chain-update s.slots v.size s.first_free i (some (freed_slot blank s)) v.free out
                v.chain,
          ),
        );
        small = v.small;
        present = λ k h gone. ground (arith, v.present k);
        absent = λ k h. ground (arith, v.absent k);
        used = omega (arith, v.used, length-free-lt s v i inside out);
        magic_in = v.magic_in;
      }

  pub dispose-Inv : (blank : D) (r : ℕ) (s : Storage D) → Inv s → Inv (dispose_ref_num blank r s).1
  unfolding validate_ref_num_index
  dispose-Inv blank r s v = elim (Option-cases (validate_ref_num_index r s)) [
    | inl e ↦ rw (dispose-invalid blank r s e) v
    | inr (slot, e) ↦ rw (disposed blank r s slot e) (freed-Inv blank r s slot v e)
  ]
