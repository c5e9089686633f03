-- ===== src/RefNum/Room.antt =====
-- NewRefNum keeps the invariant, and fails only if every slot is in use.
use vireo_sdk.Common.Pigeons.{AllNe}
use vireo_sdk.Common.{
  ℕ, ◌+◌, ◌^◌, ◌≤◌, ◌<◌, ◌≡◌, refl, sym, ap, ◌∙◌, inl, inr, Bool, none, some, List, [], ◌∷◌, arith,
  length, ◌==◌, if◌then◌else◌, ◌↔◌,
}
use native.Mathlib.Decide.{dec_lt}
use vireo_sdk.RefNum.{Storage, magic_mask, new_ref_num, fill_slot, not_a_ref_num}
use vireo_sdk.RefNum.{init}
use vireo_sdk.RefNum.Invariant.{Inv, Chain, next_of, Chain-update}
use vireo_sdk.RefNum.Create.{new_cases, new_fails, new_slot, new-fresh}

next_magic-in :
    (m : ℕ)
    → 1 ≤ m
    → m < 2 ^ 12
    → let n = if magic_mask (m + 1) == 0 then 1 else m + 1 in (1 ≤ n) × (n < 2 ^ 12)
next_magic-in m lo hi = ground arith

module _ {D : Type 0} where
  grown :
      (s : Storage D) (v : Inv s)
      → s.slots s.first_free ≡ none
      → (v.free ≡ []) × (s.first_free ≡ v.size)
  grown s v e = go v.free v.chain
    where
      go :
          (is : List ℕ) → Chain s.slots v.size s.first_free is → (is ≡ []) × (s.first_free ≡ v.size)
      go [] c = (refl, c)
      go (i ∷ is) c = absurd (v.present s.first_free (omega arith) e)

  reused :
      (s : Storage D) (v : Inv s) (j : ℕ)
      → next_of (s.slots s.first_free) ≡ some j
      → (is : List ℕ) × (v.free ≡ s.first_free ∷ is)
        × AllNe s.first_free is
        × Chain s.slots v.size j is
        × (s.first_free < v.size)
  reused s v j e = go v.free v.chain
    where
      go :
          (fs : List ℕ)
          → Chain s.slots v.size s.first_free fs
          → (is : List ℕ) × (fs ≡ s.first_free ∷ is)
            × AllNe s.first_free is
            × Chain s.slots v.size j is
            × (s.first_free < v.size)
      go [] c =
          let none' : s.slots s.first_free ≡ none = v.absent s.first_free (omega arith) in
          let bad : none ≡ some j = ap next_of (sym none') ∙ e in cc
      go (i ∷ is) c =
          let same : c.3.0 ≡ j = ground arith in
          (is, ap (λ k. k ∷ is) (sym c.0), rw c.0 c.2, rw (← same) c.3.2, omega arith)

  filled-grown :
      (d : D) (s : Storage D)
      → Inv s
      → s.first_free < 2 ^ 20
      → s.slots s.first_free ≡ none
      → Inv (fill_slot d s.first_free (record s { first_free = s.first_free + 1 })).1
  filled-grown d s v fits e =
      let (none', last) = grown s v e in
      record {
        size = v.size + 1;
        free = [];
        chain = omega arith;
        small = omega arith;
        present = λ i h gone. ground (arith, v.present i);
        absent = λ i h. ground (arith, v.absent i);
        used = omega (arith, v.used, ap length none');
        magic_in = next_magic-in s.next_magic_num v.magic_in.0 v.magic_in.1;
      }

  filled-reused :
      (d : D) (s : Storage D) (j : ℕ)
      → Inv s
      → next_of (s.slots s.first_free) ≡ some j
      → Inv (fill_slot d s.first_free (record s { first_free = j })).1
  filled-reused d s j v e =
      let (is, head, apart, rest, inside) = reused s v j e in
      record {
        size = v.size;
        free = is;
        chain = Chain-update s.slots v.size j s.first_free (some (new_slot d s)) is apart rest;
        small = v.small;
        present = λ i h gone. ground (arith, v.present i);
        absent = λ i h. ground (arith, v.absent i);
        used = omega (arith, v.used, ap length head);
        magic_in = next_magic-in s.next_magic_num v.magic_in.0 v.magic_in.1;
      }

  all_used : (s : Storage D) → Inv s → (2 ^ 20 ≤ s.first_free) ↔ (s.num_used ≡ 2 ^ 20)
  all_used s v = go v.free v.chain v.used
    where
      go :
          (is : List ℕ)
          → Chain s.slots v.size s.first_free is
          → s.num_used + length is ≡ v.size
          → (2 ^ 20 ≤ s.first_free) ↔ (s.num_used ≡ 2 ^ 20)
      go [] c used = (λ h. omega (arith, v.small), λ h. omega (arith, v.small))
      go (i ∷ is) c used =
          (λ h. absurd (omega (arith, v.small)), λ h. absurd (omega (arith, v.small)))

  -- In a storage that meets the invariant, NewRefNum returns kNotARefNum exactly if 2^20
  -- refnums are in use.
  new-full :
      (d : D) (s : Storage D)
      → Inv s
      → ((new_ref_num d s).0 ≡ not_a_ref_num) ↔ (s.num_used ≡ 2 ^ 20)
  new-full d s v = elim (dec_lt s.first_free (2 ^ 20)) [
    | yes fits ↦
        (λ e. absurd ((new-fresh d s v fits).0 e), λ e. absurd (omega (arith, (all_used s v).1 e)))
    | no full ↦ (λ e. (all_used s v).0 (omega arith), λ e. rw (new_fails d s (omega arith)))
  ]

  -- NewRefNum keeps the invariant, whether it succeeds or not.
  pub new-Inv : (d : D) (s : Storage D) → Inv s → Inv (new_ref_num d s).1
  new-Inv d s v = elim (dec_lt s.first_free (2 ^ 20)) [
    | yes fits ↦ elim (new_cases d s v fits) [
      | inl (e, made) ↦ rw made (filled-grown d s v fits e)
      | inr (j, e, made) ↦ rw made (filled-reused d s j v e)
    ]
    | no full ↦ rw (new_fails d s (omega arith)) v
  ]

  -- A storage that Init has set up meets the invariant.
  pub init-Inv : (tick : ℕ) (ref_counted : Bool) → Inv (init {D = D} tick ref_counted)
  unfolding init
  init-Inv tick ref_counted = record {
    size = 0;
    free = [];
    chain = refl;
    small = omega arith;
    present = λ i h gone. omega arith;
    absent = λ i h. refl;
    used = refl;
    magic_in = ground arith;
  }
