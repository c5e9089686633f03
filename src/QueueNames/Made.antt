-- ===== src/QueueNames/Made.antt =====
-- A queue that is made has one reference and no alias.
use vireo_sdk.Common.{
  ℕ, ◌^◌, ◌<◌, ◌≡◌, true, [], ◌==◌, if◌then◌else◌, arith, refl, ap, ◌∙◌, Bool-cases, inl, inr,
}
use vireo_sdk.RefNum.{Storage, init, new_ref_num, validate_ref_num_index, index_from_ref_num}
use vireo_sdk.RefNum.Invariant.{Inv}
use vireo_sdk.RefNum.Create.{new_cases, new_slot, validate-new, new-fresh}
use vireo_sdk.RefNum.Counting.{ref_count, none_counts}
use vireo_sdk.QueueNames.{Manager}
use vireo_sdk.QueueNames.Counted.{aliases_of, IsMap, Counted}

module _ {D : Type 0} where
  pub start-Counted :
      (tick : ℕ) → Counted (record { storage = init {D = D} tick true; aliases = []; names = [] })
  unfolding init aliases_of IsMap validate_ref_num_index
  start-Counted tick = record { counted = refl; is_map = tt; kept = λ r h. inl (refl, refl) }

  new-counted :
      (d : D) (s : Storage D)
      → Inv s
      → s.first_free < 2 ^ 20
      → (new_ref_num d s).1.is_ref_counted ≡ s.is_ref_counted
  new-counted d s v fits = elim (new_cases d s v fits) [
    | inl (e, made) ↦ rw made refl
    | inr (j, e, made) ↦ rw made refl
  ]

  new-counts :
      (d : D) (s : Storage D) (t : ℕ)
      → Inv s
      → s.first_free < 2 ^ 20
      → s.is_ref_counted ≡ true
      → t < 2 ^ 32
      → ref_count t (new_ref_num d s).1 ≡ (if t == (new_ref_num d s).0 then 1 else ref_count t s)
  new-counts d s t v fits counted ht =
      let seen = validate-new d s t v fits ht in
      let one : index_from_ref_num (new_slot d s).magic_num ≡ 1 = rw counted (omega arith) in
      elim (Bool-cases (t == (new_ref_num d s).0)) [
        | inl e ↦ rw (ref_count, seen, e) one
        | inr e ↦ rw (ref_count, seen, e) refl
      ]

  -- NewRefNum keeps the invariant.
  pub new_queue-Counted :
      (d : D) (m : Manager D)
      → Inv m.storage
      → m.storage.first_free < 2 ^ 20
      → Counted m
      → Counted (record m { storage = (new_ref_num d m.storage).1 })
  new_queue-Counted d m v fits c =
      let u = new_ref_num d m.storage in
      let (_, low, fresh) = new-fresh d m.storage v fits in
      let unused : aliases_of u.0 m.aliases ≡ 0 = elim (c.kept u.0 low) [
        | inl (z, z') ↦ z'
        | inr k ↦ absurd (omega (arith, none_counts u.0 m.storage fresh))
      ] in
      record {
        counted = new-counted d m.storage v fits ∙ c.counted;
        is_map = c.is_map;
        kept = λ t ht.
            let counts = new-counts d m.storage t v fits c.counted ht in
            elim (Bool-cases (t == u.0)) [
              | inl e ↦
                  let same : t ≡ u.0 = ground arith in
                  let all = ap (λ i. aliases_of i m.aliases) same in
                  inr (ground (arith, counts, e, all, unused))
              | inr e ↦ elim (c.kept t ht) [
                | inl (z, z') ↦ inl (ground (arith, counts, e), z')
                | inr k ↦ inr (ground (arith, counts, e))
              ]
            ];
      }
