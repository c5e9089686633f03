-- ===== src/QueueNames/Dropping.antt =====
-- What DisposeAlias leaves.
use vireo_sdk.Common.{
  ℕ, ◌^◌, ◌<◌, ◌≡◌, Bool, true, false, not, ◌&&◌, Option, none, some, ◌==◌, if◌then◌else◌, leb,
  arith, refl, ap, ◌∙◌, Bool-cases, inl, inr, if-true, eq→beq,
}
use vireo_sdk.RefNum.{dispose_ref_num, get_ref_num_data, release_ref_num_rights}
use vireo_sdk.RefNum.Counting.{release-counts}
use vireo_sdk.RefNum.Kept.{dispose-counts, data-none, data-release}
use vireo_sdk.RefNum.Lifetime.{dispose-counted, release-counted}
use vireo_sdk.QueueNames.{
  Manager, find_alias, erase_alias, get_queue_ref_name, drop_alias, dispose_found, dispose_alias,
}
use vireo_sdk.QueueNames.Counted.{aliases_of, Keeps, Counted, aliases_of-erase, erase-IsMap}

module _ {D : Type 0} where
  get_name-keeps :
      (r : ℕ) (deleting : Bool) (m : Manager D)
      → ((get_queue_ref_name r deleting m).1.storage ≡ m.storage)
        × ((get_queue_ref_name r deleting m).1.aliases ≡ m.aliases)
  unfolding get_queue_ref_name
  get_name-keeps r deleting m = elim (Bool-cases (not (r == 0) && deleting)) [
    | inl e ↦ rw e (refl, refl)
    | inr e ↦ rw e (refl, refl)
  ]

  -- What is left behind an alias that is dropped.
  pub dropped :
      (blank : D) (a r : ℕ) (m : Manager D)
      → let u = release_ref_num_rights blank r m.storage in
        let d = (drop_alias blank a r m).1 in
        (d.storage ≡ (if leb u.0 2 then (dispose_ref_num blank r u.1).1 else u.1))
        × (d.aliases ≡ erase_alias a m.aliases)
  dropped blank a r m =
      let released = record m { storage = (release_ref_num_rights blank r m.storage).1 } in
      elim (Bool-cases (leb (release_ref_num_rights blank r m.storage).0 2)) [
        | inl e ↦
            let (storage, aliases) = get_name-keeps a true released in
            rw e (ap (λ s. (dispose_ref_num blank r s).1) storage, ap (erase_alias a) aliases)
        | inr e ↦
            let (storage, aliases) = get_name-keeps a false released in
            rw e (storage, ap (erase_alias a) aliases)
      ]

  dropped-Keeps :
      (blank : D) (a r t : ℕ) (m : Manager D)
      → find_alias a m.aliases ≡ some r
      → t < 2 ^ 32
      → Counted m
      → let u = release_ref_num_rights blank r m.storage in
        Keeps t
          (if leb u.0 2 then (dispose_ref_num blank r u.1).1 else u.1)
          (erase_alias a m.aliases)
  dropped-Keeps blank a r t m found ht c =
      let (less, more, low) = aliases_of-erase a t r m.aliases c.is_map found in
      let u = release_ref_num_rights blank r m.storage in
      let (before, left) = release-counts blank r t m.storage low ht c.counted in
      let gone = dispose-counts blank r t u.1 low ht in
      elim (c.kept r low) [
        | inl (z, z') ↦ absurd (omega arith)
        | inr k ↦ elim (Bool-cases (leb u.0 2)) [
          | inl e ↦
              let one : aliases_of r m.aliases ≡ 1 = ground arith in
              rw e (elim (Bool-cases (t == r)) [
                | inl s ↦
                    let same : t ≡ r = ground arith in
                    let all = ap (λ i. aliases_of i m.aliases) same in
                    inl (ground (arith, gone), ground (arith, less, all, one))
                | inr s ↦ elim (c.kept t ht) [
                  | inl (z, z') ↦ inl (ground (arith, gone, left), ground (arith, less))
                  | inr k' ↦ inr (ground (arith, gone, left, less))
                ]
              ])
          | inr e ↦ rw e (elim (Bool-cases (t == r)) [
            | inl s ↦
                let same : t ≡ r = ground arith in
                let all = ap (λ i. aliases_of i m.aliases) same in
                inr (ground (arith, left, less, all, k))
            | inr s ↦ elim (c.kept t ht) [
              | inl (z, z') ↦ inl (ground (arith, left), ground (arith, less))
              | inr k' ↦ inr (ground (arith, left, less))
            ]
          ])
        ]
      ]

  found-Counted :
      (blank : D) (a : ℕ) (m : Manager D) (o : Option ℕ)
      → find_alias a m.aliases ≡ o
      → Counted m
      → Counted (dispose_found blank a o m).1
  found-Counted blank a m none e c = c
  found-Counted blank a m (some r) e c =
      let (storage, aliases) = dropped blank a r m in
      let u = release_ref_num_rights blank r m.storage in
      let less = release-counted blank r m.storage c.counted in
      record {
        counted = rw storage (elim (Bool-cases (leb u.0 2)) [
          | inl h ↦ rw h (dispose-counted blank r u.1 ∙ less)
          | inr h ↦ rw h less
        ]);
        is_map = rw aliases (erase-IsMap a m.aliases c.is_map);
        kept = λ t ht. rw (storage, aliases) (dropped-Keeps blank a r t m e ht c);
      }

  -- DisposeAlias keeps the invariant.
  pub dispose_alias-Counted :
      (blank : D) (a : ℕ) (m : Manager D) → Counted m → Counted (dispose_alias blank a m).1
  unfolding dispose_alias
  dispose_alias-Counted blank a m c = found-Counted blank a m (find_alias a m.aliases) refl c

  -- In a manager whose references are one more than the aliases, DisposeAlias of an alias of a
  -- queue leaves the queue without data if it was the last alias, and leaves the data as they
  -- are otherwise.
  pub data-dispose_alias :
      (blank : D) (a r : ℕ) (m : Manager D)
      → Counted m
      → find_alias a m.aliases ≡ some r
      → get_ref_num_data r (dispose_alias blank a m).1.storage
        ≡ (if aliases_of r m.aliases == 1 then none else get_ref_num_data r m.storage)
  unfolding dispose_alias
  data-dispose_alias blank a r m c e =
      let (_, more, low) = aliases_of-erase a r r m.aliases c.is_map e in
      let u = release_ref_num_rights blank r m.storage in
      let (before, left) = release-counts blank r r m.storage low low c.counted in
      let less = release-counted blank r m.storage c.counted in
      let own : (r == r) ≡ true = eq→beq r r refl in
      ap (λ o. get_ref_num_data r (dispose_found blank a o m).1.storage) e
      ∙ (ap (get_ref_num_data r) (dropped blank a r m).0 ∙ elim (c.kept r low) [
        | inl (z, z') ↦ absurd (omega arith)
        | inr k ↦ elim (Bool-cases (leb u.0 2)) [
          | inl h ↦
              let one : (aliases_of r m.aliases == 1) ≡ true = ground arith in
              rw (h, one)
                (data-none r (dispose_ref_num blank r u.1).1 (dispose-counted blank r u.1 ∙ less)
                  (dispose-counts blank r r u.1 low low ∙ if-true _ _ own))
          | inr h ↦
              let two : (aliases_of r m.aliases == 1) ≡ false = ground arith in
              rw (h, two) (data-release blank r m.storage low c.counted (ground arith))
        ]
      ])
