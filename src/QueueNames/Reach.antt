-- ===== src/QueueNames/Reach.antt =====
-- The managers that sequences of calls lead to.
use vireo_sdk.Common.{
  ℕ, ◌^◌, ◌<◌, ◌≡◌, true, Option, none, some, List, [], ◌==◌, leb, length, arith, ap, ◌∙◌,
  Bool-cases, inl, inr,
}
use vireo_sdk.RefNum.{
  Storage, init, new_ref_num, dispose_ref_num, acquire_ref_num_rights, release_ref_num_rights,
}
use vireo_sdk.RefNum.Invariant.{Inv}
use vireo_sdk.RefNum.Room.{init-Inv, new-Inv}
use vireo_sdk.RefNum.Dispose.{dispose-Inv}
use vireo_sdk.RefNum.Kept.{dispose-counts}
use vireo_sdk.RefNum.Lifetime.{acquire-Inv, release-Inv, dispose-counted}
use vireo_sdk.QueueNames.{
  Manager, Named, find_alias, add_alias, new_refnum_alias, dispose_found, dispose_alias,
}
use vireo_sdk.QueueNames.Counted.{aliases_of, Counted, new_alias-Counted}
use vireo_sdk.QueueNames.Dropping.{dropped, dispose_alias-Counted}
use vireo_sdk.QueueNames.Made.{start-Counted, new_queue-Counted}

module _ {D : Type 0} (blank : D) where
  -- From an empty manager: queues are made while the free index fits 20 bits, aliases while there are
  -- fewer than 4096, names change, aliases are disposed, and so are queues that have no alias.
  pub data Reached : Manager D → Type 0 where
    starts : (tick : ℕ) → Reached (record { storage = init tick true; aliases = []; names = [] })
    makes :
        (d : D) {m : Manager D}
        → m.storage.first_free < 2 ^ 20
        → Reached m
        → Reached (record m { storage = (new_ref_num d m.storage).1 })
    names : (ns : List Named) {m : Manager D} → Reached m → Reached (record m { names = ns })
    aliases :
        (r : ℕ) {m : Manager D}
        → r < 2 ^ 32
        → length m.aliases < 4096
        → Reached m
        → Reached (new_refnum_alias r m).1
    drops : (a : ℕ) {m : Manager D} → Reached m → Reached (dispose_alias blank a m).1
    disposes :
        (r : ℕ) {m : Manager D}
        → r < 2 ^ 32
        → aliases_of r m.aliases ≡ 0
        → Reached m
        → Reached (record m { storage = (dispose_ref_num blank r m.storage).1 })

  disposed-Counted :
      (r : ℕ) (m : Manager D)
      → r < 2 ^ 32
      → aliases_of r m.aliases ≡ 0
      → Counted m
      → Counted (record m { storage = (dispose_ref_num blank r m.storage).1 })
  disposed-Counted r m low unused c = record {
    counted = dispose-counted blank r m.storage ∙ c.counted;
    is_map = c.is_map;
    kept = λ t ht.
        let counts = dispose-counts blank r t m.storage low ht in
        elim (Bool-cases (t == r)) [
          | inl e ↦
              let same : t ≡ r = ground arith in
              inl (ground (arith, counts, e), ap (λ i. aliases_of i m.aliases) same ∙ unused)
          | inr e ↦ elim (c.kept t ht) [
            | inl (z, z') ↦ inl (ground (arith, counts, e), z')
            | inr k ↦ inr (ground (arith, counts, e))
          ]
        ];
  }

  added-Inv :
      (o : Option D) (s : Storage D) (r : ℕ) (m : Manager D)
      → Inv s
      → Inv m.storage
      → Inv (add_alias o s r m).1.storage
  added-Inv none s r m v v' = v'
  added-Inv (some d) s r m v v' = v

  new_alias-Inv : (r : ℕ) (m : Manager D) → Inv m.storage → Inv (new_refnum_alias r m).1.storage
  unfolding new_refnum_alias
  new_alias-Inv r m v =
      let u = acquire_ref_num_rights r m.storage in
      added-Inv u.0 u.1 r m (acquire-Inv r m.storage v) v

  found-Inv :
      (a : ℕ) (m : Manager D) (o : Option ℕ)
      → m.storage.is_ref_counted ≡ true
      → Inv m.storage
      → Inv (dispose_found blank a o m).1.storage
  found-Inv a m none counted v = v
  found-Inv a m (some r) counted v =
      let u = release_ref_num_rights blank r m.storage in
      let less = release-Inv blank r m.storage counted v in
      rw (dropped blank a r m).0 (elim (Bool-cases (leb u.0 2)) [
        | inl e ↦ rw e (dispose-Inv blank r u.1 less)
        | inr e ↦ rw e less
      ])

  -- From an empty manager, whatever sequence of calls makes queues while the free index fits
  -- 20 bits and aliases while there are fewer than 4096, changes names, disposes aliases, and
  -- disposes queues that have no alias: a refnum has no reference and no alias, or one
  -- reference more than aliases, no alias stands for two queues, and the storage meets the
  -- invariant of a refnum storage.
  pub Reached-Counted : {m : Manager D} → Reached m → Counted m × Inv m.storage
  unfolding dispose_alias
  Reached-Counted (starts tick) = (start-Counted tick, init-Inv tick true)
  Reached-Counted (makes d {m} fits h) =
      let (c, v) = Reached-Counted h in (new_queue-Counted d m v fits c, new-Inv d m.storage v)
  Reached-Counted (names ns {m} h) =
      let (c, v) = Reached-Counted h in
      (record { counted = c.counted; is_map = c.is_map; kept = c.kept }, v)
  Reached-Counted (aliases r {m} low few h) =
      let (c, v) = Reached-Counted h in (new_alias-Counted r m low few c, new_alias-Inv r m v)
  Reached-Counted (drops a {m} h) =
      let (c, v) = Reached-Counted h in
      (dispose_alias-Counted blank a m c, found-Inv a m (find_alias a m.aliases) c.counted v)
  Reached-Counted (disposes r {m} low unused h) =
      let (c, v) = Reached-Counted h in
      (disposed-Counted r m low unused c, dispose-Inv blank r m.storage v)
