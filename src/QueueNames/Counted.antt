-- ===== src/QueueNames/Counted.antt =====
-- The reference count of a queue's refnum is one more than the number of its aliases.
use vireo_sdk.Common.{
  subst, ℕ, suc, ◌+◌, ◌-◌, ◌^◌, ◌≤◌, ◌<◌, ◌≡◌, true, false, none, some, List, [], ◌∷◌, ◌==◌,
  if◌then◌else◌, length, arith, refl, sym, ap, ◌∙◌, Bool-cases, Option-cases, inl, inr, ◌⊎◌,
}
use vireo_sdk.RefNum.{Storage, index_from_ref_num, not_a_ref_num, recount}
use vireo_sdk.RefNum.Counting.{ref_count, acquire-counts}
use vireo_sdk.RefNum.Lifetime.{unacquired}
use vireo_sdk.QueueNames.{
  Alias, Manager, find_alias, erase_alias, is_some, fresh_alias, add_alias, new_refnum_alias,
}
use vireo_sdk.QueueNames.Fresh.{find-erase, fresh_alias-new}

-- The number of aliases of a refnum.
unfoldable pub aliases_of : ℕ → List Alias → ℕ
aliases_of r [] = 0
aliases_of r (a ∷ al) = let rest = aliases_of r al in if r == a.refnum then suc rest else rest

-- No alias twice, and every refnum a UInt32.
unfoldable pub IsMap : List Alias → Type 0
unfolding find_alias
IsMap [] = Unit
IsMap (a ∷ al) = (find_alias a.alias al ≡ none) × (a.refnum < 2 ^ 32) × IsMap al

erase-absent : (a : ℕ) (al : List Alias) → find_alias a al ≡ none → erase_alias a al ≡ al
unfolding find_alias erase_alias
erase-absent a [] e = refl
erase-absent a (x ∷ al) e = elim (Bool-cases (x.alias == a)) [
  | inl h ↦ let hit : find_alias a (x ∷ al) ≡ some x.refnum = rw (find_alias, h) refl in cc
  | inr h ↦
      let rest : find_alias a al ≡ none = ground (arith, e, h) in
      rw (erase_alias, h) (ap (λ l. x ∷ l) (erase-absent a al rest))
]

pub aliases_of-erase :
    (a t r : ℕ) (al : List Alias)
    → IsMap al
    → find_alias a al ≡ some r
    → (aliases_of t (erase_alias a al) ≡ (if t == r then aliases_of t al - 1 else aliases_of t al))
      × (1 ≤ aliases_of r al)
      × (r < 2 ^ 32)
unfolding aliases_of find_alias erase_alias IsMap
aliases_of-erase a t r [] m e = cc
aliases_of-erase a t r (x ∷ al) (new, low, m) e = elim (Bool-cases (x.alias == a)) [
  | inl h ↦
      let at : x.alias ≡ a = ground arith in
      let gone : find_alias a al ≡ none = ap (λ k. find_alias k al) (sym at) ∙ new in
      let first : find_alias a (x ∷ al) ≡ some x.refnum = rw (find_alias, h) refl in
      let same : x.refnum ≡ r = cc in
      rw (erase_alias, h, erase-absent a al gone) (ground arith, ground arith, omega arith)
  | inr h ↦
      let rest : find_alias a (x ∷ al) ≡ find_alias a al = rw (find_alias, h) refl in
      let (less, more, small) = aliases_of-erase a t r al m (sym rest ∙ e) in
      rw (erase_alias, h) (ground (arith, less, more), ground (arith, more), small)
]

pub erase-IsMap : (a : ℕ) (al : List Alias) → IsMap al → IsMap (erase_alias a al)
unfolding erase_alias IsMap
erase-IsMap a [] m = tt
erase-IsMap a (x ∷ al) (new, low, m) = elim (Bool-cases (x.alias == a)) [
  | inl h ↦ rw (erase_alias, h) (erase-IsMap a al m)
  | inr h ↦
      rw (erase_alias, h) (find-erase x.alias a al (ground arith) ∙ new, low, erase-IsMap a al m)
]

none_found : (a : ℕ) (al : List Alias) → is_some (find_alias a al) ≡ false → find_alias a al ≡ none
none_found a al e = elim (Option-cases (find_alias a al)) [
  | inl n ↦ n
  | inr (r, n) ↦ let found : is_some (find_alias a al) ≡ true = ap is_some n in cc
]

aliases_of-le : (r : ℕ) (al : List Alias) → aliases_of r al ≤ length al
unfolding aliases_of
aliases_of-le r [] = omega arith
aliases_of-le r (a ∷ al) = let ih = aliases_of-le r al in ground arith

module _ {D : Type 0} where
  -- The refnum has no reference and no alias, or a reference more than aliases.
  abbrev pub Keeps : ℕ → Storage D → List Alias → Type 0
  Keeps r s al =
      ((ref_count r s ≡ 0) × (aliases_of r al ≡ 0)) ⊎ (ref_count r s ≡ suc (aliases_of r al))

  pub record Counted (m : Manager D) : Type 0 where
    pub counted : m.storage.is_ref_counted ≡ true
    pub is_map : IsMap m.aliases
    pub kept : (r : ℕ) → r < 2 ^ 32 → Keeps r m.storage m.aliases

  pub fits :
      (r : ℕ) (m : Manager D)
      → r < 2 ^ 32
      → length m.aliases < 4096
      → Counted m
      → ref_count r m.storage + 1 < 2 ^ 20
  fits r m low few c = elim (c.kept r low) [
    | inl (z, _) ↦ omega arith
    | inr e ↦ omega (arith, aliases_of-le r m.aliases)
  ]

  added-Keeps :
      (r t : ℕ) (m : Manager D) (s' : Storage D) (n : ℕ)
      → r < 2 ^ 32
      → length m.aliases < 4096
      → 1 ≤ ref_count r m.storage
      → ref_count t s' ≡ (if t == r then ref_count r m.storage + 1 else ref_count t m.storage)
      → Keeps r m.storage m.aliases
      → Keeps t m.storage m.aliases
      → Keeps t s' (record { alias = n; refnum = r } ∷ m.aliases)
  unfolding aliases_of
  added-Keeps r t m s' n low few more counts kr kt = elim (Bool-cases (t == r)) [
    | inl e ↦
        let same : t ≡ r = ground arith in
        elim kr [
          | inl (z, _) ↦ absurd (omega arith)
          | inr k ↦ inr (ground (arith, ap (λ i. aliases_of i m.aliases) same))
        ]
    | inr e ↦ elim kt [
      | inl (z, z') ↦ inl (ground arith, ground arith)
      | inr k ↦ inr (ground arith)
    ]
  ]

  -- NewRefnumAlias keeps the invariant.
  pub new_alias-Counted :
      (r : ℕ) (m : Manager D)
      → r < 2 ^ 32
      → length m.aliases < 4096
      → Counted m
      → Counted (new_refnum_alias r m).1
  unfolding new_refnum_alias IsMap
  new_alias-Counted r m low few c = elim (unacquired r m.storage) [
    | inl e ↦
        let same : new_refnum_alias r m ≡ (not_a_ref_num, m) = ap (λ u. add_alias u.0 u.1 r m) e in
        subst (λ u. Counted u.1) (sym same) c
    | inr (slot, count, e, some_left, made) ↦
        let s' = recount r count slot m.storage in
        let same : new_refnum_alias r m ≡ add_alias (some slot.ref_data) s' r m =
          ap (λ u. add_alias u.0 u.1 r m) made in
        let has : ref_count r m.storage ≡ index_from_ref_num slot.magic_num =
          rw (ref_count, e) refl in
        subst (λ u. Counted u.1) (sym same)
          (record {
            counted = c.counted;
            is_map = (none_found _ m.aliases (fresh_alias-new r m.aliases few), low, c.is_map);
            kept = λ t ht.
                added-Keeps r t m s' (fresh_alias (length m.aliases) r m.aliases) low few
                  (omega (arith, has))
                  (ap (λ u. ref_count t u.1) (sym made)
                    ∙ (acquire-counts r t m.storage low ht c.counted (omega (arith, has))
                        (fits r m low few c)).1)
                  (c.kept r low) (c.kept t ht);
          })
  ]
