-- ===== src/Events/Dynamic/Found.antt =====
-- What DynamicEventMatch finds.
use vireo_sdk.Common.{
  ℕ, ◌+◌, ◌≤◌, ◌<◌, ◌≡◌, ◌≢◌, Bool, true, false, not, ◌&&◌, ◌||◌, List, [], ◌∷◌, ◌==◌,
  if◌then◌else◌, arith, refl, ap, Bool-cases, ◌⊎◌, inl, inr, length,
}
use vireo_sdk.Events.Dynamic.{
  RefData, refnum, refnums, cluster, other, RefElements, last, element, RegEntry, any_ref,
  match_core, match_elements, is_entry_for, match_entries, dynamic_event_match,
}

-- Whether data hold a refnum, at any depth.
unfoldable mutual
  unfolding any_ref

  pub holds : ℕ → RefData → Bool
  holds ref (refnum r) = r == ref
  holds ref (refnums rs) = any_ref ref rs
  holds ref (cluster ds) = holds_in ref ds
  holds ref other = false

  pub holds_in : ℕ → RefElements → Bool
  holds_in ref last = false
  holds_in ref (element d ds) = holds ref d || holds_in ref ds

-- Whether an entry for the source and type of an event holds its reference.
unfoldable pub any_entry : List RegEntry → ℕ → ℕ → ℕ → Bool
unfolding holds
any_entry [] src ty ref = false
any_entry (i ∷ is) src ty ref =
    (is_entry_for src ty i && holds ref i.refs) || any_entry is src ty ref

-- A match at or after `base` where there is one; else 0, and the index has not gone back.
abbrev Finds : Bool → ℕ → ℕ × ℕ → Type 0
Finds b base r = ((b ≡ true) × (base ≤ r.0)) ⊎ ((b ≡ false) × (r.0 ≡ 0) × (base ≤ r.1))

Finds-more :
    (b : Bool) (base base' : ℕ) (r : ℕ × ℕ) → base ≤ base' → Finds b base' r → Finds b base r
Finds-more b base base' r h (inl (e, l)) = inl (e, omega arith)
Finds-more b base base' r h (inr (e, z, l)) = inr (e, z, omega arith)

-- The first of two searches decides, where it finds something.
Finds-or :
    (b b' : Bool) (base : ℕ) (r s : ℕ × ℕ)
    → 0 < base
    → Finds b base r
    → ((base ≤ r.1) → Finds b' base s)
    → Finds (b || b') base (if r.0 == 0 then s else r)
Finds-or b b' base r s h (inl (e, l)) g =
    let nz : (r.0 == 0) ≡ false = ground arith in rw nz (inl (ground arith, l))
Finds-or b b' base r s h (inr (e, z, l)) g =
    let z' : (r.0 == 0) ≡ true = ground arith in
    let e' : b || b' ≡ b' = ground arith in rw (z', e') (g l)

mutual
  unfolding match_core holds

  core-Finds :
      (d : RefData) (ref base : ℕ) → 0 < base → Finds (holds ref d) base (match_core d ref base)
  core-Finds (refnum r) ref base h = elim (Bool-cases (r == ref)) [
    | inl e ↦ rw e (inl (refl, omega arith))
    | inr e ↦ rw e (inr (refl, refl, omega arith))
  ]
  core-Finds (refnums rs) ref base h = elim (Bool-cases (any_ref ref rs)) [
    | inl e ↦ rw e (inl (refl, omega arith))
    | inr e ↦ rw e (inr (refl, refl, omega arith))
  ]
  core-Finds (cluster ds) ref base h =
      Finds-more (holds_in ref ds) base (base + 1) (match_elements ds ref (base + 1)) (omega arith)
        (elements-Finds ds ref (base + 1) (omega arith))
  core-Finds other ref base h = inr (refl, refl, omega arith)

  elements-Finds :
      (ds : RefElements) (ref base : ℕ)
      → 0 < base
      → Finds (holds_in ref ds) base (match_elements ds ref base)
  elements-Finds last ref base h = inr (refl, refl, omega arith)
  elements-Finds (element d ds) ref base h =
      let r = match_core d ref base in
      let s = match_elements ds ref (r.1 + 1) in
      Finds-or (holds ref d) (holds_in ref ds) base r s h (core-Finds d ref base h) λ l.
        Finds-more (holds_in ref ds) base (r.1 + 1) s (omega (arith, l))
          (elements-Finds ds ref (r.1 + 1) (omega arith))

-- What `match_entries` gives, from `base` on.
abbrev Matches : Bool → ℕ → ℕ → Type 0
Matches b base n = ((b ≡ true) × (base ≤ n)) ⊎ ((b ≡ false) × (n ≡ 0))

Matches-more : (b : Bool) (base base' n : ℕ) → base ≤ base' → Matches b base' n → Matches b base n
Matches-more b base base' n h (inl (e, l)) = inl (e, omega arith)
Matches-more b base base' n h (inr p) = inr p

Matches-or :
    (b b' : Bool) (base n : ℕ) (r : ℕ × ℕ)
    → 0 < base
    → Finds b base r
    → ((base ≤ r.1) → Matches b' base n)
    → Matches (b || b') base (if r.0 == 0 then n else r.0)
Matches-or b b' base n r h (inl (e, l)) g =
    let nz : (r.0 == 0) ≡ false = ground arith in rw nz (inl (ground arith, l))
Matches-or b b' base n r h (inr (e, z, l)) g =
    let z' : (r.0 == 0) ≡ true = ground arith in
    let e' : b || b' ≡ b' = ground arith in rw (z', e') (g l)

entries-Matches :
    (is : List RegEntry) (src ty ref base : ℕ)
    → 0 < base
    → Matches (any_entry is src ty ref) base (match_entries is src ty ref base)
unfolding match_entries any_entry
entries-Matches [] src ty ref base h = inr (refl, refl)
entries-Matches (i ∷ is) src ty ref base h =
    let r = match_core i.refs ref base in
    elim (Bool-cases (is_entry_for src ty i)) [
      | inl e ↦ rw e (
          Matches-or (holds ref i.refs) (any_entry is src ty ref) base _ r h
            (core-Finds i.refs ref base h)
            λ l.
              Matches-more (any_entry is src ty ref) base (r.1 + 1) _ (omega (arith, l))
                (entries-Matches is src ty ref (r.1 + 1) (omega arith)))
      | inr e ↦ rw e (
          Matches-more (any_entry is src ty ref) base (base + 1) _ (omega arith)
            (entries-Matches is src ty ref (base + 1) (omega arith)))
    ]

-- DynamicEventMatch returns 0 exactly if no entry for the source and type of the event holds
-- its reference, as a refnum, in an array of refnums or at any depth of a cluster.
pub match-any_entry :
    (is : List RegEntry) (src ty ref : ℕ)
    → (dynamic_event_match is src ty ref == 0) ≡ not (any_entry is src ty ref)
match-any_entry is src ty ref = elim (entries-Matches is src ty ref 1 (omega arith)) [
  | inl (e, l) ↦ rw e (ground arith)
  | inr (e, z) ↦ rw (e, z) refl
]

-- The elements of a cluster of refnums.
abbrev pub refnums_of : List ℕ → RefElements
refnums_of [] = last
refnums_of (r ∷ rs) = element (refnum r) (refnums_of rs)

unmatched :
    (rs : List ℕ) (ref base : ℕ)
    → any_ref ref rs ≡ false
    → match_elements (refnums_of rs) ref base ≡ (0, base + length rs)
unfolding match_core any_ref
unmatched [] ref base h = ap (λ n. (0, n)) (omega arith)
unmatched (r ∷ rs) ref base h =
    let differs : (r == ref) ≡ false = ground arith in
    let rest : any_ref ref rs ≡ false = ground arith in
    rw (differs, unmatched rs ref (base + 1) rest) (ap (λ n. (0, n)) (omega arith))

-- The entries of a cluster of refnums and of a refnum.
abbrev pub cluster_entry : ℕ → ℕ → List ℕ → RegEntry
cluster_entry src ty rs = record {
  event_source = src;
  event_type = ty;
  refs = cluster (refnums_of rs);
}

abbrev pub refnum_entry : ℕ → ℕ → ℕ → RegEntry
refnum_entry src ty r = record { event_source = src; event_type = ty; refs = refnum r }

-- Behind an entry that is a cluster of n refnums other than the event's, DynamicEventMatch
-- gives a refnum of the event the index n + 3 if the cluster is registered for the same type
-- of event, and the index 2 if it is registered for another type.
pub match-after_cluster :
    (rs : List ℕ) (src ty ty' ref : ℕ)
    → any_ref ref rs ≡ false
    → ty' ≢ ty
    → (dynamic_event_match (cluster_entry src ty rs ∷ refnum_entry src ty ref ∷ []) src ty ref
        ≡ length rs + 3)
      × (dynamic_event_match (cluster_entry src ty' rs ∷ refnum_entry src ty ref ∷ []) src ty ref
          ≡ 2)
unfolding match_entries match_core
match-after_cluster rs src ty ty' ref h differs =
    let same : (src == src) ≡ true = ground arith in
    let same' : (ty == ty) ≡ true = ground arith in
    let same_ref : (ref == ref) ≡ true = ground arith in
    let other_type : (ty' == ty) ≡ false = ground arith in
    let nz : (2 + length rs + 1 == 0) ≡ false = ground arith in
    rw (unmatched rs ref 2 h, same, same', same_ref, other_type, nz) (omega arith, refl)
