-- ===== src/Events/Dynamic.antt =====
-- DynamicEventRegInfo (source/core/Events.cpp): the events that an event registration refnum holds, and
-- the index that an event has among them. A registration of a cluster or an array of refnums holds a
-- copy of them; the type that the source reads beside the copy is the shape of the copy.
pub mod Found
use vireo_sdk.Common.{
  ℕ, zero, suc, ◌+◌, Bool, true, false, ◌&&◌, List, [], ◌∷◌, ◌==◌, if◌then◌else◌,
}
use vireo_sdk.Events.{EventData}

-- Refnums in a registration; `other` is data that hold no refnum.
mutual
  pub data RefData : Type 0 where
    refnum : ℕ → RefData
    refnums : List ℕ → RefData
    cluster : RefElements → RefData
    other : RefData

  pub data RefElements : Type 0 where
    last : RefElements
    element : RefData → RefElements → RefElements

-- DynamicEventRegEntry.
pub record RegEntry : Type 0 where
  pub event_source : ℕ
  pub event_type : ℕ
  pub refs : RefData

-- DynamicEventRegInfo: the queue of a registration, and its entries.
pub record Registration : Type 0 where
  pub queue_id : ℕ
  pub entries : List RegEntry

unfoldable pub any_ref : ℕ → List ℕ → Bool
any_ref ref [] = false
any_ref ref (r ∷ rs) = let rest = any_ref ref rs in if r == ref then true else rest

-- DynamicEventMatchCore: the index of the match, 0 if there is none, and the index it has counted to.
unfoldable mutual
  unfolding any_ref

  pub match_core : RefData → ℕ → ℕ → ℕ × ℕ
  match_core (refnum r) ref base = if r == ref then (base, base) else (0, base)
  match_core (refnums rs) ref base = if any_ref ref rs then (base, base) else (0, base)
  match_core (cluster ds) ref base = match_elements ds ref (base + 1)
  match_core other ref base = (0, base)

  pub match_elements : RefElements → ℕ → ℕ → ℕ × ℕ
  match_elements last ref base = (0, base)
  match_elements (element d ds) ref base =
      let r = match_core d ref base in
      let rest = match_elements ds ref (r.1 + 1) in if r.0 == 0 then rest else r

abbrev pub is_entry_for : ℕ → ℕ → RegEntry → Bool
is_entry_for src ty i = (i.event_source == src) && (i.event_type == ty)

-- DynamicEventMatch, from the index `base` on. An entry that is a refnum is compared as
-- DynamicEventMatchCore compares one.
unfoldable pub match_entries : List RegEntry → ℕ → ℕ → ℕ → ℕ → ℕ
unfolding match_core
match_entries [] src ty ref base = 0
match_entries (i ∷ is) src ty ref base =
    let r = match_core i.refs ref base in
    let passed = match_entries is src ty ref (base + 1) in
    let rest = match_entries is src ty ref (r.1 + 1) in
    if is_entry_for src ty i then (if r.0 == 0 then rest else r.0) else passed

abbrev pub dynamic_event_match : List RegEntry → ℕ → ℕ → ℕ → ℕ
dynamic_event_match is src ty ref = match_entries is src ty ref 1
