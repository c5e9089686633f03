-- ===== src/QueueNames.antt =====
-- The names and the aliases of queue refnums: QueueRefNumManager, QueueRef_Obtain and QueueRef_Release
-- (source/core/Synchronization.cpp). The maps are association lists. The data of a refnum are of a type
-- `D`; a name is the list of its bytes. The output parameters for the refnum, the created flag, the name
-- and the elements are connected, and the type's InitData succeeds.
pub mod Fresh
pub mod Counted
pub mod Dropping
pub mod Made
pub mod Reach
pub mod Obtain
use vireo_sdk.Common.{
  ℕ, zero, suc, ◌+◌, ◌≤◌, Bool, true, false, not, ◌&&◌, ◌||◌, Option, none, some, List, [], ◌∷◌,
  ◌++◌, ◌==◌, if◌then◌else◌, leb, length,
}
use vireo_sdk.Common.Int.{ℤ, pos, negsuc}
use vireo_sdk.RefNum.{
  Storage, not_a_ref_num, clone_ref_num, new_ref_num, dispose_ref_num, get_ref_num_data,
  acquire_ref_num_rights, release_ref_num_rights,
}

-- An entry of `_refAliasMap`, and one of `_namedRefMap`.
pub record Alias : Type 0 where
  pub alias : ℕ
  pub refnum : ℕ

pub record Named : Type 0 where
  pub name : List ℕ
  pub refnum : ℕ

unfoldable pub same_name : List ℕ → List ℕ → Bool
same_name [] [] = true
same_name [] (b ∷ bs) = false
same_name (a ∷ al) [] = false
same_name (a ∷ al) (b ∷ bs) = let rest = same_name al bs in (a == b) && rest

unfoldable pub find_alias : ℕ → List Alias → Option ℕ
find_alias r [] = none
find_alias r (a ∷ al) = let rest = find_alias r al in if a.alias == r then some a.refnum else rest

unfoldable pub erase_alias : ℕ → List Alias → List Alias
erase_alias r [] = []
erase_alias r (a ∷ al) = let rest = erase_alias r al in if a.alias == r then rest else a ∷ rest

abbrev pub is_some : Option ℕ → Bool
is_some none = false
is_some (some r) = true

unfoldable pub find_name : List ℕ → List Named → Option ℕ
unfolding same_name
find_name n [] = none
find_name n (e ∷ es) =
    let rest = find_name n es in if same_name e.name n then some e.refnum else rest

-- `_namedRefMap[name] = refnum`.
unfoldable pub put_name : List ℕ → ℕ → List Named → List Named
unfolding same_name
put_name n r [] = record { name = n; refnum = r } ∷ []
put_name n r (e ∷ es) =
    let rest = put_name n r es in
    if same_name e.name n then record e { refnum = r } ∷ es else e ∷ rest

-- The first entry with a refnum, and the map without it.
unfoldable pub name_of : ℕ → List Named → Option (List ℕ)
name_of r [] = none
name_of r (e ∷ es) = let rest = name_of r es in if e.refnum == r then some e.name else rest

unfoldable pub erase_name : ℕ → List Named → List Named
erase_name r [] = []
erase_name r (e ∷ es) = let rest = erase_name r es in if e.refnum == r then es else e ∷ rest

-- The loop of NewRefnumAlias, which makes clones until one is not an alias yet, and its first round.
unfoldable pub fresh_alias : ℕ → ℕ → List Alias → ℕ
unfolding clone_ref_num find_alias
fresh_alias zero r al = clone_ref_num r
fresh_alias (suc fuel) r al =
    let n = clone_ref_num r in
    let rest = fresh_alias fuel n al in if is_some (find_alias n al) then rest else n

-- QueueRefNumManager.
pub record Manager (D : Type 0) : Type 0 where
  pub storage : Storage D
  pub aliases : List Alias
  pub names : List Named

abbrev pub real_ref : Option ℕ → ℕ → ℕ
real_ref none r = r
real_ref (some real) r = real

module _ {D : Type 0} where
  abbrev pub add_alias : Option D → Storage D → ℕ → Manager D → ℕ × Manager D
  add_alias none s r m = (not_a_ref_num, m)
  add_alias (some d) s r m =
      let n = fresh_alias (length m.aliases) r m.aliases in
      (n, record m { storage = s; aliases = record { alias = n; refnum = r } ∷ m.aliases })

  unfoldable pub new_refnum_alias : ℕ → Manager D → ℕ × Manager D
  unfolding acquire_ref_num_rights fresh_alias
  new_refnum_alias r m = let u = acquire_ref_num_rights r m.storage in add_alias u.0 u.1 r m

  unfoldable pub lookup_alias : ℕ → Manager D → ℕ
  unfolding find_alias
  lookup_alias r m = real_ref (find_alias r m.aliases) r

  unfoldable pub lookup_queue_ref : ℕ → Manager D → Option D
  unfolding get_ref_num_data lookup_alias
  lookup_queue_ref r m = get_ref_num_data (lookup_alias r m) m.storage

  -- GetQueueRefName: the name, empty where there is none; with `deleting` the queue loses it.
  unfoldable pub get_queue_ref_name : ℕ → Bool → Manager D → List ℕ × Manager D
  unfolding lookup_alias name_of erase_name
  get_queue_ref_name r deleting m =
      let real = lookup_alias r m in
      (
        if r == 0 then [] else elim (name_of real m.names) [ none ↦ [] | some n ↦ n ],
        if not (r == 0) && deleting then record m { names = erase_name real m.names } else m,
      )

  -- The alias is one of `real`: whether it was an alias, its name, and what is left.
  abbrev pub drop_alias : D → ℕ → ℕ → Manager D → List ℕ × Manager D
  drop_alias blank r real m =
      let u = release_ref_num_rights blank real m.storage in
      let released = record m { storage = u.1 } in
      let last = get_queue_ref_name r true released in
      let more = get_queue_ref_name r false released in
      let m' =
        if leb u.0 2
        then record last.1 { storage = (dispose_ref_num blank real last.1.storage).1 }
        else more.1 in
      (if leb u.0 2 then last.0 else more.0, record m' { aliases = erase_alias r m'.aliases })

  abbrev pub dispose_found : D → ℕ → Option ℕ → Manager D → Option (List ℕ) × Manager D
  dispose_found blank r none m = (none, m)
  dispose_found blank r (some real) m = let u = drop_alias blank r real m in (some u.0, u.1)

  -- DisposeAlias: the name, or `none` where the refnum is no alias.
  unfoldable pub dispose_alias : D → ℕ → Manager D → Option (List ℕ) × Manager D
  unfolding release_ref_num_rights dispose_ref_num get_queue_ref_name erase_alias find_alias
  dispose_alias blank r m = dispose_found blank r (find_alias r m.aliases) m

  -- CleanUpQueueRefNum, and the end of QueueRef_Release.
  abbrev pub dispose_unless : Option (List ℕ) → D → ℕ → Manager D → Manager D
  dispose_unless (some n) blank r m = m
  dispose_unless none blank r m = record m { storage = (dispose_ref_num blank r m.storage).1 }

  unfoldable pub clean_up_queue_ref_num : D → ℕ → Manager D → Manager D
  unfolding dispose_alias dispose_ref_num
  clean_up_queue_ref_num blank r m =
      let u = dispose_alias blank r m in dispose_unless u.0 blank r u.1
