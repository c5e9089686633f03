-- ===== src/RefNum.antt =====
-- Reference numbers: RefNumStorageBase and TypedRefNum (source/core/RefNum.cpp,
-- source/include/RefNum.h). A refnum is a UInt32, the index of a slot in its low 20 bits and a magic
-- number in the 12 bits above; the magic word of a slot packs a reference count in the same way. The
-- map of slots is a function; a `nextFree` of -1 is `none`. A compare-and-swap loop is one step: the
-- model has one thread, whose swap succeeds. The data that memset clears are `blank`.
pub mod Bits
pub mod Invariant
pub mod Create
pub mod Room
pub mod Dispose
pub mod Slots
pub mod Data
pub mod Counting
pub mod Kept
pub mod Lifetime
pub mod Reach
use vireo_sdk.Common.{
  ℕ, suc, ◌+◌, ◌-◌, ◌*◌, ◌/◌, ◌%◌, ◌^◌, Bool, true, false, not, ◌&&◌, ◌||◌, Option, none, some,
  ◌==◌, if◌then◌else◌, update, ltb,
}

-- The macros at the head of RefNum.cpp, for kNumberOfIndexBits 20 and kNumberOfMagicBits 12.
abbrev pub index_from_ref_num : ℕ → ℕ
index_from_ref_num r = r % 2 ^ 20

abbrev pub magic_mask : ℕ → ℕ
magic_mask m = m % 2 ^ 12

abbrev pub magic_from_ref_num : ℕ → ℕ
magic_from_ref_num r = magic_mask (r / 2 ^ 20)

abbrev pub make_ref_num : ℕ → ℕ → ℕ
make_ref_num index magic = index % 2 ^ 20 + magic_mask magic * 2 ^ 20

abbrev pub not_a_ref_num : ℕ
not_a_ref_num = 0

-- CloneRefNum.
unfoldable pub clone_ref_num : ℕ → ℕ
clone_ref_num r = make_ref_num (index_from_ref_num r) (magic_from_ref_num r + 1)

pub record Slot (D : Type 0) : Type 0 where
  pub magic_num : ℕ
  pub next_free : Option ℕ
  pub ref_data : D

pub record Storage (D : Type 0) : Type 0 where
  pub next_magic_num : ℕ
  pub first_free : ℕ
  pub num_used : ℕ
  pub is_ref_counted : Bool
  pub slots : ℕ → Option (Slot D)

module _ {D : Type 0} where
  -- RefNumStorageBase::Init at the platform's tick count, on an empty map.
  unfoldable pub init : ℕ → Bool → Storage D
  init tick ref_counted =
      let magic = magic_mask tick in
      record {
        next_magic_num = if magic == 0 then 1 else magic;
        first_free = 0;
        num_used = 0;
        is_ref_counted = ref_counted;
        slots = λ _. none;
      }

  -- The test of ValidateRefNumIndex on the slot at the index.
  abbrev pub accepts : ℕ → Slot D → Bool
  accepts r slot =
      let magic = magic_from_ref_num r in
      elim slot.next_free [
        | some _ ↦ false
        | none ↦ not (magic == 0) && (magic_from_ref_num slot.magic_num == magic)
      ]

  abbrev pub accepted : ℕ → Option (Slot D) → Option (Slot D)
  accepted r none = none
  accepted r (some slot) = if accepts r slot then some slot else none

  unfoldable pub validate_ref_num_index : ℕ → Storage D → Option (Slot D)
  validate_ref_num_index r s = accepted r (s.slots (index_from_ref_num r))

  unfoldable pub is_a_ref_num : ℕ → Storage D → Bool
  unfolding validate_ref_num_index
  is_a_ref_num r s = elim (validate_ref_num_index r s) [ none ↦ false | some _ ↦ true ]

  -- CreateRefNumIndex moves the head of the free list off the index; `none` if the slot is in use.
  abbrev pub create_ref_num_index : ℕ → Storage D → Option (Storage D)
  create_ref_num_index index s = elim (s.slots index) [
    | none ↦ some (record s { first_free = s.first_free + 1 })
    | some slot ↦ elim slot.next_free [
      | none ↦ none
      | some next ↦ some (record s { first_free = next })
    ]
  ]

  -- The rest of NewRefNum, at the storage that CreateRefNumIndex leaves.
  abbrev pub fill_slot : D → ℕ → Storage D → ℕ × Storage D
  fill_slot d index s =
      let magic = magic_mask s.next_magic_num in
      let next = if magic_mask (s.next_magic_num + 1) == 0 then 1 else s.next_magic_num + 1 in
      let count = if s.is_ref_counted then 1 else 0 in
      let slot : Slot D = record {
        magic_num = make_ref_num count magic;
        next_free = none;
        ref_data = d;
      } in
      (
        make_ref_num index magic,
        record s {
          next_magic_num = next;
          num_used = s.num_used + 1;
          slots = update s.slots index (some slot);
        },
      )

  unfoldable pub new_ref_num : D → Storage D → ℕ × Storage D
  new_ref_num d s =
      let index = s.first_free in
      if not (index == index_from_ref_num index)
      then (not_a_ref_num, s)
      else elim (create_ref_num_index index s) [
        | none ↦ (not_a_ref_num, s)
        | some s' ↦ fill_slot d index s'
      ]

  -- The slot of a disposed refnum heads the free list.
  abbrev pub free_slot : D → ℕ → Storage D → Storage D
  free_slot blank r s = record s {
    first_free = index_from_ref_num r;
    num_used = s.num_used - 1;
    slots =
        update s.slots (index_from_ref_num r)
          (some (record { magic_num = 0; next_free = some s.first_free; ref_data = blank }));
  }

  -- `none` is kNIError_kResourceNotFound.
  unfoldable pub dispose_ref_num : D → ℕ → Storage D → Option D × Storage D
  dispose_ref_num blank r s = elim (validate_ref_num_index r s) [
    | none ↦ (none, s)
    | some slot ↦ (some slot.ref_data, free_slot blank r s)
  ]

  -- The reference count of a slot, where the storage keeps one, is positive.
  abbrev pub counts : Storage D → Slot D → Bool
  counts s slot = not s.is_ref_counted || not (index_from_ref_num slot.magic_num == 0)

  unfoldable pub get_ref_num_data : ℕ → Storage D → Option D
  get_ref_num_data r s = elim (validate_ref_num_index r s) [
    | none ↦ none
    | some slot ↦ if counts s slot then some slot.ref_data else none
  ]

  -- Whether the data were set.
  unfoldable pub set_ref_num_data : D → ℕ → Storage D → Bool × Storage D
  set_ref_num_data d r s = elim (validate_ref_num_index r s) [
    | none ↦ (false, s)
    | some slot ↦
        if counts s slot
        then (
          true,
          record s {
            slots = update s.slots (index_from_ref_num r) (some (record slot { ref_data = d }));
          },
        )
        else (false, s)
  ]

  -- The slot's reference count is set.
  abbrev pub recount : ℕ → ℕ → Slot D → Storage D → Storage D
  recount r count slot s = record s {
    slots =
        update s.slots (index_from_ref_num r)
          (some (record slot { magic_num = make_ref_num count (magic_from_ref_num r) }));
  }

  -- AcquireRefNumRights: the data, or `none` where the rights are not acquired. A caller that gives no
  -- place for the data holds a refnum that validates: at another the code writes through null.
  unfoldable pub acquire_ref_num_rights : ℕ → Storage D → Option D × Storage D
  acquire_ref_num_rights r s =
      if s.is_ref_counted
      then elim (validate_ref_num_index r s) [
        | none ↦ (none, s)
        | some slot ↦
            let count = index_from_ref_num slot.magic_num in
            if ltb 0 count && (magic_from_ref_num slot.magic_num == magic_from_ref_num r)
            then (some slot.ref_data, recount r (count + 1) slot s)
            else (none, s)
      ]
      else (none, s)

  -- ReleaseRefNumRights: the previous reference count. The last release disposes the refnum.
  unfoldable pub release_ref_num_rights : D → ℕ → Storage D → ℕ × Storage D
  unfolding dispose_ref_num
  release_ref_num_rights blank r s =
      if s.is_ref_counted
      then elim (validate_ref_num_index r s) [
        | none ↦ (0, s)
        | some slot ↦
            let count = index_from_ref_num slot.magic_num in
            let s' = recount r (count - 1) slot s in
            let disposed = dispose_ref_num blank r s' in
            if ltb 0 count && (magic_from_ref_num slot.magic_num == magic_from_ref_num r)
            then (count, if count == 1 then disposed.1 else s')
            else (0, s)
      ]
      else (0, s)
