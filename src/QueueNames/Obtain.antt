-- ===== src/QueueNames/Obtain.antt =====
-- QueueRef_Obtain and QueueRef_Release (source/core/Synchronization.cpp). Whether a queue has the type of
-- the elements, the queue that InitData, SetMaxSize and Initialize make, and the elements of a queue
-- are parameters.
pub mod Existing
use vireo_sdk.Common.{
  ℕ, Bool, true, false, not, ◌&&◌, ◌||◌, Option, none, some, List, [], ◌∷◌, ◌++◌, ◌==◌,
  if◌then◌else◌,
}
use vireo_sdk.Common.Int.{ℤ, pos, negsuc, eqb_ℤ}
use vireo_sdk.RefNum.{Storage, not_a_ref_num, new_ref_num, dispose_ref_num, get_ref_num_data}
use vireo_sdk.QueueNames.{
  Manager, find_name, put_name, is_some, new_refnum_alias, lookup_queue_ref, dispose_alias,
  dispose_unless,
}

pub data ObtainError : Type 0 where
  no_error : ObtainError
  queue_arg_err : ObtainError
  queue_no_such_name : ObtainError
  queue_zero_size : ObtainError
  queue_mem_full : ObtainError
  queue_name_type_mismatch : ObtainError

abbrev pub failed : ObtainError → Bool
failed no_error = false
failed queue_arg_err = true
failed queue_no_such_name = true
failed queue_zero_size = true
failed queue_mem_full = true
failed queue_name_type_mismatch = true

-- The maximum size, -1 where there is none or it is negative.
abbrev pub max_size_of : Option ℤ → ℤ
max_size_of none = negsuc 0
max_size_of (some (pos n)) = pos n
max_size_of (some (negsuc n)) = negsuc 0

abbrev pub is_named : List ℕ → Bool
is_named [] = false
is_named (b ∷ bs) = true

-- What the instruction leaves: the refnum, the created flag where that is set, the error, the refnums
-- for which it adds a clean-up procedure, and the manager.
pub record Obtained (D : Type 0) : Type 0 where
  pub refnum : ℕ
  pub created : Option Bool
  pub error : ObtainError
  pub clean_ups : List ℕ
  pub manager : Manager D

abbrev pub error_of : List ℕ → ℤ → Bool → Option ℕ × ObtainError → ObtainError
error_of name max_size create found =
    if not (failed found.1) && is_named name && not (is_some found.0) && not create
    then queue_no_such_name
    else if eqb_ℤ max_size (pos 0)
    then queue_zero_size
    else found.1

-- What QueueRef_Release leaves: the name where that is set, the elements, the error and the manager.
pub record Released (D : Type 0) (A : Type 0) : Type 0 where
  pub name : Option (List ℕ)
  pub elements : List A
  pub error : ObtainError
  pub manager : Manager D

module _ {D : Type 0} where
  -- The queue that has the name, if there is one, and an error where its elements have another type.
  abbrev pub typed : (D → Bool) → ℕ → Option D → Option ℕ × ObtainError
  typed same_type r none = (none, no_error)
  typed same_type r (some d) =
      if same_type d then (some r, no_error) else (none, queue_name_type_mismatch)

  abbrev pub named_queue : (D → Bool) → Option ℕ → Manager D → Option ℕ × ObtainError
  named_queue same_type none m = (none, no_error)
  named_queue same_type (some r) m = typed same_type r (get_ref_num_data r m.storage)

  abbrev pub existing : (D → Bool) → List ℕ → Manager D → Option ℕ × ObtainError
  existing same_type name m =
      if is_named name then named_queue same_type (find_name name m.names) m else (none, no_error)

  abbrev pub obtain_failed : ObtainError → List ℕ → Manager D → Obtained D
  obtain_failed error clean_ups m = record {
    refnum = not_a_ref_num;
    created = some false;
    error = error;
    clean_ups = clean_ups;
    manager = m;
  }

  abbrev pub obtain_alias : Option Bool → ℕ × Manager D → Obtained D
  obtain_alias created u = record {
    refnum = u.0;
    created = created;
    error = no_error;
    clean_ups = u.0 ∷ [];
    manager = u.1;
  }

  abbrev pub obtain_new : D → List ℕ → Manager D → Obtained D
  obtain_new d name m =
      let u = new_ref_num d m.storage in
      let stored = record m { storage = u.1 } in
      if u.0 == 0
      then obtain_failed queue_mem_full (not_a_ref_num ∷ []) stored
      else if is_named name
      then obtain_alias (some true)
          (new_refnum_alias u.0 (record stored { names = put_name name u.0 m.names }))
      else obtain_alias (some true) (u.0, stored)

  abbrev pub obtain_ref : (ℤ → D) → List ℕ → ℤ → Option ℕ → Manager D → Obtained D
  obtain_ref make name max_size none m = obtain_new (make max_size) name m
  obtain_ref make name max_size (some r) m = obtain_alias none (new_refnum_alias r m)

  -- QueueRef_Obtain; an empty name is no name.
  unfoldable pub obtain :
      (D → Bool) → (ℤ → D) → Bool → List ℕ → Option ℤ → Bool → Manager D → Obtained D
  unfolding find_name get_ref_num_data new_ref_num put_name new_refnum_alias
  obtain same_type make input_error name max create m =
      let max_size = max_size_of max in
      let found = existing same_type name m in
      let error = error_of name max_size create found in
      if input_error
      then obtain_failed no_error [] m
      else if failed error
      then obtain_failed error [] m
      else obtain_ref make name max_size found.0 m

  abbrev pub release_valid :
      {A : Type 0} → (D → List A) → D → ℕ → Manager D → Option D → Released D A
  release_valid elements blank r m none = record {
    name = none;
    elements = [];
    error = queue_arg_err;
    manager = m;
  }
  release_valid elements blank r m (some d) =
      let u = dispose_alias blank r m in
      let disposed = dispose_ref_num blank r u.1.storage in
      record {
        name = u.0;
        elements = elements d;
        error = elim u.0 [
          | some n ↦ no_error
          | none ↦ elim disposed.0 [ none ↦ queue_arg_err | some d' ↦ no_error ]
        ];
        manager = dispose_unless u.0 blank r u.1;
      }

  unfoldable pub release : {A : Type 0} → (D → List A) → D → Bool → ℕ → Manager D → Released D A
  unfolding lookup_queue_ref dispose_alias dispose_ref_num
  release elements blank input_error r m =
      if input_error
      then record { name = none; elements = []; error = no_error; manager = m }
      else release_valid elements blank r m (lookup_queue_ref r m)
