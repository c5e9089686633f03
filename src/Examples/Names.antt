-- ===== src/Examples/Names.antt =====
-- The theorems on names and aliases of queue refnums, at concrete managers.
use vireo_sdk.Common.{
  ℕ, ◌*◌, ◌^◌, ◌<◌, ◌≡◌, refl, true, false, none, some, [], ◌∷◌, arith, ◌==◌, if◌then◌else◌, length,
}
use vireo_sdk.Common.Int.{pos}
use vireo_sdk.RefNum.{
  init, new_ref_num, get_ref_num_data, validate_ref_num_index, clone_ref_num,
  acquire_ref_num_rights,
}
use vireo_sdk.RefNum.Invariant.{Inv}
use vireo_sdk.QueueNames.{
  Manager, find_alias, is_some, fresh_alias, new_refnum_alias, dispose_alias, find_name,
  lookup_queue_ref,
}
use vireo_sdk.QueueNames.Fresh.{fresh_alias-new}
use vireo_sdk.QueueNames.Counted.{Counted, aliases_of}
use vireo_sdk.QueueNames.Dropping.{data-dispose_alias}
use vireo_sdk.QueueNames.Reach.{Reached, starts, makes, names, aliases, drops, Reached-Counted}
use vireo_sdk.QueueNames.Obtain.{obtain, no_error}
use vireo_sdk.QueueNames.Obtain.Existing.{obtain-existing}

abbrev real : ℕ
real = 7 * 2 ^ 20

abbrev no_queues : Manager ℕ
no_queues = record { storage = init 7 true; aliases = []; names = [] }

-- One queue with the data 55 and the name of the bytes 1 and 2.
abbrev one_queue : Manager ℕ
one_queue = record no_queues {
  storage = (new_ref_num 55 (init 7 true)).1;
  names = record { name = 1 ∷ 2 ∷ []; refnum = real } ∷ [];
}

abbrev two_aliases : Manager ℕ
two_aliases = (new_refnum_alias real (new_refnum_alias real one_queue).1).1

fits : no_queues.storage.first_free < 2 ^ 20
unfolding init
fits = omega arith

one_queue-Reached : Reached 0 one_queue
one_queue-Reached =
    names (record { name = 1 ∷ 2 ∷ []; refnum = real } ∷ []) (makes 55 fits (starts 7))

few : length (new_refnum_alias real one_queue).1.aliases < 4096
unfolding new_refnum_alias new_ref_num init acquire_ref_num_rights validate_ref_num_index
few = omega arith

two_aliases-Reached : Reached 0 two_aliases
two_aliases-Reached =
    aliases real (omega arith) few (aliases real (omega arith) (omega arith) one_queue-Reached)

fresh_alias-new_example :
    is_some (
      find_alias
        (fresh_alias 1 real (record { alias = 8 * 2 ^ 20; refnum = real } ∷ []))
        (record { alias = 8 * 2 ^ 20; refnum = real } ∷ []))
    ≡ false
fresh_alias-new_example =
    fresh_alias-new real (record { alias = 8 * 2 ^ 20; refnum = real } ∷ []) (omega arith)

Reached-Counted_example :
    Counted (dispose_alias 0 (8 * 2 ^ 20) two_aliases).1
    × Inv (dispose_alias 0 (8 * 2 ^ 20) two_aliases).1.storage
Reached-Counted_example = Reached-Counted 0 (drops (8 * 2 ^ 20) two_aliases-Reached)

alias_found : find_alias (8 * 2 ^ 20) two_aliases.aliases ≡ some real
unfolding find_alias new_refnum_alias new_ref_num init acquire_ref_num_rights validate_ref_num_index
    fresh_alias clone_ref_num
alias_found = refl

data-dispose_alias_example :
    get_ref_num_data real (dispose_alias 0 (8 * 2 ^ 20) two_aliases).1.storage ≡ (
      if aliases_of real two_aliases.aliases == 1
      then none
      else get_ref_num_data real two_aliases.storage)
data-dispose_alias_example =
    data-dispose_alias 0 (8 * 2 ^ 20) real two_aliases (Reached-Counted 0 two_aliases-Reached).0
      alias_found

named : find_name (1 ∷ 2 ∷ []) one_queue.names ≡ some real
unfolding find_name
named = refl

held : get_ref_num_data real one_queue.storage ≡ some 55
unfolding get_ref_num_data new_ref_num init validate_ref_num_index
held = refl

three_not_zero : pos 3 ≡ pos 0 → ⊥
three_not_zero e = ground arith

obtain-existing_example :
    let o = obtain (λ d. true) (λ n. 66) false (1 ∷ 2 ∷ []) (some (pos 3)) false one_queue in
    (lookup_queue_ref o.refnum o.manager ≡ some 55) × (o.error ≡ no_error) × (o.created ≡ none)
obtain-existing_example =
    obtain-existing (λ d. true) (λ n. 66) (1 ∷ 2 ∷ []) (some (pos 3)) false real 55 one_queue
      (Reached-Counted 0 one_queue-Reached).0 (omega arith) (omega arith) refl named held refl
      three_not_zero
