-- ===== src/Examples/RefNums.antt =====
-- The theorems on refnums, at concrete storages.
use vireo_sdk.Common.{ℕ, ◌*◌, ◌^◌, ◌≡◌, refl, true, none, some, arith, ◌==◌, if◌then◌else◌}
use vireo_sdk.RefNum.{Slot, Storage, init, new_ref_num, dispose_ref_num, validate_ref_num_index}
use vireo_sdk.RefNum.Reach.{Reached, start, step, run, create, release, Reached-Inv}
use vireo_sdk.RefNum.Invariant.{Inv}
use vireo_sdk.RefNum.Create.{validate-new, new_slot}
use vireo_sdk.RefNum.Room.{init-Inv, new-Inv}
use vireo_sdk.RefNum.Dispose.{validate-dispose}
use vireo_sdk.RefNum.Counting.{ref_count}
use vireo_sdk.RefNum.Lifetime.{release_times, release_times-disposes}

abbrev no_refs : Storage ℕ
no_refs = init 7 true

-- One refnum, of index 0 and magic number 7, with the data 55.
abbrev one_ref : Storage ℕ
one_ref = (new_ref_num 55 no_refs).1

abbrev the_ref : ℕ
the_ref = 7 * 2 ^ 20

abbrev the_slot : Slot ℕ
the_slot = new_slot 55 no_refs

the_ref_is : (new_ref_num 55 no_refs).0 ≡ the_ref
unfolding new_ref_num init
the_ref_is = refl

one_ref-Inv : Inv one_ref
one_ref-Inv = new-Inv 55 no_refs (init-Inv 7 true)

the_ref_validates : validate_ref_num_index the_ref one_ref ≡ some the_slot
unfolding validate_ref_num_index new_ref_num init
the_ref_validates = refl

counted_once : ref_count the_ref one_ref ≡ 1
unfolding validate_ref_num_index new_ref_num init
counted_once = refl

counted : one_ref.is_ref_counted ≡ true
unfolding new_ref_num init
counted = refl

starts_low : no_refs.first_free ≡ 0
unfolding init
starts_low = refl

validate-new_example :
    let r = new_ref_num 66 no_refs in
    validate_ref_num_index 5 r.1
    ≡ (if 5 == r.0 then some (new_slot 66 no_refs) else validate_ref_num_index 5 no_refs)
validate-new_example =
    validate-new 66 no_refs 5 (init-Inv 7 true) (omega (arith, starts_low)) (omega arith)

validate-dispose_example :
    let u = dispose_ref_num 0 the_ref one_ref in
    (u.0 ≡ some 55)
    × (validate_ref_num_index the_ref u.1
        ≡ (if the_ref == the_ref then none else validate_ref_num_index the_ref one_ref))
validate-dispose_example =
    validate-dispose 0 the_ref the_ref one_ref the_slot (omega arith) (omega arith)
      the_ref_validates

release_times-disposes_example :
    validate_ref_num_index the_ref (release_times 0 the_ref 1 one_ref) ≡ none
release_times-disposes_example =
    release_times-disposes 0 the_ref 0 one_ref (omega arith) counted counted_once

after_release : Reached 0 (run 0 (release the_ref) (run 0 (create 55) no_refs))
after_release = step (release the_ref) (step (create 55) (start 7 true))

Reached-Inv_example : Inv (run 0 (release the_ref) (run 0 (create 55) no_refs))
Reached-Inv_example =
    Reached-Inv 0 (run 0 (release the_ref) (run 0 (create 55) no_refs)) after_release
