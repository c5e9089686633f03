-- ===== src/RefNum/Bits.antt =====
-- The two fields of a refnum determine it.
use vireo_sdk.Common.{ℕ, ◌+◌, ◌^◌, ◌%◌, ◌<◌, ◌≡◌, ◌≢◌, arith}
use vireo_sdk.RefNum.{
  index_from_ref_num, magic_from_ref_num, make_ref_num, magic_mask, clone_ref_num,
}

-- The macros take apart what MakeRefNum puts together, up to the widths of the fields.
pub make_ref_num_fields :
    (i m : ℕ)
    → (index_from_ref_num (make_ref_num i m) ≡ i % 2 ^ 20)
      × (magic_from_ref_num (make_ref_num i m) ≡ magic_mask m)
      × (make_ref_num i m < 2 ^ 32)
make_ref_num_fields i m = omega arith

pub ref_num-eq :
    (r t : ℕ)
    → r < 2 ^ 32
    → t < 2 ^ 32
    → index_from_ref_num r ≡ index_from_ref_num t
    → magic_from_ref_num r ≡ magic_from_ref_num t
    → r ≡ t
ref_num-eq r t hr ht i m = omega arith

-- A clone has the index of its refnum and another magic number, the next one in the 12 bits.
pub clone_ref_num_lem :
    (r : ℕ)
    → (index_from_ref_num (clone_ref_num r) ≡ index_from_ref_num r)
      × (magic_from_ref_num (clone_ref_num r) ≡ magic_mask (magic_from_ref_num r + 1))
      × (magic_from_ref_num (clone_ref_num r) ≢ magic_from_ref_num r)
unfolding clone_ref_num
clone_ref_num_lem r = omega arith
