-- ===== src/Examples/Arrays.antt =====
-- The theorems on the vector operations, at a concrete vector.
use vireo_sdk.Common.{ℕ, ◌+◌, ◌≡◌, refl, Bool, true, some, List, [], ◌∷◌, arith, length}
use vireo_sdk.Common.Int.{pos}
use vireo_sdk.Array1D.{insert_1d, remove_1d, replace_1d}
use vireo_sdk.Array1D.Laws.{remove_1d-insert_1d}

abbrev always : ℕ → Bool
always n = true

replace_truncates :
    replace_1d {A = ℕ} always 0 (pos 1) (pos 1) (9 ∷ []) true (5 ∷ 6 ∷ 7 ∷ []) ≡ (true, 5 ∷ 9 ∷ [])
unfolding replace_1d remove_1d insert_1d
replace_truncates = refl

remove_1d-insert_1d_example :
    (zs : List ℕ) × (insert_1d always 0 (pos 1) (pos 2) (some (8 ∷ 9 ∷ [])) (5 ∷ 6 ∷ [])
      ≡ (true, zs))
    × (length zs ≡ 2 + 2)
    × (remove_1d always 0 1 2 zs ≡ 5 ∷ 6 ∷ [])
remove_1d-insert_1d_example =
    remove_1d-insert_1d always 0 1 (8 ∷ 9 ∷ []) (5 ∷ 6 ∷ []) (omega arith) refl
