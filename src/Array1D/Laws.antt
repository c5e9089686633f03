-- ===== src/Array1D/Laws.antt =====
-- What the vector operations do to the elements.
use vireo_sdk.Common.{
  ℕ, ◌+◌, ◌-◌, ◌≤◌, ◌≡◌, refl, Bool, true, false, none, some, List, [], ◌∷◌, ◌++◌, length, take,
  drop, arith, length-append, length-take, length-drop, take-append-drop, drop-append_add,
  take-length, ap, Bool-cases, inl, inr, ◌∙◌,
}
use vireo_sdk.Common.Cuts.{drop-append_self, take-append_self}
use vireo_sdk.Common.Int.{pos, leb_ℤ}
use vireo_sdk.Array1D.{insert_1d, remove_1d}

module _ {ℓ} {A : Type ℓ} (fits : ℕ → Bool) (blank : A) where
  -- Room for one element at `p`.
  pub insert_1d-one :
      (p : ℕ) (xs : List A)
      → fits (length xs + 1) ≡ true
      → insert_1d fits blank (pos p) (pos 1) none xs ≡ (true, take p xs ++ blank ∷ drop p xs)
  unfolding insert_1d
  insert_1d-one p xs h = rw h

  pub insert_1d-fails :
      (p : ℕ) (xs : List A)
      → fits (length xs + 1) ≡ false
      → insert_1d fits blank (pos p) (pos 1) none xs ≡ (false, xs ++ blank ∷ [])
  unfolding insert_1d
  insert_1d-fails p xs h = rw h

  -- Where the memory manager grants the room, Insert1D of given elements at a position from 0
  -- to the length of the vector succeeds, makes it longer by their number, and Remove1D of as
  -- many elements at the same position gives the vector back.
  pub remove_1d-insert_1d :
      (p : ℕ) (ys xs : List A)
      → p ≤ length xs
      → fits (length xs + length ys) ≡ true
      → (zs : List A) × (insert_1d fits blank (pos p) (pos (length ys)) (some ys) xs ≡ (true, zs))
        × (length zs ≡ length xs + length ys)
        × (remove_1d fits blank p (length ys) zs ≡ xs)
  unfolding insert_1d remove_1d
  remove_1d-insert_1d p ys xs h room = elim (Bool-cases (leb_ℤ (pos (length ys)) (pos 0))) [
    | inl e ↦
        let empty : length ys ≡ 0 = ground arith in
        let back : take p xs ++ drop (p + length ys) xs ≡ xs =
          ap (λ k. take p xs ++ drop k xs) (omega (arith, empty)) ∙ take-append-drop p xs in
        (xs, rw e refl, omega (arith, empty), back)
    | inr e ↦
        let zs = take p xs ++ (ys ++ drop p xs) in
        let all : take (length ys) ys ≡ ys = take-length (length ys) ys (omega arith) in
        let head : length (take p xs) ≡ p = omega (arith, length-take p xs) in
        (
          zs,
          rw (e, room, all) refl,
          omega (
            arith,
            length-append (take p xs) (ys ++ drop p xs),
            length-append ys (drop p xs),
            length-drop p xs,
            head,
          ),
          ap (λ l. l ++ drop (p + length ys) zs)
                (take-append_self (take p xs) (ys ++ drop p xs) p head)
              ∙ ap (λ l. take p xs ++ l)
                  (drop-append_add (p + length ys) (take p xs) (ys ++ drop p xs)
                      (omega (arith, head))
                    ∙ drop-append_self ys (drop p xs) (p + length ys - length (take p xs))
                        (omega (arith, head)))
              ∙ take-append-drop p xs,
        )
  ]
