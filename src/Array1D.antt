-- ===== src/Array1D.antt =====
-- One-dimensional operations of TypedArrayCore (source/core/TypeAndDataManager.cpp): Insert1D,
-- Remove1D and Replace1D on the elements of a vector. The memory manager is a parameter: `fits n`
-- is its answer when the array is resized to n elements.
pub mod Laws
use vireo_sdk.Common.{
  ℕ, ◌+◌, ◌-◌, Bool, true, false, ◌&&◌, Option, none, some, List, [], ◌∷◌, ◌++◌, length, take, drop,
  replicate, ltb, ◌==◌, if◌then◌else◌,
}
use vireo_sdk.Common.Int.{ℤ, pos, negsuc, pos_part, leb_ℤ, ltb_ℤ}

-- `position == -1` stands for the end.
abbrev pub insert_position : ℤ → ℕ → ℕ
insert_position (pos p) len = p
insert_position (negsuc n) len = if n == 0 then len else 0

module _ {ℓ} {A : Type ℓ} (fits : ℕ → Bool) (blank : A) where
  -- The new elements are copies of `source`, or `blank` where no source is given.
  abbrev pub fill : Option (List A) → ℕ → List A
  fill none count = replicate count blank
  fill (some source) count = take count source

  -- Whether it succeeds, and the elements. Where the memory manager refuses the room, the vector has
  -- its new length nonetheless, and lacks the memory behind the old one: what is read there is no
  -- element, and `blank` stands for it.
  unfoldable pub insert_1d : ℤ → ℤ → Option (List A) → List A → Bool × List A
  insert_1d position count source xs =
      let p = insert_position position (length xs) in
      let n = pos_part count in
      if leb_ℤ count (pos 0)
      then (true, xs)
      else if fits (length xs + n)
      then (true, take p xs ++ (fill source n ++ drop p xs))
      else (false, xs ++ replicate n blank)

  unfoldable pub remove_1d : ℕ → ℕ → List A → List A
  remove_1d position count xs = take position xs ++ drop (position + count) xs

  -- Copies over `source` at `position`, of a list long enough to be written there.
  abbrev pub overwrite : ℕ → ℕ → List A → List A → List A
  overwrite position count source xs =
      take position xs ++ (take count source ++ drop (position + count) xs)

  -- What Replace1D does to the length before it copies.
  abbrev pub make_room : ℕ → Bool → List A → Bool × List A
  make_room needed truncate xs =
      let current = length xs in
      if ltb current needed
      then insert_1d (pos current) (pos (needed - current)) none xs
      else if truncate && ltb needed current
      then (true, remove_1d needed (current - needed) xs)
      else (true, xs)

  unfoldable pub replace_1d : ℤ → ℤ → List A → Bool → List A → Bool × List A
  replace_1d position count source truncate xs =
      let p = insert_position position (length xs) in
      let n = pos_part count in
      let room = make_room (p + n) truncate xs in
      if ltb_ℤ count (pos 0)
      then (true, xs)
      else if room.0
      then (true, overwrite p n source room.1)
      else room
