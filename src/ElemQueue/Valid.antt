-- ===== src/ElemQueue/Valid.antt =====
-- The representation invariant of QueueCore, and the elements that a valid queue holds.
use vireo_sdk.Common.{ℕ, ◌+◌, ◌≤◌, ◌<◌, ◌≡◌, ◌⊎◌, Option, none, some, List, [], length, take}
use vireo_sdk.Common.Cuts.{rotate}
use vireo_sdk.Common.Int.{ℤ, negsuc, pos_part}
use vireo_sdk.ElemQueue.{ElemQueue}

-- The last of `count` places from `f` is `b`, with or without going round.
abbrev pub Spans : ℕ → ℕ → ℕ → ℕ → Type 0
Spans n f b count =
    (f < n) × (b < n) × (1 ≤ count) × (count ≤ n) × ((b + 1 ≡ f + count) ⊎ (b + 1 + n ≡ f + count))

-- No bound, or a bound that the buffer keeps.
abbrev pub IsBounded : ℤ → ℕ → Type 0
IsBounded m n = (m ≡ negsuc 0) ⊎ ((1 ≤ pos_part m) × (n ≤ pos_part m))

module _ {ℓ} {A : Type ℓ} where
  abbrev pub from_front : Option ℕ → ℕ → List A → List A
  from_front none count xs = []
  from_front (some f) count xs = take count (rotate f xs)

  -- The elements, oldest first.
  abbrev pub contents : ElemQueue A → List A
  contents q = from_front q.front q.count q.elements

  abbrev pub IsIdle : ElemQueue A → Type 0
  IsIdle q = (q.front ≡ none) × (q.back ≡ none) × (q.count ≡ 0)

  pub record IsBusy (q : ElemQueue A) : Type 0 where
    pub f : ℕ
    pub b : ℕ
    pub front_is : q.front ≡ some f
    pub back_is : q.back ≡ some b
    pub spans : Spans (length q.elements) f b q.count

  pub record IsValid (q : ElemQueue A) : Type 0 where
    pub shape : IsIdle q ⊎ IsBusy q
    pub bounded : IsBounded q.max_size (length q.elements)
