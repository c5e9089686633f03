-- ===== src/RefNum/Invariant.antt =====
-- The invariant of a refnum storage: the slots are the indices below `size`, the slots that are not
-- in use form the free list, which ends at `size`, and a slot in use has a magic number.
use vireo_sdk.Common.Pigeons.{AllNe, Pigeons, length-Pigeons}
use vireo_sdk.Common.{
  ℕ, ◌+◌, ◌^◌, ◌≤◌, ◌<◌, ◌≡◌, ◌≢◌, refl, Option, none, some, List, [], ◌∷◌, arith, length, update,
  ◌==◌, if◌then◌else◌,
}
use vireo_sdk.RefNum.{Slot, Storage, magic_from_ref_num, accepted, index_from_ref_num}
use vireo_sdk.RefNum.Bits.{ref_num-eq}

module _ {D : Type 0} where
  abbrev pub next_of : Option (Slot D) → Option ℕ
  next_of none = none
  next_of (some slot) = slot.next_free

  -- The free list from `f` through the slots `is`, all different, to `size`.
  abbrev pub Chain : (ℕ → Option (Slot D)) → ℕ → ℕ → List ℕ → Type 0
  Chain slots size f [] = f ≡ size
  Chain slots size f (i ∷ is) =
      (f ≡ i)
      × (i < size)
      × AllNe i is
      × ((j : ℕ) × (next_of (slots i) ≡ some j) × Chain slots size j is)

  pub record Inv (s : Storage D) : Type 0 where
    pub size : ℕ
    pub free : List ℕ
    pub chain : Chain s.slots size s.first_free free
    pub small : size ≤ 2 ^ 20
    pub present : (i : ℕ) → i < size → s.slots i ≢ none
    pub absent : (i : ℕ) → size ≤ i → s.slots i ≡ none
    pub used : s.num_used + length free ≡ size
    pub magic_in : (1 ≤ s.next_magic_num) × (s.next_magic_num < 2 ^ 12)

  -- A write outside the free list leaves it as it is.
  pub Chain-update :
      (slots : ℕ → Option (Slot D)) (size f k : ℕ) (v : Option (Slot D)) (is : List ℕ)
      → AllNe k is
      → Chain slots size f is
      → Chain (update slots k v) size f is
  Chain-update slots size f k v [] ne c = c
  Chain-update slots size f k v (i ∷ is) ne c =
      (c.0, c.1, c.2, (c.3.0, ground arith, Chain-update slots size c.3.0 k v is ne.1 c.3.2))

  -- A slot in use stands outside the free list.
  pub Chain-used :
      (slots : ℕ → Option (Slot D)) (size f k : ℕ) (is : List ℕ)
      → Chain slots size f is
      → next_of (slots k) ≡ none
      → AllNe k is
  Chain-used slots size f k [] c e = tt
  Chain-used slots size f k (i ∷ is) c e = (ground arith, Chain-used slots size c.3.0 k is c.3.2 e)

  pub Chain-AllNe_size :
      (slots : ℕ → Option (Slot D)) (size f : ℕ) (is : List ℕ)
      → Chain slots size f is
      → AllNe size is
  Chain-AllNe_size slots size f [] c = tt
  Chain-AllNe_size slots size f (i ∷ is) c =
      (omega arith, Chain-AllNe_size slots size c.3.0 is c.3.2)

  Chain-Pigeons :
      (slots : ℕ → Option (Slot D)) (size f : ℕ) (is : List ℕ)
      → Chain slots size f is
      → Pigeons size is
  Chain-Pigeons slots size f [] c = tt
  Chain-Pigeons slots size f (i ∷ is) c = (c.1, c.2, Chain-Pigeons slots size c.3.0 is c.3.2)

  -- Beside a slot in use, the free slots do not fill the storage.
  pub length-free-lt :
      (s : Storage D) (v : Inv s) (k : ℕ) → k < v.size → AllNe k v.free → length v.free < v.size
  length-free-lt s v k h out =
      length-Pigeons v.size (k ∷ v.free)
        (h, out, Chain-Pigeons s.slots v.size s.first_free v.free v.chain)

  -- What a write at the index of `r` of a slot in use with the magic number of `r` does to validation.
  pub accepted-update :
      (slots : ℕ → Option (Slot D)) (r t : ℕ) (v : Slot D)
      → r < 2 ^ 32
      → t < 2 ^ 32
      → v.next_free ≡ none
      → magic_from_ref_num v.magic_num ≡ magic_from_ref_num r
      → magic_from_ref_num r ≢ 0
      → accepted t (update slots (index_from_ref_num r) (some v) (index_from_ref_num t)) ≡ (
          if t == r
          then some v
          else if index_from_ref_num t == index_from_ref_num r
          then none
          else accepted t (slots (index_from_ref_num t)))
  accepted-update slots r t v hr ht free magic pos' = ground (arith, ref_num-eq r t)

  -- A slot that is free accepts no refnum.
  pub accepted-free : (t j : ℕ) (o : Option (Slot D)) → next_of o ≡ some j → accepted t o ≡ none
  accepted-free t j none e = refl
  accepted-free t j (some slot) e = ground arith
