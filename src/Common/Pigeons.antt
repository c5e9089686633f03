-- ===== src/Common/Pigeons.antt =====
-- A list of different numbers below `n` has at most `n` elements.
use vireo_sdk.Common.{
  length, ◌==◌, Bool-cases, inl, inr, if◌then◌else◌, ℕ, zero, suc, ◌+◌, ◌≤◌, ◌<◌, ◌≡◌, ◌≢◌, refl,
  sym, ap, Bool, true, false, List, [], ◌∷◌, arith,
}

abbrev pub AllNe : ℕ → List ℕ → Type 0
AllNe i [] = Unit {0}
AllNe i (j ∷ js) = (i ≢ j) × AllNe i js

-- All different, and all below `n`.
abbrev pub Pigeons : ℕ → List ℕ → Type 0
Pigeons n [] = Unit {0}
Pigeons n (i ∷ is) = (i < n) × AllNe i is × Pigeons n is

count : (ℕ → Bool) → ℕ → ℕ
count f zero = 0
count f (suc n) = (if f n then 1 else 0) + count f n

holds : List ℕ → ℕ → Bool
holds [] k = false
holds (i ∷ is) k = if k == i then true else holds is k

count-le : (f : ℕ → Bool) (n : ℕ) → count f n ≤ n
unfolding count
count-le f zero = omega arith
count-le f (suc n) = let rest = count-le f n in ground arith

count-none : (n : ℕ) → count (holds []) n ≡ 0
unfolding count holds
count-none zero = refl
count-none (suc n) = rw (count-none n) refl

holds-AllNe : (i : ℕ) (is : List ℕ) → AllNe i is → holds is i ≡ false
unfolding holds
holds-AllNe i [] ne = refl
holds-AllNe i (j ∷ js) ne = let rest = holds-AllNe i js ne.1 in ground arith

count-above : (i : ℕ) (is : List ℕ) (n : ℕ) → n ≤ i → count (holds (i ∷ is)) n ≡ count (holds is) n
unfolding count holds
count-above i is zero h = refl
count-above i is (suc n) h = let rest = count-above i is n (omega arith) in ground arith

count-add :
    (i : ℕ) (is : List ℕ) (n : ℕ)
    → i < n
    → holds is i ≡ false
    → count (holds (i ∷ is)) n ≡ suc (count (holds is) n)
unfolding count holds
count-add i is zero h out = absurd (omega arith)
count-add i is (suc n) h out = elim (Bool-cases (n == i)) [
  | inl e ↦
      let at : n ≡ i = ground arith in
      let rest = count-above i is n (omega arith) in
      rw (rest, e, ap (holds is) at, out) (omega arith)
  | inr e ↦
      let apart : n ≢ i = ground arith in
      let rest = count-add i is n (omega arith) out in rw (rest, e) (omega arith)
]

Pigeons-length : (n : ℕ) (is : List ℕ) → Pigeons n is → length is ≡ count (holds is) n
Pigeons-length n [] p = sym (count-none n)
Pigeons-length n (i ∷ is) p =
    let rest = Pigeons-length n is p.2 in omega (arith, count-add i is n p.0 (holds-AllNe i is p.1))

pub length-Pigeons : (n : ℕ) (is : List ℕ) → Pigeons n is → length is ≤ n
length-Pigeons n is p = omega (arith, Pigeons-length n is p, count-le (holds is) n)
