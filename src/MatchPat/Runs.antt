-- ===== src/MatchPat/Runs.antt =====
-- The runs of bytes that pass a test, and the star loop.
use vireo_sdk.Common.{
  ℕ, zero, suc, ◌+◌, ◌≤◌, ◌<◌, ◌≡◌, Bool, true, Option, none, some, List, [], ◌∷◌, length,
  get_elem?, arith, refl, ap, ◌∙◌, ltb, Bool-cases, inl, inr, ◌⊎◌,
}
use vireo_sdk.MatchPat.{passes, run, star_loop, or_else}

-- The `k` bytes of the text from a position on pass the test.
unfoldable pub Reads : List ℕ → (ℕ → Bool) → ℕ → ℕ → Type 0
Reads text test s zero = Path ℕ 0 0
Reads text test s (suc k) = (passes test (get_elem? text s) ≡ true) × Reads text test (s + 1) k

pub passes-lt :
    (text : List ℕ) (test : ℕ → Bool) (s : ℕ)
    → passes test (get_elem? text s) ≡ true
    → s < length text
passes-lt [] test s e = absurd (ground arith)
passes-lt (c ∷ text) test zero e = omega arith
passes-lt (c ∷ text) test (suc s) e = let ih = passes-lt text test s e in omega arith

pub run-Reads :
    (text : List ℕ) (test : ℕ → Bool) (n s k : ℕ) → k ≤ run text test n s → Reads text test s k
unfolding run Reads
run-Reads text test n s zero h = refl
run-Reads text test zero s (suc k) h = absurd (omega arith)
run-Reads text test (suc n) s (suc k) h = elim (Bool-cases (passes test (get_elem? text s))) [
  | inl e ↦ (e, run-Reads text test n (s + 1) k (ground arith))
  | inr e ↦ absurd (ground arith)
]

-- No run is longer than the one counted, where the fuel reaches the end of the text.
pub Reads-run :
    (text : List ℕ) (test : ℕ → Bool) (n s k : ℕ)
    → length text ≤ s + n
    → Reads text test s k
    → k ≤ run text test n s
unfolding run Reads
Reads-run text test n s zero h r = omega arith
Reads-run text test zero s (suc k) h (e, r) =
    let lt = passes-lt text test s e in absurd (omega arith)
Reads-run text test (suc n) s (suc k) h (e, r) =
    let ih = Reads-run text test n (s + 1) k (omega arith) r in rw (run, e) (omega arith)

or_else-some : (o r : Option ℕ) (t : ℕ) → or_else o r ≡ some t → (o ≡ some t) ⊎ (r ≡ some t)
or_else-some none r t e = inr e
or_else-some (some x) r t e = inl e

or_else-none : (o r : Option ℕ) → or_else o r ≡ none → (o ≡ none) × (r ≡ none)
or_else-none none r e = (refl, e)
or_else-none (some x) r e = absurd (ground arith)

-- What the star loop returns: a match at one of the positions, or none where none of them matches.
pub star_loop-some :
    (match : ℕ → Option ℕ) (low n t : ℕ)
    → star_loop match low n ≡ some t
    → (u : ℕ) × (low ≤ u) × (u < low + n) × (match u ≡ some t)
unfolding star_loop
star_loop-some match low zero t e = absurd (ground arith)
star_loop-some match low (suc n) t e = elim (or_else-some (match (low + n)) _ t e) [
  | inl here ↦ (low + n, omega arith, omega arith, here)
  | inr below ↦
      let (u, l, h, found) = star_loop-some match low n t below in (u, l, omega (arith, h), found)
]

le-cases : (u v : ℕ) → u ≤ v → (u < v) ⊎ (u ≡ v)
le-cases u v h = elim (Bool-cases (ltb u v)) [
  | inl e ↦ inl (ground arith)
  | inr e ↦ inr (ground arith)
]

pub star_loop-none :
    (match : ℕ → Option ℕ) (low n u : ℕ)
    → star_loop match low n ≡ none
    → low ≤ u
    → u < low + n
    → match u ≡ none
unfolding star_loop
star_loop-none match low zero u e l h = absurd (omega arith)
star_loop-none match low (suc n) u e l h =
    let (here, below) = or_else-none (match (low + n)) _ e in
    elim (le-cases u (low + n) (ground arith)) [
      | inl lt ↦ star_loop-none match low n u below l lt
      | inr eq ↦ ap match eq ∙ here
    ]
