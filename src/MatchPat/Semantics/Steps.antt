-- ===== src/MatchPat/Semantics/Steps.antt =====
-- The step of the matcher at an item covers the repetitions that the item allows.
use vireo_sdk.Common.{
  ℕ, zero, suc, ◌+◌, ◌-◌, ◌≤◌, ◌<◌, ◌≡◌, Bool, true, false, Option, none, some, List, [], ◌∷◌,
  length, get_elem?, arith, refl, Bool-cases, inl, inr, if◌then◌else◌,
}
use vireo_sdk.MatchPat.{passes, run, star_loop}
use vireo_sdk.MatchPat.Runs.{Reads, passes-lt, run-Reads, Reads-run, star_loop-some, star_loop-none}
use vireo_sdk.MatchPat.Semantics.{
  Atom, any, Quantifier, star, plus, cond, Item, at_end, item, test, Counts, Matches,
}

-- A result of the matcher is right for the ends `M`.
abbrev pub Right : (ℕ → Type 0) → Option ℕ → Type 0
Right M o = ((t : ℕ) → o ≡ some t → M t) × (o ≡ none → (t : ℕ) → ¬ M t)

-- The repetitions that a step covers, up to the end of the text.
abbrev pub Covers : List ℕ → Quantifier → Atom → ℕ → ℕ → ℕ → Type 0
Covers text q a s low high =
    (s ≤ low)
    × ((k : ℕ)
        → s + k ≤ length text
        → Counts q k
        → Reads text (test a) s k
        → (low ≤ s + k) × (s + k ≤ high))
    × ((k : ℕ)
        → low ≤ s + k
        → s + k ≤ high
        → s + k ≤ length text
        → Counts q k × Reads text (test a) s k)

pub Matches-le : (text : List ℕ) (r : List Item) (s t : ℕ) → Matches text r s t → s ≤ length text
unfolding Matches
Matches-le text [] s t (_, h) = h
Matches-le text (at_end ∷ r) s t (e, _) = omega arith
Matches-le text (item q a ∷ r) s t (k, _, _, m) =
    let ih = Matches-le text r (s + k) t m in omega arith

pub tries-Right :
    (text : List ℕ) (q : Quantifier) (a : Atom) (r : List Item) (s low high : ℕ)
    (match : ℕ → Option ℕ)
    → Covers text q a s low high
    → ((u : ℕ) → Right (Matches text r u) (match u))
    → Right (Matches text (item q a ∷ r) s) (star_loop match low (high + 1 - low))
unfolding Matches
tries-Right text q a r s low high match (from, inside, covered) right = (
  λ t e.
      let (u, l, h, found) = star_loop-some match low (high + 1 - low) t e in
      let m = (right u).0 t found in
      let split : s + (u - s) ≡ u = omega arith in
      let le = Matches-le text r u t m in
      let (counts, reads) = covered (u - s) (omega arith) (omega arith) (omega arith) in
      (u - s, counts, reads, rw (split) m),
  λ e t (k, counts, reads, m).
      let (l, h) = inside k (Matches-le text r (s + k) t m) counts reads in
      (right (s + k)).1 (star_loop-none match low (high + 1 - low) (s + k) e l (omega arith)) t m,
)

pub passes-any :
    (text : List ℕ) (s : ℕ) → s < length text → passes (test any) (get_elem? text s) ≡ true
unfolding test
passes-any [] s h = absurd (omega arith)
passes-any (c ∷ text) zero h = refl
passes-any (c ∷ text) (suc s) h = passes-any text s (omega arith)

any-Reads : (text : List ℕ) (s k : ℕ) → s + k ≤ length text → Reads text (test any) s k
unfolding Reads test
any-Reads text s zero h = refl
any-Reads text s (suc k) h =
    (passes-any text s (omega arith), any-Reads text (s + 1) k (omega arith))

pub any-le : (text : List ℕ) (s k : ℕ) → Reads text (test any) s (suc k) → s + suc k ≤ length text
unfolding Reads test
any-le text s zero (e, _) = let lt = passes-lt text (test any) s e in omega arith
any-le text s (suc k) (e, rest) = let ih = any-le text (s + 1) k rest in omega arith

pub star-Covers :
    (text : List ℕ) (a : Atom) (s : ℕ)
    → Covers text star a s s (s + run text (test a) (length text - s) s)
star-Covers text a s = (
  omega arith,
  λ k h _ r.
      let n = Reads-run text (test a) (length text - s) s k (omega arith) r in
      (omega arith, omega (arith, n)),
  λ k l h _. (omega arith, run-Reads text (test a) (length text - s) s k (omega arith)),
)

pub plus-Covers :
    (text : List ℕ) (a : Atom) (s : ℕ)
    → Covers text plus a s (s + 1) (s + run text (test a) (length text - s) s)
plus-Covers text a s = (
  omega arith,
  λ k h c r.
      let n = Reads-run text (test a) (length text - s) s k (omega arith) r in
      (omega (arith, c), omega (arith, n)),
  λ k l h _. (omega (arith, l), run-Reads text (test a) (length text - s) s k (omega arith)),
)

pub Reads-few :
    (text : List ℕ) (f : ℕ → Bool) (s k : ℕ)
    → passes f (get_elem? text s) ≡ true
    → k ≤ 1
    → Reads text f s k
unfolding Reads
Reads-few text f s zero e h = refl
Reads-few text f s (suc zero) e h = (e, refl)
Reads-few text f s (suc (suc k)) e h = absurd (omega arith)

pub Reads-zero :
    (text : List ℕ) (f : ℕ → Bool) (s k : ℕ)
    → passes f (get_elem? text s) ≡ false
    → Reads text f s k
    → k ≡ 0
unfolding Reads
Reads-zero text f s zero e r = refl
Reads-zero text f s (suc k) e (e', _) = absurd (ground arith)

few-zero : (text : List ℕ) (f : ℕ → Bool) (s k : ℕ) → k ≤ 0 → (k ≤ 1) × Reads text f s k
unfolding Reads
few-zero text f s zero h = (omega arith, refl)
few-zero text f s (suc k) h = absurd (omega arith)

pub cond-Covers :
    (text : List ℕ) (a : Atom) (s : ℕ)
    → Covers text cond a s s (if passes (test a) (get_elem? text s) then s + 1 else s)
unfolding Reads
cond-Covers text a s = elim (Bool-cases (passes (test a) (get_elem? text s))) [
  | inl e ↦ rw (e) (
    omega arith,
    λ k h c r. (omega arith, omega (arith, c)),
    λ k l h _. (omega (arith, h), Reads-few text (test a) s k e (omega (arith, h))),
  )
  | inr e ↦ rw (e) (
    omega arith,
    λ k h c r. let z = Reads-zero text (test a) s k e r in (omega arith, omega (arith, z)),
    λ k l h _. few-zero text (test a) s k (omega (arith, h)),
  )
]

pub any-star-Covers : (text : List ℕ) (s : ℕ) → Covers text star any s s (length text)
any-star-Covers text s =
    (omega arith, λ k h _ _. (omega arith, h), λ k _ h _. (omega arith, any-Reads text s k h))

pub any-plus-Covers : (text : List ℕ) (s : ℕ) → Covers text plus any s (s + 1) (length text)
any-plus-Covers text s = (
  omega arith,
  λ k h c _. (omega (arith, c), h),
  λ k l h _. (omega (arith, l), any-Reads text s k h),
)

pub any-cond-Covers : (text : List ℕ) (s : ℕ) → Covers text cond any s s (s + 1)
any-cond-Covers text s = (
  omega arith,
  λ k h c _. (omega arith, omega (arith, c)),
  λ k l h le. (omega (arith, h), any-Reads text s k le),
)
