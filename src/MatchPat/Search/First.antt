-- ===== src/MatchPat/Search/First.antt =====
-- The search finds the first position where the pattern matches.
use vireo_sdk.Common.{
  ℕ, zero, suc, ◌+◌, ◌-◌, ◌≤◌, ◌<◌, ◌≡◌, Bool, true, false, Option, none, some, List, [], ◌∷◌, ◌++◌,
  ◌==◌, length, get_elem?, arith, refl, Bool-cases, ◌⊎◌, inl, inr, ltb, ◌≢◌, length-append,
  if◌then◌else◌,
}
use vireo_sdk.MatchPat.{m_chr, m_any, m_eos, m_ccl, m_eof, m_bol}
use vireo_sdk.MatchPat.Runs.{Reads}
use vireo_sdk.MatchPat.Semantics.Steps.{Reads-zero}
use vireo_sdk.MatchPat.Semantics.{
  Atom, any, chr, set, Quantifier, one, star, plus, cond, Item, at_end, item, encode, test, Matches,
  payload, AreShort, quantifier_code, atom_code,
}
use vireo_sdk.MatchPat.Semantics.Correct.{amatch_lem}
use vireo_sdk.MatchPat.Search.{may_start, search, find}

-- The first match from a position on, before another one.
abbrev pub IsFirst : List ℕ → List Item → ℕ → ℕ → Option (ℕ × ℕ) → Type 0
IsFirst text items s end r =
    ((u t : ℕ) × (r ≡ some (u, t))
      × (s ≤ u)
      × (u < end)
      × Matches text items u t
      × ((v : ℕ) → s ≤ v → v < u → (t' : ℕ) → ¬ Matches text items v t'))
    ⊎ ((r ≡ none) × ((v : ℕ) → s ≤ v → v < end → (t : ℕ) → ¬ Matches text items v t))

length-encode : (items : List Item) → length items < length (encode items)
unfolding encode
length-encode [] = omega arith
length-encode (at_end ∷ r) = let ih = length-encode r in omega arith
length-encode (item q a ∷ r) =
    let ih = length-encode r in
    let sum = length-append (payload a) (encode r) in omega (arith, ih, sum)

no-chr : (a : ℕ) (p : List ℕ) (b : Option ℕ) → a ≢ m_chr → ¬ (may_start (a ∷ p) b ≡ false)
unfolding may_start
no-chr a [] b h e = ground arith
no-chr a (c ∷ p) b h e = let other : (a == m_chr) ≡ false = ground arith in ground arith

quantifier-le : (q : Quantifier) → quantifier_code q ≤ 4
quantifier-le one = omega arith
quantifier-le star = omega arith
quantifier-le plus = omega arith
quantifier-le cond = omega arith

any-code : (q : Quantifier) → m_any + quantifier_code q ≢ m_chr
any-code q = let le = quantifier-le q in ground arith

set-code : (q : Quantifier) → m_ccl + quantifier_code q ≢ m_chr
set-code q = let le = quantifier-le q in ground arith

code-bol : (q : Quantifier) (a : Atom) → atom_code a + quantifier_code q ≢ m_bol
code-bol q any = let le = quantifier-le q in ground arith
code-bol q (chr c) = let le = quantifier-le q in ground arith
code-bol q (set cs) = let le = quantifier-le q in ground arith

-- Where the test fails there is no match.
may_start-Matches :
    (text : List ℕ) (items : List Item) (s t : ℕ)
    → may_start (encode items) (get_elem? text s) ≡ false
    → ¬ Matches text items s t
unfolding may_start encode Matches Reads test
may_start-Matches text [] s t e m = absurd (ground arith)
may_start-Matches text (at_end ∷ r) s t e m = absurd (no-chr m_eos _ _ (omega arith) e)
may_start-Matches text (item q any ∷ r) s t e m = absurd (no-chr _ _ _ (any-code q) e)
may_start-Matches text (item q (set cs) ∷ r) s t e m = absurd (
    no-chr (m_ccl + quantifier_code q) (payload (set cs) ++ encode r) (get_elem? text s)
      (set-code q) e)
may_start-Matches text (item one (chr c) ∷ r) s t e (k, count, reads, m) =
    let z = Reads-zero text (test (chr c)) s k e reads in omega (arith, z, count)
may_start-Matches text (item star (chr c) ∷ r) s t e m =
    absurd (no-chr 97 (c ∷ encode r) (get_elem? text s) (omega arith) e)
may_start-Matches text (item plus (chr c) ∷ r) s t e m =
    absurd (no-chr 98 (c ∷ encode r) (get_elem? text s) (omega arith) e)
may_start-Matches text (item cond (chr c) ∷ r) s t e m =
    absurd (no-chr 100 (c ∷ encode r) (get_elem? text s) (omega arith) e)

le-cases : (u v : ℕ) → u ≤ v → (u ≡ v) ⊎ (u + 1 ≤ v)
le-cases u v h = elim (Bool-cases (ltb u v)) [
  | inl e ↦ inr (ground arith)
  | inr e ↦ inl (ground arith)
]

none-below :
    (text : List ℕ) (items : List Item) (s end : ℕ)
    → ((t : ℕ) → ¬ Matches text items s t)
    → ((v : ℕ) → s + 1 ≤ v → v < end → (t : ℕ) → ¬ Matches text items v t)
    → (v : ℕ) → s ≤ v
    → v < end
    → (t : ℕ) → ¬ Matches text items v t
none-below text items s end absent rest v l h t m = elim (le-cases s v l) [
  | inl e ↦ absent t (rw (e) m)
  | inr l' ↦ rest v l' h t m
]

IsFirst-skip :
    (text : List ℕ) (items : List Item) (n s : ℕ) (r : Option (ℕ × ℕ))
    → ((t : ℕ) → ¬ Matches text items s t)
    → IsFirst text items (s + 1) (s + 1 + n) r
    → IsFirst text items s (s + suc n) r
IsFirst-skip text items n s r absent (inl (u, t, e, l, h, m, first)) =
    inl (u, t, e, omega arith, omega arith, m, none-below text items s u absent first)
IsFirst-skip text items n s r absent (inr (e, later)) =
    inr (e, none-below text items s (s + suc n) absent (λ v l h. later v l (omega (arith, h))))

if-same {ℓ} : {A : Type ℓ} (b : Bool) (x : A) → (if b then x else x) ≡ x
if-same true x = refl
if-same false x = refl

search-IsFirst :
    (text : List ℕ) (items : List Item) (n s : ℕ)
    → AreShort items
    → IsFirst text items s (s + n) (search text (encode items) n s)
unfolding search
search-IsFirst text items zero s w = inr (refl, λ v l h. absurd (omega arith))
search-IsFirst text items (suc n) s w =
    let rest = search-IsFirst text items n (s + 1) w in
    elim (amatch_lem text items (length (encode items)) s w (length-encode items)) [
      | inl (t, found, m) ↦ elim (Bool-cases (may_start (encode items) (get_elem? text s))) [
        | inl e ↦
            rw (search, e, found)
              (inl (s, t, refl, omega arith, omega arith, m, λ v l h. absurd (omega arith)))
        | inr e ↦ absurd (may_start-Matches text items s t e m)
      ]
      | inr (lost, absent) ↦
          rw (search, lost)
            (rw (if-same (may_start (encode items) (get_elem? text s)) _)
              (IsFirst-skip text items n s _ absent rest))
    ]

no-bol :
    (text : List ℕ) (a : ℕ) (p : List ℕ) (s : ℕ)
    → a ≢ m_bol
    → find text (a ∷ p) s ≡ search text (a ∷ p) (length text - s) s
unfolding find
no-bol text a p s h = let other : (a == m_bol) ≡ false = ground arith in rw (find, other) refl

find-search :
    (text : List ℕ) (items : List Item) (s : ℕ)
    → find text (encode items) s ≡ search text (encode items) (length text - s) s
unfolding encode
find-search text [] s = no-bol text m_eof [] s (omega arith)
find-search text (at_end ∷ r) s = no-bol text m_eos (encode r) s (omega arith)
find-search text (item q a ∷ r) s =
    no-bol text (atom_code a + quantifier_code q) (payload a ++ encode r) s (code-bol q a)

to-end :
    (text : List ℕ) (items : List Item) (s : ℕ) (r : Option (ℕ × ℕ))
    → IsFirst text items s (s + (length text - s)) r
    → IsFirst text items s (length text) r
to-end text items s r (inl (u, t, e, l, h, m, first)) =
    inl (u, t, e, l, omega (arith, l, h), m, first)
to-end text items s r (inr (e, later)) = inr (e, λ v l h. later v l (omega (arith, l, h)))

-- On the compiled form of a list of items, which does not begin with ^, the search of MatchPat
-- from an offset finds the first position before the end of the text at which the items match,
-- and an end of the match; or it finds none, and the items match at no position from the
-- offset to before the end.
pub find_lem :
    (text : List ℕ) (items : List Item) (s : ℕ)
    → AreShort items
    → IsFirst text items s (length text) (find text (encode items) s)
find_lem text items s w =
    rw (find-search text items s)
      (to-end text items s _ (search-IsFirst text items (length text - s) s w))
