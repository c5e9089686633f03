-- ===== src/MatchPat/Semantics/Correct.antt =====
-- AMatch finds a match exactly where there is one.
use vireo_sdk.Common.{
  ℕ, zero, suc, ◌+◌, ◌-◌, ◌%◌, ◌^◌, ◌≤◌, ◌<◌, ◌≡◌, Bool, true, false, Option, none, some, List, [],
  ◌∷◌, ◌++◌, ◌==◌, length, ltb, take, drop, get_elem?, arith, refl, sym, ap, ap₂, ◌∙◌, Bool-cases,
  Option-cases, ◌⊎◌, inl, inr,
}
use vireo_sdk.MatchPat.{
  in_set, passes, run, Step, step, step_one, step_star, step_plus, step_cond, take_step, amatch,
  with_set,
}
use vireo_sdk.MatchPat.Runs.{Reads-run}
use vireo_sdk.MatchPat.Semantics.{
  Atom, any, chr, set, Quantifier, one, star, plus, cond, Item, at_end, item, encode, test, Counts,
  Matches, IsShortAtom, AreShort,
}
use vireo_sdk.MatchPat.Semantics.Steps.{
  Right, tries-Right, star-Covers, plus-Covers, cond-Covers, any-star-Covers, any-plus-Covers,
  any-cond-Covers, Reads-few, Reads-zero, passes-any, Matches-le,
}

-- The step at a character or a set.
abbrev tested : List ℕ → Quantifier → (ℕ → Bool) → List ℕ → ℕ → Step
unfolding step_one step_star step_plus step_cond
tested text one f p s = step_one text f p s
tested text star f p s = step_star text f p s
tested text plus f p s = step_plus text f p s
tested text cond f p s = step_cond text f p s

step-chr :
    (text : List ℕ) (q : Quantifier) (c : ℕ) (r : List Item) (s : ℕ)
    → step text (encode (item q (chr c) ∷ r)) s ≡ tested text q (test (chr c)) (encode r) s
unfolding step encode test tested
step-chr text one c r s = refl
step-chr text star c r s = refl
step-chr text plus c r s = refl
step-chr text cond c r s = refl

take-payload : (cs p : List ℕ) → take (length cs) (cs ++ p) ≡ cs
take-payload [] p = refl
take-payload (c ∷ cs) p = ap (c ∷◌) (take-payload cs p)

drop-payload : (cs p : List ℕ) → drop (length cs) (cs ++ p) ≡ p
drop-payload [] p = refl
drop-payload (c ∷ cs) p = drop-payload cs p

set-payload :
    (k : (ℕ → Bool) → List ℕ → Step) (cs p : List ℕ)
    → length cs < 255
    → with_set k (suc (length cs) % 2 ^ 8 ∷ (cs ++ p)) ≡ k (λ c. in_set c cs) p
unfolding with_set
set-payload k cs p low =
    let byte : suc (length cs) % 2 ^ 8 ≡ suc (length cs) = omega arith in
    let count : suc (length cs) - 1 ≡ length cs = omega arith in
    ap (λ n. k (λ c. in_set c (take (n - 1) (cs ++ p))) (drop n (n ∷ (cs ++ p)))) byte
    ∙ ap₂ (λ z y. k (λ c. in_set c z) y) (ap (λ n. take n (cs ++ p)) count ∙ take-payload cs p)
        (drop-payload cs p)

step-set :
    (text : List ℕ) (q : Quantifier) (cs : List ℕ) (r : List Item) (s : ℕ)
    → length cs < 255
    → step text (encode (item q (set cs) ∷ r)) s ≡ tested text q (test (set cs)) (encode r) s
unfolding step encode test tested
step-set text one cs r s low = set-payload (λ f p. step_one text f p s) cs (encode r) low
step-set text star cs r s low = set-payload (λ f p. step_star text f p s) cs (encode r) low
step-set text plus cs r s low = set-payload (λ f p. step_plus text f p s) cs (encode r) low
step-set text cond cs r s low = set-payload (λ f p. step_cond text f p s) cs (encode r) low

fails-Right : (M : ℕ → Type 0) → ((t : ℕ) → ¬ M t) → Right M none
fails-Right M h = (λ t e. absurd (ground arith), λ _. h)

goes-Right :
    (text : List ℕ) (a : Atom) (r : List Item) (s : ℕ) (o : Option ℕ)
    → passes (test a) (get_elem? text s) ≡ true
    → Right (Matches text r (s + 1)) o
    → Right (Matches text (item one a ∷ r) s) o
unfolding Matches
goes-Right text a r s o e (sound, complete) = (
  λ t found. (1, refl, Reads-few text (test a) s 1 e (omega arith), sound t found),
  λ lost t (k, count, _, m). complete lost t (rw (sym count) m),
)

stuck :
    (text : List ℕ) (q : Quantifier) (a : Atom) (r : List Item) (s t : ℕ)
    → passes (test a) (get_elem? text s) ≡ false
    → ((k : ℕ) → Counts q k → 1 ≤ k)
    → ¬ Matches text (item q a ∷ r) s t
unfolding Matches
stuck text q a r s t e needs (k, count, reads, _) =
    let z = Reads-zero text (test a) s k e reads in let n = needs k count in omega arith

no-run :
    (text : List ℕ) (a : Atom) (r : List Item) (s t : ℕ)
    → run text (test a) (length text - s) s ≡ 0
    → ¬ Matches text (item plus a ∷ r) s t
unfolding Matches
no-run text a r s t e (k, count, reads, _) =
    let n = Reads-run text (test a) (length text - s) s k (omega arith) reads in
    omega (arith, n, count)

no-any :
    (text : List ℕ) (r : List Item) (s : ℕ)
    → length text ≤ s
    → (t : ℕ) → ¬ Matches text (item one any ∷ r) s t
unfolding Matches
no-any text r s h t (k, count, _, m) =
    let le = Matches-le text r (s + k) t m in omega (arith, le, count)

below : {s t : ℕ} → ltb s t ≡ true → s < t
below e = ground arith

above : {s t : ℕ} → ltb s t ≡ false → t ≤ s
above e = ground arith

-- What the matcher does at a character or a set is right, if it is with the rest of the pattern.
tested-Right :
    (text : List ℕ) (q : Quantifier) (a : Atom) (r : List Item) (p : List ℕ) (s : ℕ)
    (match : List ℕ → ℕ → Option ℕ)
    → ((u : ℕ) → Right (Matches text r u) (match p u))
    → Right (Matches text (item q a ∷ r) s) (take_step match (tested text q (test a) p s))
unfolding tested step_one step_star step_plus step_cond take_step
tested-Right text one a r p s match right = elim (Bool-cases (passes (test a) (get_elem? text s))) [
  | inl e ↦ rw (e) (goes-Right text a r s (match p (s + 1)) e (right (s + 1)))
  | inr e ↦ rw (e) (fails-Right _ (λ t. stuck text one a r s t e (λ k h. omega (arith, h))))
]
tested-Right text star a r p s match right =
    tries-Right text star a r s s _ (match p) (star-Covers text a s) right
tested-Right text plus a r p s match right =
    elim (Bool-cases (run text (test a) (length text - s) s == 0)) [
      | inl e ↦ rw (e) (fails-Right _ (λ t. no-run text a r s t (ground arith)))
      | inr e ↦
          rw (e) (tries-Right text plus a r s (s + 1) _ (match p) (plus-Covers text a s) right)
    ]
tested-Right text cond a r p s match right =
    tries-Right text cond a r s s _ (match p) (cond-Covers text a s) right

any-Right :
    (text : List ℕ) (q : Quantifier) (r : List Item) (s : ℕ) (match : List ℕ → ℕ → Option ℕ)
    → ((u : ℕ) → Right (Matches text r u) (match (encode r) u))
    → Right
        (Matches text (item q any ∷ r) s)
        (take_step match (step text (encode (item q any ∷ r)) s))
unfolding step encode take_step
any-Right text one r s match right = elim (Bool-cases (ltb s (length text))) [
  | inl e ↦ rw (e) (
      goes-Right text any r s (match (encode r) (s + 1)) (passes-any text s (below e))
        (right (s + 1)))
  | inr e ↦ rw (e) (fails-Right _ (no-any text r s (above e)))
]
any-Right text star r s match right =
    tries-Right text star any r s s _ (match (encode r)) (any-star-Covers text s) right
any-Right text plus r s match right =
    tries-Right text plus any r s (s + 1) _ (match (encode r)) (any-plus-Covers text s) right
any-Right text cond r s match right =
    tries-Right text cond any r s s _ (match (encode r)) (any-cond-Covers text s) right

item-Right :
    (text : List ℕ) (q : Quantifier) (a : Atom) (r : List Item) (s : ℕ)
    (match : List ℕ → ℕ → Option ℕ)
    → IsShortAtom a
    → ((u : ℕ) → Right (Matches text r u) (match (encode r) u))
    → Right (Matches text (item q a ∷ r) s) (take_step match (step text (encode (item q a ∷ r)) s))
item-Right text q any r s match low right = any-Right text q r s match right
item-Right text q (chr c) r s match low right =
    rw (step-chr text q c r s) (tested-Right text q (chr c) r (encode r) s match right)
item-Right text q (set cs) r s match low right =
    rw (step-set text q cs r s low) (tested-Right text q (set cs) r (encode r) s match right)

some-inj : {s t : ℕ} → Path (Option ℕ) (some s) (some t) → s ≡ t
some-inj e = ground arith

nil-Right :
    (text : List ℕ) (s : ℕ) (match : List ℕ → ℕ → Option ℕ)
    → Right (Matches text [] s) (take_step match (step text (encode []) s))
unfolding step encode take_step Matches
nil-Right text s match = elim (Bool-cases (ltb (length text) s)) [
  | inl e ↦ rw (e) (fails-Right _ (λ t (_, le). let lt = below e in omega arith))
  | inr e ↦ rw (e) (λ t found. (some-inj found, above e), λ lost. absurd (ground arith))
]

end-Right :
    (text : List ℕ) (r : List Item) (s : ℕ) (match : List ℕ → ℕ → Option ℕ)
    → Right (Matches text r s) (match (encode r) s)
    → Right (Matches text (at_end ∷ r) s) (take_step match (step text (encode (at_end ∷ r)) s))
unfolding step encode take_step Matches
end-Right text r s match (sound, complete) = elim (Bool-cases (s == length text)) [
  | inl e ↦ rw (e) (λ t found. (ground arith, sound t found), λ lost t (_, m). complete lost t m)
  | inr e ↦ rw (e) (fails-Right _ (λ t (here, _). ground arith))
]

amatch-Right :
    (text : List ℕ) (items : List Item) (fuel s : ℕ)
    → AreShort items
    → length items < fuel
    → Right (Matches text items s) (amatch text fuel (encode items) s)
unfolding amatch
amatch-Right text items zero s w h = absurd (omega arith)
amatch-Right text [] (suc n) s w h = nil-Right text s (amatch text n)
amatch-Right text (at_end ∷ r) (suc n) s w h =
    end-Right text r s (amatch text n) (amatch-Right text r n s w (omega (arith, h)))
amatch-Right text (item q a ∷ r) (suc n) s (low, w) h =
    item-Right text q a r s (amatch text n) low (λ u. amatch-Right text r n u w (omega (arith, h)))

-- On the compiled form of a list of items whose sets have fewer than 255 bytes, with more fuel
-- than there are items, AMatch at a position returns an end that the items match up to, by the
-- meaning of characters, sets, any character, the end of the text, and the repetitions *, +
-- and ?; or it returns none, and the items match up to no end.
pub amatch_lem :
    (text : List ℕ) (items : List Item) (fuel s : ℕ)
    → AreShort items
    → length items < fuel
    → let r = amatch text fuel (encode items) s in
      ((t : ℕ) × (r ≡ some t) × Matches text items s t)
      ⊎ ((r ≡ none) × ((t : ℕ) → ¬ Matches text items s t))
amatch_lem text items fuel s w h =
    let (sound, complete) = amatch-Right text items fuel s w h in
    elim (Option-cases (amatch text fuel (encode items) s)) [
      | inl lost ↦ inr (lost, complete lost)
      | inr (t, found) ↦ inl (t, found, sound t found)
    ]
