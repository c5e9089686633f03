-- ===== src/MatchPat/Pattern/Parts.antt =====
-- The parts of the text that MatchPattern gives back.
use vireo_sdk.Common.{
  ℕ, zero, suc, ◌+◌, ◌-◌, ◌≤◌, ◌≡◌, Bool, true, false, Option, none, some, List, [], ◌∷◌, ◌++◌,
  ◌==◌, if◌then◌else◌, ltb, length, take, drop, get_elem?, arith, refl, sym, ap, ◌∙◌, Bool-cases,
  inl, inr, take-append-drop, append-nil,
}
use vireo_sdk.Common.Int.{ℤ}
use vireo_sdk.MatchPat.{
  m_eof, m_chr, m_any, m_eos, m_ccl, m_star, m_plus, m_cond, m_bol, passes, run, Step, fails,
  accepts, goes_on, tries, step_one, step_star, step_plus, step_cond, with_chr, with_set, step,
  take_step, amatch,
}
use vireo_sdk.MatchPat.Runs.{star_loop-some}
use vireo_sdk.MatchPat.Search.{may_start, begins, or_next, search, cut, clip, find, match_pat}
use vireo_sdk.MatchPat.Make.{make_pat}
use vireo_sdk.MatchPat.Pattern.{match_pattern}

-- A step from `s` goes back nowhere, and accepts no position behind the text.
abbrev StepsUp : List ℕ → ℕ → Step → Type 0
StepsUp text s fails = Unit
StepsUp text s (accepts t) = (s ≤ t) × (t ≤ length text)
StepsUp text s (goes_on p t) = s ≤ t
StepsUp text s (tries p low high) = s ≤ low

either-up :
    (text : List ℕ) (s : ℕ) (b : Bool) (x y : Step)
    → StepsUp text s x
    → StepsUp text s y
    → StepsUp text s (if b then x else y)
either-up text s true x y hx hy = hx
either-up text s false x y hx hy = hy

eof-up : (text : List ℕ) (s : ℕ) → StepsUp text s (if ltb (length text) s then fails else accepts s)
eof-up text s = elim (Bool-cases (ltb (length text) s)) [
  | inl e ↦ rw e tt
  | inr e ↦ rw e (omega arith, ground arith)
]

chr-up :
    (text : List ℕ) (s : ℕ) (k : (ℕ → Bool) → List ℕ → Step) (p : List ℕ)
    → ((t : ℕ → Bool) (q : List ℕ) → StepsUp text s (k t q))
    → StepsUp text s (with_chr k p)
unfolding with_chr
chr-up text s k [] h = tt
chr-up text s k (c ∷ p) h = h (◌== c) p

set-up :
    (text : List ℕ) (s : ℕ) (k : (ℕ → Bool) → List ℕ → Step) (p : List ℕ)
    → ((t : ℕ → Bool) (q : List ℕ) → StepsUp text s (k t q))
    → StepsUp text s (with_set k p)
unfolding with_set
set-up text s k [] h = tt
set-up text s k (n ∷ p) h = h _ (drop n (n ∷ p))

one-up : (text : List ℕ) (s : ℕ) (t : ℕ → Bool) (q : List ℕ) → StepsUp text s (step_one text t q s)
unfolding step_one
one-up text s t q = either-up text s (passes t (get_elem? text s)) _ _ (omega arith) tt

star-up :
    (text : List ℕ) (s : ℕ) (t : ℕ → Bool) (q : List ℕ) → StepsUp text s (step_star text t q s)
unfolding step_star
star-up text s t q = omega arith

plus-up :
    (text : List ℕ) (s : ℕ) (t : ℕ → Bool) (q : List ℕ) → StepsUp text s (step_plus text t q s)
unfolding step_plus
plus-up text s t q = either-up text s (run text t (length text - s) s == 0) _ _ tt (omega arith)

cond-up :
    (text : List ℕ) (s : ℕ) (t : ℕ → Bool) (q : List ℕ) → StepsUp text s (step_cond text t q s)
unfolding step_cond
cond-up text s t q = omega arith

step-up : (text p : List ℕ) (s : ℕ) → StepsUp text s (step text p s)
unfolding step
step-up text [] s = tt
step-up text (c ∷ p) s =
    let or_else = either-up text s in
    or_else (c == m_eof) _ _ (eof-up text s) (
      or_else (c == m_chr) _ _ (chr-up text s (λ t q. step_one text t q s) p (one-up text s)) (
        or_else (c == m_any) _ _ (or_else (ltb s (length text)) _ _ (omega arith) tt) (
          or_else (c == m_eos) _ _ (or_else (s == length text) _ _ (omega arith) tt) (
            or_else (c == m_ccl) _ _ (set-up text s (λ t q. step_one text t q s) p (one-up text s))
              (or_else (c == m_any + m_star) _ _ (omega arith) (
                or_else (c == m_chr + m_star) _ _
                  (chr-up text s (λ t q. step_star text t q s) p (star-up text s))
                  (or_else (c == m_ccl + m_star) _ _
                    (set-up text s (λ t q. step_star text t q s) p (star-up text s))
                    (or_else (c == m_any + m_plus) _ _ (omega arith) (
                      or_else (c == m_chr + m_plus) _ _
                        (chr-up text s (λ t q. step_plus text t q s) p (plus-up text s))
                        (or_else (c == m_ccl + m_plus) _ _
                          (set-up text s (λ t q. step_plus text t q s) p (plus-up text s))
                          (or_else (c == m_any + m_cond) _ _ (omega arith) (
                            or_else (c == m_chr + m_cond) _ _
                              (chr-up text s (λ t q. step_cond text t q s) p (cond-up text s))
                              (or_else (c == m_ccl + m_cond) _ _
                                (set-up text s (λ t q. step_cond text t q s) p (cond-up text s))
                                tt)))))))))))))

abbrev Ends : List ℕ → ℕ → Option ℕ → Type 0
Ends text s o = (t : ℕ) → o ≡ some t → (s ≤ t) × (t ≤ length text)

take-up :
    (text : List ℕ) (s : ℕ) (match : List ℕ → ℕ → Option ℕ) (st : Step)
    → StepsUp text s st
    → ((p : List ℕ) (u : ℕ) → Ends text u (match p u))
    → Ends text s (take_step match st)
unfolding take_step
take-up text s match fails up h t e = cc
take-up text s match (accepts u) (l, r) h t e = let same : u ≡ t = cc in (omega arith, omega arith)
take-up text s match (goes_on p u) up h t e = let (l, r) = h p u t e in (omega arith, r)
take-up text s match (tries p low high) up h t e =
    let (u, l, _, found) = star_loop-some (match p) low (high + 1 - low) t e in
    let (l', r) = h p u t found in (omega arith, r)

no_end : (t : ℕ) → none ≡ some t → ⊥
no_end t e = cc

amatch-Ends : (text : List ℕ) (fuel : ℕ) (p : List ℕ) (s : ℕ) → Ends text s (amatch text fuel p s)
unfolding amatch
amatch-Ends text zero p s = λ t e. absurd (no_end t e)
amatch-Ends text (suc n) p s =
    take-up text s (amatch text n) (step text p s) (step-up text p s) (amatch-Ends text n)

-- Where a match begins and ends.
abbrev Within : List ℕ → ℕ → Option (ℕ × ℕ) → Type 0
Within text s o = (u t : ℕ) → o ≡ some (u, t) → (s ≤ u) × (u ≤ t) × (t ≤ length text)

begins-Within : (text : List ℕ) (s : ℕ) (o : Option ℕ) → Ends text s o → Within text s (begins s o)
begins-Within text s none h u t e = cc
begins-Within text s (some v) h u t e =
    let same : s ≡ u = cc in
    let same' : v ≡ t = cc in let (l, r) = h v refl in (omega arith, omega arith, omega arith)

or-Within :
    (text : List ℕ) (s : ℕ) (a b : Option (ℕ × ℕ))
    → Within text s a
    → Within text s b
    → Within text s (or_next a b)
or-Within text s none b ha hb = hb
or-Within text s (some m) b ha hb = ha

either-Within :
    (text : List ℕ) (s : ℕ) (c : Bool) (a b : Option (ℕ × ℕ))
    → Within text s a
    → Within text s b
    → Within text s (if c then a else b)
either-Within text s true a b ha hb = ha
either-Within text s false a b ha hb = hb

search-one :
    (text p : List ℕ) (s : ℕ) (rest : Option (ℕ × ℕ))
    → Within text (s + 1) rest
    → Within text s (
        if may_start p (get_elem? text s)
        then or_next (begins s (amatch text (length p) p s)) rest
        else rest)
search-one text p s rest h =
    let here = begins s (amatch text (length p) p s) in
    let later : Within text s rest = λ u t e. (let (l, m, r) = h u t e in (omega arith, m, r)) in
    either-Within text s (may_start p (get_elem? text s)) (or_next here rest) rest
      (or-Within text s here rest (begins-Within text s _ (amatch-Ends text (length p) p s)) later)
      later

search-Within : (text p : List ℕ) (n s : ℕ) → Within text s (search text p n s)
unfolding search
search-Within text p zero s u t e = cc
search-Within text p (suc n) s u t e =
    search-one text p s (search text p n (s + 1)) (search-Within text p n (s + 1)) u t e

find-Within : (text p : List ℕ) (s : ℕ) → Within text s (find text p s)
unfolding find
find-Within text [] s u t e = cc
find-Within text (a ∷ p) s u t e =
    either-Within text s (a == m_bol) (begins s (amatch text (suc (length p)) p s))
      (search text (a ∷ p) (length text - s) s)
      (begins-Within text s _ (amatch-Ends text (suc (length p)) p s))
      (search-Within text (a ∷ p) (length text - s) s) u t e

drop-nil : (n : ℕ) → drop {A = ℕ} n [] ≡ []
drop-nil zero = refl
drop-nil (suc n) = refl

the_suc : (n m : ℕ) → suc (n + m) ≡ suc n + m
the_suc n m = omega arith

drop-drop : (m n : ℕ) (xs : List ℕ) → drop m (drop n xs) ≡ drop (n + m) xs
drop-drop m zero xs = ap (λ k. drop k xs) (omega arith)
drop-drop m (suc n) [] = drop-nil m ∙ (sym (drop-nil (suc n + m)))
drop-drop m (suc n) (x ∷ xs) = drop-drop m n xs ∙ ap (λ k. drop k (x ∷ xs)) (the_suc n m)

cut-parts :
    (text : List ℕ) (o : Option (ℕ × ℕ)) (s : ℕ)
    → Within text s o
    → let r = cut text o in r.before ++ (r.match ++ r.after) ≡ text
unfolding cut
cut-parts text none s h = append-nil text
cut-parts text (some (u, t)) s h =
    let (_, l, _) = h u t refl in
    let behind : drop t text ≡ drop (t - u) (drop u text) =
      ap (λ k. drop k text) (omega arith) ∙ sym (drop-drop (t - u) u text) in
    rw behind (
      ap (λ l. take u text ++ l) (take-append-drop (t - u) (drop u text)) ∙ take-append-drop u text)

-- Whatever the text, the expression and the offset, the parts that MatchPattern gives, one
-- after the other, are the text.
pub match_pattern-parts :
    (text expression : List ℕ) (offset : ℤ)
    → let r = match_pattern text expression offset in r.before ++ (r.match ++ r.after) ≡ text
unfolding match_pattern match_pat
match_pattern-parts text expression offset =
    cut-parts text (find text (make_pat expression) (clip offset)) (clip offset)
      (find-Within text (make_pat expression) (clip offset))
