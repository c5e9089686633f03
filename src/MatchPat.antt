-- ===== src/MatchPat.antt =====
-- The pattern matcher of the MatchPattern instruction (source/core/MatchPat.cpp): AMatch, InSet, LexClass
-- and the search of MatchPat. A compiled pattern and a text are lists of bytes, a pointer into the text
-- is a position, which may lie behind its end, and the rest of a pattern stands for a pointer into it.
-- Reading behind the end of a pattern fails.
pub mod Runs
pub mod Semantics
pub mod Search
pub mod Make
pub mod Pattern
use vireo_sdk.Common.{
  ℕ, zero, suc, ◌+◌, ◌-◌, Bool, true, false, not, ◌&&◌, ◌||◌, Option, none, some, List, [], ◌∷◌,
  ◌==◌, if◌then◌else◌, ltb, leb, length, get_elem?, take, drop,
}

abbrev pub m_eof : ℕ
m_eof = 0

abbrev pub m_star : ℕ
m_star = 1

abbrev pub m_plus : ℕ
m_plus = 2

abbrev pub m_cond : ℕ
m_cond = 4

abbrev pub m_bol : ℕ
m_bol = 88

abbrev pub m_any : ℕ
m_any = 40

abbrev pub m_eos : ℕ
m_eos = 32

abbrev pub m_chr : ℕ
m_chr = 96

abbrev pub m_ccl : ℕ
m_ccl = 48

in_range : ℕ → ℕ → ℕ → Bool
in_range low high c = leb low c && leb c high

-- LexClass: the classes of the table, by their ranges.
unfoldable pub lex_class : ℕ → ℕ
unfolding in_range
lex_class c =
    if leb 128 c
    then 0
    else if in_range 48 57 c
    then 3
    else if in_range 65 90 c
    then 4
    else if in_range 97 122 c
    then 5
    else if in_range 9 13 c || (c == 32)
    then 2
    else if ltb c 32 || (c == 127)
    then 1
    else 6

-- The test for a range of a set: both ends are digits, capitals or small letters.
unfoldable pub is_span : ℕ → ℕ → ℕ → Bool
unfolding lex_class
is_span a dash b =
    (dash == 45)
    && leb a b
    && leb 3 (lex_class a)
    && leb (lex_class a) 5
    && (lex_class a == lex_class b)

-- The loop of InSet over what is left of the set.
unfoldable pub scan_set : Bool → ℕ → List ℕ → Bool
unfolding is_span
scan_set sense c [] = sense
scan_set sense c (a ∷ []) = if c == a then not sense else sense
scan_set sense c (a ∷ b ∷ []) =
    let rest = scan_set sense c (b ∷ []) in if c == a then not sense else rest
scan_set sense c (a ∷ b ∷ d ∷ s) =
    let behind = scan_set sense c s in
    let rest = scan_set sense c (b ∷ d ∷ s) in
    if is_span a b d
    then if leb a c && leb c d then not sense else behind
    else if c == a
    then not sense
    else rest

-- InSet: a set that begins with `^` (94) has no control characters, one with `~` (126) may.
unfoldable pub in_set : ℕ → List ℕ → Bool
unfolding scan_set
in_set c [] = false
in_set c (a ∷ s) =
    if (a == 94) || (a == 126)
    then if ltb c 32 && (a == 94) then false else scan_set true c s
    else scan_set false c (a ∷ s)

-- Whether the byte at a position of the text passes a test; behind the end none does.
abbrev pub passes : (ℕ → Bool) → Option ℕ → Bool
passes test none = false
passes test (some c) = test c

-- The loop that counts the bytes from `s` on that pass the test; its fuel is what is left of the text.
unfoldable pub run : List ℕ → (ℕ → Bool) → ℕ → ℕ → ℕ
run text test zero s = 0
run text test (suc n) s =
    let rest = run text test n (s + 1) in if passes test (get_elem? text s) then suc rest else 0

-- What AMatch does at a byte of the pattern: it fails, it accepts up to a position, it goes on with the
-- rest of the pattern at a position, or it tries the rest at the positions from the second number down
-- to the first.
pub data Step : Type 0 where
  fails : Step
  accepts : ℕ → Step
  goes_on : List ℕ → ℕ → Step
  tries : List ℕ → ℕ → ℕ → Step

-- The four cases for a character or a set.
unfoldable pub step_one : List ℕ → (ℕ → Bool) → List ℕ → ℕ → Step
step_one text test p s = if passes test (get_elem? text s) then goes_on p (s + 1) else fails

unfoldable pub step_star : List ℕ → (ℕ → Bool) → List ℕ → ℕ → Step
unfolding run
step_star text test p s = tries p s (s + run text test (length text - s) s)

unfoldable pub step_plus : List ℕ → (ℕ → Bool) → List ℕ → ℕ → Step
unfolding run
step_plus text test p s =
    let n = run text test (length text - s) s in if n == 0 then fails else tries p (s + 1) (s + n)

unfoldable pub step_cond : List ℕ → (ℕ → Bool) → List ℕ → ℕ → Step
step_cond text test p s = tries p s (if passes test (get_elem? text s) then s + 1 else s)

-- The character, or the set with its length, that follows in the pattern, and the rest of it.
unfoldable pub with_chr : ((ℕ → Bool) → List ℕ → Step) → List ℕ → Step
with_chr k [] = fails
with_chr k (c ∷ p) = k (◌== c) p

unfoldable pub with_set : ((ℕ → Bool) → List ℕ → Step) → List ℕ → Step
unfolding in_set
with_set k [] = fails
with_set k (n ∷ p) = k (λ c. in_set c (take (n - 1) p)) (drop n (n ∷ p))

unfoldable pub step : List ℕ → List ℕ → ℕ → Step
unfolding step_one step_star step_plus step_cond with_chr with_set
step text [] s = fails
step text (c ∷ p) s =
    if c == m_eof
    then if ltb (length text) s then fails else accepts s
    else if c == m_chr
    then with_chr (λ test p'. step_one text test p' s) p
    else if c == m_any
    then if ltb s (length text) then goes_on p (s + 1) else fails
    else if c == m_eos
    then if s == length text then goes_on p s else fails
    else if c == m_ccl
    then with_set (λ test p'. step_one text test p' s) p
    else if c == m_any + m_star
    then tries p s (length text)
    else if c == m_chr + m_star
    then with_chr (λ test p'. step_star text test p' s) p
    else if c == m_ccl + m_star
    then with_set (λ test p'. step_star text test p' s) p
    else if c == m_any + m_plus
    then tries p (s + 1) (length text)
    else if c == m_chr + m_plus
    then with_chr (λ test p'. step_plus text test p' s) p
    else if c == m_ccl + m_plus
    then with_set (λ test p'. step_plus text test p' s) p
    else if c == m_any + m_cond
    then tries p s (s + 1)
    else if c == m_chr + m_cond
    then with_chr (λ test p'. step_cond text test p' s) p
    else if c == m_ccl + m_cond
    then with_set (λ test p'. step_cond text test p' s) p
    else fails

abbrev pub or_else : Option ℕ → Option ℕ → Option ℕ
or_else none r = r
or_else (some t) r = some t

-- The star loop, over the `n` positions from `low` on, the last first.
unfoldable pub star_loop : (ℕ → Option ℕ) → ℕ → ℕ → Option ℕ
star_loop match low zero = none
star_loop match low (suc n) = or_else (match (low + n)) (star_loop match low n)

unfoldable pub take_step : (List ℕ → ℕ → Option ℕ) → Step → Option ℕ
unfolding star_loop
take_step match fails = none
take_step match (accepts s) = some s
take_step match (goes_on p s) = match p s
take_step match (tries p low high) = star_loop (match p) low (high + 1 - low)

-- AMatch: the position behind the match. The fuel counts the parts of the pattern.
unfoldable pub amatch : List ℕ → ℕ → List ℕ → ℕ → Option ℕ
unfolding step take_step
amatch text zero p s = none
amatch text (suc n) p s = take_step (amatch text n) (step text p s)
