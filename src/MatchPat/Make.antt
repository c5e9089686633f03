-- ===== src/MatchPat/Make.antt =====
-- MakePat and ScanForBackslash (source/core/MatchPat.cpp): the pattern that an expression compiles to.
-- `p` stands behind the bytes that have been written, `lastP` is the index of one of them; the memory
-- for the pattern is there.
pub mod Bounds
pub mod Written
use vireo_sdk.Common.{
  ℕ, zero, suc, ◌+◌, ◌-◌, ◌*◌, ◌/◌, ◌%◌, ◌^◌, Bool, true, false, not, ◌&&◌, ◌||◌, Option, none,
  some, List, [], ◌∷◌, ◌++◌, ◌==◌, if◌then◌else◌, ltb, leb, length, take, drop, set, get_elem?,
}
use vireo_sdk.MatchPat.{m_eof, m_star, m_plus, m_cond, m_bol, m_any, m_eos, m_chr, m_ccl}

abbrev pub is_digit : ℕ → Bool
is_digit c = leb 48 c && leb c 57

abbrev pub is_capital_hex : ℕ → Bool
is_capital_hex c = leb 65 c && leb c 70

-- The second hexadecimal digit, where there is one.
abbrev pub second_digit : ℕ → List ℕ → ℕ × List ℕ
second_digit d [] = (d, [])
second_digit d (c ∷ s) =
    if is_digit c
    then (d * 16 + (c - 48), s)
    else if is_capital_hex c
    then (d * 16 + (c - 55), s)
    else (d, c ∷ s)

abbrev pub control : ℕ → ℕ
control c =
    if c == 98
    then 8
    else if c == 102
    then 12
    else if c == 110
    then 10
    else if c == 114
    then 13
    else if c == 115
    then 32
    else if c == 116
    then 9
    else c

-- ScanForBackslash, behind a backslash (92): the character, and what is left.
unfoldable pub scan_for_backslash : List ℕ → ℕ × List ℕ
scan_for_backslash [] = (92, [])
scan_for_backslash (c ∷ s) =
    if is_digit c
    then second_digit (c - 48) s
    else if is_capital_hex c
    then second_digit (c - 55) s
    else (control c, s)

-- SubString::CharLength, of a lead byte.
unfoldable pub char_length : ℕ → ℕ
char_length c =
    if leb c 127
    then 1
    else if leb 192 c && leb c 223
    then 2
    else if leb 224 c && leb c 239
    then 3
    else if leb 240 c && leb c 247
    then 4
    else 1

-- The bytes of a character of several bytes, each as a character.
abbrev pub as_chars : List ℕ → List ℕ
as_chars [] = []
as_chars (c ∷ s) = m_chr ∷ c ∷ as_chars s

-- The characters of a set, up to `]` (93), and what is left. The fuel counts them.
unfoldable pub set_chars : ℕ → List ℕ → List ℕ × List ℕ
unfolding scan_for_backslash
set_chars zero s = ([], s)
set_chars (suc fuel) [] = ([], [])
set_chars (suc fuel) (c ∷ s) =
    let escaped = scan_for_backslash s in
    let behind = set_chars fuel escaped.1 in
    let rest = set_chars fuel s in
    if c == 93
    then ([], s)
    else if c == 92
    then (escaped.0 ∷ behind.0, behind.1)
    else (c ∷ rest.0, rest.1)

-- `|=` of a bit.
abbrev pub or_bit : ℕ → ℕ → ℕ
or_bit q b = if (b / q) % 2 == 0 then b + q else b

abbrev pub or_at : ℕ → ℕ → Option ℕ → List ℕ → List ℕ
or_at q i none out = out
or_at q i (some b) out = set out i (or_bit q b)

-- What is left of the expression, the pattern, and lastP.
pub record Making : Type 0 where
  pub rest : List ℕ
  pub out : List ℕ
  pub last : Option ℕ

abbrev pub regular : ℕ → List ℕ → List ℕ → Option ℕ → Making
regular c s out last = record { rest = s; out = out ++ m_chr ∷ c ∷ []; last = last }

-- The cases `*`, `+` and `?`, with the bit for each.
abbrev pub repeated : ℕ → ℕ → List ℕ → List ℕ → Option ℕ → Making
repeated q c s out none = regular c s out none
repeated q c s out (some i) = record {
  rest = s;
  out = or_at q i (get_elem? out i) out;
  last = none;
}

abbrev pub is_empty : List ℕ → Bool
is_empty [] = true
is_empty (c ∷ s) = false

-- The case `[`: the length of the set, in a byte, stands in front of it.
abbrev pub make_set : List ℕ → List ℕ → Making
make_set s out =
    let r = set_chars (length s) s in
    record {
      rest = r.1;
      out = out ++ m_ccl ∷ ((length r.0 + 1) % 2 ^ 8) ∷ r.0;
      last = some (length out);
    }

-- One round of the loop, at the byte `c`: `*` is 42, `+` 43, `?` 63, `^` 94, `.` 46, `$` 36, `\` 92 and
-- `[` 91.
unfoldable pub make_one : ℕ → List ℕ → List ℕ → Option ℕ → Making
unfolding char_length scan_for_backslash set_chars
make_one c s out last =
    let n = char_length c in
    let here = some (length out) in
    let escaped = scan_for_backslash s in
    if ltb 1 n
    then record { rest = drop (n - 1) s; out = out ++ as_chars (c ∷ take (n - 1) s); last = last }
    else if c == 42
    then repeated m_star c s out last
    else if c == 43
    then repeated m_plus c s out last
    else if c == 63
    then repeated m_cond c s out last
    else if (c == 94) && is_empty out
    then record { rest = s; out = m_bol ∷ []; last = here }
    else if c == 46
    then record { rest = s; out = out ++ m_any ∷ []; last = here }
    else if (c == 36) && is_empty s
    then record { rest = s; out = out ++ m_eos ∷ []; last = here }
    else if c == 92
    then regular escaped.0 escaped.1 out here
    else if c == 91
    then make_set s out
    else regular c s out here

-- The loop; its fuel counts the rounds.
unfoldable pub make_loop : ℕ → List ℕ → List ℕ → Option ℕ → List ℕ
unfolding make_one
make_loop zero s out last = out
make_loop (suc fuel) [] out last = out
make_loop (suc fuel) (c ∷ s) out last =
    let r = make_one c s out last in make_loop fuel r.rest r.out r.last

unfoldable pub make_pat : List ℕ → List ℕ
unfolding make_loop
make_pat s = make_loop (length s) s [] none ++ m_eof ∷ []
