-- ===== src/MatchPat/Make/Bounds.antt =====
-- MakePat reads all of the expression, and stays in the memory that it has resized the pattern to.
use vireo_sdk.Common.{
  ℕ, zero, suc, ◌+◌, ◌-◌, ◌*◌, ◌%◌, ◌^◌, ◌≤◌, ◌≡◌, Bool, true, false, Option, none, some, List, [],
  ◌∷◌, ◌++◌, ◌==◌, if◌then◌else◌, ltb, length, take, drop, get_elem?, arith, refl, length-append,
  length-take, length-drop, length-set, ◌&&◌,
}
use vireo_sdk.MatchPat.{m_star, m_plus, m_cond, m_any, m_eos}
use vireo_sdk.MatchPat.Make.{
  scan_for_backslash, second_digit, char_length, as_chars, set_chars, Making, regular, repeated,
  or_at, make_set, make_one, make_loop, make_pat, is_empty,
}

second-le : (d : ℕ) (s : List ℕ) → length (second_digit d s).1 ≤ length s
second-le d [] = omega arith
second-le d (c ∷ s) = ground arith

scan-le : (s : List ℕ) → length (scan_for_backslash s).1 ≤ length s
unfolding scan_for_backslash
scan-le [] = omega arith
scan-le (c ∷ s) = ground (arith, second-le (c - 48) s, second-le (c - 55) s)

set_chars-le :
    (fuel : ℕ) (s : List ℕ) → length (set_chars fuel s).0 + length (set_chars fuel s).1 ≤ length s
unfolding set_chars
set_chars-le zero s = omega arith
set_chars-le (suc fuel) [] = omega arith
set_chars-le (suc fuel) (c ∷ s) =
    ground (arith, scan-le s, set_chars-le fuel (scan_for_backslash s).1, set_chars-le fuel s)

-- A round takes a byte at least, and writes two bytes for each at most.
abbrev pub IsRound : ℕ → List ℕ → List ℕ → Making → Type 0
IsRound c s out r =
    (length r.rest ≤ length s)
    × (length r.out + 2 * length r.rest ≤ length out + 2 * (length s + 1))

regular-IsRound :
    (c b : ℕ) (s s' out : List ℕ) (last : Option ℕ)
    → length s' ≤ length s
    → IsRound c s out (regular b s' out last)
regular-IsRound c b s s' out last h = (h, omega (arith, length-append out (96 ∷ b ∷ []), h))

or_at-length : (q i : ℕ) (o : Option ℕ) (out : List ℕ) → length (or_at q i o out) ≡ length out
or_at-length q i none out = refl
or_at-length q i (some b) out = length-set out i _

repeated-IsRound :
    (q c : ℕ) (s out : List ℕ) (last : Option ℕ) → IsRound c s out (repeated q c s out last)
repeated-IsRound q c s out none = regular-IsRound c c s s out none (omega arith)
repeated-IsRound q c s out (some i) =
    (omega arith, omega (arith, or_at-length q i (get_elem? out i) out))

as_chars-length : (s : List ℕ) → length (as_chars s) ≡ 2 * length s
as_chars-length [] = omega arith
as_chars-length (c ∷ s) = omega (arith, as_chars-length s)

set-IsRound : (c : ℕ) (s out : List ℕ) → IsRound c s out (make_set s out)
set-IsRound c s out =
    let low = set_chars-le (length s) s in
    let more =
      length-append out
        (48 ∷ ((length (set_chars (length s) s).0 + 1) % 2 ^ 8) ∷ (set_chars (length s) s).0) in
    (omega (arith, low), omega (arith, low, more))

wide-IsRound :
    (c n : ℕ) (s out : List ℕ) (last : Option ℕ)
    → IsRound c s out
        (record { rest = drop n s; out = out ++ as_chars (c ∷ take n s); last = last })
wide-IsRound c n s out last =
    let wrote = length-append out (as_chars (c ∷ take n s)) in
    (
      omega (arith, length-drop n s),
      omega (arith, wrote, as_chars-length (take n s), length-take n s, length-drop n s),
    )

byte-IsRound :
    (c b : ℕ) (s out : List ℕ) (last : Option ℕ)
    → IsRound c s out (record { rest = s; out = out ++ b ∷ []; last = last })
byte-IsRound c b s out last = (omega arith, omega (arith, length-append out (b ∷ [])))

either-IsRound :
    (c : ℕ) (s out : List ℕ) (b : Bool) (x y : Making)
    → IsRound c s out x
    → IsRound c s out y
    → IsRound c s out (if b then x else y)
either-IsRound c s out true x y hx hy = hx
either-IsRound c s out false x y hx hy = hy

bol-IsRound :
    (c : ℕ) (s out : List ℕ)
    → IsRound c s out (record { rest = s; out = 88 ∷ []; last = some (length out) })
bol-IsRound c s out = (omega arith, omega arith)

pub one-IsRound :
    (c : ℕ) (s out : List ℕ) (last : Option ℕ) → IsRound c s out (make_one c s out last)
unfolding make_one
one-IsRound c s out last =
    let here = some (length out) in
    let or_else = either-IsRound c s out in
    or_else (ltb 1 (char_length c)) _ _ (wide-IsRound c (char_length c - 1) s out last) (
      or_else (c == 42) _ _ (repeated-IsRound m_star c s out last) (
        or_else (c == 43) _ _ (repeated-IsRound m_plus c s out last) (
          or_else (c == 63) _ _ (repeated-IsRound m_cond c s out last) (
            or_else ((c == 94) && is_empty out) _ _ (bol-IsRound c s out) (
              or_else (c == 46) _ _ (byte-IsRound c m_any s out here) (
                or_else ((c == 36) && is_empty s) _ _ (byte-IsRound c m_eos s out here) (
                  or_else (c == 92) _ _
                    (regular-IsRound c (scan_for_backslash s).0 s (scan_for_backslash s).1 out here
                      (scan-le s))
                    (or_else (c == 91) _ _ (set-IsRound c s out)
                      (regular-IsRound c c s s out here (omega arith))))))))))

loop-length :
    (fuel : ℕ) (s out : List ℕ) (last : Option ℕ)
    → length (make_loop fuel s out last) ≤ length out + 2 * length s
unfolding make_loop
loop-length zero s out last = omega arith
loop-length (suc fuel) [] out last = omega arith
loop-length (suc fuel) (c ∷ s) out last =
    let r = make_one c s out last in
    let (shorter, low) = one-IsRound c s out last in
    omega (arith, low, loop-length fuel r.rest r.out r.last)

-- MakePat of an expression of n bytes writes at most 2 n + 1 bytes, which is within the 2 n +
-- 10 that it resizes the pattern to.
pub length-make_pat : (s : List ℕ) → length (make_pat s) ≤ 2 * length s + 1
unfolding make_pat
length-make_pat s = omega (
  arith,
  length-append (make_loop (length s) s [] none) (0 ∷ []),
  loop-length (length s) s [] none,
)

-- As much fuel as bytes is enough.
pub make_loop-fuel :
    (fuel more : ℕ) (s out : List ℕ) (last : Option ℕ)
    → length s ≤ fuel
    → length s ≤ more
    → make_loop fuel s out last ≡ make_loop more s out last
unfolding make_loop
make_loop-fuel zero zero s out last h h' = refl
make_loop-fuel zero (suc more) [] out last h h' = refl
make_loop-fuel zero (suc more) (c ∷ s) out last h h' = absurd (omega arith)
make_loop-fuel (suc fuel) zero [] out last h h' = refl
make_loop-fuel (suc fuel) zero (c ∷ s) out last h h' = absurd (omega arith)
make_loop-fuel (suc fuel) (suc more) [] out last h h' = refl
make_loop-fuel (suc fuel) (suc more) (c ∷ s) out last h h' =
    let r = make_one c s out last in
    let (shorter, _) = one-IsRound c s out last in
    make_loop-fuel fuel more r.rest r.out r.last (omega (arith, shorter)) (omega (arith, shorter))
