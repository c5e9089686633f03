-- ===== src/MatchPat/Make/Written.antt =====
-- The expression that a list of items is written as, and that MakePat compiles it to the items.
use vireo_sdk.Common.{
  ℕ, zero, suc, ◌+◌, ◌%◌, ◌^◌, ◌≤◌, ◌<◌, ◌≡◌, ◌≢◌, Bool, true, false, Option, none, some, List, [],
  ◌∷◌, ◌++◌, ◌==◌, if◌then◌else◌, length, set, get_elem?, arith, refl, ap, ◌∙◌, Bool-cases, inl,
  inr, ◌||◌, append_assoc, length-append,
}
use vireo_sdk.MatchPat.{m_eof, m_bol, m_eos}
use vireo_sdk.MatchPat.Semantics.{
  Atom, any, chr, Quantifier, one, star, plus, cond, Item, at_end, item, atom_code, quantifier_code,
  payload, encode,
}
use vireo_sdk.MatchPat.Make.{
  scan_for_backslash, char_length, set_chars, Making, regular, repeated, or_bit, make_one,
  make_loop, make_pat,
}
use vireo_sdk.MatchPat.Make.Bounds.{one-IsRound, make_loop-fuel}

abbrev pub special : ℕ → Bool
special c =
    (c == 94)
    || (c == 46)
    || (c == 42)
    || (c == 43)
    || (c == 63)
    || (c == 36)
    || (c == 92)
    || (c == 91)

-- In front of the rest of the expression.
unfoldable pub write_atom : Atom → List ℕ → List ℕ
write_atom any s = 46 ∷ s
write_atom (chr c) s = if special c then 92 ∷ c ∷ s else c ∷ s
write_atom (Atom.set cs) s = 91 ∷ cs ++ 93 ∷ s

abbrev pub write_quantifier : Quantifier → List ℕ → List ℕ
write_quantifier one s = s
write_quantifier star s = 42 ∷ s
write_quantifier plus s = 43 ∷ s
write_quantifier cond s = 63 ∷ s

unfoldable pub write : List Item → List ℕ
unfolding write_atom
write [] = []
write (at_end ∷ r) = 36 ∷ write r
write (item q a ∷ r) = write_atom a (write_quantifier q (write r))

-- No `]` and no backslash.
abbrev pub AreSetChars : List ℕ → Type 0
AreSetChars [] = Unit
AreSetChars (c ∷ cs) = (c ≢ 93) × (c ≢ 92) × AreSetChars cs

abbrev pub IsWritableAtom : Atom → Type 0
IsWritableAtom any = Unit
IsWritableAtom (chr c) = c < 128
IsWritableAtom (Atom.set cs) = (length cs < 255) × AreSetChars cs

-- Characters are ASCII, sets are short, and the end of the text stands at the end.
abbrev pub IsWritable : List Item → Type 0
IsWritable [] = Unit
IsWritable (at_end ∷ []) = Unit
IsWritable (at_end ∷ i ∷ r) = ⊥
IsWritable (item q a ∷ r) = IsWritableAtom a × IsWritable r

-- The loop with enough fuel.
abbrev made : List ℕ → List ℕ → Option ℕ → List ℕ
made s out last = make_loop (length s) s out last

made-one :
    (c : ℕ) (s out : List ℕ) (last : Option ℕ) (r : Making)
    → make_one c s out last ≡ r
    → made (c ∷ s) out last ≡ made r.rest r.out r.last
unfolding make_loop
made-one c s out last r e =
    let (shorter, _) = one-IsRound c s out last in
    ap (λ x. make_loop (length s) x.rest x.out x.last) e
    ∙ make_loop-fuel (length s) (length r.rest) r.rest r.out r.last
        (let less : length r.rest ≤ length s = omega (arith, shorter, ap (λ x. length x.rest) e) in
          less)
        (omega arith)

set_chars-write :
    (fuel : ℕ) (cs s : List ℕ)
    → AreSetChars cs
    → length cs < fuel
    → set_chars fuel (cs ++ 93 ∷ s) ≡ (cs, s)
unfolding set_chars
set_chars-write zero cs s a h = absurd (omega arith)
set_chars-write (suc fuel) [] s a h = refl
set_chars-write (suc fuel) (c ∷ cs) s (no_end, no_escape, a) h =
    let plain : (c == 93) ≡ false = ground arith in
    let plain' : (c == 92) ≡ false = ground arith in
    rw (set_chars, plain, plain', set_chars-write fuel cs s a (omega arith)) refl

scan-special : (c : ℕ) (s : List ℕ) → special c ≡ true → scan_for_backslash (c ∷ s) ≡ (c, s)
unfolding scan_for_backslash
scan-special c s h = ground arith

plain-one :
    (c : ℕ) (s out : List ℕ) (last : Option ℕ)
    → c < 128
    → special c ≡ false
    → make_one c s out last ≡ regular c s out (some (length out))
unfolding make_one char_length
plain-one c s out last low h = ground arith

escaped-one :
    (c : ℕ) (s out : List ℕ) (last : Option ℕ)
    → special c ≡ true
    → make_one 92 (c ∷ s) out last ≡ regular c s out (some (length out))
unfolding make_one char_length
escaped-one c s out last h = rw (scan-special c s h) refl

set-one :
    (cs s out : List ℕ) (last : Option ℕ)
    → length cs < 255
    → AreSetChars cs
    → make_one 91 (cs ++ 93 ∷ s) out last ≡ record {
      rest = s;
      out = out ++ 48 ∷ suc (length cs) % 2 ^ 8 ∷ cs;
      last = some (length out);
    }
unfolding make_one char_length
set-one cs s out last low w =
    let size : length cs < length (cs ++ 93 ∷ s) = omega (arith, length-append cs (93 ∷ s)) in
    let read = set_chars-write (length (cs ++ 93 ∷ s)) cs s w size in
    let byte : (length cs + 1) % 2 ^ 8 ≡ suc (length cs) % 2 ^ 8 = omega arith in
    rw (read, byte) refl

atom-one :
    (a : Atom) (s out : List ℕ) (last : Option ℕ)
    → IsWritableAtom a
    → made (write_atom a s) out last ≡ made s (out ++ atom_code a ∷ payload a) (some (length out))
unfolding write_atom make_one char_length
atom-one any s out last w =
    made-one 46 s out last (record { rest = s; out = out ++ 40 ∷ []; last = some (length out) })
      refl
atom-one (chr c) s out last w = elim (Bool-cases (special c)) [
  | inl e ↦ rw e (
      made-one 92 (c ∷ s) out last (regular c s out (some (length out)))
        (escaped-one c s out last e))
  | inr e ↦
      rw e
        (made-one c s out last (regular c s out (some (length out))) (plain-one c s out last w e))
]
atom-one (Atom.set cs) s out last (low, w) =
    made-one 91 (cs ++ 93 ∷ s) out last
      (record {
        rest = s;
        out = out ++ 48 ∷ suc (length cs) % 2 ^ 8 ∷ cs;
        last = some (length out);
      })
      (set-one cs s out last low w)

get-mid : (out : List ℕ) (b : ℕ) (s : List ℕ) → get_elem? (out ++ b ∷ s) (length out) ≡ some b
get-mid [] b s = refl
get-mid (x ∷ out) b s = get-mid out b s

set-mid : (out : List ℕ) (b v : ℕ) (s : List ℕ) → set (out ++ b ∷ s) (length out) v ≡ out ++ v ∷ s
set-mid [] b v s = refl
set-mid (x ∷ out) b v s = ap (λ l. x ∷ l) (set-mid out b v s)

or-code :
    (q : Quantifier) (a : Atom)
    → q ≢ one
    → or_bit (quantifier_code q) (atom_code a) ≡ atom_code a + quantifier_code q
or-code one a h = absurd (h refl)
or-code star any h = refl
or-code star (chr c) h = refl
or-code star (Atom.set cs) h = refl
or-code plus any h = refl
or-code plus (chr c) h = refl
or-code plus (Atom.set cs) h = refl
or-code cond any h = refl
or-code cond (chr c) h = refl
or-code cond (Atom.set cs) h = refl

repeated-one :
    (q : Quantifier) (a : Atom) (c : ℕ) (s out : List ℕ)
    → q ≢ one
    → repeated (quantifier_code q) c s (out ++ atom_code a ∷ payload a) (some (length out))
      ≡ record { rest = s; out = out ++ (atom_code a + quantifier_code q) ∷ payload a; last = none }
repeated-one q a c s out h =
    let b = atom_code a in
    rw (get-mid out b (payload a)) (
      ap (λ o. record { rest = s; out = o; last = none })
        (set-mid out b (or_bit (quantifier_code q) b) (payload a)
          ∙ ap (λ v. out ++ v ∷ payload a) (or-code q a h)))

quantified :
    (q : Quantifier) (a : Atom) (s out : List ℕ)
    → (last : Option ℕ) × (made
          (write_quantifier q s)
          (out ++ atom_code a ∷ payload a)
          (some (length out))
        ≡ made s (out ++ (atom_code a + quantifier_code q) ∷ payload a) last)
unfolding make_one char_length
quantified one a s out =
    (some (length out), ap (λ v. made s (out ++ v ∷ payload a) (some (length out))) (omega arith))
quantified star a s out = (none, made-one 42 s _ _ _ (repeated-one star a 42 s out (λ e. cc)))
quantified plus a s out = (none, made-one 43 s _ _ _ (repeated-one plus a 43 s out (λ e. cc)))
quantified cond a s out = (none, made-one 63 s _ _ _ (repeated-one cond a 63 s out (λ e. cc)))

bol-one :
    (s : List ℕ) → make_one 94 s [] none ≡ record { rest = s; out = m_bol ∷ []; last = some 0 }
unfolding make_one char_length
bol-one s = refl

compiled :
    (items : List Item) (out : List ℕ) (last : Option ℕ)
    → IsWritable items
    → made (write items) out last ++ m_eof ∷ [] ≡ out ++ encode items
unfolding write encode make_loop make_one char_length
compiled [] out last w = refl
compiled (at_end ∷ []) out last w = append_assoc out (m_eos ∷ []) (m_eof ∷ [])
compiled (at_end ∷ i ∷ r) out last w = absurd w
compiled (item q a ∷ r) out last (here, w) =
    let (last', e) = quantified q a (write r) out in
    let code = atom_code a + quantifier_code q in
    ap (λ l. l ++ m_eof ∷ []) (atom-one a (write_quantifier q (write r)) out last here ∙ e)
    ∙ (compiled r (out ++ code ∷ payload a) last' w
        ∙ append_assoc out (code ∷ payload a) (encode r))

-- MakePat compiles the written form of a list of items, with ASCII characters, sets of fewer
-- than 255 bytes without ] and backslash, and $ only at the end, to the encoding of the items,
-- and to the start mark and the encoding where ^ stands in front.
pub make_pat-write :
    (items : List Item)
    → IsWritable items
    → (make_pat (write items) ≡ encode items) × (make_pat (94 ∷ write items) ≡ m_bol ∷ encode items)
unfolding make_pat
make_pat-write items w = (
  compiled items [] none w,
  ap (λ l. l ++ m_eof ∷ [])
        (made-one 94 (write items) [] none
          (record { rest = write items; out = m_bol ∷ []; last = some 0 }) (bol-one (write items)))
      ∙ compiled items (m_bol ∷ []) (some 0) w,
)
