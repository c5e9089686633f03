-- ===== src/Examples/Patterns.antt =====
-- Tests and examples of the pattern matcher.
use vireo_sdk.Common.{
  Option, ◌++◌, ◌*◌, ◌+◌, ◌≤◌, length, ℕ, ◌≡◌, refl, arith, some, none, List, [], ◌∷◌, true, ◌⊎◌,
}
use vireo_sdk.Common.Int.{negsuc, pos}
use vireo_sdk.MatchPat.{amatch, in_set, m_bol}
use vireo_sdk.MatchPat.Semantics.{Item, item, one, plus, chr, set, encode, Matches}
use vireo_sdk.MatchPat.Semantics.Correct.{amatch_lem}
use vireo_sdk.MatchPat.Search.{match_pat, cut}
use vireo_sdk.MatchPat.Search.First.{IsFirst}
use vireo_sdk.MatchPat.Make.{make_pat}
use vireo_sdk.MatchPat.Make.Bounds.{length-make_pat}
use vireo_sdk.MatchPat.Make.Written.{write, IsWritable, make_pat-write}
use vireo_sdk.MatchPat.Pattern.{match_pattern}
use vireo_sdk.MatchPat.Pattern.Parts.{match_pattern-parts}
use vireo_sdk.MatchPat.Pattern.Meaning.{match_pattern-IsFirst}

-- The pattern `[a-c]+x` and the text `zzabcxy`.
abbrev letters_then_x : List Item
letters_then_x = item plus (set (97 ∷ 45 ∷ 99 ∷ [])) ∷ item one (chr 120) ∷ []

abbrev some_text : List ℕ
some_text = 122 ∷ 122 ∷ 97 ∷ 98 ∷ 99 ∷ 120 ∷ 121 ∷ []

letters-in_set : in_set 98 (97 ∷ 45 ∷ 99 ∷ []) ≡ true
unfolding in_set
letters-in_set = refl

some_text-match_pat : match_pat (encode letters_then_x) some_text (negsuc 4) ≡ record {
  before = 122 ∷ 122 ∷ [];
  match = 97 ∷ 98 ∷ 99 ∷ 120 ∷ [];
  after = 121 ∷ [];
  offset_past_match = some 6;
}
unfolding match_pat encode
some_text-match_pat = refl

amatch_lem_example :
    let r = amatch some_text 3 (encode letters_then_x) 2 in
    ((t : ℕ) × (r ≡ some t) × Matches some_text letters_then_x 2 t)
    ⊎ ((r ≡ none) × ((t : ℕ) → ¬ Matches some_text letters_then_x 2 t))
amatch_lem_example = amatch_lem some_text letters_then_x 3 2 (omega arith, (tt, tt)) (omega arith)

-- `[a-c]+x`
abbrev an_expression : List ℕ
an_expression = 91 ∷ 97 ∷ 45 ∷ 99 ∷ 93 ∷ 43 ∷ 120 ∷ []

writable : IsWritable letters_then_x
writable = (
  (
    omega arith,
    (omega arith, omega arith, (omega arith, omega arith, (omega arith, omega arith, tt))),
  ),
  (omega arith, tt),
)

written : write letters_then_x ≡ an_expression
unfolding write
written = refl

-- A character of two bytes, between `a` and `*`: the repetition falls on the `a`.
wide-make_pat : make_pat (97 ∷ 195 ∷ 169 ∷ 42 ∷ []) ≡ 97 ∷ 97 ∷ 96 ∷ 195 ∷ 96 ∷ 169 ∷ 0 ∷ []
unfolding make_pat
wide-make_pat = refl

-- `^*`: the byte that stands for the start has the bit of the repetition.
start-make_pat : make_pat (94 ∷ 42 ∷ []) ≡ 89 ∷ 0 ∷ []
unfolding make_pat
start-make_pat = refl

make_pat-write_example :
    (make_pat (write letters_then_x) ≡ encode letters_then_x)
    × (make_pat (94 ∷ write letters_then_x) ≡ m_bol ∷ encode letters_then_x)
make_pat-write_example = make_pat-write letters_then_x writable

length-make_pat_example : length (make_pat an_expression) ≤ 2 * length an_expression + 1
length-make_pat_example = length-make_pat an_expression

match_pattern-parts_example :
    let r = match_pattern some_text an_expression (negsuc 4) in
    r.before ++ (r.match ++ r.after) ≡ some_text
match_pattern-parts_example = match_pattern-parts some_text an_expression (negsuc 4)

match_pattern-IsFirst_example :
    (r : Option (ℕ × ℕ)) × (match_pattern some_text (write letters_then_x) (pos 1)
      ≡ cut some_text r)
    × IsFirst some_text letters_then_x 1 7 r
match_pattern-IsFirst_example = match_pattern-IsFirst some_text letters_then_x (pos 1) writable
