-- ===== src/MatchPat/Search.antt =====
-- MatchPat: the search for the first position of the text, from an offset on, where a compiled pattern
-- matches (source/core/MatchPat.cpp). A negative offset is 0.
pub mod First
use vireo_sdk.Common.{
  ℕ, zero, suc, ◌+◌, ◌-◌, Bool, true, false, Option, none, some, List, [], ◌∷◌, ◌==◌, if◌then◌else◌,
  length, get_elem?, take, drop,
}
use vireo_sdk.Common.Int.{ℤ, pos, negsuc}
use vireo_sdk.MatchPat.{amatch, m_bol, m_chr, passes}

-- The test before a match is tried: a pattern that begins with a character wants it.
unfoldable pub may_start : List ℕ → Option ℕ → Bool
may_start [] b = true
may_start (a ∷ []) b = true
may_start (a ∷ c ∷ p) b = if a == m_chr then passes (◌== c) b else true

abbrev pub begins : ℕ → Option ℕ → Option (ℕ × ℕ)
begins s none = none
begins s (some t) = some (s, t)

abbrev pub or_next : Option (ℕ × ℕ) → Option (ℕ × ℕ) → Option (ℕ × ℕ)
or_next none r = r
or_next (some m) r = some m

-- The loop over the `n` positions from `s` on: where the match begins and ends.
unfoldable pub search : List ℕ → List ℕ → ℕ → ℕ → Option (ℕ × ℕ)
unfolding amatch may_start
search text p zero s = none
search text p (suc n) s =
    let rest = search text p n (s + 1) in
    let here = begins s (amatch text (length p) p s) in
    if may_start p (get_elem? text s) then or_next here rest else rest

-- What MatchPat gives: the text before the match, the match, the text behind it, and where that starts.
pub record Result : Type 0 where
  pub before : List ℕ
  pub match : List ℕ
  pub after : List ℕ
  pub offset_past_match : Option ℕ

unfoldable pub cut : List ℕ → Option (ℕ × ℕ) → Result
cut text none = record { before = text; match = []; after = []; offset_past_match = none }
cut text (some (s, t)) = record {
  before = take s text;
  match = take (t - s) (drop s text);
  after = drop t text;
  offset_past_match = some t;
}

abbrev pub clip : ℤ → ℕ
clip (pos n) = n
clip (negsuc n) = 0

-- A pattern that begins with `^` is tried at the offset only.
unfoldable pub find : List ℕ → List ℕ → ℕ → Option (ℕ × ℕ)
unfolding search
find text [] s = none
find text (a ∷ p) s =
    if a == m_bol
    then begins s (amatch text (suc (length p)) p s)
    else search text (a ∷ p) (length text - s) s

unfoldable pub match_pat : List ℕ → List ℕ → ℤ → Result
unfolding find cut
match_pat p text offset = cut text (find text p (clip offset))
