-- ===== src/MatchPat/Pattern/Meaning.antt =====
-- MatchPattern finds the first match of an expression.
use vireo_sdk.Common.{ℕ, Option, List, [], ◌∷◌, length, ap, ◌≡◌}
use vireo_sdk.Common.Int.{ℤ}
use vireo_sdk.MatchPat.Semantics.{Item, at_end, item, any, chr, set, AreShort, encode}
use vireo_sdk.MatchPat.Search.{cut, clip, find, match_pat}
use vireo_sdk.MatchPat.Search.First.{IsFirst, find_lem}
use vireo_sdk.MatchPat.Make.Written.{write, IsWritable, make_pat-write}
use vireo_sdk.MatchPat.Pattern.{match_pattern}

-- Sets that can be written are short.
short : (items : List Item) → IsWritable items → AreShort items
short [] w = tt
short (at_end ∷ []) w = tt
short (at_end ∷ i ∷ r) w = absurd w
short (item q any ∷ r) (here, w) = (tt, short r w)
short (item q (chr c) ∷ r) (here, w) = (tt, short r w)
short (item q (set cs) ∷ r) (here, w) = (here.0, short r w)

-- On the written form of a list of items, with ASCII characters, sets of fewer than 255 bytes
-- without ] and backslash, and $ only at the end, MatchPattern gives the parts of the text
-- before, in and behind a match that begins at the first position, from the offset to before
-- the end, at which the items match, and ends at an end of a match; or it gives the whole text
-- as the first part, and the items match at no such position.
pub match_pattern-IsFirst :
    (text : List ℕ) (items : List Item) (offset : ℤ)
    → IsWritable items
    → (r : Option (ℕ × ℕ)) × (match_pattern text (write items) offset ≡ cut text r)
      × IsFirst text items (clip offset) (length text) r
unfolding match_pattern match_pat
match_pattern-IsFirst text items offset w = (
  find text (encode items) (clip offset),
  ap (λ p. cut text (find text p (clip offset))) (make_pat-write items w).0,
  find_lem text items (clip offset) (short items w),
)
