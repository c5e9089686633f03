-- ===== src/MatchPat/Pattern.antt =====
-- The MatchPattern instruction (source/core/MatchPat.cpp): an expression is compiled, and searched for in
-- a text.
pub mod Parts
pub mod Meaning
use vireo_sdk.Common.{ℕ, List}
use vireo_sdk.Common.Int.{ℤ}
use vireo_sdk.MatchPat.Search.{Result, match_pat}
use vireo_sdk.MatchPat.Make.{make_pat}

unfoldable pub match_pattern : List ℕ → List ℕ → ℤ → Result
unfolding match_pat make_pat
match_pattern text expression offset = match_pat (make_pat expression) text offset
