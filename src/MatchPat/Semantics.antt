-- ===== src/MatchPat/Semantics.antt =====
-- What a compiled pattern means, independently of the matcher.
pub mod Steps
pub mod Correct
use vireo_sdk.Common.{
  ℕ, zero, suc, ◌+◌, ◌-◌, ◌%◌, ◌^◌, ◌≤◌, ◌<◌, ◌≡◌, Bool, true, false, List, [], ◌∷◌, ◌++◌, ◌==◌,
  length,
}
use vireo_sdk.MatchPat.{in_set, m_eof, m_eos, m_any, m_chr, m_ccl, m_star, m_plus, m_cond}
use vireo_sdk.MatchPat.Runs.{Reads}

pub data Atom : Type 0 where
  any : Atom
  chr : ℕ → Atom
  set : List ℕ → Atom

pub data Quantifier : Type 0 where
  one : Quantifier
  star : Quantifier
  plus : Quantifier
  cond : Quantifier

pub data Item : Type 0 where
  at_end : Item
  item : Quantifier → Atom → Item

-- The bytes of a pattern.
abbrev pub atom_code : Atom → ℕ
atom_code any = m_any
atom_code (chr c) = m_chr
atom_code (set cs) = m_ccl

abbrev pub quantifier_code : Quantifier → ℕ
quantifier_code one = 0
quantifier_code star = m_star
quantifier_code plus = m_plus
quantifier_code cond = m_cond

abbrev pub payload : Atom → List ℕ
payload any = []
payload (chr c) = c ∷ []
payload (set cs) = suc (length cs) % 2 ^ 8 ∷ cs

-- Sets whose length fits the byte.
abbrev pub IsShortAtom : Atom → Type 0
IsShortAtom any = Unit
IsShortAtom (chr c) = Unit
IsShortAtom (set cs) = length cs < 255

abbrev pub AreShort : List Item → Type 0
AreShort [] = Unit
AreShort (at_end ∷ r) = AreShort r
AreShort (item q a ∷ r) = IsShortAtom a × AreShort r

unfoldable pub encode : List Item → List ℕ
encode [] = m_eof ∷ []
encode (at_end ∷ r) = m_eos ∷ encode r
encode (item q a ∷ r) = (atom_code a + quantifier_code q) ∷ payload a ++ encode r

-- The bytes that an atom stands for.
unfoldable pub test : Atom → ℕ → Bool
test any c = true
test (chr d) c = c == d
test (set cs) c = in_set c cs

-- How often an atom may be repeated.
abbrev pub Counts : Quantifier → ℕ → Type 0
Counts one k = k ≡ 1
Counts star k = 0 ≤ k
Counts plus k = 1 ≤ k
Counts cond k = k ≤ 1

-- The items match the bytes of the text between two positions.
unfoldable pub Matches : List ℕ → List Item → ℕ → ℕ → Type 0
unfolding Reads
Matches text [] s t = (s ≡ t) × (s ≤ length text)
Matches text (at_end ∷ r) s t = (s ≡ length text) × Matches text r s t
Matches text (item q a ∷ r) s t =
    (k : ℕ) × Counts q k × Reads text (test a) s k × Matches text r (s + k) t
