-- ===== src/QueueNames/Fresh.antt =====
-- NewRefnumAlias finds an alias that is new.
use vireo_sdk.Common.{
  ℕ, zero, suc, ◌+◌, ◌≤◌, ◌<◌, ◌≡◌, ◌≢◌, true, false, List, [], ◌∷◌, ◌==◌, if◌then◌else◌, length,
  arith, refl, sym, ap, ◌∙◌, Bool-cases, inl, inr, ◌⊎◌,
}
use vireo_sdk.RefNum.{clone_ref_num, make_ref_num, index_from_ref_num, magic_from_ref_num}
use vireo_sdk.QueueNames.{Alias, find_alias, erase_alias, is_some, fresh_alias}

-- The clone of a clone, `k` times.
abbrev clone_at : ℕ → ℕ → ℕ
clone_at r k = make_ref_num (index_from_ref_num r) (magic_from_ref_num r + k)

clone-at : (r k : ℕ) → clone_ref_num (clone_at r k) ≡ clone_at r (suc k)
unfolding clone_ref_num
clone-at r k = omega arith

clone_apart : (r j k : ℕ) → j < k → k < j + 4096 → clone_at r j ≢ clone_at r k
clone_apart r j k h l e = omega arith

-- Every clone from the `k`-th on, `n` of them, is an alias.
abbrev AllTaken : ℕ → ℕ → ℕ → List Alias → Type 0
AllTaken r k zero al = Unit
AllTaken r k (suc n) al = (is_some (find_alias (clone_at r k) al) ≡ true) × AllTaken r (suc k) n al

pub find-erase :
    (a b : ℕ) (al : List Alias) → a ≢ b → find_alias a (erase_alias b al) ≡ find_alias a al
unfolding find_alias erase_alias
find-erase a b [] ne = refl
find-erase a b (x ∷ al) ne = let ih = find-erase a b al ne in ground arith

length-erase-le : (a : ℕ) (al : List Alias) → length (erase_alias a al) ≤ length al
unfolding erase_alias
length-erase-le a [] = omega arith
length-erase-le a (x ∷ al) = let ih = length-erase-le a al in ground arith

length-erase :
    (a : ℕ) (al : List Alias)
    → is_some (find_alias a al) ≡ true
    → length (erase_alias a al) < length al
unfolding find_alias erase_alias
length-erase a [] h = cc
length-erase a (x ∷ al) h = elim (Bool-cases (x.alias == a)) [
  | inl e ↦ rw (erase_alias, e) (omega (arith, length-erase-le a al))
  | inr e ↦
      let rest : is_some (find_alias a al) ≡ true = ground (arith, h) in
      rw (erase_alias, e) (omega (arith, length-erase a al rest))
]

-- The `k`-th clone is not among `n` later ones.
AllTaken-erase :
    (r k j n : ℕ) (al : List Alias)
    → k < j
    → j + n ≤ k + 4096
    → AllTaken r j n al
    → AllTaken r j n (erase_alias (clone_at r k) al)
AllTaken-erase r k j zero al h l t = tt
AllTaken-erase r k j (suc n) al h l (here, t) = (
  ap is_some (
        find-erase (clone_at r j) (clone_at r k) al
          (λ e. clone_apart r k j h (omega arith) (sym e)))
      ∙ here,
  AllTaken-erase r k (suc j) n al (omega arith) (omega arith) t,
)

-- So many clones take so many aliases.
AllTaken-length : (r k n : ℕ) (al : List Alias) → n ≤ 4096 → AllTaken r k n al → n ≤ length al
AllTaken-length r k zero al h t = omega arith
AllTaken-length r k (suc n) al h (here, t) =
    let less = erase_alias (clone_at r k) al in
    omega (
      arith,
      AllTaken-length r (suc k) n less (omega arith)
          (AllTaken-erase r k (suc k) n al (omega arith) (omega arith) t),
      length-erase (clone_at r k) al here,
    )

-- The loop finds an alias that is new, or has tried clones that are all taken.
fresh-or-taken :
    (r k fuel : ℕ) (al : List Alias)
    → (is_some (find_alias (fresh_alias fuel (clone_at r k) al) al) ≡ false)
      ⊎ AllTaken r (suc k) (suc fuel) al
unfolding fresh_alias
fresh-or-taken r k zero al = elim (Bool-cases (is_some (find_alias (clone_at r (suc k)) al))) [
  | inl e ↦ inr (e, tt)
  | inr e ↦ inl (rw (clone-at r k) e)
]
fresh-or-taken r k (suc fuel) al =
    elim (Bool-cases (is_some (find_alias (clone_at r (suc k)) al))) [
      | inl e ↦ elim (fresh-or-taken r (suc k) fuel al) [
        | inl new ↦ inl (rw (clone-at r k, e) new)
        | inr taken ↦ inr (e, taken)
      ]
      | inr e ↦ inl (rw (clone-at r k, e) e)
    ]

clone-fields : (r : ℕ) → clone_ref_num r ≡ clone_ref_num (clone_at r 0)
unfolding clone_ref_num
clone-fields r = omega arith

fresh-fields :
    (fuel r : ℕ) (al : List Alias) → fresh_alias fuel r al ≡ fresh_alias fuel (clone_at r 0) al
unfolding fresh_alias
fresh-fields zero r al = clone-fields r
fresh-fields (suc fuel) r al =
    ap (λ n. if is_some (find_alias n al) then fresh_alias fuel n al else n) (clone-fields r)

-- Where there are fewer than 4096 aliases, the loop of NewRefnumAlias ends after at most as
-- many rounds as there are aliases, with a refnum that is no alias yet.
pub fresh_alias-new :
    (r : ℕ) (al : List Alias)
    → length al < 4096
    → is_some (find_alias (fresh_alias (length al) r al) al) ≡ false
fresh_alias-new r al h = elim (fresh-or-taken r 0 (length al) al) [
  | inl new ↦ rw (fresh-fields (length al) r al) new
  | inr taken ↦ absurd (omega (arith, AllTaken-length r 1 (suc (length al)) al (omega arith) taken))
]
