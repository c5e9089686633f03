-- ===== src/Common/Cuts.antt =====
-- A write to a list seen through `take`, `drop` and `++`, and the rotation of a list.
use Prim.Native.Nat.{ℕ, zero, suc, ◌+◌, ◌-◌, ◌%◌, ◌≤◌, ◌<◌}
use mathlib.Core.Path.{◌≡◌, refl, ap, sym, ◌∙◌}
use mathlib.Core.List.{List, [], ◌∷◌, ◌++◌, append-nil, append_assoc}
use mathlib.Core.Logic.{◌⊎◌, inl, inr}
use mathlib.Core.Option.{some}
use native.Mathlib.Omega.{arith}
use native.Mathlib.Nat.{mod-eq_of_lt, mod-eq-sub-mod}
use native.Mathlib.Decide.{dec_lt}
use vireo_sdk.Common.Tests.{◌==◌, if◌then◌else◌}
use vireo_sdk.Common.Lists.{
  length, get_elem?, set, take, drop, length-append, length-take, length-drop, take-length,
  drop-length, take-append_le, drop-append_add, drop-eq-cons, take-suc, get_elem?-append_lt,
  get_elem?-append_ge, get_elem?-drop, get_elem?-take_lt,
}

-- The step of an index round a ring of `n` places.
pub suc-mod : (b n : ℕ) → b < n → (b + 1) % n ≡ (if b + 1 == n then 0 else b + 1)
suc-mod b n h = ground (
  arith,
  mod-eq_of_lt {n = b + 1} {m = n},
  mod-eq-sub-mod {n = b + 1} {m = n},
  mod-eq_of_lt {n = b + 1 - n} {m = n},
)

-- An index below `2 * n`, brought back into the ring.
pub add-mod : (k n : ℕ) → k < n + n → ((k < n) × (k % n ≡ k)) ⊎ ((n ≤ k) × (k % n ≡ k - n))
add-mod k n h = elim (dec_lt k n) [
  | yes p ↦ inl (p, mod-eq_of_lt p)
  | no p ↦ inr (
    omega arith,
    omega (
      arith,
      mod-eq-sub-mod {n = k} {m = n} (omega arith),
      mod-eq_of_lt {n = k - n} {m = n} (omega arith),
    ),
  )
]

module _ {ℓ} {A : Type ℓ} where
  pub drop-set_add :
      (f : ℕ) (xs : List A) (c : ℕ) (v : A) → drop f (set xs (f + c) v) ≡ set (drop f xs) c v
  drop-set_add zero xs c v = let e : zero + c ≡ c = omega arith in rw e
  drop-set_add (suc f) [] c v = refl
  drop-set_add (suc f) (x ∷ xs) c v =
      let e : suc f + c ≡ suc (f + c) = omega arith in rw e (drop-set_add f xs c v)

  pub take-set_ge : (f : ℕ) (xs : List A) (i : ℕ) (v : A) → f ≤ i → take f (set xs i v) ≡ take f xs
  take-set_ge zero xs i v h = refl
  take-set_ge (suc f) [] i v h = refl
  take-set_ge (suc f) (x ∷ xs) zero v h = absurd (omega arith)
  take-set_ge (suc f) (x ∷ xs) (suc i) v h = ap (◌∷◌ x) (take-set_ge f xs i v (omega arith))

  pub drop-set_lt : (f : ℕ) (xs : List A) (i : ℕ) (v : A) → i < f → drop f (set xs i v) ≡ drop f xs
  drop-set_lt zero xs i v h = absurd (omega arith)
  drop-set_lt (suc f) [] i v h = refl
  drop-set_lt (suc f) (x ∷ xs) zero v h = refl
  drop-set_lt (suc f) (x ∷ xs) (suc i) v h = drop-set_lt f xs i v (omega arith)

  pub take-set_lt :
      (f : ℕ) (xs : List A) (i : ℕ) (v : A) → i < f → take f (set xs i v) ≡ set (take f xs) i v
  take-set_lt zero xs i v h = absurd (omega arith)
  take-set_lt (suc f) [] i v h = refl
  take-set_lt (suc f) (x ∷ xs) zero v h = refl
  take-set_lt (suc f) (x ∷ xs) (suc i) v h = ap (◌∷◌ x) (take-set_lt f xs i v (omega arith))

  pub set-append_lt :
      (xs ys : List A) (i : ℕ) (v : A) → i < length xs → set (xs ++ ys) i v ≡ set xs i v ++ ys
  set-append_lt [] ys i v h = absurd (omega arith)
  set-append_lt (x ∷ xs) ys zero v h = refl
  set-append_lt (x ∷ xs) ys (suc i) v h = ap (◌∷◌ x) (set-append_lt xs ys i v (omega arith))

  pub set-append_add :
      (xs ys : List A) (j : ℕ) (v : A) → set (xs ++ ys) (length xs + j) v ≡ xs ++ set ys j v
  set-append_add [] ys j v = let e : 0 + j ≡ j = omega arith in rw e
  set-append_add (x ∷ xs) ys j v =
      let e : suc (length xs) + j ≡ suc (length xs + j) = omega arith in
      rw e (ap (◌∷◌ x) (set-append_add xs ys j v))

  pub take-set_self :
      (xs : List A) (c : ℕ) (v : A)
      → c < length xs
      → take (suc c) (set xs c v) ≡ take c xs ++ v ∷ []
  take-set_self [] c v h = absurd (omega arith)
  take-set_self (x ∷ xs) zero v h = refl
  take-set_self (x ∷ xs) (suc c) v h = ap (◌∷◌ x) (take-set_self xs c v (omega arith))

  pub drop-append_self : (p d : List A) (f : ℕ) → length p ≡ f → drop f (p ++ d) ≡ d
  drop-append_self p d f h =
      let e : f - length p ≡ 0 = omega arith in rw (drop-append_add f p d (omega arith), e)

  pub take-append_self : (p d : List A) (f : ℕ) → length p ≡ f → take f (p ++ d) ≡ p
  take-append_self p d f h = rw (take-append_le f p d (omega arith)) (take-length f p (omega arith))

  pub set-append_self :
      (p d : List A) (f : ℕ) (y v : A) → length p ≡ f → set (p ++ y ∷ d) f v ≡ p ++ v ∷ d
  set-append_self [] d zero y v h = refl
  set-append_self [] d (suc f) y v h = absurd (omega arith)
  set-append_self (x ∷ p) d zero y v h = absurd (omega arith)
  set-append_self (x ∷ p) d (suc f) y v h = ap (◌∷◌ x) (set-append_self p d f y v (omega arith))

  -- The elements from place `f` on, then those before it.
  abbrev pub rotate : ℕ → List A → List A
  rotate f xs = drop f xs ++ take f xs

  pub length-rotate : (f : ℕ) (xs : List A) → length (rotate f xs) ≡ length xs
  length-rotate f xs =
      omega (arith, length-append (drop f xs) (take f xs), length-drop f xs, length-take f xs)

  pub rotate-length : (xs : List A) → rotate (length xs) xs ≡ rotate 0 xs
  rotate-length xs = rw (
    drop-length (length xs) xs (omega arith),
    take-length (length xs) xs (omega arith),
    append-nil,
  )

  -- One step of the rotation moves the first element to the end.
  pub rotate-step :
      (f g : ℕ) (xs : List A)
      → f < length xs
      → (f + 1) % length xs ≡ g
      → (x : A) × (ys : List A) × (get_elem? xs f ≡ some x)
        × (rotate f xs ≡ x ∷ ys)
        × (rotate g xs ≡ ys ++ x ∷ [])
  rotate-step f g xs h e =
      let (x, at, cut) = drop-eq-cons xs f h in
      let next : rotate (suc f) xs ≡ (drop (suc f) xs ++ take f xs) ++ x ∷ [] =
        rw (take-suc xs f x at, append_assoc) in
      (x, drop (suc f) xs ++ take f xs, at, ap (λ l. l ++ take f xs) cut, turned next)
    where
      turned : {ys : List A} → rotate (suc f) xs ≡ ys → rotate g xs ≡ ys
      turned next = elim (dec_lt (f + 1) (length xs)) [
        | yes p ↦
            let there : g ≡ suc f = omega (arith, mod-eq_of_lt {n = f + 1} {m = length xs} p) in
            rw there next
        | no p ↦
            let end : suc f ≡ length xs = omega arith in
            let start : g ≡ 0 = ground (arith, suc-mod f (length xs) h) in
            rw start (sym (rotate-length xs) ∙ ap (λ k. rotate k xs) (sym end) ∙ next)
      ]

  -- A write at `c` places after `f`, going round.
  pub rotate-set :
      (f c : ℕ) (xs : List A) (v : A)
      → f < length xs
      → c < length xs
      → rotate f (set xs ((f + c) % length xs) v) ≡ set (rotate f xs) c v
  rotate-set f c xs v hf hc = elim (add-mod (f + c) (length xs) (omega arith)) [
    | inl (before, at) ↦
        rw (at, drop-set_add f xs c v, take-set_ge f xs (f + c) v (omega arith))
          (sym (set-append_lt (drop f xs) (take f xs) c v (omega (arith, length-drop f xs))))
    | inr (past, at) ↦
        let j = f + c - length xs in
        let place : c ≡ length (drop f xs) + j = omega (arith, length-drop f xs) in
        rw (at, drop-set_lt f xs j v (omega arith), take-set_lt f xs j v (omega arith))
          (sym (ap (λ k. set (rotate f xs) k v) place ∙ set-append_add (drop f xs) (take f xs) j v))
  ]

  -- A list opened at `f` for an element, rotated to just behind that element, and to it.
  pub rotate-insert_behind :
      (f : ℕ) (xs : List A) (y x : A)
      → f ≤ length xs
      → rotate (suc f) (set (take f xs ++ y ∷ drop f xs) f x) ≡ rotate f xs ++ x ∷ []
  rotate-insert_behind f xs y x h =
      let len : length (take f xs) ≡ f = omega (arith, length-take f xs) in
      let len' : length (take f xs ++ x ∷ []) ≡ suc f =
        omega (arith, length-append (take f xs) (x ∷ []), length-take f xs) in
      let regroup : take f xs ++ x ∷ drop f xs ≡ (take f xs ++ x ∷ []) ++ drop f xs =
        sym (append_assoc (take f xs) (x ∷ []) (drop f xs)) in
      rw
        (
          set-append_self (take f xs) (drop f xs) f y x len,
          regroup,
          drop-append_self (take f xs ++ x ∷ []) (drop f xs) (suc f) len',
          take-append_self (take f xs ++ x ∷ []) (drop f xs) (suc f) len',
        )
        (sym (append_assoc (drop f xs) (take f xs) (x ∷ [])))

  pub rotate-insert_before :
      (f : ℕ) (xs : List A) (y x : A)
      → f ≤ length xs
      → rotate f (set (take f xs ++ y ∷ drop f xs) f x) ≡ x ∷ rotate f xs
  rotate-insert_before f xs y x h =
      let len : length (take f xs) ≡ f = omega (arith, length-take f xs) in
      rw (
        set-append_self (take f xs) (drop f xs) f y x len,
        drop-append_self (take f xs) (x ∷ drop f xs) f len,
        take-append_self (take f xs) (x ∷ drop f xs) f len,
      )

  -- Place `i` of the rotation is `i` places after `f`, going round.
  pub get_elem?-rotate :
      (f i : ℕ) (xs : List A)
      → f < length xs
      → i < length xs
      → get_elem? (rotate f xs) i ≡ get_elem? xs ((f + i) % length xs)
  get_elem?-rotate f i xs hf hi = elim (add-mod (f + i) (length xs) (omega arith)) [
    | inl (before, at) ↦
        rw (at, get_elem?-append_lt (drop f xs) (take f xs) i (omega (arith, length-drop f xs)))
          (get_elem?-drop f xs i)
    | inr (past, at) ↦
        let e : i - length (drop f xs) ≡ f + i - length xs = omega (arith, length-drop f xs) in
        rw (at, get_elem?-append_ge (drop f xs) (take f xs) i (omega (arith, length-drop f xs)), e)
          (get_elem?-take_lt f xs (f + i - length xs) (omega arith))
  ]
