-- ===== src/Timestamp/Value.antt =====
-- Timestamps are the integers in units of 2^-64 of a second.
use vireo_sdk.Common.{ℕ, ◌+◌, ◌*◌, ◌%◌, ◌^◌, ◌≤◌, ◌<◌, ◌≡◌, ltb, arith, Bool-cases, inl, inr}
use vireo_sdk.Common.Int.{
  ℤ, pos, negsuc, pos_part, neg_part, ltb_ℤ, ◌+ℤ◌, +ℤ_parts, eq_of_parts, sub_ℕ, wrap_int, IsInt64,
  wrap_int-64,
}
use vireo_sdk.Timestamp.{Timestamp, add, less}

abbrev pub IsValid : Timestamp → Type 0
IsValid t = (t.fraction < 2 ^ 64) × IsInt64 t.integer

plus_one-IsInt64 : (i : ℤ) → pos_part i + 1 < 2 ^ 63 → neg_part i ≤ 2 ^ 63 → IsInt64 (i +ℤ pos 1)
unfolding ◌+ℤ◌
plus_one-IsInt64 (pos n) below above = ground arith
plus_one-IsInt64 (negsuc n) below above = ground arith

value_of : ℤ → ℕ → ℤ
value_of i f = sub_ℕ (pos_part i * 2 ^ 64 + f) (neg_part i * 2 ^ 64)

-- The time in units of 2^-64 of a second.
unfoldable pub value : Timestamp → ℤ
unfolding value_of
value t = value_of t.integer t.fraction

value_of-parts :
    (i : ℤ) (f : ℕ)
    → pos_part (value_of i f) + neg_part i * 2 ^ 64
      ≡ neg_part (value_of i f) + (pos_part i * 2 ^ 64 + f)
unfolding value_of
value_of-parts i f = ground arith

value_of-add :
    (i j k : ℤ) (f g h : ℕ)
    → pos_part k * 2 ^ 64 + h + (neg_part i + neg_part j) * 2 ^ 64
      ≡ neg_part k * 2 ^ 64 + (pos_part i + pos_part j) * 2 ^ 64 + (f + g)
    → value_of k h ≡ value_of i f +ℤ value_of j g
value_of-add i j k f g h e = eq_of_parts _ _ (
    omega (
      arith,
      e,
      value_of-parts i f,
      value_of-parts j g,
      value_of-parts k h,
      +ℤ_parts (value_of i f) (value_of j g),
    ))

-- Addition of two timestamps, whose seconds are Int64 and whose fractions are below 2^64, is
-- exact in units of 2^-64 of a second where the sum of the seconds is from -2^63 to below 2^63
-- - 1, and the sum is such a timestamp.
pub value-add :
    (t u : Timestamp)
    → IsValid t
    → IsValid u
    → neg_part (t.integer +ℤ u.integer) ≤ 2 ^ 63
    → pos_part (t.integer +ℤ u.integer) + 1 < 2 ^ 63
    → IsValid (add t u) × (value (add t u) ≡ value t +ℤ value u)
unfolding add value
value-add t u vt vu above below =
    let i = t.integer +ℤ u.integer in
    let f = (t.fraction + u.fraction) % 2 ^ 64 in
    let parts = +ℤ_parts t.integer u.integer in
    let next = +ℤ_parts i (pos 1) in
    let whole : wrap_int 64 i ≡ i = wrap_int-64 i (omega (arith, below), above) in
    let fits : IsInt64 (i +ℤ pos 1) = plus_one-IsInt64 i below above in
    let after : wrap_int 64 (i +ℤ pos 1) ≡ i +ℤ pos 1 = wrap_int-64 _ fits in
    elim (Bool-cases (ltb f t.fraction)) [
      | inl e ↦
          let carried : f + 2 ^ 64 ≡ t.fraction + u.fraction = ground arith in
          rw (add, e, whole, after)
            (
              (omega arith, fits),
              value_of-add t.integer u.integer (i +ℤ pos 1) t.fraction u.fraction f
                  (omega (arith, carried, parts, next)),
            )
      | inr e ↦
          let kept : f ≡ t.fraction + u.fraction = ground arith in
          rw (add, e, whole)
            (
              (omega arith, (omega (arith, below), above)),
              value_of-add t.integer u.integer i t.fraction u.fraction f
                  (omega (arith, kept, parts)),
            )
    ]

-- For timestamps whose fractions are below 2^64, the operator < is the order of the times.
value-less : (t u : Timestamp) → IsValid t → IsValid u → less t u ≡ ltb_ℤ (value t) (value u)
unfolding value
value-less t u vt vu =
    let a = value_of-parts t.integer t.fraction in
    let b = value_of-parts u.integer u.fraction in ground (arith, a, b)
