-- ===== src/Timestamp.antt =====
-- Timestamps (source/core/Timestamp.cpp, source/include/Timestamp.h): seconds as a signed integer and a
-- fraction in units of 2^-64. Both are of 64 bits and wrap
-- round.
pub mod Value
use vireo_sdk.Common.{ℕ, ◌+◌, ◌-◌, ◌%◌, ◌^◌, Bool, ◌&&◌, ◌||◌, ◌==◌, if◌then◌else◌, ltb}
use vireo_sdk.Common.Int.{ℤ, pos, wrap_int, ltb_ℤ, eqb_ℤ, ◌+ℤ◌, ◌-ℤ◌}

pub record Timestamp : Type 0 where
  pub integer : ℤ
  pub fraction : ℕ

-- Addition and subtraction of a whole number of seconds.
unfoldable pub add_seconds : Timestamp → ℤ → Timestamp
unfolding ◌+ℤ◌ wrap_int
add_seconds t n = record t { integer = wrap_int 64 (t.integer +ℤ n) }

unfoldable pub sub_seconds : Timestamp → ℤ → Timestamp
unfolding ◌-ℤ◌ wrap_int
sub_seconds t n = record t { integer = wrap_int 64 (t.integer -ℤ n) }

unfoldable pub add : Timestamp → Timestamp → Timestamp
unfolding ◌+ℤ◌ wrap_int
add t u =
    let f = (t.fraction + u.fraction) % 2 ^ 64 in
    let i = wrap_int 64 (t.integer +ℤ u.integer) in
    record { integer = if ltb f t.fraction then wrap_int 64 (i +ℤ pos 1) else i; fraction = f }

unfoldable pub sub : Timestamp → Timestamp → Timestamp
unfolding ◌-ℤ◌ wrap_int
sub t u =
    let f = (t.fraction + 2 ^ 64 - u.fraction) % 2 ^ 64 in
    let i = wrap_int 64 (t.integer -ℤ u.integer) in
    record { integer = if ltb t.fraction f then wrap_int 64 (i -ℤ pos 1) else i; fraction = f }

abbrev pub equal : Timestamp → Timestamp → Bool
equal t u = eqb_ℤ t.integer u.integer && (t.fraction == u.fraction)

abbrev pub greater : Timestamp → Timestamp → Bool
greater t u = ltb_ℤ u.integer t.integer || (eqb_ℤ t.integer u.integer && ltb u.fraction t.fraction)

abbrev pub less : Timestamp → Timestamp → Bool
less t u = ltb_ℤ t.integer u.integer || (eqb_ℤ t.integer u.integer && ltb t.fraction u.fraction)

abbrev pub greater_or_equal : Timestamp → Timestamp → Bool
greater_or_equal t u = greater t u || equal u t

abbrev pub less_or_equal : Timestamp → Timestamp → Bool
less_or_equal t u = less t u || equal u t
