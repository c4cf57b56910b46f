-- ===== src/TimeUtils.antt =====
-- src/utility/TimeUtils.cpp: getTimestampMs. `now` is the count of the system clock since its epoch, and
-- the clock makes `ticks_per_ms` ticks in a millisecond. `duration_cast` rounds towards 0.
use libkvs.Prelude.{ℕ, suc, ◌/◌, ◌<◌, ◌≤◌, ◌+◌, ◌≡◌, arith}
use libkvs.Prelude.Int.{ℤ, pos, negsuc, sub_ℕ, ◌≤ℤ◌, pos_part, neg_part}
use native.Mathlib.Nat.{le-div_iff_mul-le, div-mul-le_self}

unfoldable pub get_timestamp_ms : ℕ → ℤ → ℤ
get_timestamp_ms ticks_per_ms (pos now) = pos (now / ticks_per_ms)
get_timestamp_ms ticks_per_ms (negsuc n) = sub_ℕ 0 (suc n / ticks_per_ms)

div-le : (a b k : ℕ) → 0 < k → a ≤ b → a / k ≤ b / k
div-le a b k h le = (le-div_iff_mul-le h).1 (omega (arith, div-mul-le_self a k, le))

neg_parts : (x : ℕ) → pos_part (sub_ℕ 0 x) + x ≡ neg_part (sub_ℕ 0 x)
neg_parts x = ground arith

-- A later reading of the clock gives no earlier time.
pub get_timestamp_ms-le :
    (ticks_per_ms : ℕ) (a b : ℤ)
    → 0 < ticks_per_ms
    → a ≤ℤ b
    → get_timestamp_ms ticks_per_ms a ≤ℤ get_timestamp_ms ticks_per_ms b
unfolding get_timestamp_ms
get_timestamp_ms-le k (pos a) (pos b) h le = ground (arith, div-le a b k h (omega (arith, le)))
get_timestamp_ms-le k (negsuc a) (pos b) h le = omega (arith, neg_parts (suc a / k))
get_timestamp_ms-le k (pos a) (negsuc b) h le = absurd (omega (arith, le))
get_timestamp_ms-le k (negsuc a) (negsuc b) h le = omega (
  arith,
  neg_parts (suc a / k),
  neg_parts (suc b / k),
  div-le (suc b) (suc a) k h (omega (arith, le)),
)
