-- ===== src/Key/TimeToLive.antt =====
-- When a key with a time to live expires.
use libkvs.Prelude.{◌≡◌, ◌-◌, ◌^◌, Bytes, arith}
use libkvs.Prelude.Int.{ℤ, pos, negsuc, ◌≤ℤ◌, ◌<ℤ◌, ◌+ℤ◌, ◌-ℤ◌, +ℤ_parts, -ℤ_parts}
use libkvs.Key.{int64_max, expiring}

abbrev pub int64_min : ℤ
int64_min = negsuc (2 ^ 63 - 1)

abbrev pub IsInt64 : ℤ → Type 0
IsInt64 z = (int64_min ≤ℤ z) × (z ≤ℤ int64_max)

-- For a clock that does not read before 1970 and an int64_t time to live, every number that the
-- constructor computes is an int64_t. The key expires after its time to live, or never if that does
-- not fit.
pub expiration_bounds :
    (now ttl : ℤ) (key path : Bytes)
    → pos 0 ≤ℤ now
    → IsInt64 now
    → IsInt64 ttl
    → let e = (expiring now key path ttl).expiration_timestamp_ms in
      IsInt64 (int64_max -ℤ now)
      × IsInt64 e
      × (now +ℤ ttl ≤ℤ int64_max → e ≡ now +ℤ ttl)
      × (int64_max <ℤ now +ℤ ttl → e ≡ int64_max)
unfolding expiring
expiration_bounds now ttl key path h n t = ground (arith, +ℤ_parts now ttl, -ℤ_parts int64_max now)
