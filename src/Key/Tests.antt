-- ===== src/Key/Tests.antt =====
-- Keys with a time to live, at concrete inputs.
use libkvs.Prelude.{◌≡◌, refl, bytes, arith, []}
use libkvs.Prelude.Int.{pos, ◌+ℤ◌, ◌-ℤ◌, ◌≤ℤ◌, ◌<ℤ◌}
use libkvs.Key.{expiring, int64_max}
use libkvs.Key.TimeToLive.{IsInt64, expiration_bounds}

-- A time to live that does not fit.
saturates : (expiring (pos 1000) (bytes "a") [] int64_max).expiration_timestamp_ms ≡ int64_max
unfolding expiring ◌-ℤ◌
saturates = refl

expiration_bounds_example :
    let e = (expiring (pos 1000) (bytes "a") (bytes "A") (pos 500)).expiration_timestamp_ms in
    IsInt64 (int64_max -ℤ pos 1000)
    × IsInt64 e
    × (pos 1000 +ℤ pos 500 ≤ℤ int64_max → e ≡ pos 1000 +ℤ pos 500)
    × (int64_max <ℤ pos 1000 +ℤ pos 500 → e ≡ int64_max)
expiration_bounds_example =
    expiration_bounds (pos 1000) (pos 500) (bytes "a") (bytes "A") (omega arith)
      (omega arith, omega arith) (omega arith, omega arith)
