-- ===== src/Value/Bits.antt =====
-- Numbers as arrays of bytes, and signed numbers as bit patterns.
use libkvs.Prelude.{
  ℕ, zero, suc, ◌+◌, ◌-◌, ◌*◌, ◌^◌, ◌/◌, ◌%◌, ◌<◌, ◌≡◌, refl, Bytes, [], ◌∷◌, ltb, length,
  if◌then◌else◌, arith,
}
use libkvs.Prelude.Int.{ℤ, pos, negsuc}
use native.Mathlib.Nat.{pow-suc, mod-eq_of_lt, mod-lt}

-- memcpy of a number of `size` bytes, the least byte first.
unfoldable pub to_bytes : ℕ → ℕ → Bytes
to_bytes zero n = []
to_bytes (suc size) n = (n % 256) ∷ to_bytes size (n / 256)

unfoldable pub from_bytes : ℕ → Bytes → ℕ
from_bytes zero bs = 0
from_bytes (suc size) [] = 0
from_bytes (suc size) (b ∷ bs) = b + 256 * from_bytes size bs

-- Two's complement: `modulus` is 2 ^ 32 or 2 ^ 64.
unfoldable pub pattern_of : ℕ → ℤ → ℕ
pattern_of modulus (pos n) = n % modulus
pattern_of modulus (negsuc n) = modulus - 1 - n % modulus

unfoldable pub signed_of : ℕ → ℕ → ℤ
signed_of modulus n = if ltb n (modulus / 2) then pos n else negsuc (modulus - 1 - n)

pub length-to_bytes : (size n : ℕ) → length (to_bytes size n) ≡ size
unfolding to_bytes
length-to_bytes zero n = refl
length-to_bytes (suc size) n = omega (arith, length-to_bytes size (n / 256))

pub from_bytes-to_bytes : (size n : ℕ) → n < 256 ^ size → from_bytes size (to_bytes size n) ≡ n
unfolding to_bytes from_bytes
from_bytes-to_bytes zero n h = omega arith
from_bytes-to_bytes (suc size) n h =
    omega (arith, from_bytes-to_bytes size (n / 256) (omega (arith, pow-suc 256 size)))

-- The numbers that a signed type of this modulus holds.
abbrev pub InRange : ℕ → ℤ → Type 0
InRange modulus (pos n) = n < modulus / 2
InRange modulus (negsuc n) = n < modulus / 2

pub signed_of-pattern_of :
    (half : ℕ) (z : ℤ)
    → 0 < half
    → InRange (2 * half) z
    → signed_of (2 * half) (pattern_of (2 * half) z) ≡ z
unfolding signed_of pattern_of
signed_of-pattern_of half (pos n) p h =
    let e : n % (2 * half) ≡ n = mod-eq_of_lt (omega arith) in rw e (ground arith)
signed_of-pattern_of half (negsuc n) p h =
    let e : n % (2 * half) ≡ n = mod-eq_of_lt (omega arith) in rw e (ground arith)

pub pattern_of-lt : (half : ℕ) (z : ℤ) → 0 < half → pattern_of (2 * half) z < 2 * half
unfolding pattern_of
pattern_of-lt half (pos n) h = mod-lt n (omega arith)
pattern_of-lt half (negsuc n) h = omega arith
