-- ===== src/RandomUtils.antt =====
-- src/utility/RandomUtils.cpp, and `generateString` of StringUtils.cpp. A draw of the random engine is
-- an argument: the numbers that it gives are the sequence `engine`, and a function that draws takes
-- the index of its first draw.
pub mod Strings
mod Tests
use libkvs.Prelude.{
  ℕ, zero, suc, ◌+◌, ◌-◌, ◌%◌, Bytes, bytes, Option, none, some, List, [], ◌∷◌, ltb, if◌then◌else◌,
  length,
}

-- random(from, to); `none` is the failed assertion that the interval is not empty.
unfoldable pub random_between : ℕ → ℕ → ℕ → Option ℕ
random_between draw from to = if ltb from to then some (from + draw % (to - from)) else none

-- random(to)
unfoldable pub random : ℕ → ℕ → Option ℕ
random draw to = random_between draw 0 to

-- The 62 characters of StringUtils.cpp.
abbrev pub chars : Bytes
chars = bytes "0123456789ABCDEFGHIJKLMNOPQRSTUVWXYZabcdefghijklmnopqrstuvwxyz"

-- chars[i]
abbrev pub get_or {ℓ} : {A : Type ℓ} → List A → ℕ → A → A
get_or [] i d = d
get_or (x ∷ xs) zero d = x
get_or (x ∷ xs) (suc i) d = get_or xs i d

infixl 5 ◌>>=◌
abbrev pub ◌>>=◌ {ℓ κ} : {A : Type ℓ} {B : Type κ} → Option A → (A → Option B) → Option B
none >>= f = none
some a >>= f = f a

-- getRandomChar
unfoldable pub random_char : ℕ → Option ℕ
random_char draw = random draw (length chars) >>= λ i. some (get_or chars i 0)

-- generateString: each character takes one draw.
unfoldable pub generate_string : (ℕ → ℕ) → ℕ → ℕ → Option Bytes
generate_string engine i zero = some []
generate_string engine i (suc length) =
    random_char (engine i) >>= λ c. generate_string engine (suc i) length >>= λ cs. some (c ∷ cs)
