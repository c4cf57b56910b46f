-- ===== src/StringUtils.antt =====
-- src/utility/StringUtils.cpp: the prefix test and the splitting of paths.
pub mod Laws
mod Tests
use libkvs.Prelude.{
  ℕ, Bytes, Bool, true, false, List, [], ◌∷◌, ◌==◌, ◌&&◌, ltb, length, if◌then◌else◌,
}

-- std::equal(first.begin(), first.end(), second.begin()); reading past the end of the second list,
-- which the caller's size test rules out, counts as a mismatch.
equal : Bytes → Bytes → Bool
equal [] ys = true
equal (x ∷ xs) [] = false
equal (x ∷ xs) (y ∷ ys) = (x == y) && equal xs ys

unfoldable pub starts_with : Bytes → Bytes → Bool
unfolding equal
starts_with value starting =
    if ltb (length value) (length starting) then false else equal starting value

-- The piece between `start` and `next`, when the character before it is put in front.
extend_first : ℕ → List Bytes → List Bytes
extend_first c [] = (c ∷ []) ∷ []
extend_first c (piece ∷ pieces) = (c ∷ piece) ∷ pieces

-- Each separator ends a piece; the rest after the last one is a piece too.
unfoldable pub split : Bytes → ℕ → List Bytes
unfolding extend_first
split [] separator = [] ∷ []
split (c ∷ cs) separator =
    let rest = split cs separator in if c == separator then [] ∷ rest else extend_first c rest

-- The separator of paths.
abbrev pub slash : ℕ
slash = b'/'
