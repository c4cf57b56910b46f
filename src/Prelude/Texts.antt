-- ===== src/Prelude/Texts.antt =====
-- std::string and std::vector<uint8_t>: lists of bytes, with `==`.
use Prim.Native.Nat.{ℕ}
use Prim.Native.Char.{code}
use Prim.Native.String.{String}
use mathlib.Core.Path.{◌≡◌, refl}
use mathlib.Core.Logic.{◌↔◌}
use mathlib.Core.Bool.{Bool, true, false, ◌&&◌}
use mathlib.Core.List.{List, [], ◌∷◌}
use native.Mathlib.Omega.{arith}
use libkvs.Prelude.Tests.{◌==◌}

abbrev pub Bytes : Type 0
Bytes = List ℕ

-- A text literal as its bytes, for ASCII texts.
abbrev pub bytes : String → Bytes
bytes String.[] = []
bytes (String.◌∷◌ c s) = code c ∷ bytes s

unfoldable pub bytes_eq : Bytes → Bytes → Bool
bytes_eq [] [] = true
bytes_eq (x ∷ xs) (y ∷ ys) = (x == y) && bytes_eq xs ys
bytes_eq _ _ = false

pub bytes_eq_iff : (xs ys : Bytes) → (bytes_eq xs ys ≡ true) ↔ (xs ≡ ys)
unfolding bytes_eq
bytes_eq_iff [] [] = (λ h. refl, λ h. refl)
bytes_eq_iff [] (y ∷ ys) = ground arith
bytes_eq_iff (x ∷ xs) [] = ground arith
bytes_eq_iff (x ∷ xs) (y ∷ ys) = ground (arith, bytes_eq_iff xs ys)

pub bytes_eq_refl : (xs : Bytes) → bytes_eq xs xs ≡ true
bytes_eq_refl xs = (bytes_eq_iff xs xs).1 refl

-- The same for lists of texts.
abbrev pub texts_eq : List Bytes → List Bytes → Bool
texts_eq [] [] = true
texts_eq (a ∷ p) (b ∷ q) = bytes_eq a b && texts_eq p q
texts_eq _ _ = false

pub texts_eq_iff : (p q : List Bytes) → (texts_eq p q ≡ true) ↔ (p ≡ q)
texts_eq_iff [] [] = (λ h. refl, λ h. refl)
texts_eq_iff [] (b ∷ q) = (λ h. absurd (cc h), λ h. absurd (cc h))
texts_eq_iff (a ∷ p) [] = (λ h. absurd (cc h), λ h. absurd (cc h))
texts_eq_iff (a ∷ p) (b ∷ q) = (
  λ h. ground (arith, bytes_eq_iff a b, texts_eq_iff p q),
  λ h. ground (arith, bytes_eq_iff a b, texts_eq_iff p q),
)
