-- ===== src/Value/RoundTrip.antt =====
-- What comes back from a value.
use libkvs.Prelude.{
  ℕ, ◌∙◌, ap, subst, ◌-◌, sym, suc, ◌≡◌, ◌≢◌, ◌<◌, ◌^◌, ◌*◌, refl, true, arith, ==_iff, ◌↔◌,
  Bool-cases, inl, inr, Bytes,
}
use libkvs.Value.{
  ValueType, to_ubyte, of_ubyte, same_type, Value, Content, int32, int64, uint32, uint64,
  float_bits, double_bits, string, data_buffer, type_of, of_content, got, type_mismatch, read_bits,
  decode, get_value, k_undefined, unnamed,
}
use libkvs.Prelude.Int.{ℤ}
use libkvs.Value.Bits.{
  to_bytes, pattern_of, signed_of, length-to_bytes, from_bytes-to_bytes, InRange, pattern_of-lt,
  signed_of-pattern_of,
}

-- The values that the C++ type of each constructor has.
abbrev pub IsContent : Content → Type 0
IsContent (int32 z) = InRange (2 ^ 32) z
IsContent (int64 z) = InRange (2 ^ 64) z
IsContent (uint32 n) = n < 2 ^ 32
IsContent (uint64 n) = n < 2 ^ 64
IsContent (float_bits n) = n < 2 ^ 32
IsContent (double_bits n) = n < 2 ^ 64
IsContent (string s) = Unit
IsContent (data_buffer s) = Unit

read_bits-to_bytes :
    (size n : ℕ) (make : ℕ → Content)
    → n < 256 ^ size
    → read_bits size make (to_bytes size n) ≡ got (make n)
unfolding read_bits
read_bits-to_bytes size n make h =
    ground (arith, length-to_bytes size n, from_bytes-to_bytes size n)

read_signed :
    (size half : ℕ) (make : ℤ → Content) (z : ℤ)
    → 256 ^ size ≡ 2 * half
    → 0 < half
    → InRange (2 * half) z
    → read_bits size (λ n. make (signed_of (2 * half) n)) (to_bytes size (pattern_of (2 * half) z))
      ≡ got (make z)
read_signed size half make z e p h =
    read_bits-to_bytes size (pattern_of (2 * half) z) _ (rw e (pattern_of-lt half z p))
    ∙ ap (λ (x : ℤ). got (make x)) (signed_of-pattern_of half z p h)

-- `getValue<T>` of a value made from a T gives that T back.
pub get_value-of_content :
    (c : Content) → IsContent c → get_value (type_of c) (of_content c) ≡ got c
unfolding get_value of_content type_of
get_value-of_content (int32 z) h = read_signed 4 (2 ^ 31) int32 z refl (omega arith) h
get_value-of_content (int64 z) h = read_signed 8 (2 ^ 63) int64 z refl (omega arith) h
get_value-of_content (uint32 n) h = read_bits-to_bytes 4 n uint32 h
get_value-of_content (uint64 n) h = read_bits-to_bytes 8 n uint64 h
get_value-of_content (float_bits n) h = read_bits-to_bytes 4 n float_bits h
get_value-of_content (double_bits n) h = read_bits-to_bytes 8 n double_bits h
get_value-of_content (string s) h = refl
get_value-of_content (data_buffer s) h = refl

-- A type that a byte of its own stands for.
abbrev pub IsType : ValueType → Type 0
IsType (unnamed n) = 8 < n
IsType _ = Unit

pub of_ubyte-to_ubyte : (t : ValueType) → IsType t → of_ubyte (to_ubyte t) ≡ t
unfolding of_ubyte to_ubyte
of_ubyte-to_ubyte (unnamed n) h =
    let e : suc (suc (suc (suc (suc (suc (suc (suc (suc (n - 9))))))))) ≡ n = omega arith in
    subst (λ x. of_ubyte x ≡ unnamed x) e refl
of_ubyte-to_ubyte _ h = refl

same_type_iff : (a b : ValueType) → IsType a → IsType b → (same_type a b ≡ true) ↔ (a ≡ b)
same_type_iff a b ha hb = (
  λ e. sym (of_ubyte-to_ubyte a ha) ∙ ap of_ubyte ((==_iff _ _).0 e) ∙ of_ubyte-to_ubyte b hb,
  λ e. (==_iff _ _).1 (ap to_ubyte e),
)

decode-ne : (t : ValueType) (bs : Bytes) (a b : ValueType) → decode t bs ≢ type_mismatch a b
unfolding decode read_bits
decode-ne k_undefined bs a b e = cc
decode-ne (unnamed n) bs a b e = cc
decode-ne _ bs a b e = ground arith

-- `getValue<T>` throws, with the expected and the actual type, exactly when the two differ, each
-- being an enumerator or a byte that names none.
pub get_value_mismatch :
    (expected : ValueType) (v : Value)
    → IsType expected
    → IsType v.type
    → (get_value expected v ≡ type_mismatch expected v.type) ↔ (expected ≢ v.type)
get_value_mismatch t v ht hv = elim (Bool-cases (same_type v.type t)) [
  | inl e ↦ (
    λ m. absurd (decode-ne t v.raw_value t v.type (unfold get_value in ground arith)),
    λ d. absurd (d (sym ((same_type_iff v.type t hv ht).0 e))),
  )
  | inr e ↦
      (λ m d. cc (sym e ∙ (same_type_iff v.type t hv ht).1 (sym d)), λ d. unfold get_value in rw e)
]
