-- ===== src/Value.antt =====
-- src/Value.hpp, ValueType.hpp, Error.hpp, Data.hpp, detail/ValueTraits.hpp: values as typed byte
-- arrays. Bytes are in little-endian order, the order of the machines that the library is built for;
-- a float or a double is its bit pattern, as memcpy sees it.
pub mod Bits
pub mod RoundTrip
mod Tests
use libkvs.Prelude.{
  ℕ, zero, suc, ◌-◌, ◌+◌, ◌*◌, ◌^◌, ◌/◌, ◌%◌, Bytes, Bool, ◌==◌, List, [], ◌∷◌, Option, none, some,
  ltb, length, if◌then◌else◌,
}
use libkvs.Prelude.Int.{ℤ, pos, negsuc}
use libkvs.Value.Bits.{to_bytes, from_bytes, pattern_of, signed_of}

-- `unnamed` is a byte that names no enumerator, which a cast can produce.
pub data ValueType : Type 0 where
  k_undefined k_int32 k_uint32 k_int64 k_uint64 k_float k_double k_string k_data : ValueType
  unnamed : ℕ → ValueType

-- `static_cast<uint8_t>(valueType)` and back
unfoldable pub to_ubyte : ValueType → ℕ
to_ubyte k_undefined = 0
to_ubyte k_int32 = 1
to_ubyte k_uint32 = 2
to_ubyte k_int64 = 3
to_ubyte k_uint64 = 4
to_ubyte k_float = 5
to_ubyte k_double = 6
to_ubyte k_string = 7
to_ubyte k_data = 8
to_ubyte (unnamed n) = n

unfoldable pub of_ubyte : ℕ → ValueType
of_ubyte zero = k_undefined
of_ubyte (suc zero) = k_int32
of_ubyte (suc (suc zero)) = k_uint32
of_ubyte (suc (suc (suc zero))) = k_int64
of_ubyte (suc (suc (suc (suc zero)))) = k_uint64
of_ubyte (suc (suc (suc (suc (suc zero))))) = k_float
of_ubyte (suc (suc (suc (suc (suc (suc zero)))))) = k_double
of_ubyte (suc (suc (suc (suc (suc (suc (suc zero))))))) = k_string
of_ubyte (suc (suc (suc (suc (suc (suc (suc (suc zero)))))))) = k_data
of_ubyte n = unnamed n

-- `operator!=` of the enumeration compares the underlying bytes.
abbrev pub same_type : ValueType → ValueType → Bool
same_type a b = to_ubyte a == to_ubyte b

pub record Value : Type 0 where
  pub raw_value : Bytes
  pub type : ValueType

abbrev pub undefined_value : Value
undefined_value = record { raw_value = []; type = k_undefined }

-- The C++ values that a `Value` is made of, one constructor for each specialisation of ValueTraits.
pub data Content : Type 0 where
  int32 int64 : ℤ → Content
  uint32 uint64 float_bits double_bits : ℕ → Content
  string data_buffer : Bytes → Content

-- The type of each specialisation.
unfoldable pub type_of : Content → ValueType
type_of (int32 z) = k_int32
type_of (uint32 n) = k_uint32
type_of (int64 z) = k_int64
type_of (uint64 n) = k_uint64
type_of (float_bits n) = k_float
type_of (double_bits n) = k_double
type_of (string s) = k_string
type_of (data_buffer s) = k_data

-- `setValue`: `resize(sizeof(T))` and memcpy.
primitive_value : ℕ → ℕ → ValueType → Value
primitive_value size bits value_type = record { raw_value = to_bytes size bits; type = value_type }

unfoldable pub of_content : Content → Value
unfolding primitive_value
of_content (int32 z) = primitive_value 4 (pattern_of (2 ^ 32) z) k_int32
of_content (uint32 n) = primitive_value 4 n k_uint32
of_content (int64 z) = primitive_value 8 (pattern_of (2 ^ 64) z) k_int64
of_content (uint64 n) = primitive_value 8 n k_uint64
of_content (float_bits n) = primitive_value 4 n k_float
of_content (double_bits n) = primitive_value 8 n k_double
of_content (string s) = record { raw_value = s; type = k_string }
of_content (data_buffer s) = record { raw_value = s; type = k_data }

-- What `getValue<T>` ends in: a value, the exception ValueTypeMismatch with the expected and the
-- actual type, or a read past the end of an array that is too short, which is undefined.
pub data Got : Type 0 where
  got : Content → Got
  type_mismatch : ValueType → ValueType → Got
  out_of_bounds : Got

read_bits : ℕ → (ℕ → Content) → Bytes → Got
read_bits size make raw =
    if ltb (length raw) size then out_of_bounds else got (make (from_bytes size raw))

decode : ValueType → Bytes → Got
unfolding read_bits
decode k_int32 raw = read_bits 4 (λ n. int32 (signed_of (2 ^ 32) n)) raw
decode k_uint32 raw = read_bits 4 uint32 raw
decode k_int64 raw = read_bits 8 (λ n. int64 (signed_of (2 ^ 64) n)) raw
decode k_uint64 raw = read_bits 8 uint64 raw
decode k_float raw = read_bits 4 float_bits raw
decode k_double raw = read_bits 8 double_bits raw
decode k_string raw = got (string raw)
decode k_data raw = got (data_buffer raw)
decode other raw = out_of_bounds

-- `getValue<T>` with `expected` for the type of T.
unfoldable pub get_value : ValueType → Value → Got
unfolding decode to_ubyte
get_value expected v =
    if same_type v.type expected then decode expected v.raw_value else type_mismatch expected v.type
