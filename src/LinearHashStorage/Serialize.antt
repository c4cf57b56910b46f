-- ===== src/LinearHashStorage/Serialize.antt =====
-- How a record is written to a bucket of the file, and read back. The `Buffer` of libs/index-cpp is a
-- parameter.
use libkvs.Prelude.{ℕ, ◌≡◌, ◌<◌, ◌^◌, Bytes, Option, none, some, ◌++◌, append_assoc, length}
use libkvs.Prelude.Int.{ℤ}
use libkvs.Value.{to_ubyte, of_ubyte}
use libkvs.Value.RoundTrip.{IsType, of_ubyte-to_ubyte}
use libkvs.Key.{Record}
use libkvs.Key.TimeToLive.{IsInt64}

-- A `put` appends bytes; a `get` takes them off the front, and fails where too few are left.
pub record Buffer : Type 0 where
  pub put_uint64 : ℕ → Bytes
  pub put_int64 : ℤ → Bytes
  pub put_ubyte : ℕ → Bytes
  pub put_bytes : Bytes → Bytes
  pub get_uint64 : Bytes → Option (ℕ × Bytes)
  pub get_int64 : Bytes → Option (ℤ × Bytes)
  pub get_ubyte : Bytes → Option (ℕ × Bytes)
  pub get_bytes : ℕ → Bytes → Option (Bytes × Bytes)

-- What was put comes back.
pub record BufferLaws (B : Buffer) : Type 0 where
  pub get-put_uint64 :
      (n : ℕ) (rest : Bytes) → n < 2 ^ 64 → B.get_uint64 (B.put_uint64 n ++ rest) ≡ some (n, rest)
  pub get-put_int64 :
      (z : ℤ) (rest : Bytes) → IsInt64 z → B.get_int64 (B.put_int64 z ++ rest) ≡ some (z, rest)
  pub get-put_ubyte :
      (n : ℕ) (rest : Bytes) → n < 256 → B.get_ubyte (B.put_ubyte n ++ rest) ≡ some (n, rest)
  pub get-put_bytes :
      (bs rest : Bytes) → B.get_bytes (length bs) (B.put_bytes bs ++ rest) ≡ some (bs, rest)

infixl 5 ◌>>=◌
abbrev ◌>>=◌ {ℓ κ} : {A : Type ℓ} {B : Type κ} → Option A → (A → Option B) → Option B
none >>= f = none
some a >>= f = f a

module _ (B : Buffer) where
  unfoldable pub serialize : Bytes → Record → Bytes
  serialize key value =
      B.put_uint64 (length key)
      ++ (B.put_bytes key
          ++ (B.put_ubyte (to_ubyte value.value_type)
              ++ (B.put_int64 value.creation_timestamp_ms
                  ++ (B.put_int64 value.expiration_timestamp_ms
                      ++ (B.put_uint64 (length value.raw_value) ++ B.put_bytes value.raw_value)))))

  -- The key, the record and what is left in the buffer.
  unfoldable pub deserialize : Bytes → Option ((Bytes × Record) × Bytes)
  deserialize buffer = do
    (key_size, buffer) ← B.get_uint64 buffer
    (key, buffer) ← B.get_bytes key_size buffer
    (value_type, buffer) ← B.get_ubyte buffer
    (creation_time, buffer) ← B.get_int64 buffer
    (expiration_time, buffer) ← B.get_int64 buffer
    (value_size, buffer) ← B.get_uint64 buffer
    (raw_value, buffer) ← B.get_bytes value_size buffer
    some (
      (
        key,
        record {
          value_type = of_ubyte value_type;
          raw_value = raw_value;
          creation_timestamp_ms = creation_time;
          expiration_timestamp_ms = expiration_time;
        },
      ),
      buffer,
    )

-- The records that the formats of the fields can hold.
pub record IsStorable (key : Bytes) (r : Record) : Type 0 where
  pub key_size : length key < 2 ^ 64
  pub type_named : IsType r.value_type
  pub type_byte : to_ubyte r.value_type < 256
  pub creation : IsInt64 r.creation_timestamp_ms
  pub expiration : IsInt64 r.expiration_timestamp_ms
  pub value_size : length r.raw_value < 2 ^ 64

-- A record whose fields fit their formats is read back with its key after it was written, whatever
-- follows it in the buffer, if the buffer reads back single numbers and byte arrays.
pub deserialize-serialize :
    (B : Buffer) (L : BufferLaws B) (key : Bytes) (r : Record) (rest : Bytes)
    → IsStorable key r
    → deserialize B (serialize B key r ++ rest) ≡ some ((key, r), rest)
unfolding deserialize serialize
deserialize-serialize B L key r rest h = simp (
  append_assoc, L.get-put_uint64, L.get-put_bytes, L.get-put_ubyte, L.get-put_int64,
  of_ubyte-to_ubyte, h.key_size, h.type_named, h.type_byte, h.creation, h.expiration, h.value_size,
)
