-- ===== src/Key.antt =====
-- src/Key.hpp, KeysRange.hpp, Status.hpp, Record.hpp: keys with their time to live, ranges of keys,
-- the status of an operation, and the record that a storage keeps for a key.
pub mod TimeToLive
mod Tests
use libkvs.Prelude.{
  ℕ, ◌-◌, ◌+◌, ◌^◌, Bytes, Bool, true, false, List, Option, some, none, if◌then◌else◌,
}
use libkvs.Prelude.Int.{ℤ, pos, negsuc, ltb_ℤ, ◌+ℤ◌, ◌-ℤ◌}
use libkvs.Value.{ValueType, Value}

-- std::numeric_limits<int64_t>::max()
abbrev pub int64_max : ℤ
int64_max = pos (2 ^ 63 - 1)

pub record Key : Type 0 where
  pub key : Bytes
  pub path : Bytes
  pub expiration_timestamp_ms : ℤ

-- Key(key, path)
abbrev pub permanent : Bytes → Bytes → Key
permanent key path = record { key = key; path = path; expiration_timestamp_ms = int64_max }

-- Key(key, path, timeToLiveMs), with the reading of the clock. The arithmetic is that of ℤ;
-- `expiration_bounds` says where it is that of int64_t.
unfoldable pub expiring : ℤ → Bytes → Bytes → ℤ → Key
expiring now_ms key path time_to_live_ms =
    if ltb_ℤ (int64_max -ℤ now_ms) time_to_live_ms
    then permanent key path
    else record { key = key; path = path; expiration_timestamp_ms = now_ms +ℤ time_to_live_ms }

-- Keys: the request for a range
pub record Keys : Type 0 where
  pub path : Bytes
  pub index_from : ℕ
  pub keys_count : ℕ

-- KeysRange: the answer
pub record KeysRange : Type 0 where
  pub keys : List Bytes

pub data FailReason : Type 0 where
  k_ok k_node_not_found k_key_not_found : FailReason

unfoldable pub is_ok : FailReason → Bool
is_ok k_ok = true
is_ok _ = false

-- A status together with what the operation has written to its output parameter.
pub record Outcome (A : Type 0) : Type 0 where
  pub status : FailReason
  pub output : Option A

abbrev pub succeed : {A : Type 0} → A → Outcome A
succeed a = record { status = k_ok; output = some a }

abbrev pub fail : {A : Type 0} → FailReason → Outcome A
fail reason = record { status = reason; output = none }

pub record Record : Type 0 where
  pub value_type : ValueType
  pub raw_value : Bytes
  pub creation_timestamp_ms : ℤ
  pub expiration_timestamp_ms : ℤ
