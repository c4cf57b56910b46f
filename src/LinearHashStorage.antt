-- ===== src/LinearHashStorage.antt =====
-- src/linear_hashing/LinearHashStorage.cpp: a storage over one hash table of libs/index-cpp, which is
-- a parameter here. The locks that the operations take on the storage are in `Locks`.
pub mod Table
pub mod Contract
pub mod Locks
pub mod Serialize
pub mod Construction
pub mod Sample
mod Tests
use libkvs.Prelude.{
  ℕ, ◌≡◌, Bytes, Bool, not, Option, none, some, false, true, List, ◌&&◌, if◌then◌else◌,
}
use libkvs.Prelude.Int.{ℤ, ltb_ℤ}
use libkvs.Value.{Value}
use libkvs.Key.{
  Key, Keys, KeysRange, FailReason, k_ok, k_key_not_found, Outcome, succeed, fail, Record,
}
use libkvs.Storage.{StorageImpl}
use libkvs.LinearHashStorage.Table.{HashTable}

module _ (T : HashTable) where
  -- `record.getExpirationTimestampMs() < now`
  abbrev pub is_expired : ℤ → Record → Bool
  is_expired now r = ltb_ℤ r.expiration_timestamp_ms now

  unfoldable pub answer_of : ℤ → Option Record → Outcome Value
  answer_of now none = fail k_key_not_found
  answer_of now (some r) =
      if is_expired now r
      then fail k_key_not_found
      else succeed (record { raw_value = r.raw_value; type = r.value_type })

  unfoldable pub get_value : ℤ → T.Table → Key → Outcome Value
  unfolding answer_of
  get_value now t key = answer_of now (T.find t key.key)

  -- The old record of the key goes first. `now_ms` is read before `created`.
  unfoldable pub put_value : ℤ → ℤ → T.Table → Key → Value → FailReason × T.Table
  put_value now_ms created t key value =
      let t' = if T.contains t key.key then T.remove t key.key else t in
      (k_ok, T.insert t' key.key new_record (λ _ r. is_expired now_ms r))
    where
      new_record : Record
      new_record = record {
        value_type = value.type;
        raw_value = value.raw_value;
        creation_timestamp_ms = created;
        expiration_timestamp_ms = key.expiration_timestamp_ms;
      }

  unfoldable pub delete_value : T.Table → Key → FailReason × T.Table
  delete_value t key =
      if not (T.contains t key.key) then (k_key_not_found, t) else (k_ok, T.remove t key.key)

  unfoldable pub get_keys_range : ℤ → T.Table → Keys → Outcome KeysRange
  get_keys_range now_ms t q = succeed (record {
    keys = T.get_keys_range t q.index_from q.keys_count (λ _ r. not (is_expired now_ms r));
  })

  unfoldable pub get_size : T.Table → ℕ
  get_size t = T.size t

  unfoldable pub is_live : ℤ → Option Record → Bool
  is_live now none = false
  is_live now (some r) = not (is_expired now r)

  unfoldable pub has_key : ℤ → T.Table → Key → Bool
  unfolding is_live
  has_key now t key = is_live now (T.find t key.key)

  -- The storage as one of the interface.
  abbrev pub linear_hash_storage : StorageImpl
  linear_hash_storage = record {
    State = T.Table;
    get_value = get_value;
    put_value = put_value;
    delete_value = delete_value;
    get_keys_range = get_keys_range;
    get_size = get_size;
    has_key = has_key;
  }
