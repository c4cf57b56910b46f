-- ===== src/LinearHashStorage/Tests.antt =====
-- Runs of the storage, and its theorems at concrete inputs.
use libkvs.Prelude.{◌≡◌, refl, bytes, bytes_eq, true, some, none, [], ◌∷◌, ◌++◌, arith, inl}
use libkvs.Prelude.Int.{pos}
use libkvs.Value.{k_int32, to_ubyte}
use libkvs.Key.{Record, Key, fail, k_key_not_found, permanent}
use libkvs.Storage.{StorageLaws}
use libkvs.LinearHashStorage.{linear_hash_storage, get_value, has_key}
use libkvs.LinearHashStorage.Contract.{linear_hash_storage-laws}
use libkvs.LinearHashStorage.Sample.{
  list_table, list_table-laws, list_storage, list_buffer, list_buffer-laws,
}
use libkvs.LinearHashStorage.Serialize.{serialize, deserialize, deserialize-serialize}
use libkvs.LinearHashStorage.Locks.{AsksFor, puts_value, gets_value, storage_lock, writer_alone}
use libkvs.MgMutex.{k_x, k_s, lock, is_granted, index}
use libkvs.MgMutex.System.{Reach, here, next, request, start, System, update, inside, polling}
use libkvs.MgMutex.Holders.{held}

abbrev answer_record : Record
answer_record = record {
  value_type = k_int32;
  raw_value = 42 ∷ 0 ∷ 0 ∷ 0 ∷ [];
  creation_timestamp_ms = pos 1000;
  expiration_timestamp_ms = pos 2000;
}

abbrev answer_key : Key
answer_key = permanent (bytes "answer") (bytes "A")

-- The record is still there at the time of its expiration, and gone a millisecond later.
expires_after :
    (list_storage.has_key (pos 2000) ((bytes "answer", answer_record) ∷ []) answer_key ≡ true)
    × (list_storage.get_value (pos 2001) ((bytes "answer", answer_record) ∷ []) answer_key
        ≡ fail k_key_not_found)
unfolding bytes_eq get_value has_key
expires_after = (refl, refl)

linear_hash_storage-laws_example : StorageLaws (linear_hash_storage list_table)
linear_hash_storage-laws_example = linear_hash_storage-laws list_table list_table-laws

deserialize-serialize_example :
    deserialize list_buffer (serialize list_buffer (bytes "answer") answer_record ++ 7 ∷ [])
    ≡ some ((bytes "answer", answer_record), 7 ∷ [])
unfolding to_ubyte
deserialize-serialize_example =
    deserialize-serialize list_buffer list_buffer-laws (bytes "answer") answer_record (7 ∷ [])
      (omega arith)

-- Thread 1 has the storage in mode X; thread 2 waits to read.
abbrev writing : System
writing = record {
  mutex = lock 2 k_s (lock 1 k_x start.mutex);
  pc = update (update start.pc 1 inside) 2 polling;
}

writing_reached : Reach AsksFor writing
unfolding is_granted index storage_lock lock
writing_reached =
    next (next here (request 1 k_x refl (puts_value, refl))) (request 2 k_s refl (gets_value, refl))

writer_alone_example : held 2 writing.mutex.running_threads ≡ none
writer_alone_example = writer_alone 1 2 puts_value writing_reached (omega arith) (inl refl) holds_x
  where
    holds_x : held 1 writing.mutex.running_threads ≡ some (storage_lock puts_value)
    holds_x = unfold held lock storage_lock index in refl
