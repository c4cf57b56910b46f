-- ===== src/Storage.antt =====
-- src/IStorage.hpp, IStorageImpl.hpp: the interface of a storage. An operation that reads the clock
-- takes its readings as arguments, in the order in which it makes them.
use libkvs.Prelude.{
  ℕ, ◌≡◌, ◌≤◌, Bytes, bytes_eq, Bool, true, false, Option, none, some, List, if◌then◌else◌, take,
  drop, length,
}
use libkvs.Prelude.Int.{ℤ, ltb_ℤ, ◌≤ℤ◌}
use libkvs.Value.{Value}
use libkvs.Key.{Key, Keys, KeysRange, FailReason, k_ok, k_key_not_found, Outcome, succeed, fail}

pub record StorageImpl : Type 1 where
  pub State : Type 0
  pub get_value : ℤ → State → Key → Outcome Value
  pub put_value : ℤ → ℤ → State → Key → Value → FailReason × State
  pub delete_value : State → Key → FailReason × State
  pub get_keys_range : ℤ → State → Keys → Outcome KeysRange
  pub get_size : State → ℕ
  pub has_key : ℤ → State → Key → Bool

-- What a reader is told of a key.
abbrev pub answer : Option Value → Outcome Value
answer none = fail k_key_not_found
answer (some v) = succeed v

abbrev pub is_some {ℓ} : {A : Type ℓ} → Option A → Bool
is_some none = false
is_some (some a) = true

-- What a storage promises: at each time it shows a partial map from keys to values. A value that is
-- not shown any more stays hidden until its key is written again.
pub record StorageLaws (S : StorageImpl) : Type 0 where
  pub live : ℤ → S.State → Bytes → Option Value
  pub stored : S.State → Bytes → Bool
  pub live_keys : ℤ → S.State → List Bytes
  pub get_value_lem :
      (now : ℤ) (s : S.State) (k : Key) → S.get_value now s k ≡ answer (live now s k.key)
  pub has_key_lem :
      (now : ℤ) (s : S.State) (k : Key) → S.has_key now s k ≡ is_some (live now s k.key)
  pub live-later :
      (t t' : ℤ) (s : S.State) (j : Bytes) (v : Value)
      → t ≤ℤ t'
      → live t' s j ≡ some v
      → live t s j ≡ some v
  pub put_value_ok :
      (now created : ℤ) (s : S.State) (k : Key) (v : Value)
      → (S.put_value now created s k v).0 ≡ k_ok
  pub live-put_value :
      (now created t : ℤ) (s : S.State) (k : Key) (v : Value) (j : Bytes)
      → now ≤ℤ t
      → live t (S.put_value now created s k v).1 j ≡ (
          if bytes_eq k.key j
          then (if ltb_ℤ k.expiration_timestamp_ms t then none else some v)
          else live t s j)
  pub delete_value_lem :
      (s : S.State) (k : Key)
      → (S.delete_value s k).0 ≡ (if stored s k.key then k_ok else k_key_not_found)
  pub delete_value_missing :
      (s : S.State) (k : Key) → stored s k.key ≡ false → (S.delete_value s k).1 ≡ s
  pub live-delete_value :
      (t : ℤ) (s : S.State) (k : Key) (j : Bytes)
      → live t (S.delete_value s k).1 j ≡ (if bytes_eq k.key j then none else live t s j)
  pub live-not_stored : (t : ℤ) (s : S.State) (j : Bytes) → stored s j ≡ false → live t s j ≡ none
  pub get_keys_range_lem :
      (now : ℤ) (s : S.State) (q : Keys)
      → S.get_keys_range now s q
        ≡ succeed (record { keys = take q.keys_count (drop q.index_from (live_keys now s)) })
  pub live_keys-le-size : (now : ℤ) (s : S.State) → length (live_keys now s) ≤ S.get_size s
