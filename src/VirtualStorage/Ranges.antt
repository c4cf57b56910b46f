-- ===== src/VirtualStorage/Ranges.antt =====
-- `getKeysRange`: a page of the keys of all storages of a node. A loop stands at a cursor, the
-- storages from `storageIndex` on and `storageKeyIndex`; it runs on fuel, and `Ranges.Skip` and
-- `Ranges.Collect` show that the fuel of `get_keys_range` is enough. An unordered_set is the list of
-- what was inserted.
pub mod Fresh
pub mod Skip
pub mod Collect
use libkvs.Prelude.{
  ℕ, zero, suc, ◌+◌, ◌-◌, ◌%◌, ◌^◌, min, ltb, Bytes, bytes_eq, Bool, true, false, ◌||◌, Option,
  none, some, List, [], ◌∷◌, ◌++◌, length, if◌then◌else◌,
}
use libkvs.Prelude.Int.{ℤ}
use libkvs.Key.{Keys, KeysRange, k_node_not_found, Outcome, fail, succeed}
use libkvs.Storage.{StorageImpl}
use libkvs.MgMutex.{k_is}
use libkvs.VirtualStorage.{Node, MountedStorage}
use libkvs.VirtualStorage.Resolve.{resolve_node}
use libkvs.VirtualStorage.Values.{Heap, usable}

-- a - b on size_t
abbrev pub size_sub : ℕ → ℕ → ℕ
size_sub a b = (a + 2 ^ 64 - b) % 2 ^ 64

-- excludeKeys.find
unfoldable pub excluded : Bytes → List Bytes → Bool
excluded k [] = false
excluded k (x ∷ xs) = bytes_eq x k || excluded k xs

-- The inner loop of the second phase: the keys that are new, in order.
unfoldable pub new_keys : List Bytes → List Bytes → List Bytes
new_keys exclude [] = []
new_keys exclude (k ∷ ks) =
    let old = new_keys exclude ks in
    let rest = new_keys (exclude ++ k ∷ []) ks in if excluded k exclude then old else k ∷ rest

pub record Cursor : Type 0 where
  pub readings : ℕ
  pub remaining : List MountedStorage
  pub key_index : ℕ

-- How a call ends: with the fuel, in the exception of `resultKeys.reserve` for more keys than a vector
-- or the memory can hold, or with a status.
pub data Reply : Type 0 where
  no_fuel reserve_throws : Reply
  replied : (outcome : Outcome KeysRange) → Reply

abbrev pub keys_or_none : Option KeysRange → List Bytes
keys_or_none none = []
keys_or_none (some range) = range.keys

module _ (S : StorageImpl) (clock : ℕ → ℤ) (heap : Heap S) where
  -- storage->getKeysRange({"", storageKeyIndex, keysToRead}, &storageKeys)
  abbrev pub read_keys : ℕ → MountedStorage → ℕ → ℕ → List Bytes
  read_keys i m key_index keys_to_read =
      keys_or_none
        (S.get_keys_range (clock i) (heap m.storage)
          (record { path = []; index_from = key_index; keys_count = keys_to_read })).output

  abbrev pub size_of : MountedStorage → ℕ
  size_of m = S.get_size (heap m.storage)

  -- Where the next round starts, once `key_index` keys of `m` are behind.
  abbrev pub advance : ℕ → MountedStorage → List MountedStorage → ℕ → Cursor
  advance i m ms key_index =
      if ltb key_index (size_of m)
      then record { readings = suc i; remaining = m ∷ ms; key_index = key_index }
      else record { readings = suc i; remaining = ms; key_index = 0 }

  -- The first phase; `none` is the end of the fuel.
  unfoldable pub skip_keys :
      ℕ → ℕ → ℕ → ℕ → List MountedStorage → List Bytes → Option (Cursor × List Bytes)
  skip_keys zero to_skip i key_index remaining exclude = none
  skip_keys (suc fuel) to_skip i key_index [] exclude =
      some (record { readings = i; remaining = []; key_index = key_index }, exclude)
  skip_keys (suc fuel) zero i key_index (m ∷ ms) exclude =
      some (record { readings = i; remaining = m ∷ ms; key_index = key_index }, exclude)
  skip_keys (suc fuel) (suc n) i key_index (m ∷ ms) exclude =
      let keys_to_read = min (suc n) (size_sub (size_of m) key_index) in
      let ks = read_keys i m key_index keys_to_read in
      let c = advance i m ms (key_index + keys_to_read) in
      skip_keys fuel (size_sub (suc n) (length ks)) c.readings c.key_index c.remaining
        (exclude ++ ks)

  -- The second phase.
  unfoldable pub collect_keys :
      ℕ → ℕ → ℕ → ℕ → List MountedStorage → List Bytes → List Bytes → Option (List Bytes)
  collect_keys zero keys_left i key_index remaining exclude result = none
  collect_keys (suc fuel) keys_left i key_index [] exclude result = some result
  collect_keys (suc fuel) zero i key_index (m ∷ ms) exclude result = some result
  collect_keys (suc fuel) (suc n) i key_index (m ∷ ms) exclude result =
      let keys_to_read = min (suc n) (size_sub (size_of m) key_index) in
      let ks = read_keys i m key_index keys_to_read in
      let added = new_keys exclude ks in
      let c = advance i m ms (key_index + keys_to_read) in
      collect_keys fuel (size_sub (suc n) (length added)) c.readings c.key_index c.remaining
        (exclude ++ added) (result ++ added)

  -- A bound on the rounds of each loop.
  unfoldable pub rounds : List MountedStorage → ℕ
  rounds [] = 0
  rounds (m ∷ ms) = suc (size_of m + rounds ms)

  pub range_of : Option (List Bytes) → Reply
  range_of none = no_fuel
  range_of (some keys) = replied (succeed (record { keys = keys }))

  -- `reserves` is whether `resultKeys.reserve` returns for a number of keys.
  pub collect_from : (ℕ → Bool) → ℕ → ℕ → Option (Cursor × List Bytes) → Reply
  unfolding range_of
  collect_from reserves fuel keys_left none = no_fuel
  collect_from reserves fuel keys_left (some (c, exclude)) =
      let collected = collect_keys fuel keys_left c.readings c.key_index c.remaining exclude [] in
      if reserves keys_left then range_of collected else reserve_throws

  pub keys_from : (ℕ → Bool) → Keys → List MountedStorage → Reply
  unfolding collect_from rounds
  keys_from reserves q [] = replied (fail k_node_not_found)
  keys_from reserves q (m ∷ ms) =
      let fuel = suc (rounds (m ∷ ms)) in
      collect_from reserves fuel q.keys_count (skip_keys fuel q.index_from 0 0 (m ∷ ms) [])

  unfoldable pub get_keys_range : (ℕ → Bool) → Node → Keys → Reply
  unfolding keys_from
  get_keys_range reserves root q = keys_from reserves q (usable (resolve_node root q.path k_is).0)
