-- ===== src/VirtualStorage/Values.antt =====
-- `getValue`, `putValue` and `deleteValue`: the storages of one node, by priority. `clock i` is the
-- reading of the clock that the call makes after `i` others; `heap` has the state of each storage.
pub mod Laws
pub mod Reads
pub mod Deletes
use libkvs.Prelude.{
  ℕ, suc, ◌==◌, Bytes, Bool, true, false, Option, none, some, List, [], ◌∷◌, if◌then◌else◌,
}
use libkvs.Prelude.Int.{ℤ}
use libkvs.Value.{Value}
use libkvs.Key.{Key, FailReason, k_ok, k_node_not_found, k_key_not_found, is_ok, Outcome, fail}
use libkvs.Storage.{StorageImpl}
use libkvs.MgMutex.{k_is, k_ix}
use libkvs.VirtualStorage.{Node, MountedStorage, storages}
use libkvs.VirtualStorage.Resolve.{resolve_node}

-- The storages to look into: none where the node is missing or has none.
abbrev pub usable : Option Node → List MountedStorage
usable none = []
usable (some n) = storages n

module _ (S : StorageImpl) where
  abbrev pub Heap : Type 0
  Heap = ℕ → S.State

  abbrev pub write : Heap → ℕ → S.State → Heap
  write heap p s q = if p == q then s else heap q

  unfoldable pub get_first : (ℕ → ℤ) → ℕ → Heap → Key → List MountedStorage → Outcome Value
  get_first clock i heap key [] = fail k_key_not_found
  get_first clock i heap key (m ∷ ms) =
      let outcome = S.get_value (clock i) (heap m.storage) key in
      let rest = get_first clock (suc i) heap key ms in
      if is_ok outcome.status then outcome else rest

  pub get_from : (ℕ → ℤ) → Heap → Key → List MountedStorage → Outcome Value
  unfolding get_first is_ok
  get_from clock heap key [] = fail k_node_not_found
  get_from clock heap key (m ∷ ms) = get_first clock 0 heap key (m ∷ ms)

  unfoldable pub get_value : (ℕ → ℤ) → Node → Heap → Key → Outcome Value
  unfolding get_from
  get_value clock root heap key =
      get_from clock heap key (usable (resolve_node root key.path k_is).0)

  -- The first storage with the key, or else `front`, and the number of readings so far.
  unfoldable pub put_target : (ℕ → ℤ) → ℕ → Heap → Key → ℕ → List MountedStorage → ℕ × ℕ
  put_target clock i heap key front [] = (front, i)
  put_target clock i heap key front (m ∷ ms) =
      let rest = put_target clock (suc i) heap key front ms in
      if S.has_key (clock i) (heap m.storage) key then (m.storage, suc i) else rest

  unfoldable pub put_from : (ℕ → ℤ) → Heap → Key → Value → List MountedStorage → FailReason × Heap
  unfolding put_target
  put_from clock heap key value [] = (k_node_not_found, heap)
  put_from clock heap key value (m ∷ ms) =
      let (target, i) = put_target clock 0 heap key m.storage (m ∷ ms) in
      let (status, s) = S.put_value (clock i) (clock (suc i)) (heap target) key value in
      (status, write heap target s)

  unfoldable pub put_value : (ℕ → ℤ) → Node → Heap → Key → Value → FailReason × Heap
  unfolding put_from
  put_value clock root heap key value =
      put_from clock heap key value (usable (resolve_node root key.path k_ix).0)

  unfoldable pub delete_first : Heap → Key → List MountedStorage → FailReason × Heap
  delete_first heap key [] = (k_key_not_found, heap)
  delete_first heap key (m ∷ ms) =
      let (status, s) = S.delete_value (heap m.storage) key in
      let rest = delete_first (write heap m.storage s) key ms in
      if is_ok status then (k_ok, write heap m.storage s) else rest

  pub delete_from : Heap → Key → List MountedStorage → FailReason × Heap
  unfolding delete_first is_ok
  delete_from heap key [] = (k_node_not_found, heap)
  delete_from heap key (m ∷ ms) = delete_first heap key (m ∷ ms)

  unfoldable pub delete_value : Node → Heap → Key → FailReason × Heap
  unfolding delete_from
  delete_value root heap key = delete_from heap key (usable (resolve_node root key.path k_ix).0)
