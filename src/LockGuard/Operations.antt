-- ===== src/LockGuard/Operations.antt =====
-- src/VirtualStorage.cpp, src/linear_hashing/LinearHashStorage.cpp: the locks that each operation takes
-- and leaves, in their order. How many storages a call looks into depends on the data, and is an
-- argument here.
use libkvs.Prelude.{
  texts_eq, ℕ, zero, suc, ◌≡◌, ◌≤◌, Bytes, Bool, false, ◌==◌, List, [], ◌∷◌, map, take, length,
}
use libkvs.StringUtils.{split, slash}
use libkvs.MgMutex.{k_is, k_ix, k_x}
use libkvs.LinearHashStorage.Locks.{
  StorageOperation, gets_value, puts_value, deletes_value, gets_keys_range, gets_size, has_key,
  storage_lock,
}
use libkvs.VirtualStorage.{Node, NodePath, MountedStorage}
use libkvs.VirtualStorage.Resolve.{HeldLock, resolve_node}
use libkvs.VirtualStorage.Values.{usable}
use libkvs.LockGuard.{Action, acquire, leave}

-- The mutexes: `nodeLock` of the node at a path, and `m_storageLock` of a storage.
pub data LockName : Type 0 where
  of_node : (path : NodePath) → LockName
  of_storage : (storage : ℕ) → LockName

abbrev pub same_name : LockName → LockName → Bool
same_name (of_node p) (of_node q) = texts_eq p q
same_name (of_storage a) (of_storage b) = a == b
same_name _ _ = false

-- The locks of the walk, one after the other, and then `rest`.
abbrev pub add_locks : List HeldLock → List (Action LockName) → List (Action LockName)
add_locks [] rest = rest
add_locks (lock ∷ locks) rest = acquire (of_node lock.node) lock.type ∷ add_locks locks rest

-- Each operation of a storage locks it for as long as it runs.
abbrev pub storage_calls :
    List (ℕ × StorageOperation) → List (Action LockName) → List (Action LockName)
storage_calls [] rest = rest
storage_calls ((storage, op) ∷ calls) rest =
    acquire (of_storage storage) (storage_lock op) ∷ leave ∷ storage_calls calls rest

-- ~MGMultiLockGuard.
abbrev pub pop_all : List HeldLock → List (Action LockName)
pop_all [] = []
pop_all (lock ∷ locks) = leave ∷ pop_all locks

abbrev pub guarded : List HeldLock → List (ℕ × StorageOperation) → List (Action LockName)
guarded locks calls = add_locks locks (storage_calls calls (pop_all locks))

-- The same operation on the first storages.
abbrev pub on_first : ℕ → StorageOperation → List MountedStorage → List (ℕ × StorageOperation)
on_first tried op ms = map (λ m. (m.storage, op)) (take tried ms)

-- `hasKey` until a storage has the key, and then `putValue` there, or on the front storage.
unfoldable pub put_calls : ℕ → ℕ → List MountedStorage → List (ℕ × StorageOperation)
put_calls missed front [] = (front, puts_value) ∷ []
put_calls zero front (m ∷ ms) = (m.storage, has_key) ∷ (m.storage, puts_value) ∷ []
put_calls (suc missed) front (m ∷ ms) = (m.storage, has_key) ∷ put_calls missed front ms

abbrev pub put_calls_on : ℕ → List MountedStorage → List (ℕ × StorageOperation)
put_calls_on missed [] = []
put_calls_on missed (m ∷ ms) = put_calls missed m.storage (m ∷ ms)

-- The turns of a loop of `getKeysRange` on one storage.
abbrev pub range_turns : ℕ → ℕ → List (ℕ × StorageOperation) → List (ℕ × StorageOperation)
range_turns zero storage rest = rest
range_turns (suc turns) storage rest =
    (storage, gets_size)
    ∷ (storage, gets_keys_range)
    ∷ (storage, gets_size)
    ∷ range_turns turns storage rest

-- `turns` says how often the loops turn on each storage.
unfoldable pub range_calls : List ℕ → List MountedStorage → List (ℕ × StorageOperation)
range_calls (turn ∷ turns) (m ∷ ms) = range_turns turn m.storage (range_calls turns ms)
range_calls _ _ = []

-- A call of the virtual storage, with the tree that it finds.
pub data Operation : Type 0 where
  get_value : (root : Node) (path : Bytes) (tried : ℕ) → Operation
  put_value : (root : Node) (path : Bytes) (missed : ℕ) → Operation
  delete_value : (root : Node) (path : Bytes) (tried : ℕ) → Operation
  get_keys_range : (root : Node) (path : Bytes) (turns : List ℕ) → Operation
  mount unmount : Operation

unfoldable pub lock_actions : Operation → List (Action LockName)
unfolding put_calls range_calls
lock_actions (get_value root path tried) =
    let (node, locks) = resolve_node root path k_is in
    guarded locks (on_first tried gets_value (usable node))
lock_actions (put_value root path missed) =
    let (node, locks) = resolve_node root path k_ix in
    guarded locks (put_calls_on missed (usable node))
lock_actions (delete_value root path tried) =
    let (node, locks) = resolve_node root path k_ix in
    guarded locks (on_first tried deletes_value (usable node))
lock_actions (get_keys_range root path turns) =
    let (node, locks) = resolve_node root path k_is in
    guarded locks (range_calls turns (usable node))
lock_actions mount = acquire (of_node []) k_x ∷ leave ∷ []
lock_actions unmount = acquire (of_node []) k_x ∷ leave ∷ []

-- How many components the path of an operation has.
abbrev pub components : Operation → ℕ
components (get_value root path tried) = length (split path slash)
components (put_value root path missed) = length (split path slash)
components (delete_value root path tried) = length (split path slash)
components (get_keys_range root path turns) = length (split path slash)
components mount = 0
components unmount = 0

-- The programs of the operations whose paths have at most `depth` components.
abbrev pub OperationOf : ℕ → List (Action LockName) → Type 0
OperationOf depth program = (op : Operation) × (components op ≤ depth) × (program ≡ lock_actions op)
