-- ===== src/VirtualStorage/Mounting.antt =====
-- The two private functions that put the storages of a volume subtree into the virtual tree and take
-- them out: `mount(Node&, StorageNode&, int)` and `unmount(Node&, StorageNode&)`.
pub mod Order
pub mod Layers
pub mod Unmount
pub mod Restore
pub mod Paths
mod Tests
use libkvs.Prelude.{
  ℕ, ◌==◌, Bytes, bytes_eq, Bool, true, false, Option, none, some, List, [], ◌∷◌, if◌then◌else◌,
}
use libkvs.Prelude.Int.{ℤ, ltb_ℤ}
use libkvs.VirtualStorage.{
  StorageNode, StorageNodes, storage_node, no_storage_nodes, storage_child, MountedStorage, Node,
  Children, node, empty_node, find_child, put_child,
}

-- `insert(upper_bound(...), newStorage)`: in front of the first storage of a lower priority.
unfoldable pub insert_storage : MountedStorage → List MountedStorage → List MountedStorage
insert_storage new [] = new ∷ []
insert_storage new (m ∷ ms) =
    if ltb_ℤ m.priority new.priority then new ∷ m ∷ ms else m ∷ insert_storage new ms

-- The child, or the node that is made in its place.
abbrev pub or_new : Option Node → Node
or_new none = empty_node
or_new (some n) = n

unfoldable mutual
  pub mount_node : Node → StorageNode → ℤ → Node
  mount_node (node mps sts cs) (storage_node volume path storage kids) priority =
      node mps (insert_storage (record { storage = storage; priority = priority }) sts)
        (mount_children cs kids priority)

  pub mount_children : Children → StorageNodes → ℤ → Children
  mount_children cs no_storage_nodes priority = cs
  mount_children cs (storage_child name child others) priority =
      mount_children (put_child name (mount_node (or_new (find_child name cs)) child priority) cs)
        others priority

-- find_if over the storages: whether the storage is mounted.
unfoldable pub has_storage : ℕ → List MountedStorage → Bool
has_storage p [] = false
has_storage p (m ∷ ms) = if m.storage == p then true else has_storage p ms

-- `erase(foundStorage)`: the first entry of the storage.
unfoldable pub erase_storage : ℕ → List MountedStorage → List MountedStorage
erase_storage p [] = []
erase_storage p (m ∷ ms) = if m.storage == p then ms else m ∷ erase_storage p ms

infixl 5 ◌>>=◌
abbrev pub ◌>>=◌ {ℓ κ} : {A : Type ℓ} {B : Type κ} → Option A → (A → Option B) → Option B
none >>= f = none
some a >>= f = f a

-- `release` is `m_storageRegistry->releaseStorage`, with the state of the registry: whether it
-- succeeded, and the new state. `none` is a failed assertion.
module _ {R : Type 0} (release : R → ℕ → Bool × R) where
  unfoldable mutual
    pub unmount_node : R → Node → StorageNode → Option (R × Node)
    unmount_node r (node mps sts cs) (storage_node volume path storage kids) =
        let (released, r') = release r storage in
        let rest = unmount_children r' cs kids in
        if has_storage storage sts
        then (if released
            then (rest >>= λ done. some (done.0, node mps (erase_storage storage sts) done.1))
            else none)
        else none

    pub unmount_children : R → Children → StorageNodes → Option (R × Children)
    unmount_children r cs no_storage_nodes = some (r, cs)
    unmount_children r cs (storage_child name child others) = find_child name cs >>= λ n.
        unmount_node r n child >>= λ done. unmount_children done.0 (put_child name done.1 cs) others
