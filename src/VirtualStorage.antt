-- ===== src/VirtualStorage.antt =====
-- src/VirtualStorage.hpp, VirtualStorage.cpp, StorageNode.hpp, ICompositeStorage.hpp: the tree of
-- virtual nodes. A pointer to a storage is a number; a `Node*` is the list of names that leads from
-- the root to the node, since nodes are never moved or removed. An unordered_map is the list of its
-- entries in the order of iteration.
pub mod Resolve
pub mod Values
pub mod Ranges
pub mod Mounting
pub mod Tables
pub mod Session
mod Tests
use libkvs.Prelude.{ℕ, ◌+◌, Bytes, bytes_eq, Option, none, some, List, [], ◌∷◌, ◌++◌, if◌then◌else◌}
use libkvs.Prelude.Int.{ℤ}

-- src/HashTableParams.hpp; a load factor is the bit pattern of its double.
pub record HashTableParams : Type 0 where
  pub bucket_capacity : ℕ
  pub max_record_size_bytes : ℕ
  pub bucket_cache_size_bytes : ℕ
  pub min_buckets_count : ℕ
  pub min_load_factor : ℕ
  pub max_load_factor : ℕ

pub record MountOptions : Type 0 where
  pub storage_mount_path : Bytes
  pub volume_file_path : Bytes
  pub node_path : Bytes
  pub priority : ℤ
  pub hash_table_params : HashTableParams

-- The subtree of a volume that a mount brings in.
mutual
  pub data StorageNode : Type 0 where
    storage_node :
        (volume_file_path node_path : Bytes) (storage : ℕ) (children : StorageNodes) → StorageNode

  pub data StorageNodes : Type 0 where
    no_storage_nodes : StorageNodes
    storage_child : (name : Bytes) (child : StorageNode) (others : StorageNodes) → StorageNodes

abbrev pub NodePath : Type 0
NodePath = List Bytes

pub record MountedStorage : Type 0 where
  pub storage : ℕ
  pub priority : ℤ

pub record RemountOptions : Type 0 where
  pub node : NodePath
  pub mount_id : ℕ
  pub mount_options : MountOptions

pub record MountPoint : Type 0 where
  pub storage_node : StorageNode
  pub priority : ℤ
  pub remount_options : RemountOptions

-- VirtualStorage::Node; its lock is in `Resolve`.
mutual
  pub data Node : Type 0 where
    node :
        (mount_points : List (ℕ × MountPoint)) (storages : List MountedStorage)
        (children : Children)
        → Node

  pub data Children : Type 0 where
    no_children : Children
    child_entry : (name : Bytes) (child : Node) (others : Children) → Children

abbrev pub empty_node : Node
empty_node = node [] [] no_children

abbrev pub mount_points : Node → List (ℕ × MountPoint)
mount_points (node mps sts cs) = mps

abbrev pub storages : Node → List MountedStorage
storages (node mps sts cs) = sts

abbrev pub children : Node → Children
children (node mps sts cs) = cs

-- children.find
unfoldable pub find_child : Bytes → Children → Option Node
find_child name no_children = none
find_child name (child_entry j child others) =
    if bytes_eq j name then some child else find_child name others

-- children[name] = child
unfoldable pub put_child : Bytes → Node → Children → Children
put_child name child no_children = child_entry name child no_children
put_child name child (child_entry j old others) =
    if bytes_eq j name
    then child_entry j child others
    else child_entry j old (put_child name child others)
