-- ===== src/VirtualStorage/Mounting/Tests.antt =====
-- Mounts and unmounts at concrete inputs, on the tree of the other tests.
use libkvs.Prelude.{◌≡◌, refl, bytes, bytes_eq, some, [], ◌∷◌, ◌++◌, arith, ℕ, List, All}
use libkvs.Prelude.Int.{pos, ◌≤ℤ◌, ◌<ℤ◌}
use libkvs.VirtualStorage.Session.{release}
use libkvs.StorageRegistry.{
  VolumeImpl, Registry, linear_hash_registry, release_storage, find_volume, put_volume, find_key,
  find_counter, volume_part, node_part, erase_counter, erase_key,
}
use libkvs.StringUtils.{split}
use libkvs.VirtualStorage.{
  Node, node, child_entry, no_children, MountedStorage, find_child, put_child, StorageNode,
  storage_node, storage_child, no_storage_nodes,
}
use libkvs.VirtualStorage.Resolve.Laws.{node_at}
use libkvs.VirtualStorage.Mounting.{insert_storage, mount_node}
use libkvs.VirtualStorage.Mounting.{unmount_node, has_storage, erase_storage}
use libkvs.VirtualStorage.Mounting.Unmount.{Lost, layers_at-unmount_node}
use libkvs.VirtualStorage.Mounting.Restore.{Releases, storages_of, IsNewAt, unmount_node-mount_node}
use libkvs.VirtualStorage.{NodePath}
use libkvs.Prelude.{Bool, true, ◌+◌}
use libkvs.VirtualStorage.Mounting.Paths.{
  create_nodes_for_path, create_nodes, create_nodes_for_path-node_at,
}
use libkvs.VirtualStorage.Mounting.{or_new}
use libkvs.StringUtils.{slash}
use libkvs.VirtualStorage.Mounting.Order.{Descends, insert_storage_split}
use libkvs.VirtualStorage.Mounting.Layers.{
  layers_at, with_storage, storage_at, layers_at-mount_node, UniqueNames, find_storage_node,
}
use libkvs.VirtualStorage.Tests.{layer, upper, lower, root}

insert_storage_split_example :
    (above : List MountedStorage) × (below : List MountedStorage) × (upper ∷ lower ∷ []
      ≡ above ++ below)
    × (insert_storage (layer 3 (pos 1)) (upper ∷ lower ∷ []) ≡ above ++ layer 3 (pos 1) ∷ below)
    × All (λ (k : MountedStorage). pos 1 ≤ℤ k.priority) above
    × All (λ (k : MountedStorage). k.priority <ℤ pos 1) below
    × Descends (insert_storage (layer 3 (pos 1)) (upper ∷ lower ∷ []))
insert_storage_split_example =
    insert_storage_split (layer 3 (pos 1)) (upper ∷ lower ∷ []) (omega arith)

-- A volume node "V" with a child "A".
abbrev pub subtree : StorageNode
subtree = storage_node (bytes "v.json") (bytes "V") 4 (
    storage_child (bytes "A") (storage_node (bytes "v.json") (bytes "V/A") 5 no_storage_nodes)
      no_storage_nodes)

pub subtree_unique : UniqueNames subtree
unfolding UniqueNames find_storage_node
subtree_unique = (refl, tt, tt)

layers_at-mount_node_example :
    layers_at (mount_node root subtree (pos 0)) (bytes "A" ∷ [])
    ≡ with_storage (storage_at subtree (bytes "A" ∷ [])) (pos 0) (layers_at root (bytes "A" ∷ []))
layers_at-mount_node_example =
    layers_at-mount_node root subtree (pos 0) (bytes "A" ∷ []) subtree_unique

-- The new storage of "A" comes last.
mounted_behind :
    layers_at (mount_node root subtree (pos 0)) (bytes "A" ∷ [])
    ≡ upper ∷ lower ∷ layer 5 (pos 0) ∷ []
unfolding mount_node node_at find_child bytes_eq insert_storage put_child
mounted_behind = refl

-- A registry that releases every storage, and counts.
abbrev release_counting : ℕ → ℕ → Bool × ℕ
release_counting r p = (true, r + 1)

abbrev mounted_subtree : Node
mounted_subtree = mount_node root subtree (pos 0)

-- The registry of the library, in which the two storages of the subtree are in use.
abbrev one_volume : VolumeImpl
one_volume = record {
  Volume = ℕ;
  open_volume = λ path. some 0;
  load = λ v path params. (some subtree, v);
  unload = λ v path. v + 1;
}

abbrev both_in_use : Registry one_volume
both_in_use = record {
  volumes = (bytes "v.json", 0) ∷ [];
  counted = record {
    storage_counters = (bytes "v.json:V", (4, 1)) ∷ (bytes "v.json:V/A", (5, 1)) ∷ [];
    storage_keys = (4, bytes "v.json:V") ∷ (5, bytes "v.json:V/A") ∷ [];
  };
}

abbrev library_release : Registry one_volume → ℕ → Bool × Registry one_volume
library_release = release (linear_hash_registry one_volume)

both-Releases : Releases library_release both_in_use (storages_of subtree)
unfolding Releases storages_of release_storage find_key find_counter find_volume put_volume
    volume_part node_part erase_counter erase_key bytes_eq
both-Releases = (refl, (refl, tt))

unmount_node-mount_node_example :
    (r' : Registry one_volume) × (n' : Node) × (unmount_node library_release both_in_use
        mounted_subtree subtree
      ≡ some (r', n'))
    × ((path : NodePath)
        → IsNewAt (storage_at subtree path) (layers_at root path)
        → layers_at n' path ≡ layers_at root path)
unmount_node-mount_node_example =
    unmount_node-mount_node library_release root subtree (pos 0) both_in_use subtree_unique
      both-Releases

abbrev leaf : StorageNode
leaf = storage_node (bytes "v.json") (bytes "V/A") 5 no_storage_nodes

abbrev leaf_mounted : Node
leaf_mounted = node [] (upper ∷ layer 5 (pos 0) ∷ []) no_children

layers_at-unmount_node_example :
    Lost
      (storage_at leaf [])
      (layers_at leaf_mounted [])
      (layers_at (node [] (upper ∷ []) no_children) [])
layers_at-unmount_node_example =
    layers_at-unmount_node release_counting leaf_mounted (node [] (upper ∷ []) no_children) leaf 0 1
      [] unique gone
  where
    unique : UniqueNames leaf
    unique = unfold UniqueNames in tt

    gone :
        unmount_node release_counting 0 leaf_mounted leaf
        ≡ some (1, node [] (upper ∷ []) no_children)
    gone = unfold unmount_node has_storage erase_storage in refl

create_nodes_for_path-node_at_example :
    (node_at (create_nodes_for_path root (bytes "A/b")) (split (bytes "A/b") slash)
      ≡ some (or_new (node_at root (split (bytes "A/b") slash))))
    × ((path : NodePath)
        → layers_at (create_nodes_for_path root (bytes "A/b")) path ≡ layers_at root path)
create_nodes_for_path-node_at_example = create_nodes_for_path-node_at root (bytes "A/b")

-- The new node has no layers, and is below the old one.
created_below :
    create_nodes_for_path root (bytes "A/b")
    ≡ node [] [] (
        child_entry
          (bytes "A")
          (node []
            (upper ∷ lower ∷ [])
            (child_entry (bytes "b") (node [] [] no_children) no_children))
          no_children)
unfolding create_nodes_for_path split find_child put_child bytes_eq create_nodes
created_below = refl
