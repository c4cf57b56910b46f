-- ===== src/StorageRegistry/Tests.antt =====
-- Runs of the registry, and its theorems at concrete inputs: a volume with a node "V" and a child.
use libkvs.Prelude.{
  ◌≡◌, ◌+◌, arith, ◌==◌, refl, bytes, bytes_eq, none, some, [], ◌∷◌, Bytes, ℕ, if◌then◌else◌,
}
use libkvs.VirtualStorage.{StorageNode, storage_node, storage_child, no_storage_nodes}
use libkvs.StorageRegistry.Interface.{k_released}
use libkvs.StorageRegistry.{
  VolumeImpl, Registry, Counted, acquire_node, release_storage, find_key, find_counter, find_volume,
  volume_part, full_key,
}
use libkvs.StorageRegistry.Counting.{count_of, node_uses, acquire_node_total, release_storage-count}

abbrev volume_tree : StorageNode
volume_tree = storage_node (bytes "v") (bytes "V") 4 (
    storage_child (bytes "A") (storage_node (bytes "v") (bytes "V/A") 5 no_storage_nodes)
      no_storage_nodes)

-- A volume that always loads that tree, and counts its unloads.
abbrev tree_volume : VolumeImpl
tree_volume = record {
  Volume = ℕ;
  open_volume = λ path. some 0;
  load = λ v path params. (some volume_tree, v);
  unload = λ v path. v + 1;
}

abbrev nothing_counted : Counted
nothing_counted = record { storage_counters = []; storage_keys = [] }

acquire_node_total_example :
    (r' : Counted) × (acquire_node volume_tree (bytes "v") (bytes "V") nothing_counted ≡ some r')
    × ((k : Bytes)
        → count_of k r'
          ≡ node_uses k volume_tree (bytes "v") (bytes "V") + count_of k nothing_counted)
acquire_node_total_example =
    acquire_node_total volume_tree (bytes "v") (bytes "V") nothing_counted
      (λ k. unfold node_uses find_counter in ground arith)

-- The child is under one key once.
child_counted_once : node_uses (bytes "v:V/A") volume_tree (bytes "v") (bytes "V") ≡ 1
unfolding node_uses bytes_eq
child_counted_once = refl

abbrev in_use : Registry tree_volume
in_use = record {
  volumes = (bytes "v", 0) ∷ [];
  counted = record {
    storage_counters = (bytes "v:V", (4, 1)) ∷ (bytes "v:V/A", (5, 2)) ∷ [];
    storage_keys = (4, bytes "v:V") ∷ (5, bytes "v:V/A") ∷ [];
  };
}

release_storage-count_example :
    (r' : Registry tree_volume) × (release_storage tree_volume in_use 4 ≡ some (k_released, r'))
    × ((k : Bytes)
        → count_of k r'.counted
          ≡ (if bytes_eq (bytes "v:V") k then 0 else count_of k in_use.counted))
    × (find_key 4 r'.counted.storage_keys ≡ (if 0 == 0 then none else some (bytes "v:V")))
release_storage-count_example =
    release_storage-count tree_volume in_use 4 (bytes "v:V") 4 0 0 named used loaded
  where
    named : find_key 4 in_use.counted.storage_keys ≡ some (bytes "v:V")
    named = unfold find_key in refl

    used : find_counter (bytes "v:V") in_use.counted.storage_counters ≡ some (4, 1)
    used = unfold find_counter bytes_eq in refl

    loaded : find_volume tree_volume (volume_part (bytes "v:V")) in_use.volumes ≡ some 0
    loaded = unfold find_volume volume_part bytes_eq in refl

-- A volume whose path has a colon: the key does not give its path back.
colon_in_path : volume_part (full_key (bytes "c:v") (bytes "V")) ≡ bytes "c"
unfolding volume_part
colon_in_path = refl
