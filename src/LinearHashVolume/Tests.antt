-- ===== src/LinearHashVolume/Tests.antt =====
-- A volume at concrete inputs: the file system and the JSON values of the samples.
use mathlib.Core.Option.{some-injective}
use libkvs.Prelude.{
  sym, ℕ, ◌≡◌, ◌≢◌, refl, Bool, true, false, Bytes, bytes, bytes_eq, Option, none, some, List, [],
  ◌∷◌,
}
use libkvs.FilesystemUtils.Sample.{directories, stat_in}
use libkvs.FilesystemUtils.{getcwd}
use libkvs.FilesystemUtils.Rounds.{Ensures, prefixes}
use libkvs.VirtualStorage.{
  HashTableParams, StorageNode, storage_node, storage_child, no_storage_nodes,
}
use libkvs.VirtualStorage.Mounting.Layers.{storage_at}
use libkvs.LinearHashVolume.{
  TreeNode, StorageParams, tree_node, tree_child, no_tree_nodes, Storages, find_tree, put_tree,
  find_tree_node, extend_name, new_tree_node, tree_at, load_tree, is_none,
}
use libkvs.LinearHashVolume.Json.{to_json, from_json}
use libkvs.LinearHashVolume.Json.Reading.{from_json-to_json}
use libkvs.LinearHashVolume.Volume.{Volume, empty_root, new_volume}
use libkvs.LinearHashVolume.Tree.{entry_at, find_tree_node_keeps}
use libkvs.LinearHashVolume.Loading.{tree_storage_at, storage_at-load_tree}
use libkvs.LinearHashVolume.Opening.{new_volume_total}
use libkvs.LinearHashVolume.Sample.{values, values-laws, in_directory}

-- A root with the node "K", whose storage is not made yet.
abbrev root : TreeNode
root = tree_node [] [] none (
    tree_child (bytes "K")
      (tree_node (bytes "d/v_primary_K") (bytes "d/v_overflow_K") none no_tree_nodes) no_tree_nodes)

abbrev table_params : HashTableParams
table_params = record {
  bucket_capacity = 32;
  max_record_size_bytes = 1024;
  bucket_cache_size_bytes = 4096;
  min_buckets_count = 32;
  min_load_factor = 0;
  max_load_factor = 0;
}

from_json-to_json_example : from_json values 5 (to_json values values.null root) ≡ none
from_json-to_json_example = from_json-to_json values values-laws 5 root

abbrev walked : TreeNode × Bool
walked = find_tree_node in_directory (bytes "d") (bytes "v") root [] (bytes "K" ∷ bytes "L" ∷ [])

find_tree_node_keeps_example :
    ((n : TreeNode) × (tree_at walked.0 (bytes "K" ∷ bytes "L" ∷ []) ≡ some n))
    × ((path : List Bytes) (e : Bytes × Bytes × Option ℕ)
        → entry_at root path ≡ some e
        → entry_at walked.0 path ≡ some e)
    × (walked.1 ≡ is_none (tree_at root (bytes "K" ∷ bytes "L" ∷ [])))
find_tree_node_keeps_example =
    find_tree_node_keeps in_directory (bytes "d") (bytes "v") root [] (bytes "K" ∷ bytes "L" ∷ [])

-- The new node gets files that have the names of its ancestors.
files_of_the_new_node :
    entry_at walked.0 (bytes "K" ∷ bytes "L" ∷ [])
    ≡ some (bytes "d/v_primary_K_L", bytes "d/v_overflow_K_L", none)
unfolding find_tree_node find_tree put_tree extend_name new_tree_node tree_at bytes_eq
files_of_the_new_node = refl

abbrev always : Storages → StorageParams → Bool
always made params = true

-- The storage of the root is made first.
abbrev loaded_nodes : StorageNode
loaded_nodes = storage_node (bytes "v") (bytes "V") 0 (
    storage_child (bytes "K") (storage_node (bytes "v") (bytes "V/K") 1 no_storage_nodes)
      no_storage_nodes)

abbrev loaded_root : TreeNode
loaded_root = tree_node [] [] (some 0) (
    tree_child (bytes "K")
      (tree_node (bytes "d/v_primary_K") (bytes "d/v_overflow_K") (some 1) no_tree_nodes)
      no_tree_nodes)

abbrev both_made : Storages
both_made =
    record {
      primary_filepath = bytes "d/v_primary_K";
      overflow_filepath = bytes "d/v_overflow_K";
      hash_table_params = table_params;
    }
    ∷ record { primary_filepath = []; overflow_filepath = []; hash_table_params = table_params }
    ∷ []

loads_both :
    load_tree always table_params (bytes "v") root (bytes "V") []
    ≡ some (loaded_nodes, loaded_root, both_made)
unfolding load_tree
loads_both = refl

storage_at-load_tree_example :
    storage_at loaded_nodes (bytes "K" ∷ []) ≡ tree_storage_at loaded_root (bytes "K" ∷ [])
storage_at-load_tree_example =
    storage_at-load_tree always table_params (bytes "v") root loaded_root loaded_nodes (bytes "V")
      [] both_made (bytes "K" ∷ []) loads_both

new_volume_total_example :
    (v : Volume) × (s1 : List Bytes) × (s2 : List Bytes) × (new_volume directories in_directory
        values []
        (bytes "d/v")
      ≡ some (v, s2))
    × (bytes "d" ≡ bytes "d/v" → s1 ≡ [])
    × ((kind : Bool) → directories.stat [] (bytes "d") ≡ some kind → s1 ≡ [])
    × (bytes "d" ≢ bytes "d/v"
        → directories.stat [] (bytes "d") ≡ none
        → (good : Bool) × Ensures directories (bytes "/d") [] (prefixes [] (bytes "d")) (good, s1))
    × (s2 ≡ s1)
    × (v.is_loaded ≡ true)
    × (v.root_node ≡ empty_root)
    × (v.is_dirty ≡ false)
unfolding stat_in getcwd
new_volume_total_example =
    new_volume_total directories in_directory values (λ s p text e. sym (some-injective [] text e))
      [] (bytes "d/v")
