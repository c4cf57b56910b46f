-- ===== src/VirtualStorage/Session/Tests.antt =====
-- The public mount and unmount at concrete inputs, over a registry that always answers with one subtree.
use libkvs.Prelude.{Option, ℕ, ◌+◌, ◌≡◌, refl, bytes, bytes_eq, some}
use libkvs.Prelude.Int.{pos}
use libkvs.StringUtils.{split, slash}
use libkvs.StorageRegistry.Interface.{k_acquired, k_released, RegistryImpl}
use libkvs.VirtualStorage.{
  MountOptions, NodePath, StorageNode, storage_node, storage_child, no_storage_nodes,
}
use libkvs.VirtualStorage.Mounting.Layers.{with_storage, layers_at, UniqueNames, find_storage_node}
use libkvs.VirtualStorage.Mounting.Restore.{IsNewAt, Releases, storages_of}
use libkvs.VirtualStorage.Session.{release}
use libkvs.Prelude.{[], ◌∷◌}
use libkvs.StorageRegistry.{
  VolumeImpl, Registry, linear_hash_registry, acquire_storage, release_storage, find_volume,
  put_volume, acquire_node, count_storage, increment, put_key, find_key, find_counter, volume_part,
  node_part, erase_counter, erase_key,
}
use libkvs.VirtualStorage.Mounting.{
  mount_node, unmount_node, has_storage, erase_storage, insert_storage, ◌>>=◌,
}
use libkvs.VirtualStorage.Mounting.Paths.{create_nodes_for_path, create_nodes}
use libkvs.VirtualStorage.Resolve.Laws.{node_at}
use libkvs.VirtualStorage.{find_child, put_child}
use libkvs.VirtualStorage.Tables.{replace_node, put_mount_point, push_node, put_id}
use libkvs.VirtualStorage.Tables.Kept.{HasId, mount_points_at}
use libkvs.VirtualStorage.Session.Reach.{starts, goes_on, mounts, Reach-HasId}
use libkvs.VirtualStorage.Session.{
  attach, mount_acquired, remount_entry, needs_remount, remounts_of,
}
use libkvs.StringUtils.{starts_with}
use libkvs.VirtualStorage.Tables.{find_id, nodes_of_volume}
use libkvs.VirtualStorage.Tables.Writes.{below}
use libkvs.VirtualStorage.Session.{
  k_ok, k_unmounted, k_invalid_mount_id, State, init, remount_nodes, remount_entries, remount_all,
  mount, unmount,
}
use libkvs.VirtualStorage.Session.Layers.{brought_to, mount_layers, unmount-mount}

-- A volume node "V" with two children.
abbrev subtree : StorageNode
subtree = storage_node (bytes "v.json") (bytes "V") 4 (
    storage_child (bytes "A") (storage_node (bytes "v.json") (bytes "V/A") 5 no_storage_nodes) (
      storage_child (bytes "B") (storage_node (bytes "v.json") (bytes "V/B") 6 no_storage_nodes)
        no_storage_nodes))

subtree_unique : UniqueNames subtree
unfolding UniqueNames find_storage_node bytes_eq
subtree_unique = (refl, tt, (refl, tt, tt))

-- It counts the storages that it has released.
abbrev one_subtree : RegistryImpl
one_subtree = record {
  State = ℕ;
  acquire_storage = λ n volume path params. (some (k_acquired, subtree), n);
  release_storage = λ n p. some (k_released, n + 1);
}

abbrev options : MountOptions
options = record {
  storage_mount_path = bytes "A/B";
  volume_file_path = bytes "v.json";
  node_path = bytes "V";
  priority = pos 0;
  hash_table_params = record {
    bucket_capacity = 32;
    max_record_size_bytes = 1024;
    bucket_cache_size_bytes = 4096;
    min_buckets_count = 32;
    min_load_factor = 0;
    max_load_factor = 0;
  };
}

nothing_to_remount :
    remount_nodes one_subtree options (init one_subtree 0) ≡ some (init one_subtree 0)
unfolding remount_nodes remount_entries nodes_of_volume remount_all
nothing_to_remount = refl

mount_layers_example :
    (s' : State one_subtree) × (mount one_subtree options (init one_subtree 0)
      ≡ some (record { status = k_ok; mount_id = 1 }, s'))
    × (find_id 1 s'.mount_points ≡ some (split (bytes "A/B") slash))
    × ((path : NodePath)
        → layers_at s'.root_node path
          ≡ with_storage
              (brought_to subtree (below (split (bytes "A/B") slash) path))
              (pos 0)
              (layers_at (init one_subtree 0).root_node path))
mount_layers_example =
    mount_layers one_subtree options (init one_subtree 0) (init one_subtree 0) subtree 0 refl
      nothing_to_remount subtree_unique

after_mount :
    (s' : State one_subtree) × (mount one_subtree options (init one_subtree 0)
      ≡ some (record { status = k_ok; mount_id = 1 }, s'))
    × (find_id 1 s'.mount_points ≡ some (split (bytes "A/B") slash))
after_mount =
    let (s', done, found, layers) =
      mount_layers one_subtree options (init one_subtree 0) (init one_subtree 0) subtree 0 refl
        nothing_to_remount subtree_unique in
    (s', done, found)

Reach-HasId_example : HasId 1 (mount_points_at after_mount.0.root_node (split (bytes "A/B") slash))
Reach-HasId_example =
    Reach-HasId one_subtree 1 (split (bytes "A/B") slash)
      (goes_on (starts 0) (mounts options (record { status = k_ok; mount_id = 1 }) after_mount.1))
      after_mount.2

-- The registry of the library, with a volume that always loads the subtree.
abbrev one_volume : VolumeImpl
one_volume = record {
  Volume = ℕ;
  open_volume = λ path. some 0;
  load = λ v path params. (some subtree, v);
  unload = λ v path. v + 1;
}

abbrev library_registry : RegistryImpl
library_registry = linear_hash_registry one_volume

abbrev nothing_acquired : Registry one_volume
nothing_acquired = record {
  volumes = [];
  counted = record { storage_counters = []; storage_keys = [] };
}

-- The three storages are in use once.
abbrev acquired_once : Registry one_volume
acquired_once = record {
  volumes = (bytes "v.json", 0) ∷ [];
  counted = record {
    storage_counters =
        (bytes "v.json:V", (4, 1))
        ∷ (bytes "v.json:V/A", (5, 1))
        ∷ (bytes "v.json:V/B", (6, 1))
        ∷ [];
    storage_keys = (4, bytes "v.json:V") ∷ (5, bytes "v.json:V/A") ∷ (6, bytes "v.json:V/B") ∷ [];
  };
}

abbrev before : State library_registry
before = init library_registry nothing_acquired

abbrev loaded : State library_registry
loaded = record before { registry = acquired_once }

acquires :
    acquire_storage one_volume nothing_acquired
      (bytes "v.json")
      (bytes "V")
      options.hash_table_params
    ≡ (some (k_acquired, subtree), acquired_once)
unfolding acquire_storage find_volume put_volume acquire_node count_storage increment put_key
    find_counter bytes_eq
acquires = refl

no_other_mount : remount_nodes library_registry options loaded ≡ some loaded
unfolding remount_nodes remount_entries nodes_of_volume remount_all
no_other_mount = refl

all-Releases : Releases (release library_registry) acquired_once (storages_of subtree)
unfolding Releases storages_of release_storage find_key find_counter find_volume put_volume
    volume_part node_part erase_counter erase_key bytes_eq
all-Releases = (refl, (refl, (refl, tt)))

unmount-mount_example :
    (id : ℕ) × (s' : State library_registry) × (s'' : State library_registry) × (mount
        library_registry options before
      ≡ some (record { status = k_ok; mount_id = id }, s'))
    × (unmount library_registry id s' ≡ some (k_unmounted, s''))
    × (unmount library_registry id s'' ≡ some (k_invalid_mount_id, s''))
    × ((path : NodePath)
        → IsNewAt
            (brought_to subtree (below (split (bytes "A/B") slash) path))
            (layers_at loaded.root_node path)
        → layers_at s''.root_node path ≡ layers_at loaded.root_node path)
unmount-mount_example =
    unmount-mount library_registry options before loaded subtree acquired_once acquires
      no_other_mount subtree_unique all-Releases

-- A mount of a node below a mounted one: the first subtree is taken out and mounted again, for which its
-- three storages are released once.
abbrev below_options : MountOptions
below_options = record options { storage_mount_path = bytes "C"; node_path = bytes "V/A" }

abbrev released_by_both : Option ℕ
released_by_both = mount one_subtree options (init one_subtree 0) >>= λ (first, s).
    mount one_subtree below_options s >>= λ (second, s'). some s'.registry

mounted_again : released_by_both ≡ some 3
unfolding mount mount_acquired remount_nodes remount_entries remounts_of needs_remount
    nodes_of_volume remount_all remount_entry attach create_nodes_for_path create_nodes replace_node
    put_mount_point push_node put_id find_id node_at find_child put_child bytes_eq mount_node
    unmount_node has_storage erase_storage insert_storage starts_with split
mounted_again = refl
