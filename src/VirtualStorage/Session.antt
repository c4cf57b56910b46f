-- ===== src/VirtualStorage/Session.antt =====
-- The public `mount` and `unmount`, over any registry of storages (src/VirtualStorage.hpp,
-- VirtualStorage.cpp, ICompositeStorage.hpp). Both hold the lock of the root in mode X from start to
-- end, so each is one step.
pub mod Layers
pub mod Known
pub mod Reach
pub mod Ids
mod Tests
use libkvs.Prelude.{
  ℕ, ◌+◌, ◌%◌, ◌^◌, Bytes, bytes_eq, Bool, true, false, not, ◌&&◌, Option, none, some, List, [],
  ◌∷◌, ◌++◌, if◌then◌else◌,
}
use libkvs.StringUtils.{split, slash, starts_with}
use libkvs.StorageRegistry.Interface.{
  AcquisitionStatus, ReleaseStatus, k_acquired, k_released, k_storage_not_found, RegistryImpl,
}
use libkvs.VirtualStorage.{
  MountOptions, StorageNode, storage_node, NodePath, RemountOptions, MountPoint, Node, empty_node,
  mount_points,
}
use libkvs.VirtualStorage.Resolve.Laws.{node_at}
use libkvs.VirtualStorage.Mounting.{or_new, mount_node, unmount_node, ◌>>=◌}
use libkvs.VirtualStorage.Tables.{
  find_id, put_id, erase_id, nodes_of_volume, push_node, replace_node, put_mount_point,
  erase_mount_point,
}
use libkvs.VirtualStorage.Mounting.Paths.{create_nodes_for_path}

-- MountResult::Status
pub data MountStatus : Type 0 where
  k_ok k_volume_load_error k_storage_load_error : MountStatus

pub record MountResult : Type 0 where
  pub status : MountStatus
  pub mount_id : ℕ

-- UnmountResult::Status
pub data UnmountStatus : Type 0 where
  k_unmounted k_invalid_mount_id : UnmountStatus

-- createMountResult
unfoldable pub create_mount_result : AcquisitionStatus → MountResult
create_mount_result AcquisitionStatus.k_acquired = record { status = k_ok; mount_id = 0 }
create_mount_result AcquisitionStatus.k_volume_load_error = record {
  status = k_volume_load_error;
  mount_id = 0;
}
create_mount_result AcquisitionStatus.k_storage_load_error = record {
  status = k_storage_load_error;
  mount_id = 0;
}

abbrev pub volume_of : StorageNode → Bytes
volume_of (storage_node volume path storage kids) = volume

abbrev pub node_path_of : StorageNode → Bytes
node_path_of (storage_node volume path storage kids) = path

-- The tests on a mount point in `remountNodes`: it is of the same volume, and the new node lies in
-- its subtree, by the texts of the paths, and is another one.
unfoldable pub needs_remount : MountOptions → StorageNode → Bool
needs_remount options mounted =
    bytes_eq (volume_of mounted) options.volume_file_path
    && starts_with options.node_path (node_path_of mounted)
    && not (bytes_eq options.node_path (node_path_of mounted))

unfoldable pub remounts_of : MountOptions → List (ℕ × MountPoint) → List RemountOptions
unfolding needs_remount
remounts_of options [] = []
remounts_of options ((id, mp) ∷ mps) =
    if needs_remount options mp.storage_node
    then mp.remount_options ∷ remounts_of options mps
    else remounts_of options mps

unfoldable pub remount_entries : MountOptions → Node → List NodePath → List RemountOptions
unfolding remounts_of
remount_entries options root [] = []
remount_entries options root (path ∷ paths) =
    remounts_of options (mount_points (or_new (node_at root path)))
    ++ remount_entries options root paths

module _ (G : RegistryImpl) where
  pub record State : Type 0 where
    pub registry : G.State
    pub root_node : Node
    pub mount_id_counter : ℕ
    pub mount_points : List (ℕ × NodePath)
    pub volumes_to_node_mount_points_map : List (Bytes × List NodePath)

  -- VirtualStorage::VirtualStorage()
  abbrev pub init : G.State → State
  init registry = record {
    registry = registry;
    root_node = empty_node;
    mount_id_counter = 1;
    mount_points = [];
    volumes_to_node_mount_points_map = [];
  }

  -- What `unmount_node` makes of the registry: a status that is not kOk fails an assertion, as does
  -- one inside `releaseStorage`.
  abbrev pub released : G.State → Option (ReleaseStatus × G.State) → Bool × G.State
  released g none = (false, g)
  released g (some (k_released, g')) = (true, g')
  released g (some (k_storage_not_found, g')) = (false, g')

  abbrev pub release : G.State → ℕ → Bool × G.State
  release g storage = released g (G.release_storage g storage)

  -- `none` is a failed assertion.
  abbrev pub acquired :
      Option (AcquisitionStatus × StorageNode) × G.State → Option (StorageNode × G.State)
  acquired (some (k_acquired, root), g) = some (root, g)
  acquired (_, g) = none

  -- One entry of the second loop of `remountNodes`. The mount point was found in the first loop; an
  -- entry that is not there any more would be made empty, and its null `storageNode` fails an
  -- assertion.
  unfoldable pub remount_entry : RemountOptions → State → Option State
  remount_entry entry s =
      let options = entry.mount_options in
      let n = or_new (node_at s.root_node entry.node) in
      find_id entry.mount_id (mount_points n) >>= λ old.
      unmount_node release s.registry n old.storage_node >>= λ gone.
      acquired (
        G.acquire_storage gone.0 options.volume_file_path options.node_path
          options.hash_table_params)
      >>= λ got.
          let mounted =
            mount_node (put_mount_point entry.mount_id (record old { storage_node = got.0 }) gone.1)
              got.0 options.priority in
          some
            (record s { registry = got.1; root_node = replace_node s.root_node entry.node mounted })

  unfoldable pub remount_all : List RemountOptions → State → Option State
  remount_all [] s = some s
  remount_all (entry ∷ entries) s = remount_entry entry s >>= remount_all entries

  -- remountNodes; `none` is a failed assertion.
  unfoldable pub remount_nodes : MountOptions → State → Option State
  unfolding remount_entries nodes_of_volume remount_all
  remount_nodes options s =
      remount_all
        (remount_entries options s.root_node
          (nodes_of_volume options.volume_file_path s.volumes_to_node_mount_points_map))
        s

  -- `mount`, from the creation of the nodes on.
  unfoldable pub attach : MountOptions → StorageNode → State → MountResult × State
  unfolding put_mount_point replace_node
  attach options root s =
      let path = split options.storage_mount_path slash in
      let id = s.mount_id_counter in
      let created = create_nodes_for_path s.root_node options.storage_mount_path in
      let mounted = mount_node (or_new (node_at created path)) root options.priority in
      let mount_point : MountPoint = record {
        storage_node = root;
        priority = options.priority;
        remount_options = record { node = path; mount_id = id; mount_options = options };
      } in
      (
        record { status = k_ok; mount_id = id },
        record {
          registry = s.registry;
          root_node = replace_node created path (put_mount_point id mount_point mounted);
          mount_id_counter = (id + 1) % 2 ^ 64;
          mount_points = put_id id path s.mount_points;
          volumes_to_node_mount_points_map =
              push_node options.volume_file_path path s.volumes_to_node_mount_points_map;
        },
      )

  pub mount_acquired :
      MountOptions
      → State
      → Option (AcquisitionStatus × StorageNode) × G.State
      → Option (MountResult × State)
  unfolding remount_nodes attach create_mount_result
  mount_acquired options s (none, g) = none
  mount_acquired options s (some (k_acquired, root), g) =
      remount_nodes options (record s { registry = g }) >>= λ s'. some (attach options root s')
  mount_acquired options s (some (status, root), g) =
      some (create_mount_result status, record s { registry = g })

  -- mount; `none` is undefined behaviour of the registry, or a failed assertion.
  unfoldable pub mount : MountOptions → State → Option (MountResult × State)
  unfolding mount_acquired
  mount options s = mount_acquired options s (
      G.acquire_storage s.registry options.volume_file_path options.node_path
        options.hash_table_params)

  -- `unmount`, once the node is found.
  unfoldable pub detach : ℕ → NodePath → State → Option State
  unfolding erase_mount_point replace_node
  detach id path s =
      let n = or_new (node_at s.root_node path) in
      find_id id (mount_points n) >>= λ mp.
      unmount_node release s.registry n mp.storage_node >>= λ gone. some (record s {
        registry = gone.0;
        root_node = replace_node s.root_node path (erase_mount_point id gone.1);
        mount_points = erase_id id s.mount_points;
      })

  pub unmount_found : ℕ → Option NodePath → State → Option (UnmountStatus × State)
  unfolding detach
  unmount_found id none s = some (k_invalid_mount_id, s)
  unmount_found id (some path) s = detach id path s >>= λ s'. some (k_unmounted, s')

  -- unmount; `none` is a failed assertion.
  unfoldable pub unmount : ℕ → State → Option (UnmountStatus × State)
  unfolding unmount_found
  unmount id s = unmount_found id (find_id id s.mount_points) s
