-- ===== src/StorageRegistry.antt =====
-- src/IStorageRegistry.hpp, linear_hashing/LinearHashStorageRegistry.hpp, LinearHashStorageRegistry.cpp:
-- which storages are in use, and how often. A volume is behind its interface (src/IVolume.hpp); a
-- pointer to a storage is a number.
pub mod Counting
pub mod Interface
mod Tests
use libkvs.Prelude.{
  ℕ, zero, suc, ◌^◌, ltb, ◌==◌, Bytes, bytes_eq, Bool, true, false, Option, none, some, List, [],
  ◌∷◌, ◌++◌, if◌then◌else◌,
}
use libkvs.StringUtils.{slash}
use libkvs.StorageRegistry.Interface.{
  AcquisitionStatus, k_acquired, k_volume_load_error, k_storage_load_error, ReleaseStatus,
  k_released, k_storage_not_found, acquisition_result, RegistryImpl,
}
use libkvs.VirtualStorage.Mounting.{◌>>=◌}
use libkvs.VirtualStorage.{
  HashTableParams, StorageNode, StorageNodes, storage_node, no_storage_nodes, storage_child,
}

-- IVolume: `open_volume` is the constructor with `isOk`, and `load` and `unload` are loadStorage and
-- unloadStorage; `none` is a failure. A failed load may change the volume too.
pub record VolumeImpl : Type 1 where
  pub Volume : Type 0
  pub open_volume : Bytes → Option Volume
  pub load : Volume → Bytes → HashTableParams → Option StorageNode × Volume
  pub unload : Volume → Bytes → Volume

-- The separator of the two parts of a key.
abbrev pub colon : ℕ
colon = b':'

-- volumeFilepath + ":" + nodePath
abbrev pub full_key : Bytes → Bytes → Bytes
full_key volume_filepath node_path = volume_filepath ++ colon ∷ node_path

-- fullKey.substr(0, delimPos); all of it if there is no colon.
unfoldable pub volume_part : Bytes → Bytes
volume_part [] = []
volume_part (c ∷ cs) = let rest = volume_part cs in if c == colon then [] else c ∷ rest

-- fullKey.substr(delimPos + 1); all of `whole` if there is no colon, since npos + 1 is 0.
unfoldable pub node_part : Bytes → Bytes → Bytes
node_part whole [] = whole
node_part whole (c ∷ cs) = let rest = node_part whole cs in if c == colon then cs else rest

-- m_storageCounters: the storage and the counter of each key.
abbrev pub Counters : Type 0
Counters = List (Bytes × (ℕ × ℕ))

unfoldable pub find_counter : Bytes → Counters → Option (ℕ × ℕ)
find_counter key [] = none
find_counter key ((j, c) ∷ cs) = if bytes_eq j key then some c else find_counter key cs

-- `emplace(key, {storage, 0})` where the key is missing, and `found->second.second++` on an int; `none`
-- is its overflow, which is undefined.
unfoldable pub increment : Bytes → ℕ → Counters → Option Counters
increment key storage [] = some ((key, (storage, 1)) ∷ [])
increment key storage ((j, (p, n)) ∷ cs) =
    let rest = increment key storage cs >>= λ cs'. some ((j, (p, n)) ∷ cs') in
    let raised = if ltb (suc n) (2 ^ 31) then some ((j, (p, suc n)) ∷ cs) else none in
    if bytes_eq j key then raised else rest

-- The counter of the key gets a new value.
unfoldable pub set_counter : Bytes → ℕ → Counters → Counters
set_counter key m [] = []
set_counter key m ((j, (p, n)) ∷ cs) =
    if bytes_eq j key then (j, (p, m)) ∷ cs else (j, (p, n)) ∷ set_counter key m cs

-- m_storageCounters.erase
unfoldable pub erase_counter : Bytes → Counters → Counters
erase_counter key [] = []
erase_counter key ((j, c) ∷ cs) =
    if bytes_eq j key then erase_counter key cs else (j, c) ∷ erase_counter key cs

-- m_storageKeys
abbrev pub StorageKeys : Type 0
StorageKeys = List (ℕ × Bytes)

unfoldable pub find_key : ℕ → StorageKeys → Option Bytes
find_key p [] = none
find_key p ((q, key) ∷ ks) = if q == p then some key else find_key p ks

-- m_storageKeys[storage] = key
unfoldable pub put_key : ℕ → Bytes → StorageKeys → StorageKeys
put_key p key [] = (p, key) ∷ []
put_key p key ((q, old) ∷ ks) = if q == p then (q, key) ∷ ks else (q, old) ∷ put_key p key ks

unfoldable pub erase_key : ℕ → StorageKeys → StorageKeys
erase_key p [] = []
erase_key p ((q, key) ∷ ks) = if q == p then erase_key p ks else (q, key) ∷ erase_key p ks

pub record Counted : Type 0 where
  pub storage_counters : Counters
  pub storage_keys : StorageKeys

abbrev pub is_none {ℓ} : {A : Type ℓ} → Option A → Bool
is_none none = true
is_none (some a) = false

-- One round of the private `acquireStorage`.
unfoldable pub count_storage : Bytes → ℕ → Counted → Option Counted
count_storage key storage r = increment key storage r.storage_counters >>= λ counters.
    some (record {
      storage_counters = counters;
      storage_keys =
          if is_none (find_counter key r.storage_counters)
          then put_key storage key r.storage_keys
          else r.storage_keys;
    })

-- The private `acquireStorage`: the node and all nodes below it.
unfoldable mutual
  pub acquire_node : StorageNode → Bytes → Bytes → Counted → Option Counted
  acquire_node (storage_node v p storage kids) volume_filepath node_path r =
      count_storage (full_key volume_filepath node_path) storage r
      >>= acquire_children kids volume_filepath node_path

  pub acquire_children : StorageNodes → Bytes → Bytes → Counted → Option Counted
  acquire_children no_storage_nodes volume_filepath node_path r = some r
  acquire_children (storage_child name child others) volume_filepath node_path r =
      acquire_node child volume_filepath (node_path ++ slash ∷ name) r
      >>= acquire_children others volume_filepath node_path

module _ (V : VolumeImpl) where
  pub record Registry : Type 0 where
    pub volumes : List (Bytes × V.Volume)
    pub counted : Counted

  unfoldable pub find_volume : Bytes → List (Bytes × V.Volume) → Option V.Volume
  find_volume path [] = none
  find_volume path ((j, v) ∷ vs) = if bytes_eq j path then some v else find_volume path vs

  unfoldable pub put_volume : Bytes → V.Volume → List (Bytes × V.Volume) → List (Bytes × V.Volume)
  put_volume path new [] = (path, new) ∷ []
  put_volume path new ((j, v) ∷ vs) =
      if bytes_eq j path then (j, new) ∷ vs else (j, v) ∷ put_volume path new vs

  -- The volume that is loaded already, or a new one.
  abbrev pub volume_for : Option V.Volume → Bytes → Option V.Volume
  volume_for none path = V.open_volume path
  volume_for (some v) path = some v

  -- A result, and the registry.
  abbrev pub Acquired : Type 0
  Acquired = Option (AcquisitionStatus × StorageNode) × Registry

  -- The result, once the storages are counted; their overflow has none.
  abbrev pub with_counted :
      StorageNode → List (Bytes × V.Volume) → Registry → Option Counted → Acquired
  with_counted root volumes r none = (none, r)
  with_counted root volumes r (some counted) =
      (acquisition_result (some root) k_acquired, record { volumes = volumes; counted = counted })

  pub acquire_loaded : Registry → Bytes → Bytes → Option StorageNode × V.Volume → Acquired
  unfolding put_volume acquisition_result
  acquire_loaded r path node_path (none, v) = (
    acquisition_result none k_storage_load_error,
    record r { volumes = put_volume path v r.volumes },
  )
  acquire_loaded r path node_path (some root, v) =
      with_counted root (put_volume path v r.volumes) r (acquire_node root path node_path r.counted)

  pub acquire_from : Registry → Bytes → Bytes → HashTableParams → Option V.Volume → Acquired
  unfolding acquire_loaded
  acquire_from r path node_path params none = (acquisition_result none k_volume_load_error, r)
  acquire_from r path node_path params (some v) =
      acquire_loaded r path node_path (V.load v node_path params)

  unfoldable pub acquire_storage : Registry → Bytes → Bytes → HashTableParams → Acquired
  unfolding acquire_from find_volume
  acquire_storage r path node_path params =
      acquire_from r path node_path params (volume_for (find_volume path r.volumes) path)

  -- The last use of a storage has ended: the volume unloads it.
  unload_storage : Registry → ℕ → Bytes → Option V.Volume → Option (ReleaseStatus × Registry)
  unload_storage r storage key none = none
  unload_storage r storage key (some v) = some (
    k_released,
    record {
      volumes = put_volume (volume_part key) (V.unload v (node_part key key)) r.volumes;
      counted = record {
        storage_counters = erase_counter key r.counted.storage_counters;
        storage_keys = erase_key storage r.counted.storage_keys;
      };
    },
  )

  release_counted : Registry → ℕ → Bytes → Option (ℕ × ℕ) → Option (ReleaseStatus × Registry)
  unfolding unload_storage
  release_counted r storage key none = none
  release_counted r storage key (some (p, zero)) = none
  release_counted r storage key (some (p, suc zero)) =
      unload_storage r storage key (find_volume (volume_part key) r.volumes)
  release_counted r storage key (some (p, suc (suc n))) = some (
    k_released,
    record r {
      counted = record {
        storage_counters = set_counter key (suc n) r.counted.storage_counters;
        storage_keys = r.counted.storage_keys;
      };
    },
  )

  release_keyed : Registry → ℕ → Option Bytes → Option (ReleaseStatus × Registry)
  unfolding release_counted
  release_keyed r storage none = some (k_storage_not_found, r)
  release_keyed r storage (some key) =
      release_counted r storage key (find_counter key r.counted.storage_counters)

  -- `none` is a failed assertion.
  unfoldable pub release_storage : Registry → ℕ → Option (ReleaseStatus × Registry)
  unfolding release_keyed
  release_storage r storage = release_keyed r storage (find_key storage r.counted.storage_keys)

  -- The registry as one of the interface.
  abbrev pub linear_hash_registry : RegistryImpl
  linear_hash_registry = record {
    State = Registry;
    acquire_storage = acquire_storage;
    release_storage = release_storage;
  }
