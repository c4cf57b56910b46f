-- ===== src/StorageRegistry/Interface.antt =====
-- src/IStorageRegistry.hpp: the interface of a registry of storages and its results.
use libkvs.Prelude.{ℕ, Bytes, Option, none, some}
use libkvs.VirtualStorage.{HashTableParams, StorageNode}

pub data AcquisitionStatus : Type 0 where
  k_acquired k_volume_load_error k_storage_load_error : AcquisitionStatus

-- The constructor of StorageAcquisitionResult. It reads `m_root->storage` first, also through the null
-- root that an error comes with: `none` is that undefined behaviour, or a failed assertion. A storage
-- that is there is not null.
unfoldable pub acquisition_result :
    Option StorageNode → AcquisitionStatus → Option (AcquisitionStatus × StorageNode)
acquisition_result none status = none
acquisition_result (some root) k_acquired = some (k_acquired, root)
acquisition_result (some root) k_volume_load_error = none
acquisition_result (some root) k_storage_load_error = none

pub data ReleaseStatus : Type 0 where
  k_released k_storage_not_found : ReleaseStatus

-- IStorageRegistry. An acquisition that gives no result, and a release that gives none, end in
-- undefined behaviour or in a failed assertion.
pub record RegistryImpl : Type 1 where
  pub State : Type 0
  pub acquire_storage :
      State → Bytes → Bytes → HashTableParams → Option (AcquisitionStatus × StorageNode) × State
  pub release_storage : State → ℕ → Option (ReleaseStatus × State)
