-- ===== src/LinearHashStorage/Construction.antt =====
-- The constructor of LinearHashStorage (src/linear_hashing/LinearHashStorage.cpp): the arguments that it
-- gives to FileBucketManager of libs/index-cpp, besides the two functions of `Serialize`. It makes the
-- table over that manager.
use libkvs.Prelude.{ℕ, max, ◌≤◌, ◌≡◌, refl, Bytes, Bool, arith}
use libkvs.LinearHashVolume.{StorageParams}

pub record BucketManagerArguments : Type 0 where
  pub bucket_capacity : ℕ
  pub min_buckets_count : ℕ
  pub primary_filepath : Bytes
  pub overflow_filepath : Bytes
  pub max_record_size_bytes : ℕ
  pub is_little_endian : Bool
  pub bucket_cache_size : ℕ

unfoldable pub bucket_manager_arguments : Bool → StorageParams → BucketManagerArguments
bucket_manager_arguments is_little_endian params = record {
  bucket_capacity = params.hash_table_params.bucket_capacity;
  min_buckets_count = params.hash_table_params.min_buckets_count;
  primary_filepath = params.primary_filepath;
  overflow_filepath = params.overflow_filepath;
  max_record_size_bytes = params.hash_table_params.max_record_size_bytes;
  is_little_endian = is_little_endian;
  bucket_cache_size =
      max params.hash_table_params.bucket_cache_size_bytes
        params.hash_table_params.max_record_size_bytes;
}

abbrev with_load_factors : ℕ → ℕ → StorageParams → StorageParams
with_load_factors low high params = record params {
  hash_table_params = record (params.hash_table_params) {
    min_load_factor = low;
    max_load_factor = high;
  };
}

-- The cache has room for a record of the largest size, and the load factors change nothing.
pub bucket_manager_arguments_lem :
    (is_little_endian : Bool) (params : StorageParams) (low high : ℕ)
    → let arguments = bucket_manager_arguments is_little_endian params in
      (arguments.max_record_size_bytes ≤ arguments.bucket_cache_size)
      × (bucket_manager_arguments is_little_endian (with_load_factors low high params) ≡ arguments)
unfolding bucket_manager_arguments
bucket_manager_arguments_lem is_little_endian params low high = (omega arith, refl)
