-- ===== src/LoadTest/Runner.antt =====
-- load_test/src/TestRunner.cpp and utility.inl: the runner, for one thread, over the composite storage that is
-- tested. The clock is an argument, and an order of an unordered_map is that of its list of entries.
use libkvs.Prelude.{
  ℕ, ◌+◌, max, ◌==◌, Bytes, bytes, Bool, true, false, Option, none, some, List, [], ◌∷◌, ltb,
  if◌then◌else◌, length,
}
use libkvs.Prelude.Int.{pos}
use libkvs.RandomUtils.{random, generate_string, ◌>>=◌}
use libkvs.VirtualStorage.{MountOptions}
use libkvs.VirtualStorage.Tables.{find_id, put_id, erase_id}
use libkvs.VirtualStorage.Session.{
  MountResult, MountStatus, UnmountStatus, k_unmounted, k_invalid_mount_id,
}
use libkvs.LoadTest.{
  TestOptions, Sample, SampleCounters, zero_counters, Operation, k_read, k_write, k_delete, k_mount,
  k_unmount, k_key_range_query, operation_weights, add_weights, generate_path,
}
use libkvs.LoadTest.Containers.{count_path, uncount_path, get_random_element}

-- The composite storage, by the calls that the runner makes. The statuses of the operations on values
-- are not looked at. A mount or an unmount that gives none does not return.
pub record CompositeStorage : Type 1 where
  pub State : Type 0
  pub mount : MountOptions → State → Option (MountResult × State)
  pub unmount : ℕ → State → Option (UnmountStatus × State)
  pub get_value : Bytes → Bytes → State → State
  pub put_value : Bytes → Bytes → ℕ → State → State
  pub delete_value : Bytes → Bytes → State → State
  pub get_keys_range : Bytes → ℕ → ℕ → State → State

module _ (S : CompositeStorage) (engine : ℕ → ℕ) where
  pub record TestRunner : Type 0 where
    pub opts : TestOptions
    pub total_weight : ℕ
    pub samples : List Sample
    pub counters : SampleCounters
    pub storage : S.State
    pub storage_paths : List (Bytes × ℕ)
    pub mount_points : List (ℕ × Bytes)
    pub keys_in_use : List Bytes
    pub interval_start_time : ℕ
    -- the index of the next draw
    pub next_draw : ℕ

  -- `kvs::MountOptions` as the runner fills them in. The load factors keep their default values 0.75
  -- and 0.95, whose bit patterns these are.
  abbrev pub mount_options : TestOptions → Bytes → Bytes → MountOptions
  mount_options o mount_path node_path = record {
    storage_mount_path = mount_path;
    volume_file_path = bytes "load_test_data/load_test_volume.json";
    node_path = node_path;
    priority = pos 0;
    hash_table_params = record {
      bucket_capacity = 32;
      max_record_size_bytes = o.record_size;
      bucket_cache_size_bytes = o.cache_size;
      min_buckets_count = 32;
      min_load_factor = 4604930618986332160;
      max_load_factor = 4606732058837280358;
    };
  }

  -- `assert(result.isOk())`
  abbrev pub with_status : MountStatus → ℕ × S.State → Option (ℕ × S.State)
  with_status MountStatus.k_ok r = some r
  with_status _ r = none

  abbrev pub mounted : Option (MountResult × S.State) → Option (ℕ × S.State)
  mounted none = none
  mounted (some (result, s)) = with_status result.status (result.mount_id, s)

  -- The insertions after a mount.
  unfoldable pub record_mount : Bytes → ℕ × S.State → TestRunner → Option TestRunner
  record_mount path (id, storage) t = count_path path t.storage_paths >>= λ paths. some (record t {
    storage = storage;
    storage_paths = paths;
    mount_points = put_id id path t.mount_points;
  })

  -- TestRunner::TestRunner
  unfoldable pub new_test_runner : TestOptions → S.State → ℕ → Option TestRunner
  new_test_runner options storage now =
      let opts : TestOptions = record options { max_nodes = max 1 options.max_nodes } in
      let created : TestRunner = record {
        opts = opts;
        total_weight = add_weights 0 (operation_weights opts);
        samples = [];
        counters = zero_counters;
        storage = storage;
        storage_paths = [];
        mount_points = [];
        keys_in_use = [];
        interval_start_time = now;
        next_draw = 0;
      } in
      mounted (S.mount (mount_options opts (bytes "A") (bytes "A")) storage) >>= λ r.
      record_mount (bytes "A") r created

  -- getRandomKey, with the index of the next draw
  unfoldable pub get_random_key : TestRunner → ℕ → Option (Bytes × ℕ)
  get_random_key t i =
      let fresh = generate_string engine (i + 1) t.opts.key_length >>= λ key.
      some (key, i + 1 + t.opts.key_length) in
      random (engine i) 100 >>= λ r. if ltb r 3 then fresh else elim t.keys_in_use [
        | [] ↦ fresh
        | k ∷ ks ↦ get_random_element (engine (i + 1)) (k ∷ ks) >>= λ key. some (key, i + 2)
      ]

  -- getRandomPath
  unfoldable pub get_random_path : TestRunner → ℕ → Option (Bytes × ℕ)
  get_random_path t i =
      let fresh = generate_path engine (i + 1) in
      random (engine i) 100 >>= λ r. if ltb r 3 then fresh else elim t.storage_paths [
        | [] ↦ fresh
        | p ∷ ps ↦ get_random_element (engine (i + 1)) (p ∷ ps) >>= λ entry. some (entry.0, i + 2)
      ]

  -- getRandomMountId
  unfoldable pub mount_id_among : List (ℕ × Bytes) → ℕ → Option (ℕ × ℕ)
  mount_id_among [] i = some (0, i)
  mount_id_among (p ∷ ps) i =
      get_random_element (engine i) (p ∷ ps) >>= λ entry. some (entry.0, i + 1)

  unfoldable pub get_random_mount_id : TestRunner → ℕ → Option (ℕ × ℕ)
  unfolding mount_id_among
  get_random_mount_id t i = mount_id_among t.mount_points i

  unfoldable pub perform_read_op : TestRunner → Option TestRunner
  perform_read_op t = get_random_key t t.next_draw >>= λ (key, i).
      get_random_path t i >>= λ (path, j).
      some (record t { storage = S.get_value key path t.storage; next_draw = j })

  unfoldable pub perform_write_op : TestRunner → Option TestRunner
  perform_write_op t = generate_string engine t.next_draw t.opts.key_length >>= λ key.
      generate_path engine (t.next_draw + t.opts.key_length) >>= λ (path, j).
      some (record t { storage = S.put_value key path t.opts.data_size t.storage; next_draw = j })

  unfoldable pub perform_delete_op : TestRunner → Option TestRunner
  perform_delete_op t = get_random_key t t.next_draw >>= λ (key, i).
      get_random_path t i >>= λ (path, j).
      some (record t { storage = S.delete_value key path t.storage; next_draw = j })

  unfoldable pub mount_random : TestRunner → Option TestRunner
  mount_random t = generate_path engine t.next_draw >>= λ (mount_path, i).
      generate_path engine i >>= λ (node_path, j).
      mounted (S.mount (mount_options t.opts mount_path node_path) t.storage) >>= λ r.
      record_mount mount_path r (record t { next_draw = j })

  -- performMountOp
  unfoldable pub perform_mount_op : TestRunner → Option (Bool × TestRunner)
  perform_mount_op t =
      if length t.storage_paths == t.opts.max_nodes
      then some (false, t)
      else mount_random t >>= λ t'. some (true, t')

  -- What `performUnmountOp` does when `unmount` has returned. `none` is a use of the end of
  -- `m_mountPoints`.
  unfoldable pub record_unmount : ℕ → UnmountStatus × S.State → TestRunner → Option TestRunner
  record_unmount id (k_unmounted, storage) t = find_id id t.mount_points >>= λ path.
      uncount_path path t.storage_paths >>= λ paths. some (record t {
        storage = storage;
        storage_paths = paths;
        mount_points = erase_id id t.mount_points;
      })
  record_unmount id (k_invalid_mount_id, storage) t = some (record t { storage = storage })

  unfoldable pub unmount_random : TestRunner → Option TestRunner
  unmount_random t = get_random_mount_id t t.next_draw >>= λ (id, i).
      S.unmount id t.storage >>= λ r. record_unmount id r (record t { next_draw = i })

  -- performUnmountOp
  unfoldable pub perform_unmount_op : TestRunner → Option (Bool × TestRunner)
  perform_unmount_op t =
      if length t.storage_paths == 1
      then some (false, t)
      else unmount_random t >>= λ t'. some (true, t')

  unfoldable pub perform_key_range_query_op : TestRunner → Option TestRunner
  perform_key_range_query_op t = random (engine t.next_draw) 1000 >>= λ offset.
      random (engine (t.next_draw + 1)) 1000 >>= λ count.
      get_random_path t (t.next_draw + 2) >>= λ (path, j).
      some (record t { storage = S.get_keys_range path offset count t.storage; next_draw = j })

  -- The switch of `threadFunc`; false is `continue`.
  unfoldable pub perform : Operation → TestRunner → Option (Bool × TestRunner)
  perform k_read t = perform_read_op t >>= λ t'. some (true, t')
  perform k_write t = perform_write_op t >>= λ t'. some (true, t')
  perform k_delete t = perform_delete_op t >>= λ t'. some (true, t')
  perform k_mount t = perform_mount_op t
  perform k_unmount t = perform_unmount_op t
  perform k_key_range_query t = perform_key_range_query_op t >>= λ t'. some (true, t')
