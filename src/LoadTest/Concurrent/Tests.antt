-- ===== src/LoadTest/Concurrent/Tests.antt =====
-- Threads of the load test at concrete inputs: a composite storage that keeps the ids that are mounted.
use libkvs.Prelude.{
  ℕ, suc, ◌<◌, ◌≡◌, ◌==◌, refl, ◌||◌, bytes, bytes_eq, Bool, true, false, some, List, [], ◌∷◌,
  if◌then◌else◌, length, arith,
}
use libkvs.VirtualStorage.Tables.{put_id}
use libkvs.VirtualStorage.Session.{MountStatus, UnmountStatus, k_unmounted, k_invalid_mount_id}
use libkvs.LoadTest.{TestOptions, k_mount, zero_counters, add_weights, operation_weights}
use libkvs.LoadTest.Containers.{count_path}
use libkvs.LoadTest.Runner.{CompositeStorage, TestRunner, new_test_runner, record_mount}
use libkvs.LoadTest.Concurrent.{
  looping, to_mount, to_record, to_count, System, with_pc, step, check_mount, mount, record_it,
  Reach, here, next,
}

abbrev has_id : ℕ → List ℕ → Bool
has_id j [] = false
has_id j (i ∷ is) = (i == j) || has_id j is

abbrev drop_id : ℕ → List ℕ → List ℕ
drop_id j [] = []
drop_id j (i ∷ is) = if i == j then drop_id j is else i ∷ drop_id j is

-- The next id, and the ids that are mounted.
abbrev Ids : Type 0
Ids = ℕ × List ℕ

abbrev unmount_id : ℕ → Ids → Bool → UnmountStatus × Ids
unmount_id id s true = (k_unmounted, (s.0, drop_id id s.1))
unmount_id id s false = (k_invalid_mount_id, s)

abbrev id_storage : CompositeStorage
id_storage = record {
  State = Ids;
  mount = λ o s. some (record { status = MountStatus.k_ok; mount_id = s.0 }, (suc s.0, s.0 ∷ s.1));
  unmount = λ id s. some (unmount_id id s (has_id id s.1));
  get_value = λ key path s. s;
  put_value = λ key path size s. s;
  delete_value = λ key path s. s;
  get_keys_range = λ path offset count s. s;
}

abbrev draws : ℕ → ℕ
draws i = i

-- At most two paths.
abbrev options : TestOptions
options = record {
  threads_count = 2;
  cache_size = 4096;
  record_size = 1024;
  data_size = 16;
  max_nodes = 2;
  reads_weight = 2;
  writes_weight = 0;
  deletes_weight = 1;
  mounts_weight = 3;
  unmounts_weight = 2;
  krqs_weight = 1;
  test_time = 1000;
  window_size = 100;
  key_length = 2;
  rnd_seed = 0;
}

abbrev made : TestRunner id_storage draws
made = record {
  opts = options;
  total_weight = 9;
  samples = [];
  counters = zero_counters;
  storage = (1, 0 ∷ []);
  storage_paths = (bytes "A", 1) ∷ [];
  mount_points = (0, bytes "A") ∷ [];
  keys_in_use = [];
  interval_start_time = 0;
  next_draw = 0;
}

made-new : new_test_runner id_storage draws options (0, []) 0 ≡ some made
unfolding new_test_runner record_mount count_path put_id add_weights operation_weights
made-new = refl

-- Two threads pass the check of performMountOp before the first of them mounts.
abbrev two_checked : System id_storage draws
two_checked = record {
  runner = made;
  pc =
      with_pc id_storage draws
        (with_pc id_storage draws (λ u. looping) 0 (to_mount (bytes "B") (bytes "B"))) 1
        (to_mount (bytes "C") (bytes "C"));
}

abbrev both_mounted : System id_storage draws
both_mounted = record {
  runner = record made { storage = (3, 2 ∷ 1 ∷ 0 ∷ []) };
  pc =
      with_pc id_storage draws (with_pc id_storage draws two_checked.pc 0 (to_record (bytes "B") 1))
        1 (to_record (bytes "C") 2);
}

abbrev both_recorded : System id_storage draws
both_recorded = record {
  runner = record both_mounted.runner {
    storage_paths = (bytes "A", 1) ∷ (bytes "B", 1) ∷ (bytes "C", 1) ∷ [];
    mount_points = (0, bytes "A") ∷ (1, bytes "B") ∷ (2, bytes "C") ∷ [];
  };
  pc =
      with_pc id_storage draws (with_pc id_storage draws both_mounted.pc 0 (to_count k_mount)) 1
        (to_count k_mount);
}

two_checked-Reach : Reach id_storage draws made two_checked
two_checked-Reach =
    next (next here (step 0 _ made (check_mount (bytes "B") (bytes "B") refl)))
      (step 1 _ made (check_mount (bytes "C") (bytes "C") refl))

both_mounted-Reach : Reach id_storage draws made both_mounted
both_mounted-Reach =
    next
      (next two_checked-Reach (step 0 _ _ (mount (bytes "B") (bytes "B") 1 (2, 1 ∷ 0 ∷ []) refl)))
      (step 1 _ _ (mount (bytes "C") (bytes "C") 2 (3, 2 ∷ 1 ∷ 0 ∷ []) refl))

both_recorded-Reach : Reach id_storage draws made both_recorded
unfolding record_mount count_path put_id bytes_eq
both_recorded-Reach =
    next (next both_mounted-Reach (step 0 _ _ (record_it (bytes "B") 1 _ refl)))
      (step 1 _ _ (record_it (bytes "C") 2 _ refl))

-- So there can be more paths than `max_nodes`, and from then on the check never fails.
more_than_max_nodes :
    both_recorded.runner.opts.max_nodes < length both_recorded.runner.storage_paths
more_than_max_nodes = omega arith
