-- ===== src/LoadTest/Tests.antt =====
-- The load test at concrete inputs: a composite storage that only counts its mounts, and an engine that
-- counts up.
use libkvs.Prelude.{Option, none, true}
use libkvs.Prelude.Int.{ℤ, pos}
use libkvs.Storage.{is_some}
use libkvs.StringUtils.{split, starts_with}
use libkvs.Value.{Value, k_int32}
use libkvs.LinearHashStorage.Sample.{list_storage}
use libkvs.StorageRegistry.{
  VolumeImpl, linear_hash_registry, acquire_storage, find_volume, put_volume, acquire_node,
  count_storage, increment, put_key, find_counter,
}
use libkvs.VirtualStorage.{storage_node, no_storage_nodes, find_child, put_child}
use libkvs.VirtualStorage.Resolve.Laws.{node_at}
use libkvs.VirtualStorage.Mounting.{mount_node, insert_storage, ◌>>=◌}
use libkvs.VirtualStorage.Mounting.Unmount.{bind-some}
use libkvs.VirtualStorage.Mounting.Paths.{create_nodes_for_path, create_nodes}
use libkvs.VirtualStorage.Tables.{
  find_id, nodes_of_volume, push_node, replace_node, put_mount_point,
}
use libkvs.VirtualStorage.Session.{
  init, mount, remount_nodes, remount_entries, remounts_of, needs_remount, remount_all, attach,
}
use libkvs.LoadTest.Ledger.{CompositeLaws, IsLedger}
use libkvs.LoadTest.Ledger.Rounds.{thread_func-IsLedger}
use libkvs.LoadTest.OverVirtual.{virtual_storage, virtual_storage_laws}
use libkvs.RandomUtils.{random, random_between, generate_string, random_char}
use libkvs.VirtualStorage.Tables.{put_id}
use libkvs.LoadTest.Containers.{count_path}
use libkvs.LoadTest.{zero_counters, choose, generate_path, append_names}
use libkvs.Prelude.{bytes_eq, ℕ, suc, ◌+◌, ◌%◌, ◌<◌, ◌≡◌, refl, bytes, some, [], ◌∷◌, arith}
use libkvs.VirtualStorage.Session.{MountStatus, k_unmounted}
use libkvs.LoadTest.{TestOptions, Operation, operation_weights, add_weights, get_random_operation}
use libkvs.LoadTest.Weights.{sum_weights, operation_at, weight_of, get_random_operation_total}
use libkvs.LoadTest.Runner.{
  CompositeStorage, TestRunner, new_test_runner, record_mount, perform, perform_mount_op,
  mount_random,
}
use libkvs.LoadTest.Threads.{thread_func, thread_round, finish_round, take_sample, counted}

abbrev counting_storage : CompositeStorage
counting_storage = record {
  State = ℕ;
  mount = λ o n. some (record { status = MountStatus.k_ok; mount_id = n }, suc n);
  unmount = λ id n. some (k_unmounted, n);
  get_value = λ key path n. n;
  put_value = λ key path size n. n;
  delete_value = λ key path n. n;
  get_keys_range = λ path offset count n. n;
}

abbrev options : TestOptions
options = record {
  threads_count = 1;
  cache_size = 4096;
  record_size = 1024;
  data_size = 16;
  max_nodes = 4;
  reads_weight = 2;
  writes_weight = 0;
  deletes_weight = 1;
  mounts_weight = 3;
  unmounts_weight = 2;
  krqs_weight = 1;
  test_time = 1000;
  window_size = 100;
  key_length = 2;
  rnd_seed = 0;
}

get_random_operation_total_example :
    (op : Operation) × (get_random_operation 11
        (add_weights 0 (operation_weights options))
        (operation_weights options)
      ≡ some op)
    × (operation_at (11 % sum_weights (operation_weights options)) (operation_weights options)
        ≡ some op)
    × (0 < weight_of options op)
get_random_operation_total_example =
    get_random_operation_total options 11 (unfold sum_weights operation_weights in omega arith)
      (unfold sum_weights operation_weights in omega arith)

abbrev from_three : ℕ → ℕ
from_three i = i + 3

abbrev made : TestRunner counting_storage from_three
made = record {
  opts = options;
  total_weight = 9;
  samples = [];
  counters = zero_counters;
  storage = 2;
  storage_paths = (bytes "A", 1) ∷ [];
  mount_points = (1, bytes "A") ∷ [];
  keys_in_use = [];
  interval_start_time = 0;
  next_draw = 0;
}

-- The first round mounts a second path.
abbrev after_round : TestRunner counting_storage from_three
after_round = record made {
  counters = record zero_counters { total_ops = 1; mount_ops = 1 };
  storage = 3;
  storage_paths = (bytes "A", 1) ∷ (bytes "5", 1) ∷ [];
  mount_points = (1, bytes "A") ∷ (2, bytes "5") ∷ [];
  next_draw = 7;
}

constructed : new_test_runner counting_storage from_three options 1 0 ≡ some made
unfolding new_test_runner record_mount count_path put_id add_weights operation_weights
constructed = refl

one_round : thread_func counting_storage from_three (50 ∷ []) made ≡ some after_round
unfolding thread_func thread_round finish_round take_sample counted perform perform_mount_op
    mount_random record_mount count_path put_id operation_weights get_random_operation choose random
    random_between generate_path append_names generate_string random_char bytes_eq
one_round = refl

-- The same over the virtual storage and the registry of the library, with a volume that loads one node.
abbrev leaf_volume : VolumeImpl
leaf_volume = record {
  Volume = ℕ;
  open_volume = λ path. some 0;
  load = λ v path params. (
    some (storage_node (bytes "load_test_data/load_test_volume.json") path 4 no_storage_nodes),
    v,
  );
  unload = λ v path. v;
}

abbrev value_of : ℕ → Value
value_of size = record { raw_value = []; type = k_int32 }

abbrev clock : ℕ → ℤ
clock i = pos 0

abbrev tested : CompositeStorage
tested = virtual_storage (linear_hash_registry leaf_volume) list_storage clock value_of

abbrev tested_laws : CompositeLaws tested
tested_laws = virtual_storage_laws (linear_hash_registry leaf_volume) list_storage clock value_of

abbrev at_start : tested.State
at_start = (
  init (linear_hash_registry leaf_volume)
      (record { volumes = []; counted = record { storage_counters = []; storage_keys = [] } }),
  λ p. [],
)

the : {A : Type 0} (o : Option A) → is_some o ≡ true → (a : A) × (o ≡ some a)
the none h = absurd (cc h)
the (some a) h = (a, refl)

abbrev first_round : Option (TestRunner tested from_three)
first_round = new_test_runner tested from_three options at_start 0 >>= λ t.
    thread_func tested from_three (50 ∷ []) t

first_round_returns : is_some first_round ≡ true
unfolding new_test_runner record_mount count_path put_id add_weights operation_weights thread_func
    thread_round finish_round take_sample counted perform perform_mount_op mount_random
    get_random_operation choose random random_between generate_path append_names generate_string
    random_char bytes_eq mount remount_nodes remount_entries remounts_of needs_remount
    nodes_of_volume remount_all attach create_nodes_for_path create_nodes replace_node
    put_mount_point push_node find_id node_at find_child put_child mount_node insert_storage split
    starts_with acquire_storage find_volume put_volume acquire_node count_storage increment put_key
    find_counter
first_round_returns = refl

both_rounds :
    (t : TestRunner tested from_three) × (t' : TestRunner tested from_three) × (new_test_runner
        tested from_three options at_start 0
      ≡ some t)
    × (thread_func tested from_three (50 ∷ []) t ≡ some t')
both_rounds =
    let (t', done) = the first_round first_round_returns in
    let (t, made, ran) =
      bind-some (new_test_runner tested from_three options at_start 0) _ t' done in
    (t, t', made, ran)

thread_func-IsLedger_example : IsLedger tested tested_laws from_three 0 both_rounds.1
thread_func-IsLedger_example =
    thread_func-IsLedger tested tested_laws from_three options at_start 0 (50 ∷ []) both_rounds.0
      both_rounds.1 (omega arith) both_rounds.2 both_rounds.3
