-- ===== src/LoadTest.antt =====
-- load_test/src/TestRunner.hpp, TestRunner.cpp and utility.cpp: the options of the load test, its
-- counters and its choice of the next operation.
pub mod Containers
pub mod Tables
pub mod Runner
pub mod Ledger
pub mod OverVirtual
pub mod Threads
pub mod Arguments
pub mod Weights
pub mod Concurrent
mod Tests
use libkvs.Prelude.{
  ℕ, zero, suc, ◌+◌, ◌-◌, ◌%◌, ◌^◌, ◌==◌, Bytes, bytes, Bool, ◌||◌, Option, none, some, List, [],
  ◌∷◌, ◌++◌, leb, if◌then◌else◌,
}
use libkvs.StringUtils.{slash}
use libkvs.RandomUtils.{random, generate_string, ◌>>=◌}

pub record TestOptions : Type 0 where
  pub threads_count : ℕ
  pub cache_size : ℕ
  pub record_size : ℕ
  pub data_size : ℕ
  pub max_nodes : ℕ
  pub reads_weight : ℕ
  pub writes_weight : ℕ
  pub deletes_weight : ℕ
  pub mounts_weight : ℕ
  pub unmounts_weight : ℕ
  pub krqs_weight : ℕ
  pub test_time : ℕ
  pub window_size : ℕ
  pub key_length : ℕ
  pub rnd_seed : ℕ

-- TestResult::SampleCounters, of type size_t
pub record SampleCounters : Type 0 where
  pub total_ops : ℕ
  pub read_ops : ℕ
  pub write_ops : ℕ
  pub delete_ops : ℕ
  pub mount_ops : ℕ
  pub unmount_ops : ℕ
  pub key_range_query_ops : ℕ

abbrev pub zero_counters : SampleCounters
zero_counters = record {
  total_ops = 0;
  read_ops = 0;
  write_ops = 0;
  delete_ops = 0;
  mount_ops = 0;
  unmount_ops = 0;
  key_range_query_ops = 0;
}

-- TestResult::Sample: the numbers of a period.
pub record Sample : Type 0 where
  pub time_period_ms : ℕ
  pub counters : SampleCounters

-- SampleCounters::reset. One thread runs it at a time, but the others go on counting; this is one
-- that no count falls into.
unfoldable pub reset : ℕ → SampleCounters → Sample × SampleCounters
reset time_period_ms counters =
    (record { time_period_ms = time_period_ms; counters = counters }, zero_counters)

pub data Operation : Type 0 where
  k_read k_write k_delete k_mount k_unmount k_key_range_query : Operation

pub record OperationWeight : Type 0 where
  pub operation : Operation
  pub weight : ℕ

abbrev weighs : Operation → ℕ → OperationWeight
weighs operation weight = record { operation = operation; weight = weight }

unfoldable pub operation_weights : TestOptions → List OperationWeight
operation_weights o =
    weighs k_read o.reads_weight
    ∷ weighs k_write o.writes_weight
    ∷ weighs k_delete o.deletes_weight
    ∷ weighs k_mount o.mounts_weight
    ∷ weighs k_unmount o.unmounts_weight
    ∷ weighs k_key_range_query o.krqs_weight
    ∷ []

-- The loop that adds the weights up, on size_t.
unfoldable pub add_weights : ℕ → List OperationWeight → ℕ
add_weights total [] = total
add_weights total (w ∷ ws) = add_weights ((total + w.weight) % 2 ^ 64) ws

-- The numbers of type int are given by their 32 bits: `rndValue -= weight` and `rndValue <= 0`.
abbrev pub sub_int : ℕ → ℕ → ℕ
sub_int value weight = (value + (2 ^ 32 - weight % 2 ^ 32)) % 2 ^ 32

abbrev pub is_not_positive : ℕ → Bool
is_not_positive value = value == 0 || leb (2 ^ 31) value

-- The loop of `getRandomOperation`; `none` is a read behind the last weight.
unfoldable pub choose : ℕ → List OperationWeight → Option Operation
choose value [] = none
choose value (w ∷ ws) =
    let value' = sub_int value w.weight in
    let rest = choose value' ws in if is_not_positive value' then some w.operation else rest

-- getRandomOperation; `none` is also the failed assertion of `random`.
unfoldable pub get_random_operation : ℕ → ℕ → List OperationWeight → Option Operation
unfolding choose
get_random_operation draw total_weight weights =
    random draw total_weight >>= λ r. choose ((r + 1) % 2 ^ 32) weights

-- The loop of `generatePath`, with what it has so far. Each name is one draw.
unfoldable pub append_names : (ℕ → ℕ) → ℕ → ℕ → Bytes → Option Bytes
append_names engine i zero path = some path
append_names engine i (suc names) path = generate_string engine i 1 >>= λ name.
    append_names engine (suc i) names (separated path ++ name)
  where
    separated : Bytes → Bytes
    separated [] = []
    separated (c ∷ cs) = c ∷ cs ++ slash ∷ []

-- generatePath, with the index of the draw after its own.
unfoldable pub generate_path : (ℕ → ℕ) → ℕ → Option (Bytes × ℕ)
unfolding append_names
generate_path engine i = random (engine i) 4 >>= λ r.
    append_names engine (suc i) (1 + r) [] >>= λ path. some (path, i + 2 + r)
