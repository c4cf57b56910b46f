-- ===== src/Example.antt =====
-- example/src/main.cpp: a program that mounts two volumes, writes numbers and reads them back, over the
-- composite storage that it calls (src/ICompositeStorage.hpp). A line that it prints is a message.
mod Tests
use libkvs.Prelude.{
  ℕ, zero, suc, ◌+◌, ◌/◌, ◌%◌, ◌==◌, Bytes, bytes, Bool, Option, none, some, List, [], ◌∷◌, ◌++◌,
  ltb, if◌then◌else◌,
}
use libkvs.Prelude.Int.{pos}
use libkvs.Value.{Value, k_int32, of_content, Content, int32}
use libkvs.Key.{Key, permanent, FailReason, k_ok, k_node_not_found, k_key_not_found, Outcome}
use libkvs.VirtualStorage.{MountOptions}
use libkvs.VirtualStorage.Session.{MountResult, MountStatus}
use libkvs.VirtualStorage.Mounting.{◌>>=◌}

-- The calls that the program makes. A mount that gives none does not return.
pub record ExampleStorage : Type 1 where
  pub State : Type 0
  pub mount : MountOptions → State → Option (MountResult × State)
  pub put_value : Key → Value → State → FailReason × State
  pub get_value : Key → State → Outcome Value × State

pub data Message : Type 0 where
  put_node_not_found put_key_not_found get_node_not_found get_key_not_found :
      (key : Bytes) → Message

-- The digits of a number below 10 ^ fuel.
abbrev digits : ℕ → ℕ → Bytes
digits zero n = []
digits (suc fuel) n =
    let more = digits fuel (n / 10) in
    if ltb n 10 then (48 + n) ∷ [] else more ++ (48 + n % 10) ∷ []

-- "key_" + std::to_string(i)
unfoldable pub key_name : ℕ → Bytes
key_name i = bytes "key_" ++ digits (suc i) i

-- The priority and the parameters of the hash table keep their default values.
abbrev pub example_options : Bytes → Bytes → Bytes → MountOptions
example_options mount_path volume node_path = record {
  storage_mount_path = mount_path;
  volume_file_path = volume;
  node_path = node_path;
  priority = pos 0;
  hash_table_params = record {
    bucket_capacity = 32;
    max_record_size_bytes = 102400;
    bucket_cache_size_bytes = 67108864;
    min_buckets_count = 32;
    min_load_factor = 4604930618986332160;
    max_load_factor = 4606732058837280358;
  };
}

unfoldable pub put_message : Bytes → FailReason → List Message
put_message key k_ok = []
put_message key k_node_not_found = put_node_not_found key ∷ []
put_message key k_key_not_found = put_key_not_found key ∷ []

unfoldable pub get_message : Bytes → FailReason → List Message
get_message key k_ok = []
get_message key k_node_not_found = get_node_not_found key ∷ []
get_message key k_key_not_found = get_key_not_found key ∷ []

module _ (S : ExampleStorage) where
  -- A mount that fails aborts.
  abbrev with_status : MountStatus → S.State → Option S.State
  with_status MountStatus.k_ok s = some s
  with_status _ s = none

  abbrev pub mounted : Option (MountResult × S.State) → Option S.State
  mounted none = none
  mounted (some (result, s)) = with_status result.status s

  -- A round of the first loop: even numbers go to one node and odd ones to the other.
  unfoldable pub put_round : ℕ → S.State → List Message × S.State
  put_round i s =
      let path = if i % 2 == 0 then bytes "A/B" else bytes "A/B/C" in
      let (status, s') = S.put_value (permanent (key_name i) path) (of_content (int32 (pos i))) s in
      (put_message (key_name i) status, s')

  -- A round of the second or the third loop.
  unfoldable pub get_round : Bytes → ℕ → S.State → List Message × S.State
  get_round path i s =
      let (outcome, s') = S.get_value (permanent (key_name i) path) s in
      (get_message (key_name i) outcome.status, s')

  -- `for` over so many numbers from `i` on, with the messages in their order.
  unfoldable pub rounds :
      (ℕ → S.State → List Message × S.State) → ℕ → ℕ → S.State → List Message × S.State
  rounds round zero i s = ([], s)
  rounds round (suc count) i s =
      let (messages, s') = round i s in
      let (more, s'') = rounds round count (suc i) s' in (messages ++ more, s'')

  -- main, over a new storage; `none` is an abort.
  unfoldable pub run_example : S.State → Option (List Message)
  unfolding rounds put_round get_round
  run_example s =
      mounted (S.mount (example_options (bytes "A/B") (bytes "volume1.kvs") (bytes "K/L")) s)
      >>= λ s1.
          mounted
            (S.mount (example_options (bytes "A/B/C") (bytes "volume2.kvs") (bytes "P/C/R")) s1)
          >>= λ s2.
              let (puts, s3) = rounds put_round 100 0 s2 in
              let (gets, s4) = rounds (get_round (bytes "A/B")) 100 1 s3 in
              let (others, s5) = rounds (get_round (bytes "A/B/C")) 100 1 s4 in
              some (puts ++ gets ++ others)
