-- ===== src/LoadTest/Arguments.antt =====
-- load_test/src/main.cpp and parseParam of utility.inl: the options of a run and the lines that it
-- prints. The parser of libs/argh is the parameter `argument`: the number that it reads for a name, if
-- the name is among the arguments.
use libkvs.Prelude.{ℕ, Bytes, bytes, Option, none, some, List, [], ◌∷◌, map}
use libkvs.LoadTest.{TestOptions, Sample}

infixl 5 ◌>>=◌
-- The left side has the name of a missing parameter, which is printed.
pub data Parsed (A : Type 0) : Type 0 where
  missing : (param_name : Bytes) → Parsed A
  parsed : (value : A) → Parsed A

abbrev ◌>>=◌ : {A B : Type 0} → Parsed A → (A → Parsed B) → Parsed B
missing param_name >>= f = missing param_name
parsed value >>= f = f value

module _ (argument : Bytes → Option ℕ) where
  unfoldable pub parse_param : Bytes → Parsed ℕ
  parse_param param_name = elim (argument param_name) [
    | none ↦ missing param_name
    | some value ↦ parsed value
  ]

  unfoldable pub parse_options : Parsed TestOptions
  unfolding parse_param
  parse_options = parse_param (bytes "threads") >>= λ threads_count.
      parse_param (bytes "cacheSize") >>= λ cache_size.
      parse_param (bytes "recordSize") >>= λ record_size.
      parse_param (bytes "dataSize") >>= λ data_size.
      parse_param (bytes "maxNodes") >>= λ max_nodes.
      parse_param (bytes "reads") >>= λ reads_weight.
      parse_param (bytes "writes") >>= λ writes_weight.
      parse_param (bytes "deletes") >>= λ deletes_weight.
      parse_param (bytes "mounts") >>= λ mounts_weight.
      parse_param (bytes "unmounts") >>= λ unmounts_weight.
      parse_param (bytes "krqs") >>= λ krqs_weight. parse_param (bytes "testTime") >>= λ test_time.
      parse_param (bytes "window") >>= λ window_size.
      parse_param (bytes "keyLength") >>= λ key_length.
      parse_param (bytes "rndSeed") >>= λ rnd_seed. parsed (record {
        threads_count = threads_count;
        cache_size = cache_size;
        record_size = record_size;
        data_size = data_size;
        max_nodes = max_nodes;
        reads_weight = reads_weight;
        writes_weight = writes_weight;
        deletes_weight = deletes_weight;
        mounts_weight = mounts_weight;
        unmounts_weight = unmounts_weight;
        krqs_weight = krqs_weight;
        test_time = test_time;
        window_size = window_size;
        key_length = key_length;
        rnd_seed = rnd_seed;
      })

-- The numbers of a line, which commas separate.
unfoldable pub sample_line : Sample → List ℕ
sample_line sample =
    sample.time_period_ms ∷ sample.counters.total_ops ∷ sample.counters.read_ops
    ∷ sample.counters.write_ops ∷ sample.counters.delete_ops ∷ sample.counters.mount_ops
    ∷ sample.counters.unmount_ops ∷ sample.counters.key_range_query_ops ∷ []

unfoldable pub print_samples : List Sample → List (List ℕ)
unfolding sample_line
print_samples samples = map sample_line samples
