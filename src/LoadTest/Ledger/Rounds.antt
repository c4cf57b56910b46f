-- ===== src/LoadTest/Ledger/Rounds.antt =====
-- Every round of TestRunner::threadFunc keeps the tables.
use libkvs.Prelude.{
  max, bytes, refl, ℕ, suc, subst, length, ◌<◌, ◌^◌, ◌+◌, ◌-◌, leb, ◌≡◌, refl, Bool, true, false,
  Option, some, List, [], ◌∷◌, arith, Bool-cases, inl, inr,
}
use libkvs.RandomUtils.{random, generate_string, ◌>>=◌}
use libkvs.VirtualStorage.Tables.{find_id}
use libkvs.LoadTest.{
  zero_counters, add_weights, TestOptions, Operation, k_read, k_write, k_delete, k_mount, k_unmount,
  k_key_range_query, generate_path, reset, get_random_operation, operation_weights, Sample,
  SampleCounters,
}
use libkvs.LoadTest.Threads.{finish_round, take_sample, thread_round, thread_func}
use libkvs.LoadTest.Runner.{
  new_test_runner, CompositeStorage, TestRunner, get_random_key, get_random_path, perform,
  perform_read_op, perform_write_op, perform_delete_op, perform_key_range_query_op, mounted,
  mount_options,
}
use libkvs.LoadTest.Tables.{CountsOnce, HasOnce, count_of, mounts_of}
use libkvs.LoadTest.Ledger.{
  OnSome, bind-OnSome, of_OnSome, CompositeLaws, IsLedger, moved, fewer_rounds,
  record_mount-IsLedger,
}
use libkvs.LoadTest.Ledger.Mounts.{
  mounted_ids, perform_mount_op-IsLedger, perform_unmount_op-IsLedger,
}

module _ (S : CompositeStorage) (L : CompositeLaws S) (engine : ℕ → ℕ) (rounds : ℕ) where
  abbrev Ledger : TestRunner S engine → Type 0
  Ledger t = IsLedger S L engine rounds t

  abbrev After : Bool × TestRunner S engine → Type 0
  After r = Ledger r.1

  -- The operations on values only move the storage on.
  perform_read_op-IsLedger :
      (t : TestRunner S engine) → Ledger t → OnSome Ledger (perform_read_op S engine t)
  unfolding perform_read_op
  perform_read_op-IsLedger t l =
      bind-OnSome Ledger (get_random_key S engine t t.next_draw) _ (λ (key, i) _.
        bind-OnSome Ledger (get_random_path S engine t i) _ (λ (path, j) _.
          moved S L engine rounds t (S.get_value key path t.storage) j l
            (L.get_value_keeps key path t.storage)))

  perform_write_op-IsLedger :
      (t : TestRunner S engine) → Ledger t → OnSome Ledger (perform_write_op S engine t)
  unfolding perform_write_op
  perform_write_op-IsLedger t l =
      bind-OnSome Ledger (generate_string engine t.next_draw t.opts.key_length) _ (λ key _.
        bind-OnSome Ledger (generate_path engine (t.next_draw + t.opts.key_length)) _
          (λ (path, j) _.
            moved S L engine rounds t (S.put_value key path t.opts.data_size t.storage) j l
              (L.put_value_keeps key path t.opts.data_size t.storage)))

  perform_delete_op-IsLedger :
      (t : TestRunner S engine) → Ledger t → OnSome Ledger (perform_delete_op S engine t)
  unfolding perform_delete_op
  perform_delete_op-IsLedger t l =
      bind-OnSome Ledger (get_random_key S engine t t.next_draw) _ (λ (key, i) _.
        bind-OnSome Ledger (get_random_path S engine t i) _ (λ (path, j) _.
          moved S L engine rounds t (S.delete_value key path t.storage) j l
            (L.delete_value_keeps key path t.storage)))

  perform_key_range_query_op-IsLedger :
      (t : TestRunner S engine) → Ledger t → OnSome Ledger (perform_key_range_query_op S engine t)
  unfolding perform_key_range_query_op
  perform_key_range_query_op-IsLedger t l =
      bind-OnSome Ledger (random (engine t.next_draw) 1000) _ (λ offset _.
        bind-OnSome Ledger (random (engine (t.next_draw + 1)) 1000) _ (λ count _.
          bind-OnSome Ledger (get_random_path S engine t (t.next_draw + 2)) _ (λ (path, j) _.
            moved S L engine rounds t (S.get_keys_range path offset count t.storage) j l
              (L.get_keys_range_keeps path offset count t.storage))))

  counted_round :
      (o : Option (TestRunner S engine))
      → OnSome Ledger o
      → OnSome After (o >>= λ t'. some (true, t'))
  counted_round o h =
      bind-OnSome After o (λ t'. some (true, t')) (λ t' done. of_OnSome Ledger h done)

  perform-IsLedger :
      (op : Operation) (t : TestRunner S engine)
      → IsLedger S L engine (suc rounds) t
      → OnSome After (perform S engine op t)
  unfolding perform
  perform-IsLedger k_read t l =
      counted_round _ (perform_read_op-IsLedger t (fewer_rounds S L engine rounds t l))
  perform-IsLedger k_write t l =
      counted_round _ (perform_write_op-IsLedger t (fewer_rounds S L engine rounds t l))
  perform-IsLedger k_delete t l =
      counted_round _ (perform_delete_op-IsLedger t (fewer_rounds S L engine rounds t l))
  perform-IsLedger k_mount t l = perform_mount_op-IsLedger S L engine rounds t l
  perform-IsLedger k_unmount t l = perform_unmount_op-IsLedger S L engine rounds t l
  perform-IsLedger k_key_range_query t l =
      counted_round _ (perform_key_range_query_op-IsLedger t (fewer_rounds S L engine rounds t l))

  sampled :
      (t : TestRunner S engine) (samples : List Sample) (c : SampleCounters) (start : ℕ)
      → Ledger t
      → Ledger (record t { samples = samples; counters = c; interval_start_time = start })
  sampled t samples c start l = record {
    counts_once = l.counts_once;
    has_once = l.has_once;
    agrees = l.agrees;
    some_path = l.some_path;
    fresh = l.fresh;
    room = l.room;
  }

  finish_round-IsLedger :
      (now : ℕ) (op : Operation) (r : Bool × TestRunner S engine)
      → Ledger r.1
      → Ledger (finish_round S engine now op r)
  unfolding finish_round take_sample reset
  finish_round-IsLedger now op (false, t) l = l
  finish_round-IsLedger now op (true, t) l =
      elim (Bool-cases (leb t.opts.window_size (now - t.interval_start_time))) [
        | inl e ↦ rw e (sampled t _ _ _ l)
        | inr e ↦ rw e (sampled t _ _ _ l)
      ]

  thread_round-IsLedger :
      (now : ℕ) (t : TestRunner S engine)
      → IsLedger S L engine (suc rounds) t
      → OnSome Ledger (thread_round S engine now t)
  unfolding thread_round
  thread_round-IsLedger now t l =
      let drawn_operation =
        get_random_operation (engine t.next_draw) t.total_weight (operation_weights t.opts) in
      bind-OnSome Ledger drawn_operation _ (λ op _.
        let drawn : TestRunner S engine = record t { next_draw = t.next_draw + 1 } in
        bind-OnSome Ledger (perform S engine op drawn) (λ r. some (finish_round S engine now op r))
          (λ r done. finish_round-IsLedger now op r (
            of_OnSome After
              (perform-IsLedger op drawn
                (moved S L engine (suc rounds) t t.storage (t.next_draw + 1) l refl))
              done)))

module _ (S : CompositeStorage) (L : CompositeLaws S) (engine : ℕ → ℕ) where
  rounds-IsLedger :
      (readings : List ℕ) (rounds : ℕ) (t : TestRunner S engine)
      → IsLedger S L engine (length readings + rounds) t
      → OnSome (IsLedger S L engine rounds) (thread_func S engine readings t)
  unfolding thread_func
  rounds-IsLedger [] rounds t l = subst (λ k. IsLedger S L engine k t) (omega arith) l
  rounds-IsLedger (now ∷ readings) rounds t l =
      bind-OnSome (IsLedger S L engine rounds) (thread_round S engine now t) _ (λ t' done.
        rounds-IsLedger readings rounds t' (
          of_OnSome (IsLedger S L engine (length readings + rounds))
            (thread_round-IsLedger S L engine (length readings + rounds) now t
              (subst (λ k. IsLedger S L engine k t) (omega arith) l))
            done))

  abbrev empty_runner : TestOptions → S.State → ℕ → TestRunner S engine
  empty_runner opts storage now = record {
    opts = opts;
    total_weight = add_weights 0 (operation_weights opts);
    samples = [];
    counters = zero_counters;
    storage = storage;
    storage_paths = [];
    mount_points = [];
    keys_in_use = [];
    interval_start_time = now;
    next_draw = 0;
  }

  new_test_runner-IsLedger :
      (rounds : ℕ) (options : TestOptions) (storage : S.State) (now : ℕ)
      → L.next_id storage + suc rounds < 2 ^ 64
      → OnSome (IsLedger S L engine rounds) (new_test_runner S engine options storage now)
  unfolding new_test_runner
  new_test_runner-IsLedger rounds options storage now room =
      let opts : TestOptions = record options { max_nodes = max 1 options.max_nodes } in
      let o = mount_options S engine opts (bytes "A") (bytes "A") in
      bind-OnSome (IsLedger S L engine rounds) (mounted S engine (S.mount o storage)) _ (λ r e.
        let (from, to) =
          mounted_ids S L engine rounds storage r (S.mount o storage)
            (λ m done ok. L.mount_next o storage m.1 m.0 done ok (omega arith)) e in
        record_mount-IsLedger S L engine rounds (bytes "A") r.0 r.1 (empty_runner opts storage now)
          (unfold CountsOnce in tt) (unfold HasOnce in tt) (λ q. unfold count_of mounts_of in refl)
          (λ j le. unfold find_id in refl) from to room)

  -- If the storage gives mount ids one after the other, which do not reach 2^64 in the run, then
  -- after every run of a new runner of the load test that returns, in one thread, something is
  -- mounted, each path is counted as often as it stands among the mount points, no id stands there
  -- twice, and none stands there that is still to be given.
  pub thread_func-IsLedger :
      (options : TestOptions) (storage : S.State) (start : ℕ) (readings : List ℕ)
      (t t' : TestRunner S engine)
      → L.next_id storage + suc (length readings) < 2 ^ 64
      → new_test_runner S engine options storage start ≡ some t
      → thread_func S engine readings t ≡ some t'
      → IsLedger S L engine 0 t'
  thread_func-IsLedger options storage start readings t t' room made =
      of_OnSome (IsLedger S L engine 0) (
        rounds-IsLedger readings 0 t (
          of_OnSome (IsLedger S L engine (length readings + 0))
            (new_test_runner-IsLedger (length readings + 0) options storage start (omega arith))
            made))
