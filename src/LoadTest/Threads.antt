-- ===== src/LoadTest/Threads.antt =====
-- The loop of TestRunner::threadFunc and TestRunner::run, in load_test/src/TestRunner.cpp, for one
-- thread. The clock does not go back.
use libkvs.Prelude.{
  ℕ, ◌+◌, ◌-◌, ◌%◌, ◌^◌, Bool, true, false, Option, some, List, [], ◌∷◌, ◌++◌, leb, if◌then◌else◌,
}
use libkvs.RandomUtils.{◌>>=◌}
use libkvs.LoadTest.{
  SampleCounters, reset, Operation, k_read, k_write, k_delete, k_mount, k_unmount,
  k_key_range_query, operation_weights, get_random_operation,
}
use libkvs.LoadTest.Runner.{CompositeStorage, TestRunner, perform}

module _ (S : CompositeStorage) (engine : ℕ → ℕ) where
  -- The counters of the operation and of all operations, one higher.
  unfoldable pub counted : Operation → SampleCounters → SampleCounters
  counted k_read c = record c {
    total_ops = (c.total_ops + 1) % 2 ^ 64;
    read_ops = (c.read_ops + 1) % 2 ^ 64;
  }
  counted k_write c = record c {
    total_ops = (c.total_ops + 1) % 2 ^ 64;
    write_ops = (c.write_ops + 1) % 2 ^ 64;
  }
  counted k_delete c = record c {
    total_ops = (c.total_ops + 1) % 2 ^ 64;
    delete_ops = (c.delete_ops + 1) % 2 ^ 64;
  }
  counted k_mount c = record c {
    total_ops = (c.total_ops + 1) % 2 ^ 64;
    mount_ops = (c.mount_ops + 1) % 2 ^ 64;
  }
  counted k_unmount c = record c {
    total_ops = (c.total_ops + 1) % 2 ^ 64;
    unmount_ops = (c.unmount_ops + 1) % 2 ^ 64;
  }
  counted k_key_range_query c = record c {
    total_ops = (c.total_ops + 1) % 2 ^ 64;
    key_range_query_ops = (c.key_range_query_ops + 1) % 2 ^ 64;
  }

  -- What stands under `m_resultMutex`; `now` is the reading of the clock.
  unfoldable pub take_sample : ℕ → TestRunner S engine → TestRunner S engine
  take_sample now t =
      let diff = now - t.interval_start_time in
      let (sample, counters) = reset diff t.counters in
      if leb t.opts.window_size diff
      then record t {
        samples = t.samples ++ sample ∷ [];
        counters = counters;
        interval_start_time = now;
      }
      else t

  unfoldable pub finish_round : ℕ → Operation → Bool × TestRunner S engine → TestRunner S engine
  finish_round now operation (false, t) = t
  finish_round now operation (true, t) =
      take_sample now (record t { counters = counted operation t.counters })

  -- One round of the loop of `threadFunc`
  unfoldable pub thread_round : ℕ → TestRunner S engine → Option (TestRunner S engine)
  thread_round now t =
      get_random_operation (engine t.next_draw) t.total_weight (operation_weights t.opts)
      >>= λ operation.
          perform S engine operation (record t { next_draw = t.next_draw + 1 }) >>= λ r.
          some (finish_round now operation r)

  -- threadFunc: the loop ends by the clock, and `readings` has one reading for each round that it does.
  unfoldable pub thread_func : List ℕ → TestRunner S engine → Option (TestRunner S engine)
  thread_func [] t = some t
  thread_func (now ∷ readings) t = thread_round now t >>= thread_func readings

  -- run, with one thread; `start` and `end` are the readings of the clock before and after it.
  unfoldable pub run : ℕ → List ℕ → ℕ → TestRunner S engine → Option (TestRunner S engine)
  run start readings end t =
      thread_func readings (record t { interval_start_time = start }) >>= λ t'.
      let (sample, counters) = reset (end - t'.interval_start_time) t'.counters in
      some (record t' { samples = t'.samples ++ sample ∷ []; counters = counters })
