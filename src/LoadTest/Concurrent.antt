-- ===== src/LoadTest/Concurrent.antt =====
-- load_test/src/TestRunner.cpp: threadFunc in several threads, which share the runner. A thread's step
-- is a critical section of `m_pathMutex` or `m_resultMutex`, a call of the storage, or an update of
-- the counters. What the engines draw is any text, number or element of a table.
mod Tests
use libkvs.Prelude.{ℕ, ◌≡◌, ◌==◌, Bytes, Bool, true, false, Option, some, length, if◌then◌else◌}
use libkvs.VirtualStorage.Session.{UnmountStatus, k_unmounted, k_invalid_mount_id}
use libkvs.LoadTest.{Operation, k_read, k_write, k_delete, k_mount, k_unmount, k_key_range_query}
use libkvs.LoadTest.Runner.{
  CompositeStorage, TestRunner, mount_options, mounted, mount_id_among, record_mount,
  record_unmount,
}
use libkvs.LoadTest.Threads.{counted, take_sample}

-- Where a thread stands in `threadFunc`.
pub data Pc : Type 0 where
  looping : Pc
  to_mount : (mount_path node_path : Bytes) → Pc  -- the check of performMountOp has passed
  to_record : (path : Bytes) (id : ℕ) → Pc  -- `mount` has returned
  to_choose : Pc  -- the check of performUnmountOp has passed
  to_unmount : (id : ℕ) → Pc  -- getRandomMountId has returned
  to_forget : (id : ℕ) (status : UnmountStatus) → Pc  -- `unmount` has returned
  to_count : (operation : Operation) → Pc
  to_sample : Pc

module _ (S : CompositeStorage) (engine : ℕ → ℕ) where
  abbrev pub stored : S.State → TestRunner S engine → TestRunner S engine
  stored s t = record t { storage = s }

  -- What a thread does in a step with the runner.
  pub data Act (t : TestRunner S engine) : Pc → Pc → TestRunner S engine → Type 0 where
    read :
        (key path : Bytes)
        → Act t looping (to_count k_read) (stored (S.get_value key path t.storage) t)
    write :
        (key path : Bytes)
        → Act t looping
            (to_count k_write)
            (stored (S.put_value key path t.opts.data_size t.storage) t)
    delete :
        (key path : Bytes)
        → Act t looping (to_count k_delete) (stored (S.delete_value key path t.storage) t)
    query :
        (path : Bytes) (offset count : ℕ)
        → Act t looping
            (to_count k_key_range_query)
            (stored (S.get_keys_range path offset count t.storage) t)
    check_mount :
        (mount_path node_path : Bytes)
        → (length t.storage_paths == t.opts.max_nodes) ≡ false
        → Act t looping (to_mount mount_path node_path) t
    mount :
        (mount_path node_path : Bytes) (id : ℕ) (s : S.State)
        → mounted S engine (S.mount (mount_options S engine t.opts mount_path node_path) t.storage)
          ≡ some (id, s)
        → Act t (to_mount mount_path node_path) (to_record mount_path id) (stored s t)
    record_it :
        (path : Bytes) (id : ℕ) (u : TestRunner S engine)
        → record_mount S engine path (id, t.storage) t ≡ some u
        → Act t (to_record path id) (to_count k_mount) u
    check_unmount : (length t.storage_paths == 1) ≡ false → Act t looping to_choose t
    choose :
        (draws : ℕ → ℕ) (id j : ℕ)
        → mount_id_among S draws t.mount_points 0 ≡ some (id, j)
        → Act t to_choose (to_unmount id) t
    unmount :
        (id : ℕ) (status : UnmountStatus) (s : S.State)
        → S.unmount id t.storage ≡ some (status, s)
        → Act t (to_unmount id) (to_forget id status) (stored s t)
    forget :
        (id : ℕ) (status : UnmountStatus) (u : TestRunner S engine)
        → record_unmount S engine id (status, t.storage) t ≡ some u
        → Act t (to_forget id status) (to_count k_unmount) u
    count :
        (operation : Operation)
        → Act t
            (to_count operation)
            to_sample
            (record t { counters = counted S engine operation t.counters })
    sample : (now : ℕ) → Act t to_sample looping (take_sample S engine now t)

  pub record System : Type 0 where
    pub runner : TestRunner S engine
    pub pc : ℕ → Pc

  abbrev pub with_pc : (ℕ → Pc) → ℕ → Pc → ℕ → Pc
  with_pc pc t p u = if t == u then p else pc u

  pub data Step (s : System) : System → Type 0 where
    step :
        (t : ℕ) (p : Pc) (u : TestRunner S engine)
        → Act s.runner (s.pc t) p u
        → Step s (record { runner = u; pc = with_pc s.pc t p })

  -- The states that threads of a runner lead to.
  pub data Reach (t : TestRunner S engine) : System → Type 0 where
    here : Reach t (record { runner = t; pc = λ u. looping })
    next : {s u : System} → Reach t s → Step s u → Reach t u
