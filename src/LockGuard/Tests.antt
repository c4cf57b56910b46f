-- ===== src/LockGuard/Tests.antt =====
-- Runs of threads with guards, and their theorem at concrete inputs.
use libkvs.Prelude.{
  ℕ, ◌≡◌, ◌≤◌, ◌⊎◌, refl, sym, bytes, bytes_eq, ◌==◌, Option, Bool, true, false, none, some, List,
  [], ◌∷◌, arith, if◌then◌else◌, length,
}
use libkvs.StringUtils.{split, slash}
use libkvs.MgMutex.{init, is_granted, lock, unlock, k_ix, k_s, k_x, index}
use libkvs.LinearHashStorage.Locks.{storage_lock}
use libkvs.VirtualStorage.{Node, node, child_entry, no_children, find_child}
use libkvs.VirtualStorage.Resolve.{resolve_node}
use libkvs.Prelude.Int.{pos}
use libkvs.LockGuard.Operations.{put_calls}
use libkvs.LockGuard.{
  Action, acquire, leave, ready, polling, System, Move, request, begin, Reach, here, next, put,
  with_thread, destroy, moved,
}
use libkvs.LockGuard.Operations.{
  LockName, of_node, of_storage, same_name, Operation, put_value, mount, lock_actions, OperationOf,
}
use libkvs.LockGuard.Completion.{IsIdleFrom, done, more, total_work}
use libkvs.LockGuard.Deadlock.{operations_complete}

-- A tree with the node "A", where two storages are mounted.
abbrev root : Node
root = node [] [] (
    child_entry (bytes "A")
      (node []
        (record { storage = 1; priority = pos 1 } ∷ record { storage = 2; priority = pos 0 } ∷ [])
        no_children)
      no_children)

-- A write of a key that the second storage has.
abbrev put_a : Operation
put_a = put_value root (bytes "A") 1

abbrev put_actions : List (Action LockName)
put_actions =
    acquire (of_node []) k_ix
    ∷ acquire (of_node (bytes "A" ∷ [])) k_ix
    ∷ acquire (of_storage 1) k_s
    ∷ leave
    ∷ acquire (of_storage 2) k_s
    ∷ leave
    ∷ acquire (of_storage 2) k_x
    ∷ leave
    ∷ leave
    ∷ leave
    ∷ []

-- The nodes stay locked while the storages are locked one after the other.
put_a-actions : lock_actions put_a ≡ put_actions
unfolding lock_actions resolve_node find_child bytes_eq split put_calls storage_lock
put_a-actions = refl

-- Thread 0 is to write, and thread 1 to mount.
abbrev two_threads : System same_name
two_threads = record {
  mutexes = λ name. init;
  threads =
      with_thread same_name (with_thread same_name (λ t. ready [] []) 0 (ready [] put_actions)) 1
        (ready [] (acquire (of_node []) k_x ∷ leave ∷ []));
}

two_threads-Reach : Reach same_name (OperationOf 1) two_threads
two_threads-Reach = next (next here (begin 0 put_actions refl (put_a, short, sym put_a-actions))) (
    begin 1 (acquire (of_node []) k_x ∷ leave ∷ []) refl
      (mount, omega arith, unfold lock_actions in refl))
  where
    short : length (split (bytes "A") slash) ≤ 1
    short = unfold split in omega arith

two_threads-idle : IsIdleFrom same_name 2 two_threads.threads
two_threads-idle t h =
    let first : (1 == t) ≡ false = ground arith in
    let second : (0 == t) ≡ false = ground arith in rw (first, second) refl

abbrev is_none {ℓ} : {A : Type ℓ} → Option A → Bool
is_none none = true
is_none (some a) = false

abbrev after_root : List (Action LockName)
after_root =
    acquire (of_node (bytes "A" ∷ [])) k_ix
    ∷ acquire (of_storage 1) k_s
    ∷ leave
    ∷ acquire (of_storage 2) k_s
    ∷ leave
    ∷ acquire (of_storage 2) k_x
    ∷ leave
    ∷ leave
    ∷ leave
    ∷ []

-- The writer has asked for the root.
abbrev writer_first : System same_name
writer_first = record {
  mutexes = put same_name (λ name. init) (of_node []) (lock 0 k_ix init);
  threads = with_thread same_name two_threads.threads 0 (
      if is_granted k_ix init
      then ready (of_node [] ∷ []) after_root
      else polling [] (of_node []) k_ix after_root);
}

operations_complete_example :
    (1 ≤ total_work same_name 2 two_threads.threads)
    × ((((t : ℕ) → writer_first.threads t ≡ ready [] [])
          × ((name : LockName) → writer_first.mutexes name ≡ init))
        ⊎ ((t : ℕ) × (w : System same_name) × Move same_name t writer_first w))
operations_complete_example =
    operations_complete 1 2 1 two_threads writer_first two_threads-Reach two_threads-idle
      (more 0 (request [] (of_node []) k_ix after_root refl) done)

-- A guard that was moved from unlocks once more than it locked: the second destructor fails.
moved_guard_unlocks_twice :
    (let (first, second) = moved (some (of_node [])) in
      elim (destroy same_name 0 first
        (put same_name (λ name. init) (of_node []) (lock 0 k_ix init))) [
          | none ↦ true
          | some mutexes ↦ is_none (destroy same_name 0 second mutexes)
        ])
    ≡ true
unfolding moved destroy lock unlock index
moved_guard_unlocks_twice = refl
