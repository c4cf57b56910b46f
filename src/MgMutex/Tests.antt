-- ===== src/MgMutex/Tests.antt =====
-- Runs of the mutex, and its theorems at concrete inputs.
use libkvs.Prelude.{◌≡◌, ◌≢◌, refl, true, false, some, [], ◌∷◌, arith, ◌++◌}
use libkvs.MgMutex.{
  k_ix, k_s, k_is, k_x, init, lock, unlock, is_compatible, is_granted, index, LockNode, MgMutex,
}
use libkvs.MgMutex.System.{System, Reach, here, next, request, start, update, inside, polling}
use libkvs.MgMutex.Holders.{held, holders_compatible, NodeLock, NodeLock-IsUniform}
use libkvs.MgMutex.Validity.{unlock_total}
use libkvs.MgMutex.Fairness.{Reach-IsServed, IsServed, no_overtaking, shared_beside_intention}

-- Threads 1 and 2 hold a node for operations on its storages; thread 3 waits to change the tree.
abbrev sharing : System
sharing = record {
  mutex = lock 3 k_x (lock 2 k_ix (lock 1 k_is start.mutex));
  pc = update (update (update start.pc 1 inside) 2 inside) 3 polling;
}

sharing_reached : Reach NodeLock sharing
unfolding is_granted index lock
sharing_reached =
    next (next (next here (request 1 k_is refl tt)) (request 2 k_ix refl tt))
      (request 3 k_x refl tt)

holders_compatible_example : is_compatible k_is k_ix ≡ true
holders_compatible_example =
    holders_compatible 1 2 k_is k_ix NodeLock-IsUniform sharing_reached (omega arith) holds_is
      holds_ix
  where
    holds_is : held 1 sharing.mutex.running_threads ≡ some k_is
    holds_is = unfold held lock index in refl

    holds_ix : held 2 sharing.mutex.running_threads ≡ some k_ix
    holds_ix = unfold held lock index in refl

unlock_total_example : (m : MgMutex) × (unlock 2 sharing.mutex ≡ some m)
unlock_total_example = unlock_total sharing 2 sharing_reached refl

Reach-IsServed_example : IsServed sharing.mutex
Reach-IsServed_example = Reach-IsServed sharing_reached

abbrev node_of_3 : LockNode
node_of_3 = record { thread_id = 3; lock_type = k_is }

abbrev node_of_2 : LockNode
node_of_2 = record { thread_id = 2; lock_type = k_ix }

abbrev crowded : MgMutex
crowded = lock 3 k_is (lock 2 k_ix (lock 1 k_x init))

fourth_waits :
    ((lock 4 k_is crowded).running_threads ≡ crowded.running_threads)
    × ((lock 4 k_is crowded).waiting_threads
        ≡ crowded.waiting_threads ++ record { thread_id = 4; lock_type = k_is } ∷ [])
fourth_waits = no_overtaking crowded 4 k_is some_wait
  where
    some_wait : crowded.waiting_threads ≢ []
    some_wait h = unfold lock index in cc h

intention_beside_shared :
    ((lock 3 k_s (lock 2 k_ix (lock 1 k_is init))).running_threads
      ≡ (lock 1 k_is init).running_threads
        ++ record { thread_id = 2; lock_type = k_ix }
          ∷ record { thread_id = 3; lock_type = k_s }
          ∷ [])
    × (is_compatible k_ix k_s ≡ false)
intention_beside_shared = shared_beside_intention (lock 1 k_is init) 2 3 of_is alone
  where
    of_is : (lock 1 k_is init).current_type ≡ k_is
    of_is = unfold lock index in refl

    alone : (lock 1 k_is init).waiting_threads ≡ []
    alone = unfold lock index in refl
