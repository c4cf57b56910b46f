-- ===== src/LockGuard/Deadlock.antt =====
-- The operations of the virtual storage do not block each other for ever.
use libkvs.Prelude.{
  texts_eq_iff, ℕ, zero, suc, ◌≡◌, ◌↔◌, ◌⊎◌, ◌≤◌, ◌<◌, ◌+◌, refl, sym, subst, ap, Bytes, true,
  ==_iff, List, [], ◌∷◌, ◌++◌, length, length-append, map, take, All, arith, inl, inr,
}
use libkvs.StringUtils.{split, slash}
use libkvs.MgMutex.{LockType, init}
use libkvs.LinearHashStorage.Locks.{StorageOperation}
use libkvs.VirtualStorage.{Node, NodePath}
use libkvs.VirtualStorage.Resolve.{HeldLock, resolve_node}
use libkvs.VirtualStorage.Resolve.Order
use libkvs.VirtualStorage.Resolve.Order.{nodes_along, held_as, resolve_node-locks}
use libkvs.LockGuard.{Action, ready, System, Move, Reach}
use libkvs.LockGuard.Program.{InOrder}
use libkvs.LockGuard.Operations.{
  LockName, of_node, of_storage, same_name, add_locks, storage_calls, pop_all, guarded, Operation,
  get_value, put_value, delete_value, get_keys_range, mount, unmount, lock_actions, OperationOf,
  components,
}
use libkvs.LockGuard.Progress.{no_deadlock, idle-init}
use libkvs.LockGuard.Completion.{
  total_work, Moves, IsIdleFrom, Moves-total_work, Moves-Reach, busy-cases,
}

pub same_name_iff : (a b : LockName) → (same_name a b ≡ true) ↔ (a ≡ b)
same_name_iff (of_node p) (of_node q) =
    ((λ h. ap of_node ((texts_eq_iff p q).0 h)), (λ h. ground (arith, texts_eq_iff p q)))
same_name_iff (of_storage a) (of_storage b) =
    ((λ h. ap of_storage ((==_iff a b).0 h)), (λ h. ground (arith)))
same_name_iff (of_node p) (of_storage b) = ((λ h. absurd (cc h)), (λ h. absurd (cc h)))
same_name_iff (of_storage a) (of_node q) = ((λ h. absurd (cc h)), (λ h. absurd (cc h)))

module _ (depth : ℕ) where
  -- A node is above the nodes on its path, and a storage is above all nodes.
  abbrev pub rank : LockName → ℕ
  rank (of_node path) = length path
  rank (of_storage storage) = suc depth

  abbrev pub bound : ℕ
  bound = suc (suc depth)

  -- All mutexes that are held have a rank below `r`.
  abbrev Below : ℕ → List LockName → Type 0
  Below r held = All (λ k. rank k < r) held

  Below-le : (r s : ℕ) (held : List LockName) → r ≤ s → Below r held → Below s held
  Below-le r s [] h b = tt
  Below-le r s (k ∷ held) h b = (omega (arith, h, b.0), Below-le r s held h b.1)

  pop_all-InOrder :
      (held : List LockName) (locks : List HeldLock)
      → length held ≡ length locks
      → InOrder rank bound held (pop_all locks)
  pop_all-InOrder [] [] e = refl
  pop_all-InOrder [] (lock ∷ locks) e = absurd (omega (arith, e))
  pop_all-InOrder (n ∷ held) [] e = absurd (omega (arith, e))
  pop_all-InOrder (n ∷ held) (lock ∷ locks) e = pop_all-InOrder held locks (omega (arith, e))

  storage_calls-InOrder :
      (held : List LockName) (calls : List (ℕ × StorageOperation)) (rest : List (Action LockName))
      → Below (suc depth) held
      → InOrder rank bound held rest
      → InOrder rank bound held (storage_calls calls rest)
  storage_calls-InOrder held [] rest b h = h
  storage_calls-InOrder held ((storage, op) ∷ calls) rest b h =
      (b, omega arith, storage_calls-InOrder held calls rest b h)

  step_down : (at : NodePath) (comp : Bytes) → length (at ++ comp ∷ []) ≡ suc (length at)
  step_down at comp = omega (arith, length-append at (comp ∷ []))

  walk-InOrder :
      (held : List LockName) (type : LockType) (at : NodePath) (comps : List Bytes) (k : ℕ)
      (rest : List (Action LockName))
      → Below (length at) held
      → length at + length comps ≤ depth
      → ((held' : List LockName)
          → length held' ≡ length (take k (nodes_along at comps)) + length held
          → Below (suc depth) held'
          → InOrder rank bound held' rest)
      → InOrder rank bound held
          (add_locks (map (held_as type) (take k (nodes_along at comps))) rest)
  walk-InOrder held type at comps zero rest b short h =
      h held (omega arith) (Below-le _ _ held (omega (arith, short)) b)
  walk-InOrder held type at [] (suc zero) rest b short h = (
    b,
    omega (arith, short),
    h (of_node at ∷ held) (omega arith)
        (omega (arith, short), Below-le _ _ held (omega (arith, short)) b),
  )
  walk-InOrder held type at [] (suc (suc k)) rest b short h = (
    b,
    omega (arith, short),
    h (of_node at ∷ held) (omega arith)
        (omega (arith, short), Below-le _ _ held (omega (arith, short)) b),
  )
  walk-InOrder held type at (comp ∷ comps) (suc k) rest b short h = (
    b,
    omega (arith, short),
    walk-InOrder (of_node at ∷ held) type (at ++ comp ∷ []) comps k rest
        (omega (arith, step_down at comp), Below-le _ _ held (omega (arith, step_down at comp)) b)
        (omega (arith, short, step_down at comp))
        (λ held' e below. h held' (omega (arith, e)) below),
  )

  length-map-held :
      (type : LockType) (ps : List NodePath) → length (map (held_as type) ps) ≡ length ps
  length-map-held type [] = refl
  length-map-held type (p ∷ ps) = ap suc (length-map-held type ps)

  along-InOrder :
      (comps : List Bytes) (type : LockType) (k : ℕ) (calls : List (ℕ × StorageOperation))
      → length comps ≤ depth
      → InOrder rank bound [] (guarded (map (held_as type) (take k (nodes_along [] comps))) calls)
  along-InOrder comps type k calls short =
      let locks : List HeldLock = map (held_as type) (take k (nodes_along [] comps)) in
      walk-InOrder [] type [] comps k (storage_calls calls (pop_all locks)) tt
        (omega (arith, short))
        (λ held e below.
          let same_length : length held ≡ length locks =
            omega (arith, e, length-map-held type (take k (nodes_along [] comps))) in
          storage_calls-InOrder held calls (pop_all locks) below
            (pop_all-InOrder held locks same_length))

  guarded-InOrder :
      (root : Node) (path : Bytes) (type : LockType) (calls : List (ℕ × StorageOperation))
      → length (split path slash) ≤ depth
      → InOrder rank bound [] (guarded (resolve_node root path type).1 calls)
  guarded-InOrder root path type calls short = rw (resolve_node-locks root path type) (
      along-InOrder (split path slash) type (suc (Order.depth root (split path slash))) calls short)

  pub lock_actions-InOrder :
      (op : Operation) → components op ≤ depth → InOrder rank bound [] (lock_actions op)
  unfolding lock_actions
  lock_actions-InOrder (get_value root path tried) h = guarded-InOrder root path _ _ h
  lock_actions-InOrder (put_value root path missed) h = guarded-InOrder root path _ _ h
  lock_actions-InOrder (delete_value root path tried) h = guarded-InOrder root path _ _ h
  lock_actions-InOrder (get_keys_range root path turns) h = guarded-InOrder root path _ _ h
  lock_actions-InOrder mount h = (tt, omega arith, refl)
  lock_actions-InOrder unmount h = (tt, omega arith, refl)

-- In every state that threads with operations of the virtual storage reach, with paths of at most
-- `depth` components, and in which only the first `k` threads have something to do: if no further
-- operation begins, the threads make no more moves than they have work left, and as long as one of
-- them is not done, some thread can move. When all are done, every mutex is as at the beginning.
pub operations_complete :
    (depth k n : ℕ) (s u : System same_name)
    → Reach same_name (OperationOf depth) s
    → IsIdleFrom same_name k s.threads
    → Moves same_name n s u
    → (n ≤ total_work same_name k s.threads)
      × ((((t : ℕ) → u.threads t ≡ ready [] []) × ((name : LockName) → u.mutexes name ≡ init))
          ⊎ ((t : ℕ) × (w : System same_name) × Move same_name t u w))
operations_complete depth k n s u r idle ms =
    let (le, idle') = Moves-total_work same_name k ms idle in
    (
      omega (arith, le),
      elim (busy-cases same_name k u.threads idle') [
        | inl all ↦ inl (
          all,
          λ name.
              idle-init same_name same_name_iff (rank depth) (bound depth) (OperationOf depth)
                in_order u name (Moves-Reach same_name ms r) all,
        )
        | inr (t, busy) ↦ inr (
            no_deadlock same_name same_name_iff (rank depth) (bound depth) (OperationOf depth)
              in_order u t (Moves-Reach same_name ms r) busy)
      ],
    )
  where
    in_order :
        (program : List (Action LockName))
        → OperationOf depth program
        → InOrder (rank depth) (bound depth) [] program
    in_order program (op, short, e) =
        subst (InOrder (rank depth) (bound depth) []) (sym e) (lock_actions-InOrder depth op short)
