-- ===== src/MgMutex/Holders.antt =====
-- The types in which threads hold the mutex at once.
use libkvs.Prelude.{
  ℕ, ◌≡◌, ◌≢◌, true, ◌==◌, Option, none, some, if◌then◌else◌, [], ◌∷◌, List, arith, All,
}
use libkvs.Prelude.{subst, All-append_left, inl, inr, Bool-cases}
use libkvs.MgMutex.{LockType, k_is, k_ix, k_s, k_x, is_compatible, LockNode}
use libkvs.MgMutex.System.{System, Reach}
use libkvs.MgMutex.Agrees.{Compatible, IsUniform, is_compatible_comm}
use libkvs.MgMutex.Safety.{IsShared-Compatible, Reach-IsShared}

-- The type of the lock that a thread holds.
unfoldable pub held : ℕ → List LockNode → Option LockType
held t [] = none
held t (n ∷ ns) = if n.thread_id == t then some n.lock_type else held t ns

beside-held :
    (a : LockType) (t : ℕ) (b : LockType) (ns : List LockNode)
    → All (λ (k : LockNode). is_compatible a k.lock_type ≡ true) ns
    → held t ns ≡ some b
    → is_compatible a b ≡ true
unfolding held
beside-held a t b [] h e = cc
beside-held a t b (n ∷ ns) h e = ground (arith, beside-held a t b ns h.1)

Compatible-held :
    (t u : ℕ) (a b : LockType) (ns : List LockNode)
    → t ≢ u
    → Compatible ns
    → held t ns ≡ some a
    → held u ns ≡ some b
    → is_compatible a b ≡ true
unfolding held
Compatible-held t u a b [] other c h k = cc
Compatible-held t u a b (n ∷ ns) other c h k = ground (
  arith,
  beside-held n.lock_type u b ns c.0,
  beside-held n.lock_type t a ns c.0,
  Compatible-held t u a b ns other c.1,
  is_compatible_comm a b,
)

-- Two threads that hold the mutex at once hold it in compatible types, if the types in use are
-- uniform, however the threads interleave.
pub holders_compatible :
    {Ok : LockType → Type 0} {s : System} (t u : ℕ) (a b : LockType)
    → IsUniform Ok
    → Reach Ok s
    → t ≢ u
    → held t s.mutex.running_threads ≡ some a
    → held u s.mutex.running_threads ≡ some b
    → is_compatible a b ≡ true
holders_compatible {Ok} {s} t u a b uniform r other h k =
    Compatible-held t u a b s.mutex.running_threads other
      (IsShared-Compatible Ok uniform s.mutex (Reach-IsShared Ok uniform r)) h k

held-All :
    (Ok : LockType → Type 0) (u : ℕ) (b : LockType) (ns : List LockNode)
    → All (λ (n : LockNode). Ok n.lock_type) ns
    → held u ns ≡ some b
    → Ok b
unfolding held
held-All Ok u b [] h e = cc
held-All Ok u b (n ∷ ns) h e = elim (Bool-cases (n.thread_id == u)) [
  | inl own ↦ let same : n.lock_type ≡ b = ground arith in subst Ok same h.0
  | inr other ↦ held-All Ok u b ns h.1 (rw other at e)
]

-- A thread holds the mutex in a type that threads ask for.
pub held-Ok :
    {Ok : LockType → Type 0} {s : System} (u : ℕ) (b : LockType)
    → IsUniform Ok
    → Reach Ok s
    → held u s.mutex.running_threads ≡ some b
    → Ok b
held-Ok {Ok} {s} u b uniform r e =
    held-All Ok u b s.mutex.running_threads
      (All-append_left (λ (n : LockNode). Ok n.lock_type) s.mutex.running_threads
        s.mutex.waiting_threads (Reach-IsShared Ok uniform r).types)
      e

-- The types of the locks on the virtual nodes, and on the storages.
abbrev pub NodeLock : LockType → Type 0
NodeLock k_is = Unit
NodeLock k_ix = Unit
NodeLock k_x = Unit
NodeLock _ = ⊥

abbrev pub StorageLock : LockType → Type 0
StorageLock k_s = Unit
StorageLock k_x = Unit
StorageLock _ = ⊥

pub NodeLock-IsUniform : IsUniform NodeLock
unfolding is_compatible
NodeLock-IsUniform = record { not_nl = λ h. h; closed = λ a b c ka kb kc h k. ground arith }

pub StorageLock-IsUniform : IsUniform StorageLock
unfolding is_compatible
StorageLock-IsUniform = record { not_nl = λ h. h; closed = λ a b c ka kb kc h k. ground arith }
