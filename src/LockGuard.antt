-- ===== src/LockGuard.antt =====
-- src/utility/MGLockGuard.hpp: threads that take and leave many mutexes by guards. A mutex is named by
-- `N`. The mutexes that a thread holds are those of its guards, the last one first; a destructor
-- leaves the first of them, as ~MGMultiLockGuard does one after the other.
pub mod Program
pub mod Projection
pub mod Progress
pub mod Operations
pub mod Completion
pub mod Deadlock
mod Tests
use libkvs.Prelude.{
  ℕ, Bool, true, false, ◌||◌, ◌==◌, ◌≡◌, ◌↔◌, Option, none, some, List, [], ◌∷◌, if◌then◌else◌,
}
use libkvs.MgMutex.{LockType, MgMutex, init, is_granted, lock, is_running, unlock}

-- What a thread does with guards: a constructor that locks, or the destructor of the last guard.
pub data Action (N : Type 0) : Type 0 where
  acquire : (node : N) (type : LockType) → Action N
  leave : Action N

-- A thread between two actions, or in the waiting loop of `lock`, with the mutexes that it holds and
-- the actions that are left.
pub data Thread (N : Type 0) : Type 0 where
  ready : (held : List N) (rest : List (Action N)) → Thread N
  polling : (held : List N) (node : N) (type : LockType) (rest : List (Action N)) → Thread N

-- MGLockGuard: the mutex, or null. The move constructor copies the pointer and leaves it in `other`.
abbrev pub MgLockGuard : Type 0 → Type 0
MgLockGuard N = Option N

unfoldable pub moved {ℓ} : {A : Type ℓ} → Option A → Option A × Option A
moved other = (other, other)

module _ {N : Type 0} (same : N → N → Bool) where
  abbrev pub put : {A : Type 0} → (N → A) → N → A → N → A
  put f n a k = if same n k then a else f k

  pub record System : Type 0 where
    pub mutexes : N → MgMutex
    pub threads : ℕ → Thread N

  abbrev pub with_thread : (ℕ → Thread N) → ℕ → Thread N → ℕ → Thread N
  with_thread threads t thread u = if t == u then thread else threads u

  -- ~MGLockGuard; `none` is the failed assertion of `unlock`.
  unfoldable pub destroy : ℕ → MgLockGuard N → (N → MgMutex) → Option (N → MgMutex)
  destroy t none mutexes = some mutexes
  destroy t (some n) mutexes = elim (unlock t (mutexes n)) [
    | none ↦ none
    | some m ↦ some (put mutexes n m)
  ]

  -- A step of thread `t`.
  pub data Move (t : ℕ) (s : System) : System → Type 0 where
    request :
        (held : List N) (node : N) (type : LockType) (rest : List (Action N))
        → s.threads t ≡ ready held (acquire node type ∷ rest)
        → Move t s (record {
          mutexes = put s.mutexes node (lock t type (s.mutexes node));
          threads = with_thread s.threads t (
              if is_granted type (s.mutexes node)
              then ready (node ∷ held) rest
              else polling held node type rest);
        })
    enter :
        (held : List N) (node : N) (type : LockType) (rest : List (Action N))
        → s.threads t ≡ polling held node type rest
        → is_running t (s.mutexes node).running_threads ≡ true
        → Move t s (record s { threads = with_thread s.threads t (ready (node ∷ held) rest) })
    release :
        (held : List N) (node : N) (rest : List (Action N)) (m : MgMutex)
        → s.threads t ≡ ready (node ∷ held) (leave ∷ rest)
        → unlock t (s.mutexes node) ≡ some m
        → Move t s (record {
          mutexes = put s.mutexes node m;
          threads = with_thread s.threads t (ready held rest);
        })

  -- A thread that has nothing left to do starts another program, of those that `Runs` allows.
  pub data Step (Runs : List (Action N) → Type 0) (s : System) : System → Type 0 where
    begin :
        (t : ℕ) (program : List (Action N))
        → s.threads t ≡ ready [] []
        → Runs program
        → Step Runs s (record s { threads = with_thread s.threads t (ready [] program) })
    move : {u : System} (t : ℕ) → Move t s u → Step Runs s u

  abbrev pub start : System
  start = record { mutexes = λ _. init; threads = λ _. ready [] [] }

  pub data Reach (Runs : List (Action N) → Type 0) : System → Type 0 where
    here : Reach Runs start
    next : {s u : System} → Reach Runs s → Step Runs s u → Reach Runs u
