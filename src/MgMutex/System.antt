-- ===== src/MgMutex/System.antt =====
-- Threads that use one mutex, interleaved in any order. A thread asks, polls in the waiting loop of
-- `lock` until it finds itself running, and unlocks; it does not ask for a mutex that it holds.
use libkvs.Prelude.{ℕ, ◌≡◌, true, false, ◌==◌, some, if◌then◌else◌}
use libkvs.MgMutex.{LockType, MgMutex, init, is_granted, lock, is_running, unlock}
use libkvs.MgMutex.Queue.{queue, Distinct}

pub data Pc : Type 0 where
  outside : Pc  -- has not called `lock`, or has left by `unlock`
  polling : Pc  -- in the waiting loop of `lock`
  inside : Pc  -- `lock` has returned

abbrev pub update : (ℕ → Pc) → ℕ → Pc → ℕ → Pc
update pc t p u = if t == u then p else pc u

pub record System : Type 0 where
  pub mutex : MgMutex
  pub pc : ℕ → Pc

abbrev pub start : System
start = record { mutex = init; pc = λ _. outside }

-- `Ok` says which lock types the threads ask for.
pub data Step (Ok : LockType → Type 0) (s : System) : System → Type 0 where
  request :
      (t : ℕ) (lock_type : LockType)
      → s.pc t ≡ outside
      → Ok lock_type
      → Step Ok s (record {
        mutex = lock t lock_type s.mutex;
        pc = update s.pc t (if is_granted lock_type s.mutex then inside else polling);
      })
  enter :
      (t : ℕ)
      → s.pc t ≡ polling
      → is_running t s.mutex.running_threads ≡ true
      → Step Ok s (record s { pc = update s.pc t inside })
  release :
      (t : ℕ) (m : MgMutex)
      → s.pc t ≡ inside
      → unlock t s.mutex ≡ some m
      → Step Ok s (record { mutex = m; pc = update s.pc t outside })

pub data Reach (Ok : LockType → Type 0) : System → Type 0 where
  here : Reach Ok start
  next : {s u : System} → Reach Ok s → Step Ok s u → Reach Ok u

-- What the mutex knows of a thread fits where the thread stands.
abbrev pub Fits : MgMutex → ℕ → Pc → Type 0
Fits m t outside = is_running t (queue m) ≡ false
Fits m t polling = is_running t (queue m) ≡ true
Fits m t inside = is_running t m.running_threads ≡ true

pub record IsValid (s : System) : Type 0 where
  pub distinct : Distinct (queue s.mutex)
  pub fits : (t : ℕ) → Fits s.mutex t (s.pc t)
