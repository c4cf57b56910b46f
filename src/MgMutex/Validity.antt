-- ===== src/MgMutex/Validity.antt =====
-- What holds in every state that the threads of a mutex can reach.
use libkvs.Prelude.{
  ℕ, ◌≡◌, ◌≢◌, refl, true, ◌==◌, some, if◌then◌else◌, [], ◌∷◌, List, arith, inl, inr, Bool-cases,
}
use libkvs.MgMutex.{
  LockType, MgMutex, LockNode, is_granted, lock, is_running, erase, after_erase, unlock,
}
use libkvs.MgMutex.Queue.{
  queue, queue-lock, queue-unlock, Distinct-append, Distinct-erase, is_running-append,
  is_running-erase_ne, is_running-erase_self,
}
use libkvs.MgMutex.System.{
  Pc, outside, polling, inside, update, System, start, Step, request, enter, release, Reach, here,
  next, Fits, IsValid,
}

start-IsValid : IsValid start
unfolding is_running
start-IsValid = record { distinct = tt; fits = λ t. refl }

-- A step that leaves the threads but one alone.
Fits-update :
    (s : System) (m : MgMutex) (t : ℕ) (p : Pc)
    → Fits m t p
    → ((u : ℕ) → t ≢ u → Fits m u (s.pc u))
    → (u : ℕ) → Fits m u (update s.pc t p u)
Fits-update s m t p own rest u = elim (Bool-cases (t == u)) [
  | inl e ↦ let e' : t ≡ u = ground arith in rw (e, ← e') own
  | inr e ↦ rw e (rest u (ground arith))
]

module _ (m : MgMutex) (t u : ℕ) (other : t ≢ u) where
  seen-lock :
      (lock_type : LockType) → is_running u (queue (lock t lock_type m)) ≡ is_running u (queue m)
  unfolding is_running
  seen-lock lock_type =
      rw (queue-lock t lock_type m, is_running-append u (queue m) _) (ground arith)

  lock-Fits : (lock_type : LockType) (p : Pc) → Fits m u p → Fits (lock t lock_type m) u p
  unfolding lock
  lock-Fits ty outside f = rw (seen-lock ty) f
  lock-Fits ty polling f = rw (seen-lock ty) f
  lock-Fits ty inside f =
      ground (
        arith,
        is_running-append u m.running_threads (record { thread_id = t; lock_type = ty } ∷ []),
      )

  seen-unlock :
      (m' : MgMutex) → unlock t m ≡ some m' → is_running u (queue m') ≡ is_running u (queue m)
  seen-unlock m' e = rw (queue-unlock t m m' e) (is_running-erase_ne t u (queue m) other)

  running-after_erase :
      (rest : List LockNode)
      → is_running u rest ≡ true
      → is_running u (after_erase m rest).running_threads ≡ true
  unfolding after_erase is_running
  running-after_erase [] h = cc
  running-after_erase (n ∷ ns) h = h

  unlock-Fits : (m' : MgMutex) (p : Pc) → unlock t m ≡ some m' → Fits m u p → Fits m' u p
  unfolding unlock
  unlock-Fits m' outside e f = rw (seen-unlock m' e) f
  unlock-Fits m' polling e f = rw (seen-unlock m' e) f
  unlock-Fits m' inside e f = ground (
    arith,
    running-after_erase (erase t m.running_threads),
    is_running-erase_ne t u m.running_threads other,
  )

seen-lock_self :
    (m : MgMutex) (t : ℕ) (lock_type : LockType) → is_running t (queue (lock t lock_type m)) ≡ true
unfolding is_running
seen-lock_self m t ty = rw (queue-lock t ty m, is_running-append t (queue m) _) (ground arith)

-- A thread that asks is in the queue, and runs if it was granted the mutex.
lock-Fits_self :
    (m : MgMutex) (t : ℕ) (lock_type : LockType)
    → Fits (lock t lock_type m) t (if is_granted lock_type m then inside else polling)
lock-Fits_self m t ty = elim (Bool-cases (is_granted ty m)) [
  | inl e ↦
      rw e
        (unfold lock is_running in rw (e, is_running-append t m.running_threads _) (ground arith))
  | inr e ↦ rw e (seen-lock_self m t ty)
]

pub Step-IsValid : {Ok : LockType → Type 0} {s u : System} → Step Ok s u → IsValid s → IsValid u
Step-IsValid {s = s} (request t ty out good) v = record {
  distinct =
      rw (queue-lock t ty s.mutex)
        (Distinct-append (queue s.mutex) _ v.distinct (rw out at (v.fits t)));
  fits =
      Fits-update s (lock t ty s.mutex) t _ (lock-Fits_self s.mutex t ty)
        λ u other. lock-Fits s.mutex t u other ty (s.pc u) (v.fits u);
}
Step-IsValid {s = s} (enter t poll run) v = record {
  distinct = v.distinct;
  fits = Fits-update s s.mutex t inside run (λ u h. v.fits u);
}
Step-IsValid {s = s} (release t m ins e) v = record {
  distinct = rw (queue-unlock t s.mutex m e) (Distinct-erase t (queue s.mutex) v.distinct);
  fits =
      Fits-update s m t outside
        (rw (queue-unlock t s.mutex m e) (is_running-erase_self t (queue s.mutex) v.distinct))
        λ u other. unlock-Fits s.mutex t u other m (s.pc u) e (v.fits u);
}

pub Reach-IsValid : {Ok : LockType → Type 0} {s : System} → Reach Ok s → IsValid s
Reach-IsValid here = start-IsValid
Reach-IsValid (next r st) = Step-IsValid st (Reach-IsValid r)

-- However the threads interleave, a thread whose `lock` has returned can unlock: the assertion of
-- `unlock` holds.
pub unlock_total :
    {Ok : LockType → Type 0} (s : System) (t : ℕ)
    → Reach Ok s
    → s.pc t ≡ inside
    → (m : MgMutex) × (unlock t s.mutex ≡ some m)
unfolding unlock
unlock_total s t r e = (after_erase s.mutex (erase t s.mutex.running_threads), rw runs)
  where
    runs : is_running t s.mutex.running_threads ≡ true
    runs = rw e at ((Reach-IsValid r).fits t)
