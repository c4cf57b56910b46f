-- ===== src/MgMutex/Queue.antt =====
-- The mutex as one queue of threads, of which a prefix runs.
use libkvs.Prelude.{
  ℕ, ◌≡◌, ◌≢◌, refl, sym, true, false, List, [], ◌∷◌, ◌++◌, append_assoc, append-nil, some, arith,
  ◌||◌, inl, inr, Bool-cases, ◌&&◌,
}
use libkvs.MgMutex.{
  LockType, is_compatible, is_granted, LockNode, MgMutex, lock, is_running, is_empty, erase,
  promote, hand_over, after_erase, unlock,
}

-- Running threads first, then the waiting ones, in the order of their arrival.
abbrev pub queue : MgMutex → List LockNode
queue m = m.running_threads ++ m.waiting_threads

-- The first thread that still waits could not have joined.
abbrev pub Blocked : LockType → List LockNode → Type 0
Blocked current [] = Unit {0}
Blocked current (node ∷ nodes) = is_compatible current node.lock_type ≡ false

pub promote-queue :
    (current : LockType) (running waiting : List LockNode)
    → let m = promote current running waiting in
      (queue m ≡ running ++ waiting) × Blocked m.current_type m.waiting_threads
unfolding promote
promote-queue current running [] = (refl, tt)
promote-queue current running (node ∷ nodes) = ground (
  arith,
  promote-queue current (running ++ node ∷ []) nodes,
  append_assoc running (node ∷ []) nodes,
)

pub is_granted-nil :
    (lock_type : LockType) (m : MgMutex) → is_granted lock_type m ≡ true → m.waiting_threads ≡ []
unfolding is_granted
is_granted-nil lock_type m h = nil_of m.waiting_threads h
  where
    nil_of :
        (w : List LockNode) → (is_empty w && is_compatible m.current_type lock_type) ≡ true → w ≡ []
    nil_of [] e = refl
    nil_of (x ∷ xs) e = cc

-- A thread that asks for the mutex comes last.
pub queue-lock :
    (thread : ℕ) (lock_type : LockType) (m : MgMutex)
    → queue (lock thread lock_type m)
      ≡ queue m ++ record { thread_id = thread; lock_type = lock_type } ∷ []
unfolding lock
queue-lock thread lock_type m = elim (Bool-cases (is_granted lock_type m)) [
  | inl e ↦
      rw (e, is_granted-nil lock_type m e, append-nil m.running_threads)
        (append-nil (m.running_threads ++ _))
  | inr e ↦ rw e (sym (append_assoc m.running_threads m.waiting_threads _))
]

pub is_running-append :
    (t : ℕ) (xs ys : List LockNode) → is_running t (xs ++ ys) ≡ (is_running t xs || is_running t ys)
unfolding is_running
is_running-append t [] ys = refl
is_running-append t (x ∷ xs) ys = ground (arith, is_running-append t xs ys)

erase-append :
    (t : ℕ) (xs ys : List LockNode) → is_running t xs ≡ true → erase t (xs ++ ys) ≡ erase t xs ++ ys
unfolding is_running erase
erase-append t [] ys h = ground arith
erase-append t (x ∷ xs) ys h = ground (arith, erase-append t xs ys)

hand_over-queue : (waiting : List LockNode) → queue (hand_over waiting) ≡ waiting
unfolding hand_over
hand_over-queue [] = refl
hand_over-queue (node ∷ nodes) = (promote-queue node.lock_type (node ∷ []) nodes).0

pub after_erase-queue :
    (m : MgMutex) (rest : List LockNode) → queue (after_erase m rest) ≡ rest ++ m.waiting_threads
unfolding after_erase
after_erase-queue m [] = hand_over-queue m.waiting_threads
after_erase-queue m (node ∷ nodes) = refl

-- A thread that leaves is taken out, and all others stay in their order.
pub queue-unlock :
    (thread : ℕ) (m m' : MgMutex) → unlock thread m ≡ some m' → queue m' ≡ erase thread (queue m)
unfolding unlock
queue-unlock thread m m' h = ground (
  arith,
  erase-append thread m.running_threads m.waiting_threads,
  after_erase-queue m (erase thread m.running_threads),
)

-- No thread stands in the queue twice.
abbrev pub Distinct : List LockNode → Type 0
Distinct [] = Unit {0}
Distinct (n ∷ ns) = (is_running n.thread_id ns ≡ false) × Distinct ns

pub Distinct-append :
    (xs : List LockNode) (n : LockNode)
    → Distinct xs
    → is_running n.thread_id xs ≡ false
    → Distinct (xs ++ n ∷ [])
unfolding is_running
Distinct-append [] n d h = (refl, tt)
Distinct-append (x ∷ xs) n d h =
    ground (arith, Distinct-append xs n, is_running-append x.thread_id xs (n ∷ []))

pub is_running-erase_ne :
    (t u : ℕ) (xs : List LockNode) → t ≢ u → is_running u (erase t xs) ≡ is_running u xs
unfolding is_running erase
is_running-erase_ne t u [] h = refl
is_running-erase_ne t u (x ∷ xs) h = ground (arith, is_running-erase_ne t u xs)

pub is_running-erase_self :
    (t : ℕ) (xs : List LockNode) → Distinct xs → is_running t (erase t xs) ≡ false
unfolding is_running erase
is_running-erase_self t [] d = refl
is_running-erase_self t (x ∷ xs) d = ground (arith, is_running-erase_self t xs)

is_running-erase_le :
    (t u : ℕ) (xs : List LockNode) → is_running u xs ≡ false → is_running u (erase t xs) ≡ false
unfolding is_running erase
is_running-erase_le t u [] h = refl
is_running-erase_le t u (x ∷ xs) h = ground (arith, is_running-erase_le t u xs)

pub Distinct-erase : (t : ℕ) (xs : List LockNode) → Distinct xs → Distinct (erase t xs)
unfolding erase
Distinct-erase t [] d = tt
Distinct-erase t (x ∷ xs) d =
    ground (arith, Distinct-erase t xs, is_running-erase_le t x.thread_id xs)
