-- ===== src/MgMutex.antt =====
-- src/utility/MGMutex.hpp, MGMutex.cpp: the mutex with lock modes of several granularities. Each
-- critical section of the inner std::mutex is one function here. A thread is named by a number.
pub mod Queue
pub mod System
pub mod Validity
pub mod Agrees
mod Safety
pub mod Holders
pub mod Fairness
mod Tests
use libkvs.Prelude.{
  ℕ, zero, suc, Bool, true, false, List, [], ◌∷◌, ◌++◌, Option, none, some, ◌==◌, ◌&&◌,
  if◌then◌else◌,
}

pub data LockType : Type 0 where
  k_nl k_is k_ix k_s k_six k_x : LockType

unfoldable pub index : LockType → ℕ
index k_nl = 0
index k_is = 1
index k_ix = 2
index k_s = 3
index k_six = 4
index k_x = 5

abbrev compatibility_matrix : List (List Bool)
compatibility_matrix =
    (true ∷ true ∷ true ∷ true ∷ true ∷ true ∷ [])
    ∷ (true ∷ true ∷ true ∷ true ∷ true ∷ false ∷ [])
    ∷ (true ∷ true ∷ true ∷ false ∷ false ∷ false ∷ [])
    ∷ (true ∷ true ∷ false ∷ true ∷ false ∷ false ∷ [])
    ∷ (true ∷ true ∷ false ∷ false ∷ false ∷ false ∷ [])
    ∷ (true ∷ false ∷ false ∷ false ∷ false ∷ false ∷ [])
    ∷ []

-- An array access; `index` stays within the matrix.
abbrev get_or {ℓ} : {A : Type ℓ} → List A → ℕ → A → A
get_or [] i d = d
get_or (x ∷ xs) zero d = x
get_or (x ∷ xs) (suc i) d = get_or xs i d

unfoldable pub is_compatible : LockType → LockType → Bool
unfolding index
is_compatible lock_type1 lock_type2 =
    get_or (get_or compatibility_matrix (index lock_type1) []) (index lock_type2) false

pub record LockNode : Type 0 where
  pub thread_id : ℕ
  pub lock_type : LockType

pub record MgMutex : Type 0 where
  pub current_type : LockType
  pub running_threads : List LockNode
  pub waiting_threads : List LockNode

abbrev pub init : MgMutex
init = record { current_type = k_nl; running_threads = []; waiting_threads = [] }

abbrev pub is_empty {ℓ} : {A : Type ℓ} → List A → Bool
is_empty [] = true
is_empty (x ∷ xs) = false

abbrev pub or_current : LockType → LockType → LockType
or_current k_nl lock_type = lock_type
or_current current lock_type = current

-- The test of `lock`: whether a thread may run at once.
unfoldable pub is_granted : LockType → MgMutex → Bool
unfolding is_compatible
is_granted lock_type m = is_empty m.waiting_threads && is_compatible m.current_type lock_type

-- `lock`, up to the end of the first critical section: the thread runs or waits.
unfoldable pub lock : ℕ → LockType → MgMutex → MgMutex
unfolding is_granted
lock thread lock_type m =
    if is_granted lock_type m
    then record m {
      current_type = or_current m.current_type lock_type;
      running_threads = m.running_threads ++ node ∷ [];
    }
    else record m { waiting_threads = m.waiting_threads ++ node ∷ [] }
  where
    node : LockNode
    node = record { thread_id = thread; lock_type = lock_type }

-- The test of the waiting loop of `lock`, and the search in `unlock`.
unfoldable pub is_running : ℕ → List LockNode → Bool
is_running thread [] = false
is_running thread (node ∷ nodes) =
    if node.thread_id == thread then true else is_running thread nodes

-- `erase(found)`, the first node of the thread.
unfoldable pub erase : ℕ → List LockNode → List LockNode
erase thread [] = []
erase thread (node ∷ nodes) = if node.thread_id == thread then nodes else node ∷ erase thread nodes

-- The loop of `unlock` once a thread runs again: waiting threads follow while they are compatible
-- with the current type.
pub promote : LockType → List LockNode → List LockNode → MgMutex
unfolding is_compatible
promote current running [] = record {
  current_type = current;
  running_threads = running;
  waiting_threads = [];
}
promote current running (node ∷ nodes) =
    let rest = promote current (running ++ node ∷ []) nodes in
    if is_compatible current node.lock_type then rest else record {
      current_type = current;
      running_threads = running;
      waiting_threads = node ∷ nodes;
    }

-- The first round of that loop takes the first waiting thread whatever its type.
pub hand_over : List LockNode → MgMutex
unfolding promote
hand_over [] = init
hand_over (node ∷ nodes) = promote node.lock_type (node ∷ []) nodes

pub after_erase : MgMutex → List LockNode → MgMutex
unfolding hand_over
after_erase m [] = hand_over m.waiting_threads
after_erase m (node ∷ nodes) = record m { running_threads = node ∷ nodes }

-- `none` is the failed assertion that the thread runs.
unfoldable pub unlock : ℕ → MgMutex → Option MgMutex
unfolding is_running erase after_erase
unlock thread m =
    if is_running thread m.running_threads
    then some (after_erase m (erase thread m.running_threads))
    else none
