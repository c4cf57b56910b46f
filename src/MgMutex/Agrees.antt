-- ===== src/MgMutex/Agrees.antt =====
-- Lists of threads that may run together.
use libkvs.Prelude.{
  ℕ, ◌≡◌, ◌≢◌, refl, true, ◌==◌, [], ◌∷◌, List, arith, ◌⊎◌, inl, inr, Bool-cases, ◌++◌, All,
  All-append,
}
use libkvs.MgMutex.{LockType, k_nl, k_is, is_compatible, LockNode, or_current, erase}

pub is_compatible_comm : (a b : LockType) → is_compatible a b ≡ is_compatible b a
unfolding is_compatible
is_compatible_comm a b = ground arith

-- Each thread of a list may run beside each later one.
abbrev pub Compatible : List LockNode → Type 0
Compatible [] = Unit {0}
Compatible (n ∷ ns) =
    All (λ (k : LockNode). is_compatible n.lock_type k.lock_type ≡ true) ns × Compatible ns

-- The first thread gave the mutex its current type or, like the others, is compatible with it.
abbrev pub Agrees : LockType → List LockNode → Type 0
Agrees current [] = Unit {0}
Agrees current (n ∷ ns) =
    ((n.lock_type ≡ current) ⊎ (is_compatible current n.lock_type ≡ true))
    × All (λ (k : LockNode). is_compatible current k.lock_type ≡ true) ns

pub Agrees-append :
    (current : LockType) (ns : List LockNode) (n : LockNode)
    → Agrees current ns
    → is_compatible current n.lock_type ≡ true
    → Agrees current (ns ++ n ∷ [])
Agrees-append current [] n a h = (inr h, tt)
Agrees-append current (x ∷ xs) n a h = (
  a.0,
  All-append (λ (k : LockNode). is_compatible current k.lock_type ≡ true) xs (n ∷ []) a.1 (h, tt),
)

module _ {ℓ} (P : LockNode → Type ℓ) where
  pub All-erase : (t : ℕ) (ns : List LockNode) → All P ns → All P (erase t ns)
  unfolding erase
  All-erase t [] h = tt
  All-erase t (n ∷ ns) h = elim (Bool-cases (n.thread_id == t)) [
    | inl e ↦ rw e h.1
    | inr e ↦ rw e (h.0, All-erase t ns h.1)
  ]

pub Agrees-of_All :
    (current : LockType) (ns : List LockNode)
    → All (λ (k : LockNode). is_compatible current k.lock_type ≡ true) ns
    → Agrees current ns
Agrees-of_All current [] h = tt
Agrees-of_All current (n ∷ ns) h = (inr h.0, h.1)

pub Agrees-erase :
    (current : LockType) (t : ℕ) (ns : List LockNode)
    → Agrees current ns
    → Agrees current (erase t ns)
unfolding erase
Agrees-erase current t [] a = tt
Agrees-erase current t (n ∷ ns) a = elim (Bool-cases (n.thread_id == t)) [
  | inl e ↦ rw e (Agrees-of_All current ns a.1)
  | inr e ↦
      rw e (a.0, All-erase (λ (k : LockNode). is_compatible current k.lock_type ≡ true) t ns a.1)
]

-- Among the lock types in use, those that are compatible with one are compatible with each other.
pub record IsUniform (Ok : LockType → Type 0) : Type 0 where
  pub not_nl : ¬ Ok k_nl
  pub closed :
      (a b c : LockType)
      → Ok a
      → Ok b
      → Ok c
      → is_compatible a b ≡ true
      → is_compatible a c ≡ true
      → is_compatible b c ≡ true

pub or_current_ne : (c d : LockType) → c ≢ k_nl → or_current c d ≡ c
or_current_ne k_nl d h = absurd (h refl)
or_current_ne k_is d h = refl
or_current_ne _ d h = refl
