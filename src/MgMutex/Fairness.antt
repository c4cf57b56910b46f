-- ===== src/MgMutex/Fairness.antt =====
-- Who gets the mutex next, and that it is never left to nobody while threads wait.
use libkvs.Prelude.{
  ℕ, ◌≡◌, ◌≢◌, refl, true, false, some, [], ◌∷◌, List, arith, inl, inr, Bool-cases, ◌++◌, ◌∙◌, sym,
  append_assoc, subst, append-nil, ℕ,
}
use libkvs.MgMutex.{
  LockType, k_nl, k_is, k_ix, k_s, is_compatible, MgMutex, LockNode, is_granted, lock, is_running,
  erase, promote, hand_over, index, after_erase, unlock,
}
use libkvs.MgMutex.Queue.{is_granted-nil}
use libkvs.MgMutex.System.{request, enter, release, Reach, here, next, System}

-- Nobody waits for a mutex that nobody holds, and it has its null type then.
abbrev pub IsServed : MgMutex → Type 0
IsServed m = m.running_threads ≡ [] → (m.waiting_threads ≡ []) × (m.current_type ≡ k_nl)

nl-is_compatible : (ty : LockType) → is_compatible k_nl ty ≡ true
unfolding is_compatible
nl-is_compatible ty = ground arith

append-ne-nil : (ns : List LockNode) (n : LockNode) → (ns ++ n ∷ []) ≢ []
append-ne-nil [] n e = cc
append-ne-nil (x ∷ xs) n e = cc

lock-IsServed : (m : MgMutex) (t : ℕ) (ty : LockType) → IsServed m → IsServed (lock t ty m)
unfolding lock
lock-IsServed m t ty v = elim (Bool-cases (is_granted ty m)) [
  | inl e ↦ rw e λ h. absurd (append-ne-nil m.running_threads _ h)
  | inr e ↦ rw e λ h. let w = v h in absurd (waits e w)
]
  where
    waits : is_granted ty m ≡ false → ¬ ((m.waiting_threads ≡ []) × (m.current_type ≡ k_nl))
    waits e (w, c) = unfold is_granted in ground (arith, nl-is_compatible ty)

-- The promoted threads follow in the order in which they wait.
promote-running :
    (current : LockType) (running waiting : List LockNode)
    → (more : List LockNode) × ((promote current running waiting).running_threads ≡ running ++ more)
      × ((promote current running waiting).current_type ≡ current)
unfolding promote
promote-running current running [] = ([], sym (append-nil running), refl)
promote-running current running (n ∷ ns) = elim (Bool-cases (is_compatible current n.lock_type)) [
  | inl e ↦
      let (more, r, c) = promote-running current (running ++ n ∷ []) ns in
      (n ∷ more, rw (e, r) (append_assoc running (n ∷ []) more), rw e c)
  | inr e ↦ ([], rw e (sym (append-nil running)), rw e)
]

hand_over-cons :
    (n : LockNode) (ns : List LockNode)
    → (more : List LockNode) × ((hand_over (n ∷ ns)).running_threads ≡ n ∷ more)
      × ((hand_over (n ∷ ns)).current_type ≡ n.lock_type)
unfolding hand_over
hand_over-cons n ns = promote-running n.lock_type (n ∷ []) ns

hand_over-IsServed : (waiting : List LockNode) → IsServed (hand_over waiting)
unfolding hand_over
hand_over-IsServed [] h = (refl, refl)
hand_over-IsServed (n ∷ ns) h =
    let (more, r, c) = hand_over-cons n ns in absurd (cc (sym (unfold hand_over in r) ∙ h))

after_erase-IsServed : (m : MgMutex) (rest : List LockNode) → IsServed (after_erase m rest)
unfolding after_erase
after_erase-IsServed m [] h = hand_over-IsServed m.waiting_threads h
after_erase-IsServed m (n ∷ ns) h = absurd (cc h)

unlock-IsServed : (m m' : MgMutex) (t : ℕ) → unlock t m ≡ some m' → IsServed m'
unfolding unlock
unlock-IsServed m m' t e = elim (Bool-cases (is_running t m.running_threads)) [
  | inl r ↦ subst IsServed (ground arith) (after_erase-IsServed m (erase t m.running_threads))
  | inr r ↦ absurd (ground arith)
]

-- However the threads interleave, nobody waits for a mutex that nobody holds, and such a mutex has
-- the null type.
pub Reach-IsServed : {Ok : LockType → Type 0} {s : System} → Reach Ok s → IsServed s.mutex
Reach-IsServed here = λ h. (refl, refl)
Reach-IsServed (next {s = s} r (request t ty out good)) =
    lock-IsServed s.mutex t ty (Reach-IsServed r)
Reach-IsServed (next r (enter t poll run)) = Reach-IsServed r
Reach-IsServed (next {s = s} r (release t m ins e)) = unlock-IsServed s.mutex m t e

-- While a thread waits, one that asks for the mutex joins the end of the waiting threads, and the
-- running threads stay as they are.
pub no_overtaking :
    (m : MgMutex) (t : ℕ) (ty : LockType)
    → m.waiting_threads ≢ []
    → ((lock t ty m).running_threads ≡ m.running_threads)
      × ((lock t ty m).waiting_threads
          ≡ m.waiting_threads ++ record { thread_id = t; lock_type = ty } ∷ [])
no_overtaking m t ty w = elim (Bool-cases (is_granted ty m)) [
  | inl e ↦ absurd (w (is_granted-nil ty m e))
  | inr e ↦ unfold lock in rw e (refl, refl)
]

-- A mutex of type IS, for which nobody waits, lets in an IX and then an S, although IX and S are not
-- compatible.
pub shared_beside_intention :
    (m : MgMutex) (t u : ℕ)
    → m.current_type ≡ k_is
    → m.waiting_threads ≡ []
    → ((lock u k_s (lock t k_ix m)).running_threads
        ≡ m.running_threads
          ++ record { thread_id = t; lock_type = k_ix }
            ∷ record { thread_id = u; lock_type = k_s }
            ∷ [])
      × (is_compatible k_ix k_s ≡ false)
unfolding lock is_granted is_compatible index
shared_beside_intention m t u c w = (rw (c, w, lock) (append_assoc m.running_threads _ _), refl)
