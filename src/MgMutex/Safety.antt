-- ===== src/MgMutex/Safety.antt =====
-- Which threads run together.
use libkvs.Prelude.{
  ℕ, ◌≡◌, refl, true, some, [], ◌∷◌, List, arith, ◌⊎◌, inl, inr, Bool-cases, ◌++◌, append_assoc,
  All, All-append, subst, All-append_right, All-append_left,
}
use libkvs.MgMutex.{
  LockType, k_nl, is_compatible, MgMutex, LockNode, init, is_granted, or_current, lock, is_running,
  erase, promote, hand_over, after_erase, unlock,
}
use libkvs.MgMutex.Queue.{queue, queue-lock, after_erase-queue}
use libkvs.MgMutex.System.{System, request, enter, release, Reach, here, next}
use libkvs.MgMutex.Agrees.{
  Compatible, Agrees, Agrees-append, Agrees-erase, All-erase, IsUniform, or_current_ne,
}

-- What keeps the running threads compatible, where the threads ask for lock types in `Ok` only.
pub record IsShared (Ok : LockType → Type 0) (m : MgMutex) : Type 0 where
  pub current : Ok m.current_type ⊎ ((m.current_type ≡ k_nl) × (m.running_threads ≡ []))
  pub types : All (λ (n : LockNode). Ok n.lock_type) (queue m)
  pub agrees : Agrees m.current_type m.running_threads

is_granted-compatible :
    (lock_type : LockType) (m : MgMutex)
    → is_granted lock_type m ≡ true
    → is_compatible m.current_type lock_type ≡ true
unfolding is_granted
is_granted-compatible ty m h = ground arith

module _ (Ok : LockType → Type 0) (uniform : IsUniform Ok) where
  init-IsShared : IsShared Ok init
  init-IsShared = record { current = inr (refl, refl); types = tt; agrees = tt }

  granted-IsShared :
      (m : MgMutex) (node : LockNode)
      → IsShared Ok m
      → Ok node.lock_type
      → is_compatible m.current_type node.lock_type ≡ true
      → Ok (or_current m.current_type node.lock_type)
        × Agrees (or_current m.current_type node.lock_type) (m.running_threads ++ node ∷ [])
  granted-IsShared m node v good c = elim v.current [
    | inl k ↦
        rw (or_current_ne m.current_type node.lock_type (λ e. uniform.not_nl (subst Ok e k)))
          (k, Agrees-append m.current_type m.running_threads node v.agrees c)
    | inr (e, none_run) ↦ rw (e, none_run) (good, (inl refl, tt))
  ]

  abbrev TypesOk : List LockNode → Type 0
  TypesOk = All (λ (n : LockNode). Ok n.lock_type)

  lock-IsShared :
      (m : MgMutex) (t : ℕ) (lock_type : LockType)
      → IsShared Ok m
      → Ok lock_type
      → IsShared Ok (lock t lock_type m)
  lock-IsShared m t ty v good = elim (Bool-cases (is_granted ty m)) [
    | inl e ↦
        let g = granted-IsShared m node v good (is_granted-compatible ty m e) in
        record {
          current = unfold lock in rw e (inl g.0);
          types = types;
          agrees = unfold lock in rw e g.1;
        }
    | inr e ↦ record {
      current = unfold lock in rw e v.current;
      types = types;
      agrees = unfold lock in rw e v.agrees;
    }
  ]
    where
      node : LockNode
      node = record { thread_id = t; lock_type = ty }

      types : TypesOk (queue (lock t ty m))
      types =
          rw (queue-lock t ty m)
            (All-append (λ (n : LockNode). Ok n.lock_type) (queue m) (node ∷ []) v.types (good, tt))

  promote-IsShared :
      (current : LockType) (running waiting : List LockNode)
      → Ok current
      → All (λ (n : LockNode). Ok n.lock_type) (running ++ waiting)
      → Agrees current running
      → IsShared Ok (promote current running waiting)
  unfolding promote
  promote-IsShared current running [] k h a = record { current = inl k; types = h; agrees = a }
  promote-IsShared current running (n ∷ ns) k h a =
      elim (Bool-cases (is_compatible current n.lock_type)) [
        | inl e ↦ rw e (
            promote-IsShared current (running ++ n ∷ []) ns k
              (rw (append_assoc running (n ∷ []) ns) h) (Agrees-append current running n a e))
        | inr e ↦ rw e (record { current = inl k; types = h; agrees = a })
      ]

  hand_over-IsShared :
      (waiting : List LockNode)
      → All (λ (n : LockNode). Ok n.lock_type) waiting
      → IsShared Ok (hand_over waiting)
  unfolding hand_over
  hand_over-IsShared [] h = init-IsShared
  hand_over-IsShared (n ∷ ns) h = promote-IsShared n.lock_type (n ∷ []) ns h.0 h (inl refl, tt)

  after_erase-IsShared :
      (m : MgMutex) (t : ℕ) (rest : List LockNode)
      → IsShared Ok m
      → erase t m.running_threads ≡ rest
      → TypesOk (queue (after_erase m rest))
      → is_running t m.running_threads ≡ true
      → IsShared Ok (after_erase m rest)
  unfolding after_erase
  after_erase-IsShared m t [] v e h r = hand_over-IsShared m.waiting_threads (
      All-append_right (λ (n : LockNode). Ok n.lock_type) m.running_threads m.waiting_threads
        v.types)
  after_erase-IsShared m t (n ∷ ns) v e h r = record {
    current = elim v.current [
      | inl k ↦ inl k
      | inr (_, none_run) ↦ absurd (unfold is_running in cc)
    ];
    types = h;
    agrees =
        subst (Agrees m.current_type) e (Agrees-erase m.current_type t m.running_threads v.agrees);
  }

  unlock-IsShared : (m m' : MgMutex) (t : ℕ) → IsShared Ok m → unlock t m ≡ some m' → IsShared Ok m'
  unlock-IsShared m m' t v e = rw (← unlocked) (after_erase-IsShared m t _ v refl types runs)
    where
      types : TypesOk (queue (after_erase m (erase t m.running_threads)))
      types = rw (after_erase-queue m (erase t m.running_threads)) (
          All-append (λ (n : LockNode). Ok n.lock_type) (erase t m.running_threads)
            m.waiting_threads
            (All-erase (λ (n : LockNode). Ok n.lock_type) t m.running_threads
              (All-append_left (λ (n : LockNode). Ok n.lock_type) m.running_threads
                m.waiting_threads v.types))
            (All-append_right (λ (n : LockNode). Ok n.lock_type) m.running_threads m.waiting_threads
              v.types))

      runs : is_running t m.running_threads ≡ true
      runs = unfold unlock in ground arith

      unlocked : after_erase m (erase t m.running_threads) ≡ m'
      unlocked = unfold unlock in ground arith

  pub Reach-IsShared : {s : System} → Reach Ok s → IsShared Ok s.mutex
  Reach-IsShared here = init-IsShared
  Reach-IsShared (next r (request t ty out good)) = lock-IsShared _ t ty (Reach-IsShared r) good
  Reach-IsShared (next r (enter t poll run)) = Reach-IsShared r
  Reach-IsShared (next r (release t m ins e)) = unlock-IsShared _ m t (Reach-IsShared r) e

  Compatible-of_All :
      (current : LockType) (ns : List LockNode)
      → Ok current
      → TypesOk ns
      → All (λ (n : LockNode). is_compatible current n.lock_type ≡ true) ns
      → Compatible ns
  Compatible-of_All c [] k h a = tt
  Compatible-of_All c (n ∷ ns) k h a = (beside ns h.1 a.1, Compatible-of_All c ns k h.1 a.1)
    where
      beside :
          (l : List LockNode)
          → TypesOk l
          → All (λ (k : LockNode). is_compatible c k.lock_type ≡ true) l
          → All (λ (k : LockNode). is_compatible n.lock_type k.lock_type ≡ true) l
      beside [] g b = tt
      beside (x ∷ xs) g b =
          (uniform.closed c n.lock_type x.lock_type k h.0 g.0 a.0 b.0, beside xs g.1 b.1)

  pub IsShared-Compatible : (m : MgMutex) → IsShared Ok m → Compatible m.running_threads
  IsShared-Compatible m v = elim v.current [
    | inl k ↦
        go m.running_threads
          (All-append_left (λ (n : LockNode). Ok n.lock_type) m.running_threads m.waiting_threads
            v.types)
          v.agrees k
    | inr (_, none_run) ↦ rw none_run tt
  ]
    where
      go :
          (ns : List LockNode)
          → TypesOk ns
          → Agrees m.current_type ns
          → Ok m.current_type
          → Compatible ns
      go [] h a k = tt
      go (n ∷ ns) h a k = (
        elim a.0 [
          | inl e ↦ rw e a.1
          | inr c ↦ (Compatible-of_All m.current_type (n ∷ ns) k h (c, a.1)).0
        ],
        Compatible-of_All m.current_type ns k h.1 a.1,
      )
