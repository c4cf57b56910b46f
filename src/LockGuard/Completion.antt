-- ===== src/LockGuard/Completion.antt =====
-- How much is left to do, in a number that every move makes smaller.
use libkvs.Prelude.{
  ℕ, zero, suc, ◌≡◌, ◌≢◌, ◌⊎◌, ◌+◌, ◌*◌, ◌<◌, ◌≤◌, refl, ap, ◌∙◌, subst, ◌==◌, ltb, Bool, true,
  false, List, [], ◌∷◌, length, arith, Bool-cases, inl, inr, if◌then◌else◌,
}
use libkvs.MgMutex.{LockType, is_granted}
use libkvs.LockGuard.{
  acquire, Action, Thread, ready, polling, System, Move, request, enter, release, move, Reach, next,
  with_thread,
}

module _ {N : Type 0} (same : N → N → Bool) where
  abbrev pub work : Thread N → ℕ
  work (ready held rest) = 2 * length rest
  work (polling held n type rest) = 2 * length rest + 1

  -- The work of the threads below `k`.
  abbrev pub total_work : ℕ → (ℕ → Thread N) → ℕ
  total_work zero threads = 0
  total_work (suc k) threads = work (threads k) + total_work k threads

  -- A run of so many moves in which no operation begins.
  pub data Moves : ℕ → System same → System same → Type 0 where
    done : {s : System same} → Moves zero s s
    more : {n : ℕ} {s u w : System same} (t : ℕ) → Move same t s u → Moves n u w → Moves (suc n) s w

  abbrev pub IsIdleFrom : ℕ → (ℕ → Thread N) → Type 0
  IsIdleFrom k threads = (t : ℕ) → k ≤ t → threads t ≡ ready [] []

  request-work :
      (n : N) (held : List N) (type : LockType) (rest : List (Action N)) (b : Bool)
      → work (if b then ready (n ∷ held) rest else polling held n type rest)
        < work (ready held (acquire n type ∷ rest))
  request-work n held type rest true = omega arith
  request-work n held type rest false = omega arith

  -- A move changes one thread, which has less to do then.
  Move-thread :
      {t : ℕ} {s u : System same}
      → Move same t s u
      → (thread : Thread N) × (u.threads ≡ with_thread same s.threads t thread)
        × (work thread < work (s.threads t))
  Move-thread {t} {s} (request held n type rest e) = (
    if is_granted type (s.mutexes n) then ready (n ∷ held) rest else polling held n type rest,
    refl,
    rw e (request-work n held type rest (is_granted type (s.mutexes n))),
  )
  Move-thread {t} {s} (enter held n type rest e run) =
      (ready (n ∷ held) rest, refl, rw e (omega arith))
  Move-thread {t} {s} (release held n rest m e freed) = (ready held rest, refl, rw e (omega arith))

  total_work-with_thread_ge :
      (k : ℕ) (threads : ℕ → Thread N) (t : ℕ) (thread : Thread N)
      → k ≤ t
      → total_work k (with_thread same threads t thread) ≡ total_work k threads
  total_work-with_thread_ge zero threads t thread h = refl
  total_work-with_thread_ge (suc k) threads t thread h =
      let other : (t == k) ≡ false = ground arith in
      rw (other, total_work-with_thread_ge k threads t thread (omega (arith, h))) refl

  total_work-with_thread :
      (k : ℕ) (threads : ℕ → Thread N) (t : ℕ) (thread : Thread N)
      → t < k
      → work thread < work (threads t)
      → total_work k (with_thread same threads t thread) < total_work k threads
  total_work-with_thread zero threads t thread h less = absurd (omega (arith, h))
  total_work-with_thread (suc k) threads t thread h less = elim (Bool-cases (t == k)) [
    | inl e ↦
        let t≡k : t ≡ k = ground arith in
        let less' : work thread < work (threads k) =
          subst (λ x. work thread < work (threads x)) t≡k less in
        rw (e, total_work-with_thread_ge k threads t thread (omega (arith, t≡k)))
          (omega (arith, less'))
    | inr e ↦
        let t<k : t < k = ground arith in
        rw e (omega (arith, total_work-with_thread k threads t thread t<k less))
  ]

  Move-busy : {t : ℕ} {s u : System same} (k : ℕ) → Move same t s u → IsIdleFrom k s.threads → t < k
  Move-busy {t} {s} k m idle = elim (Bool-cases (ltb t k)) [
    | inl e ↦ ground arith
    | inr e ↦
        let (thread, f, less) = Move-thread m in
        let nothing : work (s.threads t) ≡ 0 = ap work (idle t (ground arith)) in
        absurd (omega (arith, less, nothing))
  ]

  Move-IsIdleFrom :
      {t : ℕ} {s u : System same} (k : ℕ)
      → Move same t s u
      → IsIdleFrom k s.threads
      → IsIdleFrom k u.threads
  Move-IsIdleFrom {t} {s} k m idle v h =
      let (thread, f, less) = Move-thread m in
      let other : (t == v) ≡ false = let busy : t < k = Move-busy k m idle in ground arith in
      ap (λ threads. threads v) f ∙ rw other (idle v h)

  Move-total_work :
      {t : ℕ} {s u : System same} (k : ℕ)
      → Move same t s u
      → IsIdleFrom k s.threads
      → total_work k u.threads < total_work k s.threads
  Move-total_work {t} {s} k m idle =
      let (thread, e, less) = Move-thread m in
      rw e (total_work-with_thread k s.threads t thread (Move-busy k m idle) less)

  -- A run is not longer than the work at its beginning.
  pub Moves-total_work :
      {n : ℕ} {s u : System same} (k : ℕ)
      → Moves n s u
      → IsIdleFrom k s.threads
      → (n + total_work k u.threads ≤ total_work k s.threads) × IsIdleFrom k u.threads
  Moves-total_work k done idle = (omega arith, idle)
  Moves-total_work {n = suc n} k (more t m ms) idle =
      let (le, idle') = Moves-total_work k ms (Move-IsIdleFrom k m idle) in
      (omega (arith, le, Move-total_work k m idle), idle')

  pub Moves-Reach :
      {n : ℕ} {s u : System same} {Runs : List (Action N) → Type 0}
      → Moves n s u
      → Reach same Runs s
      → Reach same Runs u
  Moves-Reach done r = r
  Moves-Reach (more t m ms) r = Moves-Reach ms (next r (move t m))

  thread-cases : (thread : Thread N) → (thread ≡ ready [] []) ⊎ (thread ≢ ready [] [])
  thread-cases (ready [] []) = inl refl
  thread-cases (ready [] (a ∷ rest)) = inr (λ e. absurd (cc e))
  thread-cases (ready (n ∷ held) rest) = inr (λ e. absurd (cc e))
  thread-cases (polling held n type rest) = inr (λ e. absurd (cc e))

  -- Some thread has something to do, or none has.
  pub busy-cases :
      (k : ℕ) (threads : ℕ → Thread N)
      → IsIdleFrom k threads
      → ((t : ℕ) → threads t ≡ ready [] []) ⊎ ((t : ℕ) × (threads t ≢ ready [] []))
  busy-cases zero threads idle = inl (λ t. idle t (omega arith))
  busy-cases (suc k) threads idle = elim (thread-cases (threads k)) [
    | inr busy ↦ inr (k, busy)
    | inl e ↦ busy-cases k threads (λ t h. elim (Bool-cases (t == k)) [
      | inl f ↦ let t≡k : t ≡ k = ground arith in ap threads t≡k ∙ e
      | inr f ↦ idle t (ground arith)
    ])
  ]
