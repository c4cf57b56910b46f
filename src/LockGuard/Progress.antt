-- ===== src/LockGuard/Progress.antt =====
-- Threads that take mutexes by guards, each in the order of the ranks, do not block each other for ever.
use libkvs.Prelude.{
  ℕ, zero, suc, ◌≡◌, ◌≢◌, ◌↔◌, ◌+◌, ◌<◌, ◌≤◌, refl, sym, ap, ◌∙◌, subst, Bool, true, false, List,
  [], ◌∷◌, ◌++◌, arith, Bool-cases, inl, inr,
}
use libkvs.MgMutex.{init, MgMutex, LockType, LockNode, is_running}
use libkvs.MgMutex.Queue.{queue, is_running-append}
use libkvs.MgMutex.System.{Pc, Fits}
use libkvs.MgMutex.Validity.{Reach-IsValid, unlock_total}
use libkvs.MgMutex.Fairness.{IsServed, Reach-IsServed}
use libkvs.LockGuard.{
  Action, acquire, leave, Thread, ready, polling, System, Move, request, enter, release, Reach,
}
use libkvs.LockGuard.Program.{IsAbove, InOrder, IsOrdered}
use libkvs.LockGuard.Projection.{holds, pc_of, same_refl, Reach-IsOrdered, Reach-project}

-- A mutex that somebody waits for is held by somebody.
running_thread :
    (running waiting : List LockNode) (t : ℕ)
    → (running ≡ [] → waiting ≡ [])
    → is_running t (running ++ waiting) ≡ true
    → (u : ℕ) × (is_running u running ≡ true)
unfolding is_running
running_thread [] [] t served h = absurd (cc h)
running_thread [] (node ∷ nodes) t served h = absurd (cc (served refl))
running_thread (node ∷ nodes) waiting t served h = (node.thread_id, ground arith)

queue_empty : (ns : List LockNode) → ((t : ℕ) → is_running t ns ≡ false) → ns ≡ []
unfolding is_running
queue_empty [] h = refl
queue_empty (node ∷ nodes) h = let e = h node.thread_id in absurd (ground arith)

append-nil_left : {A : Type 0} (xs ys : List A) → xs ++ ys ≡ [] → xs ≡ []
append-nil_left [] ys h = refl
append-nil_left (x ∷ xs) ys h = absurd (cc h)

-- A mutex that nobody holds or waits for is as at the beginning.
empty-init : (m : MgMutex) → IsServed m → queue m ≡ [] → m ≡ init
empty-init m served h =
    let r : m.running_threads ≡ [] = append-nil_left m.running_threads m.waiting_threads h in
    let (w, c) = served r in cc (r, w, c)

module _ {N : Type 0} (same : N → N → Bool) (same_iff : (a b : N) → (same a b ≡ true) ↔ (a ≡ b))
    (rank : N → ℕ) (bound : ℕ) (Runs : List (Action N) → Type 0)
    (in_order : (program : List (Action N)) → Runs program → InOrder rank bound [] program) where
  abbrev pub CanMove : System same → Type 0
  CanMove s = (t : ℕ) × (u : System same) × Move same t s u

  abbrev RanIn : System same → Type 0
  RanIn s = Reach same Runs s

  fits :
      (s : System same) (n : N) (t : ℕ)
      → RanIn s
      → Fits (s.mutexes n) t (pc_of same same_iff rank bound n (s.threads t))
  fits s n t r = (Reach-IsValid (Reach-project same same_iff rank bound Runs in_order r n)).fits t

  ordered :
      (s : System same) (t : ℕ) (thread : Thread N)
      → RanIn s
      → s.threads t ≡ thread
      → IsOrdered rank bound thread
  ordered s t thread r e =
      subst (IsOrdered rank bound) e (Reach-IsOrdered same same_iff rank bound Runs in_order r t)

  ready-CanMove :
      (s : System same) (t : ℕ) (held : List N) (action : Action N) (rest : List (Action N))
      → RanIn s
      → s.threads t ≡ ready held (action ∷ rest)
      → CanMove s
  ready-CanMove s t held (acquire n type) rest r e = (t, _, request held n type rest e)
  ready-CanMove s t [] leave rest r e = absurd (ordered s t _ r e).1
  ready-CanMove s t (n ∷ held) leave rest r e =
      let (m, freed) =
        unlock_total _ t (Reach-project same same_iff rank bound Runs in_order r n)
          (rw (e, same_refl same same_iff rank bound n) refl) in
      (t, _, release held n rest m e freed)

  not_outside :
      (s : System same) (n : N) (t : ℕ)
      → RanIn s
      → is_running t (s.mutexes n).running_threads ≡ true
      → pc_of same same_iff rank bound n (s.threads t) ≡ Pc.outside
      → ⊥
  not_outside s n t r runs out =
      let f : Fits (s.mutexes n) t Pc.outside = subst (Fits (s.mutexes n) t) out (fits s n t r) in
      ground
        (arith, is_running-append t (s.mutexes n).running_threads (s.mutexes n).waiting_threads)

  holds-above :
      (n k : N) (held : List N)
      → IsAbove rank bound k held
      → holds same same_iff rank bound n held ≡ true
      → rank n < rank k
  holds-above n k [] above h = absurd (cc h)
  holds-above n k (m ∷ held) above h = elim (Bool-cases (same m n)) [
    | inl e ↦ subst (λ x. rank x < rank k) ((same_iff m n).0 e) above.0
    | inr e ↦ holds-above n k held above.1 (rw e at h)
  ]

  -- The thread that holds a mutex can move, or it waits for a higher one.
  holder-CanMove :
      (s : System same) (n : N) (t : ℕ) (thread : Thread N)
      → RanIn s
      → is_running t (s.mutexes n).running_threads ≡ true
      → s.threads t ≡ thread
      → ((held : List N) (k : N) (type : LockType) (rest : List (Action N))
          → s.threads t ≡ polling held k type rest
          → rank n < rank k
          → CanMove s)
      → CanMove s
  holder-CanMove s n t (ready held []) r runs e higher = absurd (
      not_outside s n t r runs (
        rw
          (
            e,
            subst (λ x. holds same same_iff rank bound n x ≡ false) (sym (ordered s t _ r e).1)
                refl,
          )
          refl))
  holder-CanMove s n t (ready held (action ∷ rest)) r runs e higher =
      ready-CanMove s t held action rest r e
  holder-CanMove s n t (polling held k type rest) r runs e higher = elim (Bool-cases (same k n)) [
    | inl f ↦ (
      t,
      _,
      enter held k type rest e (
          subst (λ x. is_running t (s.mutexes x).running_threads ≡ true) (sym ((same_iff k n).0 f))
            runs),
    )
    | inr f ↦ elim (Bool-cases (holds same same_iff rank bound n held)) [
      | inl h ↦ higher held k type rest e (holds-above n k held (ordered s t _ r e).1.0 h)
      | inr h ↦ absurd (not_outside s n t r runs (rw (e, f, h) refl))
    ]
  ]

  -- The fuel is how far the rank is below the bound.
  polling-CanMove :
      (fuel : ℕ) (s : System same) (t : ℕ) (held : List N) (n : N) (type : LockType)
      (rest : List (Action N))
      → RanIn s
      → s.threads t ≡ polling held n type rest
      → bound ≤ rank n + fuel
      → CanMove s
  polling-CanMove zero s t held n type rest r e enough =
      absurd (omega (arith, (ordered s t _ r e).1.1, enough))
  polling-CanMove (suc fuel) s t held n type rest r e enough =
      let queued : is_running t (queue (s.mutexes n)) ≡ true =
        rw (e, same_refl same same_iff rank bound n) at (fits s n t r) in
      let (u, runs) =
        running_thread (s.mutexes n).running_threads (s.mutexes n).waiting_threads t
          (λ h. (Reach-IsServed (Reach-project same same_iff rank bound Runs in_order r n) h).0)
          queued in
      holder-CanMove s n u _ r runs refl (λ held' k type' rest' e' above.
        polling-CanMove fuel s u held' k type' rest' r e' (omega (arith, enough, above)))

  pub no_deadlock :
      (s : System same) (t : ℕ) → Reach same Runs s → s.threads t ≢ ready [] [] → CanMove s
  no_deadlock s t r busy = go (s.threads t) refl
    where
      go : (thread : Thread N) → s.threads t ≡ thread → CanMove s
      go (ready held []) e = absurd (busy (e ∙ ap (λ x. ready x []) (ordered s t _ r e).1))
      go (ready held (action ∷ rest)) e = ready-CanMove s t held action rest r e
      go (polling held n type rest) e = polling-CanMove bound s t held n type rest r e (omega arith)

  -- When all threads are idle, no mutex is held.
  pub idle-init :
      (s : System same) (n : N)
      → Reach same Runs s
      → ((t : ℕ) → s.threads t ≡ ready [] [])
      → s.mutexes n ≡ init
  idle-init s n r idle =
      empty-init (s.mutexes n)
        (Reach-IsServed (Reach-project same same_iff rank bound Runs in_order r n))
        (queue_empty _ (λ t. rw (idle t) at (fits s n t r)))
