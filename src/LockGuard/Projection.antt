-- ===== src/LockGuard/Projection.antt =====
-- Seen from one mutex, threads with guards are threads that use this mutex.
use libkvs.Prelude.{
  ℕ, ◌==◌, ◌≡◌, ◌↔◌, refl, sym, ap, ◌∙◌, subst, Bool, true, false, List, [], ◌∷◌, if◌then◌else◌,
  arith, Bool-cases, inl, inr,
}
use libkvs.MgMutex.{LockType, MgMutex, is_granted, lock}
use libkvs.MgMutex.System.{Pc, update}
use libkvs.MgMutex.System.{System as OneMutex}
use libkvs.MgMutex.System.{Reach as ReachOne}
use libkvs.MgMutex.System.{here as here_one}
use libkvs.MgMutex.System.{next as next_one}
use libkvs.MgMutex.System.{request as request_one}
use libkvs.MgMutex.System.{enter as enter_one}
use libkvs.MgMutex.System.{release as release_one}
use libkvs.LockGuard.{
  Action, acquire, leave, Thread, ready, polling, System, with_thread, Move, request, enter,
  release, begin, move, Reach, here, next,
}
use libkvs.LockGuard.Program.{IsAbove, InOrder, IsOrdered}
use mathlib.Core.Path.{fun_ext}

abbrev pub AnyType : LockType → Type 0
AnyType type = Unit {0}

module _ {N : Type 0} (same : N → N → Bool) (same_iff : (a b : N) → (same a b ≡ true) ↔ (a ≡ b))
    (rank : N → ℕ) (bound : ℕ) where
  abbrev pub holds : N → List N → Bool
  holds n [] = false
  holds n (k ∷ held) = if same k n then true else holds n held

  -- Where a thread stands at one mutex.
  abbrev pub pc_of : N → Thread N → Pc
  pc_of n (ready held rest) = if holds n held then Pc.inside else Pc.outside
  pc_of n (polling held k type rest) =
      if same k n then Pc.polling else (if holds n held then Pc.inside else Pc.outside)

  abbrev pub project : System same → N → OneMutex
  project s n = record { mutex = s.mutexes n; pc = λ t. pc_of n (s.threads t) }

  pub above-holds : (n : N) (held : List N) → IsAbove rank bound n held → holds n held ≡ false
  above-holds n [] h = refl
  above-holds n (k ∷ held) h = elim (Bool-cases (same k n)) [
    | inl e ↦ let e' : k ≡ n = (same_iff k n).0 e in absurd (omega (arith, h.0, ap rank e'))
    | inr e ↦ rw e (above-holds n held h.1)
  ]

  pub same_refl : (n : N) → same n n ≡ true
  same_refl n = (same_iff n n).1 refl

  -- A thread that moves changes its own place only.
  abbrev pcs : (ℕ → Thread N) → N → ℕ → Pc
  pcs threads n t = pc_of n (threads t)

  pcs-with_thread :
      (threads : ℕ → Thread N) (n : N) (t : ℕ) (thread : Thread N)
      → pcs (with_thread same threads t thread) n ≡ update (pcs threads n) t (pc_of n thread)
  pcs-with_thread threads n t thread =
      fun_ext (λ u. elim (Bool-cases (t == u)) [ inl e ↦ rw e | inr e ↦ rw e ])

  pcs-unmoved :
      (threads : ℕ → Thread N) (n : N) (t : ℕ) (thread : Thread N)
      → pc_of n thread ≡ pc_of n (threads t)
      → pcs (with_thread same threads t thread) n ≡ pcs threads n
  pcs-unmoved threads n t thread h = fun_ext (λ u. elim (Bool-cases (t == u)) [
    | inl e ↦ let t≡u : t ≡ u = ground arith in rw e (h ∙ ap (λ x. pc_of n (threads x)) t≡u)
    | inr e ↦ rw e
  ])

  abbrev At : MgMutex → (ℕ → Pc) → Type 0
  At m pc = ReachOne AnyType (record { mutex = m; pc = pc })

  -- An action on mutex `n`, seen from mutex `k`.
  action-At :
      (s : System same) (n k : N) (m mk : MgMutex) (t : ℕ) (thread : Thread N)
      → At m (update (pcs s.threads n) t (pc_of n thread))
      → (same n k ≡ true → mk ≡ m)
      → (same n k ≡ false → mk ≡ s.mutexes k)
      → (same n k ≡ false → pc_of k thread ≡ pc_of k (s.threads t))
      → At (s.mutexes k) (pcs s.threads k)
      → At mk (pcs (with_thread same s.threads t thread) k)
  action-At s n k m mk t thread here_n own other away r = elim (Bool-cases (same n k)) [
    | inl e ↦
        let e' : n ≡ k = (same_iff n k).0 e in
        rw (own e) (
          subst (λ x. At m (pcs (with_thread same s.threads t thread) x)) e'
            (subst (At m) (sym (pcs-with_thread s.threads n t thread)) here_n))
    | inr e ↦
        rw (other e) (subst (At (s.mutexes k)) (sym (pcs-unmoved s.threads k t thread (away e))) r)
  ]

  -- Before it takes a mutex a thread does not hold it, and afterwards it does or it waits.
  request-out :
      (n : N) (thread : Thread N) (held : List N) (type : LockType) (rest : List (Action N))
      → thread ≡ ready held (acquire n type ∷ rest)
      → IsOrdered rank bound thread
      → pc_of n thread ≡ Pc.outside
  request-out n thread held type rest e ordered =
      let ok : IsOrdered rank bound (ready held (acquire n type ∷ rest)) =
        subst (IsOrdered rank bound) e ordered in
      rw (e, above-holds n held ok.1.0) refl

  request-seen :
      (n : N) (held : List N) (type : LockType) (rest : List (Action N)) (b : Bool)
      → (if b then Pc.inside else Pc.polling)
        ≡ pc_of n (if b then ready (n ∷ held) rest else polling held n type rest)
  request-seen n held type rest true = rw (same_refl n) refl
  request-seen n held type rest false = rw (same_refl n) refl

  request-away :
      (n k : N) (held : List N) (type : LockType) (rest : List (Action N)) (b : Bool)
      → same n k ≡ false
      → pc_of k (if b then ready (n ∷ held) rest else polling held n type rest)
        ≡ pc_of k (ready held (acquire n type ∷ rest))
  request-away n k held type rest true f = rw f refl
  request-away n k held type rest false f = rw f refl

  pub Move-project :
      {t : ℕ} {s u : System same}
      → Move same t s u
      → IsOrdered rank bound (s.threads t)
      → ((k : N) → ReachOne AnyType (project s k))
      → (k : N) → ReachOne AnyType (project u k)
  Move-project {t} {s} (request held n type rest e) ordered r k =
      action-At s n k (lock t type (s.mutexes n)) _ t
        (if is_granted type (s.mutexes n) then ready (n ∷ held) rest else polling held n type rest)
        (subst (λ p. At (lock t type (s.mutexes n)) (update (pcs s.threads n) t p))
          (request-seen n held type rest (is_granted type (s.mutexes n)))
          (next_one (r n) (request_one t type (request-out n _ held type rest e ordered) tt)))
        (λ f. rw f) (λ f. rw f) (λ f. request-away n k held type rest _ f ∙ sym (ap (pc_of k) e))
        (r k)
  Move-project {t} {s} (enter held n type rest e run) ordered r k =
      action-At s n k (s.mutexes n) (s.mutexes k) t (ready (n ∷ held) rest)
        (subst (λ p. At (s.mutexes n) (update (pcs s.threads n) t p)) (rw (same_refl n) refl)
          (next_one (r n) (enter_one t (rw (e, same_refl n) refl) run)))
        (λ f. ap s.mutexes (sym ((same_iff n k).0 f))) (λ f. refl) (λ f. rw (f, e, f) refl) (r k)
  Move-project {t} {s} (release held n rest m e freed) ordered r k =
      let ok : IsOrdered rank bound (ready (n ∷ held) (leave ∷ rest)) =
        subst (IsOrdered rank bound) e ordered in
      action-At s n k m _ t (ready held rest)
        (subst (λ p. At m (update (pcs s.threads n) t p)) (rw (above-holds n held ok.0.0) refl)
          (next_one (r n) (release_one t m (rw (e, same_refl n) refl) freed)))
        (λ f. rw f) (λ f. rw f) (λ f. rw (e, f) refl) (r k)

  -- Every thread keeps to the order of the mutexes.
  with_thread-IsOrdered :
      (threads : ℕ → Thread N) (t : ℕ) (thread : Thread N)
      → ((v : ℕ) → IsOrdered rank bound (threads v))
      → IsOrdered rank bound thread
      → (v : ℕ) → IsOrdered rank bound (with_thread same threads t thread v)
  with_thread-IsOrdered threads t thread h own v = elim (Bool-cases (t == v)) [
    | inl e ↦ rw e own
    | inr e ↦ rw e (h v)
  ]

  request-IsOrdered :
      (n : N) (held : List N) (type : LockType) (rest : List (Action N)) (b : Bool)
      → IsOrdered rank bound (ready held (acquire n type ∷ rest))
      → IsOrdered rank bound (if b then ready (n ∷ held) rest else polling held n type rest)
  request-IsOrdered n held type rest true h = ((h.1.0, h.0), h.1.2)
  request-IsOrdered n held type rest false h = h

  pub Move-IsOrdered :
      {t : ℕ} {s u : System same}
      → Move same t s u
      → ((v : ℕ) → IsOrdered rank bound (s.threads v))
      → (v : ℕ) → IsOrdered rank bound (u.threads v)
  Move-IsOrdered {t} {s} (request held n type rest e) h =
      with_thread-IsOrdered s.threads t _ h
        (request-IsOrdered n held type rest _ (subst (IsOrdered rank bound) e (h t)))
  Move-IsOrdered {t} {s} (enter held n type rest e run) h =
      let ok : IsOrdered rank bound (polling held n type rest) =
        subst (IsOrdered rank bound) e (h t) in
      with_thread-IsOrdered s.threads t _ h ((ok.1.0, ok.0), ok.1.2)
  Move-IsOrdered {t} {s} (release held n rest m e freed) h =
      let ok : IsOrdered rank bound (ready (n ∷ held) (leave ∷ rest)) =
        subst (IsOrdered rank bound) e (h t) in
      with_thread-IsOrdered s.threads t _ h (ok.0.1, ok.1)

  module _ (Runs : List (Action N) → Type 0)
      (in_order : (program : List (Action N)) → Runs program → InOrder rank bound [] program) where
    pub Reach-IsOrdered :
        {s : System same} → Reach same Runs s → (v : ℕ) → IsOrdered rank bound (s.threads v)
    Reach-IsOrdered here = λ v. (tt, refl)
    Reach-IsOrdered (next {s} r (begin t program e runs)) =
        with_thread-IsOrdered s.threads t _ (Reach-IsOrdered r) (tt, in_order program runs)
    Reach-IsOrdered (next r (move t m)) = Move-IsOrdered m (Reach-IsOrdered r)

    -- A state that threads with guards reach is, at each mutex, one that threads with this mutex
    -- reach.
    pub Reach-project :
        {s : System same} → Reach same Runs s → (k : N) → ReachOne AnyType (project s k)
    Reach-project here k = here_one
    Reach-project (next {s} r (begin t program e runs)) k =
        subst (At (s.mutexes k)) (sym (pcs-unmoved s.threads k t _ (rw e refl))) (Reach-project r k)
    Reach-project (next r (move t m)) k = Move-project m (Reach-IsOrdered r t) (Reach-project r) k
