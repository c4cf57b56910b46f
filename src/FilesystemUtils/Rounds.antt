-- ===== src/FilesystemUtils/Rounds.antt =====
-- The directories that `mkdirp` goes through.
use libkvs.Prelude.{
  ℕ, zero, suc, ◌<◌, ◌≤◌, ◌==◌, ◌≡◌, ◌≢◌, refl, Bytes, bytes, Bool, true, false, none, some,
  Option-cases, List, [], ◌∷◌, ◌++◌, if◌then◌else◌, length, arith, Bool-cases, inl, inr,
  append_assoc, append-nil,
}
use libkvs.StringUtils.{slash}
use libkvs.FilesystemUtils.{
  FileSystem, MkdirResult, created, already_exists, failed, until_slash, from_slash, step_over,
  ensure_directory, mkdirp_loop, mkdirp,
}

-- The texts in front of the separators of a path, and the path itself unless it ends in one. `done`
-- is what lies in front, and the list is of what is still to come.
unfoldable pub prefixes : Bytes → Bytes → List Bytes
prefixes done [] = []
prefixes done (c ∷ []) = (if c == slash then done else done ++ c ∷ []) ∷ []
prefixes done (c ∷ d ∷ cs) =
    let rest = prefixes (done ++ c ∷ []) (d ∷ cs) in if c == slash then done ∷ rest else rest

next_round :
    (done : Bytes) (c : ℕ) (cs : Bytes)
    → let reached = done ++ until_slash (c ∷ cs) in
      let (before, after) = step_over reached (from_slash (c ∷ cs)) in
      (prefixes done (c ∷ cs) ≡ reached ∷ prefixes before after) × (length after ≤ length cs)
unfolding prefixes until_slash from_slash
next_round done c [] = elim (Bool-cases (c == slash)) [
  | inl e ↦ rw (e, append-nil done) (refl, omega arith)
  | inr e ↦ rw e (refl, omega arith)
]
next_round done c (d ∷ cs) = elim (Bool-cases (c == slash)) [
  | inl e ↦ rw (e, append-nil done) (refl, omega arith)
  | inr e ↦
      let (visits, shorter) = next_round (done ++ c ∷ []) d cs in
      rw (e, ← append_assoc done (c ∷ []) (until_slash (d ∷ cs))) (visits, omega arith)
]

module _ (F : FileSystem) where
  -- Each directory in turn, up to the first that cannot be had.
  unfoldable pub ensure_all : F.State → Bytes → List Bytes → Bool × F.State
  ensure_all s root [] = (true, s)
  ensure_all s root (p ∷ ps) =
      let (good, s') = ensure_directory F s (root ++ bytes "/" ++ p) in
      let rest = ensure_all s' root ps in if good then rest else (false, s')

  mkdirp_loop-ensure_all :
      (fuel : ℕ) (s : F.State) (root done rest : Bytes)
      → length rest < fuel
      → mkdirp_loop F fuel s root done rest ≡ some (ensure_all s root (prefixes done rest))
  unfolding mkdirp_loop ensure_all
  mkdirp_loop-ensure_all zero s root done rest h = absurd (omega arith)
  mkdirp_loop-ensure_all (suc fuel) s root done [] h = unfold prefixes in refl
  mkdirp_loop-ensure_all (suc fuel) s root done (c ∷ cs) h =
      let reached = done ++ until_slash (c ∷ cs) in
      let (before, after) = step_over reached (from_slash (c ∷ cs)) in
      let (visits, shorter) = next_round done c cs in
      let (good, s') = ensure_directory F s (root ++ bytes "/" ++ reached) in
      rw (visits, ensure_all)
        (elim (Bool-cases good) [
          | inl e ↦ rw e (mkdirp_loop-ensure_all fuel s' root before after (omega arith))
          | inr e ↦ rw e
        ])

  -- What it is to make sure of directories in turn: a path that is there has to be a directory, and one
  -- that is not is made, which fails neither if it was made meanwhile.
  pub data Ensures (root : Bytes) : F.State → List Bytes → Bool × F.State → Type 0 where
    all_there : {s : F.State} → Ensures root s [] (true, s)
    is_there :
        {s : F.State} {p : Bytes} {ps : List Bytes} {result : Bool × F.State}
        → F.stat s (root ++ bytes "/" ++ p) ≡ some true
        → Ensures root s ps result
        → Ensures root s (p ∷ ps) result
    is_file :
        {s : F.State} {p : Bytes} {ps : List Bytes}
        → F.stat s (root ++ bytes "/" ++ p) ≡ some false
        → Ensures root s (p ∷ ps) (false, s)
    is_made :
        {s : F.State} {p : Bytes} {ps : List Bytes} {result : Bool × F.State} (how : MkdirResult)
        → F.stat s (root ++ bytes "/" ++ p) ≡ none
        → (F.mkdir s (root ++ bytes "/" ++ p)).0 ≡ how
        → how ≢ failed
        → Ensures root (F.mkdir s (root ++ bytes "/" ++ p)).1 ps result
        → Ensures root s (p ∷ ps) result
    is_refused :
        {s : F.State} {p : Bytes} {ps : List Bytes}
        → F.stat s (root ++ bytes "/" ++ p) ≡ none
        → (F.mkdir s (root ++ bytes "/" ++ p)).0 ≡ failed
        → Ensures root s (p ∷ ps) (false, (F.mkdir s (root ++ bytes "/" ++ p)).1)

  ensure_made :
      (s : F.State) (root p : Bytes) (ps : List Bytes) (how : MkdirResult)
      → F.stat s (root ++ bytes "/" ++ p) ≡ none
      → (F.mkdir s (root ++ bytes "/" ++ p)).0 ≡ how
      → ((t : F.State) → Ensures root t ps (ensure_all t root ps))
      → Ensures root s (p ∷ ps) (ensure_all s root (p ∷ ps))
  unfolding ensure_all ensure_directory
  ensure_made s root p ps created e f later =
      rw (ensure_all, ensure_directory, e, f) (is_made created e f (λ same. cc same) (later _))
  ensure_made s root p ps already_exists e f later =
      rw (ensure_all, ensure_directory, e, f)
        (is_made already_exists e f (λ same. cc same) (later _))
  ensure_made s root p ps failed e f later =
      rw (ensure_all, ensure_directory, e, f) (is_refused e f)

  ensure_all-Ensures :
      (root : Bytes) (ps : List Bytes) (s : F.State) → Ensures root s ps (ensure_all s root ps)
  unfolding ensure_all ensure_directory
  ensure_all-Ensures root [] s = all_there
  ensure_all-Ensures root (p ∷ ps) s = elim (Option-cases (F.stat s (root ++ bytes "/" ++ p))) [
    | inl e ↦ ensure_made s root p ps _ e refl (ensure_all-Ensures root ps)
    | inr (true, e) ↦
        rw (ensure_all, ensure_directory, e) (is_there e (ensure_all-Ensures root ps s))
    | inr (false, e) ↦ rw (ensure_all, ensure_directory, e) (is_file e)
  ]

  -- mkdirp ends: it goes through the prefixes of the path that end at a separator or at the end of
  -- the path, in this order. One that is a directory is left, one that is missing is made; it fails
  -- at the first that is a file or that cannot be made and does not exist by then, and goes no
  -- further.
  pub mkdirp-Ensures :
      (s : F.State) (root p : Bytes)
      → (result : Bool × F.State) × (mkdirp F s root p ≡ some result)
        × Ensures root s (prefixes [] p) result
  unfolding mkdirp
  mkdirp-Ensures s root p = (
    ensure_all s root (prefixes [] p),
    mkdirp_loop-ensure_all (suc (length p)) s root [] p (omega arith),
    ensure_all-Ensures root (prefixes [] p) s,
  )
