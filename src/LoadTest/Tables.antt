-- ===== src/LoadTest/Tables.antt =====
-- `m_storagePaths` and `m_mountPoints` of TestRunner.cpp: the numbers of mounts that they have for a
-- path.
use mathlib.Core.Option.{some-injective}
use libkvs.VirtualStorage.Mounting.Unmount.{bind-some}
use libkvs.Prelude.{
  ℕ, zero, suc, ltb, ◌^◌, ◌+◌, ◌==◌, ◌≤◌, ◌<◌, ◌≡◌, refl, ◌∙◌, subst, Bytes, bytes_eq, bytes_eq_iff,
  bytes_eq_refl, Bool, true, false, none, some, List, [], ◌∷◌, if◌then◌else◌, arith, Bool-cases,
  inl, inr, length,
}
use libkvs.RandomUtils.{random, ◌>>=◌}
use libkvs.RandomUtils.Strings.{random_between_bounds}
use libkvs.VirtualStorage.Tables.{find_id, put_id, erase_id}
use libkvs.LoadTest.Containers.{count_path, uncount_path, get_random_element, element_at}

-- What `m_storagePaths[path]` has, 0 for a path that is not there.
unfoldable pub count_of : Bytes → List (Bytes × ℕ) → ℕ
count_of path [] = 0
count_of path ((p, n) ∷ ps) = if bytes_eq p path then n else count_of path ps

-- The number of mount points of a path.
unfoldable pub mounts_of : Bytes → List (ℕ × Bytes) → ℕ
mounts_of path [] = 0
mounts_of path ((i, p) ∷ ps) =
    let rest = mounts_of path ps in if bytes_eq p path then suc rest else rest

abbrev pub one_if : Bool → ℕ
one_if b = if b then 1 else 0

-- Each path stands once, with a number that is not 0.
unfoldable pub CountsOnce : List (Bytes × ℕ) → Type 0
CountsOnce [] = Unit
CountsOnce ((p, n) ∷ ps) = (0 < n) × (count_of p ps ≡ 0) × CountsOnce ps

-- Each id stands once.
unfoldable pub HasOnce : List (ℕ × Bytes) → Type 0
HasOnce [] = Unit
HasOnce ((i, p) ∷ ps) = (find_id i ps ≡ none) × HasOnce ps

-- A count that does not overflow raises the number of its path, and no other.
pub count_path-CountsOnce :
    (path : Bytes) (ps qs : List (Bytes × ℕ))
    → CountsOnce ps
    → count_path path ps ≡ some qs
    → CountsOnce qs
      × ((q : Bytes) → count_of q qs ≡ one_if (bytes_eq path q) + count_of q ps)
      × (0 < length qs)
unfolding CountsOnce count_path count_of
count_path-CountsOnce path [] qs h e =
    rw (← some-injective _ _ e) ((omega arith, refl, tt), (λ q. ground arith), omega arith)
count_path-CountsOnce path ((p, n) ∷ ps) qs (pos, once, rest) e =
    elim (Bool-cases (bytes_eq p path)) [
      | inl same ↦ elim (Bool-cases (ltb (suc n) (2 ^ 31))) [
        | inl small ↦ rw (← some-injective _ _ (rw (same, small) at e)) (
          (omega arith, once, rest),
          (λ q. ground (arith, bytes_eq_iff p path, bytes_eq_iff p q, bytes_eq_iff path q)),
          omega arith,
        )
        | inr large ↦ absurd (cc (rw (same, large) at e))
      ]
      | inr other ↦
          let (ps', done, eq) = bind-some (count_path path ps) _ qs (rw other at e) in
          let (once', counts, some_path) = count_path-CountsOnce path ps ps' rest done in
          let differs : bytes_eq path p ≡ false =
            ground (arith, other, bytes_eq_iff p path, bytes_eq_iff path p) in
          rw (← some-injective _ _ eq) (
            (pos, counts p ∙ rw differs (omega arith), once'),
            (λ q. ground (
              arith,
              counts q,
              other,
              bytes_eq_iff p path,
              bytes_eq_iff p q,
              bytes_eq_iff path q,
            )),
            omega arith,
          )
    ]

pub mounts_of-put_id :
    (id : ℕ) (path q : Bytes) (ps : List (ℕ × Bytes))
    → find_id id ps ≡ none
    → mounts_of q (put_id id path ps) ≡ one_if (bytes_eq path q) + mounts_of q ps
unfolding put_id mounts_of find_id
mounts_of-put_id id path q [] h = ground arith
mounts_of-put_id id path q ((i, p) ∷ ps) h = ground (arith, mounts_of-put_id id path q ps)

pub find_id-put_id :
    (id j : ℕ) (path : Bytes) (ps : List (ℕ × Bytes))
    → find_id j ps ≡ none
    → (id == j) ≡ false
    → find_id j (put_id id path ps) ≡ none
unfolding put_id find_id
find_id-put_id id j path [] h ne = ground arith
find_id-put_id id j path ((i, p) ∷ ps) h ne = ground (arith, find_id-put_id id j path ps)

pub put_id-HasOnce :
    (id : ℕ) (path : Bytes) (ps : List (ℕ × Bytes)) → HasOnce ps → HasOnce (put_id id path ps)
unfolding put_id HasOnce
put_id-HasOnce id path [] h = (unfold find_id in refl, tt)
put_id-HasOnce id path ((i, p) ∷ ps) h = elim (Bool-cases (i == id)) [
  | inl e ↦ rw e h
  | inr e ↦ rw e (find_id-put_id id i path ps h.0 (ground arith), put_id-HasOnce id path ps h.1)
]

pub find_id-erase_id :
    (id j : ℕ) (ps : List (ℕ × Bytes)) → find_id j ps ≡ none → find_id j (erase_id id ps) ≡ none
unfolding erase_id find_id
find_id-erase_id id j [] h = refl
find_id-erase_id id j ((i, p) ∷ ps) h = ground (arith, find_id-erase_id id j ps)

pub erase_id-HasOnce : (id : ℕ) (ps : List (ℕ × Bytes)) → HasOnce ps → HasOnce (erase_id id ps)
unfolding erase_id HasOnce
erase_id-HasOnce id [] h = tt
erase_id-HasOnce id ((i, p) ∷ ps) h = elim (Bool-cases (i == id)) [
  | inl e ↦ rw e (erase_id-HasOnce id ps h.1)
  | inr e ↦ rw e (find_id-erase_id id i ps h.0, erase_id-HasOnce id ps h.1)
]

erase_id_missing : (id : ℕ) (ps : List (ℕ × Bytes)) → find_id id ps ≡ none → erase_id id ps ≡ ps
unfolding erase_id find_id
erase_id_missing id [] h = refl
erase_id_missing id ((i, p) ∷ ps) h = ground (arith, erase_id_missing id ps)

pub mounts_of-erase_id :
    (id : ℕ) (path q : Bytes) (ps : List (ℕ × Bytes))
    → HasOnce ps
    → find_id id ps ≡ some path
    → one_if (bytes_eq path q) + mounts_of q (erase_id id ps) ≡ mounts_of q ps
unfolding erase_id find_id mounts_of HasOnce
mounts_of-erase_id id path q [] h e = ground arith
mounts_of-erase_id id path q ((i, p) ∷ ps) h e =
    ground (arith, mounts_of-erase_id id path q ps, erase_id_missing id ps)

-- A path that is counted is counted once less.
abbrev UncountedOnce : Bytes → List (Bytes × ℕ) → Type 0
UncountedOnce path ps =
    (qs : List (Bytes × ℕ)) × (uncount_path path ps ≡ some qs)
    × CountsOnce qs
    × ((q : Bytes) → one_if (bytes_eq path q) + count_of q qs ≡ count_of q ps)
    × (length ps ≤ suc (length qs))

uncount_path_here :
    (path p : Bytes) (n : ℕ) (ps : List (Bytes × ℕ))
    → CountsOnce ((p, n) ∷ ps)
    → bytes_eq p path ≡ true
    → UncountedOnce path ((p, n) ∷ ps)
unfolding CountsOnce uncount_path count_of
uncount_path_here path p zero ps h e = absurd (omega (arith, h.0))
uncount_path_here path p (suc zero) ps (one, once, rest) e = rw e (
  ps,
  refl,
  rest,
  λ q. ground (arith, once, bytes_eq_iff p path, bytes_eq_iff p q, bytes_eq_iff path q),
  omega arith,
)
uncount_path_here path p (suc (suc n)) ps (one, once, rest) e = rw e (
  (p, suc n) ∷ ps,
  refl,
  (omega arith, once, rest),
  λ q. ground (arith, bytes_eq_iff p path, bytes_eq_iff p q, bytes_eq_iff path q),
  omega arith,
)

pub uncount_path_total :
    (path : Bytes) (ps : List (Bytes × ℕ))
    → CountsOnce ps
    → 0 < count_of path ps
    → UncountedOnce path ps
unfolding CountsOnce uncount_path count_of
uncount_path_total path [] h pos = absurd (omega arith)
uncount_path_total path ((p, n) ∷ ps) (one, once, rest) pos = elim (Bool-cases (bytes_eq p path)) [
  | inl e ↦ uncount_path_here path p n ps (one, once, rest) e
  | inr e ↦
      let (qs, found, good, counts, size) = uncount_path_total path ps rest (ground arith) in
      rw (e, found, ◌>>=◌)
        (
          (p, n) ∷ qs,
          refl,
          (one, omega (arith, counts p), good),
          λ q. ground (arith, counts q, bytes_eq_iff p path, bytes_eq_iff p q, bytes_eq_iff path q),
          omega arith,
        )
]

element_at_total :
    (ps : List (ℕ × Bytes)) (r : ℕ)
    → HasOnce ps
    → r < length ps
    → (e : ℕ × Bytes) × (element_at ps r ≡ some e) × (find_id e.0 ps ≡ some e.1)
unfolding HasOnce find_id
element_at_total [] r h lt = absurd (omega arith)
element_at_total ((i, p) ∷ ps) zero h lt = ((i, p), refl, ground arith)
element_at_total ((i, p) ∷ ps) (suc r) h lt =
    let (e, at, found) = element_at_total ps r h.1 (omega arith) in
    (
      e,
      at,
      elim (Bool-cases (i == e.0)) [
        | inl same ↦
            let here : i ≡ e.0 = ground arith in
            let gone : find_id e.0 ps ≡ none = subst (λ j. find_id j ps ≡ none) here h.0 in
            absurd (ground arith)
        | inr other ↦ rw other found
      ],
    )

pub get_random_element_total :
    (draw : ℕ) (ps : List (ℕ × Bytes))
    → HasOnce ps
    → 0 < length ps
    → (e : ℕ × Bytes) × (get_random_element draw ps ≡ some e) × (find_id e.0 ps ≡ some e.1)
unfolding get_random_element
get_random_element_total draw ps h pos =
    let (r, drawn, from, to) = random_between_bounds draw 0 (length ps) pos in
    let same : random draw (length ps) ≡ some r = unfold random in drawn in
    let (e, at, found) = element_at_total ps r h to in (e, rw (same, ◌>>=◌) at, found)

pub some_mount : (q : Bytes) (ps : List (ℕ × Bytes)) → 0 < mounts_of q ps → 0 < length ps
unfolding mounts_of
some_mount q [] h = absurd (omega arith)
some_mount q (e ∷ ps) h = omega arith

pub some_count :
    (ps : List (Bytes × ℕ)) → CountsOnce ps → 0 < length ps → (p : Bytes) × (0 < count_of p ps)
unfolding count_of CountsOnce
some_count [] h pos = absurd (omega arith)
some_count ((p, n) ∷ ps) h pos = (p, rw (bytes_eq_refl p) (h.0))
