-- ===== src/VirtualStorage/Values/Laws.antt =====
-- What a client of one virtual node sees: the storages of the node as layers, the first on top.
use libkvs.Prelude.{
  ℕ, suc, ◌==◌, ◌≡◌, ◌⊎◌, inl, inr, refl, sym, ap, ◌∙◌, Bytes, bytes_eq_refl, true, false, Option,
  none, some, List, [], ◌∷◌, arith, Bool-cases, Option-cases, ==_iff,
}
use libkvs.Prelude.Int.{ℤ, ◌≤ℤ◌}
use libkvs.Value.{Value}
use libkvs.Key.{Key, k_ok, is_ok, succeed}
use libkvs.Storage.{StorageImpl, StorageLaws, answer, is_some}
use libkvs.VirtualStorage.{MountedStorage}
use libkvs.VirtualStorage.Values.{Heap, write, get_first, put_target, put_from}

abbrev pub over : Option Value → Option Value → Option Value
over none below = below
over (some v) below = some v

module _ (S : StorageImpl) (L : StorageLaws S) where
  -- The value of the topmost layer that shows the key.
  unfoldable pub visible : ℤ → Heap S → Bytes → List MountedStorage → Option Value
  visible t heap k [] = none
  visible t heap k (m ∷ ms) = over (L.live t (heap m.storage) k) (visible t heap k ms)

  pub get_first-visible :
      (clock : ℕ → ℤ) (now : ℤ) (i : ℕ) (heap : Heap S) (key : Key) (ms : List MountedStorage)
      → ((j : ℕ) → clock j ≡ now)
      → get_first S clock i heap key ms ≡ answer (visible now heap key.key ms)
  unfolding get_first visible is_ok
  get_first-visible clock now i heap key [] still = refl
  get_first-visible clock now i heap key (m ∷ ms) still =
      rw (still i, L.get_value_lem now (heap m.storage) key)
        (elim (Option-cases (L.live now (heap m.storage) key.key)) [
          | inl e ↦ rw e (get_first-visible clock now (suc i) heap key ms still)
          | inr (v, e) ↦ rw e
        ])

  -- A hidden key stays hidden.
  hidden-later :
      (t t' : ℤ) (s : S.State) (k : Bytes)
      → t ≤ℤ t'
      → is_some (L.live t s k) ≡ false
      → L.live t' s k ≡ none
  hidden-later t t' s k h e = elim (Option-cases (L.live t' s k)) [
    | inl n ↦ n
    | inr (v, q) ↦ absurd (cc (e, ap is_some (L.live-later t t' s k v h q)))
  ]

  -- What a put leaves in the storage that it writes to.
  module _ (clock later : ℕ → ℤ) (before : (i j : ℕ) → clock i ≤ℤ later j) (heap : Heap S)
      (key : Key) (value : Value) (alive : (j : ℕ) → later j ≤ℤ key.expiration_timestamp_ms) where
    written : ℕ → ℕ → Heap S
    written i target =
        write S heap target (S.put_value (clock i) (clock (suc i)) (heap target) key value).1

    live-written :
        (i target j : ℕ) → L.live (later j) (written i target target) key.key ≡ some value
    unfolding written
    live-written i target j =
        rw
          (
            (==_iff target target).1 refl,
            L.live-put_value (clock i) (clock (suc i)) (later j) (heap target) key value key.key
                (before i j),
            bytes_eq_refl key.key,
          )
          (ground (arith, alive j))

    live-unwritten :
        (i target p j : ℕ)
        → (p == target) ≡ false
        → L.live (later j) (written i target p) key.key ≡ L.live (later j) (heap p) key.key
    unfolding written
    live-unwritten i target p j ne = let ne' : (target == p) ≡ false = ground arith in rw ne'

    get_first_hit :
        (i target g : ℕ) (m : MountedStorage) (ms : List MountedStorage)
        → (m.storage == target) ≡ true
        → get_first S later g (written i target) key (m ∷ ms) ≡ succeed value
    unfolding get_first is_ok
    get_first_hit i target g m ms e =
        let same : m.storage ≡ target = (==_iff m.storage target).0 e in
        rw (
          L.get_value_lem (later g) (written i target m.storage) key,
          same,
          live-written i target g,
        )

    get_first_miss :
        (i target g k : ℕ) (m : MountedStorage) (ms : List MountedStorage)
        → (m.storage == target) ≡ false
        → S.has_key (clock k) (heap m.storage) key ≡ false
        → get_first S later g (written i target) key (m ∷ ms)
          ≡ get_first S later (suc g) (written i target) key ms
    unfolding get_first is_ok
    get_first_miss i target g k m ms ne h = rw (
      L.get_value_lem (later g) (written i target m.storage) key,
      live-unwritten i target m.storage g ne,
      hidden-later (clock k) (later g) (heap m.storage) key.key (before k g)
          (sym (L.has_key_lem (clock k) (heap m.storage) key) ∙ h),
    )

    -- The search of the put finds a layer that the later get reaches first, or none at all.
    get_first-put_target :
        (i target front g k : ℕ) (ms : List MountedStorage)
        → target ≡ (put_target S clock k heap key front ms).0
        → (get_first S later g (written i target) key ms ≡ succeed value) ⊎ (target ≡ front)
    unfolding put_target
    get_first-put_target i target front g k [] e = inr e
    get_first-put_target i target front g k (m ∷ ms) e = elim (Bool-cases (m.storage == target)) [
      | inl hit ↦ inl (get_first_hit i target g m ms hit)
      | inr miss ↦ elim (Bool-cases (S.has_key (clock k) (heap m.storage) key)) [
        | inl has ↦ absurd (ground arith)
        | inr hasnt ↦ elim (get_first-put_target i target front (suc g) (suc k) ms (e ∙ rw hasnt)) [
          | inl r ↦ inl (get_first_miss i target g k m ms miss hasnt ∙ r)
          | inr r ↦ inr r
        ]
      ]
    ]

    pub get_first-put_from :
        (m : MountedStorage) (ms : List MountedStorage)
        → ((put_from S clock heap key value (m ∷ ms)).0 ≡ k_ok)
          × (get_first S later 0 (put_from S clock heap key value (m ∷ ms)).1 key (m ∷ ms)
              ≡ succeed value)
    unfolding put_from written
    get_first-put_from m ms =
        let t = put_target S clock 0 heap key m.storage (m ∷ ms) in
        (
          L.put_value_ok (clock t.1) (clock (suc t.1)) (heap t.0) key value,
          elim (get_first-put_target t.1 t.0 m.storage 0 0 (m ∷ ms) refl) [
            | inl r ↦ r
            | inr e ↦ get_first_hit t.1 t.0 0 m ms ((==_iff m.storage t.0).1 (sym e))
          ],
        )
