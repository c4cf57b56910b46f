-- ===== src/VirtualStorage/Values/Reads.antt =====
-- What `getValue` returns, and what it returns after a `putValue`.
use libkvs.Prelude.{
  ℕ, suc, ◌==◌, ◌≡◌, refl, Bytes, bytes_eq, false, List, [], ◌∷◌, Bool-cases, inl, inr, ==_iff,
}
use libkvs.Prelude.Int.{ℤ, ◌≤ℤ◌}
use libkvs.Value.{Value}
use libkvs.Key.{Key, k_ok, k_node_not_found, fail, succeed}
use libkvs.Storage.{StorageImpl, StorageLaws, answer}
use libkvs.MgMutex.{k_is, k_ix}
use libkvs.VirtualStorage.{Node, MountedStorage}
use libkvs.VirtualStorage.Resolve.{resolve_node}
use libkvs.VirtualStorage.Resolve.Laws.{node_at, resolve_node-found}
use libkvs.StringUtils.{split, slash}
use libkvs.VirtualStorage.Values.{
  Heap, write, usable, get_from, get_value, put_target, put_from, put_value, delete_from,
  delete_value,
}
use libkvs.VirtualStorage.Values.Laws.{visible, get_first-visible, get_first-put_from}

-- The layers of the node that a path names: none if there is no such node.
abbrev pub layers : (S : StorageImpl) → Node → Bytes → List MountedStorage
layers S root path = usable (node_at root (split path slash))

module _ (S : StorageImpl) where
  -- Where the node is missing or has no storage, a read, a put and a delete say so, and the last
  -- two write nothing.
  pub node_not_found :
      (clock : ℕ → ℤ) (root : Node) (heap : Heap S) (key : Key) (value : Value)
      → layers S root key.path ≡ []
      → (get_value S clock root heap key ≡ fail k_node_not_found)
        × (put_value S clock root heap key value ≡ (k_node_not_found, heap))
        × (delete_value S root heap key ≡ (k_node_not_found, heap))
  unfolding get_value put_value delete_value get_from delete_from
  node_not_found clock root heap key value e = (
    rw (resolve_node-found root key.path k_is, e),
    rw (resolve_node-found root key.path k_ix, e),
    rw (resolve_node-found root key.path k_ix, e),
  )

module _ (S : StorageImpl) (L : StorageLaws S) where
  -- With a clock that stands still, a read on a node with layers returns the value of the topmost
  -- layer that shows the key.
  pub get_value-visible :
      (clock : ℕ → ℤ) (now : ℤ) (root : Node) (heap : Heap S) (key : Key) (m : MountedStorage)
      (ms : List MountedStorage)
      → layers S root key.path ≡ m ∷ ms
      → ((i : ℕ) → clock i ≡ now)
      → get_value S clock root heap key ≡ answer (visible S L now heap key.key (m ∷ ms))
  unfolding get_value get_from
  get_value-visible clock now root heap key m ms e still =
      rw (resolve_node-found root key.path k_is, e)
        (get_first-visible S L clock now 0 heap key (m ∷ ms) still)

  -- If the node of a key has layers, a put of the key succeeds, and a read that is made after it
  -- and before the key expires returns the value that was put, whatever the layers held and in
  -- whichever the put has written.
  pub get_value-put_value :
      (clock later : ℕ → ℤ) (root : Node) (heap : Heap S) (key : Key) (value : Value)
      (m : MountedStorage) (ms : List MountedStorage)
      → layers S root key.path ≡ m ∷ ms
      → ((i j : ℕ) → clock i ≤ℤ later j)
      → ((j : ℕ) → later j ≤ℤ key.expiration_timestamp_ms)
      → let (status, heap') = put_value S clock root heap key value in
        (status ≡ k_ok) × (get_value S later root heap' key ≡ succeed value)
  unfolding get_value get_from put_value
  get_value-put_value clock later root heap key value m ms e before alive =
      rw (resolve_node-found root key.path k_is, resolve_node-found root key.path k_ix, e)
        (get_first-put_from S L clock later before heap key value alive m ms)

  visible-ext :
      (t : ℤ) (heap heap' : Heap S) (k : Bytes) (ms : List MountedStorage)
      → ((p : ℕ) → L.live t (heap' p) k ≡ L.live t (heap p) k)
      → visible S L t heap' k ms ≡ visible S L t heap k ms
  unfolding visible
  visible-ext t heap heap' k [] same = refl
  visible-ext t heap heap' k (m ∷ ms) same = rw (same m.storage, visible-ext t heap heap' k ms same)

  -- What layers show of another key, from the last reading of the clock on, is the same after a
  -- put.
  pub visible-put_value_ne :
      (clock : ℕ → ℤ) (t : ℤ) (root : Node) (heap : Heap S) (key : Key) (value : Value) (j : Bytes)
      (ms : List MountedStorage)
      → bytes_eq key.key j ≡ false
      → ((i : ℕ) → clock i ≤ℤ t)
      → visible S L t (put_value S clock root heap key value).1 j ms ≡ visible S L t heap j ms
  unfolding put_value
  visible-put_value_ne clock t root heap key value j ms ne before =
      visible-ext t heap _ j ms (unchanged (usable (resolve_node root key.path k_ix).0))
    where
      other :
          (q p i : ℕ)
          → L.live t
              (write S heap q (S.put_value (clock i) (clock (suc i)) (heap q) key value).1 p)
              j
            ≡ L.live t (heap p) j
      other q p i = elim (Bool-cases (q == p)) [
        | inl e ↦
            let same : q ≡ p = (==_iff q p).0 e in
            rw (
              e,
              same,
              L.live-put_value (clock i) (clock (suc i)) t (heap p) key value j (before i),
              ne,
            )
        | inr e ↦ rw e
      ]

      unchanged :
          (st : List MountedStorage) (p : ℕ)
          → L.live t ((put_from S clock heap key value st).1 p) j ≡ L.live t (heap p) j
      unchanged [] p = refl
      unchanged (m ∷ st) p =
          let x = put_target S clock 0 heap key m.storage (m ∷ st) in other x.0 p x.1
