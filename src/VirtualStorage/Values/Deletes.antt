-- ===== src/VirtualStorage/Values/Deletes.antt =====
-- What `deleteValue` removes.
use libkvs.Prelude.{
  ℕ, ◌==◌, ◌≡◌, refl, Bytes, bytes_eq, Bool, false, Option, none, some, List, [], ◌∷◌,
  if◌then◌else◌, arith, Bool-cases, inl, inr, ==_iff, ◌&&◌,
}
use mathlib.Core.Path.{fun_ext}
use libkvs.Prelude.Int.{ℤ}
use libkvs.Key.{Key, k_ok, k_key_not_found, is_ok}
use libkvs.Storage.{StorageImpl, StorageLaws, is_some}
use libkvs.MgMutex.{k_ix}
use libkvs.VirtualStorage.{Node, MountedStorage}
use libkvs.VirtualStorage.Resolve.Laws.{resolve_node-found}
use libkvs.VirtualStorage.Values.{Heap, write, delete_first, delete_from, delete_value}
use libkvs.VirtualStorage.Values.Reads.{layers}

module _ (S : StorageImpl) (L : StorageLaws S) where
  -- The first layer that stores the key, expired or not.
  unfoldable pub holder : Heap S → Bytes → List MountedStorage → Option ℕ
  holder heap k [] = none
  holder heap k (m ∷ ms) = if L.stored (heap m.storage) k then some m.storage else holder heap k ms

  abbrev pub holds : Option ℕ → ℕ → Bool
  holds none p = false
  holds (some q) p = q == p

  write_same : (heap : Heap S) (p : ℕ) → write S heap p (heap p) ≡ heap
  write_same heap p = fun_ext (λ q. ground arith)

  live-write :
      (t : ℤ) (heap : Heap S) (p q : ℕ) (key : Key) (j : Bytes)
      → L.live t (write S heap p (S.delete_value (heap p) key).1 q) j
        ≡ (if (p == q) && bytes_eq key.key j then none else L.live t (heap q) j)
  live-write t heap p q key j = elim (Bool-cases (p == q)) [
    | inl e ↦
        let same : p ≡ q = (==_iff p q).0 e in rw (e, same) (L.live-delete_value t (heap q) key j)
    | inr e ↦ rw e
  ]

  delete_first_lem :
      (heap : Heap S) (key : Key) (ms : List MountedStorage)
      → let h = holder heap key.key ms in
        ((delete_first S heap key ms).0 ≡ (if is_some h then k_ok else k_key_not_found))
        × ((t : ℤ) (p : ℕ) (j : Bytes)
            → L.live t ((delete_first S heap key ms).1 p) j
              ≡ (if holds h p && bytes_eq key.key j then none else L.live t (heap p) j))
  unfolding delete_first holder is_ok
  delete_first_lem heap key [] = (refl, λ t p j. refl)
  delete_first_lem heap key (m ∷ ms) = elim (Bool-cases (L.stored (heap m.storage) key.key)) [
    | inl e ↦
        rw (e, L.delete_value_lem (heap m.storage) key, e)
          (refl, λ t p j. live-write t heap m.storage p key j)
    | inr e ↦
        rw
          (
            e,
            L.delete_value_lem (heap m.storage) key,
            e,
            L.delete_value_missing (heap m.storage) key e,
            write_same heap m.storage,
          )
          (delete_first_lem heap key ms)
  ]

  -- On a node with layers, a delete succeeds exactly if a layer stores the key. It takes the key
  -- out of the first such layer; all other layers, and all other keys, show at every time what they
  -- showed.
  pub delete_value-holder :
      (root : Node) (heap : Heap S) (key : Key) (m : MountedStorage) (ms : List MountedStorage)
      → layers S root key.path ≡ m ∷ ms
      → let h = holder heap key.key (m ∷ ms) in
        let (status, heap') = delete_value S root heap key in
        (status ≡ (if is_some h then k_ok else k_key_not_found))
        × ((t : ℤ) (p : ℕ) (j : Bytes)
            → L.live t (heap' p) j
              ≡ (if holds h p && bytes_eq key.key j then none else L.live t (heap p) j))
  unfolding delete_value delete_from
  delete_value-holder root heap key m ms e =
      rw (resolve_node-found root key.path k_ix, e) (delete_first_lem heap key (m ∷ ms))
