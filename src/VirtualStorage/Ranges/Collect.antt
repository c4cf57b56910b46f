-- ===== src/VirtualStorage/Ranges/Collect.antt =====
-- The second phase of `getKeysRange`, and the page that the two phases make.
use libkvs.Prelude.{ℕ, ◌≡◌, Bytes, List}
use libkvs.Prelude.Int.{ℤ}
use libkvs.Storage.{StorageImpl, StorageLaws}
use libkvs.VirtualStorage.{MountedStorage}
use libkvs.VirtualStorage.Values.{Heap}
use libkvs.VirtualStorage.Ranges.Skip.{ahead, Sized}

module _ (S : StorageImpl) (L : StorageLaws S) (clock : ℕ → ℤ) (now : ℤ)
    (still : (i : ℕ) → clock i ≡ now) (heap : Heap S) where
  abbrev keys_ahead : ℕ → List MountedStorage → List Bytes
  keys_ahead = ahead S L clock now still heap

  abbrev pub SizesFit : List MountedStorage → Type 0
  SizesFit = Sized S L clock now still heap 0
