-- ===== src/LinearHashStorage/Locks.antt =====
-- The lock that each operation takes on its storage, `m_storageLock`, for as long as it runs.
use mathlib.Core.Bool.{false≢true}
use libkvs.MgMutex.Agrees.{IsUniform}
use libkvs.Prelude.{
  false, sym, subst, ap, refl, ◌∙◌, ◌⊎◌, ◌≡◌, ◌≢◌, ℕ, some, none, arith, Option-cases, inl, inr,
}
use libkvs.MgMutex.{LockType, k_s, k_nl, index, k_x, is_compatible}
use libkvs.MgMutex.Holders.{StorageLock, StorageLock-IsUniform, held, holders_compatible, held-Ok}
use libkvs.MgMutex.System.{Reach, System}

pub data StorageOperation : Type 0 where
  gets_value puts_value deletes_value gets_keys_range gets_size has_key : StorageOperation

unfoldable pub storage_lock : StorageOperation → LockType
storage_lock puts_value = k_x
storage_lock deletes_value = k_x
storage_lock _ = k_s

storage_lock-StorageLock : (op : StorageOperation) → StorageLock (storage_lock op)
unfolding storage_lock
storage_lock-StorageLock puts_value = tt
storage_lock-StorageLock _ = tt

-- The lock types that the operations ask for.
abbrev pub AsksFor : LockType → Type 0
AsksFor lock_type = (op : StorageOperation) × (lock_type ≡ storage_lock op)

AsksFor-StorageLock : (lock_type : LockType) → AsksFor lock_type → StorageLock lock_type
AsksFor-StorageLock lock_type (op, e) = subst StorageLock (sym e) (storage_lock-StorageLock op)

AsksFor-IsUniform : IsUniform AsksFor
AsksFor-IsUniform = record {
  not_nl = λ k. StorageLock-IsUniform.not_nl (AsksFor-StorageLock k_nl k);
  closed = λ a b c ka kb kc.
      StorageLock-IsUniform.closed a b c (AsksFor-StorageLock a ka) (AsksFor-StorageLock b kb)
        (AsksFor-StorageLock c kc);
}

beside_x : (b : LockType) → StorageLock b → is_compatible k_x b ≡ false
unfolding is_compatible index
beside_x k_s h = refl
beside_x k_x h = refl
beside_x _ h = absurd h

-- While a thread puts or deletes a value in a storage, no other thread is at work in that storage.
pub writer_alone :
    {s : System} (t u : ℕ) (op : StorageOperation)
    → Reach AsksFor s
    → t ≢ u
    → (op ≡ puts_value) ⊎ (op ≡ deletes_value)
    → held t s.mutex.running_threads ≡ some (storage_lock op)
    → held u s.mutex.running_threads ≡ none
writer_alone {s} t u op r other writes h = elim (Option-cases (held u s.mutex.running_threads)) [
  | inl e ↦ e
  | inr (b, e) ↦ absurd (
      false≢true (
        sym (beside_x b (AsksFor-StorageLock b (held-Ok u b AsksFor-IsUniform r e)))
        ∙ holders_compatible t u k_x b AsksFor-IsUniform r other (h ∙ ap some (exclusive op writes))
            e))
]
  where
    exclusive :
        (o : StorageOperation) → (o ≡ puts_value) ⊎ (o ≡ deletes_value) → storage_lock o ≡ k_x
    exclusive o w = unfold storage_lock in ground arith
