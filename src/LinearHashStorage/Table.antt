-- ===== src/LinearHashStorage/Table.antt =====
-- What the storage uses of `LinearHashingTable<std::string, Record>` of libs/index-cpp, and what it
-- relies on.
use libkvs.Prelude.{
  ℕ, ◌≡◌, ◌≤◌, ◌⊎◌, Bytes, bytes_eq, Bool, true, false, Option, none, some, List, [], ◌∷◌,
  if◌then◌else◌, take, drop, length,
}
use libkvs.Key.{Record}
use libkvs.Storage.{is_some}

pub record HashTable : Type 1 where
  pub Table : Type 0
  pub find : Table → Bytes → Option Record
  pub contains : Table → Bytes → Bool
  pub remove : Table → Bytes → Table
  -- the last argument selects records that may be dropped to make room
  pub insert : Table → Bytes → Record → (Bytes → Record → Bool) → Table
  pub size : Table → ℕ
  -- the first number of selected records to skip, and how many to return
  pub get_keys_range : Table → ℕ → ℕ → (Bytes → Record → Bool) → List Bytes

-- The keys of the records that a filter selects.
unfoldable pub selected_keys : (Bytes → Record → Bool) → List (Bytes × Record) → List Bytes
selected_keys f [] = []
selected_keys f ((k, r) ∷ rs) = if f k r then k ∷ selected_keys f rs else selected_keys f rs

pub record HashTableLaws (T : HashTable) : Type 0 where
  pub contains-find : (t : T.Table) (k : Bytes) → T.contains t k ≡ is_some (T.find t k)
  pub find-remove :
      (t : T.Table) (k j : Bytes)
      → T.find (T.remove t k) j ≡ (if bytes_eq k j then none else T.find t j)
  pub find-insert_self :
      (t : T.Table) (k : Bytes) (r : Record) (f : Bytes → Record → Bool)
      → T.contains t k ≡ false
      → T.find (T.insert t k r f) k ≡ some r
  -- A record of another key stays, or was one that might be dropped.
  pub find-insert_ne :
      (t : T.Table) (k j : Bytes) (r : Record) (f : Bytes → Record → Bool)
      → bytes_eq k j ≡ false
      → (T.find (T.insert t k r f) j ≡ T.find t j)
        ⊎ ((old : Record) × (T.find t j ≡ some old)
            × (f j old ≡ true)
            × (T.find (T.insert t k r f) j ≡ none))
  pub records : T.Table → List (Bytes × Record)
  pub length-records-le-size : (t : T.Table) → length (records t) ≤ T.size t
  pub get_keys_range_lem :
      (t : T.Table) (from count : ℕ) (f : Bytes → Record → Bool)
      → T.get_keys_range t from count f ≡ take count (drop from (selected_keys f (records t)))
