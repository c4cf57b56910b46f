-- ===== src/LinearHashStorage/Sample.antt =====
-- A hash table and a buffer that keep the promises which the proofs rely on: an association list, and
-- one list entry for each number.
use libkvs.Prelude.{
  ℕ, suc, zero, ◌-◌, ◌≡◌, inl, refl, Bytes, bytes_eq, bytes_eq_iff, bytes_eq_refl, Option, none,
  some, List, [], ◌∷◌, ◌++◌, if◌then◌else◌, take, drop, length, arith, append-nil, leb,
  take-append_ge, drop-append_ge, length-append,
}
use libkvs.Prelude.Int.{ℤ, pos, negsuc}
use libkvs.Key.{Record}
use libkvs.Storage.{StorageImpl, StorageLaws, is_some}
use libkvs.LinearHashStorage.Table.{HashTable, HashTableLaws, selected_keys}
use libkvs.LinearHashStorage.Serialize.{Buffer, BufferLaws}
use libkvs.LinearHashStorage.{linear_hash_storage}
use libkvs.LinearHashStorage.Contract.{linear_hash_storage-laws}

abbrev pub Entries : Type 0
Entries = List (Bytes × Record)

abbrev pub find_entry : Entries → Bytes → Option Record
find_entry [] k = none
find_entry ((j, r) ∷ t) k = if bytes_eq j k then some r else find_entry t k

abbrev pub remove_entry : Entries → Bytes → Entries
remove_entry [] k = []
remove_entry ((j, r) ∷ t) k = if bytes_eq j k then remove_entry t k else (j, r) ∷ remove_entry t k

abbrev pub list_table : HashTable
list_table = record {
  Table = Entries;
  find = find_entry;
  contains = λ t k. is_some (find_entry t k);
  remove = remove_entry;
  insert = λ t k r f. (k, r) ∷ t;
  size = length;
  get_keys_range = λ t from count f. take count (drop from (selected_keys f t));
}

find-remove_entry :
    (t : Entries) (k j : Bytes)
    → find_entry (remove_entry t k) j ≡ (if bytes_eq k j then none else find_entry t j)
find-remove_entry [] k j = ground arith
find-remove_entry ((i, r) ∷ t) k j =
    ground (arith, find-remove_entry t k j, bytes_eq_iff i k, bytes_eq_iff i j, bytes_eq_iff k j)

pub list_table-laws : HashTableLaws list_table
list_table-laws = record {
  contains-find = λ t k. refl;
  find-remove = find-remove_entry;
  find-insert_self = λ t k r f h. rw (bytes_eq_refl k);
  find-insert_ne = λ t k j r f h. inl (rw h);
  records = λ t. t;
  length-records-le-size = λ t. omega arith;
  get_keys_range_lem = λ t from count f. refl;
}

abbrev pub list_storage : StorageImpl
list_storage = linear_hash_storage list_table

pub list_storage-laws : StorageLaws list_storage
list_storage-laws = linear_hash_storage-laws list_table list_table-laws

abbrev code_ℤ : ℤ → Bytes
code_ℤ (pos n) = 0 ∷ n ∷ []
code_ℤ (negsuc n) = 1 ∷ n ∷ []

abbrev read_ℕ : Bytes → Option (ℕ × Bytes)
read_ℕ [] = none
read_ℕ (n ∷ rest) = some (n, rest)

abbrev read_ℤ : Bytes → Option (ℤ × Bytes)
read_ℤ (zero ∷ n ∷ rest) = some (pos n, rest)
read_ℤ (suc zero ∷ n ∷ rest) = some (negsuc n, rest)
read_ℤ _ = none

abbrev pub list_buffer : Buffer
list_buffer = record {
  put_uint64 = λ n. n ∷ [];
  put_int64 = code_ℤ;
  put_ubyte = λ n. n ∷ [];
  put_bytes = λ bs. bs;
  get_uint64 = read_ℕ;
  get_int64 = read_ℤ;
  get_ubyte = read_ℕ;
  get_bytes = λ n bs. if leb n (length bs) then some (take n bs, drop n bs) else none;
}

get-put_text : (bs rest : Bytes) → list_buffer.get_bytes (length bs) (bs ++ rest) ≡ some (bs, rest)
get-put_text bs rest =
    rw
      (
        take-append_ge (length bs) bs rest (omega arith),
        drop-append_ge (length bs) bs rest (omega arith),
        none_left,
        length-append bs rest,
      )
      (ground (arith, append-nil bs))
  where
    none_left : length bs - length bs ≡ 0
    none_left = omega arith

get-put_ℤ : (z : ℤ) (rest : Bytes) → list_buffer.get_int64 (code_ℤ z ++ rest) ≡ some (z, rest)
get-put_ℤ (pos n) rest = refl
get-put_ℤ (negsuc n) rest = refl

pub list_buffer-laws : BufferLaws list_buffer
list_buffer-laws = record {
  get-put_uint64 = λ n rest h. refl;
  get-put_int64 = λ z rest h. get-put_ℤ z rest;
  get-put_ubyte = λ n rest h. refl;
  get-put_bytes = get-put_text;
}
