-- ===== src/StorageRegistry/Counting.antt =====
-- The counters count the uses.
use libkvs.Prelude.{
  ℕ, zero, suc, ◌+◌, ◌==◌, ◌≡◌, ◌<◌, ◌^◌, ltb, true, Bool-cases, inl, inr, refl, Bytes, bytes_eq,
  bytes_eq_iff, bytes_eq_refl, Option, none, some, List, [], ◌∷◌, ◌++◌, if◌then◌else◌, arith,
}
use libkvs.StringUtils.{slash}
use libkvs.VirtualStorage.{StorageNode, StorageNodes, storage_node, no_storage_nodes, storage_child}
use libkvs.VirtualStorage.Mounting.{◌>>=◌}
use libkvs.StorageRegistry.Interface.{k_released}
use libkvs.StorageRegistry.{
  VolumeImpl, full_key, volume_part, Counters, find_counter, increment, set_counter, erase_counter,
  find_key, erase_key, put_key, is_none, Counted, count_storage, acquire_node, acquire_children,
  Registry, find_volume, release_storage, release_keyed, release_counted, unload_storage,
  put_volume, node_part,
}

-- How often a key is in use.
abbrev pub uses : Option (ℕ × ℕ) → ℕ
uses none = 0
uses (some (p, n)) = n

abbrev pub count_of : Bytes → Counted → ℕ
count_of k r = uses (find_counter k r.storage_counters)

-- How often a subtree has a storage under a key.
unfoldable mutual
  pub node_uses : Bytes → StorageNode → Bytes → Bytes → ℕ
  node_uses k (storage_node v p storage kids) volume_filepath node_path =
      (if bytes_eq (full_key volume_filepath node_path) k then 1 else 0)
      + child_uses k kids volume_filepath node_path

  pub child_uses : Bytes → StorageNodes → Bytes → Bytes → ℕ
  child_uses k no_storage_nodes volume_filepath node_path = 0
  child_uses k (storage_child name child others) volume_filepath node_path =
      node_uses k child volume_filepath (node_path ++ slash ∷ name)
      + child_uses k others volume_filepath node_path

-- A counter that stays an int is raised, and no other.
increment_total :
    (key : Bytes) (storage : ℕ) (cs : Counters)
    → suc (uses (find_counter key cs)) < 2 ^ 31
    → (cs' : Counters) × (increment key storage cs ≡ some cs')
      × ((k : Bytes)
          → uses (find_counter k cs')
            ≡ (if bytes_eq key k then 1 else 0) + uses (find_counter k cs))
unfolding find_counter increment
increment_total key storage [] h = (_, refl, λ k. ground arith)
increment_total key storage ((j, (p, n)) ∷ cs) h = elim (Bool-cases (bytes_eq j key)) [
  | inl e ↦
      let small : ltb (suc n) (2 ^ 31) ≡ true = ground (arith, (rw e at h)) in
      (
        (j, (p, suc n)) ∷ cs,
        rw (e, small),
        λ k. ground (arith, bytes_eq_iff j key, bytes_eq_iff j k, bytes_eq_iff key k),
      )
  | inr e ↦
      let (cs', done, counts) = increment_total key storage cs (rw e at h) in
      (
        (j, (p, n)) ∷ cs',
        rw (e, done, ◌>>=◌),
        λ k. ground (arith, counts k, bytes_eq_iff j key, bytes_eq_iff j k, bytes_eq_iff key k),
      )
]

-- The counters have room for what a subtree brings.
abbrev Raised : (Bytes → ℕ) → Counted → Counted → Type 0
Raised more r r' = (k : Bytes) → count_of k r' ≡ more k + count_of k r

count_storage_total :
    (key : Bytes) (storage : ℕ) (r : Counted)
    → suc (count_of key r) < 2 ^ 31
    → (r' : Counted) × (count_storage key storage r ≡ some r')
      × Raised (λ k. if bytes_eq key k then 1 else 0) r r'
unfolding count_storage
count_storage_total key storage r h =
    let (cs', done, counts) = increment_total key storage r.storage_counters h in
    (
      record {
        storage_counters = cs';
        storage_keys =
            if is_none (find_counter key r.storage_counters)
            then put_key storage key r.storage_keys
            else r.storage_keys;
      },
      rw (done, ◌>>=◌) refl,
      counts,
    )

acquire_children_total :
    (kids : StorageNodes) (volume_filepath node_path : Bytes) (r : Counted)
    → ((k : Bytes) → child_uses k kids volume_filepath node_path + count_of k r < 2 ^ 31)
    → (r' : Counted) × (acquire_children kids volume_filepath node_path r ≡ some r')
      × Raised (λ k. child_uses k kids volume_filepath node_path) r r'
unfolding acquire_node node_uses
acquire_children_total no_storage_nodes vol path r h = (r, refl, λ k. omega arith)
acquire_children_total (storage_child name (storage_node v p st kids) others) vol path r h =
    let below = path ++ slash ∷ name in
    let key = full_key vol below in
    let (r1, first, counts1) =
      count_storage_total key st r (omega (arith, (rw (bytes_eq_refl key) at (h key)))) in
    let (r2, deep, counts2) =
      acquire_children_total kids vol below r1 (λ k. omega (arith, h k, counts1 k)) in
    let (r3, last, counts3) =
      acquire_children_total others vol path r2 (λ k. omega (arith, h k, counts1 k, counts2 k)) in
    (r3, rw (first, ◌>>=◌, deep, ◌>>=◌) last, λ k. omega (arith, counts1 k, counts2 k, counts3 k))

-- If the counter of each key, with the number of times that the subtree has a storage under the
-- key, stays an int, an acquisition overflows none, and raises the counter of each key by that
-- number.
pub acquire_node_total :
    (sn : StorageNode) (volume_filepath node_path : Bytes) (r : Counted)
    → ((k : Bytes) → node_uses k sn volume_filepath node_path + count_of k r < 2 ^ 31)
    → (r' : Counted) × (acquire_node sn volume_filepath node_path r ≡ some r')
      × ((k : Bytes) → count_of k r' ≡ node_uses k sn volume_filepath node_path + count_of k r)
unfolding acquire_node node_uses
acquire_node_total (storage_node v p st kids) vol path r h =
    let key = full_key vol path in
    let (r1, first, counts1) =
      count_storage_total key st r (omega (arith, (rw (bytes_eq_refl key) at (h key)))) in
    let (r2, deep, counts2) =
      acquire_children_total kids vol path r1 (λ k. omega (arith, h k, counts1 k)) in
    (r2, rw (first, ◌>>=◌) deep, λ k. omega (arith, counts1 k, counts2 k))

uses-set_counter :
    (k key : Bytes) (m : ℕ) (c : ℕ × ℕ) (cs : Counters)
    → find_counter key cs ≡ some c
    → uses (find_counter k (set_counter key m cs))
      ≡ (if bytes_eq key k then m else uses (find_counter k cs))
unfolding find_counter set_counter
uses-set_counter k key m c [] h = cc
uses-set_counter k key m c ((j, (p, n)) ∷ cs) h =
    ground (
      arith,
      uses-set_counter k key m c cs,
      bytes_eq_iff j key,
      bytes_eq_iff j k,
      bytes_eq_iff key k,
    )

uses-erase_counter :
    (k key : Bytes) (cs : Counters)
    → uses (find_counter k (erase_counter key cs))
      ≡ (if bytes_eq key k then 0 else uses (find_counter k cs))
unfolding find_counter erase_counter
uses-erase_counter k key [] = ground arith
uses-erase_counter k key ((j, (p, n)) ∷ cs) =
    ground
      (arith, uses-erase_counter k key cs, bytes_eq_iff j key, bytes_eq_iff j k, bytes_eq_iff key k)

find_key-erase_key : (p : ℕ) (ks : List (ℕ × Bytes)) → find_key p (erase_key p ks) ≡ none
unfolding find_key erase_key
find_key-erase_key p [] = refl
find_key-erase_key p ((q, key) ∷ ks) = ground (arith, find_key-erase_key p ks)

module _ (V : VolumeImpl) where
  -- A release of a storage that is in use, with its volume open, succeeds, lowers the counter of
  -- its key by one and no other counter, and forgets the storage exactly if that was the last use.
  pub release_storage-count :
      (r : Registry V) (storage : ℕ) (key : Bytes) (p n : ℕ) (volume : V.Volume)
      → find_key storage r.counted.storage_keys ≡ some key
      → find_counter key r.counted.storage_counters ≡ some (p, suc n)
      → find_volume V (volume_part key) r.volumes ≡ some volume
      → (r' : Registry V) × (release_storage V r storage ≡ some (k_released, r'))
        × ((k : Bytes)
            → count_of k r'.counted ≡ (if bytes_eq key k then n else count_of k r.counted))
        × (find_key storage r'.counted.storage_keys ≡ (if n == 0 then none else some key))
  unfolding release_storage release_keyed release_counted unload_storage
  release_storage-count r storage key p zero volume named used opened = (
    record {
      volumes = put_volume V (volume_part key) (V.unload volume (node_part key key)) r.volumes;
      counted = record {
        storage_counters = erase_counter key r.counted.storage_counters;
        storage_keys = erase_key storage r.counted.storage_keys;
      };
    },
    rw (named, used, opened),
    λ k. uses-erase_counter k key r.counted.storage_counters,
    find_key-erase_key storage r.counted.storage_keys,
  )
  release_storage-count r storage key p (suc n) volume named used opened = (
    record r {
      counted = record {
        storage_counters = set_counter key (suc n) r.counted.storage_counters;
        storage_keys = r.counted.storage_keys;
      };
    },
    rw (named, used),
    λ k. uses-set_counter k key (suc n) _ r.counted.storage_counters used,
    ground (arith, named),
  )
