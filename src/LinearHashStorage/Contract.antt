-- ===== src/LinearHashStorage/Contract.antt =====
-- The storage keeps the promises of its interface, over any hash table that keeps its own.
use libkvs.Prelude.{
  ◌≡◌, ◌≤◌, inl, inr, refl, Bytes, bytes_eq, bytes_eq_iff, bytes_eq_refl, Bool, false, not, Option,
  none, some, List, [], ◌∷◌, if◌then◌else◌, length, arith, Bool-cases, sym, ap, ◌∙◌,
}
use libkvs.Prelude.Int.{ℤ, ltb_ℤ, ◌≤ℤ◌}
use libkvs.Value.{Value}
use libkvs.Key.{Key, k_ok, k_key_not_found, Record}
use libkvs.Storage.{StorageLaws, answer, is_some}
use libkvs.LinearHashStorage.Table.{HashTable, HashTableLaws, selected_keys}
use libkvs.LinearHashStorage.{
  is_expired, answer_of, get_value, put_value, delete_value, get_keys_range, is_live, has_key,
  get_size, linear_hash_storage,
}

-- The value that a record shows at a time.
abbrev pub shown : ℤ → Option Record → Option Value
shown t none = none
shown t (some r) =
    if ltb_ℤ r.expiration_timestamp_ms t
    then none
    else some (record { raw_value = r.raw_value; type = r.value_type })

shown-later :
    (t t' : ℤ) (o : Option Record) (v : Value) → t ≤ℤ t' → shown t' o ≡ some v → shown t o ≡ some v
shown-later t t' none v h e = e
shown-later t t' (some r) v h e = ground arith

length-selected_keys :
    (f : Bytes → Record → Bool) (rs : List (Bytes × Record))
    → length (selected_keys f rs) ≤ length rs
unfolding selected_keys
length-selected_keys f [] = omega arith
length-selected_keys f ((k, r) ∷ rs) = ground (arith, length-selected_keys f rs)

none_of : (o : Option Record) → is_some o ≡ false → o ≡ none
none_of none h = refl
none_of (some r) h = cc

module _ (T : HashTable) (L : HashTableLaws T) where
  live : ℤ → T.Table → Bytes → Option Value
  live t s j = shown t (T.find s j)

  answer_of-shown : (now : ℤ) (o : Option Record) → answer_of T now o ≡ answer (shown now o)
  unfolding answer_of
  answer_of-shown now none = refl
  answer_of-shown now (some r) = ground arith

  is_live-shown : (now : ℤ) (o : Option Record) → is_live T now o ≡ is_some (shown now o)
  unfolding is_live
  is_live-shown now none = refl
  is_live-shown now (some r) = ground arith

  -- An insertion shows the new record, and drops only records that are not shown any more.
  live-insert :
      (now t : ℤ) (s : T.Table) (k j : Bytes) (r : Record)
      → T.contains s k ≡ false
      → now ≤ℤ t
      → shown t (T.find (T.insert s k r (λ _ o. is_expired T now o)) j)
        ≡ (if bytes_eq k j then shown t (some r) else shown t (T.find s j))
  live-insert now t s k j r fresh h = elim (Bool-cases (bytes_eq k j)) [
    | inl e ↦
        rw (e, ← (bytes_eq_iff k j).0 e, L.find-insert_self s k r (λ _ o. is_expired T now o) fresh)
    | inr e ↦ rw e (elim (L.find-insert_ne s k j r (λ _ o. is_expired T now o) e) [
      | inl same ↦ rw same
      | inr (old, was, drops, gone) ↦ rw (gone, was) (ground arith)
    ])
  ]

  cleared : T.Table → Bytes → T.Table
  cleared s k = if T.contains s k then T.remove s k else s

  contains-cleared : (s : T.Table) (k : Bytes) → T.contains (cleared s k) k ≡ false
  unfolding cleared
  contains-cleared s k = elim (Bool-cases (T.contains s k)) [
    | inl e ↦ rw (e, L.contains-find (T.remove s k) k, L.find-remove s k k, bytes_eq_refl k)
    | inr e ↦ rw e e
  ]

  find-cleared :
      (s : T.Table) (k j : Bytes) → bytes_eq k j ≡ false → T.find (cleared s k) j ≡ T.find s j
  unfolding cleared
  find-cleared s k j h = elim (Bool-cases (T.contains s k)) [
    | inl e ↦ rw (e, L.find-remove s k j, h)
    | inr e ↦ rw e
  ]

  live-put_value :
      (now created t : ℤ) (s : T.Table) (k : Key) (v : Value) (j : Bytes)
      → now ≤ℤ t
      → live t (put_value T now created s k v).1 j ≡ (
          if bytes_eq k.key j
          then (if ltb_ℤ k.expiration_timestamp_ms t then none else some v)
          else live t s j)
  unfolding put_value live cleared
  live-put_value now created t s k v j h =
      rw (live-insert now t (cleared s k.key) k.key j _ (contains-cleared s k.key) h)
        (elim (Bool-cases (bytes_eq k.key j)) [
          | inl e ↦ rw e
          | inr e ↦ rw (e, find-cleared s k.key j e)
        ])

  live-delete_value :
      (t : ℤ) (s : T.Table) (k : Key) (j : Bytes)
      → live t (delete_value T s k).1 j ≡ (if bytes_eq k.key j then none else live t s j)
  unfolding delete_value live
  live-delete_value t s k j = elim (Bool-cases (T.contains s k.key)) [
    | inl e ↦
        rw (e, L.find-remove s k.key j)
          (elim (Bool-cases (bytes_eq k.key j)) [ inl h ↦ rw h | inr h ↦ rw h ])
    | inr e ↦ rw e (elim (Bool-cases (bytes_eq k.key j)) [
      | inl h ↦ rw (h, ← (bytes_eq_iff k.key j).0 h, not_found s k.key e)
      | inr h ↦ rw h
    ])
  ]
    where
      not_found : (u : T.Table) (i : Bytes) → T.contains u i ≡ false → T.find u i ≡ none
      not_found u i h = none_of (T.find u i) (sym (L.contains-find u i) ∙ h)

  live-not_stored : (t : ℤ) (s : T.Table) (j : Bytes) → T.contains s j ≡ false → live t s j ≡ none
  unfolding live
  live-not_stored t s j h = ap (shown t) (none_of (T.find s j) (sym (L.contains-find s j) ∙ h))

  delete_value-status :
      (s : T.Table) (k : Key)
      → (delete_value T s k).0 ≡ (if T.contains s k.key then k_ok else k_key_not_found)
  unfolding delete_value
  delete_value-status s k = ground arith

  delete_value_missing :
      (s : T.Table) (k : Key) → T.contains s k.key ≡ false → (delete_value T s k).1 ≡ s
  unfolding delete_value
  delete_value_missing s k h = rw h

  live_keys-le-size :
      (now : ℤ) (s : T.Table)
      → length (selected_keys (λ _ r. not (is_expired T now r)) (L.records s)) ≤ T.size s
  live_keys-le-size now s = omega (
    arith,
    length-selected_keys (λ _ r. not (is_expired T now r)) (L.records s),
    L.length-records-le-size s,
  )

  -- Over a hash table that keeps its promises, the storage keeps all promises of its interface.
  pub linear_hash_storage-laws : StorageLaws (linear_hash_storage T)
  unfolding live get_value has_key put_value delete_value get_keys_range get_size
  linear_hash_storage-laws = record {
    live = live;
    stored = T.contains;
    live_keys = λ now s. selected_keys (λ _ r. not (is_expired T now r)) (L.records s);
    get_value_lem = λ now s k. answer_of-shown now (T.find s k.key);
    has_key_lem = λ now s k. is_live-shown now (T.find s k.key);
    live-later = λ t t' s j v h e. shown-later t t' (T.find s j) v h e;
    put_value_ok = λ now created s k v. refl;
    live-put_value = live-put_value;
    delete_value_lem = delete_value-status;
    delete_value_missing = delete_value_missing;
    live-delete_value = live-delete_value;
    live-not_stored = live-not_stored;
    get_keys_range_lem = λ now s q.
        rw (L.get_keys_range_lem s q.index_from q.keys_count (λ _ r. not (is_expired T now r)));
    live_keys-le-size = live_keys-le-size;
  }
