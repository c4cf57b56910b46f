-- ===== src/VirtualStorage/Ranges/Skip.antt =====
-- The first phase of `getKeysRange` puts exactly the first keys behind it.
use libkvs.Prelude.{
  ℕ, zero, suc, ◌+◌, ◌-◌, ◌≤◌, ◌<◌, ◌^◌, ◌≡◌, refl, sym, ap, ◌∙◌, min, ltb, Bytes, some, List, [],
  ◌∷◌, ◌++◌, length, take, drop, length-take, take-append-drop, append_assoc, append-nil, take-nil,
  drop-nil, drop-add, drop_all, take-append_ge, drop-append_ge, arith, Bool-cases, inl, inr,
}
use libkvs.Prelude.Int.{ℤ}
use libkvs.Storage.{StorageImpl, StorageLaws}
use libkvs.VirtualStorage.{MountedStorage}
use libkvs.VirtualStorage.Values.{Heap}
use libkvs.VirtualStorage.Ranges.{size_sub, Cursor, read_keys, size_of, advance, skip_keys, rounds}

-- `all` is read in two parts, `ks` first.
module _ (n : ℕ) (exclude ks others all : List Bytes) (parts : all ≡ ks ++ others)
    (bound : length ks ≤ n) (fits : n < 2 ^ 64) where
  left-eq : size_sub n (length ks) ≡ n - length ks
  left-eq = omega arith

  pub take_parts : (exclude ++ ks) ++ take (size_sub n (length ks)) others ≡ exclude ++ take n all
  take_parts =
      rw (left-eq, parts, take-append_ge n ks others bound)
        (append_assoc exclude ks (take (n - length ks) others))

  drop_parts : drop (size_sub n (length ks)) others ≡ drop n all
  drop_parts = rw (left-eq, parts, drop-append_ge n ks others bound)

module _ (S : StorageImpl) (L : StorageLaws S) (clock : ℕ → ℤ) (now : ℤ)
    (still : (i : ℕ) → clock i ≡ now) (heap : Heap S) where
  -- The keys that a storage shows.
  abbrev pub shown_keys : MountedStorage → List Bytes
  shown_keys m = L.live_keys now (heap m.storage)

  -- The keys ahead of a cursor.
  abbrev pub ahead : ℕ → List MountedStorage → List Bytes
  ahead key_index [] = []
  ahead key_index (m ∷ ms) = drop key_index (shown_keys m) ++ ahead 0 ms

  -- The cursor stands within its storage, and the sizes are of type size_t.
  abbrev pub Sized : ℕ → List MountedStorage → Type 0
  Sized key_index [] = Unit {0}
  Sized key_index (m ∷ ms) =
      (key_index ≤ size_of S clock heap m) × (size_of S clock heap m < 2 ^ 64) × Sized 0 ms

  pub read_keys_lem :
      (i key_index n : ℕ) (m : MountedStorage)
      → read_keys S clock heap i m key_index n ≡ take n (drop key_index (shown_keys m))
  read_keys_lem i key_index n m = rw (still i, L.get_keys_range_lem now (heap m.storage) _)

  module _ (i : ℕ) (m : MountedStorage) (ms : List MountedStorage) where
    ahead-advance :
        (pos : ℕ)
        → let c = advance S clock heap i m ms pos in
          ahead c.key_index c.remaining ≡ drop pos (shown_keys m) ++ ahead 0 ms
    ahead-advance pos = elim (Bool-cases (ltb pos (size_of S clock heap m))) [
      | inl e ↦ rw e
      | inr e ↦ rw (
        e,
        drop_all pos (shown_keys m) (ground (arith, L.live_keys-le-size now (heap m.storage))),
      )
    ]

    advance-Sized :
        (pos : ℕ)
        → Sized pos (m ∷ ms)
        → let c = advance S clock heap i m ms pos in Sized c.key_index c.remaining
    advance-Sized pos sized = elim (Bool-cases (ltb pos (size_of S clock heap m))) [
      | inl e ↦ rw e sized
      | inr e ↦ rw e sized.2
    ]

    advance_less :
        (from pos : ℕ)
        → from ≤ size_of S clock heap m
        → from ≤ pos
        → (from < size_of S clock heap m → from < pos)
        → let c = advance S clock heap i m ms pos in
          rounds S clock heap c.remaining - c.key_index < rounds S clock heap (m ∷ ms) - from
    unfolding rounds
    advance_less from pos fits le moves = elim (Bool-cases (ltb pos (size_of S clock heap m))) [
      | inl e ↦
          let small : pos < size_of S clock heap m = ground arith in
          let moved : from < pos = moves (omega arith) in rw e (omega arith)
      | inr e ↦ rw e (omega arith)
    ]

    -- What one round of either loop reads, and what it leaves ahead.
    pub round_lem :
        (key_index n : ℕ)
        → Sized key_index (m ∷ ms)
        → let k = min (suc n) (size_sub (size_of S clock heap m) key_index) in
          let ks = read_keys S clock heap i m key_index k in
          let c = advance S clock heap i m ms (key_index + k) in
          (ahead key_index (m ∷ ms) ≡ ks ++ ahead c.key_index c.remaining)
          × (length ks ≤ suc n)
          × Sized c.key_index c.remaining
          × (rounds S clock heap c.remaining - c.key_index
              < rounds S clock heap (m ∷ ms) - key_index)
    round_lem key_index n sized = (
      parts,
      bound,
      advance-Sized (key_index + k) (omega arith, sized.1, sized.2),
      advance_less key_index (key_index + k) sized.0 (omega arith) (λ h. omega arith),
    )
      where
        k : ℕ
        k = min (suc n) (size_sub (size_of S clock heap m) key_index)

        d : List Bytes
        d = drop key_index (shown_keys m)

        parts :
            d ++ ahead 0 ms
            ≡ read_keys S clock heap i m key_index k
              ++ ahead
                  (advance S clock heap i m ms (key_index + k)).key_index
                  (advance S clock heap i m ms (key_index + k)).remaining
        parts = rw (
          read_keys_lem i key_index k m,
          ahead-advance (key_index + k),
          drop-add key_index k (shown_keys m),
          ← append_assoc (take k d) (drop k d) (ahead 0 ms),
          take-append-drop k d,
        )

        bound : length (read_keys S clock heap i m key_index k) ≤ suc n
        bound = rw (read_keys_lem i key_index k m) (omega (arith, length-take k d))

  -- The first phase ends within its fuel: the first `n` keys ahead are excluded, and the others are
  -- ahead of the new cursor.
  pub skip_keys_lem :
      (fuel n i key_index : ℕ) (remaining : List MountedStorage) (exclude : List Bytes)
      → rounds S clock heap remaining - key_index < fuel
      → n < 2 ^ 64
      → Sized key_index remaining
      → (c : Cursor) × (skip_keys S clock heap fuel n i key_index remaining exclude
          ≡ some (c, exclude ++ take n (ahead key_index remaining)))
        × (ahead c.key_index c.remaining ≡ drop n (ahead key_index remaining))
        × Sized c.key_index c.remaining
        × (rounds S clock heap c.remaining - c.key_index
            ≤ rounds S clock heap remaining - key_index)
  unfolding skip_keys
  skip_keys_lem zero n i ki remaining ex f w s = absurd (omega arith)
  skip_keys_lem (suc fuel) n i ki [] ex f w s = (
    record { readings = i; remaining = []; key_index = ki },
    rw (take-nil {A = Bytes} n, append-nil ex),
    sym (drop-nil n),
    tt,
    omega arith,
  )
  skip_keys_lem (suc fuel) zero i ki (m ∷ ms) ex f w s = (
    record { readings = i; remaining = m ∷ ms; key_index = ki },
    rw (append-nil ex),
    refl,
    s,
    omega arith,
  )
  skip_keys_lem (suc fuel) (suc n) i ki (m ∷ ms) ex f w s =
      let (parts, bound, sized, less) = round_lem i m ms ki n s in
      let k = min (suc n) (size_sub (size_of S clock heap m) ki) in
      let ks = read_keys S clock heap i m ki k in
      let c = advance S clock heap i m ms (ki + k) in
      let rest = ahead c.key_index c.remaining in
      let all = ahead ki (m ∷ ms) in
      let (c', run, left, sized', le) =
        skip_keys_lem fuel (size_sub (suc n) (length ks)) c.readings c.key_index c.remaining
          (ex ++ ks) (omega arith) (omega arith) sized in
      (
        c',
        run
            ∙ ap (λ (e : List Bytes). some (c', e))
                (take_parts (suc n) ex ks rest all parts bound w),
        left ∙ drop_parts (suc n) ex ks rest all parts bound w,
        sized',
        omega arith,
      )
