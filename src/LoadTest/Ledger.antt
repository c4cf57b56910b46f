-- ===== src/LoadTest/Ledger.antt =====
-- The tables of TestRunner.cpp in a run: `m_storagePaths` has each mounted path with the number of its
-- mounts in `m_mountPoints`.
pub mod Mounts
pub mod Rounds
use mathlib.Core.Option.{some-injective}
use libkvs.Prelude.{
  ℕ, zero, suc, ◌+◌, ◌^◌, leb, ◌==◌, ◌≤◌, ◌<◌, ◌≡◌, refl, sym, ap, ◌∙◌, subst, Bytes, bytes,
  bytes_eq, bytes_eq_iff, bytes_eq_refl, Bool, true, false, Option, none, some, List, [], ◌∷◌,
  if◌then◌else◌, arith, Bool-cases, inl, inr, All, length,
}
use libkvs.RandomUtils.{random, generate_string, ◌>>=◌}
use libkvs.RandomUtils.Strings.{random_between_bounds}
use libkvs.VirtualStorage.Tables.{find_id, put_id, erase_id}
use libkvs.VirtualStorage.Session.{
  MountResult, MountStatus, k_volume_load_error, k_storage_load_error, UnmountStatus, k_unmounted,
  k_invalid_mount_id,
}
use libkvs.VirtualStorage.{MountOptions}
use libkvs.LoadTest.{
  Operation, k_read, k_write, k_delete, k_mount, k_unmount, k_key_range_query, generate_path, reset,
  get_random_operation, operation_weights, Sample, SampleCounters,
}
use libkvs.LoadTest.Containers.{count_path, uncount_path, get_random_element, element_at}
use libkvs.LoadTest.Threads.{finish_round, take_sample, thread_round, thread_func}
use libkvs.LoadTest.Runner.{
  CompositeStorage, TestRunner, record_mount, record_unmount, mount_id_among, get_random_mount_id,
  unmount_random, perform_unmount_op, get_random_key, get_random_path, perform, perform_mount_op,
  mount_random, perform_read_op, perform_write_op, perform_delete_op, perform_key_range_query_op,
  mounted, with_status, mount_options,
}
use libkvs.LoadTest.Tables.{
  CountsOnce, HasOnce, count_path-CountsOnce, count_of, mounts_of, mounts_of-put_id, find_id-put_id,
  put_id-HasOnce, find_id-erase_id, erase_id-HasOnce, mounts_of-erase_id, uncount_path_total,
  get_random_element_total, some_mount, some_count,
}

-- What holds of a result, if there is one.
abbrev pub OnSome {ℓ} : {A : Type ℓ} → (A → Type 0) → Option A → Type 0
OnSome P none = Unit
OnSome P (some a) = P a

pub bind-OnSome {ℓ κ} :
    {A : Type ℓ} {B : Type κ} (P : B → Type 0) (o : Option A) (f : A → Option B)
    → ((a : A) → o ≡ some a → OnSome P (f a))
    → OnSome P (o >>= f)
bind-OnSome P none f h = tt
bind-OnSome P (some a) f h = h a refl

pub of_OnSome {ℓ} :
    {A : Type ℓ} (P : A → Type 0) {o : Option A} {a : A} → OnSome P o → o ≡ some a → P a
of_OnSome P h e = subst (OnSome P) e h

-- What the runner relies on: as long as the ids do not reach 2^64, a successful mount gives the next one,
-- and nothing else takes ids.
pub record CompositeLaws (S : CompositeStorage) : Type 0 where
  pub next_id : S.State → ℕ
  pub mount_next :
      (o : MountOptions) (s s' : S.State) (r : MountResult)
      → S.mount o s ≡ some (r, s')
      → r.status ≡ MountStatus.k_ok
      → next_id s + 1 < 2 ^ 64
      → (r.mount_id ≡ next_id s) × (next_id s' ≡ next_id s + 1)
  pub unmount_keeps :
      (id : ℕ) (s s' : S.State) (status : UnmountStatus)
      → S.unmount id s ≡ some (status, s')
      → next_id s' ≡ next_id s
  pub get_value_keeps :
      (key path : Bytes) (s : S.State) → next_id (S.get_value key path s) ≡ next_id s
  pub put_value_keeps :
      (key path : Bytes) (size : ℕ) (s : S.State)
      → next_id (S.put_value key path size s) ≡ next_id s
  pub delete_value_keeps :
      (key path : Bytes) (s : S.State) → next_id (S.delete_value key path s) ≡ next_id s
  pub get_keys_range_keeps :
      (path : Bytes) (offset count : ℕ) (s : S.State)
      → next_id (S.get_keys_range path offset count s) ≡ next_id s

module _ (S : CompositeStorage) (L : CompositeLaws S) (engine : ℕ → ℕ) where
  -- The tables agree, and something is mounted; there are ids for `rounds` more mounts.
  pub record IsLedger (rounds : ℕ) (t : TestRunner S engine) : Type 0 where
    pub counts_once : CountsOnce t.storage_paths
    pub has_once : HasOnce t.mount_points
    pub agrees : (q : Bytes) → count_of q t.storage_paths ≡ mounts_of q t.mount_points
    pub some_path : 0 < length t.storage_paths
    pub fresh : (id : ℕ) → L.next_id t.storage ≤ id → find_id id t.mount_points ≡ none
    pub room : L.next_id t.storage + rounds < 2 ^ 64

  pub record_mount-IsLedger :
      (rounds : ℕ) (path : Bytes) (id : ℕ) (s : S.State) (t : TestRunner S engine)
      → CountsOnce t.storage_paths
      → HasOnce t.mount_points
      → ((q : Bytes) → count_of q t.storage_paths ≡ mounts_of q t.mount_points)
      → ((j : ℕ) → L.next_id t.storage ≤ j → find_id j t.mount_points ≡ none)
      → id ≡ L.next_id t.storage
      → L.next_id s ≡ L.next_id t.storage + 1
      → L.next_id t.storage + suc rounds < 2 ^ 64
      → OnSome (IsLedger rounds) (record_mount S engine path (id, s) t)
  unfolding record_mount
  record_mount-IsLedger rounds path id s t once has agrees fresh from to room =
      bind-OnSome (IsLedger rounds) (count_path path t.storage_paths) _ (λ qs counted.
        let (once', counts, some_path) =
          count_path-CountsOnce path t.storage_paths qs once counted in
        record {
          counts_once = once';
          has_once = put_id-HasOnce id path t.mount_points has;
          agrees = λ q. omega (
            arith,
            agrees q,
            counts q,
            mounts_of-put_id id path q t.mount_points (fresh id (omega arith)),
          );
          some_path = some_path;
          fresh = λ j le.
              find_id-put_id id j path t.mount_points (fresh j (omega arith)) (ground arith);
          room = omega arith;
        })

  pub moved :
      (rounds : ℕ) (t : TestRunner S engine) (s : S.State) (i : ℕ)
      → IsLedger rounds t
      → L.next_id s ≡ L.next_id t.storage
      → IsLedger rounds (record t { storage = s; next_draw = i })
  moved rounds t s i l same = record {
    counts_once = l.counts_once;
    has_once = l.has_once;
    agrees = l.agrees;
    some_path = l.some_path;
    fresh = λ id le. l.fresh id (omega arith);
    room = omega (arith, l.room);
  }

  pub fewer_rounds :
      (rounds : ℕ) (t : TestRunner S engine) → IsLedger (suc rounds) t → IsLedger rounds t
  fewer_rounds rounds t l = record {
    counts_once = l.counts_once;
    has_once = l.has_once;
    agrees = l.agrees;
    some_path = l.some_path;
    fresh = l.fresh;
    room = omega (arith, l.room);
  }

  pub record_unmount_total :
      (rounds id : ℕ) (path : Bytes) (status : UnmountStatus) (s : S.State)
      (t : TestRunner S engine)
      → IsLedger rounds t
      → 1 < length t.storage_paths
      → find_id id t.mount_points ≡ some path
      → L.next_id s ≡ L.next_id t.storage
      → (t' : TestRunner S engine) × (record_unmount S engine id (status, s) t ≡ some t')
        × IsLedger rounds t'
  unfolding record_unmount
  record_unmount_total rounds id path k_invalid_mount_id s t l size found mono =
      (record t { storage = s }, refl, moved rounds t s t.next_draw l mono)
  record_unmount_total rounds id path k_unmounted s t l size found mono =
      let fewer = λ (q : Bytes). mounts_of-erase_id id path q t.mount_points l.has_once found in
      let (qs, left, once, counts, shorter) =
        uncount_path_total path t.storage_paths l.counts_once
          (ground (arith, l.agrees path, fewer path, bytes_eq_refl path)) in
      rw (found, ◌>>=◌, left, ◌>>=◌)
        (
          record t { storage = s; storage_paths = qs; mount_points = erase_id id t.mount_points },
          refl,
          record {
            counts_once = once;
            has_once = erase_id-HasOnce id t.mount_points l.has_once;
            agrees = λ q. omega (arith, l.agrees q, counts q, fewer q);
            some_path = omega arith;
            fresh = λ j le. find_id-erase_id id j t.mount_points (l.fresh j (omega arith));
            room = omega (arith, l.room);
          },
        )

  pub mount_id_among_total :
      (ps : List (ℕ × Bytes)) (i : ℕ)
      → HasOnce ps
      → 0 < length ps
      → (e : ℕ × Bytes) × (mount_id_among S engine ps i ≡ some (e.0, i + 1))
        × (find_id e.0 ps ≡ some e.1)
  unfolding mount_id_among
  mount_id_among_total [] i h pos = absurd (omega arith)
  mount_id_among_total (p ∷ ps) i h pos =
      let (e, chosen, found) = get_random_element_total (engine i) (p ∷ ps) h pos in
      (e, rw (chosen, ◌>>=◌) refl, found)

  unmount_random_total :
      (rounds : ℕ) (t : TestRunner S engine)
      → IsLedger rounds t
      → 1 < length t.storage_paths
      → ((id : ℕ) → (r : UnmountStatus × S.State) × (S.unmount id t.storage ≡ some r))
      → (t' : TestRunner S engine) × (unmount_random S engine t ≡ some t') × IsLedger rounds t'
  unfolding unmount_random get_random_mount_id
  unmount_random_total rounds t l size total =
      let (p, counted) = some_count t.storage_paths l.counts_once l.some_path in
      let some_id = some_mount p t.mount_points (omega (arith, l.agrees p)) in
      let (e, chosen, found) = mount_id_among_total t.mount_points t.next_draw l.has_once some_id in
      let ((status, s), done) = total e.0 in
      let drawn : TestRunner S engine = record t { next_draw = t.next_draw + 1 } in
      let (t', recorded, good) =
        record_unmount_total rounds e.0 e.1 status s drawn
          (moved rounds t t.storage (t.next_draw + 1) l refl) size found
          (L.unmount_keeps e.0 t.storage s status done) in
      (t', rw (chosen, ◌>>=◌, done, ◌>>=◌) recorded, good)

  -- If every unmount returns, `performUnmountOp` ends without a use of the end of `m_mountPoints`, and
  -- keeps the tables.
  pub perform_unmount_op_total :
      (rounds : ℕ) (t : TestRunner S engine)
      → IsLedger rounds t
      → ((id : ℕ) → (r : UnmountStatus × S.State) × (S.unmount id t.storage ≡ some r))
      → (b : Bool) × (t' : TestRunner S engine) × (perform_unmount_op S engine t ≡ some (b, t'))
        × IsLedger rounds t'
  unfolding perform_unmount_op
  perform_unmount_op_total rounds t l total = elim (Bool-cases (length t.storage_paths == 1)) [
    | inl e ↦ (false, t, rw e refl, l)
    | inr e ↦
        let size : 1 < length t.storage_paths = ground (arith, l.some_path) in
        let (t', done, good) = unmount_random_total rounds t l size total in
        (true, t', rw (e, done, ◌>>=◌) refl, good)
  ]
