-- ===== src/LoadTest/Ledger/Mounts.antt =====
-- The mounts and unmounts of TestRunner.cpp keep the tables.
use mathlib.Core.Option.{some-injective}
use libkvs.Prelude.{
  ℕ, suc, ◌+◌, ◌==◌, ◌<◌, ◌≡◌, refl, subst, Bool, Option, none, some, arith, Bool-cases, inl, inr,
  length,
}
use libkvs.RandomUtils.{◌>>=◌}
use libkvs.VirtualStorage.Session.{
  MountResult, MountStatus, k_volume_load_error, k_storage_load_error,
}
use libkvs.LoadTest.{generate_path}
use libkvs.LoadTest.Runner.{
  CompositeStorage, TestRunner, get_random_mount_id, unmount_random, perform_unmount_op,
  perform_mount_op, mount_random, mounted, with_status, mount_options,
}
use libkvs.LoadTest.Tables.{some_mount, some_count}
use libkvs.LoadTest.Ledger.{
  OnSome, bind-OnSome, of_OnSome, CompositeLaws, IsLedger, moved, fewer_rounds,
  record_mount-IsLedger, record_unmount_total, mount_id_among_total,
}

module _ (S : CompositeStorage) (L : CompositeLaws S) (engine : ℕ → ℕ) (rounds : ℕ) where
  abbrev Before : TestRunner S engine → Type 0
  Before t = IsLedger S L engine (suc rounds) t

  abbrev Ledger : TestRunner S engine → Type 0
  Ledger t = IsLedger S L engine rounds t

  -- A mount has given the next id.
  abbrev pub Next : ℕ → ℕ × S.State → Type 0
  Next before r = (r.0 ≡ before) × (L.next_id r.1 ≡ before + 1)

  with_status_ids :
      (before : ℕ) (status : MountStatus) (r r' : ℕ × S.State)
      → (status ≡ MountStatus.k_ok → Next before r')
      → with_status S engine status r' ≡ some r
      → Next before r
  with_status_ids before MountStatus.k_ok r r' h e =
      subst (Next before) (some-injective r' r e) (h refl)
  with_status_ids before k_volume_load_error r r' h e = absurd (ground arith)
  with_status_ids before k_storage_load_error r r' h e = absurd (ground arith)

  pub mounted_ids :
      (s : S.State) (r : ℕ × S.State) (result : Option (MountResult × S.State))
      → ((m : MountResult × S.State)
          → result ≡ some m
          → m.0.status ≡ MountStatus.k_ok
          → Next (L.next_id s) (m.0.mount_id, m.1))
      → mounted S engine result ≡ some r
      → Next (L.next_id s) r
  mounted_ids s r none h e = absurd (ground arith)
  mounted_ids s r (some (result, s')) h e =
      with_status_ids (L.next_id s) result.status r (result.mount_id, s') (h (result, s') refl) e

  mount_random-IsLedger :
      (t : TestRunner S engine) → Before t → OnSome Ledger (mount_random S engine t)
  unfolding mount_random
  mount_random-IsLedger t l =
      bind-OnSome Ledger (generate_path engine t.next_draw) _ (λ (mount_path, i) _.
        bind-OnSome Ledger (generate_path engine i) _ (λ (node_path, j) _.
          let o = mount_options S engine t.opts mount_path node_path in
          bind-OnSome Ledger (mounted S engine (S.mount o t.storage)) _ (λ r e.
            let (from, to) =
              mounted_ids t.storage r (S.mount o t.storage)
                (λ m done ok. L.mount_next o t.storage m.1 m.0 done ok (omega (arith, l.room))) e in
            record_mount-IsLedger S L engine rounds mount_path r.0 r.1 (record t { next_draw = j })
              l.counts_once l.has_once l.agrees l.fresh from to l.room)))

  abbrev After : Bool × TestRunner S engine → Type 0
  After r = Ledger r.1

  pub perform_mount_op-IsLedger :
      (t : TestRunner S engine) → Before t → OnSome After (perform_mount_op S engine t)
  unfolding perform_mount_op
  perform_mount_op-IsLedger t l = elim (Bool-cases (length t.storage_paths == t.opts.max_nodes)) [
    | inl e ↦ rw e (fewer_rounds S L engine rounds t l)
    | inr e ↦ rw e (
        bind-OnSome After (mount_random S engine t) _
          (λ t' done. of_OnSome Ledger (mount_random-IsLedger t l) done))
  ]

  unmount_random-IsLedger :
      (t : TestRunner S engine)
      → Before t
      → 1 < length t.storage_paths
      → OnSome Ledger (unmount_random S engine t)
  unfolding unmount_random get_random_mount_id
  unmount_random-IsLedger t l size =
      let (p, counted) = some_count t.storage_paths l.counts_once l.some_path in
      let some_id = some_mount p t.mount_points (omega (arith, l.agrees p)) in
      let (e, chosen, found) =
        mount_id_among_total S L engine t.mount_points t.next_draw l.has_once some_id in
      let drawn : TestRunner S engine = record t { next_draw = t.next_draw + 1 } in
      rw (chosen, ◌>>=◌)
        (bind-OnSome Ledger (S.unmount e.0 t.storage) _ (λ (status, s) done.
          let (t', recorded, good) =
            record_unmount_total S L engine rounds e.0 e.1 status s drawn
              (moved S L engine rounds t t.storage (t.next_draw + 1)
                (fewer_rounds S L engine rounds t l) refl)
              size found (L.unmount_keeps e.0 t.storage s status done) in
          rw recorded good))

  pub perform_unmount_op-IsLedger :
      (t : TestRunner S engine) → Before t → OnSome After (perform_unmount_op S engine t)
  unfolding perform_unmount_op
  perform_unmount_op-IsLedger t l = elim (Bool-cases (length t.storage_paths == 1)) [
    | inl e ↦ rw e (fewer_rounds S L engine rounds t l)
    | inr e ↦ rw e (
        bind-OnSome After (unmount_random S engine t) _ (λ t' done.
          of_OnSome Ledger (unmount_random-IsLedger t l (ground (arith, l.some_path))) done))
  ]
