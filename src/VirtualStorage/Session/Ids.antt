-- ===== src/VirtualStorage/Session/Ids.antt =====
-- The ids that `mount` gives: `m_mountIdCounter` of VirtualStorage.hpp.
use mathlib.Core.Option.{some-injective}
use libkvs.Prelude.{
  ℕ, ◌+◌, ◌<◌, ◌%◌, ◌^◌, ◌≡◌, sym, ap, ◌∙◌, Option, none, some, List, [], ◌∷◌, arith,
}
use libkvs.StorageRegistry.Interface.{
  AcquisitionStatus, k_acquired, k_volume_load_error, k_storage_load_error, RegistryImpl,
}
use libkvs.VirtualStorage.{MountOptions, StorageNode, NodePath, RemountOptions, mount_points}
use libkvs.VirtualStorage.Resolve.Laws.{node_at}
use libkvs.VirtualStorage.Mounting.{or_new, unmount_node}
use libkvs.VirtualStorage.Mounting.Unmount.{bind-some}
use libkvs.VirtualStorage.Tables.{find_id}
use libkvs.VirtualStorage.Session.{
  MountStatus, MountResult, UnmountStatus, State, release, acquired, remount_nodes, remount_all,
  remount_entry, attach, mount, mount_acquired, create_mount_result, detach, unmount, unmount_found,
}

module _ (G : RegistryImpl) where
  abbrev counter : State G → ℕ
  counter s = s.mount_id_counter

  remount_entry-counter :
      (entry : RemountOptions) (s s' : State G)
      → remount_entry G entry s ≡ some s'
      → counter s' ≡ counter s
  unfolding remount_entry
  remount_entry-counter entry s s' h =
      let options = entry.mount_options in
      let n = or_new (node_at s.root_node entry.node) in
      let (old, found, h1) = bind-some (find_id entry.mount_id (mount_points n)) _ s' h in
      let (gone, done, h2) =
        bind-some (unmount_node (release G) s.registry n old.storage_node) _ s' h1 in
      let (got, ok, h3) =
        bind-some
          (acquired G (
            G.acquire_storage gone.0 options.volume_file_path options.node_path
              options.hash_table_params))
          _ s' h2 in
      sym (ap counter (some-injective _ _ h3))

  remount_all-counter :
      (entries : List RemountOptions) (s s' : State G)
      → remount_all G entries s ≡ some s'
      → counter s' ≡ counter s
  unfolding remount_all
  remount_all-counter [] s s' h = sym (ap counter (some-injective _ _ h))
  remount_all-counter (entry ∷ entries) s s' h =
      let (s1, done, rest) = bind-some (remount_entry G entry s) _ s' h in
      remount_all-counter entries s1 s' rest ∙ remount_entry-counter entry s s1 done

  abbrev Takes : MountResult → State G → State G → Type 0
  Takes r s s' = (r.mount_id ≡ counter s) × (counter s' ≡ counter s + 1)

  mount_acquired-counter :
      (options : MountOptions) (s s' : State G) (r : MountResult)
      (a : Option (AcquisitionStatus × StorageNode) × G.State)
      → mount_acquired G options s a ≡ some (r, s')
      → r.status ≡ MountStatus.k_ok
      → counter s + 1 < 2 ^ 64
      → Takes r s s'
  unfolding mount_acquired remount_nodes attach create_mount_result
  mount_acquired-counter options s s' r (none, g) h ok room = absurd (cc h)
  mount_acquired-counter options s s' r (some (k_acquired, root), g) h ok room =
      let (s1, done, h1) =
        bind-some (remount_nodes G options (record s { registry = g })) _ (r, s') h in
      let same = some-injective _ _ h1 in
      let kept = remount_all-counter _ (record s { registry = g }) s1 done in
      let id : counter s1 ≡ r.mount_id = ap (λ (x : MountResult × State G). x.0.mount_id) same in
      let next : (counter s1 + 1) % 2 ^ 64 ≡ counter s' =
        ap (λ (x : MountResult × State G). counter x.1) same in
      (omega (arith, kept, id), omega (arith, kept, next))
  mount_acquired-counter options s s' r (some (k_volume_load_error, root), g) h ok room =
      let status : MountStatus.k_volume_load_error ≡ r.status =
        ap (λ (x : MountResult × State G). x.0.status) (some-injective _ _ h) in
      absurd (cc (status, ok))
  mount_acquired-counter options s s' r (some (k_storage_load_error, root), g) h ok room =
      let status : MountStatus.k_storage_load_error ≡ r.status =
        ap (λ (x : MountResult × State G). x.0.status) (some-injective _ _ h) in
      absurd (cc (status, ok))

  -- As long as the counter does not wrap around, a mount that succeeds gives its value and raises it.
  pub mount-counter :
      (options : MountOptions) (s s' : State G) (r : MountResult)
      → mount G options s ≡ some (r, s')
      → r.status ≡ MountStatus.k_ok
      → s.mount_id_counter + 1 < 2 ^ 64
      → (r.mount_id ≡ s.mount_id_counter) × (s'.mount_id_counter ≡ s.mount_id_counter + 1)
  unfolding mount
  mount-counter options s s' r h = mount_acquired-counter options s s' r _ h

  detach-counter :
      (id : ℕ) (path : NodePath) (s s' : State G)
      → detach G id path s ≡ some s'
      → counter s' ≡ counter s
  unfolding detach
  detach-counter id path s s' h =
      let n = or_new (node_at s.root_node path) in
      let (mp, found, h1) = bind-some (find_id id (mount_points n)) _ s' h in
      let (gone, done, h2) =
        bind-some (unmount_node (release G) s.registry n mp.storage_node) _ s' h1 in
      sym (ap counter (some-injective _ _ h2))

  unmount_found-counter :
      (id : ℕ) (o : Option NodePath) (s s' : State G) (status : UnmountStatus)
      → unmount_found G id o s ≡ some (status, s')
      → counter s' ≡ counter s
  unfolding unmount_found
  unmount_found-counter id none s s' status h =
      sym (ap (λ (x : UnmountStatus × State G). counter x.1) (some-injective _ _ h))
  unmount_found-counter id (some path) s s' status h =
      let (s1, done, h1) = bind-some (detach G id path s) _ (status, s') h in
      sym (ap (λ (x : UnmountStatus × State G). counter x.1) (some-injective _ _ h1))
      ∙ detach-counter id path s s1 done

  -- An unmount takes no id.
  pub unmount-counter :
      (id : ℕ) (s s' : State G) (status : UnmountStatus)
      → unmount G id s ≡ some (status, s')
      → s'.mount_id_counter ≡ s.mount_id_counter
  unfolding unmount
  unmount-counter id s s' status h = unmount_found-counter id _ s s' status h
