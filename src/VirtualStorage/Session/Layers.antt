-- ===== src/VirtualStorage/Session/Layers.antt =====
-- What `mount` and `unmount` do to the layers of the virtual tree.
use mathlib.Core.Option.{some-injective}
use libkvs.Prelude.{subst, ℕ, ◌≡◌, refl, sym, ap, ◌∙◌, Option, none, some, Option-cases, inl, inr}
use libkvs.StringUtils.{split, slash}
use libkvs.StorageRegistry.Interface.{k_acquired, RegistryImpl}
use libkvs.VirtualStorage.{MountOptions, StorageNode, NodePath, MountPoint, mount_points}
use libkvs.VirtualStorage.Resolve.Laws.{node_at}
use libkvs.VirtualStorage.Mounting.{or_new, mount_node, unmount_node, ◌>>=◌}
use libkvs.VirtualStorage.Mounting.Paths.{create_nodes_for_path, create_nodes_for_path-node_at}
use libkvs.VirtualStorage.Mounting.Layers.{
  UniqueNames, storage_at, with_storage, layers_at, layers_at-mount_node,
}
use libkvs.VirtualStorage.Mounting.Restore.{Releases, storages_of, IsNewAt, unmount_node-mount_node}
use libkvs.VirtualStorage.Mounting.Unmount.{bind-some}
use libkvs.VirtualStorage.Tables.{
  find_id, erase_id, replace_node, put_mount_point, erase_mount_point,
}
use libkvs.VirtualStorage.Tables.Writes.{
  below, find_id-put_id, find_id-erase_id, node_at-replace_node, layers_at-replace_node,
  layers_at-put_mount_point, layers_at-erase_mount_point, layers_at-below, layers_at-rewritten,
  mount_points-put_mount_point, unmount_node-put_mount_point,
}
use libkvs.VirtualStorage.Session.{
  k_ok, UnmountStatus, k_unmounted, k_invalid_mount_id, State, release, remount_nodes, attach,
  mount, mount_acquired, detach, unmount, unmount_found,
}

-- The storage that a mounted subtree brings to a path, of which `rest` lies below the mount point.
abbrev pub brought_to : StorageNode → Option NodePath → Option ℕ
brought_to root none = none
brought_to root (some rest) = storage_at root rest

module _ (G : RegistryImpl) where
  attach_layers :
      (options : MountOptions) (root : StorageNode) (s : State G) (path : NodePath)
      → UniqueNames root
      → layers_at (attach G options root s).1.root_node path
        ≡ with_storage
            (brought_to root (below (split options.storage_mount_path slash) path))
            options.priority
            (layers_at s.root_node path)
  unfolding attach
  attach_layers options root s path u =
      let at = split options.storage_mount_path slash in
      let created = create_nodes_for_path s.root_node options.storage_mount_path in
      let n = or_new (node_at created at) in
      let (there, kept) = create_nodes_for_path-node_at s.root_node options.storage_mount_path in
      rw (layers_at-replace_node created at _ path) (elim (Option-cases (below at path)) [
        | inl e ↦ rw e (kept path)
        | inr (rest, e) ↦ rw e (
            layers_at-put_mount_point _ _ (mount_node n root options.priority) rest
            ∙ layers_at-mount_node n root options.priority rest u
            ∙ ap (with_storage (storage_at root rest) options.priority)
                (sym (layers_at-below created at path rest e) ∙ kept path))
      ])

  -- Where the storage loads and the remounts of the volume succeed, a mount of a subtree in which
  -- siblings have different names gives the next id, which leads to the mount path, and the layers
  -- at each path are those after the remounts, with the storage that the subtree brings there put
  -- in by its priority.
  pub mount_layers :
      (options : MountOptions) (s s1 : State G) (root : StorageNode) (g : G.State)
      → G.acquire_storage s.registry options.volume_file_path options.node_path
          options.hash_table_params
        ≡ (some (k_acquired, root), g)
      → remount_nodes G options (record s { registry = g }) ≡ some s1
      → UniqueNames root
      → (s' : State G) × (mount G options s
          ≡ some (record { status = k_ok; mount_id = s1.mount_id_counter }, s'))
        × (find_id s1.mount_id_counter s'.mount_points
            ≡ some (split options.storage_mount_path slash))
        × ((path : NodePath)
            → layers_at s'.root_node path
              ≡ with_storage
                  (brought_to root (below (split options.storage_mount_path slash) path))
                  options.priority
                  (layers_at s1.root_node path))
  unfolding mount mount_acquired
  mount_layers options s s1 root g acquired remounted u = (
    (attach G options root s1).1,
    rw (acquired, mount_acquired, remounted, ◌>>=◌) (unfold attach in refl),
    unfold attach in find_id-put_id s1.mount_id_counter _ s1.mount_points,
    λ path. attach_layers options root s1 path u,
  )

  detach_forgets :
      (id : ℕ) (at : NodePath) (s s1 : State G)
      → detach G id at s ≡ some s1
      → s1.mount_points ≡ erase_id id s.mount_points
  unfolding detach
  detach_forgets id at s s1 h =
      let n = or_new (node_at s.root_node at) in
      let (mp, found, h1) = bind-some (find_id id (mount_points n)) _ s1 h in
      let (gone, done, h2) =
        bind-some (unmount_node (release G) s.registry n mp.storage_node) _ s1 h1 in
      sym (ap (λ (x : State G). x.mount_points) (some-injective _ _ h2))

  -- An id is good for one unmount.
  unmount_twice :
      (id : ℕ) (s s' : State G)
      → unmount G id s ≡ some (k_unmounted, s')
      → unmount G id s' ≡ some (k_invalid_mount_id, s')
  unfolding unmount
  unmount_twice id s s' h = elim (Option-cases (find_id id s.mount_points)) [
    | inl e ↦ absurd (cc (rw (e, unmount_found) at h))
    | inr (at, e) ↦
        let (s1, left, same) = bind-some (detach G id at s) _ _ (rw (e, unmount_found) at h) in
        let now : s1 ≡ s' = ap (λ (x : UnmountStatus × State G). x.1) (some-injective _ _ same) in
        subst (λ x. unmount G id x ≡ some (k_invalid_mount_id, x)) now
          (unfold unmount in
            rw (detach_forgets id at s s1 left, find_id-erase_id id s.mount_points)
              (unfold unmount_found in refl))
  ]

  detach-attach :
      (options : MountOptions) (root : StorageNode) (s1 : State G)
      → Releases (release G) s1.registry (storages_of root)
      → UniqueNames root
      → let at = split options.storage_mount_path slash in
        (s'' : State G) × (detach G s1.mount_id_counter at (attach G options root s1).1 ≡ some s'')
        × ((path : NodePath)
            → IsNewAt (brought_to root (below at path)) (layers_at s1.root_node path)
            → layers_at s''.root_node path ≡ layers_at s1.root_node path)
  unfolding detach attach
  detach-attach options root s1 releases u =
      let at = split options.storage_mount_path slash in
      let created = create_nodes_for_path s1.root_node options.storage_mount_path in
      let (there, kept) = create_nodes_for_path-node_at s1.root_node options.storage_mount_path in
      let n = or_new (node_at created at) in
      let id = s1.mount_id_counter in
      let s' = (attach G options root s1).1 in
      let mp : MountPoint = record {
        storage_node = root;
        priority = options.priority;
        remount_options = record { node = at; mount_id = id; mount_options = options };
      } in
      let mounted = mount_node n root options.priority in
      let (r', n', done, back) =
        unmount_node-mount_node (release G) n root options.priority s1.registry u releases in
      let found : find_id id (mount_points (put_mount_point id mp mounted)) ≡ some mp =
        ap (find_id id) (mount_points-put_mount_point id mp mounted)
        ∙ find_id-put_id id mp (mount_points mounted) in
      let done' =
        unmount_node-put_mount_point (release G) id mp s1.registry r' mounted n' root done in
      (
        record s' {
          registry = r';
          root_node =
              replace_node s'.root_node at (erase_mount_point id (put_mount_point id mp n'));
          mount_points = erase_id id s'.mount_points;
        },
        rw
            (
              node_at-replace_node created at (put_mount_point id mp mounted),
              found,
              ◌>>=◌,
              done',
              ◌>>=◌,
            )
            refl,
        λ path new.
            layers_at-rewritten created at _ _ path (λ rest e.
              let same : layers_at s1.root_node path ≡ layers_at n rest =
                sym (kept path) ∙ layers_at-below created at path rest e in
              let new' = subst (IsNewAt (storage_at root rest)) same (rw e at new) in
              layers_at-erase_mount_point id (put_mount_point id mp n') rest
              ∙ layers_at-put_mount_point id mp n' rest
              ∙ back rest new'
              ∙ sym (layers_at-below created at path rest e))
            ∙ kept path,
      )

  -- Where the storage loads, the remounts of the volume succeed and the registry, as it is then,
  -- releases the storages of the subtree one after the other, a mount of a subtree in which
  -- siblings have different names gives an id, with which an unmount succeeds. The layers at each
  -- path at which the storage was not mounted before are then those before, and a second unmount
  -- with the id is refused and changes nothing.
  pub unmount-mount :
      (options : MountOptions) (s s1 : State G) (root : StorageNode) (g : G.State)
      → G.acquire_storage s.registry options.volume_file_path options.node_path
          options.hash_table_params
        ≡ (some (k_acquired, root), g)
      → remount_nodes G options (record s { registry = g }) ≡ some s1
      → UniqueNames root
      → Releases (release G) s1.registry (storages_of root)
      → (id : ℕ) × (s' : State G) × (s'' : State G) × (mount G options s
          ≡ some (record { status = k_ok; mount_id = id }, s'))
        × (unmount G id s' ≡ some (k_unmounted, s''))
        × (unmount G id s'' ≡ some (k_invalid_mount_id, s''))
        × ((path : NodePath)
            → IsNewAt
                (brought_to root (below (split options.storage_mount_path slash) path))
                (layers_at s1.root_node path)
            → layers_at s''.root_node path ≡ layers_at s1.root_node path)
  unfolding mount mount_acquired unmount
  unmount-mount options s s1 root g acquired remounted u releases =
      let at = split options.storage_mount_path slash in
      let (s'', gone, layers) = detach-attach options root s1 releases u in
      let known : find_id s1.mount_id_counter (attach G options root s1).1.mount_points ≡ some at =
        unfold attach in find_id-put_id s1.mount_id_counter at s1.mount_points in
      let done : unmount G s1.mount_id_counter (attach G options root s1).1
          ≡ some (k_unmounted, s'') =
        rw (known, unmount_found, gone, ◌>>=◌) refl in
      (
        s1.mount_id_counter,
        (attach G options root s1).1,
        s'',
        rw (acquired, mount_acquired, remounted, ◌>>=◌) (unfold attach in refl),
        done,
        unmount_twice s1.mount_id_counter _ s'' done,
        layers,
      )
