-- ===== src/VirtualStorage/Session/Known.antt =====
-- Each id of `m_mountPoints` stands among the mount points of its node, and mounts, remounts and
-- unmounts keep it so.
use mathlib.Core.Option.{some-injective}
use libkvs.Prelude.{
  ℕ, ◌==◌, ◌≡◌, sym, ap, ◌∙◌, subst, Option, none, some, List, [], ◌∷◌, arith, Bool-cases, inl, inr,
}
use libkvs.StringUtils.{split, slash}
use libkvs.StorageRegistry.Interface.{
  k_acquired, k_volume_load_error, k_storage_load_error, AcquisitionStatus, RegistryImpl,
}
use libkvs.VirtualStorage.{
  MountOptions, StorageNode, NodePath, MountPoint, mount_points, RemountOptions,
}
use libkvs.VirtualStorage.Resolve.Laws.{node_at}
use libkvs.VirtualStorage.Mounting.{or_new, mount_node, unmount_node}
use libkvs.VirtualStorage.Mounting.Paths.{create_nodes_for_path, create_nodes}
use libkvs.VirtualStorage.Mounting.Unmount.{bind-some}
use libkvs.VirtualStorage.Tables.{find_id, put_id, erase_id, put_mount_point, erase_mount_point}
use libkvs.VirtualStorage.Tables.Writes.{
  find_id-put_id, find_id-erase_id, node_at-replace_node, mount_points-put_mount_point,
}
use libkvs.VirtualStorage.Tables.Kept.{
  mount_points_at, HasId, KeepsId, of_same, HasId-erase_id, find_id-put_id_ne,
  put_mount_point-KeepsId, erase_mount_point-KeepsId, replace_node-KeepsId,
  mount_points_at-mount_node, mount_points_at-create_nodes, mount_points_at-unmount_node,
}
use libkvs.VirtualStorage.Session.{
  MountResult, UnmountStatus, State, release, acquired, remount_nodes, remount_all, remount_entry,
  attach, mount_acquired, detach, unmount_found,
}

module _ (G : RegistryImpl) where
  -- Each id of `m_mountPoints` stands among the mount points of its node.
  abbrev pub IsKnown : State G → Type 0
  IsKnown s =
      (id : ℕ) (path : NodePath)
      → find_id id s.mount_points ≡ some path
      → HasId id (mount_points_at s.root_node path)

  -- A change of the registry and of the tree only.
  abbrev Moves : State G → State G → Type 0
  Moves s s' = (s'.mount_points ≡ s.mount_points) × ((id : ℕ) → KeepsId id s.root_node s'.root_node)

  pub remount_entry-Moves :
      (entry : RemountOptions) (s s' : State G) → remount_entry G entry s ≡ some s' → Moves s s'
  unfolding remount_entry
  remount_entry-Moves entry s s' h =
      let options = entry.mount_options in
      let n = or_new (node_at s.root_node entry.node) in
      let (old, found, h1) = bind-some (find_id entry.mount_id (mount_points n)) _ s' h in
      let (gone, done, h2) =
        bind-some (unmount_node (release G) s.registry n old.storage_node) _ s' h1 in
      let (got, ok, h3) =
        bind-some
          (acquired G (
            G.acquire_storage gone.0 options.volume_file_path options.node_path
              options.hash_table_params))
          _ s' h2 in
      let mp : MountPoint = record old { storage_node = got.0 } in
      let put = put_mount_point entry.mount_id mp gone.1 in
      let mounted = mount_node put got.0 options.priority in
      let same = some-injective _ _ h3 in
      (
        sym (ap (λ (x : State G). x.mount_points) same),
        λ id.
            subst (λ (x : State G). KeepsId id s.root_node x.root_node) same
              (replace_node-KeepsId id s.root_node entry.node mounted (λ path has.
                of_same id put mounted (mount_points_at-mount_node put got.0 options.priority) path
                  (put_mount_point-KeepsId entry.mount_id id mp gone.1 path (
                    of_same id n gone.1
                      (mount_points_at-unmount_node (release G) n gone.1 old.storage_node s.registry
                        gone.0 done)
                      path has)))),
      )

  remount_all-Moves :
      (entries : List RemountOptions) (s s' : State G)
      → remount_all G entries s ≡ some s'
      → Moves s s'
  unfolding remount_all
  remount_all-Moves [] s s' h =
      let same = some-injective _ _ h in
      (
        sym (ap (λ (x : State G). x.mount_points) same),
        λ id. subst (λ (x : State G). KeepsId id s.root_node x.root_node) same (λ path has. has),
      )
  remount_all-Moves (entry ∷ entries) s s' h =
      let (s1, done, rest) = bind-some (remount_entry G entry s) _ s' h in
      let (tables1, keeps1) = remount_entry-Moves entry s s1 done in
      let (tables2, keeps2) = remount_all-Moves entries s1 s' rest in
      (tables2 ∙ tables1, λ id path has. keeps2 id path (keeps1 id path has))

  Moves-IsKnown : (s s' : State G) → Moves s s' → IsKnown s → IsKnown s'
  Moves-IsKnown s s' (tables, keeps) known id path found =
      keeps id path (known id path (ap (find_id id) (sym tables) ∙ found))

  attach-IsKnown :
      (options : MountOptions) (root : StorageNode) (s : State G)
      → IsKnown s
      → IsKnown (attach G options root s).1
  unfolding attach create_nodes_for_path
  attach-IsKnown options root s known j path found =
      let at = split options.storage_mount_path slash in
      let id = s.mount_id_counter in
      let created = create_nodes s.root_node at in
      let n = or_new (node_at created at) in
      let mounted = mount_node n root options.priority in
      let mp : MountPoint = record {
        storage_node = root;
        priority = options.priority;
        remount_options = record { node = at; mount_id = id; mount_options = options };
      } in
      elim (Bool-cases (id == j)) [
        | inr e ↦
            let before = known j path (sym (find_id-put_id_ne id j at s.mount_points e) ∙ found) in
            replace_node-KeepsId j created at (put_mount_point id mp mounted)
              (λ rest has.
                put_mount_point-KeepsId id j mp mounted rest (
                  of_same j n mounted (mount_points_at-mount_node n root options.priority) rest
                    has))
              path
              (of_same j s.root_node created (mount_points_at-create_nodes s.root_node at) path
                before)
        | inl e ↦
            let same : id ≡ j = ground arith in
            let here : at ≡ path = some-injective at path (
              sym (find_id-put_id id at s.mount_points)
              ∙ ap (λ i. find_id i (put_id id at s.mount_points)) same
              ∙ found) in
            subst (λ p. HasId j (mount_points_at (attach G options root s).1.root_node p)) here
              (subst (λ i. HasId i (mount_points_at (attach G options root s).1.root_node at)) same
                (
                  mp,
                  rw (node_at-replace_node created at (put_mount_point id mp mounted)) (
                      ap (find_id id) (mount_points-put_mount_point id mp mounted)
                      ∙ find_id-put_id id mp (mount_points mounted)),
                ))
      ]

  detach-IsKnown :
      (id : ℕ) (at : NodePath) (s s' : State G)
      → detach G id at s ≡ some s'
      → IsKnown s
      → IsKnown s'
  unfolding detach
  detach-IsKnown id at s s' h known =
      let n = or_new (node_at s.root_node at) in
      let (mp, found, h1) = bind-some (find_id id (mount_points n)) _ s' h in
      let (gone, done, h2) =
        bind-some (unmount_node (release G) s.registry n mp.storage_node) _ s' h1 in
      subst IsKnown (some-injective _ _ h2) (λ j path there. elim (Bool-cases (id == j)) [
        | inl e ↦
            let same : id ≡ j = ground arith in
            let missing : find_id j (erase_id id s.mount_points) ≡ none =
              subst (λ i. find_id i (erase_id id s.mount_points) ≡ none) same
                (find_id-erase_id id s.mount_points) in
            absurd (cc (missing, there))
        | inr e ↦
            let before = known j path (sym (HasId-erase_id id j s.mount_points e) ∙ there) in
            replace_node-KeepsId j s.root_node at (erase_mount_point id gone.1)
              (λ rest has. erase_mount_point-KeepsId id j gone.1 e rest (
                of_same j n gone.1
                  (mount_points_at-unmount_node (release G) n gone.1 mp.storage_node s.registry
                    gone.0 done)
                  rest has))
              path before
      ])

  pub mount_acquired-IsKnown :
      (options : MountOptions) (s s' : State G) (result : MountResult)
      (got : Option (AcquisitionStatus × StorageNode) × G.State)
      → mount_acquired G options s got ≡ some (result, s')
      → IsKnown s
      → IsKnown s'
  unfolding mount_acquired
  mount_acquired-IsKnown options s s' result (none, g) h known = absurd (cc h)
  mount_acquired-IsKnown options s s' result (some (k_acquired, root), g) h known =
      let (s1, remounted, same) =
        bind-some (remount_nodes G options (record s { registry = g })) _ _ h in
      subst IsKnown (ap (λ (x : MountResult × State G). x.1) (some-injective _ _ same)) (
        attach-IsKnown options root s1 (
          Moves-IsKnown (record s { registry = g }) s1
            (unfold remount_nodes in remount_all-Moves _ (record s { registry = g }) s1 remounted)
            known))
  mount_acquired-IsKnown options s s' result (some (k_volume_load_error, root), g) h known =
      subst IsKnown (ap (λ (x : MountResult × State G). x.1) (some-injective _ _ h)) known
  mount_acquired-IsKnown options s s' result (some (k_storage_load_error, root), g) h known =
      subst IsKnown (ap (λ (x : MountResult × State G). x.1) (some-injective _ _ h)) known

  pub unmount_found-IsKnown :
      (id : ℕ) (found : Option NodePath) (s s' : State G) (status : UnmountStatus)
      → unmount_found G id found s ≡ some (status, s')
      → IsKnown s
      → IsKnown s'
  unfolding unmount_found
  unmount_found-IsKnown id none s s' status h known =
      subst IsKnown (ap (λ (x : UnmountStatus × State G). x.1) (some-injective _ _ h)) known
  unmount_found-IsKnown id (some at) s s' status h known =
      let (s1, done, same) = bind-some (detach G id at s) _ _ h in
      subst IsKnown (ap (λ (x : UnmountStatus × State G). x.1) (some-injective _ _ same))
        (detach-IsKnown id at s s1 done known)
