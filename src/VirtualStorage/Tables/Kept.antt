-- ===== src/VirtualStorage/Tables/Kept.antt =====
-- The mount points that a change of the tree keeps.
use mathlib.Core.Option.{some-injective}
use libkvs.Prelude.{
  ℕ, ◌==◌, ◌≡◌, refl, sym, ap, ◌∙◌, subst, Bool, false, Bytes, bytes_eq, bytes_eq_iff, some, List,
  [], ◌∷◌, arith, Bool-cases, inl, inr,
}
use libkvs.Prelude.Int.{ℤ}
use libkvs.VirtualStorage.{
  MountPoint, MountedStorage, Node, Children, node, find_child, put_child, NodePath, mount_points,
  StorageNode, StorageNodes, storage_node, no_storage_nodes, storage_child,
}
use libkvs.VirtualStorage.Resolve.Laws.{node_at}
use libkvs.VirtualStorage.Mounting.{
  or_new, mount_node, mount_children, unmount_node, unmount_children,
}
use libkvs.VirtualStorage.Mounting.Paths.{create_nodes}
use libkvs.VirtualStorage.Mounting.Layers.{find_child-put_child}
use libkvs.VirtualStorage.Mounting.Unmount.{bind-some, unmount_node-parts}
use libkvs.VirtualStorage.Tables.{
  find_id, put_id, erase_id, replace_node, put_mount_point, erase_mount_point,
}
use libkvs.VirtualStorage.Tables.Writes.{or_new-child}

-- The mount points of the node at a path; a missing node has none.
abbrev pub mount_points_at : Node → NodePath → List (ℕ × MountPoint)
mount_points_at n path = mount_points (or_new (node_at n path))

abbrev pub HasId {ℓ} : {A : Type ℓ} → ℕ → List (ℕ × A) → Type ℓ
HasId {A = A} id es = (a : A) × (find_id id es ≡ some a)

pub mount_points_at-child :
    (mps : List (ℕ × MountPoint)) (sts : List MountedStorage) (cs : Children) (c : Bytes)
    (path : NodePath)
    → mount_points_at (node mps sts cs) (c ∷ path) ≡ mount_points_at (or_new (find_child c cs)) path
mount_points_at-child mps sts cs c path = ap mount_points (or_new-child mps sts cs c path)

-- A write to one child, if it keeps what the child had.
put_child-kept :
    (name j : Bytes) (new : Node) (cs : Children) (path : NodePath)
    → mount_points_at new path ≡ mount_points_at (or_new (find_child name cs)) path
    → mount_points_at (or_new (find_child j (put_child name new cs))) path
      ≡ mount_points_at (or_new (find_child j cs)) path
put_child-kept name j new cs path h =
    rw (find_child-put_child name j new cs) (elim (Bool-cases (bytes_eq name j)) [
      | inl e ↦
          let same : name ≡ j = (bytes_eq_iff name j).0 e in
          rw e (h ∙ ap (λ x. mount_points_at (or_new (find_child x cs)) path) same)
      | inr e ↦ rw e
    ])

-- A change that leaves the mount points of the node, and of each child at each path.
node-kept :
    (mps : List (ℕ × MountPoint)) (sts sts' : List MountedStorage) (cs cs' : Children)
    → ((j : Bytes) (path : NodePath)
        → mount_points_at (or_new (find_child j cs')) path
          ≡ mount_points_at (or_new (find_child j cs)) path)
    → (path : NodePath)
    → mount_points_at (node mps sts' cs') path ≡ mount_points_at (node mps sts cs) path
node-kept mps sts sts' cs cs' h [] = unfold node_at in refl
node-kept mps sts sts' cs cs' h (c ∷ path) =
    mount_points_at-child mps sts' cs' c path
    ∙ h c path
    ∙ sym (mount_points_at-child mps sts cs c path)

mount_children-kept :
    (cs : Children) (kids : StorageNodes) (priority : ℤ) (j : Bytes) (path : NodePath)
    → mount_points_at (or_new (find_child j (mount_children cs kids priority))) path
      ≡ mount_points_at (or_new (find_child j cs)) path
unfolding mount_node
mount_children-kept cs no_storage_nodes priority j path = refl
mount_children-kept cs (storage_child name (storage_node v p st kids) others) priority j path =
    let n = or_new (find_child name cs) in
    let new = mount_node n (storage_node v p st kids) priority in
    mount_children-kept (put_child name new cs) others priority j path
    ∙ put_child-kept name j new cs path (
        mounted n v p st kids priority (λ cs' c rest. mount_children-kept cs' kids priority c rest)
          path)
  where
    mounted :
        (n : Node) (v p : Bytes) (st : ℕ) (kids : StorageNodes) (priority : ℤ)
        → ((cs : Children) (c : Bytes) (rest : NodePath)
            → mount_points_at (or_new (find_child c (mount_children cs kids priority))) rest
              ≡ mount_points_at (or_new (find_child c cs)) rest)
        → (path : NodePath)
        → mount_points_at (mount_node n (storage_node v p st kids) priority) path
          ≡ mount_points_at n path
    mounted (node mps sts cs) v p st kids priority h path =
        node-kept mps sts _ cs (mount_children cs kids priority) (h cs) path

pub mount_points_at-mount_node :
    (n : Node) (sn : StorageNode) (priority : ℤ) (path : NodePath)
    → mount_points_at (mount_node n sn priority) path ≡ mount_points_at n path
unfolding mount_node
mount_points_at-mount_node (node mps sts cs) (storage_node v p st kids) priority path =
    node-kept mps sts _ cs (mount_children cs kids priority) (mount_children-kept cs kids priority)
      path

pub mount_points_at-create_nodes :
    (n : Node) (made path : NodePath)
    → mount_points_at (create_nodes n made) path ≡ mount_points_at n path
unfolding create_nodes
mount_points_at-create_nodes n [] path = refl
mount_points_at-create_nodes (node mps sts cs) (c ∷ made) path =
    node-kept mps sts sts cs _
      (λ j rest.
        put_child-kept c j _ cs rest
          (mount_points_at-create_nodes (or_new (find_child c cs)) made rest))
      path

module _ {R : Type 0} (release : R → ℕ → Bool × R) where
  unmount_children-kept :
      (r r' : R) (cs cs' : Children) (kids : StorageNodes)
      → unmount_children release r cs kids ≡ some (r', cs')
      → (j : Bytes) (path : NodePath)
      → mount_points_at (or_new (find_child j cs')) path
        ≡ mount_points_at (or_new (find_child j cs)) path
  unfolding unmount_node
  unmount_children-kept r r' cs cs' no_storage_nodes h j path =
      let same : cs ≡ cs' = ap (λ (x : R × Children). x.1) (some-injective _ _ h) in
      ap (λ x. mount_points_at (or_new (find_child j x)) path) (sym same)
  unmount_children-kept r r' cs cs' (storage_child name (storage_node v p st kids) others) h j
        path =
      let (n, found, h1) = bind-some (find_child name cs) _ (r', cs') h in
      let ((r1, n1), done, h2) =
        bind-some (unmount_node release r n (storage_node v p st kids)) _ (r', cs') h1 in
      unmount_children-kept r1 r' (put_child name n1 cs) cs' others h2 j path
      ∙ put_child-kept name j n1 cs path (
          gone n n1 v p st kids r r1 (λ q q' c c' e. unmount_children-kept q q' c c' kids e) done
            path
          ∙ ap (λ x. mount_points_at (or_new x) path) (sym found))
    where
      gone :
          (n n' : Node) (v p : Bytes) (st : ℕ) (kids : StorageNodes) (r r' : R)
          → ((q q' : R) (c c' : Children)
              → unmount_children release q c kids ≡ some (q', c')
              → (j : Bytes) (path : NodePath)
              → mount_points_at (or_new (find_child j c')) path
                ≡ mount_points_at (or_new (find_child j c)) path)
          → unmount_node release r n (storage_node v p st kids) ≡ some (r', n')
          → (path : NodePath) → mount_points_at n' path ≡ mount_points_at n path
      gone (node mps sts cs) n' v p st kids r r' kept h path =
          let (r1, cs', done, e, there) =
            unmount_node-parts release mps sts cs v p st kids r r' n' h in
          rw e (node-kept mps sts _ cs cs' (kept r1 r' cs cs' done) path)

  pub mount_points_at-unmount_node :
      (n n' : Node) (sn : StorageNode) (r r' : R)
      → unmount_node release r n sn ≡ some (r', n')
      → (path : NodePath) → mount_points_at n' path ≡ mount_points_at n path
  mount_points_at-unmount_node (node mps sts cs) n' (storage_node v p st kids) r r' h path =
      let (r1, cs', done, e, there) = unmount_node-parts release mps sts cs v p st kids r r' n' h in
      rw e (node-kept mps sts _ cs cs' (unmount_children-kept r1 r' cs cs' kids done) path)

-- A change of the tree after which an id stands wherever it stood.
abbrev pub KeepsId : ℕ → Node → Node → Type 0
KeepsId id n n' =
    (path : NodePath) → HasId id (mount_points_at n path) → HasId id (mount_points_at n' path)

pub of_same :
    (id : ℕ) (n n' : Node)
    → ((path : NodePath) → mount_points_at n' path ≡ mount_points_at n path)
    → KeepsId id n n'
of_same id n n' h path has = subst (HasId id) (sym (h path)) has

pub HasId-put_id {ℓ} :
    {A : Type ℓ} (id j : ℕ) (a : A) (es : List (ℕ × A)) → HasId j es → HasId j (put_id id a es)
unfolding find_id put_id
HasId-put_id id j a [] h = (h.0, ground (arith, h.1))
HasId-put_id id j a ((i, b) ∷ es) (c, h) = elim (Bool-cases (i == id)) [
  | inl e ↦
      rw e (elim (Bool-cases (i == j)) [ inl f ↦ (a, rw f refl) | inr f ↦ (c, rw f (rw f at h)) ])
  | inr e ↦ rw e (elim (Bool-cases (i == j)) [
    | inl f ↦ (b, rw f refl)
    | inr f ↦ let (d, g) = HasId-put_id id j a es (c, rw f at h) in (d, rw f g)
  ])
]

pub HasId-erase_id {ℓ} :
    {A : Type ℓ} (id j : ℕ) (es : List (ℕ × A))
    → (id == j) ≡ false
    → find_id j (erase_id id es) ≡ find_id j es
unfolding find_id erase_id
HasId-erase_id id j [] ne = refl
HasId-erase_id id j (e ∷ es) ne = ground (arith, HasId-erase_id id j es ne)

pub find_id-put_id_ne {ℓ} :
    {A : Type ℓ} (id j : ℕ) (a : A) (es : List (ℕ × A))
    → (id == j) ≡ false
    → find_id j (put_id id a es) ≡ find_id j es
unfolding find_id put_id
find_id-put_id_ne id j a [] ne = ground arith
find_id-put_id_ne id j a (e ∷ es) ne = ground (arith, find_id-put_id_ne id j a es ne)

pub put_mount_point-KeepsId :
    (id j : ℕ) (mp : MountPoint) (n : Node) → KeepsId j n (put_mount_point id mp n)
unfolding put_mount_point node_at
put_mount_point-KeepsId id j mp (node mps sts cs) [] h = HasId-put_id id j mp mps h
put_mount_point-KeepsId id j mp (node mps sts cs) (c ∷ path) h = h

pub erase_mount_point-KeepsId :
    (id j : ℕ) (n : Node) → (id == j) ≡ false → KeepsId j n (erase_mount_point id n)
unfolding erase_mount_point node_at
erase_mount_point-KeepsId id j (node mps sts cs) ne [] h = (h.0, HasId-erase_id id j mps ne ∙ h.1)
erase_mount_point-KeepsId id j (node mps sts cs) ne (c ∷ path) h = h

-- A write to a node, if it keeps what the node had.
pub replace_node-KeepsId :
    (j : ℕ) (n : Node) (at : NodePath) (new : Node)
    → KeepsId j (or_new (node_at n at)) new
    → KeepsId j n (replace_node n at new)
unfolding replace_node
replace_node-KeepsId j n [] new h path has = h path (unfold node_at in has)
replace_node-KeepsId j (node mps sts cs) (c ∷ at) new h [] has = unfold node_at in has
replace_node-KeepsId j (node mps sts cs) (c ∷ at) new h (d ∷ path) has =
    let child = replace_node (or_new (find_child c cs)) at new in
    let has' = subst (HasId j) (mount_points_at-child mps sts cs d path) has in
    rw
      (
        mount_points_at-child mps sts (put_child c child cs) d path,
        find_child-put_child c d child cs,
      )
      (elim (Bool-cases (bytes_eq c d)) [
        | inr e ↦ rw e has'
        | inl e ↦
            let same : d ≡ c = sym ((bytes_eq_iff c d).0 e) in
            rw e (
              replace_node-KeepsId j (or_new (find_child c cs)) at new
                (subst (λ x. KeepsId j x new) (or_new-child mps sts cs c at) h) path
                (subst (λ x. HasId j (mount_points_at (or_new (find_child x cs)) path)) same has'))
      ])
