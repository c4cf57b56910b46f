-- ===== src/VirtualStorage/Mounting/Layers.antt =====
-- What a mount does to the layers of each node of the tree.
use libkvs.Prelude.{
  ℕ, ◌≡◌, refl, sym, ap, ◌∙◌, subst, Bytes, bytes_eq, bytes_eq_iff, Option, none, some, List, [],
  ◌∷◌, if◌then◌else◌, arith, Bool-cases, Option-cases, inl, inr,
}
use libkvs.Prelude.Int.{ℤ}
use libkvs.VirtualStorage.{
  StorageNode, StorageNodes, storage_node, no_storage_nodes, storage_child, MountedStorage,
  MountPoint, Node, Children, node, no_children, child_entry, empty_node, find_child, put_child,
  storages, NodePath,
}
use libkvs.VirtualStorage.Resolve.Laws.{node_at}
use libkvs.VirtualStorage.Mounting.{insert_storage, or_new, mount_node, mount_children}

pub find_child-put_child :
    (name j : Bytes) (n : Node) (cs : Children)
    → find_child j (put_child name n cs) ≡ (if bytes_eq name j then some n else find_child j cs)
unfolding find_child put_child
find_child-put_child name j n no_children = refl
find_child-put_child name j n (child_entry i old others) = ground (
  arith,
  find_child-put_child name j n others,
  bytes_eq_iff i name,
  bytes_eq_iff i j,
  bytes_eq_iff name j,
)

-- children.find of a StorageNode
unfoldable pub find_storage_node : Bytes → StorageNodes → Option StorageNode
find_storage_node name no_storage_nodes = none
find_storage_node name (storage_child j child others) =
    if bytes_eq j name then some child else find_storage_node name others

abbrev pub subnodes : StorageNode → StorageNodes
subnodes (storage_node v p st kids) = kids

abbrev pub storage_of : StorageNode → ℕ
storage_of (storage_node v p st kids) = st

-- The names of a map differ.
unfoldable mutual
  pub UniqueNames : StorageNode → Type 0
  UniqueNames (storage_node v p st kids) = UniqueChildren kids

  pub UniqueChildren : StorageNodes → Type 0
  UniqueChildren no_storage_nodes = Unit {0}
  UniqueChildren (storage_child name child others) =
      (find_storage_node name others ≡ none) × UniqueNames child × UniqueChildren others

-- The storage that a subtree has at a path.
unfoldable pub storage_at : StorageNode → NodePath → Option ℕ
storage_at sn [] = some (storage_of sn)
storage_at sn (c ∷ cs) = elim (find_storage_node c (subnodes sn)) [
  | none ↦ none
  | some child ↦ storage_at child cs
]

abbrev pub found_layers : Option Node → List MountedStorage
found_layers none = []
found_layers (some k) = storages k

-- The layers of the node at a path; a missing node has none.
abbrev pub layers_at : Node → NodePath → List MountedStorage
layers_at n path = found_layers (node_at n path)

-- Mounting adds a layer where the subtree has a storage, and only there.
abbrev pub with_storage : Option ℕ → ℤ → List MountedStorage → List MountedStorage
with_storage none priority ms = ms
with_storage (some st) priority ms =
    insert_storage (record { storage = st; priority = priority }) ms

abbrev mounted_child : Option StorageNode → ℤ → Option Node → Option Node
mounted_child none priority found = found
mounted_child (some sn) priority found = some (mount_node (or_new found) sn priority)

-- Of the children, a mount changes or makes those that the subtree names.
pub find_child-mount_children :
    (j : Bytes) (cs : Children) (kids : StorageNodes) (priority : ℤ)
    → UniqueChildren kids
    → find_child j (mount_children cs kids priority)
      ≡ mounted_child (find_storage_node j kids) priority (find_child j cs)
unfolding mount_node find_storage_node UniqueNames
find_child-mount_children j cs no_storage_nodes priority u = refl
find_child-mount_children j cs (storage_child name child others) priority u =
    let new = mount_node (or_new (find_child name cs)) child priority in
    rw
      (
        find_child-mount_children j (put_child name new cs) others priority u.2,
        find_child-put_child name j new cs,
      )
      (elim (Bool-cases (bytes_eq name j)) [
        | inl e ↦
            let same : name ≡ j = (bytes_eq_iff name j).0 e in
            let last : find_storage_node j others ≡ none =
              subst (λ x. find_storage_node x others ≡ none) same u.0 in
            rw (e, last)
              (ap (λ x. some (mount_node (or_new (find_child x cs)) child priority)) same)
        | inr e ↦ rw e
      ])

pub find_storage_node-UniqueNames :
    (j : Bytes) (kids : StorageNodes) (sn : StorageNode)
    → UniqueChildren kids
    → find_storage_node j kids ≡ some sn
    → UniqueNames sn
unfolding find_storage_node UniqueNames
find_storage_node-UniqueNames j no_storage_nodes sn u e = absurd (cc e)
find_storage_node-UniqueNames j (storage_child name child others) sn u e =
    elim (Bool-cases (bytes_eq name j)) [
      | inl hit ↦ let same : child ≡ sn = ground arith in subst UniqueNames same u.1
      | inr miss ↦ find_storage_node-UniqueNames j others sn u.2 (rw miss at e)
    ]

pub layers_at-empty : (path : NodePath) → layers_at empty_node path ≡ []
unfolding node_at find_child
layers_at-empty [] = refl
layers_at-empty (c ∷ path) = refl

pub layers_at-child :
    (mps : List (ℕ × MountPoint)) (sts : List MountedStorage) (cs : Children) (c : Bytes)
    (path : NodePath)
    → layers_at (node mps sts cs) (c ∷ path) ≡ layers_at (or_new (find_child c cs)) path
layers_at-child mps sts cs c path = elim (Option-cases (find_child c cs)) [
  | inl e ↦ rw (e, layers_at-empty path) (unfold node_at in rw (e, node_at))
  | inr (n, e) ↦ rw e (unfold node_at in rw (e, node_at))
]

-- After a mount of a subtree in which siblings have different names, the layers at each path are
-- those before, with the storage that the subtree has there put in by its priority.
pub layers_at-mount_node :
    (n : Node) (sn : StorageNode) (priority : ℤ) (path : NodePath)
    → UniqueNames sn
    → layers_at (mount_node n sn priority) path
      ≡ with_storage (storage_at sn path) priority (layers_at n path)
unfolding mount_node node_at storage_at
layers_at-mount_node (node mps sts cs) (storage_node v p st kids) priority [] u = refl
layers_at-mount_node (node mps sts cs) (storage_node v p st kids) priority (c ∷ path) u =
    rw (find_child-mount_children c cs kids priority (unfold UniqueNames in u), node_at)
      (elim (Option-cases (find_storage_node c kids)) [
        | inl e ↦ rw (e, storage_at)
        | inr (sn, e) ↦
            rw (e, storage_at)
              (layers_at-mount_node (or_new (find_child c cs)) sn priority path
                  (find_storage_node-UniqueNames c kids sn (unfold UniqueNames in u) e)
                ∙ ap (with_storage (storage_at sn path) priority)
                    (sym (layers_at-child mps sts cs c path)))
      ])
