-- ===== src/VirtualStorage/Tables/Writes.antt =====
-- What a write through a `Node*` does to the tree.
use mathlib.Core.Option.{map, some-injective}
use libkvs.Prelude.{
  ℕ, ◌≡◌, refl, sym, ap, ◌∙◌, Bool, Bytes, bytes_eq, bytes_eq_iff, bytes_eq_refl, Option, none,
  some, List, [], ◌∷◌, if◌then◌else◌, arith, Bool-cases, Option-cases, inl, inr,
}
use libkvs.VirtualStorage.{
  MountPoint, MountedStorage, Node, Children, node, find_child, put_child, NodePath, mount_points,
  StorageNode, storage_node,
}
use libkvs.VirtualStorage.Resolve.Laws.{node_at}
use libkvs.VirtualStorage.Mounting.{or_new, has_storage, unmount_node, unmount_children, ◌>>=◌}
use libkvs.VirtualStorage.Mounting.Paths.{or_new-node_at}
use libkvs.VirtualStorage.Mounting.Layers.{find_child-put_child, layers_at, layers_at-child}
use libkvs.VirtualStorage.Mounting.Unmount.{bind-some}
use libkvs.VirtualStorage.Tables.{
  find_id, put_id, erase_id, replace_node, put_mount_point, erase_mount_point,
}

-- The rest of a path, if it goes through a node or ends at it.
unfoldable pub below : NodePath → NodePath → Option NodePath
below [] path = some path
below (c ∷ cs) [] = none
below (c ∷ cs) (d ∷ ds) = if bytes_eq c d then below cs ds else none

abbrev pub layers_below : Node → Node → Option NodePath → NodePath → List MountedStorage
layers_below n new none path = layers_at n path
layers_below n new (some rest) path = layers_at new rest

pub find_id-put_id {ℓ} :
    {A : Type ℓ} (id : ℕ) (a : A) (es : List (ℕ × A)) → find_id id (put_id id a es) ≡ some a
unfolding find_id put_id
find_id-put_id id a [] = ground arith
find_id-put_id id a (e ∷ es) = ground (arith, find_id-put_id id a es)

pub find_id-erase_id {ℓ} :
    {A : Type ℓ} (id : ℕ) (es : List (ℕ × A)) → find_id id (erase_id id es) ≡ none
unfolding find_id erase_id
find_id-erase_id id [] = refl
find_id-erase_id id (e ∷ es) = ground (arith, find_id-erase_id id es)

-- The node is there after the write.
pub node_at-replace_node :
    (n : Node) (path : NodePath) (new : Node) → node_at (replace_node n path new) path ≡ some new
unfolding node_at replace_node
node_at-replace_node n [] new = refl
node_at-replace_node (node mps sts cs) (c ∷ path) new =
    let child = replace_node (or_new (find_child c cs)) path new in
    rw (find_child-put_child c c child cs, bytes_eq_refl c, node_at)
      (node_at-replace_node (or_new (find_child c cs)) path new)

layers_below-child :
    (mps : List (ℕ × MountPoint)) (sts : List MountedStorage) (cs : Children) (c : Bytes)
    (new : Node) (rest : Option NodePath) (path : NodePath)
    → layers_below (or_new (find_child c cs)) new rest path
      ≡ layers_below (node mps sts cs) new rest (c ∷ path)
layers_below-child mps sts cs c new none path = sym (layers_at-child mps sts cs c path)
layers_below-child mps sts cs c new (some rest) path = refl

pub layers_at-replace_node :
    (n : Node) (at : NodePath) (new : Node) (path : NodePath)
    → layers_at (replace_node n at new) path ≡ layers_below n new (below at path) path
unfolding replace_node below
layers_at-replace_node n [] new path = refl
layers_at-replace_node (node mps sts cs) (c ∷ at) new [] = unfold node_at in refl
layers_at-replace_node (node mps sts cs) (c ∷ at) new (d ∷ path) =
    let child = replace_node (or_new (find_child c cs)) at new in
    rw (layers_at-child mps sts (put_child c child cs) d path, find_child-put_child c d child cs)
      (elim (Bool-cases (bytes_eq c d)) [
        | inl e ↦
            let same : c ≡ d = (bytes_eq_iff c d).0 e in
            rw e (
              layers_at-replace_node (or_new (find_child c cs)) at new path
              ∙ layers_below-child mps sts cs c new (below at path) path
              ∙ ap (λ x. layers_below (node mps sts cs) new (below at path) (x ∷ path)) same)
        | inr e ↦ rw e (sym (layers_at-child mps sts cs d path))
      ])

-- The second write to a node is the one that counts.
pub layers_at-rewritten :
    (n : Node) (at : NodePath) (first second : Node) (path : NodePath)
    → ((rest : NodePath) → below at path ≡ some rest → layers_at second rest ≡ layers_at n path)
    → layers_at (replace_node (replace_node n at first) at second) path ≡ layers_at n path
layers_at-rewritten n at first second path h = elim (Option-cases (below at path)) [
  | inl e ↦ rw (
    layers_at-replace_node (replace_node n at first) at second path,
    e,
    layers_at-replace_node n at first path,
    e,
  )
  | inr (rest, e) ↦
      rw (layers_at-replace_node (replace_node n at first) at second path, e) (h rest e)
]

pub layers_at-put_mount_point :
    (id : ℕ) (mp : MountPoint) (n : Node) (path : NodePath)
    → layers_at (put_mount_point id mp n) path ≡ layers_at n path
unfolding put_mount_point node_at
layers_at-put_mount_point id mp (node mps sts cs) [] = refl
layers_at-put_mount_point id mp (node mps sts cs) (c ∷ path) = refl

pub layers_at-erase_mount_point :
    (id : ℕ) (n : Node) (path : NodePath)
    → layers_at (erase_mount_point id n) path ≡ layers_at n path
unfolding erase_mount_point node_at
layers_at-erase_mount_point id (node mps sts cs) [] = refl
layers_at-erase_mount_point id (node mps sts cs) (c ∷ path) = refl

pub or_new-child :
    (mps : List (ℕ × MountPoint)) (sts : List MountedStorage) (cs : Children) (c : Bytes)
    (at : NodePath)
    → or_new (node_at (node mps sts cs) (c ∷ at)) ≡ or_new (node_at (or_new (find_child c cs)) at)
or_new-child mps sts cs c at = elim (Option-cases (find_child c cs)) [
  | inl e ↦ rw (e, or_new-node_at at) (unfold node_at in rw (e, node_at))
  | inr (n, e) ↦ rw e (unfold node_at in rw (e, node_at))
]

-- The layers below a node are those of the node there.
pub layers_at-below :
    (n : Node) (at path rest : NodePath)
    → below at path ≡ some rest
    → layers_at n path ≡ layers_at (or_new (node_at n at)) rest
unfolding below node_at
layers_at-below n [] path rest e = ap (layers_at n) (some-injective path rest e)
layers_at-below n (c ∷ at) [] rest e = absurd (cc e)
layers_at-below (node mps sts cs) (c ∷ at) (d ∷ path) rest e = elim (Bool-cases (bytes_eq c d)) [
  | inr f ↦ absurd (cc (rw f at e))
  | inl f ↦
      let same : c ≡ d = (bytes_eq_iff c d).0 f in
      rw (layers_at-child mps sts cs d path, or_new-child mps sts cs c at)
        (ap (λ x. layers_at (or_new (find_child x cs)) path) (sym same)
          ∙ layers_at-below (or_new (find_child c cs)) at path rest (rw f at e))
]

pub mount_points-put_mount_point :
    (id : ℕ) (mp : MountPoint) (n : Node)
    → mount_points (put_mount_point id mp n) ≡ put_id id mp (mount_points n)
unfolding put_mount_point
mount_points-put_mount_point id mp (node mps sts cs) = refl

abbrev put_below {ℓ} : {R : Type ℓ} → ℕ → MountPoint → R × Node → R × Node
put_below id mp (r, n) = (r, put_mount_point id mp n)

-- An unmount leaves the mount points of a node.
pub unmount_node-put_mount_point :
    {R : Type 0} (release : R → ℕ → Bool × R) (id : ℕ) (mp : MountPoint) (r r' : R) (n n' : Node)
    (sn : StorageNode)
    → unmount_node release r n sn ≡ some (r', n')
    → unmount_node release r (put_mount_point id mp n) sn ≡ some (r', put_mount_point id mp n')
unfolding unmount_node put_mount_point
unmount_node-put_mount_point release id mp r r' (node mps sts cs) n' (storage_node v p st kids) h =
    elim (Bool-cases (has_storage st sts)) [
      | inr e ↦ absurd (cc (rw e at h))
      | inl e ↦ elim (Bool-cases (release r st).0) [
        | inr f ↦ absurd (cc (rw (e, f) at h))
        | inl f ↦
            let ((r1, cs'), done, eq) =
              bind-some (unmount_children release (release r st).1 cs kids) _ (r', n')
                (rw (e, f) at h) in
            rw (e, f, done, ◌>>=◌) (ap (map (put_below id mp)) eq)
      ]
    ]
