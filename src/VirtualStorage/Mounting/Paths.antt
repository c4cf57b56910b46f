-- ===== src/VirtualStorage/Mounting/Paths.antt =====
-- `createNodesForPath`: the nodes down to a mount point. The node that it returns is the one at the
-- path.
use libkvs.Prelude.{
  ◌≡◌, refl, ap, ◌∙◌, Bytes, bytes_eq, bytes_eq_iff, bytes_eq_refl, Option, none, some, List, [],
  ◌∷◌, Bool-cases, inl, inr,
}
use libkvs.StringUtils.{split, slash}
use libkvs.VirtualStorage.{
  Node, node, empty_node, find_child, put_child, storages, NodePath, mount_points, children,
}
use libkvs.VirtualStorage.Resolve.Laws.{node_at}
use libkvs.VirtualStorage.Mounting.{or_new}
use libkvs.VirtualStorage.Mounting.Layers.{find_child-put_child, layers_at, layers_at-child}

unfoldable pub create_nodes : Node → List Bytes → Node
create_nodes n [] = n
create_nodes n (comp ∷ comps) =
    node (mount_points n) (storages n)
      (put_child comp (create_nodes (or_new (find_child comp (children n))) comps) (children n))

unfoldable pub create_nodes_for_path : Node → Bytes → Node
unfolding create_nodes
create_nodes_for_path root path = create_nodes root (split path slash)

pub or_new-node_at : (path : NodePath) → or_new (node_at empty_node path) ≡ empty_node
unfolding node_at find_child
or_new-node_at [] = refl
or_new-node_at (c ∷ path) = refl

create_nodes-node_at :
    (n : Node) (path : NodePath)
    → node_at (create_nodes n path) path ≡ some (or_new (node_at n path))
unfolding create_nodes node_at
create_nodes-node_at n [] = refl
create_nodes-node_at n (comp ∷ comps) =
    rw
      (
        find_child-put_child comp comp (create_nodes (or_new (find_child comp (children n))) comps)
            (children n),
        bytes_eq_refl comp,
        node_at,
      )
      (create_nodes-node_at (or_new (find_child comp (children n))) comps
        ∙ ap (λ (k : Node). some k) (known (find_child comp (children n))))
  where
    known :
        (o : Option Node)
        → or_new (node_at (or_new o) comps)
          ≡ or_new (elim o [ none ↦ none | some child ↦ node_at child comps ])
    known none = or_new-node_at comps
    known (some k) = refl

create_nodes-layers_at :
    (n : Node) (made path : NodePath) → layers_at (create_nodes n made) path ≡ layers_at n path
unfolding create_nodes
create_nodes-layers_at n [] path = refl
create_nodes-layers_at (node mps sts cs) (comp ∷ comps) [] = unfold node_at in refl
create_nodes-layers_at (node mps sts cs) (comp ∷ comps) (c ∷ path) =
    let new = create_nodes (or_new (find_child comp cs)) comps in
    rw
      (
        layers_at-child mps sts (put_child comp new cs) c path,
        layers_at-child mps sts cs c path,
        find_child-put_child comp c new cs,
      )
      (elim (Bool-cases (bytes_eq comp c)) [
        | inl e ↦
            let same : comp ≡ c = (bytes_eq_iff comp c).0 e in
            rw e (
              create_nodes-layers_at (or_new (find_child comp cs)) comps path
              ∙ ap (λ x. layers_at (or_new (find_child x cs)) path) same)
        | inr e ↦ rw e
      ])

-- After the nodes for a mount path are made, the path leads to a node, the one that was there or
-- else an empty one, and the layers at every path are as before.
pub create_nodes_for_path-node_at :
    (root : Node) (mount_path : Bytes)
    → (node_at (create_nodes_for_path root mount_path) (split mount_path slash)
        ≡ some (or_new (node_at root (split mount_path slash))))
      × ((path : NodePath)
          → layers_at (create_nodes_for_path root mount_path) path ≡ layers_at root path)
unfolding create_nodes_for_path
create_nodes_for_path-node_at root mount_path = (
  create_nodes-node_at root (split mount_path slash),
  create_nodes-layers_at root (split mount_path slash),
)
