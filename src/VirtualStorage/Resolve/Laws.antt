-- ===== src/VirtualStorage/Resolve/Laws.antt =====
-- What the walk down the tree promises.
use libkvs.Prelude.{
  ◌≡◌, refl, Bytes, Option, none, some, List, [], ◌∷◌, ◌++◌, inl, inr, Option-cases,
}
use libkvs.MgMutex.{LockType}
use libkvs.StringUtils.{split, slash}
use libkvs.VirtualStorage.{Node, NodePath, children, find_child}
use libkvs.VirtualStorage.Resolve.{resolve_from, resolve_node}

-- The node at a path of names.
unfoldable pub node_at : Node → NodePath → Option Node
node_at n [] = some n
node_at n (comp ∷ comps) = elim (find_child comp (children n)) [
  | none ↦ none
  | some child ↦ node_at child comps
]

resolve_from-found :
    (type : LockType) (at : NodePath) (n : Node) (comps : List Bytes)
    → (resolve_from type at n comps).0 ≡ node_at n comps
unfolding resolve_from node_at
resolve_from-found type at n [] = refl
resolve_from-found type at n (comp ∷ comps) = elim (Option-cases (find_child comp (children n))) [
  | inl e ↦ rw (e, resolve_from, node_at)
  | inr (child, e) ↦
      rw (e, resolve_from, node_at) (resolve_from-found type (at ++ comp ∷ []) child comps)
]

-- The walk finds the node that the names of the path lead to, whatever locks it takes.
pub resolve_node-found :
    (root : Node) (path : Bytes) (type : LockType)
    → (resolve_node root path type).0 ≡ node_at root (split path slash)
unfolding resolve_node
resolve_node-found root path type = resolve_from-found type [] root (split path slash)
