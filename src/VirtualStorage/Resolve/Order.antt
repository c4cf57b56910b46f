-- ===== src/VirtualStorage/Resolve/Order.antt =====
-- In which order a walk down the tree takes its locks.
use libkvs.Prelude.{
  ℕ, suc, ◌≡◌, refl, ap, Bytes, none, some, List, [], ◌∷◌, ◌++◌, map, take, inl, inr, Option-cases,
}
use libkvs.MgMutex.{LockType}
use libkvs.StringUtils.{split, slash}
use libkvs.VirtualStorage.{Node, NodePath, children, find_child}
use libkvs.VirtualStorage.Resolve.{HeldLock, resolve_from, resolve_node}

-- The paths of the nodes from `at` down along some names.
abbrev pub nodes_along : NodePath → List Bytes → List NodePath
nodes_along at [] = at ∷ []
nodes_along at (comp ∷ comps) = at ∷ nodes_along (at ++ comp ∷ []) comps

-- How many of the names lead to nodes.
unfoldable pub depth : Node → List Bytes → ℕ
depth n [] = 0
depth n (comp ∷ comps) = elim (find_child comp (children n)) [
  | none ↦ 0
  | some child ↦ suc (depth child comps)
]

abbrev pub held_as : LockType → NodePath → HeldLock
held_as type path = record { node = path; type = type }

resolve_from-locks :
    (type : LockType) (at : NodePath) (n : Node) (comps : List Bytes)
    → held_as type at ∷ (resolve_from type at n comps).1
      ≡ map (held_as type) (take (suc (depth n comps)) (nodes_along at comps))
unfolding resolve_from depth
resolve_from-locks type at n [] = refl
resolve_from-locks type at n (comp ∷ comps) = elim (Option-cases (find_child comp (children n))) [
  | inl e ↦ rw (e, resolve_from, depth)
  | inr (child, e) ↦
      rw (e, resolve_from, depth)
        (ap (λ (l : List HeldLock). held_as type at ∷ l)
          (resolve_from-locks type (at ++ comp ∷ []) child comps))
]

-- A walk locks the root and then the nodes along the path, each in the same mode and each before
-- the node below it, down to the last node that is there.
pub resolve_node-locks :
    (root : Node) (path : Bytes) (type : LockType)
    → (resolve_node root path type).1
      ≡ map
          (held_as type)
          (take (suc (depth root (split path slash))) (nodes_along [] (split path slash)))
unfolding resolve_node
resolve_node-locks root path type = resolve_from-locks type [] root (split path slash)
