-- ===== src/VirtualStorage/Resolve.antt =====
-- `resolveNode`: the walk down the tree, and the locks that it takes on its way.
pub mod Laws
pub mod Order
use libkvs.Prelude.{ℕ, ◌≡◌, refl, Bytes, Option, none, some, List, [], ◌∷◌, ◌++◌}
use libkvs.MgMutex.{LockType}
use libkvs.StringUtils.{split, slash}
use libkvs.VirtualStorage.{Node, NodePath, children, find_child}

-- A lock that MGMultiLockGuard holds: the node whose mutex it is, and the type.
pub record HeldLock : Type 0 where
  pub node : NodePath
  pub type : LockType

-- The node, or none, and the locks in the order in which they are taken.
abbrev pub Resolved : Type 0
Resolved = Option Node × List HeldLock

-- `at` is the path of the node where the walk stands.
resolve_from : LockType → NodePath → Node → List Bytes → Resolved
resolve_from type at n [] = (some n, [])
resolve_from type at n (comp ∷ comps) = elim (find_child comp (children n)) [
  | none ↦ (none, [])
  | some child ↦
      let (found, locks) = resolve_from type (at ++ comp ∷ []) child comps in
      (found, record { node = at ++ comp ∷ []; type = type } ∷ locks)
]

unfoldable pub resolve_node : Node → Bytes → LockType → Resolved
unfolding resolve_from
resolve_node root path type =
    let (found, locks) = resolve_from type [] root (split path slash) in
    (found, record { node = []; type = type } ∷ locks)

-- ~MGMultiLockGuard: `pop_back` until the list is empty, so the last lock goes first.
unfoldable pub release_order : List HeldLock → List HeldLock
release_order [] = []
release_order (lock ∷ locks) = release_order locks ++ lock ∷ []
