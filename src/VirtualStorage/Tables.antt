-- ===== src/VirtualStorage/Tables.antt =====
-- The tables of VirtualStorage, and writes through a `Node*` (src/VirtualStorage.hpp,
-- VirtualStorage.cpp).
pub mod Writes
pub mod Kept
use libkvs.Prelude.{
  ℕ, ◌==◌, Bytes, bytes_eq, Option, none, some, List, [], ◌∷◌, ◌++◌, if◌then◌else◌,
}
use libkvs.VirtualStorage.{NodePath, MountPoint, Node, node, find_child, put_child}
use libkvs.VirtualStorage.Mounting.{or_new}

-- An unordered_map with numbers as keys: find, `m[k] = v`, erase.
unfoldable pub find_id {ℓ} : {A : Type ℓ} → ℕ → List (ℕ × A) → Option A
find_id i [] = none
find_id i ((j, a) ∷ es) = if j == i then some a else find_id i es

unfoldable pub put_id {ℓ} : {A : Type ℓ} → ℕ → A → List (ℕ × A) → List (ℕ × A)
put_id i new [] = (i, new) ∷ []
put_id i new ((j, a) ∷ es) = if j == i then (j, new) ∷ es else (j, a) ∷ put_id i new es

unfoldable pub erase_id {ℓ} : {A : Type ℓ} → ℕ → List (ℕ × A) → List (ℕ × A)
erase_id i [] = []
erase_id i ((j, a) ∷ es) = if j == i then erase_id i es else (j, a) ∷ erase_id i es

-- The mount points of each volume: `m_volumesToNodeMountPointsMap`, its `find` and the
-- `[volume].push_back(node)`.
unfoldable pub nodes_of_volume : Bytes → List (Bytes × List NodePath) → List NodePath
nodes_of_volume volume [] = []
nodes_of_volume volume ((j, ps) ∷ rest) =
    if bytes_eq j volume then ps else nodes_of_volume volume rest

unfoldable pub push_node :
    Bytes → NodePath → List (Bytes × List NodePath) → List (Bytes × List NodePath)
push_node volume path [] = (volume, path ∷ []) ∷ []
push_node volume path ((j, ps) ∷ rest) =
    if bytes_eq j volume then (j, ps ++ path ∷ []) ∷ rest else (j, ps) ∷ push_node volume path rest

-- A write through a `Node*`.
unfoldable pub replace_node : Node → NodePath → Node → Node
replace_node n [] new = new
replace_node (node mps sts cs) (comp ∷ comps) new =
    node mps sts (put_child comp (replace_node (or_new (find_child comp cs)) comps new) cs)

-- `node->mountPoints[id] = mountPoint` and `mountPoints.erase`.
unfoldable pub put_mount_point : ℕ → MountPoint → Node → Node
unfolding put_id
put_mount_point id mp (node mps sts cs) = node (put_id id mp mps) sts cs

unfoldable pub erase_mount_point : ℕ → Node → Node
unfolding erase_id
erase_mount_point id (node mps sts cs) = node (erase_id id mps) sts cs
