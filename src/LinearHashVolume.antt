-- ===== src/LinearHashVolume.antt =====
-- src/linear_hashing/LinearHashVolume.hpp, LinearHashVolume.cpp, Node.hpp, src/IVolume.hpp: a volume,
-- which is a tree of nodes with two files each, and the storages that are open. A pointer to a storage
-- is its number in the order of creation.
pub mod Json
pub mod Volume
pub mod Tree
pub mod Loading
pub mod Opening
pub mod Sample
mod Tests
use libkvs.Prelude.{
  ℕ, zero, suc, ◌||◌, Bytes, bytes, bytes_eq, Bool, true, false, Option, none, some, List, [], ◌∷◌,
  ◌++◌, if◌then◌else◌, length,
}
use libkvs.StringUtils.{split, slash}
use libkvs.VirtualStorage.{
  HashTableParams, StorageNode, StorageNodes, storage_node, no_storage_nodes, storage_child,
}

-- TreeNode, with the members of its Node (src/linear_hashing/Node.hpp).
mutual
  pub data TreeNode : Type 0 where
    tree_node :
        (primary_filepath overflow_filepath : Bytes) (storage : Option ℕ) (children : TreeNodes)
        → TreeNode

  pub data TreeNodes : Type 0 where
    no_tree_nodes : TreeNodes
    tree_child : (name : Bytes) (child : TreeNode) (others : TreeNodes) → TreeNodes

-- LinearHashStorageParams
pub record StorageParams : Type 0 where
  pub primary_filepath : Bytes
  pub overflow_filepath : Bytes
  pub hash_table_params : HashTableParams

-- The storages that were ever made, the last one first.
abbrev pub Storages : Type 0
Storages = List StorageParams

abbrev pub storage_of : TreeNode → Option ℕ
storage_of (tree_node p o st kids) = st

abbrev pub subtrees : TreeNode → TreeNodes
subtrees (tree_node p o st kids) = kids

-- children.find, and `children.emplace` or the change of the child found.
unfoldable pub find_tree : Bytes → TreeNodes → Option TreeNode
find_tree name no_tree_nodes = none
find_tree name (tree_child j child others) =
    if bytes_eq j name then some child else find_tree name others

unfoldable pub put_tree : Bytes → TreeNode → TreeNodes → TreeNodes
put_tree name child no_tree_nodes = tree_child name child no_tree_nodes
put_tree name child (tree_child j old others) =
    if bytes_eq j name
    then tree_child j child others
    else tree_child j old (put_tree name child others)

-- What the code uses of libs/teenypath: `filename`, `parent_path` and `/`.
pub record PathOps : Type 0 where
  pub filename : Bytes → Bytes
  pub parent_path : Bytes → Bytes
  pub join : Bytes → Bytes → Bytes

-- `name.append("_")` unless it is empty, and `name.append(comp)`.
unfoldable pub extend_name : Bytes → Bytes → Bytes
extend_name [] comp = comp
extend_name (c ∷ cs) comp = (c ∷ cs) ++ bytes "_" ++ comp

abbrev pub is_none {ℓ} : {A : Type ℓ} → Option A → Bool
is_none none = true
is_none (some a) = false

module _ (P : PathOps) (parent_path volume_name : Bytes) where
  unfoldable pub new_tree_node : Bytes → TreeNode
  new_tree_node name =
      tree_node (P.join parent_path (volume_name ++ bytes "_primary_" ++ name))
        (P.join parent_path (volume_name ++ bytes "_overflow_" ++ name)) none no_tree_nodes

  abbrev pub tree_or_new : Option TreeNode → Bytes → TreeNode
  tree_or_new none name = new_tree_node name
  tree_or_new (some t) name = t

  -- findTreeNode: the tree with the nodes of the path, and whether one was made. `name` is the name
  -- of the node where the walk stands.
  unfoldable pub find_tree_node : TreeNode → Bytes → List Bytes → TreeNode × Bool
  find_tree_node t name [] = (t, false)
  find_tree_node (tree_node p o st kids) name (comp ∷ comps) =
      let found = find_tree comp kids in
      let (child, made) =
        find_tree_node (tree_or_new found (extend_name name comp)) (extend_name name comp) comps in
      (tree_node p o st (put_tree comp child kids), is_none found || made)

-- The `TreeNode*` that it returns: the node at the path.
unfoldable pub tree_at : TreeNode → List Bytes → Option TreeNode
tree_at t [] = some t
tree_at t (comp ∷ comps) = elim (find_tree comp (subtrees t)) [
  | none ↦ none
  | some child ↦ tree_at child comps
]

-- A write through that pointer.
unfoldable pub change_tree : TreeNode → List Bytes → TreeNode → TreeNode
change_tree t [] new = new
change_tree (tree_node p o st kids) (comp ∷ comps) new = elim (find_tree comp kids) [
  | none ↦ tree_node p o st kids
  | some child ↦ tree_node p o st (put_tree comp (change_tree child comps new) kids)
]

infixl 5 ◌>>=◌
abbrev pub ◌>>=◌ {ℓ κ} : {A : Type ℓ} {B : Type κ} → Option A → (A → Option B) → Option B
none >>= f = none
some a >>= f = f a

-- The storage of a node, made if there is none. `makes` is whether the constructor of LinearHashStorage
-- returns, after the storages that were made; its exceptions, for parameters that the table refuses or
-- files that do not open, are `none`.
abbrev pub storage_for :
    (Storages → StorageParams → Bool) → Option ℕ → StorageParams → Storages → Option (ℕ × Storages)
storage_for makes none params made =
    if makes made params then some (length made, params ∷ made) else none
storage_for makes (some st) params made = some (st, made)

-- The private `loadStorage`.
module _ (makes : Storages → StorageParams → Bool) (params : HashTableParams) (volume : Bytes) where
  unfoldable mutual
    pub load_tree : TreeNode → Bytes → Storages → Option (StorageNode × TreeNode × Storages)
    load_tree (tree_node p o storage kids) path made =
        storage_for makes storage
          (record { primary_filepath = p; overflow_filepath = o; hash_table_params = params }) made
        >>= λ first. load_trees kids path first.1 >>= λ rest.
            some
              (storage_node volume path first.0 rest.0, tree_node p o (some first.0) rest.1, rest.2)

    pub load_trees : TreeNodes → Bytes → Storages → Option (StorageNodes × TreeNodes × Storages)
    load_trees no_tree_nodes path made = some (no_storage_nodes, no_tree_nodes, made)
    load_trees (tree_child name child others) path made =
        load_tree child (path ++ slash ∷ name) made >>= λ first.
        load_trees others path first.2 >>= λ rest.
        some (storage_child name first.0 rest.0, tree_child name first.1 rest.1, rest.2)
