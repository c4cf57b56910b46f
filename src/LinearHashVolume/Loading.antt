-- ===== src/LinearHashVolume/Loading.antt =====
-- What a load gives: a copy of the subtree with the storages, made once.
use mathlib.Core.Option.{some-injective}
use libkvs.Prelude.{
  ℕ, Bool, ap, sym, ◌≡◌, refl, ◌++◌, Bytes, bytes_eq, Option, none, some, List, [], ◌∷◌,
  Option-cases, inl, inr, Bool-cases,
}
use libkvs.StringUtils.{slash}
use libkvs.VirtualStorage.{HashTableParams, StorageNode, StorageNodes, storage_node}
use libkvs.VirtualStorage.Mounting.Layers.{storage_at, find_storage_node}
use libkvs.VirtualStorage.Mounting.Unmount.{bind-some}
use libkvs.LinearHashVolume.{
  TreeNode, TreeNodes, tree_node, no_tree_nodes, tree_child, find_tree, storage_of, Storages,
  tree_at, load_tree, load_trees, storage_for, StorageParams,
}

abbrev storage_of_found : Option TreeNode → Option ℕ
storage_of_found none = none
storage_of_found (some t) = storage_of t

-- The storage that the volume's tree has at a path below a node.
abbrev pub tree_storage_at : TreeNode → List Bytes → Option ℕ
tree_storage_at t path = storage_of_found (tree_at t path)

module _ (makes : Storages → StorageParams → Bool) (params : HashTableParams) (volume : Bytes) where
  -- What a load makes of a child: both results have it, or neither.
  abbrev Loaded : Option StorageNode → Option TreeNode → Type 0
  Loaded (some n) (some t) =
      (before : TreeNode) × (path : Bytes) × (made : Storages) × (made' : Storages) × (load_tree
          makes params volume before path made
        ≡ some (n, t, made'))
  Loaded none none = Unit
  Loaded _ _ = ⊥

  find-load_trees :
      (j : Bytes) (kids kids' : TreeNodes) (nodes : StorageNodes) (path : Bytes)
      (made made' : Storages)
      → load_trees makes params volume kids path made ≡ some (nodes, kids', made')
      → Loaded (find_storage_node j nodes) (find_tree j kids')
  unfolding load_tree find_storage_node find_tree
  find-load_trees j no_tree_nodes kids' nodes path made made' h =
      let same = some-injective _ _ h in
      rw
        (
          ← ap (λ (x : StorageNodes × TreeNodes × Storages). x.0) same,
          ← ap (λ (x : StorageNodes × TreeNodes × Storages). x.1) same,
        )
        tt
  find-load_trees j (tree_child name child others) kids' nodes path made made' h =
      let below = path ++ slash ∷ name in
      let (first, loaded, h1) = bind-some (load_tree makes params volume child below made) _ _ h in
      let (rest, last, h2) =
        bind-some (load_trees makes params volume others path first.2) _ _ h1 in
      let same = some-injective _ _ h2 in
      let later = find-load_trees j others rest.1 rest.0 path first.2 rest.2 last in
      rw
        (
          ← ap (λ (x : StorageNodes × TreeNodes × Storages). x.0) same,
          ← ap (λ (x : StorageNodes × TreeNodes × Storages). x.1) same,
        )
        (elim (Bool-cases (bytes_eq name j)) [
          | inl e ↦ rw e (child, below, made, first.2, loaded)
          | inr e ↦ rw e later
        ])

  below_child :
      (c : Bytes) (rest : List Bytes) (v q p o : Bytes) (s : ℕ) (st : Option ℕ)
      (nodes : StorageNodes) (kids : TreeNodes)
      → Loaded (find_storage_node c nodes) (find_tree c kids)
      → ((t t' : TreeNode) (n : StorageNode) (path : Bytes) (made made' : Storages)
          → load_tree makes params volume t path made ≡ some (n, t', made')
          → storage_at n rest ≡ tree_storage_at t' rest)
      → storage_at (storage_node v q s nodes) (c ∷ rest)
        ≡ tree_storage_at (tree_node p o st kids) (c ∷ rest)
  unfolding storage_at tree_at
  below_child c rest v q p o s st nodes kids both ih =
      elim (Option-cases (find_storage_node c nodes)) [
        | inl e ↦ elim (Option-cases (find_tree c kids)) [
          | inl f ↦ rw (e, f, storage_at, tree_at)
          | inr (t, f) ↦ absurd (rw (e, f) at both)
        ]
        | inr (n, e) ↦ elim (Option-cases (find_tree c kids)) [
          | inl f ↦ absurd (rw (e, f) at both)
          | inr (t, f) ↦
              let (before, path, made, made', loaded) = rw (e, f) at both in
              rw (e, f, storage_at, tree_at) (ih before t n path made made' loaded)
        ]
      ]

  -- What a load has done at a node.
  load_tree-parts :
      (p o path : Bytes) (storage : Option ℕ) (kids : TreeNodes) (t' : TreeNode) (n : StorageNode)
      (made made' : Storages)
      → load_tree makes params volume (tree_node p o storage kids) path made ≡ some (n, t', made')
      → (st : ℕ) × (nodes : StorageNodes) × (kids' : TreeNodes) × (n
          ≡ storage_node volume path st nodes)
        × (t' ≡ tree_node p o (some st) kids')
        × ((c : Bytes) → Loaded (find_storage_node c nodes) (find_tree c kids'))
  unfolding load_tree
  load_tree-parts p o path storage kids t' n made made' h =
      let (first, found, h1) = bind-some (storage_for makes storage _ made) _ _ h in
      let (rest, last, h2) = bind-some (load_trees makes params volume kids path first.1) _ _ h1 in
      let same = some-injective _ _ h2 in
      (
        first.0,
        rest.0,
        rest.1,
        sym (ap (λ (x : StorageNode × TreeNode × Storages). x.0) same),
        sym (ap (λ (x : StorageNode × TreeNode × Storages). x.1) same),
        λ c. find-load_trees c kids rest.1 rest.0 path first.1 rest.2 last,
      )

  -- Whenever a load gives a subtree, the subtree has, at each path, the storage that the volume
  -- then has there, and no others.
  pub storage_at-load_tree :
      (t t' : TreeNode) (n : StorageNode) (path : Bytes) (made made' : Storages)
      (below : List Bytes)
      → load_tree makes params volume t path made ≡ some (n, t', made')
      → storage_at n below ≡ tree_storage_at t' below
  unfolding storage_at tree_at
  storage_at-load_tree (tree_node p o storage kids) t' n path made made' [] h =
      let (st, nodes, kids', en, et, both) =
        load_tree-parts p o path storage kids t' n made made' h in
      rw (en, et) refl
  storage_at-load_tree (tree_node p o storage kids) t' n path made made' (c ∷ below) h =
      let (st, nodes, kids', en, et, both) =
        load_tree-parts p o path storage kids t' n made made' h in
      rw (en, et)
        (below_child c below volume path p o st (some st) nodes kids' (both c)
          (λ t u m q i i' e. storage_at-load_tree t u m q i i' below e))
