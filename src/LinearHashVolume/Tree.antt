-- ===== src/LinearHashVolume/Tree.antt =====
-- What `findTreeNode` does to the tree of a volume.
use libkvs.Prelude.{
  ℕ, ◌≡◌, refl, Bytes, bytes, bytes_eq, bytes_eq_iff, bytes_eq_refl, Bool, Option, none, some, List,
  [], ◌∷◌, ◌++◌, if◌then◌else◌, arith, Bool-cases, Option-cases, inl, inr,
}
use libkvs.LinearHashVolume.{
  TreeNode, TreeNodes, tree_node, no_tree_nodes, tree_child, find_tree, put_tree, PathOps,
  extend_name, is_none, new_tree_node, tree_or_new, find_tree_node, tree_at,
}

pub find_tree-put_tree :
    (name j : Bytes) (t : TreeNode) (kids : TreeNodes)
    → find_tree j (put_tree name t kids) ≡ (if bytes_eq name j then some t else find_tree j kids)
unfolding find_tree put_tree
find_tree-put_tree name j t no_tree_nodes = refl
find_tree-put_tree name j t (tree_child i old others) = ground (
  arith,
  find_tree-put_tree name j t others,
  bytes_eq_iff i name,
  bytes_eq_iff i j,
  bytes_eq_iff name j,
)

-- The files and the storage of a node.
abbrev pub entry_of : TreeNode → Bytes × Bytes × Option ℕ
entry_of (tree_node p o st kids) = (p, o, st)

abbrev pub found_entry : Option TreeNode → Option (Bytes × Bytes × Option ℕ)
found_entry none = none
found_entry (some t) = some (entry_of t)

abbrev pub entry_at : TreeNode → List Bytes → Option (Bytes × Bytes × Option ℕ)
entry_at t path = found_entry (tree_at t path)

abbrev child_entry : Option TreeNode → List Bytes → Option (Bytes × Bytes × Option ℕ)
child_entry none path = none
child_entry (some t) path = entry_at t path

pub entry_at-child :
    (p o : Bytes) (st : Option ℕ) (kids : TreeNodes) (c : Bytes) (path : List Bytes)
    → entry_at (tree_node p o st kids) (c ∷ path) ≡ child_entry (find_tree c kids) path
entry_at-child p o st kids c path = elim (Option-cases (find_tree c kids)) [
  | inl e ↦ rw e (unfold tree_at in rw (e, tree_at))
  | inr (t, e) ↦ rw e (unfold tree_at in rw (e, tree_at))
]

module _ (P : PathOps) (parent_path volume_name : Bytes) where
  abbrev find_node : TreeNode → Bytes → List Bytes → TreeNode × Bool
  find_node = find_tree_node P parent_path volume_name

  -- The node is there.
  tree_at-find_tree_node :
      (t : TreeNode) (name : Bytes) (comps : List Bytes)
      → (n : TreeNode) × (tree_at (find_node t name comps).0 comps ≡ some n)
  unfolding find_tree_node tree_at
  tree_at-find_tree_node t name [] = (t, refl)
  tree_at-find_tree_node (tree_node p o st kids) name (comp ∷ comps) =
      let from =
        tree_or_new P parent_path volume_name (find_tree comp kids) (extend_name name comp) in
      let (n, e) = tree_at-find_tree_node from (extend_name name comp) comps in
      (
        n,
        rw
            (
              find_tree-put_tree comp comp (find_node from (extend_name name comp) comps).0 kids,
              bytes_eq_refl comp,
              tree_at,
            )
            e,
      )

  -- What was there stays as it was.
  entry_at-find_tree_node :
      (t : TreeNode) (name : Bytes) (comps path : List Bytes) (e : Bytes × Bytes × Option ℕ)
      → entry_at t path ≡ some e
      → entry_at (find_node t name comps).0 path ≡ some e
  unfolding find_tree_node
  entry_at-find_tree_node t name [] path e h = h
  entry_at-find_tree_node (tree_node p o st kids) name (comp ∷ comps) [] e h = unfold tree_at in h
  entry_at-find_tree_node (tree_node p o st kids) name (comp ∷ comps) (c ∷ path) e h =
      let from =
        tree_or_new P parent_path volume_name (find_tree comp kids) (extend_name name comp) in
      let made = (find_node from (extend_name name comp) comps).0 in
      let h' = rw (entry_at-child p o st kids c path) at h in
      rw
        (
          entry_at-child p o st (put_tree comp made kids) c path,
          find_tree-put_tree comp c made kids,
        )
        (elim (Bool-cases (bytes_eq comp c)) [
          | inr other ↦ rw other h'
          | inl hit ↦ rw hit (elim (Option-cases (find_tree c kids)) [
            | inl gone ↦ absurd (cc (rw gone at h'))
            | inr (t, was) ↦
                let same : comp ≡ c = (bytes_eq_iff comp c).0 hit in
                rw (same, was)
                  (entry_at-find_tree_node t (extend_name name c) comps path e (rw was at h'))
          ])
        ])

  made-find_tree_node :
      (t : TreeNode) (name : Bytes) (comps : List Bytes)
      → (find_node t name comps).1 ≡ is_none (tree_at t comps)
  unfolding find_tree_node tree_at
  made-find_tree_node t name [] = refl
  made-find_tree_node (tree_node p o st kids) name (comp ∷ comps) =
      elim (Option-cases (find_tree comp kids)) [
        | inl e ↦ rw (e, tree_at)
        | inr (t, e) ↦ rw (e, tree_at) (made-find_tree_node t (extend_name name comp) comps)
      ]

  -- A walk to a node of a volume finds it or makes it. Every node that was there keeps its files
  -- and its storage, and the walk says exactly if the node was missing.
  pub find_tree_node_keeps :
      (t : TreeNode) (name : Bytes) (comps : List Bytes)
      → let (t', made) = find_node t name comps in
        ((n : TreeNode) × (tree_at t' comps ≡ some n))
        × ((path : List Bytes) (e : Bytes × Bytes × Option ℕ)
            → entry_at t path ≡ some e
            → entry_at t' path ≡ some e)
        × (made ≡ is_none (tree_at t comps))
  find_tree_node_keeps t name comps = (
    tree_at-find_tree_node t name comps,
    entry_at-find_tree_node t name comps,
    made-find_tree_node t name comps,
  )

  -- The nodes "a/b" and "a_b" of a new volume get the same two files.
  pub same_files :
      (c : ℕ) (cs b : Bytes)
      → let a = c ∷ cs in
        let root = tree_node [] [] none no_tree_nodes in
        let joined = (a ++ bytes "_" ++ b) ∷ [] in
        let nested = a ∷ b ∷ [] in
        entry_at (find_node root [] joined).0 joined ≡ entry_at (find_node root [] nested).0 nested
  unfolding find_tree_node tree_at find_tree put_tree extend_name new_tree_node
  same_files c cs b =
      rw
        (bytes_eq_refl (c ∷ cs ++ bytes "_" ++ b), bytes_eq_refl (c ∷ cs), bytes_eq_refl b, tree_at)
