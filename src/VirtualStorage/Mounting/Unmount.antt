-- ===== src/VirtualStorage/Mounting/Unmount.antt =====
-- What an unmount does to the layers of each node of the tree.
use libkvs.Prelude.{
  ℕ, ◌==◌, ◌≢◌, ◌++◌, true, All, ◌≡◌, refl, ap, subst, Bytes, bytes_eq, bytes_eq_iff, Option, none,
  some, List, [], ◌∷◌, arith, Bool, Bool-cases, Option-cases, inl, inr,
}
use libkvs.VirtualStorage.{
  StorageNode, StorageNodes, storage_node, no_storage_nodes, storage_child, MountedStorage,
  MountPoint, Node, Children, node, find_child, put_child, NodePath,
}
use libkvs.VirtualStorage.Resolve.Laws.{node_at}
use libkvs.VirtualStorage.Mounting.{
  has_storage, erase_storage, or_new, unmount_node, unmount_children, ◌>>=◌,
}
use libkvs.VirtualStorage.Mounting.Layers.{
  find_child-put_child, find_storage_node, find_storage_node-UniqueNames, UniqueNames,
  UniqueChildren, storage_at, layers_at, layers_at-child,
}

-- The first layer of a storage is gone, if a storage is named, and all else stays in its order.
pub Lost : Option ℕ → List MountedStorage → List MountedStorage → Type 0
Lost none before after = after ≡ before
Lost (some st) before after =
    (above : List MountedStorage) × (m : MountedStorage) × (below : List MountedStorage) × (before
      ≡ above ++ m ∷ below)
    × (after ≡ above ++ below)
    × (m.storage ≡ st)
    × All (λ (k : MountedStorage). k.storage ≢ st) above

Lost-erase_storage :
    (st : ℕ) (ms : List MountedStorage)
    → has_storage st ms ≡ true
    → Lost (some st) ms (erase_storage st ms)
unfolding Lost has_storage erase_storage
Lost-erase_storage st [] h = absurd (cc h)
Lost-erase_storage st (m ∷ ms) h = elim (Bool-cases (m.storage == st)) [
  | inl e ↦ rw e ([], m, ms, refl, refl, ground (arith, e), tt)
  | inr e ↦
      let (above, k, below, was, now, is, others) = Lost-erase_storage st ms (rw e at h) in
      rw e (
        m ∷ above,
        k,
        below,
        ap (λ l. m ∷ l) was,
        ap (λ l. m ∷ l) now,
        is,
        (λ same. ground (arith, e, same), others),
      )
]

-- An unmount takes a layer away where the subtree has a storage, and only there.
abbrev pub without_storage : Option ℕ → List MountedStorage → List MountedStorage
without_storage none ms = ms
without_storage (some st) ms = erase_storage st ms

pub bind-some :
    {A B : Type 0} (o : Option A) (f : A → Option B) (b : B)
    → (o >>= f) ≡ some b
    → (a : A) × (o ≡ some a) × (f a ≡ some b)
bind-some none f b h = cc
bind-some (some a) f b h = (a, refl, h)

module _ {R : Type 0} (release : R → ℕ → Bool × R) where
  -- What becomes of a child that the subtree names, or does not name.
  abbrev Unmounted : Option StorageNode → Option Node → Option Node → Type 0
  Unmounted none before after = after ≡ before
  Unmounted (some sn) before after =
      (n : Node) × (n' : Node) × (r : R) × (r' : R) × (before ≡ some n)
      × (unmount_node release r n sn ≡ some (r', n'))
      × (after ≡ some n')

  find_child-unmount_children :
      (j : Bytes) (r r' : R) (cs cs' : Children) (kids : StorageNodes)
      → UniqueChildren kids
      → unmount_children release r cs kids ≡ some (r', cs')
      → Unmounted (find_storage_node j kids) (find_child j cs) (find_child j cs')
  unfolding unmount_node find_storage_node UniqueNames
  find_child-unmount_children j r r' cs cs' no_storage_nodes u h = ground (arith)
  find_child-unmount_children j r r' cs cs' (storage_child name child others) u h =
      let (n, found, h1) = bind-some (find_child name cs) _ (r', cs') h in
      let ((r1, n1), done, h2) = bind-some (unmount_node release r n child) _ (r', cs') h1 in
      let rest = find_child-unmount_children j r1 r' (put_child name n1 cs) cs' others u.2 h2 in
      elim (Bool-cases (bytes_eq name j)) [
        | inl e ↦
            let same : name ≡ j = (bytes_eq_iff name j).0 e in
            let last : find_storage_node j others ≡ none =
              subst (λ x. find_storage_node x others ≡ none) same u.0 in
            rw e (
              n,
              n1,
              r,
              r1,
              subst (λ x. find_child x cs ≡ some n) same found,
              done,
              (rw (last, find_child-put_child name j n1 cs, e) at rest),
            )
        | inr e ↦ rw e (rw (find_child-put_child name j n1 cs, e) at rest)
      ]

  -- What a successful unmount has done at a node.
  pub unmount_node-parts :
      (mps : List (ℕ × MountPoint)) (sts : List MountedStorage) (cs : Children) (v p : Bytes)
      (st : ℕ) (kids : StorageNodes) (r r' : R) (n' : Node)
      → unmount_node release r (node mps sts cs) (storage_node v p st kids) ≡ some (r', n')
      → (r1 : R) × (cs' : Children) × (unmount_children release r1 cs kids ≡ some (r', cs'))
        × (n' ≡ node mps (erase_storage st sts) cs')
        × (has_storage st sts ≡ true)
  unfolding unmount_node
  unmount_node-parts mps sts cs v p st kids r r' n' h = elim (Bool-cases (has_storage st sts)) [
    | inr e ↦ absurd (cc (rw e at h))
    | inl e ↦ elim (Bool-cases (release r st).0) [
      | inr f ↦ absurd (cc (rw (e, f) at h))
      | inl f ↦
          let ((r1, cs'), done, eq) =
            bind-some (unmount_children release (release r st).1 cs kids) _ (r', n')
              (rw (e, f) at h) in
          ((release r st).1, cs', cc (done, eq), cc eq, e)
    ]
  ]

  -- The same by the function that erases.
  pub layers_at-without_storage :
      (n n' : Node) (sn : StorageNode) (r r' : R) (path : NodePath)
      → UniqueNames sn
      → unmount_node release r n sn ≡ some (r', n')
      → layers_at n' path ≡ without_storage (storage_at sn path) (layers_at n path)
  unfolding node_at storage_at
  layers_at-without_storage (node mps sts cs) n' (storage_node v p st kids) r r' [] u h =
      let (r1, cs', done, e, was_there) = unmount_node-parts mps sts cs v p st kids r r' n' h in
      rw e
  layers_at-without_storage (node mps sts cs) n' (storage_node v p st kids) r r' (c ∷ path) u h =
      let (r1, cs', done, e, was_there) = unmount_node-parts mps sts cs v p st kids r r' n' h in
      let kept = find_child-unmount_children c r1 r' cs cs' kids (unfold UniqueNames in u) done in
      rw
        (
          e,
          layers_at-child mps (erase_storage st sts) cs' c path,
          layers_at-child mps sts cs c path,
        )
        (elim (Option-cases (find_storage_node c kids)) [
          | inl none_named ↦
              rw (none_named, storage_at)
                (ap (λ x. layers_at (or_new x) path) (rw none_named at kept))
          | inr (sn, named) ↦
              let (m, m', r2, r3, was, gone, now) = rw named at kept in
              rw (named, was, now, storage_at)
                (layers_at-without_storage m m' sn r2 r3 path
                  (find_storage_node-UniqueNames c kids sn (unfold UniqueNames in u) named) gone)
        ])

  -- After a successful unmount of a subtree in which siblings have different names, the layers at
  -- each path at which the subtree has a storage are those before, in their order, without the
  -- first one of that storage; at other paths they are as before.
  pub layers_at-unmount_node :
      (n n' : Node) (sn : StorageNode) (r r' : R) (path : NodePath)
      → UniqueNames sn
      → unmount_node release r n sn ≡ some (r', n')
      → Lost (storage_at sn path) (layers_at n path) (layers_at n' path)
  unfolding node_at storage_at Lost
  layers_at-unmount_node (node mps sts cs) n' (storage_node v p st kids) r r' [] u h =
      let (r1, cs', done, e, was_there) = unmount_node-parts mps sts cs v p st kids r r' n' h in
      rw e (Lost-erase_storage st sts was_there)
  layers_at-unmount_node (node mps sts cs) n' (storage_node v p st kids) r r' (c ∷ path) u h =
      let (r1, cs', done, e, was_there) = unmount_node-parts mps sts cs v p st kids r r' n' h in
      let kept = find_child-unmount_children c r1 r' cs cs' kids (unfold UniqueNames in u) done in
      rw
        (
          e,
          layers_at-child mps (erase_storage st sts) cs' c path,
          layers_at-child mps sts cs c path,
        )
        (elim (Option-cases (find_storage_node c kids)) [
          | inl none_named ↦
              rw (none_named, storage_at)
                (ap (λ x. layers_at (or_new x) path) (rw none_named at kept))
          | inr (sn, named) ↦
              let (m, m', r2, r3, was, gone, now) = rw named at kept in
              rw (named, was, now, storage_at)
                (layers_at-unmount_node m m' sn r2 r3 path
                  (find_storage_node-UniqueNames c kids sn (unfold UniqueNames in u) named) gone)
        ])
