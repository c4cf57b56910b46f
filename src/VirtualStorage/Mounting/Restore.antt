-- ===== src/VirtualStorage/Mounting/Restore.antt =====
-- An unmount takes back a mount, and its assertions hold.
use libkvs.Prelude.{
  ℕ, ◌≡◌, refl, ap, ◌∙◌, Bytes, bytes_eq, bytes_eq_iff, bytes_eq_refl, Option, none, some, List, [],
  ◌∷◌, ◌++◌, arith, Bool, true, false, Bool-cases, inl, inr,
}
use libkvs.Prelude.Int.{ℤ}
use libkvs.VirtualStorage.{
  StorageNode, StorageNodes, storage_node, no_storage_nodes, storage_child, MountedStorage, Node,
  Children, node, find_child, put_child, children, NodePath,
}
use libkvs.VirtualStorage.Mounting.{
  has_storage, erase_storage, or_new, unmount_node, unmount_children, insert_storage, mount_node,
  mount_children,
}
use libkvs.VirtualStorage.Mounting.Layers.{
  find_child-put_child, find_storage_node, UniqueNames, UniqueChildren, storage_at, with_storage,
  layers_at, layers_at-mount_node, find_child-mount_children,
}
use libkvs.VirtualStorage.Mounting.Unmount.{without_storage, layers_at-without_storage}

has_storage-insert_storage :
    (new : MountedStorage) (ms : List MountedStorage)
    → has_storage new.storage (insert_storage new ms) ≡ true
unfolding has_storage insert_storage
has_storage-insert_storage new [] = ground arith
has_storage-insert_storage new (m ∷ ms) = ground (arith, has_storage-insert_storage new ms)

erase_storage-insert_storage :
    (new : MountedStorage) (ms : List MountedStorage)
    → has_storage new.storage ms ≡ false
    → erase_storage new.storage (insert_storage new ms) ≡ ms
unfolding has_storage erase_storage insert_storage
erase_storage-insert_storage new [] h = ground arith
erase_storage-insert_storage new (m ∷ ms) h = ground (arith, erase_storage-insert_storage new ms)

-- The tree has a layer for each storage of a subtree.
unfoldable mutual
  pub HasMounted : Node → StorageNode → Type 0
  HasMounted (node mps sts cs) (storage_node v p st kids) =
      (has_storage st sts ≡ true) × HaveMounted cs kids

  pub HaveMounted : Children → StorageNodes → Type 0
  HaveMounted cs no_storage_nodes = Unit {0}
  HaveMounted cs (storage_child name child others) =
      ((n : Node) × (find_child name cs ≡ some n) × HasMounted n child) × HaveMounted cs others

-- A change of one child leaves the others.
pub HaveMounted-put_child :
    (name : Bytes) (n : Node) (cs : Children) (kids : StorageNodes)
    → find_storage_node name kids ≡ none
    → HaveMounted cs kids
    → HaveMounted (put_child name n cs) kids
unfolding HasMounted find_storage_node
HaveMounted-put_child name n cs no_storage_nodes out h = tt
HaveMounted-put_child name n cs (storage_child j child others) out ((m, found, has), rest) =
    elim (Bool-cases (bytes_eq j name)) [
      | inl e ↦ absurd (cc (rw e at out))
      | inr e ↦ (
        (
          m,
          ground
              (arith, find_child-put_child name j n cs, bytes_eq_iff name j, bytes_eq_iff j name),
          has,
        ),
        HaveMounted-put_child name n cs others (rw e at out) rest,
      )
    ]

HasMounted-mount_node :
    (n : Node) (v p : Bytes) (st : ℕ) (kids : StorageNodes) (priority : ℤ)
    → HaveMounted (mount_children (children n) kids priority) kids
    → HasMounted (mount_node n (storage_node v p st kids) priority) (storage_node v p st kids)
unfolding HasMounted mount_node
HasMounted-mount_node (node mps sts cs) v p st kids priority h =
    (has_storage-insert_storage (record { storage = st; priority = priority }) sts, h)

found_after :
    (name : Bytes) (new : Node) (cs : Children) (others : StorageNodes) (priority : ℤ)
    → find_storage_node name others ≡ none
    → UniqueChildren others
    → find_child name (mount_children (put_child name new cs) others priority) ≡ some new
found_after name new cs others priority out u = rw (
  find_child-mount_children name (put_child name new cs) others priority u,
  out,
  find_child-put_child name name new cs,
  bytes_eq_refl name,
)

-- What was mounted last is there.
HaveMounted-mount_children :
    (cs : Children) (kids : StorageNodes) (priority : ℤ)
    → UniqueChildren kids
    → HaveMounted (mount_children cs kids priority) kids
unfolding HasMounted mount_node UniqueNames
HaveMounted-mount_children cs no_storage_nodes priority u = tt
HaveMounted-mount_children cs (storage_child name (storage_node v p st kids) others) priority u =
    let new = mount_node (or_new (find_child name cs)) (storage_node v p st kids) priority in
    (
      (
        new,
        found_after name new cs others priority u.0 u.2,
        HasMounted-mount_node (or_new (find_child name cs)) v p st kids priority
            (HaveMounted-mount_children (children (or_new (find_child name cs))) kids priority u.1),
      ),
      HaveMounted-mount_children (put_child name new cs) others priority u.2,
    )

mounted :
    (n : Node) (sn : StorageNode) (priority : ℤ)
    → UniqueNames sn
    → HasMounted (mount_node n sn priority) sn
mounted n (storage_node v p st kids) priority u =
    HasMounted-mount_node n v p st kids priority
      (HaveMounted-mount_children (children n) kids priority (unfold UniqueNames in u))

-- A storage that a subtree has at a path is not yet among the layers there.
abbrev pub IsNewAt : Option ℕ → List MountedStorage → Type 0
IsNewAt none ms = Unit {0}
IsNewAt (some st) ms = has_storage st ms ≡ false

without_storage-with_storage :
    (o : Option ℕ) (priority : ℤ) (ms : List MountedStorage)
    → IsNewAt o ms
    → without_storage o (with_storage o priority ms) ≡ ms
without_storage-with_storage none priority ms new = refl
without_storage-with_storage (some st) priority ms new =
    erase_storage-insert_storage (record { storage = st; priority = priority }) ms new

-- The storages of a subtree, in the order in which an unmount releases them.
unfoldable mutual
  pub storages_of : StorageNode → List ℕ
  storages_of (storage_node v p st kids) = st ∷ storages_of_kids kids

  pub storages_of_kids : StorageNodes → List ℕ
  storages_of_kids no_storage_nodes = []
  storages_of_kids (storage_child name child others) = storages_of child ++ storages_of_kids others

module _ {R : Type 0} (release : R → ℕ → Bool × R) where
  -- These releases, one after the other, all succeed.
  unfoldable pub Releases : R → List ℕ → Type 0
  Releases r [] = Unit {0}
  Releases r (p ∷ ps) = ((release r p).0 ≡ true) × Releases (release r p).1 ps

  unfoldable release_all : R → List ℕ → R
  release_all r [] = r
  release_all r (p ∷ ps) = release_all (release r p).1 ps

  Releases-append :
      (r : R) (ps qs : List ℕ)
      → Releases r (ps ++ qs)
      → Releases r ps × Releases (release_all r ps) qs
  unfolding Releases release_all
  Releases-append r [] qs h = (tt, h)
  Releases-append r (p ∷ ps) qs h =
      let (first, rest) = Releases-append (release r p).1 ps qs h.1 in ((h.0, first), rest)

  release_all-append :
      (r : R) (ps qs : List ℕ) → release_all r (ps ++ qs) ≡ release_all (release_all r ps) qs
  unfolding release_all
  release_all-append r [] qs = refl
  release_all-append r (p ∷ ps) qs = release_all-append (release r p).1 ps qs

  unmount_children_total :
      (r : R) (cs : Children) (kids : StorageNodes)
      → UniqueChildren kids
      → HaveMounted cs kids
      → Releases r (storages_of_kids kids)
      → (cs' : Children) × (unmount_children release r cs kids
          ≡ some (release_all r (storages_of_kids kids), cs'))
  unfolding unmount_node HasMounted UniqueNames storages_of Releases release_all
  unmount_children_total r cs no_storage_nodes u h ok = (cs, refl)
  unmount_children_total r cs (storage_child name (storage_node v p st kids) others) u
        ((node mps sts below, found, (has, deep)), rest) ok =
      let r1 = (release r st).1 in
      let (ok1, ok2) = Releases-append r1 (storages_of_kids kids) (storages_of_kids others) ok.1 in
      let (below', done) = unmount_children_total r1 below kids u.1 deep ok1 in
      let cs1 = put_child name (node mps (erase_storage st sts) below') cs in
      let (cs2, last) =
        unmount_children_total (release_all r1 (storages_of_kids kids)) cs1 others u.2
          (HaveMounted-put_child name _ cs others u.0 rest) ok2 in
      (
        cs2,
        rw
            (
              found,
              has,
              ok.0,
              done,
              release_all-append r1 (storages_of_kids kids) (storages_of_kids others),
            )
            last,
      )

  unmount_node_total :
      (r : R) (n : Node) (sn : StorageNode)
      → UniqueNames sn
      → HasMounted n sn
      → Releases r (storages_of sn)
      → (r' : R) × (n' : Node) × (unmount_node release r n sn ≡ some (r', n'))
  unfolding unmount_node HasMounted UniqueNames storages_of Releases
  unmount_node_total r (node mps sts cs) (storage_node v p st kids) u (has, deep) ok =
      let (cs', done) = unmount_children_total (release r st).1 cs kids u deep ok.1 in
      (
        release_all (release r st).1 (storages_of_kids kids),
        node mps (erase_storage st sts) cs',
        rw (has, ok.0, done),
      )

  -- If the registry releases the storages of a subtree, one after the other, an unmount of the
  -- subtree that was just mounted, in which siblings have different names, fails no assertion, and
  -- the layers of each path at which the storage was not mounted before are those before the mount.
  pub unmount_node-mount_node :
      (n : Node) (sn : StorageNode) (priority : ℤ) (r : R)
      → UniqueNames sn
      → Releases r (storages_of sn)
      → (r' : R) × (n' : Node) × (unmount_node release r (mount_node n sn priority) sn
          ≡ some (r', n'))
        × ((path : NodePath)
            → IsNewAt (storage_at sn path) (layers_at n path)
            → layers_at n' path ≡ layers_at n path)
  unmount_node-mount_node n sn priority r u ok =
      let (r', n', done) =
        unmount_node_total r (mount_node n sn priority) sn u (mounted n sn priority u) ok in
      (
        r',
        n',
        done,
        λ path new.
            layers_at-without_storage release (mount_node n sn priority) n' sn r r' path u done
            ∙ ap (without_storage (storage_at sn path)) (layers_at-mount_node n sn priority path u)
            ∙ without_storage-with_storage (storage_at sn path) priority (layers_at n path) new,
      )
