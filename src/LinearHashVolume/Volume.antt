-- ===== src/LinearHashVolume/Volume.antt =====
-- The public operations of a volume: the constructor, loadStorage and unloadStorage, over a file
-- system, its paths and the JSON library. `none` is an exception or a failed assertion.
use libkvs.Prelude.{
  ◌||◌, Bytes, bytes_eq, Bool, true, false, Option, none, some, [], ◌∷◌, if◌then◌else◌,
}
use libkvs.StringUtils.{split, slash}
use libkvs.FilesystemUtils.{FileSystem, getcwd, mkdirp}
use libkvs.VirtualStorage.{HashTableParams, StorageNode}
use libkvs.LinearHashVolume.{
  TreeNode, tree_node, no_tree_nodes, PathOps, Storages, find_tree_node, tree_at, change_tree,
  load_tree, StorageParams, ◌>>=◌,
}
use libkvs.LinearHashVolume.Json.{JsonImpl, to_json, from_json}

pub record Volume : Type 0 where
  pub filepath : Bytes
  pub volume_name : Bytes
  pub parent_path : Bytes
  pub root_node : TreeNode
  pub is_loaded : Bool
  pub is_dirty : Bool

abbrev pub empty_root : TreeNode
empty_root = tree_node [] [] none no_tree_nodes

-- The rest of the nodes is read only if the file had a text; by then the stream is at its end, so an
-- empty text is left to parse.
abbrev is_empty : Bytes → Bool
is_empty [] = true
is_empty (c ∷ cs) = false

module _ (F : FileSystem) (P : PathOps) (J : JsonImpl) where
  -- The directory of the volume's file is made if it is missing, whether or not that succeeds.
  unfoldable pub make_parent : F.State → Bytes → Bytes → Option F.State
  make_parent s filepath parent =
      if bytes_eq parent filepath then some s else (elim (F.stat s parent) [
        | some kind ↦ some s
        | none ↦ mkdirp F s (getcwd F s) parent >>= λ made. some made.1
      ])

  -- The root that the file gives.
  abbrev pub parsed_root : Option J.Json → Option TreeNode
  parsed_root none = none
  parsed_root (some j) = if J.is_object j then from_json J 1 j else some empty_root

  abbrev pub root_of : Bytes → Option TreeNode
  root_of text = if is_empty text then some empty_root else parsed_root (J.parse [])

  abbrev pub opened : Bytes → Bytes → Bytes → Option Bytes × F.State → Option (Volume × F.State)
  opened filepath name parent (none, s) = some (
    record {
      filepath = filepath;
      volume_name = name;
      parent_path = parent;
      root_node = empty_root;
      is_loaded = false;
      is_dirty = false;
    },
    s,
  )
  opened filepath name parent (some text, s) = root_of text >>= λ root. some (
    record {
      filepath = filepath;
      volume_name = name;
      parent_path = parent;
      root_node = root;
      is_loaded = true;
      is_dirty = false;
    },
    s,
  )

  -- LinearHashVolume::LinearHashVolume
  unfoldable pub new_volume : F.State → Bytes → Option (Volume × F.State)
  new_volume s filepath =
      let parent = P.parent_path filepath in
      let parent_member = if bytes_eq parent filepath then [] else parent in
      make_parent s filepath parent >>= λ s'.
      opened filepath (P.filename filepath) parent_member (F.open_truncated s' filepath)

  -- findTreeNode
  unfoldable pub with_node : Volume → Bytes → Volume
  with_node v path =
      let (root, made) =
        find_tree_node P v.parent_path v.volume_name v.root_node [] (split path slash) in
      record v { root_node = root; is_dirty = made || v.is_dirty }

  abbrev pub written_to : Volume → Bool × F.State → Option (Volume × F.State)
  written_to v (is_open, s) = if is_open then some (record v { is_dirty = false }, s) else none

  -- saveNodes
  unfoldable pub save_nodes : F.State → Volume → Option (Volume × F.State)
  save_nodes s v =
      let written = J.dump (to_json J J.null v.root_node) >>= λ text.
      written_to v (F.write_file s v.filepath text) in
      if v.is_loaded then (if v.is_dirty then written else some (v, s)) else none

  -- loadStorage
  unfoldable pub load_storage :
      (Storages → StorageParams → Bool)
      → F.State
      → Storages
      → Volume
      → Bytes
      → HashTableParams
      → Option (StorageNode × Volume × Storages × F.State)
  load_storage makes s made v path params =
      let v1 = with_node v path in
      tree_at v1.root_node (split path slash) >>= λ t.
      load_tree makes params v1.filepath t path made >>= λ (loaded, t', made').
      save_nodes s (record v1 { root_node = change_tree v1.root_node (split path slash) t' })
      >>= λ saved. some (loaded, saved.0, made', saved.1)

  abbrev without_storage : TreeNode → TreeNode
  without_storage (tree_node p o st kids) = tree_node p o none kids

  -- unloadStorage
  unfoldable pub unload_storage : Volume → Bytes → Option Volume
  unload_storage v path =
      let v1 = with_node v path in
      tree_at v1.root_node (split path slash) >>= λ t.
      some
        (record v1 { root_node = change_tree v1.root_node (split path slash) (without_storage t) })
