-- ===== src/LinearHashVolume/Opening.antt =====
-- When the operations of a volume succeed, and what they leave.
use libkvs.Prelude.{
  ◌≡◌, refl, ◌≢◌, Bytes, Bool, bytes_eq, bytes_eq_iff, false, Option, none, some, [], ◌∷◌,
  Bool-cases, Option-cases, inl, inr, if◌then◌else◌,
}
use libkvs.Storage.{is_some}
use libkvs.FilesystemUtils.{FileSystem, getcwd}
use libkvs.FilesystemUtils.Rounds.{Ensures, mkdirp-Ensures, prefixes}
use libkvs.LinearHashVolume.{PathOps, ◌>>=◌}
use libkvs.LinearHashVolume.Json.{JsonImpl}
use libkvs.LinearHashVolume.Volume.{Volume, empty_root, make_parent, new_volume, opened}

module _ (F : FileSystem) (P : PathOps) (J : JsonImpl) where
  make_parent_total :
      (s : F.State) (filepath parent : Bytes)
      → (s' : F.State) × (make_parent F P J s filepath parent ≡ some s')
        × (parent ≡ filepath → s' ≡ s)
        × ((kind : Bool) → F.stat s parent ≡ some kind → s' ≡ s)
        × (parent ≢ filepath
            → F.stat s parent ≡ none
            → (good : Bool) × Ensures F (getcwd F s) s (prefixes [] parent) (good, s'))
  unfolding make_parent
  make_parent_total s filepath parent = elim (Bool-cases (bytes_eq parent filepath)) [
    | inl e ↦ (
      s,
      rw e,
      λ h. refl,
      λ kind h. refl,
      λ other h. absurd (other ((bytes_eq_iff parent filepath).0 e)),
    )
    | inr e ↦ elim (Option-cases (F.stat s parent)) [
      | inl f ↦
          let ((good, s'), done, ensures) = mkdirp-Ensures F s (getcwd F s) parent in
          (
            s',
            rw (e, f, done, ◌>>=◌),
            λ same. absurd (cc (e, (bytes_eq_iff parent filepath).1 same)),
            λ kind h. absurd (cc (f, h)),
            λ other h. (good, ensures),
          )
      | inr (kind, f) ↦ (s, rw (e, f), λ h. refl, λ k h. refl, λ other h. absurd (cc (f, h)))
    ]
  ]

  opened_empty :
      (filepath name parent : Bytes) (o : Option Bytes) (s : F.State)
      → ((text : Bytes) → o ≡ some text → text ≡ [])
      → opened F P J filepath name parent (o, s)
        ≡ some (
          record {
            filepath = filepath;
            volume_name = name;
            parent_path = parent;
            root_node = empty_root;
            is_loaded = is_some o;
            is_dirty = false;
          },
          s,
        )
  opened_empty filepath name parent none s h = refl
  opened_empty filepath name parent (some []) s h = refl
  opened_empty filepath name parent (some (c ∷ cs)) s h = absurd (cc (h (c ∷ cs) refl))

  -- If an opening with trunc leaves no text to read, the constructor of a volume throws nothing. It
  -- makes the directory of the file only if that is missing, tries to open the file then, and is
  -- loaded exactly if that succeeds; it has no nodes, whatever its file had, and nothing to save.
  pub new_volume_total :
      ((s : F.State) (p text : Bytes) → (F.open_truncated s p).0 ≡ some text → text ≡ [])
      → (s : F.State) (filepath : Bytes)
      → let parent = P.parent_path filepath in
        (v : Volume) × (s1 : F.State) × (s2 : F.State) × (new_volume F P J s filepath
          ≡ some (v, s2))
        × (parent ≡ filepath → s1 ≡ s)
        × ((kind : Bool) → F.stat s parent ≡ some kind → s1 ≡ s)
        × (parent ≢ filepath
            → F.stat s parent ≡ none
            → (good : Bool) × Ensures F (getcwd F s) s (prefixes [] parent) (good, s1))
        × (s2 ≡ (F.open_truncated s1 filepath).1)
        × (v.is_loaded ≡ is_some (F.open_truncated s1 filepath).0)
        × (v.root_node ≡ empty_root)
        × (v.is_dirty ≡ false)
  unfolding new_volume
  new_volume_total truncates s filepath =
      let parent = P.parent_path filepath in
      let parent_member = if bytes_eq parent filepath then [] else parent in
      let (s1, made, same, there, ensures) = make_parent_total s filepath parent in
      let e =
        opened_empty filepath (P.filename filepath) parent_member (F.open_truncated s1 filepath).0
          (F.open_truncated s1 filepath).1 (truncates s1 filepath) in
      (
        record {
          filepath = filepath;
          volume_name = P.filename filepath;
          parent_path = parent_member;
          root_node = empty_root;
          is_loaded = is_some (F.open_truncated s1 filepath).0;
          is_dirty = false;
        },
        s1,
        (F.open_truncated s1 filepath).1,
        rw (made, ◌>>=◌) e,
        same,
        there,
        ensures,
        refl,
        refl,
        refl,
        refl,
      )
