-- ===== src/FilesystemUtils.antt =====
-- src/utility/FilesystemUtils.hpp, FilesystemUtils.cpp: directories. The calls of the operating
-- system are the parameter `FileSystem`.
pub mod Rounds
pub mod Sample
mod Tests
use libkvs.Prelude.{
  ℕ, zero, suc, ◌==◌, Bytes, bytes, Bool, true, false, Option, none, some, List, [], ◌∷◌, ◌++◌,
  if◌then◌else◌, length,
}
use libkvs.StringUtils.{slash}

-- How mkdir(2) ends: with 0, with EEXIST, or with another error.
pub data MkdirResult : Type 0 where
  created already_exists failed : MkdirResult

pub record FileSystem : Type 1 where
  pub State : Type 0
  -- stat(2): none if it fails, and else whether the file is a directory
  pub stat : State → Bytes → Option Bool
  pub mkdir : State → Bytes → MkdirResult × State
  -- getcwd(3)
  pub getcwd : State → Option Bytes
  -- an fstream opened with in, out and trunc, and the text that is read from it
  pub open_truncated : State → Bytes → Option Bytes × State
  -- an ofstream, if it opens, with the text written to it
  pub write_file : State → Bytes → Bytes → Bool × State

-- The piece in front of the next separator, and the text from that separator on: `std::find`.
unfoldable pub until_slash : Bytes → Bytes
until_slash [] = []
until_slash (c ∷ cs) = let rest = until_slash cs in if c == slash then [] else c ∷ rest

unfoldable pub from_slash : Bytes → Bytes
from_slash [] = []
from_slash (c ∷ cs) = let rest = from_slash cs in if c == slash then c ∷ cs else rest

-- `if (newIter != path.end()) ++iter`, with the text in front of `iter`.
abbrev pub step_over : Bytes → Bytes → Bytes × Bytes
step_over done [] = (done, [])
step_over done (c ∷ cs) = (done ++ c ∷ [], cs)

module _ (F : FileSystem) where
  abbrev is_created : MkdirResult → Bool
  is_created created = true
  is_created already_exists = false
  is_created failed = false

  -- mkdir
  unfoldable pub mkdir : F.State → Bytes → Bool × F.State
  mkdir s p = let (result, s') = F.mkdir s p in (is_created result, s')

  abbrev pub accepted : MkdirResult → Bool
  accepted created = true
  accepted already_exists = true
  accepted failed = false

  -- The body of the loop of `mkdirp`; false is its `return false`.
  unfoldable pub ensure_directory : F.State → Bytes → Bool × F.State
  ensure_directory s p = elim (F.stat s p) [
    | none ↦ let (result, s') = F.mkdir s p in (accepted result, s')
    | some is_directory ↦ (is_directory, s)
  ]

  -- The loop: `done` is the text in front of `iter`. `none` is the end of the fuel.
  unfoldable pub mkdirp_loop : ℕ → F.State → Bytes → Bytes → Bytes → Option (Bool × F.State)
  mkdirp_loop zero s root done rest = none
  mkdirp_loop (suc fuel) s root done [] = some (true, s)
  mkdirp_loop (suc fuel) s root done (c ∷ cs) =
      let reached = done ++ until_slash (c ∷ cs) in
      let (good, s') = ensure_directory s (root ++ bytes "/" ++ reached) in
      let (before, after) = step_over reached (from_slash (c ∷ cs)) in
      let next = mkdirp_loop fuel s' root before after in if good then next else some (false, s')

  -- mkdirp
  unfoldable pub mkdirp : F.State → Bytes → Bytes → Option (Bool × F.State)
  unfolding mkdirp_loop ensure_directory until_slash from_slash
  mkdirp s root p = mkdirp_loop (suc (length p)) s root [] p

  -- getcwd; an empty path stands for a failure.
  abbrev absolute : Bytes → Bytes
  absolute [] = []
  absolute (c ∷ cs) = if c == slash then c ∷ cs else []

  unfoldable pub getcwd : F.State → Bytes
  getcwd s = elim (F.getcwd s) [ none ↦ [] | some cwd ↦ absolute cwd ]
