-- ===== src/FilesystemUtils/Tests.antt =====
-- Runs of mkdirp.
use libkvs.Prelude.{◌≡◌, refl, Bool, Bytes, List, bytes, bytes_eq, true, some, [], ◌∷◌}
use libkvs.FilesystemUtils.{mkdirp, mkdirp_loop, ensure_directory, until_slash, from_slash}
use libkvs.FilesystemUtils.Rounds.{prefixes, Ensures, mkdirp-Ensures}
use libkvs.FilesystemUtils.Sample.{directories, stat_in}

mkdirp-Ensures_example :
    (result : Bool × List Bytes) × (mkdirp directories [] (bytes "/d") (bytes "a/b") ≡ some result)
    × Ensures directories (bytes "/d") [] (prefixes [] (bytes "a/b")) result
mkdirp-Ensures_example = mkdirp-Ensures directories [] (bytes "/d") (bytes "a/b")

-- The two directories are made, the outer one first.
two_directories :
    mkdirp directories [] (bytes "/d") (bytes "a/b")
    ≡ some (true, bytes "/d/a/b" ∷ bytes "/d/a" ∷ [])
unfolding mkdirp mkdirp_loop ensure_directory until_slash from_slash stat_in bytes_eq
two_directories = refl
