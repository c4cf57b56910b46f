-- ===== src/FilesystemUtils/Sample.antt =====
-- A file system that a list of its directories stands for, in which every file can be written.
use libkvs.Prelude.{
  Bytes, bytes, bytes_eq, Bool, true, Option, none, some, List, [], ◌∷◌, if◌then◌else◌,
}
use libkvs.FilesystemUtils.{created, FileSystem}

unfoldable pub stat_in : List Bytes → Bytes → Option Bool
stat_in [] p = none
stat_in (d ∷ ds) p = if bytes_eq d p then some true else stat_in ds p

abbrev pub directories : FileSystem
directories = record {
  State = List Bytes;
  stat = stat_in;
  mkdir = λ ds p. (created, p ∷ ds);
  getcwd = λ ds. some (bytes "/d");
  open_truncated = λ ds p. (some [], ds);
  write_file = λ ds p text. (true, ds);
}
