-- ===== src/Example/Tests.antt =====
-- The example program over a storage that is a list of paths and keys.
use libkvs.Prelude.{
  ℕ, zero, suc, ◌%◌, ◌==◌, ◌≡◌, refl, Bytes, bytes_eq, Bool, true, false, ◌&&◌, ◌++◌, some, List,
  [], ◌∷◌, if◌then◌else◌,
}
use libkvs.Value.{undefined_value}
use libkvs.Key.{Key, k_ok, k_key_not_found, succeed, fail}
use libkvs.VirtualStorage.Session.{MountStatus}
use libkvs.Example.{
  ExampleStorage, Message, get_key_not_found, key_name, run_example, rounds, put_round, get_round,
  put_message, get_message,
}

abbrev is_there : Key → List (Bytes × Bytes) → Bool
is_there k [] = false
is_there k ((path, key) ∷ rest) =
    if bytes_eq key k.key && bytes_eq path k.path then true else is_there k rest

abbrev simple_storage : ExampleStorage
simple_storage = record {
  State = List (Bytes × Bytes);
  mount = λ o s. some (record { status = MountStatus.k_ok; mount_id = 1 }, s);
  put_value = λ k v s. (k_ok, (k.path, k.key) ∷ s);
  get_value = λ k s. (if is_there k s then succeed undefined_value else fail k_key_not_found, s);
}

-- The messages for the numbers of one parity.
abbrev missing_from : ℕ → ℕ → ℕ → List Message
missing_from zero i parity = []
missing_from (suc count) i parity =
    let rest = missing_from count (suc i) parity in
    if i % 2 == parity then get_key_not_found (key_name i) ∷ rest else rest

-- The first node has the even keys, the second one the odd keys, and nobody has the last key.
prints_missing_keys :
    run_example simple_storage []
    ≡ some (missing_from 99 1 1 ++ get_key_not_found (key_name 100) ∷ missing_from 100 1 0)
unfolding run_example rounds put_round get_round put_message get_message key_name bytes_eq
prints_missing_keys = refl
