-- ===== src/VirtualStorage/Tests.antt =====
-- Runs of the virtual storage, and its theorems at concrete inputs: a node "A" with two layers.
use libkvs.Prelude.{
  ◌≡◌, refl, ◌==◌, bytes, bytes_eq, [], ◌∷◌, arith, Bytes, Bool, true, ℕ, if◌then◌else◌, take,
}
use libkvs.Prelude.Int.{ℤ, pos}
use libkvs.StringUtils.{split}
use libkvs.Value.{k_int32, Value}
use libkvs.Key.{Record, Key, Keys, succeed, k_ok, k_key_not_found, k_node_not_found, permanent}
use libkvs.Storage.{answer, is_some}
use libkvs.LinearHashStorage as Hash
use libkvs.LinearHashStorage.Sample.{Entries, list_storage, list_storage-laws}
use libkvs.VirtualStorage.{Node, node, child_entry, no_children, MountedStorage, find_child}
use libkvs.VirtualStorage.Resolve.{resolve_node}
use libkvs.VirtualStorage.Resolve.Laws.{node_at}
use libkvs.VirtualStorage.Values.{get_value, put_value, delete_value}
use libkvs.VirtualStorage.Values.Laws.{visible}
use libkvs.VirtualStorage.Values.Reads.{
  layers, node_not_found, get_value-visible, get_value-put_value, visible-put_value_ne,
}
use libkvs.VirtualStorage.Values.Deletes.{holder, delete_value-holder}
use libkvs.VirtualStorage.Ranges.{
  get_keys_range, new_keys, skip_keys, collect_keys, excluded, replied,
}
use libkvs.LinearHashStorage.Table.{selected_keys}
use libkvs.StringUtils.{slash}
use libkvs.VirtualStorage.Resolve.Order.{nodes_along, depth, held_as, resolve_node-locks}
use libkvs.MgMutex.{k_ix}
use libkvs.Prelude.{map, suc}
use libkvs.VirtualStorage.Resolve.{release_order}

abbrev pub layer : ℕ → ℤ → MountedStorage
layer p priority = record { storage = p; priority = priority }

abbrev pub upper : MountedStorage
upper = layer 1 (pos 1)

abbrev pub lower : MountedStorage
lower = layer 2 (pos 0)

abbrev pub root : Node
root = node [] [] (child_entry (bytes "A") (node [] (upper ∷ lower ∷ []) no_children) no_children)

abbrev number : ℕ → Record
number n = record {
  value_type = k_int32;
  raw_value = n ∷ 0 ∷ 0 ∷ 0 ∷ [];
  creation_timestamp_ms = pos 0;
  expiration_timestamp_ms = pos 5000;
}

abbrev heap : ℕ → Entries
heap p =
    if p == 1
    then (bytes "a", number 1) ∷ []
    else if p == 2
    then (bytes "a", number 2) ∷ (bytes "b", number 3) ∷ []
    else []

abbrev at_time : ℤ → ℕ → ℤ
at_time t i = t

abbrev seven : Value
seven = record { raw_value = 7 ∷ 0 ∷ 0 ∷ 0 ∷ []; type = k_int32 }

abbrev key_of : Bytes → Key
key_of name = permanent name (bytes "A")

layers_of_root : layers list_storage root (bytes "A") ≡ upper ∷ lower ∷ []
unfolding node_at find_child bytes_eq split
layers_of_root = refl

-- The put goes to the layer that has the key, not to the top one.
get_value-put_value_example :
    let put = put_value list_storage (at_time (pos 1000)) root heap (key_of (bytes "b")) seven in
    (put.0 ≡ k_ok)
    × (get_value list_storage (at_time (pos 1500)) root put.1 (key_of (bytes "b")) ≡ succeed seven)
get_value-put_value_example =
    get_value-put_value list_storage list_storage-laws (at_time (pos 1000)) (at_time (pos 1500))
      root heap (key_of (bytes "b")) seven upper (lower ∷ []) layers_of_root (λ i j. omega arith)
      (λ j. omega arith)

get_value-visible_example :
    get_value list_storage (at_time (pos 1000)) root heap (key_of (bytes "a"))
    ≡ answer
        (visible list_storage list_storage-laws (pos 1000) heap (bytes "a") (upper ∷ lower ∷ []))
get_value-visible_example =
    get_value-visible list_storage list_storage-laws (at_time (pos 1000)) (pos 1000) root heap
      (key_of (bytes "a")) upper (lower ∷ []) layers_of_root (λ i. refl)

visible-put_value_ne_example :
    visible list_storage list_storage-laws
      (pos 1500)
      (put_value list_storage (at_time (pos 1000)) root heap (key_of (bytes "b")) seven).1
      (bytes "a")
      (upper ∷ lower ∷ [])
    ≡ visible list_storage list_storage-laws (pos 1500) heap (bytes "a") (upper ∷ lower ∷ [])
unfolding bytes_eq
visible-put_value_ne_example =
    visible-put_value_ne list_storage list_storage-laws (at_time (pos 1000)) (pos 1500) root heap
      (key_of (bytes "b")) seven (bytes "a") (upper ∷ lower ∷ []) refl (λ i. omega arith)

missing_node :
    delete_value list_storage root heap (permanent (bytes "a") (bytes "B"))
    ≡ (k_node_not_found, heap)
unfolding node_at find_child bytes_eq split
missing_node =
    (node_not_found list_storage (at_time (pos 0)) root heap (permanent (bytes "a") (bytes "B"))
      seven refl).2

delete_value-holder_example : (delete_value list_storage root heap (key_of (bytes "b"))).0 ≡ (
    if is_some (holder list_storage list_storage-laws heap (bytes "b") (upper ∷ lower ∷ []))
    then k_ok
    else k_key_not_found)
delete_value-holder_example =
    (delete_value-holder list_storage list_storage-laws root heap (key_of (bytes "b")) upper
      (lower ∷ []) layers_of_root).0

abbrev page_of : ℕ → ℕ → Keys
page_of from count = record { path = bytes "A"; index_from = from; keys_count = count }

abbrev any_number : ℕ → Bool
any_number n = true

-- The first two keys, and then the page that starts behind two keys: "b" is on both.
pages_overlap :
    (get_keys_range list_storage (at_time (pos 0)) heap any_number root (page_of 0 2)
      ≡ replied (succeed (record { keys = bytes "a" ∷ bytes "b" ∷ [] })))
    × (get_keys_range list_storage (at_time (pos 0)) heap any_number root (page_of 2 1)
        ≡ replied (succeed (record { keys = bytes "b" ∷ [] })))
unfolding get_keys_range resolve_node Hash.get_keys_range Hash.get_size find_child bytes_eq split
    skip_keys collect_keys new_keys selected_keys excluded
pages_overlap = (refl, refl)

resolve_node-locks_example :
    (resolve_node root (bytes "A/b") k_ix).1
    ≡ map (held_as k_ix) (
        take
          (suc (depth root (split (bytes "A/b") slash)))
          (nodes_along [] (split (bytes "A/b") slash)))
resolve_node-locks_example = resolve_node-locks root (bytes "A/b") k_ix

-- "b" is not there: the root and "A" are locked, and "A" is released first.
released_backwards :
    release_order (resolve_node root (bytes "A/b") k_ix).1
    ≡ held_as k_ix (bytes "A" ∷ []) ∷ held_as k_ix [] ∷ []
unfolding release_order resolve_node find_child bytes_eq split
released_backwards = refl
