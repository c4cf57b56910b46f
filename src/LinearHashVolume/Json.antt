-- ===== src/LinearHashVolume/Json.antt =====
-- `toJson` and `fromJson`. The values of libs/json are the parameter `JsonImpl`; `none` is an
-- exception, or the undefined behaviour of a read of a key that is not there.
pub mod Reading
use libkvs.Prelude.{
  ℕ, Bool, zero, suc, ◌≡◌, Bytes, bytes, bytes_eq, false, Option, none, some, List, [], ◌∷◌, ◌++◌,
}
use libkvs.LinearHashVolume.{TreeNode, TreeNodes, tree_node, no_tree_nodes, tree_child, put_tree}

pub record JsonImpl : Type 1 where
  pub Json : Type 0
  pub null : Json
  pub text : Bytes → Json
  -- operator[] of a const value
  pub get : Json → Bytes → Option Json
  -- `j[key] = value`
  pub set : Json → Bytes → Json → Json
  pub push_back : Json → Json → Json
  -- the elements of a range-based for
  pub items : Json → Option (List Json)
  -- the conversion to std::string
  pub as_text : Json → Option Bytes
  pub is_object : Json → Bool
  pub parse : Bytes → Option Json
  -- the text that operator<< writes; none is the exception for a text that is not UTF-8
  pub dump : Json → Option Bytes

pub record JsonLaws (J : JsonImpl) : Type 0 where
  pub get-set_self : (j x : J.Json) (k : Bytes) → J.get (J.set j k x) k ≡ some x
  pub get-set_ne :
      (j x : J.Json) (k l : Bytes) → bytes_eq k l ≡ false → J.get (J.set j k x) l ≡ J.get j l
  pub get-null : (k : Bytes) → J.get J.null k ≡ none
  pub get-text : (s k : Bytes) → J.get (J.text s) k ≡ none
  pub items-push_back_null : (x : J.Json) → J.items (J.push_back J.null x) ≡ some (x ∷ [])
  pub items-push_back :
      (j x : J.Json) (xs : List J.Json)
      → J.items j ≡ some xs
      → J.items (J.push_back j x) ≡ some (xs ++ x ∷ [])
  pub as_text-text : (s : Bytes) → J.as_text (J.text s) ≡ some s
  pub as_text-set : (j x : J.Json) (k : Bytes) → J.as_text (J.set j k x) ≡ none

infixl 5 ◌>>=◌
abbrev ◌>>=◌ {ℓ κ} : {A : Type ℓ} {B : Type κ} → Option A → (A → Option B) → Option B
none >>= f = none
some a >>= f = f a

module _ (J : JsonImpl) where
  -- operator[] of a value that is not const makes a missing member, which is null.
  abbrev pub or_null : Option J.Json → J.Json
  or_null none = J.null
  or_null (some j) = j

  abbrev pub member : J.Json → Bytes → J.Json
  member j k = or_null (J.get j k)

  -- j["node"][field] = text
  abbrev pub set_node_field : J.Json → Bytes → Bytes → J.Json
  set_node_field j field value =
      J.set j (bytes "node") (J.set (member j (bytes "node")) field (J.text value))

  abbrev pub set_files : J.Json → Bytes → Bytes → J.Json
  set_files j primary overflow =
      set_node_field (set_node_field j (bytes "primaryFilepath") primary) (bytes "overflowFilepath")
        overflow

  -- pairJson
  abbrev pub pair_json : Bytes → J.Json → J.Json
  pair_json name child = J.set (J.set J.null (bytes "key") (J.text name)) (bytes "value") child

  abbrev pub push_child : J.Json → J.Json → J.Json
  push_child j pair = J.set j (bytes "children") (J.push_back (member j (bytes "children")) pair)

  -- toJson
  unfoldable mutual
    pub to_json : J.Json → TreeNode → J.Json
    to_json j (tree_node primary overflow storage kids) =
        children_to_json (set_files j primary overflow) kids

    pub children_to_json : J.Json → TreeNodes → J.Json
    children_to_json j no_tree_nodes = j
    children_to_json j (tree_child name child others) =
        children_to_json (push_child j (pair_json name (to_json J.null child))) others

  -- The text at j[key], and at j["node"][field].
  abbrev pub text_at : J.Json → Bytes → Option Bytes
  text_at j key = do x ← J.get j key; J.as_text x

  abbrev pub node_field : J.Json → Bytes → Option Bytes
  node_field j field = do n ← J.get j (bytes "node"); text_at n field

  -- The loop of `fromJson`; `rec` is the recursive call, on the value that the text childValue makes.
  unfoldable pub children_from_json :
      (J.Json → Option TreeNode) → List J.Json → TreeNodes → Option TreeNodes
  children_from_json rec [] kids = some kids
  children_from_json rec (child ∷ more) kids = do
    name ← text_at child (bytes "key")
    value ← text_at child (bytes "value")
    t ← rec (J.text value)
    children_from_json rec more (put_tree name t kids)

  -- fromJson into a new node. On fuel; `from_json_depth` shows that one level is always enough.
  unfoldable pub from_json : ℕ → J.Json → Option TreeNode
  unfolding children_from_json
  from_json zero j = none
  from_json (suc fuel) j = do
    primary ← node_field j (bytes "primaryFilepath")
    overflow ← node_field j (bytes "overflowFilepath")
    children ← J.get j (bytes "children")
    elements ← J.items children
    kids ← children_from_json (from_json fuel) elements no_tree_nodes
    some (tree_node primary overflow none kids)
