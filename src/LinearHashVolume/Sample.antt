-- ===== src/LinearHashVolume/Sample.antt =====
-- JSON values as a data type, which keep the laws, and paths whose directory is known.
use mathlib.Core.Option.{some-injective}
use libkvs.Prelude.{
  ◌∙◌, ◌≡◌, refl, Bytes, bytes, bytes_eq, bytes_eq_refl, Bool, true, false, Option, none, some,
  List, [], ◌∷◌, ◌++◌, if◌then◌else◌, ap,
}
use libkvs.LinearHashVolume.{PathOps}
use libkvs.LinearHashVolume.Json.{JsonImpl, JsonLaws}

mutual
  pub data Value : Type 0 where
    null : Value
    text : (s : Bytes) → Value
    object : (fields : Members) → Value
    array : (elements : Elements) → Value

  pub data Members : Type 0 where
    no_members : Members
    member : (key : Bytes) (value : Value) (others : Members) → Members

  pub data Elements : Type 0 where
    no_elements : Elements
    element : (value : Value) (others : Elements) → Elements

unfoldable pub find_member : Bytes → Members → Option Value
find_member k no_members = none
find_member k (member j v others) = if bytes_eq j k then some v else find_member k others

abbrev pub members_of : Value → Members
members_of (object fields) = fields
members_of _ = no_members

abbrev pub to_list : Elements → List Value
to_list no_elements = []
to_list (element v others) = v ∷ to_list others

abbrev pub append : Elements → Value → Elements
append no_elements x = element x no_elements
append (element v others) x = element v (append others x)

abbrev pub items_of : Value → Option (List Value)
items_of null = some []
items_of (array es) = some (to_list es)
items_of _ = none

abbrev pub push : Value → Value → Value
push null x = array (element x no_elements)
push (array es) x = array (append es x)
push j x = j

abbrev pub text_of : Value → Option Bytes
text_of (text s) = some s
text_of _ = none

abbrev pub is_object_value : Value → Bool
is_object_value (object _) = true
is_object_value _ = false

-- A later member hides an earlier one.
abbrev pub values : JsonImpl
values = record {
  Json = Value;
  null = null;
  text = text;
  get = λ j k. find_member k (members_of j);
  set = λ j k x. object (member k x (members_of j));
  push_back = push;
  items = items_of;
  as_text = text_of;
  is_object = is_object_value;
  parse = λ t. some null;
  dump = λ j. some [];
}

to_list-append : (es : Elements) (x : Value) → to_list (append es x) ≡ to_list es ++ x ∷ []
to_list-append no_elements x = refl
to_list-append (element v others) x = ap (λ vs. v ∷ vs) (to_list-append others x)

items-push :
    (j x : Value) (xs : List Value)
    → items_of j ≡ some xs
    → items_of (push j x) ≡ some (xs ++ x ∷ [])
items-push null x xs e = ap (λ ys. some (ys ++ x ∷ [])) (some-injective [] xs e)
items-push (text s) x xs e = absurd (cc e)
items-push (object m) x xs e = absurd (cc e)
items-push (array es) x xs e =
    ap (λ ys. some ys) (to_list-append es x)
    ∙ ap (λ ys. some (ys ++ x ∷ [])) (some-injective (to_list es) xs e)

pub values-laws : JsonLaws values
values-laws = record {
  get-set_self = λ j x k. unfold find_member in rw (bytes_eq_refl k) refl;
  get-set_ne = λ j x k l ne. unfold find_member in rw ne refl;
  get-null = λ k. unfold find_member in refl;
  get-text = λ s k. unfold find_member in refl;
  items-push_back_null = λ x. refl;
  items-push_back = items-push;
  as_text-text = λ s. refl;
  as_text-set = λ j x k. refl;
}

abbrev pub in_directory : PathOps
in_directory = record {
  filename = λ p. p;
  parent_path = λ p. bytes "d";
  join = λ p q. p ++ bytes "/" ++ q;
}
