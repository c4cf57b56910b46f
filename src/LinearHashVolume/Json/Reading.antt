-- ===== src/LinearHashVolume/Json/Reading.antt =====
-- What `fromJson` makes of the text that `toJson` writes.
use libkvs.Prelude.{
  ℕ, zero, suc, ◌≡◌, refl, sym, ◌∙◌, ap, Bytes, bytes, bytes_eq, Option, none, some, List, [], ◌∷◌,
  ◌++◌, append_assoc, append-nil,
}
use libkvs.LinearHashVolume.{TreeNode, TreeNodes, tree_node, no_tree_nodes, tree_child, put_tree}
use libkvs.LinearHashVolume.Json.{
  JsonImpl, JsonLaws, ◌>>=◌, member, set_files, pair_json, push_child, to_json, children_to_json,
  text_at, node_field, children_from_json, from_json,
}

bind-none :
    {A B : Type 0} (o : Option A) (f : A → Option B) → ((a : A) → f a ≡ none) → (o >>= f) ≡ none
bind-none none f h = refl
bind-none (some a) f h = h a

bind-ext :
    {A B : Type 0} (o : Option A) (f g : A → Option B)
    → ((a : A) → f a ≡ g a)
    → (o >>= f) ≡ (o >>= g)
bind-ext none f g h = refl
bind-ext (some a) f g h = h a

abbrev children_key : Bytes
children_key = bytes "children"

module _ (J : JsonImpl) (L : JsonLaws J) where
  as_text-children_to_json :
      (j : J.Json) (kids : TreeNodes)
      → J.as_text j ≡ none
      → J.as_text (children_to_json J j kids) ≡ none
  unfolding to_json
  as_text-children_to_json j no_tree_nodes h = h
  as_text-children_to_json j (tree_child name child others) h =
      as_text-children_to_json (push_child J j (pair_json J name (to_json J J.null child))) others
        (L.as_text-set j _ children_key)

  -- A node is written as an object, not as a text.
  as_text-to_json : (j : J.Json) (t : TreeNode) → J.as_text (to_json J j t) ≡ none
  unfolding to_json
  as_text-to_json j (tree_node p o st kids) =
      as_text-children_to_json (set_files J j p o) kids (L.as_text-set _ _ (bytes "node"))

  -- The elements that are there stay in front.
  get-children_to_json :
      (j arr : J.Json) (xs : List J.Json) (kids : TreeNodes)
      → J.get j children_key ≡ some arr
      → J.items arr ≡ some xs
      → (arr' : J.Json) × (ys : List J.Json) × (J.get (children_to_json J j kids) children_key
          ≡ some arr')
        × (J.items arr' ≡ some (xs ++ ys))
  unfolding to_json
  get-children_to_json j arr xs no_tree_nodes h k =
      (arr, [], h, k ∙ ap (λ l. some l) (sym (append-nil xs)))
  get-children_to_json j arr xs (tree_child name child others) h k =
      let pair = pair_json J name (to_json J J.null child) in
      let pushed = L.items-push_back arr pair xs k in
      let (arr', ys, e, f) =
        get-children_to_json (push_child J j pair) (J.push_back (member J j children_key) pair)
          (xs ++ pair ∷ []) others (L.get-set_self j _ children_key) (rw h pushed) in
      (arr', pair ∷ ys, e, f ∙ ap (λ l. some l) (append_assoc xs (pair ∷ []) ys))

  value-pair_json :
      (name : Bytes) (t : TreeNode)
      → text_at J (pair_json J name (to_json J J.null t)) (bytes "value") ≡ none
  value-pair_json name t =
      rw (L.get-set_self _ (to_json J J.null t) (bytes "value")) (as_text-to_json J.null t)

  children-set_files : (p o : Bytes) → J.get (set_files J J.null p o) children_key ≡ none
  children-set_files p o =
      L.get-set_ne _ _ (bytes "node") children_key (unfold bytes_eq in refl)
      ∙ L.get-set_ne _ _ (bytes "node") children_key (unfold bytes_eq in refl)
      ∙ L.get-null children_key

  -- The part of `fromJson` behind the two names of files.
  abbrev read_children :
      {A : Type 0} → (J.Json → Option TreeNode) → J.Json → (TreeNodes → Option A) → Option A
  read_children rec j finish = J.get j children_key >>= λ children.
      J.items children >>= λ elements. children_from_json J rec elements no_tree_nodes >>= finish

  read_children-to_json :
      {A : Type 0} (rec : J.Json → Option TreeNode) (t : TreeNode) (finish : TreeNodes → Option A)
      → read_children rec (to_json J J.null t) finish ≡ none
  unfolding to_json children_from_json
  read_children-to_json rec (tree_node p o st no_tree_nodes) finish = rw (children-set_files p o)
  read_children-to_json rec (tree_node p o st (tree_child name child others)) finish =
      let pair = pair_json J name (to_json J J.null child) in
      let base = set_files J J.null p o in
      let pushed = push_child J base pair in
      let made = J.push_back (member J base children_key) pair in
      let first : J.items made ≡ some (pair ∷ []) =
        rw (children-set_files p o) (L.items-push_back_null pair) in
      let (arr, ys, e, f) =
        get-children_to_json pushed made (pair ∷ []) others (L.get-set_self base made children_key)
          first in
      rw (e, f)
        (ap (λ (o : Option TreeNodes). o >>= finish)
          (bind-none (text_at J pair (bytes "key")) _ λ key.
            ap
              (λ (o : Option Bytes). o >>= λ value. rec (J.text value) >>= λ t.
                children_from_json J rec ys (put_tree key t no_tree_nodes))
              (value-pair_json name child)))

  -- If the JSON library keeps its laws, no tree is read back from the value that is made of it: the
  -- read ends in an exception or an undefined access, at every depth.
  pub from_json-to_json : (fuel : ℕ) (t : TreeNode) → from_json J fuel (to_json J J.null t) ≡ none
  unfolding from_json
  from_json-to_json zero t = refl
  from_json-to_json (suc fuel) t =
      let j = to_json J J.null t in
      bind-none (node_field J j (bytes "primaryFilepath")) _ λ p.
        bind-none (node_field J j (bytes "overflowFilepath")) _
          λ o. read_children-to_json (from_json J fuel) t (λ kids. some (tree_node p o none kids))

  from_json-text : (fuel : ℕ) (s : Bytes) → from_json J fuel (J.text s) ≡ none
  unfolding from_json
  from_json-text zero s = refl
  from_json-text (suc fuel) s = rw (L.get-text s (bytes "node"))

  children_from_json-text :
      (f g : ℕ) (els : List J.Json) (kids : TreeNodes)
      → children_from_json J (from_json J f) els kids
        ≡ children_from_json J (from_json J g) els kids
  unfolding children_from_json
  children_from_json-text f g [] kids = refl
  children_from_json-text f g (x ∷ els) kids = bind-ext (text_at J x (bytes "key")) _ _ λ name.
      bind-ext (text_at J x (bytes "value")) _ _
        λ value. rw (from_json-text f value, from_json-text g value)

  pub from_json_depth : (fuel : ℕ) (j : J.Json) → from_json J (suc fuel) j ≡ from_json J 2 j
  unfolding from_json
  from_json_depth fuel j = bind-ext (node_field J j (bytes "primaryFilepath")) _ _ λ p.
      bind-ext (node_field J j (bytes "overflowFilepath")) _ _ λ o.
        bind-ext (J.get j children_key) _ _ λ children. bind-ext (J.items children) _ _ λ els.
          ap (λ (k : Option TreeNodes). k >>= λ kids. some (tree_node p o none kids))
            (children_from_json-text fuel 1 els no_tree_nodes)
