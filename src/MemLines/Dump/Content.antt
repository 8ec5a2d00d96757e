-- ===== src/MemLines/Dump/Content.antt =====
-- What a reader finds in the document.
use Prim.Native.String.{String}
use text.Mathlib.Text.{◌==◌ as str_eq}
use mathlib.Core.List.{append_assoc, append-nil}
use core_map.Base.{ℕ, ◌≡◌, refl, sym, ap, ◌∙◌, true, false, if◌then◌else◌, pos, List, [], ◌∷◌, ◌++◌}
use core_map.MemLines.Object.{MemLines, Node}
use core_map.MemLines.Dump.{Json, push_all, push_nodes, ints, paths, path_json, node_json, document}

-- What the library documents: a field holds what it was last given, and push_back appends, to `null`
-- as to an empty array.
pub record IsJson {J : Type 0} (j : Json J) : Type 0 where
  pub items : J → List J
  pub get_set :
      (k l : String) (v doc : J)
      → j.field k (j.with_field l v doc) ≡ (if str_eq k l then v else j.field k doc)
  pub get_null : (k : String) → j.field k j.null ≡ j.null
  pub items_null : items j.null ≡ []
  pub items_array : items j.array ≡ []
  pub items_push : (a x : J) → items (j.push_back a x) ≡ items a ++ x ∷ []

module _ {J : Type 0} (j : Json J) (law : IsJson j) where
  open j use {null, array, text, int, field, with_field, push_back}
  open law use {items, get_set, get_null, items_null, items_array, items_push}

  items-push_all :
      (key : String) (xs : List J) (doc : J)
      → str_eq key key ≡ true
      → items (field key (push_all j key xs doc)) ≡ items (field key doc) ++ xs
  unfolding push_all
  items-push_all key [] doc e = sym (append-nil _)
  items-push_all key (x ∷ xs) doc e =
      items-push_all key xs _ e
      ∙ ap (λ (l : List J). l ++ xs) (ap items (get_set key key _ doc ∙ rw e) ∙ items_push _ x)
      ∙ append_assoc (items (field key doc)) (x ∷ []) xs

  other-push_all :
      (key other : String) (xs : List J) (doc : J)
      → str_eq other key ≡ false
      → field other (push_all j key xs doc) ≡ field other doc
  unfolding push_all
  other-push_all key other [] doc e = refl
  other-push_all key other (x ∷ xs) doc e =
      other-push_all key other xs _ e ∙ get_set other key _ doc ∙ rw e

  pub nodes : List Node → List J
  nodes [] = []
  nodes (n ∷ ns) = node_json j n ∷ nodes ns

  push_nodes-push_all :
      (path : List Node) (jp : J) → push_nodes j path jp ≡ push_all j "path" (nodes path) jp
  unfolding push_nodes push_all nodes
  push_nodes-push_all [] jp = refl
  push_nodes-push_all (n ∷ path) jp = push_nodes-push_all path _

  -- The document has the ppin, the id of the OS core of each CHA, and an entry for each busy path.
  pub record Holds (ppin_str : String) (ml : MemLines) (doc : J) : Type 0 where
    pub ppin : field "ppin" doc ≡ text ppin_str
    pub cha_to_os : items (field "CHA_to_os" doc) ≡ ints j ml.core_map_cha_to_os
    pub busy_paths : items (field "busy_paths" doc) ≡ paths j ml.busy_paths

  -- For every JSON library whose fields hold what they were last given and whose arrays grow by
  -- what is pushed: a reader finds in the document the ppin, the id of the OS core of each CHA in
  -- order, and an entry for each busy path in order.
  pub document-Holds :
      (ppin_str : String) (ml : MemLines) → Holds ppin_str ml (document j ppin_str ml)
  unfolding document
  document-Holds ppin_str ml = record {
    ppin =
        other-push_all "busy_paths" "ppin" _ _ refl
        ∙ get_set "ppin" "busy_paths" _ _
        ∙ other-push_all "CHA_to_os" "ppin" _ _ refl
        ∙ get_set "ppin" "CHA_to_os" _ _
        ∙ get_set "ppin" "ppin" _ _;
    cha_to_os =
        ap items
          (other-push_all "busy_paths" "CHA_to_os" _ _ refl ∙ get_set "CHA_to_os" "busy_paths" _ _)
        ∙ items-push_all "CHA_to_os" _ _ refl
        ∙ ap (λ (l : List J). l ++ ints j ml.core_map_cha_to_os)
            (ap items (get_set "CHA_to_os" "CHA_to_os" _ _) ∙ items_array);
    busy_paths =
        items-push_all "busy_paths" _ _ refl
        ∙ ap (λ (l : List J). l ++ paths j ml.busy_paths)
            (ap items (get_set "busy_paths" "busy_paths" _ _) ∙ items_array);
  }

  -- An entry has both ids and the nodes in order; an empty path has no field "path" at all.
  pub record HoldsPath (id_a id_b : ℕ) (path : List Node) (jp : J) : Type 0 where
    pub id_a_field : field "id_A" jp ≡ int (pos id_a)
    pub id_b_field : field "id_B" jp ≡ int (pos id_b)
    pub nodes_field : items (field "path" jp) ≡ nodes path
    pub absent : path ≡ [] → field "path" jp ≡ null

  -- For every JSON library whose fields hold what they were last given and whose arrays grow by
  -- what is pushed: the entry of a busy path has both ids and the nodes in order, and no field for
  -- the nodes when there are none.
  pub path_json-HoldsPath :
      (id_a id_b : ℕ) (path : List Node)
      → HoldsPath id_a id_b path (path_json j ((id_a, id_b), path))
  unfolding path_json
  path_json-HoldsPath id_a id_b path = rw (push_nodes-push_all path) (record {
    id_a_field =
        other-push_all "path" "id_A" _ _ refl
        ∙ get_set "id_A" "id_B" _ _
        ∙ get_set "id_A" "id_A" _ _;
    id_b_field = other-push_all "path" "id_B" _ _ refl ∙ get_set "id_B" "id_B" _ _;
    nodes_field =
        items-push_all "path" _ _ refl
        ∙ ap (λ (l : List J). l ++ nodes path) (ap items none_yet ∙ items_null);
    absent = λ e. rw e (unfold push_all nodes in none_yet);
  })
    where
      none_yet :
          field "path"
            (with_field "id_B" (int (pos id_b)) (with_field "id_A" (int (pos id_a)) null))
          ≡ null
      none_yet = get_set "path" "id_B" _ _ ∙ get_set "path" "id_A" _ _ ∙ get_null "path"
