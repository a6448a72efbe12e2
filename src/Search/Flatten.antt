-- ===== src/Search/Flatten.antt =====
-- internal/search/flatten.go: the fields that a document is searched by. Lower case is a parameter.
pub mod Exact
pub mod Filled
use cinc_server_ng.Prelude.{
  Bool, true, false, List, [], ◌∷◌, ◌++◌, Bytes, lit, ◌==◌, Map, empty_map, set, if◌then◌else◌,
}
use cinc_server_ng.Search.Query.{Fields, values}
use cinc_server_ng.Search.Json.{
  Json, null, bool, text, number, float, array, object, Items, no_items, item, Members, no_members,
  member,
}

-- scalarString, for a scalar
unfoldable pub scalar_string : Json → Bytes
scalar_string (text s) = s
scalar_string (number s) = s
scalar_string (bool true) = lit "true"
scalar_string (bool false) = lit "false"
scalar_string (float s) = s
scalar_string _ = []

-- The loop of add. The path is held backwards, its last segment first.
unfoldable pub add_suffixes : Bytes → Bytes → List Bytes → Fields → Fields
add_suffixes val key [] fields = fields
add_suffixes val key (p ∷ ps) fields =
    let k = if key == [] then p else p ++ b'_' ∷ key in
    add_suffixes val k ps (set fields k (values fields k ++ val ∷ []))

module _ (to_lower : Bytes → Bytes) where
  -- add
  unfoldable pub add_leaf : List Bytes → Bytes → Fields → Fields
  unfolding add_suffixes
  add_leaf path val fields = add_suffixes (to_lower val) [] path fields

  -- the leaf of a scalar, if it stands below a key
  abbrev at_leaf : List Bytes → Bytes → Fields → Fields
  at_leaf [] val fields = fields
  at_leaf (p ∷ ps) val fields = add_leaf (p ∷ ps) val fields

  -- walk
  unfoldable mutual
    pub walk_json : List Bytes → Json → Fields → Fields
    walk_json path (object ms) fields = walk_members path ms fields
    walk_json path (array xs) fields = walk_items path xs fields
    walk_json path null fields = at_leaf path [] fields
    walk_json path (bool b) fields = at_leaf path (scalar_string (bool b)) fields
    walk_json path (text s) fields = at_leaf path (scalar_string (text s)) fields
    walk_json path (number s) fields = at_leaf path (scalar_string (number s)) fields
    walk_json path (float s) fields = at_leaf path (scalar_string (float s)) fields

    pub walk_items : List Bytes → Items → Fields → Fields
    walk_items path no_items fields = fields
    walk_items path (item v xs) fields = walk_items path xs (walk_json path v fields)

    pub walk_members : List Bytes → Members → Fields → Fields
    walk_members path no_members fields = fields
    walk_members path (member k v ms) fields =
        walk_members path ms (walk_json (to_lower k ∷ path) v fields)

  -- Flatten
  unfoldable pub flatten : Members → Fields
  unfolding walk_members
  flatten doc = walk_members [] doc empty_map
