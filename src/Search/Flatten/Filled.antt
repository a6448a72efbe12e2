-- ===== src/Search/Flatten/Filled.antt =====
-- internal/search/flatten.go puts a value under each key that it makes.
use cinc_server_ng.Prelude.{
  ◌≡◌, refl, false, List, [], ◌∷◌, ◌++◌, is_empty, arith, Bytes, ◌==◌, empty_map, set, get-set,
  get-empty, if◌then◌else◌,
}
use cinc_server_ng.Search.Query.{Fields, values, HasValues}
use cinc_server_ng.Search.Json.{
  Json, null, bool, text, number, float, array, object, Items, no_items, item, Members, no_members,
  member,
}
use cinc_server_ng.Search.Flatten.{
  scalar_string, add_suffixes, add_leaf, at_leaf, walk_json, walk_items, walk_members, flatten,
}

append-HasValues : (vs : List Bytes) (v : Bytes) → is_empty (vs ++ v ∷ []) ≡ false
append-HasValues [] v = refl
append-HasValues (x ∷ vs) v = refl

add_suffixes-HasValues :
    (val key : Bytes) (path : List Bytes) (f : Fields)
    → HasValues f
    → HasValues (add_suffixes val key path f)
unfolding add_suffixes
add_suffixes-HasValues val key [] f h = h
add_suffixes-HasValues val key (p ∷ ps) f h =
    let j = if key == [] then p else p ++ b'_' ∷ key in
    add_suffixes-HasValues val j ps (set f j (values f j ++ val ∷ [])) (λ k vs e.
      ground
        (arith, get-set f j k (values f j ++ val ∷ []), append-HasValues (values f j) val, h k vs))

module _ (to_lower : Bytes → Bytes) where
  at_leaf-HasValues :
      (path : List Bytes) (val : Bytes) (f : Fields)
      → HasValues f
      → HasValues (at_leaf to_lower path val f)
  unfolding add_leaf
  at_leaf-HasValues [] val f h = h
  at_leaf-HasValues (p ∷ ps) val f h = add_suffixes-HasValues (to_lower val) [] (p ∷ ps) f h

  mutual
    unfolding walk_json

    walk_json-HasValues :
        (path : List Bytes) (v : Json) (f : Fields)
        → HasValues f
        → HasValues (walk_json to_lower path v f)
    walk_json-HasValues path (object ms) f h = walk_members-HasValues path ms f h
    walk_json-HasValues path (array xs) f h = walk_items-HasValues path xs f h
    walk_json-HasValues path null f h = at_leaf-HasValues path [] f h
    walk_json-HasValues path (bool b) f h = at_leaf-HasValues path (scalar_string (bool b)) f h
    walk_json-HasValues path (text s) f h = at_leaf-HasValues path (scalar_string (text s)) f h
    walk_json-HasValues path (number s) f h = at_leaf-HasValues path (scalar_string (number s)) f h
    walk_json-HasValues path (float s) f h = at_leaf-HasValues path (scalar_string (float s)) f h

    walk_items-HasValues :
        (path : List Bytes) (xs : Items) (f : Fields)
        → HasValues f
        → HasValues (walk_items to_lower path xs f)
    walk_items-HasValues path no_items f h = h
    walk_items-HasValues path (item v xs) f h =
        walk_items-HasValues path xs (walk_json to_lower path v f) (walk_json-HasValues path v f h)

    walk_members-HasValues :
        (path : List Bytes) (ms : Members) (f : Fields)
        → HasValues f
        → HasValues (walk_members to_lower path ms f)
    walk_members-HasValues path no_members f h = h
    walk_members-HasValues path (member k v ms) f h =
        walk_members-HasValues path ms (walk_json to_lower (to_lower k ∷ path) v f)
          (walk_json-HasValues (to_lower k ∷ path) v f h)

  pub flatten-HasValues : (doc : Members) → HasValues (flatten to_lower doc)
  unfolding flatten
  flatten-HasValues doc =
      walk_members-HasValues [] doc empty_map
        (λ k vs e. ground (arith, get-empty {V = List Bytes} k))
