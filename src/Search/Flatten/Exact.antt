-- ===== src/Search/Flatten/Exact.antt =====
-- Which values internal/search/flatten.go puts under which key.
use cinc_server_ng.Prelude.{
  ◌≡◌, refl, ap, ◌∙◌, Bool, false, ◌&&◌, ◌||◌, List, [], ◌∷◌, ◌++◌, any, any-append, arith, Bytes,
  ◌==◌, eq_iff, contains, empty_map, set, get_or-set, get_or-empty, if◌then◌else◌,
}
use cinc_server_ng.Search.Query.{Fields, values}
use cinc_server_ng.Search.Json.{
  Json, null, bool, text, number, float, array, object, Items, no_items, item, Members, no_members,
  member,
}
use cinc_server_ng.Search.Flatten.{
  scalar_string, add_suffixes, add_leaf, at_leaf, walk_json, walk_items, walk_members, flatten,
}

-- `p` with each run of names in front of it, joined by underscores
unfoldable longer : Bytes → List Bytes → List Bytes
longer p [] = []
longer p (q ∷ ps) = (q ++ b'_' ∷ p) ∷ longer (q ++ b'_' ∷ p) ps

-- The keys of a path, held backwards: each of its ends, joined by underscores.
unfoldable pub suffixes : List Bytes → List Bytes
unfolding longer
suffixes [] = []
suffixes (p ∷ ps) = p ∷ longer p ps

-- the keys that the loop of add comes to, from `key`
unfoldable pub keys_from : Bytes → List Bytes → List Bytes
keys_from key [] = []
keys_from key (p ∷ ps) = let k = if key == [] then p else p ++ b'_' ∷ key in k ∷ keys_from k ps

abbrev pub Leaf : Type 0
Leaf = List Bytes × Bytes

module _ (to_lower : Bytes → Bytes) where
  abbrev leaf_at : List Bytes → Bytes → List Leaf
  leaf_at [] val = []
  leaf_at (p ∷ ps) val = (p ∷ ps, val) ∷ []

  -- The scalars of a document, each with its path of lower-case names, the last name first.
  unfoldable mutual
    pub leaves : List Bytes → Json → List Leaf
    leaves path (object ms) = leaves_of_members path ms
    leaves path (array xs) = leaves_of_items path xs
    leaves path null = leaf_at path []
    leaves path (bool b) = leaf_at path (scalar_string (bool b))
    leaves path (text s) = leaf_at path s
    leaves path (number s) = leaf_at path s
    leaves path (float s) = leaf_at path s

    pub leaves_of_items : List Bytes → Items → List Leaf
    leaves_of_items path no_items = []
    leaves_of_items path (item v xs) = leaves path v ++ leaves_of_items path xs

    pub leaves_of_members : List Bytes → Members → List Leaf
    leaves_of_members path no_members = []
    leaves_of_members path (member k v ms) =
        leaves (to_lower k ∷ path) v ++ leaves_of_members path ms

  -- The leaf puts `w` under `k`.
  abbrev pub puts : Bytes → Bytes → Leaf → Bool
  puts k w l = contains (suffixes l.0) k && to_lower l.1 == w

  -- the same, by the keys of the loop
  abbrev pub adds : Bytes → Bytes → Leaf → Bool
  adds k w l = contains (keys_from [] l.0) k && to_lower l.1 == w

-- The name in front of the scalar, the last of its path, is empty.
abbrev pub is_nameless : Leaf → Bool
is_nameless l = elim l.0 [ [] ↦ false | p ∷ ps ↦ p == [] ]

joined : (q p : Bytes) → (q ++ b'_' ∷ p == []) ≡ false
unfolding ◌==◌
joined [] p = refl
joined (c ∷ q) p = refl

keys_from-longer : (p : Bytes) (ps : List Bytes) → (p == []) ≡ false → keys_from p ps ≡ longer p ps
unfolding keys_from longer
keys_from-longer p [] h = refl
keys_from-longer p (q ∷ ps) h = ground (arith, keys_from-longer (q ++ b'_' ∷ p) ps (joined q p))

keys_from-suffixes :
    (path : List Bytes) (val : Bytes)
    → is_nameless (path, val) ≡ false
    → keys_from [] path ≡ suffixes path
unfolding keys_from suffixes ◌==◌
keys_from-suffixes [] val h = refl
keys_from-suffixes (p ∷ ps) val h = ap (λ ks. p ∷ ks) (keys_from-longer p ps h)

contains-add_suffixes :
    (val key : Bytes) (path : List Bytes) (f : Fields) (k w : Bytes)
    → contains (values (add_suffixes val key path f) k) w
      ≡ (contains (values f k) w || (contains (keys_from key path) k && val == w))
unfolding add_suffixes keys_from
contains-add_suffixes val key [] f k w = ground (arith)
contains-add_suffixes val key (p ∷ ps) f k w =
    let j = if key == [] then p else p ++ b'_' ∷ key in
    ground (
      arith,
      contains-add_suffixes val j ps (set f j (values f j ++ val ∷ [])) k w,
      get_or-set f j k (values f j ++ val ∷ []) [],
      any-append (λ x. x == w) (values f j) (val ∷ []),
      eq_iff j k,
    )

module _ (to_lower : Bytes → Bytes) (k w : Bytes) where
  abbrev holds : Fields → Bool
  holds f = contains (values f k) w

  contains-at_leaf :
      (path : List Bytes) (val : Bytes) (f : Fields)
      → holds (at_leaf to_lower path val f)
        ≡ (holds f || any (adds to_lower k w) (leaf_at to_lower path val))
  unfolding add_leaf
  contains-at_leaf [] val f = ground (arith)
  contains-at_leaf (p ∷ ps) val f =
      ground (arith, contains-add_suffixes (to_lower val) [] (p ∷ ps) f k w)

  mutual
    unfolding walk_json leaves scalar_string

    contains-walk_json :
        (path : List Bytes) (v : Json) (f : Fields)
        → holds (walk_json to_lower path v f)
          ≡ (holds f || any (adds to_lower k w) (leaves to_lower path v))
    contains-walk_json path (object ms) f = contains-walk_members path ms f
    contains-walk_json path (array xs) f = contains-walk_items path xs f
    contains-walk_json path null f = contains-at_leaf path [] f
    contains-walk_json path (bool b) f = contains-at_leaf path (scalar_string (bool b)) f
    contains-walk_json path (text s) f = contains-at_leaf path s f
    contains-walk_json path (number s) f = contains-at_leaf path s f
    contains-walk_json path (float s) f = contains-at_leaf path s f

    contains-walk_items :
        (path : List Bytes) (xs : Items) (f : Fields)
        → holds (walk_items to_lower path xs f)
          ≡ (holds f || any (adds to_lower k w) (leaves_of_items to_lower path xs))
    contains-walk_items path no_items f = ground (arith)
    contains-walk_items path (item v xs) f = ground (
      arith,
      contains-walk_items path xs (walk_json to_lower path v f),
      contains-walk_json path v f,
      any-append (adds to_lower k w) (leaves to_lower path v) (leaves_of_items to_lower path xs),
    )

    contains-walk_members :
        (path : List Bytes) (ms : Members) (f : Fields)
        → holds (walk_members to_lower path ms f)
          ≡ (holds f || any (adds to_lower k w) (leaves_of_members to_lower path ms))
    contains-walk_members path no_members f = ground (arith)
    contains-walk_members path (member j v ms) f = ground (
      arith,
      contains-walk_members path ms (walk_json to_lower (to_lower j ∷ path) v f),
      contains-walk_json (to_lower j ∷ path) v f,
      any-append (adds to_lower k w) (leaves to_lower (to_lower j ∷ path) v)
          (leaves_of_members to_lower path ms),
    )

  pub flatten-adds :
      (doc : Members)
      → contains (values (flatten to_lower doc) k) w
        ≡ any (adds to_lower k w) (leaves_of_members to_lower [] doc)
  unfolding flatten
  flatten-adds doc =
      ground (arith, contains-walk_members [] doc empty_map, get_or-empty {V = List Bytes} k [])

  any-adds :
      (ls : List Leaf)
      → any is_nameless ls ≡ false
      → any (adds to_lower k w) ls ≡ any (puts to_lower k w) ls
  any-adds [] h = refl
  any-adds ((path, val) ∷ ls) h =
      let same : keys_from [] path ≡ suffixes path = keys_from-suffixes path val (ground (arith)) in
      rw same (ap (λ b. puts to_lower k w (path, val) || b) (any-adds ls (ground (arith))))

  -- A document none of whose scalars is a member with an empty name, nor stands in lists below one, has a
  -- value under a key exactly if it has a scalar with that value, in lower case, and the key is an
  -- end of the scalar's path, its names in lower case and joined by underscores.
  pub flatten_exact :
      (doc : Members)
      → any is_nameless (leaves_of_members to_lower [] doc) ≡ false
      → contains (values (flatten to_lower doc) k) w
        ≡ any (puts to_lower k w) (leaves_of_members to_lower [] doc)
  flatten_exact doc h = flatten-adds doc ∙ any-adds (leaves_of_members to_lower [] doc) h
