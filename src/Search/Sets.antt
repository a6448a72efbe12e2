-- ===== src/Search/Sets.antt =====
-- internal/search/plan.go: sets of document ids, and their algebra.
use cinc_server_ng.Prelude.{
  ◌≡◌, Bool, not, ◌&&◌, ◌||◌, List, [], ◌∷◌, arith, Bytes, ◌==◌, eq_iff, contains, keep, length,
  ltb, if◌then◌else◌,
}

-- A set is a list of ids; the code looks at which ids are in it, and at how many.
abbrev pub DocIds : Type 0
DocIds = List Bytes

-- out[id] = struct{}{}
unfoldable pub add_id : DocIds → Bytes → DocIds
add_id a id = if contains a id then a else id ∷ a

-- delete(a, id)
unfoldable pub delete_id : DocIds → Bytes → DocIds
delete_id a id = keep (λ x. not (x == id)) a

unfoldable pub add_all : DocIds → DocIds → DocIds
unfolding add_id
add_all a [] = a
add_all a (id ∷ b) = add_all (add_id a id) b

-- the smaller one is iterated
unfoldable pub intersect : DocIds → DocIds → DocIds
intersect a b = if ltb (length b) (length a) then keep (contains a) b else keep (contains b) a

-- the larger one grows
unfoldable pub union : DocIds → DocIds → DocIds
unfolding add_all
union a b = if ltb (length a) (length b) then add_all b a else add_all a b

unfoldable pub difference : DocIds → DocIds → DocIds
unfolding delete_id
difference a [] = a
difference a (id ∷ b) = difference (delete_id a id) b

pub contains-keep :
    (p : Bytes → Bool) (a : DocIds) (v : Bytes) → contains (keep p a) v ≡ (p v && contains a v)
contains-keep p [] v = ground arith
contains-keep p (x ∷ a) v = ground (arith, contains-keep p a v, eq_iff x v)

pub contains-add_id :
    (a : DocIds) (id v : Bytes) → contains (add_id a id) v ≡ (id == v || contains a v)
unfolding add_id
contains-add_id a id v = ground (arith, eq_iff id v)

pub contains-delete_id :
    (a : DocIds) (id v : Bytes) → contains (delete_id a id) v ≡ (not (v == id) && contains a v)
unfolding delete_id
contains-delete_id a id v = contains-keep (λ x. not (x == id)) a v

pub contains-add_all :
    (a b : DocIds) (v : Bytes) → contains (add_all a b) v ≡ (contains a v || contains b v)
unfolding add_all
contains-add_all a [] v = ground arith
contains-add_all a (id ∷ b) v =
    ground (arith, contains-add_all (add_id a id) b v, contains-add_id a id v)

pub contains-intersect :
    (a b : DocIds) (v : Bytes) → contains (intersect a b) v ≡ (contains a v && contains b v)
unfolding intersect
contains-intersect a b v =
    ground (arith, contains-keep (contains a) b v, contains-keep (contains b) a v)

pub contains-union :
    (a b : DocIds) (v : Bytes) → contains (union a b) v ≡ (contains a v || contains b v)
unfolding union
contains-union a b v = ground (arith, contains-add_all a b v, contains-add_all b a v)

pub contains-difference :
    (a b : DocIds) (v : Bytes) → contains (difference a b) v ≡ (contains a v && not (contains b v))
unfolding difference
contains-difference a [] v = ground arith
contains-difference a (id ∷ b) v = ground (
  arith,
  contains-difference (delete_id a id) b v,
  contains-delete_id a id v,
  eq_iff id v,
  eq_iff v id,
)
