-- ===== src/Search/Registry/Shows.antt =====
-- What an index of internal/api/searchindex.go shows of a collection of raw documents.
use cinc_server_ng.Prelude.{
  ◌≡◌, refl, sym, ◌∙◌, Bool, false, Option, none, some, List, [], ◌∷◌, any, arith, Bytes, ◌==◌,
  eq_iff, Map, empty_map, get, set, delete, get-set, get-delete, get-empty, entries, if◌then◌else◌,
  Option-cases, inl, inr,
}
use cinc_server_ng.Prelude.Maps.Entries.{find_entry, IsUnique, find_entry-entries, entries-IsUnique}
use cinc_server_ng.Store.Memory.{range_loop}
use cinc_server_ng.Search.Json.{Members}
use cinc_server_ng.Search.Flatten.{flatten}
use cinc_server_ng.Search.Flatten.Filled.{flatten-HasValues}
use cinc_server_ng.Search.Merge.{node_search_doc}
use cinc_server_ng.Search.Query.{Fields, HasValues}
use cinc_server_ng.Search.Index.{CollIndex, new_coll_index, put, remove}
use cinc_server_ng.Search.Index.Merge.{merge-put, merge-remove}
use cinc_server_ng.Search.Index.Represents.{
  Represents, put-Represents, remove-Represents, new_coll_index-Represents,
}
use cinc_server_ng.Search.Registry.{fields_of, put_raw, read_document}

find_of_any :
    (es : List (Bytes × Bytes)) (k : Bytes)
    → any (λ e. e.0 == k) es ≡ false
    → find_entry es k ≡ none
find_of_any [] k h = refl
find_of_any ((j, v) ∷ es) k h = ground (arith, find_of_any es k)

HasValues-of_eq : (d e : Fields) → d ≡ e → HasValues d → HasValues e
HasValues-of_eq d e p h = rw (sym p) h

module _ (to_lower : Bytes → Bytes) (decode : Bytes → Option Members) where
  abbrev pub fields_at : Bool → Option Bytes → Option Fields
  fields_at merge none = none
  fields_at merge (some raw) = fields_of to_lower decode merge raw

  -- The index represents the collection that has the document `g id` under each id.
  pub record Shows (g : Bytes → Option Bytes) (c : CollIndex) : Type 0 where
    pub docs : Map Fields
    pub same : (id : Bytes) → get docs id ≡ fields_at c.merge (g id)
    pub represents : Represents docs c

  pub Shows-of_same :
      (g h : Bytes → Option Bytes) (c : CollIndex)
      → ((id : Bytes) → h id ≡ g id)
      → Shows g c
      → Shows h c
  Shows-of_same g h c e s = record {
    docs = s.docs;
    same = λ id. rw (e id) (s.same id);
    represents = s.represents;
  }

  pub remove-Shows :
      (g h : Bytes → Option Bytes) (id : Bytes) (c : CollIndex)
      → ((j : Bytes) → h j ≡ (if id == j then none else g j))
      → Shows g c
      → Shows h (remove id c)
  remove-Shows g h id c e s = record {
    docs = delete s.docs id;
    same = λ j. ground (arith, e j, s.same j, get-delete s.docs id j, merge-remove id c);
    represents = remove-Represents s.docs c s.represents id;
  }

  put-Shows :
      (g h : Bytes → Option Bytes) (id : Bytes) (raw : Bytes) (d : Fields) (c : CollIndex)
      → ((j : Bytes) → h j ≡ (if id == j then some raw else g j))
      → fields_of to_lower decode c.merge raw ≡ some d
      → HasValues d
      → Shows g c
      → Shows h (put id d c)
  put-Shows g h id raw d c e f v s = record {
    docs = set s.docs id d;
    same = λ j. ground (arith, e j, s.same j, get-set s.docs id j d, merge-put id d c);
    represents = put-Represents s.docs c s.represents id d v;
  }

  fields_of-HasValues :
      (merge : Bool) (raw : Bytes) (d : Fields)
      → fields_of to_lower decode merge raw ≡ some d
      → HasValues d
  unfolding fields_of
  fields_of-HasValues merge raw d e = elim (Option-cases (decode raw)) [
    | inl n ↦ cc
    | inr (doc, m) ↦
        HasValues-of_eq (flatten to_lower (if merge then node_search_doc doc else doc)) d
          (ground (arith)) (flatten-HasValues to_lower (if merge then node_search_doc doc else doc))
  ]

  pub put_raw-Shows :
      (g h : Bytes → Option Bytes) (id raw : Bytes) (c : CollIndex)
      → ((j : Bytes) → h j ≡ (if id == j then some raw else g j))
      → Shows g c
      → Shows h (put_raw to_lower decode id raw c)
  unfolding put_raw
  put_raw-Shows g h id raw c e s = elim (Option-cases (fields_of to_lower decode c.merge raw)) [
    | inl n ↦
        rw (put_raw, n)
          (record {
            docs = delete s.docs id;
            same = λ j. ground (arith, e j, s.same j, get-delete s.docs id j, merge-remove id c);
            represents = remove-Represents s.docs c s.represents id;
          })
    | inr (d, f) ↦
        rw (put_raw, f) (put-Shows g h id raw d c e f (fields_of-HasValues c.merge raw d f) s)
  ]

  pub merge-put_raw :
      (id raw : Bytes) (c : CollIndex) → (put_raw to_lower decode id raw c).merge ≡ c.merge
  unfolding put_raw
  merge-put_raw id raw c = elim (Option-cases (fields_of to_lower decode c.merge raw)) [
    | inl n ↦ ground (arith, merge-remove id c)
    | inr (d, f) ↦ ground (arith, merge-put id d c)
  ]

  pub new_coll_index-Shows : (merge : Bool) → Shows (λ id. none) (new_coll_index merge)
  new_coll_index-Shows merge = record {
    docs = empty_map;
    same = λ id. get-empty {V = Fields} id;
    represents = new_coll_index-Represents merge;
  }

  -- the loop of a build, over documents with ids of their own
  range-Shows :
      (es : List (Bytes × Bytes)) (g h : Bytes → Option Bytes) (c : CollIndex)
      → IsUnique es
      → ((j : Bytes) → h j ≡ (elim (find_entry es j) [ none ↦ g j | some raw ↦ some raw ]))
      → Shows g c
      → Shows h (range_loop (read_document to_lower decode) es c)
  unfolding range_loop
  range-Shows [] g h c u e s = Shows-of_same g h c e s
  range-Shows ((k, raw) ∷ es) g h c (u, us) e s =
      range-Shows es (λ j. if k == j then some raw else g j) h (put_raw to_lower decode k raw c) us
        (λ j. ground (arith, e j, find_of_any es k u, eq_iff k j))
        (put_raw-Shows g (λ j. if k == j then some raw else g j) k raw c (λ j. refl) s)

  merge-range :
      (es : List (Bytes × Bytes)) (c : CollIndex)
      → (range_loop (read_document to_lower decode) es c).merge ≡ c.merge
  unfolding range_loop
  merge-range [] c = refl
  merge-range ((k, raw) ∷ es) c =
      merge-range es (put_raw to_lower decode k raw c) ∙ merge-put_raw k raw c

  -- A new index that has read a collection shows it.
  pub built-Shows :
      (m : Map Bytes) (merge : Bool)
      → Shows
          (get m)
          (range_loop (read_document to_lower decode) (entries m) (new_coll_index merge))
  built-Shows m merge =
      range-Shows (entries m) (λ id. none) (get m) (new_coll_index merge) (entries-IsUnique m)
        (λ j. ground (arith, find_entry-entries m j)) (new_coll_index-Shows merge)

  pub merge-built :
      (m : Map Bytes) (merge : Bool)
      → (range_loop (read_document to_lower decode) (entries m) (new_coll_index merge)).merge
        ≡ merge
  unfolding new_coll_index
  merge-built m merge = merge-range (entries m) (new_coll_index merge)
