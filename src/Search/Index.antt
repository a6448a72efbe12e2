-- ===== src/Search/Index.antt =====
-- internal/api/searchindex.go: the inverted index of one collection. A caller holds the index's lock
-- for the whole of each operation, so each is one step.
pub mod Retract
pub mod Insert
pub mod Represents
pub mod View
pub mod Merge
use cinc_server_ng.Prelude.{
  Bool, true, false, ◌&&◌, Option, none, some, List, [], ◌∷◌, ◌++◌, map, any, Bytes, ◌==◌, is_empty,
  Map, empty_map, get, get_or, set, delete, entries, inner, if◌then◌else◌, length, ℕ,
}
use cinc_server_ng.Search.Query.{Fields}
use cinc_server_ng.Search.Sets.{DocIds, add_id, delete_id, add_all}
use cinc_server_ng.Search.Plan.{Postings}

-- term
pub record IndexTerm : Type 0 where
  pub field : Bytes
  pub value : Bytes

pub record CollIndex : Type 0 where
  pub merge : Bool
  pub postings : Map (Map DocIds)
  pub field_docs : Map DocIds
  pub doc_terms : Map (List IndexTerm)
  pub all_docs : DocIds

unfoldable pub new_coll_index : Bool → CollIndex
new_coll_index merge = record {
  merge = merge;
  postings = empty_map;
  field_docs = empty_map;
  doc_terms = empty_map;
  all_docs = [];
}

-- In the set at `k`, if there is one, the id is deleted, and the set with it when it becomes empty.
retract_from : Bytes → Bytes → Map DocIds → Map DocIds
unfolding delete_id
retract_from id k m = elim (get m k) [
  | none ↦ m
  | some ids ↦ let left = delete_id ids id in if is_empty left then delete m k else set m k left
]

-- The postings of the term in one round of the loop in retract.
retract_posting : Bytes → IndexTerm → Map (Map DocIds) → Map (Map DocIds)
unfolding retract_from
retract_posting id t ps = elim (get ps t.field) [
  | none ↦ ps
  | some by_value ↦
      let left = retract_from id t.value by_value in
      if is_empty (entries left) then delete ps t.field else set ps t.field left
]

pub retract_terms : Bytes → List IndexTerm → CollIndex → CollIndex
unfolding retract_posting
retract_terms id [] c = c
retract_terms id (t ∷ ts) c = retract_terms id ts (record c {
  postings = retract_posting id t c.postings;
  field_docs = retract_from id t.field c.field_docs;
})

unfoldable pub retract : Bytes → CollIndex → CollIndex
unfolding retract_terms
retract id c =
    let d = retract_terms id (get_or c.doc_terms id []) c in
    record d { doc_terms = set d.doc_terms id [] }

-- remove
unfoldable pub remove : Bytes → CollIndex → CollIndex
unfolding retract
remove id c =
    let d = retract id c in
    record d { doc_terms = delete d.doc_terms id; all_docs = delete_id d.all_docs id }

-- The loops of put: the maps of a field are made when its first document comes, and each value has
-- the id added and a term recorded.
pub put_values :
    Bytes → Bytes → List Bytes → CollIndex × List IndexTerm → CollIndex × List IndexTerm
unfolding add_id
put_values id field [] s = s
put_values id field (v ∷ vs) (c, terms) =
    let by_value = inner c.postings field in
    put_values id field vs (
      record c {
        postings = set c.postings field (set by_value v (add_id (get_or by_value v []) id));
      },
      terms ++ (record { field = field; value = v }) ∷ [],
    )

pub put_fields :
    Bytes → List (Bytes × List Bytes) → CollIndex × List IndexTerm → CollIndex × List IndexTerm
unfolding put_values
put_fields id [] s = s
put_fields id ((field, vs) ∷ rest) (c, terms) = put_fields id rest (
    put_values id field vs (
      record c {
        postings = set c.postings field (inner c.postings field);
        field_docs = set c.field_docs field (add_id (get_or c.field_docs field []) id);
      },
      terms,
    ))

unfoldable pub put : Bytes → Fields → CollIndex → CollIndex
unfolding put_fields retract
put id fields c =
    let (d, terms) = put_fields id (entries fields) (retract id c, []) in
    record d { doc_terms = set d.doc_terms id terms; all_docs = add_id d.all_docs id }

unfoldable pub size : CollIndex → ℕ
size c = length c.all_docs

-- postingsView: each method returns a fresh set.
pub match_values : (Bytes → Bool) → List (Bytes × DocIds) → DocIds → DocIds
unfolding add_all
match_values test [] out = out
match_values test ((v, ids) ∷ rest) out =
    match_values test rest (if test v then add_all out ids else out)

pub match_fields : (Bytes → Bool) → List (Bytes × Map DocIds) → DocIds → DocIds
unfolding match_values
match_fields test [] out = out
match_fields test ((field, by_value) ∷ rest) out =
    match_fields test rest (match_values test (entries by_value) out)

unfoldable pub postings_view : CollIndex → Postings
unfolding match_fields
postings_view c = record {
  exact = λ field value. get_or (inner c.postings field) value [];
  exists_in = λ field. get_or c.field_docs field [];
  match_in = λ field test. match_values test (entries (inner c.postings field)) [];
  match_any = λ test. match_fields test (entries c.postings) [];
  all_ids = c.all_docs;
}
