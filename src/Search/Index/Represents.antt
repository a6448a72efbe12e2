-- ===== src/Search/Index/Represents.antt =====
-- An index represents a collection: its postings, its fields, its terms and its ids are those of the
-- documents. Each operation keeps that, and the view of such an index is what the planner wants.
use cinc_server_ng.Prelude.{
  ◌≡◌, refl, ap, Bool, false, not, ◌&&◌, List, [], any, any-entries-at, any-entries-key, arith,
  Bytes, ◌==◌, eq_iff, contains, is_empty, is_some, Map, empty_map, get, get_or, get_or_lem, set,
  delete, entries, if◌then◌else◌, get-set, get-delete, get_or-set, get_or-delete, get-empty,
  get_or-empty, Option-cases, inl, inr,
}
use cinc_server_ng.Search.Query.{HasValues, Fields, values}
use cinc_server_ng.Search.Sets.{DocIds, contains-add_id, contains-delete_id}
use cinc_server_ng.Search.Plan.{doc_any}
use cinc_server_ng.Search.Index.{
  IndexTerm, CollIndex, new_coll_index, retract, remove, put_fields, put,
}
use cinc_server_ng.Search.Index.Retract.{
  posted, is_term, is_field, contains-retract_terms, contains-retract_terms_field,
  retract_terms_keeps,
}
use cinc_server_ng.Search.Index.Insert.{
  has_value, holds, contains-put_fields, contains-put_fields_field, any-put_fields,
  any-put_fields_field, put_fields_keeps,
}

pub record Represents (docs : Map Fields) (c : CollIndex) : Type 0 where
  pub posted_lem :
      (f w id : Bytes)
      → contains (posted c.postings f w) id ≡ doc_any docs id (λ d. has_value w (values d f))
  pub fielded_lem :
      (f id : Bytes)
      → contains (get_or c.field_docs f []) id ≡ doc_any docs id (λ d. not (is_empty (values d f)))
  pub term_lem :
      (f w id : Bytes)
      → any (is_term f w) (get_or c.doc_terms id [])
        ≡ doc_any docs id (λ d. has_value w (values d f))
  pub term_field_lem :
      (f id : Bytes)
      → any (is_field f) (get_or c.doc_terms id [])
        ≡ doc_any docs id (λ d. not (is_empty (values d f)))
  pub all_docs_lem : (id : Bytes) → contains c.all_docs id ≡ is_some (get docs id)

pub new_coll_index-Represents : (merge : Bool) → Represents empty_map (new_coll_index merge)
unfolding new_coll_index
new_coll_index-Represents merge = record {
  posted_lem = λ f w id. ground (
    arith,
    get_or-empty {V = Map DocIds} f empty_map,
    get_or-empty {V = DocIds} w [],
    get-empty {V = Fields} id,
  );
  fielded_lem = λ f id. ground (arith, get_or-empty {V = DocIds} f [], get-empty {V = Fields} id);
  term_lem =
      λ f w id. ground (arith, get_or-empty {V = List IndexTerm} id [], get-empty {V = Fields} id);
  term_field_lem =
      λ f id. ground (arith, get_or-empty {V = List IndexTerm} id [], get-empty {V = Fields} id);
  all_docs_lem = λ id. ground (arith, get-empty {V = Fields} id);
}

doc_any-delete :
    (docs : Map Fields) (id j : Bytes) (test : Fields → Bool)
    → doc_any (delete docs id) j test ≡ (if id == j then false else doc_any docs j test)
doc_any-delete docs id j test = ground (arith, get-delete docs id j)

doc_any-set :
    (docs : Map Fields) (id j : Bytes) (d : Fields) (test : Fields → Bool)
    → doc_any (set docs id d) j test ≡ (if id == j then test d else doc_any docs j test)
doc_any-set docs id j d test = ground (arith, get-set docs id j d)

module _ (docs : Map Fields) (c : CollIndex) (r : Represents docs c) (id : Bytes) where
  -- Retraction takes out all that the document had put in.
  contains-retract :
      (f w j : Bytes)
      → contains (posted (retract id c).postings f w) j
        ≡ (contains (posted c.postings f w) j && not (id == j))
  unfolding retract
  contains-retract f w j = ground (
    arith,
    contains-retract_terms id j (get_or c.doc_terms id []) c f w,
    r.term_lem f w id,
    r.posted_lem f w j,
    eq_iff j id,
    eq_iff id j,
  )

  contains-retract_field :
      (f j : Bytes)
      → contains (get_or (retract id c).field_docs f []) j
        ≡ (contains (get_or c.field_docs f []) j && not (id == j))
  unfolding retract
  contains-retract_field f j = ground (
    arith,
    contains-retract_terms_field id j (get_or c.doc_terms id []) c f,
    r.term_field_lem f id,
    r.fielded_lem f j,
    eq_iff j id,
    eq_iff id j,
  )

  retract_keeps :
      ((retract id c).doc_terms ≡ set c.doc_terms id []) × ((retract id c).all_docs ≡ c.all_docs)
  unfolding retract
  retract_keeps =
      let (t, a, m) = retract_terms_keeps id (get_or c.doc_terms id []) c in
      (ap (λ x. set x id []) t, a)

  terms-remove :
      (j : Bytes)
      → get_or (remove id c).doc_terms j [] ≡ (if id == j then [] else get_or c.doc_terms j [])
  unfolding remove
  terms-remove j = ground (
    arith,
    retract_keeps,
    get_or-delete (set c.doc_terms id []) id j [],
    get_or-set c.doc_terms id j [] [],
  )

  -- When a document goes, the index represents the collection without it.
  pub remove-Represents : Represents (delete docs id) (remove id c)
  unfolding remove
  remove-Represents = record {
    posted_lem =
        λ f w j. ground (arith, contains-retract f w j, r.posted_lem f w j, get-delete docs id j);
    fielded_lem =
        λ f j. ground (arith, contains-retract_field f j, r.fielded_lem f j, get-delete docs id j);
    term_lem = λ f w j. ground (arith, terms-remove j, r.term_lem f w j, get-delete docs id j);
    term_field_lem =
        λ f j. ground (arith, terms-remove j, r.term_field_lem f j, get-delete docs id j);
    all_docs_lem = λ j. ground (
      arith,
      retract_keeps,
      contains-delete_id c.all_docs id j,
      r.all_docs_lem j,
      get-delete docs id j,
      eq_iff j id,
      eq_iff id j,
    );
  }

holds-entries : (d : Fields) (f w : Bytes) → holds f w (entries d) ≡ has_value w (values d f)
holds-entries d f w = any-entries-at (has_value w) d [] f refl

valued_entries :
    (d : Fields) (f : Bytes)
    → any (λ e. e.0 == f && not (is_empty e.1)) (entries d) ≡ not (is_empty (values d f))
valued_entries d f = any-entries-at (λ vs. not (is_empty vs)) d [] f refl

key_entries :
    (d : Fields) (f : Bytes)
    → HasValues d
    → any (λ e. e.0 == f) (entries d) ≡ not (is_empty (values d f))
key_entries d f h = elim (Option-cases (get d f)) [
  | inl e ↦ ground (arith, any-entries-key d f, get_or_lem d f [])
  | inr (vs, e) ↦ ground (arith, any-entries-key d f, get_or_lem d f [], h f vs e)
]

module _ (docs : Map Fields) (c : CollIndex) (r : Represents docs c) (id : Bytes) (d : Fields) where
  abbrev loop : CollIndex × List IndexTerm
  loop = put_fields id (entries d) (retract id c, [])

  terms-put :
      (j : Bytes)
      → get_or (put id d c).doc_terms j [] ≡ (if id == j then loop.1 else get_or c.doc_terms j [])
  unfolding put
  terms-put j = ground (
    arith,
    put_fields_keeps id (entries d) (retract id c) [],
    retract_keeps docs c r id,
    get_or-set loop.0.doc_terms id j loop.1 [],
    get_or-set c.doc_terms id j [] [],
  )

  -- When a document comes or changes, the index represents the collection with it.
  pub put-Represents : HasValues d → Represents (set docs id d) (put id d c)
  unfolding put
  put-Represents h = record {
    posted_lem = λ f w j. ground (
      arith,
      contains-put_fields id f w j (entries d) (retract id c) [],
      contains-retract docs c r id f w j,
      r.posted_lem f w j,
      holds-entries d f w,
      get-set docs id j d,
    );
    fielded_lem = λ f j. ground (
      arith,
      contains-put_fields_field id f [] j (entries d) (retract id c) [],
      contains-retract_field docs c r id f j,
      r.fielded_lem f j,
      key_entries d f h,
      get-set docs id j d,
    );
    term_lem = λ f w j. ground (
      arith,
      terms-put j,
      any-put_fields id f w j (entries d) (retract id c) [],
      holds-entries d f w,
      r.term_lem f w j,
      get-set docs id j d,
    );
    term_field_lem = λ f j. ground (
      arith,
      terms-put j,
      any-put_fields_field id f [] j (entries d) (retract id c) [],
      valued_entries d f,
      r.term_field_lem f j,
      get-set docs id j d,
    );
    all_docs_lem = λ j. ground (
      arith,
      put_fields_keeps id (entries d) (retract id c) [],
      retract_keeps docs c r id,
      contains-add_id c.all_docs id j,
      r.all_docs_lem j,
      get-set docs id j d,
    );
  }
