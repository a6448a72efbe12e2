-- ===== src/Search/Index/View.antt =====
-- The postings view of an index that represents a collection returns what the planner wants, so a
-- search through the index is a search of the documents.
use cinc_server_ng.Prelude.{
  ◌≡◌, ◌∙◌, Bool, true, false, ◌&&◌, ◌||◌, some, List, [], ◌∷◌, any, any-entries_sound,
  any-entries_complete, arith, Bytes, eq_iff, eq_refl, contains, Map, empty_map, get, get-empty,
  get_or_lem, entries, inner, Bool-ext, Bool-cases, Option-cases, inl, inr,
}
use cinc_server_ng.Search.Query.{Runtime, Query, Fields, values, any_value, matches}
use cinc_server_ng.Search.Sets.{DocIds, add_all, contains-add_all}
use cinc_server_ng.Search.Plan.{IsIndexOf, doc_any, plan, IsPlannable, plan-eq-matches}
use cinc_server_ng.Search.Index.{CollIndex, match_values, match_fields, postings_view}
use cinc_server_ng.Search.Index.Retract.{posted}
use cinc_server_ng.Search.Index.Insert.{has_value}
use cinc_server_ng.Search.Index.Represents.{Represents}

any_of_has_value :
    (test : Bytes → Bool) (v : Bytes) (vs : List Bytes)
    → has_value v vs ≡ true
    → test v ≡ true
    → any test vs ≡ true
any_of_has_value test v [] h t = cc
any_of_has_value test v (x ∷ vs) h t = ground (arith, eq_iff x v, any_of_has_value test v vs)

value_of_any :
    (test : Bytes → Bool) (vs : List Bytes)
    → any test vs ≡ true
    → (v : Bytes) × (has_value v vs ≡ true) × (test v ≡ true)
value_of_any test [] h = cc
value_of_any test (x ∷ vs) h = elim (Bool-cases (test x)) [
  | inl e ↦ (x, ground (arith, eq_refl x), e)
  | inr e ↦ let (v, k, t) = value_of_any test vs (ground arith) in (v, ground arith, t)
]

module _ (test : Bytes → Bool) (id : Bytes) where
  contains-match_values :
      (es : List (Bytes × DocIds)) (out : DocIds)
      → contains (match_values test es out) id
        ≡ (contains out id || any (λ e. test e.0 && contains e.1 id) es)
  unfolding match_values
  contains-match_values [] out = ground arith
  contains-match_values ((v, ids) ∷ es) out = ground (
    arith,
    contains-match_values es (add_all out ids),
    contains-match_values es out,
    contains-add_all out ids id,
  )

  contains-match_fields :
      (es : List (Bytes × Map DocIds)) (out : DocIds)
      → contains (match_fields test es out) id
        ≡ (contains out id || any (λ e. any (λ x. test x.0 && contains x.1 id) (entries e.1)) es)
  unfolding match_fields
  contains-match_fields [] out = ground arith
  contains-match_fields ((field, m) ∷ es) out = ground (
    arith,
    contains-match_fields es (match_values test (entries m) out),
    contains-match_values (entries m) out,
  )

module _ (docs : Map Fields) (c : CollIndex) (r : Represents docs c) (test : Bytes → Bool)
    (id : Bytes) where
  -- The document holds, under `f`, a value that passes the test, when the postings say so.
  found :
      (f v : Bytes)
      → contains (posted c.postings f v) id ≡ true
      → test v ≡ true
      → doc_any docs id (λ d. any test (values d f)) ≡ true
  found f v p t = elim (Option-cases (get docs id)) [
    | inl e ↦ ground (arith, r.posted_lem f v id)
    | inr (d, e) ↦ ground (arith, r.posted_lem f v id, any_of_has_value test v (values d f))
  ]

  filed :
      (f : Bytes)
      → doc_any docs id (λ d. any test (values d f)) ≡ true
      → (v : Bytes) × (contains (posted c.postings f v) id ≡ true) × (test v ≡ true)
  filed f h = elim (Option-cases (get docs id)) [
    | inl e ↦ ground arith
    | inr (d, e) ↦
        let (v, k, t) = value_of_any test (values d f) (ground arith) in
        (v, ground (arith, r.posted_lem f v id), t)
  ]

  posted_test : (m : Map DocIds) → Bool
  posted_test m = any (λ e. test e.0 && contains e.1 id) (entries m)

  posted_test-field :
      (f : Bytes) → posted_test (inner c.postings f) ≡ doc_any docs id (λ d. any test (values d f))
  unfolding posted_test
  posted_test-field f = Bool-ext _ _ there back
    where
      m : Map DocIds
      m = inner c.postings f

      there : posted_test m ≡ true → doc_any docs id (λ d. any test (values d f)) ≡ true
      there a =
          let (v, ids, g, q) = any-entries_sound (λ v ids. test v && contains ids id) m a in
          found f v (ground (arith, get_or_lem m v [])) (ground arith)

      back : doc_any docs id (λ d. any test (values d f)) ≡ true → posted_test m ≡ true
      back a =
          let (v, p, t) = filed f a in
          elim (Option-cases (get m v)) [
            | inl e ↦ ground (arith, get_or_lem m v [])
            | inr (ids, e) ↦
                any-entries_complete (λ v ids. test v && contains ids id) m v ids e
                  (ground (arith, get_or_lem m v []))
          ]

  posted_test-empty : posted_test empty_map ≡ false
  unfolding posted_test
  posted_test-empty = elim (Bool-cases (posted_test empty_map)) [
    | inl e ↦
        let (v, ids, g, q) =
          any-entries_sound (λ v ids. test v && contains ids id) (empty_map {V = DocIds}) e in
        cc (g, get-empty {V = DocIds} v)
    | inr e ↦ e
  ]

  match_any-posted :
      any (λ e. posted_test e.1) (entries c.postings) ≡ doc_any docs id (any_value test)
  match_any-posted = Bool-ext _ _ there back
    where
      there :
          any (λ e. posted_test e.1) (entries c.postings) ≡ true
          → doc_any docs id (any_value test) ≡ true
      there a =
          let (f, m, g, q) = any-entries_sound (λ f m. posted_test m) c.postings a in
          let held : doc_any docs id (λ d. any test (values d f)) ≡ true =
            ground (arith, posted_test-field f, get_or_lem c.postings f empty_map) in
          elim (Option-cases (get docs id)) [
            | inl e ↦ ground arith
            | inr (d, e) ↦ elim (Option-cases (get d f)) [
              | inl e' ↦ ground (arith, get_or_lem d f [])
              | inr (vs, e') ↦
                  let whole : any_value test d ≡ true =
                    any-entries_complete (λ f vs. any test vs) d f vs e'
                      (ground (arith, get_or_lem d f [])) in
                  ground arith
            ]
          ]

      back :
          doc_any docs id (any_value test) ≡ true
          → any (λ e. posted_test e.1) (entries c.postings) ≡ true
      back a = elim (Option-cases (get docs id)) [
        | inl e ↦ ground arith
        | inr (d, e) ↦
            let (f, vs, g, q) = any-entries_sound (λ f vs. any test vs) d (ground arith) in
            elim (Option-cases (get c.postings f)) [
              | inl e' ↦ ground (
                arith,
                posted_test-field f,
                posted_test-empty,
                get_or_lem c.postings f empty_map,
                get_or_lem d f [],
              )
              | inr (m, e') ↦
                  any-entries_complete (λ f m. posted_test m) c.postings f m e'
                    (ground (
                      arith,
                      posted_test-field f,
                      get_or_lem c.postings f empty_map,
                      get_or_lem d f [],
                    ))
            ]
      ]

-- The view of an index that represents a collection answers each of the planner's questions with
-- exactly the documents that it asks for.
pub postings_view-IsIndexOf :
    (docs : Map Fields) (c : CollIndex) → Represents docs c → IsIndexOf docs (postings_view c)
unfolding postings_view posted_test
postings_view-IsIndexOf docs c r = record {
  exact_lem = λ field value id. r.posted_lem field value id;
  exists_lem = λ field id. r.fielded_lem field id;
  match_lem = λ field test id.
      contains-match_values test id (entries (inner c.postings field)) []
      ∙ posted_test-field docs c r test id field;
  match_any_lem = λ test id.
      contains-match_fields test id (entries c.postings) [] ∙ match_any-posted docs c r test id;
  all_lem = λ id. r.all_docs_lem id;
}

-- A search through an index that represents the collection finds exactly the documents that the
-- query matches, for any query that `Parse` can return.
pub index_search_exact :
    (R : Runtime) (docs : Map Fields) (c : CollIndex) (q : Query)
    → Represents docs c
    → IsPlannable q
    → (ids : DocIds) × (plan R (postings_view c) q ≡ some ids)
      × ((id : Bytes) → contains ids id ≡ doc_any docs id (matches R q))
index_search_exact R docs c q r h =
    plan-eq-matches R docs (postings_view c) q (postings_view-IsIndexOf docs c r) h
