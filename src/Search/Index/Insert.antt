-- ===== src/Search/Index/Insert.antt =====
-- What the loops of `put` add to an index.
use cinc_server_ng.Prelude.{
  ◌≡◌, refl, ◌∙◌, Bool, not, ◌&&◌, ◌||◌, List, [], ◌∷◌, ◌++◌, any, any-append, arith, Bytes, ◌==◌,
  eq_iff, contains, is_empty, Map, get_or, set, inner, get_or-set, empty_map,
}
use cinc_server_ng.Search.Sets.{DocIds, add_id, contains-add_id}
use cinc_server_ng.Search.Index.{IndexTerm, CollIndex, put_values, put_fields}
use cinc_server_ng.Search.Index.Retract.{posted, is_term, is_field}

abbrev pub has_value : Bytes → List Bytes → Bool
has_value v vs = any (λ x. x == v) vs

contains-posted-set :
    (ps : Map (Map DocIds)) (field v id f w j : Bytes)
    → contains
        (posted
          (set ps field (set (inner ps field) v (add_id (get_or (inner ps field) v []) id)))
          f
          w)
        j
      ≡ (contains (posted ps f w) j || id == j && (field == f && v == w))
contains-posted-set ps field v id f w j =
    let by_value = inner ps field in
    let ids = add_id (get_or by_value v []) id in
    ground (
      arith,
      eq_iff field f,
      eq_iff v w,
      get_or-set ps field f (set by_value v ids) empty_map,
      get_or-set by_value v w ids [],
      contains-add_id (get_or by_value v []) id j,
    )

module _ (id field : Bytes) (f w j : Bytes) where
  contains-put_values :
      (vs : List Bytes) (c : CollIndex) (ts : List IndexTerm)
      → contains (posted (put_values id field vs (c, ts)).0.postings f w) j
        ≡ (contains (posted c.postings f w) j || id == j && (field == f && has_value w vs))
  unfolding put_values
  contains-put_values [] c ts = ground arith
  contains-put_values (v ∷ vs) c ts = ground (
    arith,
    contains-put_values vs
        (record c {
          postings =
              set c.postings field
                (set (inner c.postings field) v (add_id (get_or (inner c.postings field) v []) id));
        })
        (ts ++ record { field = field; value = v } ∷ []),
    contains-posted-set c.postings field v id f w j,
  )

  any-put_values :
      (vs : List Bytes) (c : CollIndex) (ts : List IndexTerm)
      → any (is_term f w) (put_values id field vs (c, ts)).1
        ≡ (any (is_term f w) ts || field == f && has_value w vs)
  unfolding put_values
  any-put_values [] c ts = ground arith
  any-put_values (v ∷ vs) c ts = ground (
    arith,
    any-put_values vs
        (record c {
          postings =
              set c.postings field
                (set (inner c.postings field) v (add_id (get_or (inner c.postings field) v []) id));
        })
        (ts ++ record { field = field; value = v } ∷ []),
    any-append (is_term f w) ts (record { field = field; value = v } ∷ []),
  )

  any-put_values_field :
      (vs : List Bytes) (c : CollIndex) (ts : List IndexTerm)
      → any (is_field f) (put_values id field vs (c, ts)).1
        ≡ (any (is_field f) ts || field == f && not (is_empty vs))
  unfolding put_values
  any-put_values_field [] c ts = ground arith
  any-put_values_field (v ∷ vs) c ts = ground (
    arith,
    any-put_values_field vs
        (record c {
          postings =
              set c.postings field
                (set (inner c.postings field) v (add_id (get_or (inner c.postings field) v []) id));
        })
        (ts ++ record { field = field; value = v } ∷ []),
    any-append (is_field f) ts (record { field = field; value = v } ∷ []),
  )

put_values_keeps :
    (id field : Bytes) (vs : List Bytes) (c : CollIndex) (ts : List IndexTerm)
    → ((put_values id field vs (c, ts)).0.field_docs ≡ c.field_docs)
      × ((put_values id field vs (c, ts)).0.doc_terms ≡ c.doc_terms)
      × ((put_values id field vs (c, ts)).0.all_docs ≡ c.all_docs)
unfolding put_values
put_values_keeps id field [] c ts = (refl, refl, refl)
put_values_keeps id field (v ∷ vs) c ts = put_values_keeps id field vs _ _

-- The state in which the values of a field are gone through.
abbrev opened : Bytes → Bytes → CollIndex → CollIndex
opened id field c = record c {
  postings = set c.postings field (inner c.postings field);
  field_docs = set c.field_docs field (add_id (get_or c.field_docs field []) id);
}

abbrev pub holds : Bytes → Bytes → List (Bytes × List Bytes) → Bool
holds f w es = any (λ e. e.0 == f && has_value w e.1) es

module _ (id : Bytes) (f w j : Bytes) where
  contains-opened :
      (field : Bytes) (c : CollIndex)
      → contains (posted (opened id field c).postings f w) j ≡ contains (posted c.postings f w) j
  contains-opened field c =
      ground
        (arith, eq_iff field f, get_or-set c.postings field f (inner c.postings field) empty_map)

  pub contains-put_fields :
      (es : List (Bytes × List Bytes)) (c : CollIndex) (ts : List IndexTerm)
      → contains (posted (put_fields id es (c, ts)).0.postings f w) j
        ≡ (contains (posted c.postings f w) j || id == j && holds f w es)
  unfolding put_fields
  contains-put_fields [] c ts = ground arith
  contains-put_fields ((field, vs) ∷ es) c ts =
      let (d, us) = put_values id field vs (opened id field c, ts) in
      ground (
        arith,
        contains-put_fields es d us,
        contains-put_values id field f w j vs (opened id field c) ts,
        contains-opened field c,
      )

  pub contains-put_fields_field :
      (es : List (Bytes × List Bytes)) (c : CollIndex) (ts : List IndexTerm)
      → contains (get_or (put_fields id es (c, ts)).0.field_docs f []) j
        ≡ (contains (get_or c.field_docs f []) j || id == j && any (λ e. e.0 == f) es)
  unfolding put_fields
  contains-put_fields_field [] c ts = ground arith
  contains-put_fields_field ((field, vs) ∷ es) c ts =
      let (d, us) = put_values id field vs (opened id field c, ts) in
      ground (
        arith,
        contains-put_fields_field es d us,
        (put_values_keeps id field vs (opened id field c) ts).0,
        eq_iff field f,
        get_or-set c.field_docs field f (add_id (get_or c.field_docs field []) id) [],
        contains-add_id (get_or c.field_docs field []) id j,
      )

  pub any-put_fields :
      (es : List (Bytes × List Bytes)) (c : CollIndex) (ts : List IndexTerm)
      → any (is_term f w) (put_fields id es (c, ts)).1 ≡ (any (is_term f w) ts || holds f w es)
  unfolding put_fields
  any-put_fields [] c ts = ground arith
  any-put_fields ((field, vs) ∷ es) c ts =
      let (d, us) = put_values id field vs (opened id field c, ts) in
      ground
        (arith, any-put_fields es d us, any-put_values id field f w j vs (opened id field c) ts)

  pub any-put_fields_field :
      (es : List (Bytes × List Bytes)) (c : CollIndex) (ts : List IndexTerm)
      → any (is_field f) (put_fields id es (c, ts)).1
        ≡ (any (is_field f) ts || any (λ e. e.0 == f && not (is_empty e.1)) es)
  unfolding put_fields
  any-put_fields_field [] c ts = ground arith
  any-put_fields_field ((field, vs) ∷ es) c ts =
      let (d, us) = put_values id field vs (opened id field c, ts) in
      ground (
        arith,
        any-put_fields_field es d us,
        any-put_values_field id field f w j vs (opened id field c) ts,
      )

pub put_fields_keeps :
    (id : Bytes) (es : List (Bytes × List Bytes)) (c : CollIndex) (ts : List IndexTerm)
    → ((put_fields id es (c, ts)).0.doc_terms ≡ c.doc_terms)
      × ((put_fields id es (c, ts)).0.all_docs ≡ c.all_docs)
unfolding put_fields
put_fields_keeps id [] c ts = (refl, refl)
put_fields_keeps id ((field, vs) ∷ es) c ts =
    let (d, us) = put_values id field vs (opened id field c, ts) in
    let (_, t, a) = put_values_keeps id field vs (opened id field c) ts in
    let (t', a') = put_fields_keeps id es d us in (t' ∙ t, a' ∙ a)
