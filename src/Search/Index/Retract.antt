-- ===== src/Search/Index/Retract.antt =====
-- What `retract` and `remove` leave of an index.
use cinc_server_ng.Prelude.{
  ◌≡◌, refl, Bool, not, ◌&&◌, List, [], ◌∷◌, any, arith, Bytes, ◌==◌, eq_iff, contains, Map,
  empty_map, get, get_or, inner, get_or-set, get_or-delete, get_or-empty, any_of_is_empty,
  get_or_lem, get_of_is_empty, Option-cases, inl, inr,
}
use cinc_server_ng.Search.Sets.{DocIds, delete_id, contains-delete_id}
use cinc_server_ng.Search.Index.{IndexTerm, CollIndex, retract_from, retract_posting, retract_terms}

-- The documents at a value of a field.
abbrev pub posted : Map (Map DocIds) → Bytes → Bytes → DocIds
posted ps field value = get_or (inner ps field) value []

abbrev pub is_term : Bytes → Bytes → IndexTerm → Bool
is_term field value t = t.field == field && t.value == value

abbrev pub is_field : Bytes → IndexTerm → Bool
is_field field t = t.field == field

contains-retract_from :
    (id k : Bytes) (m : Map DocIds) (f j : Bytes)
    → contains (get_or (retract_from id k m) f []) j
      ≡ (contains (get_or m f []) j && not (j == id && k == f))
unfolding retract_from
contains-retract_from id k m f j = elim (Option-cases (get m k)) [
  | inl e ↦ ground (arith, get_or_lem m f [], eq_iff k f)
  | inr (ids, e) ↦ ground (
    arith,
    get_or_lem m f [],
    eq_iff k f,
    get_or-set m k f (delete_id ids id) [],
    get_or-delete m k f [],
    contains-delete_id ids id j,
    any_of_is_empty (λ x. x == j) (delete_id ids id),
  )
]

module _ (id : Bytes) (t : IndexTerm) (j : Bytes) where
  contains-retract_posting :
      (ps : Map (Map DocIds)) (field value : Bytes)
      → contains (posted (retract_posting id t ps) field value) j
        ≡ (contains (posted ps field value) j && not (j == id && is_term field value t))
  unfolding retract_posting
  contains-retract_posting ps field value = elim (Option-cases (get ps t.field)) [
    | inl e ↦ ground (
      arith,
      get_or_lem ps field empty_map,
      eq_iff t.field field,
      get_or-empty {V = DocIds} value [],
    )
    | inr (by_value, e) ↦
        let left = retract_from id t.value by_value in
        ground (
          arith,
          eq_iff t.field field,
          get_or_lem ps field empty_map,
          get_or-set ps t.field field left empty_map,
          get_or-delete ps t.field field empty_map,
          contains-retract_from id t.value by_value value j,
          get_of_is_empty left value,
          get_or_lem left value [],
          get_or-empty {V = DocIds} value [],
        )
  ]

-- The loop takes the id out of exactly the postings and the fields of the terms that it goes through.
module _ (id j : Bytes) where
  pub contains-retract_terms :
      (ts : List IndexTerm) (c : CollIndex) (field value : Bytes)
      → contains (posted (retract_terms id ts c).postings field value) j ≡ (
          contains (posted c.postings field value) j
          && not (j == id && any (is_term field value) ts))
  unfolding retract_terms
  contains-retract_terms [] c field value = ground arith
  contains-retract_terms (t ∷ ts) c field value =
      let d = record c {
        postings = retract_posting id t c.postings;
        field_docs = retract_from id t.field c.field_docs;
      } in
      ground (
        arith,
        contains-retract_terms ts d field value,
        contains-retract_posting id t j c.postings field value,
      )

  pub contains-retract_terms_field :
      (ts : List IndexTerm) (c : CollIndex) (field : Bytes)
      → contains (get_or (retract_terms id ts c).field_docs field []) j
        ≡ (contains (get_or c.field_docs field []) j && not (j == id && any (is_field field) ts))
  unfolding retract_terms
  contains-retract_terms_field [] c field = ground arith
  contains-retract_terms_field (t ∷ ts) c field =
      let d = record c {
        postings = retract_posting id t c.postings;
        field_docs = retract_from id t.field c.field_docs;
      } in
      ground (
        arith,
        contains-retract_terms_field ts d field,
        contains-retract_from id t.field c.field_docs field j,
      )

pub retract_terms_keeps :
    (id : Bytes) (ts : List IndexTerm) (c : CollIndex)
    → ((retract_terms id ts c).doc_terms ≡ c.doc_terms)
      × ((retract_terms id ts c).all_docs ≡ c.all_docs)
      × ((retract_terms id ts c).merge ≡ c.merge)
unfolding retract_terms
retract_terms_keeps id [] c = (refl, refl, refl)
retract_terms_keeps id (t ∷ ts) c = retract_terms_keeps id ts _
