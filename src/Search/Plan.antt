-- ===== src/Search/Plan.antt =====
-- internal/search/plan.go: resolving a query to a set of ids against an inverted index, and that the
-- planner agrees with evaluating the query on each document.
use cinc_server_ng.Prelude.{
  ◌≡◌, refl, ap, Bool, false, not, Option, none, some, [], any, any_of_is_empty, arith, Bytes, ◌==◌,
  contains, is_empty, is_some, if◌then◌else◌, Bool-cases, inl, inr, Option-cases, Map, get,
}
use mathlib.Core.Path.{fun_ext}
use cinc_server_ng.Search.Query.{
  Runtime, Term, Query, match_all, and_q, or_q, not_q, term_q, exists_q, range_q, Fields, values,
  match_val, any_value, in_range, matches,
}
use cinc_server_ng.Search.Sets.{
  DocIds, intersect, union, difference, contains-intersect, contains-union, contains-difference,
}

pub record Postings : Type 0 where
  pub exact : Bytes → Bytes → DocIds
  pub exists_in : Bytes → DocIds
  pub match_in : Bytes → (Bytes → Bool) → DocIds
  pub match_any : (Bytes → Bool) → DocIds
  pub all_ids : DocIds

module _ (R : Runtime) (p : Postings) where
  -- search.Plan, on the postings `p`
  unfoldable pub plan : Query → Option DocIds
  unfolding intersect union difference match_val in_range
  plan match_all = some p.all_ids
  plan (term_q t) =
      if t.field == []
      then some (p.match_any (match_val t))
      else if is_some t.re
      then some (p.match_in t.field (match_val t))
      else some (p.exact t.field t.value)
  plan (exists_q field) = if field == [] then some p.all_ids else some (p.exists_in field)
  plan (range_q q) = some (p.match_in q.field (in_range R q))
  plan (and_q l r) =
      let right = plan r in
      elim (plan l) [
        | none ↦ none
        | some a ↦
            if is_empty a
            then some a
            else elim right [ none ↦ none | some b ↦ some (intersect a b) ]
      ]
  plan (or_q l r) =
      let right = plan r in
      elim (plan l) [
        | none ↦ none
        | some a ↦ elim right [ none ↦ none | some b ↦ some (union a b) ]
      ]
  plan (not_q q) = elim (plan q) [ none ↦ none | some inner ↦ some (difference p.all_ids inner) ]

-- What each document holds under a field, for a collection of documents.
abbrev pub doc_any : Map Fields → Bytes → (Fields → Bool) → Bool
doc_any docs id test = elim (get docs id) [ none ↦ false | some f ↦ test f ]

-- The comments on `Postings`: which documents each method returns.
pub record IsIndexOf (docs : Map Fields) (p : Postings) : Type 0 where
  pub exact_lem :
      (field value id : Bytes)
      → contains (p.exact field value) id
        ≡ doc_any docs id (λ f. any (λ v. v == value) (values f field))
  pub exists_lem :
      (field id : Bytes)
      → contains (p.exists_in field) id ≡ doc_any docs id (λ f. not (is_empty (values f field)))
  pub match_lem :
      (field : Bytes) (test : Bytes → Bool) (id : Bytes)
      → contains (p.match_in field test) id ≡ doc_any docs id (λ f. any test (values f field))
  pub match_any_lem :
      (test : Bytes → Bool) (id : Bytes)
      → contains (p.match_any test) id ≡ doc_any docs id (any_value test)
  pub all_lem : (id : Bytes) → contains p.all_ids id ≡ is_some (get docs id)

-- The query asks for the existence of no nameless field. `buildTerm` never makes such a query.
abbrev pub IsPlannable : Query → Type 0
IsPlannable (and_q l r) = IsPlannable l × IsPlannable r
IsPlannable (or_q l r) = IsPlannable l × IsPlannable r
IsPlannable (not_q q) = IsPlannable q
IsPlannable (exists_q field) = (field == []) ≡ false
IsPlannable _ = Unit

plain_val : (t : Term) → t.re ≡ none → match_val t ≡ (λ v. v == t.value)
unfolding match_val
plain_val t h = fun_ext λ v. rw (h, match_val) refl

module _ (R : Runtime) (docs : Map Fields) (p : Postings) (ix : IsIndexOf docs p) where
  -- The ids that the planner returns for `q` are the documents that match it.
  abbrev Agrees : Query → Type 0
  Agrees q =
      (ids : DocIds) × (plan R p q ≡ some ids)
      × ((id : Bytes) → contains ids id ≡ doc_any docs id (matches R q))

  term-Agrees : (t : Term) → Agrees (term_q t)
  unfolding plan matches
  term-Agrees t = elim (Bool-cases (t.field == [])) [
    | inl e ↦ (
      p.match_any (match_val t),
      rw e refl,
      λ id. ground (arith, ix.match_any_lem (match_val t) id),
    )
    | inr e ↦ elim (Option-cases t.re) [
      | inl plain ↦ (
        p.exact t.field t.value,
        rw (e, plain) refl,
        λ id. ground (
          arith,
          ix.exact_lem t.field t.value id,
          ap (λ m. doc_any docs id (λ f. any m (values f t.field))) (plain_val t plain),
        ),
      )
      | inr (re, wild) ↦ (
        p.match_in t.field (match_val t),
        rw (e, wild) refl,
        λ id. ground (arith, ix.match_lem t.field (match_val t) id),
      )
    ]
  ]

  and-Agrees : (l r : Query) → Agrees l → Agrees r → Agrees (and_q l r)
  unfolding plan matches
  and-Agrees l r (a, la, ha) (b, lb, hb) = elim (Bool-cases (is_empty a)) [
    | inl e ↦ (a, rw (la, e) refl, λ id. ground (arith, ha id, any_of_is_empty (λ x. x == id) a e))
    | inr e ↦ (
      intersect a b,
      rw (la, e, lb) refl,
      λ id. ground (arith, ha id, hb id, contains-intersect a b id),
    )
  ]

  or-Agrees : (l r : Query) → Agrees l → Agrees r → Agrees (or_q l r)
  unfolding plan matches
  or-Agrees l r (a, la, ha) (b, lb, hb) =
      (union a b, rw (la, lb) refl, λ id. ground (arith, ha id, hb id, contains-union a b id))

  not-Agrees : (q : Query) → Agrees q → Agrees (not_q q)
  unfolding plan matches
  not-Agrees q (a, la, ha) = (
    difference p.all_ids a,
    rw la refl,
    λ id. ground (arith, ha id, ix.all_lem id, contains-difference p.all_ids a id),
  )

  plan-Agrees : (q : Query) → IsPlannable q → Agrees q
  unfolding plan matches
  plan-Agrees match_all h = (p.all_ids, refl, λ id. ground (arith, ix.all_lem id))
  plan-Agrees (and_q l r) (h, k) = and-Agrees l r (plan-Agrees l h) (plan-Agrees r k)
  plan-Agrees (or_q l r) (h, k) = or-Agrees l r (plan-Agrees l h) (plan-Agrees r k)
  plan-Agrees (not_q q) h = not-Agrees q (plan-Agrees q h)
  plan-Agrees (term_q t) h = term-Agrees t
  plan-Agrees (exists_q field) h =
      (p.exists_in field, rw h refl, λ id. ground (arith, ix.exists_lem field id))
  plan-Agrees (range_q q) h =
      (p.match_in q.field (in_range R q), refl, λ id. ix.match_lem q.field (in_range R q) id)

-- For an index of the documents `docs`, and any query that `Parse` can return, the planner resolves
-- the query, and the ids in its answer are exactly those of the documents that match the query.
pub plan-eq-matches :
    (R : Runtime) (docs : Map Fields) (p : Postings) (q : Query)
    → IsIndexOf docs p
    → IsPlannable q
    → (ids : DocIds) × (plan R p q ≡ some ids)
      × ((id : Bytes) → contains ids id ≡ doc_any docs id (matches R q))
plan-eq-matches R docs p q ix h = plan-Agrees R docs p ix q h
