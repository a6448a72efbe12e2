-- ===== src/Search/Results.antt =====
-- internal/api/search.go: from a query to the rows of the answer. A match is a pair of an id and its
-- stored bytes. The cache of flattened documents is left out: an entry of it counts only for the bytes
-- that it was made from.
pub mod Window
pub mod Exact
pub mod Found
use cinc_server_ng.Prelude.{
  ℕ, ◌+◌, ◌-◌, ◌*◌, Bool, true, false, ◌&&◌, ◌||◌, Option, none, some, List, [], ◌∷◌, ◌++◌, Bytes,
  lit, ◌==◌, contains, length, ltb, leb, has_prefix, if◌then◌else◌,
}
use cinc_server_ng.Store.Memory.{less}
use cinc_server_ng.Store.Facade.{Store, get_value, range_store}
use cinc_server_ng.Search.Json.{Members}
use cinc_server_ng.Search.Query.{Runtime, Query, Fields, matches, is_match_all}
use cinc_server_ng.Search.Sets.{DocIds}
use cinc_server_ng.Search.Plan.{plan}
use cinc_server_ng.Search.Index.{CollIndex, size, postings_view}
use cinc_server_ng.Search.Registry.{Registry, fields_of, get_index}

-- match
abbrev pub Match : Type 0
Match = Bytes × Bytes

-- searchIndex, without the closure that renders a URL
pub record SearchIndex : Type 0 where
  pub collection : Bytes
  pub merge_attrs : Bool
  pub acl_type : Bytes
  pub acl_object : Bytes

insert_match : Match → List Match → List Match
unfolding less
insert_match e [] = e ∷ []
insert_match e (t ∷ ts) =
    let rest = insert_match e ts in if less t.0 e.0 then t ∷ rest else e ∷ t ∷ ts

-- sort.Slice(matches, …)
unfoldable pub sort_matches : List Match → List Match
unfolding insert_match
sort_matches [] = []
sort_matches (e ∷ es) = insert_match e (sort_matches es)

-- the callback of a scan: matches = append(matches, match{id, raw}), where the test succeeds
unfoldable pub append_match :
    (Bytes → Bytes → Bool) → Bytes → Bytes → List Match → Bool × List Match
append_match test id raw ms = (true, if test id raw then ms ++ (id, raw) ∷ [] else ms)

-- dataBagItemsColl
unfoldable pub items_coll : Bytes → Bytes
items_coll bag = lit "databag_items:" ++ bag

module _ {W : Type 0} where
  -- resolveIndex
  unfoldable pub resolve_index : Bytes → Bytes → Store W → Option SearchIndex × Store W
  unfolding items_coll
  resolve_index org name s =
      if name == lit "node"
        || (name == lit "role" || (name == lit "client" || name == lit "environment"))
      then (
        some (record {
          collection = name ++ lit "s";
          merge_attrs = name == lit "node";
          acl_type = name ++ lit "s";
          acl_object = [];
        }),
        s,
      )
      else (let (bag, t) = get_value org (lit "data_bags") name s in
          elim bag [
            | none ↦ (none, t)
            | some raw ↦ (
              some (record {
                collection = items_coll name;
                merge_attrs = false;
                acl_type = lit "data";
                acl_object = name;
              }),
              t,
            )
          ])

  -- collectAll
  unfoldable pub collect_all : Bytes → Bytes → Store W → List Match × Store W
  unfolding append_match sort_matches
  collect_all org coll s =
      let (ms, t) = range_store org coll (append_match (λ id raw. true)) [] s in
      (sort_matches ms, t)

  -- the loop over the ids
  unfoldable pub view_matches : Bytes → Bytes → DocIds → Store W → List Match × Store W
  view_matches org coll [] s = ([], s)
  view_matches org coll (id ∷ ids) s =
      let (raw, t) = get_value org coll id s in
      let (ms, u) = view_matches org coll ids t in
      elim raw [ none ↦ (ms, u) | some v ↦ ((id, v) ∷ ms, u) ]

  -- fetchMatches
  unfoldable pub fetch_matches : Bytes → Bytes → DocIds → ℕ → Store W → List Match × Store W
  unfolding append_match sort_matches view_matches
  fetch_matches org coll ids indexed s =
      let (ms, t) =
        if ltb 0 indexed && leb indexed (length ids * 4)
        then range_store org coll (append_match (λ id raw. contains ids id)) [] s
        else view_matches org coll ids s in
      (sort_matches ms, t)

module _ (R : Runtime) (decode : Bytes → Option Members) where
  -- The document decodes, and its fields match.
  abbrev pub raw_matches : Bool → Query → Bytes → Bool
  raw_matches merge query raw = elim (fields_of R.to_lower decode merge raw) [
    | none ↦ false
    | some fields ↦ matches R query fields
  ]

  -- collectMatches
  unfoldable pub collect_matches :
      {W : Type 0} → Bytes → Bytes → Bool → Query → Store W → List Match × Store W
  unfolding append_match sort_matches fields_of
  collect_matches org coll merge query s =
      let (ms, t) =
        range_store org coll (append_match (λ id raw. raw_matches merge query raw)) [] s in
      (sort_matches ms, t)

  -- findMatches
  unfoldable pub find_matches :
      Bytes → Bytes → Bool → Query → Store Registry → List Match × Store Registry
  unfolding get_index plan postings_view collect_matches fetch_matches
  find_matches org coll merge query s =
      let (ci, t) = get_index R.to_lower decode org coll merge s in
      elim (plan R (postings_view ci) query) [
        | none ↦ collect_matches org coll merge query t
        | some ids ↦ fetch_matches org coll ids (size ci) t
      ]
