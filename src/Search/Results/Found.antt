-- ===== src/Search/Results/Found.antt =====
-- The matches of internal/api/search.go against the documents that the store holds.
use cinc_server_ng.Prelude.{
  ◌≡◌, ap, ◌∙◌, Bool, Option, none, some, List, arith, Bytes, IsFree, All, ok, if◌then◌else◌,
}
use cinc_server_ng.Prelude.Maps.Entries.{find_entry}
use cinc_server_ng.Store.Memory.{get_object}
use cinc_server_ng.Store.Facade.{Store, range_store}
use cinc_server_ng.Search.Query.{Runtime, Query, matches}
use cinc_server_ng.Search.Json.{Members}
use cinc_server_ng.Search.Sets.{DocIds}
use cinc_server_ng.Search.Plan.{plan}
use cinc_server_ng.Search.Parser.{parse}
use cinc_server_ng.Search.Index.{size, postings_view}
use cinc_server_ng.Search.Registry.{Registry, get_index}
use cinc_server_ng.Search.Registry.Current.{merges}
use cinc_server_ng.Search.Registry.Exact.{
  Request, IsCleanRequest, serve, started, document_passes, registry_search_exact,
}
use cinc_server_ng.Search.Results.{find_matches, fetch_matches}
use cinc_server_ng.Search.Results.Exact.{find_entry-fetch_matches}

module _ (R : Runtime) (decode : Bytes → Option Members) where
  backend-get_index :
      (org coll : Bytes) (merge : Bool) (s : Store Registry)
      → (get_index R.to_lower decode org coll merge s).1.backend ≡ s.backend
  unfolding get_index range_store
  backend-get_index org coll merge s = ground (arith)

  find_matches-planned :
      (org coll : Bytes) (merge : Bool) (q : Query) (s : Store Registry) (ids : DocIds)
      → plan R (postings_view (get_index R.to_lower decode org coll merge s).0) q ≡ some ids
      → find_matches R decode org coll merge q s
        ≡ fetch_matches org coll ids
            (size (get_index R.to_lower decode org coll merge s).0)
            (get_index R.to_lower decode org coll merge s).1
  unfolding find_matches
  find_matches-planned org coll merge q s ids e = ground (arith, e)

-- After any requests, failed ones, rolled back transactions and other look-ups included, a search of a
-- collection for a text that parses answers with exactly the documents that the store then holds and
-- that the parsed query matches, each with its stored bytes, if no request writes to the empty
-- collection and no name of an organisation has a zero byte.
pub find_matches_exact :
    (R : Runtime) (decode : Bytes → Option Members) (rs : List Request) (org coll s : Bytes)
    (q : Query)
    → All IsCleanRequest rs
    → IsFree 0 org
    → parse R s ≡ ok q
    → (id : Bytes)
    → find_entry
        (find_matches R decode org coll
          (merges coll)
          q
          (serve R.to_lower decode rs (started R.to_lower decode))).0
        id
      ≡ (if document_passes R.to_lower decode
            (serve R.to_lower decode rs (started R.to_lower decode))
            org
            coll
            id
            (matches R q)
          then get_object
              (serve R.to_lower decode rs (started R.to_lower decode)).backend
              org
              coll
              id
          else none)
find_matches_exact R decode rs org coll s q h free e id =
    let st = serve R.to_lower decode rs (started R.to_lower decode) in
    let at = get_index R.to_lower decode org coll (merges coll) st in
    let (ids, planned, found) = registry_search_exact R decode rs org coll s q h free e in
    ap (λ r. find_entry r.0 id)
      (find_matches-planned R decode org coll (merges coll) q st ids planned)
    ∙ find_entry-fetch_matches org coll ids (size at.0) at.1 id
    ∙ ground (
      arith,
      found id,
      ap (λ m. get_object m org coll id) (backend-get_index R decode org coll (merges coll) st),
    )
