-- ===== src/Search/Readable.antt =====
-- internal/api/search.go: the filter that leaves out what the actor could not have read directly.
-- `decode` and `groups_of` are those of a decision on one object; `unmarshal_read` is Unmarshal into a
-- readACEDoc.
pub mod Exact
mod Tests
use cinc_server_ng.Prelude.{
  ℕ, Bool, true, false, not, ◌||◌, Option, none, some, List, [], ◌∷◌, ◌++◌, keep, is_empty, length,
  leb, Bytes, lit, ◌==◌, cut_prefix, Map, empty_map, get, set, Result, ok, err, ◌>>=◌,
  if◌then◌else◌,
}
use cinc_server_ng.Store.Memory.{Memory, range}
use cinc_server_ng.Authz.Documents.{ReadAceDoc, decode_read_ace, allows}
use cinc_server_ng.Authz.Policy.{Acl, default_acl, ace_allows}
use cinc_server_ng.Authz.Enforce.{Actor, allowed_with}
use cinc_server_ng.Search.Results.{Match, SearchIndex}

module _ (decode : Bytes → Option Acl) (unmarshal_read : Bytes → Option ReadAceDoc)
    (groups_of : Bytes → Bytes → Result Bytes (List Bytes)) where
  -- what a stored ACL says about reading, unless it does not decode at all
  unfoldable pub verdict : Bytes → List Bytes → Bytes → Option Bool
  unfolding ace_allows decode_read_ace allows
  verdict actor member raw = elim (decode_read_ace unmarshal_read raw) [
    | some ace ↦ some (allows ace actor member)
    | none ↦ elim (decode raw) [
      | none ↦ none
      | some acl ↦ some (ace_allows (get acl (lit "read")) actor member)
    ]
  ]

  -- the callback of the scan: stored[name] = …
  unfoldable pub read_ace : Bytes → Bytes → List Bytes → Bytes → Bytes → Map Bool → Bool × Map Bool
  unfolding verdict
  read_ace prefix actor member key raw stored = elim (cut_prefix key prefix) [
    | none ↦ (true, stored)
    | some name ↦ elim (verdict actor member raw) [
      | none ↦ (true, stored)
      | some b ↦ (true, set stored name b)
    ]
  ]

  -- the map `stored` after the scan
  unfoldable pub stored_reads : Memory → Bytes → Bytes → Bytes → List Bytes → Map Bool
  unfolding read_ace
  stored_reads m org typ actor member =
      range m org (lit "acls") (read_ace (typ ++ lit "/") actor member) empty_map

  -- the predicate that the scan results in
  unfoldable pub by_stored : Memory → Bytes → Bytes → Bytes → List Bytes → Bytes → Bool
  unfolding stored_reads default_acl
  by_stored m org typ actor member id = elim (get (stored_reads m org typ actor member) id) [
    | some b ↦ b
    | none ↦ ace_allows (get default_acl (lit "read")) actor member
  ]

  -- searchReadFilter, whose nil is `none`. A data bag's items share the bag's ACL.
  unfoldable pub search_read_filter :
      Memory → Bool → Option Actor → Bytes → SearchIndex → Result Bytes (Option (Bytes → Bool))
  unfolding by_stored allowed_with
  search_read_filter m enforce none org idx = ok none
  search_read_filter m enforce (some actor) org idx =
      if not enforce || actor.is_global_admin
      then ok none
      else if not (idx.acl_object == [])
      then elim (allowed_with decode groups_of m org actor idx.acl_type idx.acl_object
          (lit "read")) [ err e ↦ err e | ok allowed ↦ ok (some (λ id. allowed)) ]
      else elim (groups_of org actor.name) [
        | err e ↦ err e
        | ok member ↦ ok (some (by_stored m org idx.acl_type actor.name member))
      ]

  -- the loop that checks each row on its own
  unfoldable pub keep_allowed :
      Memory → Bytes → Actor → Bytes → List Match → Result Bytes (List Match)
  unfolding allowed_with
  keep_allowed m org actor typ [] = ok []
  keep_allowed m org actor typ (e ∷ es) =
      let rest = keep_allowed m org actor typ es in
      elim (allowed_with decode groups_of m org actor typ e.0 (lit "read")) [
        | err x ↦ err x
        | ok allowed ↦ elim rest [
          | err x ↦ err x
          | ok kept ↦ ok (if allowed then e ∷ kept else kept)
        ]
      ]

  -- bulkThreshold
  abbrev pub bulk_threshold : ℕ
  bulk_threshold = 64

  abbrev filtered : List Match → Option (Bytes → Bool) → List Match
  filtered es none = es
  filtered es (some allow) = keep (λ e. allow e.0) es

  -- filterReadable
  unfoldable pub filter_readable :
      Memory → Bool → Option Actor → Bytes → SearchIndex → List Match → Result Bytes (List Match)
  unfolding search_read_filter keep_allowed
  filter_readable m enforce none org idx es = ok es
  filter_readable m enforce (some actor) org idx es =
      if not enforce || is_empty es || actor.is_global_admin
      then ok es
      else if not (idx.acl_object == [])
      then elim (allowed_with decode groups_of m org actor idx.acl_type idx.acl_object
          (lit "read")) [ err e ↦ err e | ok allowed ↦ ok (if allowed then es else []) ]
      else if leb (length es) bulk_threshold
      then keep_allowed m org actor idx.acl_type es
      else elim (search_read_filter m enforce (some actor) org idx) [
        | err e ↦ err e
        | ok allow ↦ ok (filtered es allow)
      ]
