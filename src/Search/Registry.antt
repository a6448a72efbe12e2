-- ===== src/Search/Registry.antt =====
-- internal/api/searchindex.go: searchIndexes, one index for each organisation and collection, built on
-- first use and kept by the write stream. `decode` is chefjson.DecodeObject, `none` for its errors.
-- The registry is the world of the store's observer, and a build is one step: a write that lands while
-- it runs waits for the index's lock.
pub mod Shows
pub mod Current
pub mod Steps
pub mod Exact
use cinc_server_ng.Prelude.{
  Bool, true, false, ◌&&◌, Option, none, some, List, [], ◌∷◌, ◌++◌, Bytes, lit, ◌==◌, has_prefix,
  Map, empty_map, get, set, delete, entries, if◌then◌else◌,
}
use cinc_server_ng.Store.Watch.{Event}
use cinc_server_ng.Store.Facade.{Store, range_store}
use cinc_server_ng.Search.Json.{Members}
use cinc_server_ng.Search.Flatten.{flatten}
use cinc_server_ng.Search.Merge.{node_search_doc}
use cinc_server_ng.Search.Query.{Fields}
use cinc_server_ng.Search.Index.{CollIndex, new_coll_index, put, remove}

abbrev pub Registry : Type 0
Registry = Map CollIndex

-- indexKey
unfoldable pub index_key : Bytes → Bytes → Bytes
index_key org coll = org ++ 0 ∷ coll

-- the loop of dropOrg
unfoldable pub drop_keys : Bytes → List (Bytes × CollIndex) → Registry → Registry
drop_keys prefix [] r = r
drop_keys prefix ((key, idx) ∷ rest) r =
    drop_keys prefix rest (if has_prefix key prefix then delete r key else r)

-- dropOrg
unfoldable pub drop_org : Bytes → Registry → Registry
unfolding drop_keys
drop_org org r = drop_keys (org ++ 0 ∷ []) (entries r) r

module _ (to_lower : Bytes → Bytes) (decode : Bytes → Option Members) where
  -- The fields of a stored document, for an index that merges or one that does not.
  unfoldable pub fields_of : Bool → Bytes → Option Fields
  fields_of merge raw = elim (decode raw) [
    | none ↦ none
    | some doc ↦ some (flatten to_lower (if merge then node_search_doc doc else doc))
  ]

  -- putRaw
  unfoldable pub put_raw : Bytes → Bytes → CollIndex → CollIndex
  unfolding fields_of
  put_raw id raw c = elim (fields_of c.merge raw) [
    | none ↦ remove id c
    | some fields ↦ put id fields c
  ]

  abbrev pub read_document : Bytes → Bytes → CollIndex → Bool × CollIndex
  read_document id raw c = (true, put_raw id raw c)

  -- get
  unfoldable pub get_index : Bytes → Bytes → Bool → Store Registry → CollIndex × Store Registry
  unfolding index_key
  get_index org coll merge s = elim (get s.world (index_key org coll)) [
    | some idx ↦ (idx, s)
    | none ↦
        let (idx, t) = range_store org coll read_document (new_coll_index merge) s in
        (idx, record t { world = set t.world (index_key org coll) idx })
  ]

  -- observe
  unfoldable pub observe : Event → Registry → Registry
  unfolding index_key drop_org put_raw
  observe ev r =
      if ev.deleted && ev.collection == []
      then drop_org ev.org r
      else elim (get r (index_key ev.org ev.collection)) [
        | none ↦ r
        | some idx ↦ set r (index_key ev.org ev.collection) (
            if ev.deleted
            then remove ev.key idx
            else put_raw ev.key (elim ev.value [ none ↦ [] | some v ↦ v ]) idx)
      ]
