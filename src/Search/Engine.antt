-- ===== src/Search/Engine.antt =====
-- internal/search and internal/api/searchindex.go together: an index kept along a history of a
-- collection, and a query's text that is parsed and planned over it.
use cinc_server_ng.Prelude.{
  ◌≡◌, Bytes, List, [], ◌∷◌, some, Map, empty_map, set, delete, All, ok, Bool, contains,
}
use cinc_server_ng.Search.Query.{HasValues, Runtime, Query, Fields, matches}
use cinc_server_ng.Search.Parser.{parse}
use cinc_server_ng.Search.Parser.Total.{parse-IsPlannable}
use cinc_server_ng.Search.Sets.{DocIds}
use cinc_server_ng.Search.Plan.{plan, doc_any}
use cinc_server_ng.Search.Index.{CollIndex, new_coll_index, put, remove, postings_view}
use cinc_server_ng.Search.Index.Represents.{
  Represents, new_coll_index-Represents, put-Represents, remove-Represents,
}
use cinc_server_ng.Search.Index.View.{index_search_exact}

-- A document comes or changes, or it goes.
pub data Change : Type 0 where
  changed : Bytes → Fields → Change
  gone : Bytes → Change

abbrev pub IsWhole : Change → Type 0
IsWhole (changed id d) = HasValues d
IsWhole (gone id) = id ≡ id

-- The collection after the changes.
unfoldable pub documents : List Change → Map Fields → Map Fields
documents [] docs = docs
documents (changed id d ∷ cs) docs = documents cs (set docs id d)
documents (gone id ∷ cs) docs = documents cs (delete docs id)

-- The index after them: observe, for one change after the other.
unfoldable pub indexed : List Change → CollIndex → CollIndex
unfolding put remove
indexed [] c = c
indexed (changed id d ∷ cs) c = indexed cs (put id d c)
indexed (gone id ∷ cs) c = indexed cs (remove id c)

indexed-Represents :
    (cs : List Change) (docs : Map Fields) (c : CollIndex)
    → All IsWhole cs
    → Represents docs c
    → Represents (documents cs docs) (indexed cs c)
unfolding documents indexed
indexed-Represents [] docs c h r = r
indexed-Represents (changed id d ∷ cs) docs c (h, hs) r =
    indexed-Represents cs (set docs id d) (put id d c) hs (put-Represents docs c r id d h)
indexed-Represents (gone id ∷ cs) docs c (h, hs) r =
    indexed-Represents cs (delete docs id) (remove id c) hs (remove-Represents docs c r id)

-- After any changes of documents whose fields each have a value, searching the index for a text that
-- parses finds exactly the documents, as they now are, that the parsed query matches.
pub search_exact :
    (R : Runtime) (merge : Bool) (cs : List Change) (s : Bytes) (q : Query)
    → All IsWhole cs
    → parse R s ≡ ok q
    → (ids : DocIds) × (plan R (postings_view (indexed cs (new_coll_index merge))) q ≡ some ids)
      × ((id : Bytes) → contains ids id ≡ doc_any (documents cs empty_map) id (matches R q))
search_exact R merge cs s q h e =
    index_search_exact R (documents cs empty_map) (indexed cs (new_coll_index merge)) q
      (indexed-Represents cs empty_map (new_coll_index merge) h (new_coll_index-Represents merge))
      (parse-IsPlannable R s q e)
