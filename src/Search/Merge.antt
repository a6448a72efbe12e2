-- ===== src/Search/Merge.antt =====
-- internal/api/search.go: the searchable view of a node, and the projection of a path. The maps that
-- deepMerge writes to are all its own, so they are values here.
use cinc_server_ng.Prelude.{Option, none, some, List, [], ◌∷◌, Bytes, lit}
use cinc_server_ng.Search.Json.{
  Json, null, object, Members, no_members, member, get_member, set_member,
}

-- dst[k].(map[string]any), or the new map
abbrev submap : Option Json → Members
submap (some (object ms)) = ms
submap _ = no_members

-- deepMerge
unfoldable pub deep_merge : Members → Members → Members
unfolding get_member set_member
deep_merge dst no_members = dst
deep_merge dst (member k (object sub) ms) =
    deep_merge (set_member dst k (object (deep_merge (submap (get_member dst k)) sub))) ms
deep_merge dst (member k v ms) = deep_merge (set_member dst k v) ms

-- the loop over the levels
abbrev merge_level : Members → Members → Bytes → Members
merge_level node merged level = deep_merge merged (submap (get_member node level))

-- for k, v := range src { dst[k] = v }
unfoldable pub overlay : Members → Members → Members
unfolding set_member
overlay dst no_members = dst
overlay dst (member k v ms) = overlay (set_member dst k v) ms

-- nodeSearchDoc
unfoldable pub node_search_doc : Members → Members
unfolding deep_merge overlay
node_search_doc node =
    let merged =
      merge_level node
        (merge_level node
          (merge_level node (merge_level node no_members (lit "default")) (lit "normal"))
          (lit "override"))
        (lit "automatic") in
    overlay (overlay no_members node) merged

-- traversePath
unfoldable pub traverse_path : Json → List Bytes → Json
unfolding get_member
traverse_path cur [] = cur
traverse_path (object ms) (key ∷ path) = elim (get_member ms key) [
  | none ↦ null
  | some v ↦ traverse_path v path
]
traverse_path _ (key ∷ path) = null
