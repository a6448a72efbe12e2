-- ===== src/Authz/Documents.antt =====
-- internal/api/authzdoc.go, which decodes the read entry of a stored ACL into a struct, and how
-- internal/api/authz_enforce.go reads an ACL that is decoded into a map. Unmarshal itself is a parameter,
-- into a map as the codec's `decode` and into readACEDoc as `unmarshal_read`.
pub mod Typed
use cinc_server_ng.Prelude.{
  Bool, ◌||◌, Option, none, some, List, any, Bytes, lit, ◌==◌, contains, empty_map, set, delete, ok,
  err,
}
use cinc_server_ng.Search.Json.{Json, object, Members, no_members, member, get_member}
use cinc_server_ng.Groups.Codec.{Codec, json_strings}
use cinc_server_ng.Authz.Policy.{Ace, Acl}

-- readACEDoc; aceDoc is Ace
pub record ReadAceDoc : Type 0 where
  pub read : Ace

-- decodeReadACE
unfoldable pub decode_read_ace : (Bytes → Option ReadAceDoc) → Bytes → Option Ace
decode_read_ace unmarshal_read raw = elim (unmarshal_read raw) [
  | none ↦ none
  | some doc ↦ some doc.read
]

-- aceDoc.allows
unfoldable pub allows : Ace → Bytes → List Bytes → Bool
allows ace name groups = any (λ a. a == name) ace.actors || any (λ g. contains groups g) ace.groups

-- entry.(map[string]any), with the strings of its actors and groups
unfoldable pub ace_of : Json → Option Ace
ace_of (object es) = some (record {
  actors = json_strings (get_member es (lit "actors"));
  groups = json_strings (get_member es (lit "groups"));
})
ace_of _ = none

-- an ACL that is decoded into a map, as loadACL and allowedWith read it
unfoldable pub acl_of : Members → Acl
unfolding ace_of
acl_of no_members = empty_map
acl_of (member k v ms) = elim (ace_of v) [
  | none ↦ delete (acl_of ms) k
  | some ace ↦ set (acl_of ms) k ace
]

-- Unmarshal of a stored ACL in loadACL
unfoldable pub decode_acl : Codec → Bytes → Option Acl
unfolding acl_of
decode_acl json raw = elim (json.decode raw) [ err e ↦ none | ok found ↦ some (acl_of found) ]
