-- ===== src/Search/Json.antt =====
-- Decoded JSON as internal/search/flatten.go and internal/api/search.go read it: what
-- chefjson.DecodeObject returns, in which a Go map has each key once. The order of its members stands
-- for the order of one iteration over the map.
use cinc_server_ng.Prelude.{Bool, Option, none, some, Bytes, ◌==◌, if◌then◌else◌}

-- `number` is a json.Number, the literal; `float` is a float64, as strconv.FormatFloat renders it.
mutual
  pub data Json : Type 0 where
    null : Json
    bool : Bool → Json
    text number float : Bytes → Json
    array : Items → Json
    object : Members → Json

  pub data Items : Type 0 where
    no_items : Items
    item : Json → Items → Items

  pub data Members : Type 0 where
    no_members : Members
    member : Bytes → Json → Members → Members

-- v, ok := m[k]
unfoldable pub get_member : Members → Bytes → Option Json
get_member no_members k = none
get_member (member j v ms) k = if j == k then some v else get_member ms k

-- m[k] = v
unfoldable pub set_member : Members → Bytes → Json → Members
set_member no_members k v = member k v no_members
set_member (member j w ms) k v = if j == k then member j v ms else member j w (set_member ms k v)
