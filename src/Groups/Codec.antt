-- ===== src/Groups/Codec.antt =====
-- encoding/json as the handlers of internal/api use it: a parameter of their models.
use cinc_server_ng.Prelude.{◌≡◌, refl, ap, List, [], ◌∷◌, Option, some, Bytes, Result}
use cinc_server_ng.Search.Json.{Json, text, array, Items, no_items, item, Members}

-- `encode` is mustEncode and chefjson.Marshal, `decode` is Unmarshal into a map[string]any, and
-- `decode_text field` is Unmarshal into a struct that has one string, with that name; a field that is not
-- there reads as the empty text. An error is its text.
pub record Codec : Type 0 where
  pub encode : Members → Bytes
  pub decode : Bytes → Result Bytes Members
  pub decode_text : Bytes → Bytes → Result Bytes Bytes

-- the elements of an array that are strings
unfoldable pub item_strings : Items → List Bytes
item_strings no_items = []
item_strings (item (text s) xs) = s ∷ item_strings xs
item_strings (item _ xs) = item_strings xs

-- jsonStrings
unfoldable pub json_strings : Option Json → List Bytes
unfolding item_strings
json_strings (some (array xs)) = item_strings xs
json_strings _ = []

-- s, _ := v.(string)
abbrev pub as_text : Option Json → Bytes
as_text (some (text s)) = s
as_text _ = []

-- strs, in groupJSON
unfoldable pub strings_json : List Bytes → Items
strings_json [] = no_items
strings_json (s ∷ ss) = item (text s) (strings_json ss)

pub item_strings-strings_json : (ss : List Bytes) → item_strings (strings_json ss) ≡ ss
unfolding item_strings strings_json
item_strings-strings_json [] = refl
item_strings-strings_json (s ∷ ss) = ap (λ xs. s ∷ xs) (item_strings-strings_json ss)
