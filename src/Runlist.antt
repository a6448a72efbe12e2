-- ===== src/Runlist.antt =====
-- internal/runlist/runlist.go, on a document that chefjson has parsed: an object whose members are in
-- order and may repeat a name. Parsing and encoding are left out, and with them the decoder of
-- needsChange, which walks the same members.
pub mod Canonical
pub mod Distinct
mod Tests
use cinc_server_ng.Prelude.{
  Bool, true, false, not, ◌&&◌, ◌||◌, Option, none, some, List, [], ◌∷◌, ◌++◌, Bytes, lit, ◌==◌,
  contains, has_prefix, if◌then◌else◌,
}
use cinc_server_ng.Search.Json.{
  Json, text, array, object, Items, no_items, item, Members, no_members, member, get_member,
  set_member,
}

-- qualify
unfoldable pub qualify : Bytes → Bytes
qualify name =
    if has_prefix name (lit "recipe[") || has_prefix name (lit "role[")
    then name
    else lit "recipe[" ++ (name ++ lit "]")

-- the loop of Normalize; `seen` has the items of `out`
unfoldable pub normalize_loop : List Bytes → List Bytes → List Bytes → List Bytes
unfolding qualify
normalize_loop [] seen out = out
normalize_loop (name ∷ names) seen out =
    let q = qualify name in
    if contains seen q
    then normalize_loop names seen out
    else normalize_loop names (q ∷ seen) (out ++ q ∷ [])

-- Normalize
unfoldable pub normalize_items : List Bytes → List Bytes
unfolding normalize_loop
normalize_items names = normalize_loop names [] []

-- the loop of stringList
unfoldable pub strings_of : Items → Option (List Bytes)
strings_of no_items = some []
strings_of (item (text s) xs) = elim (strings_of xs) [ none ↦ none | some ss ↦ some (s ∷ ss) ]
strings_of (item _ xs) = none

-- stringList
unfoldable pub string_list : Json → Option (List Bytes)
unfolding strings_of
string_list (array xs) = strings_of xs
string_list _ = none

-- toAny
unfoldable pub to_any : List Bytes → Items
to_any [] = no_items
to_any (s ∷ ss) = item (text s) (to_any ss)

-- slices.Equal
unfoldable pub equal : List Bytes → List Bytes → Bool
equal [] [] = true
equal [] (y ∷ ys) = false
equal (x ∷ xs) [] = false
equal (x ∷ xs) (y ∷ ys) = x == y && equal xs ys

-- listChanges
unfoldable pub list_changes : Json → Bool
unfolding string_list normalize_items equal
list_changes v = elim (string_list v) [
  | none ↦ false
  | some items ↦ not (equal (normalize_items items) items)
]

-- envListsChange
unfoldable pub envs_change : Members → Bool
unfolding list_changes
envs_change no_members = false
envs_change (member k v ms) = list_changes v || envs_change ms

abbrev pub env_lists_change : Json → Bool
env_lists_change (object envs) = envs_change envs
env_lists_change _ = false

-- the loop of needsChange, with seenRunList and seenEnvRunLists
unfoldable pub changes_in : Bool → Bool → Bool → Members → Bool
unfolding list_changes envs_change
changes_in role seen_list seen_envs no_members = false
changes_in role seen_list seen_envs (member k v ms) =
    let at_list = k == lit "run_list" && not seen_list in
    let at_envs = k == lit "env_run_lists" && (role && not seen_envs) in
    let rest = changes_in role (seen_list || at_list) (seen_envs || (not at_list && at_envs)) ms in
    if at_list then list_changes v || rest else if at_envs then env_lists_change v || rest else rest

-- needsChange
unfoldable pub needs_change : Members → Bool → Bool
unfolding changes_in
needs_change doc role = changes_in role false false doc

-- a run list, if it is a list of strings
unfoldable pub normalized : Json → Json
unfolding string_list normalize_items to_any
normalized v = elim (string_list v) [
  | none ↦ v
  | some items ↦ array (to_any (normalize_items items))
]

unfoldable pub normalized_envs : Members → Members
unfolding normalized
normalized_envs no_members = no_members
normalized_envs (member k v ms) = member k (normalized v) (normalized_envs ms)

abbrev pub rewrite_envs : Json → Json
rewrite_envs (object envs) = object (normalized_envs envs)
rewrite_envs v = v

-- obj.Set of the member, if there is one and `f` of its value
abbrev pub update : Bytes → (Json → Json) → Members → Members
update k f doc = elim (get_member doc k) [ none ↦ doc | some v ↦ set_member doc k (f v) ]

-- the part of normalize behind the test
unfoldable pub rewrite : Members → Bool → Members
unfolding normalized normalized_envs get_member set_member
rewrite doc role =
    let listed = update (lit "run_list") normalized doc in
    if role then update (lit "env_run_lists") rewrite_envs listed else listed

-- normalize
unfoldable pub normalize : Members → Bool → Members
unfolding needs_change rewrite
normalize doc role = if needs_change doc role then rewrite doc role else doc
