-- ===== src/Search/Readable/Tests.antt =====
-- Answers of internal/api/search.go on small inputs, and the theorems at them.
use cinc_server_ng.Prelude.{
  ℕ, ◌≡◌, refl, arith, true, false, none, some, Option, List, [], ◌∷◌, Bytes, lit, ◌==◌, get, keep,
  Result, ok, contains, ap, if◌then◌else◌,
}
use cinc_server_ng.Store.Facade.{Store, new_store}
use cinc_server_ng.Store.Memory.{Memory, new_memory, set_object, get_object}
use cinc_server_ng.Search.Json.{
  text, array, object, no_items, item, Members, no_members, member, get_member,
}
use cinc_server_ng.Groups.Codec.{Codec, json_strings}
use cinc_server_ng.Authz.Documents.{ReadAceDoc, decode_acl}
use cinc_server_ng.Authz.Documents.Typed.{is_plain, typed_doc}
use cinc_server_ng.Authz.Policy.{ace_allows}
use cinc_server_ng.Authz.Enforce.{Actor, load_acl}
use cinc_server_ng.Search.Results.{Match, SearchIndex, resolve_index}
use cinc_server_ng.Search.Results.Window.{
  take, drop, window, window-take-drop, query_int, pos, negsuc,
}
use cinc_server_ng.Search.Readable.{filter_readable}
use cinc_server_ng.Search.Readable.Exact.{filter_readable_exact}

abbrev rows : List ℕ
rows = 1 ∷ 2 ∷ 3 ∷ []

window_tests :
    (window 1 1 rows ≡ some (2 ∷ []))
    × (window 1 9223372036854775807 rows ≡ some (2 ∷ 3 ∷ []))
    × (window 7 2 rows ≡ some [])
    × (query_int (λ v. some (negsuc 4)) (lit "-5") 1000 ≡ 1000)
    × (query_int (λ v. some (pos 4)) (lit "4") 1000 ≡ 4)
unfolding window query_int lit ◌==◌
window_tests = (refl, refl, refl, refl, refl)

window-take-drop_example :
    window 1 9223372036854775807 rows ≡ some (take 9223372036854775807 (drop 1 rows))
window-take-drop_example = window-take-drop 1 9223372036854775807 rows (omega arith)

abbrev ann : Actor
ann = record { name = lit "ann"; is_global_admin = false }

-- The ACL that lets one actor read; its text is his name.
abbrev read_by : Bytes → Members
read_by actor =
    member (lit "read")
      (object (
        member (lit "actors") (array (item (text actor) no_items))
          (member (lit "groups") (array no_items) no_members)))
      no_members

abbrev first_text : List Bytes → Bytes
first_text [] = []
first_text (s ∷ ss) = s

abbrev reader : Members → Bytes
reader ms = elim (get_member ms (lit "read")) [
  | none ↦ []
  | some (object es) ↦ first_text (json_strings (get_member es (lit "actors")))
  | some _ ↦ []
]

abbrev toy : Codec
toy = record {
  encode = reader;
  decode = λ raw. ok (read_by raw);
  decode_text = λ field raw. ok raw;
}

abbrev toy_read : Bytes → Option ReadAceDoc
toy_read raw = some (record { read = record { actors = raw ∷ []; groups = [] } })

toy_law :
    (ms found : Members)
    → is_plain (λ s. s) ms ≡ true
    → toy.decode (toy.encode ms) ≡ ok found
    → toy_read (toy.encode ms) ≡ typed_doc found
unfolding typed_doc get_member lit ◌==◌
toy_law ms found plain e = let same : read_by (reader ms) ≡ found = cc in ap typed_doc same

-- Two nodes have an ACL of their own, a third one has none.
abbrev backend : Memory
backend =
    set_object (set_object new_memory (lit "acme") (lit "acls") (lit "nodes/n1") (lit "ann"))
      (lit "acme") (lit "acls") (lit "nodes/n2") (lit "eve")

abbrev fresh : Store ℕ
fresh = new_store 0

abbrev here : Store ℕ
here = record {
  backend = backend;
  groups_gen = 0;
  watch = [];
  buffer = none;
  world = 0;
  counts = fresh.counts;
}

toy_stored :
    (key raw : Bytes)
    → get_object backend (lit "acme") (lit "acls") key ≡ some raw
    → (ms : Members) × (found : Members) × (is_plain (λ s. s) ms ≡ true)
      × (toy.encode ms ≡ raw)
      × (toy.decode raw ≡ ok found)
unfolding is_plain get_member json_strings lit ◌==◌
toy_stored key raw e = (read_by raw, read_by raw, refl, refl, refl)

abbrev in_users : Bytes → Bytes → Result Bytes (List Bytes)
in_users org actor = ok (lit "users" ∷ [])

abbrev node_index : SearchIndex
node_index = record {
  collection = lit "nodes";
  merge_attrs = true;
  acl_type = lit "nodes";
  acl_object = [];
}

node_resolves : (resolve_index (lit "acme") (lit "node") here).0 ≡ some node_index
unfolding resolve_index lit ◌==◌
node_resolves = refl

abbrev hits : List Match
hits = (lit "n1", lit "one") ∷ (lit "n2", lit "two") ∷ (lit "n3", lit "three") ∷ []

names_differ : (([] == ann.name) ≡ false) × (contains (lit "users" ∷ []) [] ≡ false)
unfolding lit ◌==◌
names_differ = (refl, refl)

filter_readable_exact_example :
    filter_readable
      (decode_acl toy)
      toy_read
      in_users
      here.backend
      true
      (some ann)
      (lit "acme")
      node_index
      hits
    ≡ ok (
        keep
          (λ e.
            ace_allows
              (get
                (load_acl
                  (decode_acl toy)
                  in_users
                  here.backend
                  (lit "acme")
                  node_index.acl_type
                  (if node_index.acl_object == [] then e.0 else node_index.acl_object))
                (lit "read"))
              ann.name
              (lit "users" ∷ []))
          hits)
filter_readable_exact_example =
    filter_readable_exact toy toy_read (λ s. s) in_users here (lit "acme") (lit "node") ann
      (lit "users" ∷ []) node_index hits toy_law toy_stored names_differ.0 names_differ.1
      node_resolves refl refl
