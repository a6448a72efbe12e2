-- ===== src/Search/Tests.antt =====
-- Runs of internal/search on small inputs, and the theorems at them.
use cinc_server_ng.Prelude.{
  ℕ, ◌≡◌, ◌≢◌, refl, arith, true, false, none, some, List, [], ◌∷◌, ◌++◌, Bytes, lit, ◌==◌, eqb,
  ltb, contains, any, Option, IsFree, cut_prefix, empty_map, set, delete, get-set, get-empty, ok,
  err,
}
use cinc_server_ng.Search.Query.{
  HasValues, Runtime, Query, term_q, not_q, Fields, matches, match_string,
}
use cinc_server_ng.Search.Glob.{pieces, escape, one_line, match-escape_star}
use cinc_server_ng.Search.Lexer.{
  out_of_fuel, missing_paren, expected_value, unterminated_range, trailing_escape,
}
use cinc_server_ng.Search.Parser.{parse}
use cinc_server_ng.Search.Parser.Total.{parse_total, parse-IsPlannable}
use cinc_server_ng.Search.Sets.{DocIds}
use cinc_server_ng.Search.Plan.{plan, doc_any, IsIndexOf, IsPlannable, plan-eq-matches}
use cinc_server_ng.Search.Index.{new_coll_index, put, remove, postings_view}
use cinc_server_ng.Search.Index.Represents.{
  Represents, new_coll_index-Represents, put-Represents, remove-Represents,
}
use cinc_server_ng.Search.Index.View.{postings_view-IsIndexOf}
use cinc_server_ng.Search.Engine.{Change, changed, gone, documents, indexed, search_exact}
use cinc_server_ng.Store.Facade.{put_op, delete_op, finish, call, Prog}
use cinc_server_ng.Store.Memory.{conflict}
use cinc_server_ng.Search.Json.{text, Members, no_members, member, object}
use cinc_server_ng.Search.Flatten.{flatten}
use cinc_server_ng.Search.Flatten.Exact.{
  puts, is_nameless, leaves_of_members, keys_from, flatten-adds, flatten_exact,
}
use cinc_server_ng.Search.Query.{values}
use cinc_server_ng.Search.Registry.{get_index}
use cinc_server_ng.Search.Registry.Current.{merges}
use cinc_server_ng.Search.Registry.Exact.{
  Request, plain, atomic, lookup, IsCleanRequest, serve, started, document_passes,
  registry_search_exact,
}
use cinc_server_ng.Prelude.{All, if◌then◌else◌}
use cinc_server_ng.Prelude.Maps.Entries.{find_entry}
use cinc_server_ng.Store.Memory.{get_object}
use cinc_server_ng.Search.Results.{find_matches}
use cinc_server_ng.Search.Results.Found.{find_matches_exact}

-- A runtime without numbers, and with one case of letters.
abbrev simple : Runtime
simple = record {
  Float = ℕ;
  parse_float = λ s. none;
  float_lt = ltb;
  float_eq = eqb;
  to_lower = λ s. s;
}

abbrev name_is_web : Query
name_is_web = term_q (record { field = lit "name"; value = lit "web"; phrase = false; re = none })

parse_tests :
    (parse simple (lit "name:web") ≡ ok name_is_web)
    × (parse simple (lit "a b OR c") ≡ parse simple (lit "(a AND b) OR c"))
    × (parse simple (lit "-name:web") ≡ ok (not_q name_is_web))
    × (parse simple (lit "(name:web") ≡ err missing_paren)
    × (parse simple (lit "name:") ≡ err expected_value)
    × (parse simple (lit "[1 TO") ≡ err unterminated_range)
    × (parse simple (lit "a" ++ 92 ∷ []) ≡ err trailing_escape)
unfolding parse lit ◌==◌
parse_tests = (refl, refl, refl, refl, refl, refl, refl)

abbrev web : Fields
web = set empty_map (lit "name") (lit "web" ∷ [])

abbrev history : List Change
history = changed (lit "n1") web ∷ changed (lit "n2") web ∷ gone (lit "n1") ∷ []

web-HasValues : HasValues web
web-HasValues f vs e =
    ground (arith, get-set empty_map (lit "name") f (lit "web" ∷ []), get-empty {V = List Bytes} f)

parsed : parse simple (lit "name:web") ≡ ok name_is_web
unfolding parse lit ◌==◌
parsed = refl

search_exact_example :
    (ids : DocIds) × (plan simple
        (postings_view (indexed history (new_coll_index true)))
        name_is_web
      ≡ some ids)
    × ((id : Bytes)
        → contains ids id ≡ doc_any (documents history empty_map) id (matches simple name_is_web))
search_exact_example =
    search_exact simple true history (lit "name:web") name_is_web
      (web-HasValues, (web-HasValues, (refl, tt))) parsed

one_node : Represents (set empty_map (lit "n1") web) (put (lit "n1") web (new_coll_index true))
one_node =
    put-Represents empty_map (new_coll_index true) (new_coll_index-Represents true) (lit "n1") web
      web-HasValues

put-Represents_example :
    Represents (set empty_map (lit "n1") web) (put (lit "n1") web (new_coll_index true))
put-Represents_example =
    put-Represents empty_map (new_coll_index true) (new_coll_index-Represents true) (lit "n1") web
      web-HasValues

remove-Represents_example :
    Represents
      (delete (set empty_map (lit "n1") web) (lit "n1"))
      (remove (lit "n1") (put (lit "n1") web (new_coll_index true)))
remove-Represents_example =
    remove-Represents (set empty_map (lit "n1") web) (put (lit "n1") web (new_coll_index true))
      one_node (lit "n1")

postings_view-IsIndexOf_example :
    IsIndexOf
      (set empty_map (lit "n1") web)
      (postings_view (put (lit "n1") web (new_coll_index true)))
postings_view-IsIndexOf_example =
    postings_view-IsIndexOf (set empty_map (lit "n1") web)
      (put (lit "n1") web (new_coll_index true)) one_node

plan-eq-matches_example :
    (ids : DocIds) × (plan simple
        (postings_view (put (lit "n1") web (new_coll_index true)))
        (not_q name_is_web)
      ≡ some ids)
    × ((id : Bytes)
        → contains ids id
          ≡ doc_any (set empty_map (lit "n1") web) id (matches simple (not_q name_is_web)))
plan-eq-matches_example =
    plan-eq-matches simple (set empty_map (lit "n1") web)
      (postings_view (put (lit "n1") web (new_coll_index true))) (not_q name_is_web)
      (postings_view-IsIndexOf (set empty_map (lit "n1") web)
        (put (lit "n1") web (new_coll_index true)) one_node)
      tt

parse_total_example : parse simple (lit "a AND (b OR") ≢ err out_of_fuel
parse_total_example = parse_total simple (lit "a AND (b OR")

parse-IsPlannable_example : IsPlannable name_is_web
parse-IsPlannable_example = parse-IsPlannable simple (lit "name:web") name_is_web parsed

match-escape_star_example :
    match_string (pieces (escape (lit "web*") ++ b'*' ∷ [])) (lit "web*1")
    ≡ (elim (cut_prefix (lit "web*1") (lit "web*")) [ none ↦ false | some rest ↦ one_line rest ])
match-escape_star_example = match-escape_star (lit "web*") (lit "web*1")

-- A document's text is its name, and the empty text does not decode.
abbrev decode_name : Bytes → Option Members
decode_name [] = none
decode_name (c ∷ cs) = some (member (lit "name") (text (c ∷ cs)) no_members)

abbrev acme : Bytes
acme = lit "acme"

abbrev roles : Bytes
roles = lit "roles"

abbrev write_roles : Prog
write_roles =
    call (put_op acme roles (lit "r1") (lit "web"))
      (λ _. call (put_op acme roles (lit "r2") (lit "db")) (λ _. finish none))

abbrev failing : Prog
failing = call (delete_op acme roles (lit "r1")) (λ _. finish (some conflict))

abbrev requests : List Request
requests = plain write_roles ∷ lookup acme roles ∷ atomic failing ∷ plain write_roles ∷ []

IsFree-acme : IsFree 0 acme
unfolding lit
IsFree-acme = (ground (arith), (ground (arith), (ground (arith), (ground (arith), tt))))

requests_clean : All IsCleanRequest requests
unfolding ◌==◌ lit
requests_clean = (
  ((refl, IsFree-acme), λ _. ((refl, IsFree-acme), λ _. tt)),
  (
    IsFree-acme,
    (
      ((refl, IsFree-acme), λ _. tt),
      (((refl, IsFree-acme), λ _. ((refl, IsFree-acme), λ _. tt)), tt),
    ),
  ),
)

registry_search_exact_example :
    (ids : DocIds) × (plan simple
        (postings_view
          (get_index simple.to_lower decode_name acme roles
            (merges roles)
            (serve simple.to_lower decode_name requests (started simple.to_lower decode_name))).0)
        name_is_web
      ≡ some ids)
    × ((id : Bytes)
        → contains ids id
          ≡ document_passes simple.to_lower decode_name
              (serve simple.to_lower decode_name requests (started simple.to_lower decode_name))
              acme
              roles
              id
              (matches simple name_is_web))
unfolding ◌==◌ lit
registry_search_exact_example =
    registry_search_exact simple decode_name requests acme roles (lit "name:web") name_is_web
      requests_clean IsFree-acme parsed

find_matches_exact_example :
    find_entry
      (find_matches simple decode_name acme roles
        (merges roles)
        name_is_web
        (serve simple.to_lower decode_name requests (started simple.to_lower decode_name))).0
      (lit "r1")
    ≡ (if document_passes simple.to_lower decode_name
          (serve simple.to_lower decode_name requests (started simple.to_lower decode_name))
          acme
          roles
          (lit "r1")
          (matches simple name_is_web)
        then get_object
            (serve simple.to_lower decode_name requests
              (started simple.to_lower decode_name)).backend
            acme
            roles
            (lit "r1")
        else none)
unfolding ◌==◌ lit
find_matches_exact_example =
    find_matches_exact simple decode_name requests acme roles (lit "name:web") name_is_web
      requests_clean IsFree-acme parsed (lit "r1")

abbrev nested : Members
nested = member (lit "os") (object (member (lit "name") (text (lit "linux")) no_members)) no_members

named : any is_nameless (leaves_of_members (λ s. s) [] nested) ≡ false
unfolding leaves_of_members lit ◌==◌
named = refl

flatten_exact_example :
    contains (values (flatten (λ s. s) nested) (lit "os_name")) (lit "linux")
    ≡ any (puts (λ s. s) (lit "os_name") (lit "linux")) (leaves_of_members (λ s. s) [] nested)
flatten_exact_example = flatten_exact (λ s. s) (lit "os_name") (lit "linux") nested named

-- A member with an empty name adds no underscore behind the name in front of it.
abbrev unnamed : Members
unnamed = member (lit "a") (object (member [] (text (lit "x")) no_members)) no_members

unnamed_test :
    (contains (values (flatten (λ s. s) unnamed) (lit "a")) (lit "x") ≡ true)
    × (contains (values (flatten (λ s. s) unnamed) (lit "a_")) (lit "x") ≡ false)
unfolding leaves_of_members keys_from lit ◌==◌
unnamed_test = (
  flatten-adds (λ s. s) (lit "a") (lit "x") unnamed,
  flatten-adds (λ s. s) (lit "a_") (lit "x") unnamed,
)
