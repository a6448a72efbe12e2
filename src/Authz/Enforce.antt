-- ===== src/Authz/Enforce.antt =====
-- internal/api/authz_enforce.go and preread.go: the decision on a request. An ACL is stored as JSON:
-- `decode` is encoding/json on it, read as code reads an ACL, so a permission whose value is no
-- object is not there, and an element of an entry that is no string is left out. The groups of an
-- actor come from `groups_of`, which the code takes as a function as well.
pub mod Sound
pub mod Panics
use cinc_server_ng.Prelude.{
  ℕ, Bool, true, false, not, ◌&&◌, ◌||◌, Option, none, some, List, [], ◌∷◌, ◌++◌, is_empty, is_some,
  Bytes, lit, ◌==◌, Map, get, contains, Result, ok, err, eqb, if◌then◌else◌,
}
use cinc_server_ng.Store.Memory.{Memory, Error, get_object, keys, range, has_org}
use cinc_server_ng.Authz.Classify.{Method, Check, classify_request, path_parts}
use cinc_server_ng.Authz.Open.{refuse_unclassified_write}
use cinc_server_ng.Authz.Policy.{Ace, Acl, fallback_acl, ace_allows}

-- Actor, as far as authorization reads it
pub record Actor : Type 0 where
  pub name : Bytes
  pub is_global_admin : Bool

-- preread
pub record Preread : Type 0 where
  pub org : Bytes
  pub coll : Bytes
  pub key : Bytes
  pub raw : Bytes

-- What authorize does: it lets the request through, with what it has read, or it writes a status
-- and a message, or it indexes a slice out of range.
pub data Decision : Type 0 where
  proceed : Option Preread → Decision
  refuse : ℕ → Bytes → Decision
  panics : Decision

-- aclKey
unfoldable pub acl_key : Bytes → Bytes → Bytes
acl_key typ name = typ ++ (lit "/" ++ name)

-- strings.Cut(key, "/"): what is before the first separator, if there is one
before_slash : Bytes → Option Bytes
before_slash [] = none
before_slash (c ∷ s) =
    let rest = before_slash s in
    if eqb c b'/' then some [] else elim rest [ none ↦ none | some cb ↦ some (c ∷ cb) ]

unfoldable pub cut_is : Bytes → Bytes → Bool
unfolding before_slash
cut_is name key = elim (before_slash key) [ none ↦ false | some cb ↦ cb == name ]

-- hasVersion
unfoldable pub has_version : Memory → Bytes → Bytes → Bytes → Bool
unfolding range cut_is
has_version m org coll name =
    range m org coll (λ key v found. if cut_is name key then (false, true) else (true, found)) false

-- aclObjectExists
unfoldable pub acl_object_exists : Memory → Bytes → Bytes → Bytes → Bool
unfolding has_version
acl_object_exists m org typ name =
    if typ == lit "organizations"
    then true
    else if typ == lit "data"
    then is_some (get_object m org (lit "data_bags") name)
    else if typ == lit "cookbooks" || typ == lit "cookbook_artifacts"
    then has_version m org typ name
    else if typ == lit "policies"
    then not (is_empty (keys m org (lit "policy_revisions:" ++ name)))
    else is_some (get_object m org typ name)

second : List Bytes → Option Bytes
second (p ∷ org ∷ rest) = some org
second _ = none

-- strings.Split(strings.Trim(path, "/"), "/")[1], which is out of range at `none`
unfoldable pub segment_of_org : Bytes → Option Bytes
unfolding second path_parts
segment_of_org path = second (path_parts path)

module _ (decode : Bytes → Option Acl) (groups_of : Bytes → Bytes → Result Bytes (List Bytes)) where
  -- loadACL
  unfoldable pub load_acl : Memory → Bytes → Bytes → Bytes → Acl
  unfolding acl_key
  load_acl m org typ name = elim (get_object m org (lit "acls") (acl_key typ name)) [
    | none ↦ fallback_acl typ name
    | some raw ↦ elim (decode raw) [ none ↦ fallback_acl typ name | some acl ↦ acl ]
  ]

  -- allowedWith
  unfoldable pub allowed_with : Memory → Bytes → Actor → Bytes → Bytes → Bytes → Result Bytes Bool
  unfolding load_acl
  allowed_with m org actor typ name perm = elim (get (load_acl m org typ name) perm) [
    | none ↦ ok false
    | some ace ↦
        if contains ace.actors actor.name
        then ok true
        else if is_empty ace.groups
        then ok false
        else elim (groups_of org actor.name) [
          | err e ↦ err e
          | ok member ↦ ok (ace_allows (some ace) actor.name member)
        ]
  ]

  -- the check of the ACL itself, at the end of authorize
  unfoldable pub decide : Memory → Bytes → Actor → Check → Option Preread → Decision
  unfolding allowed_with
  decide m org actor check pre =
      elim (allowed_with m org actor check.acl_type check.acl_name check.perm) [
        | err e ↦ refuse 500 e
        | ok false ↦ refuse 403 (lit "missing " ++ (check.perm ++ lit " permission"))
        | ok true ↦ proceed pre
      ]

  -- if check.aclEndpoint …, and what follows it
  unfoldable pub decide_endpoint : Memory → Bytes → Actor → Check → Option Preread → Decision
  unfolding acl_object_exists decide
  decide_endpoint m org actor check pre =
      if check.acl_endpoint && not (acl_object_exists m org check.acl_type check.acl_name)
      then refuse 404 (lit "Cannot find " ++ (check.acl_type ++ (lit " " ++ check.acl_name)))
      else decide m org actor check pre

  -- if check.existColl != "" …, and what follows it
  unfoldable pub decide_existing : Memory → Bytes → Actor → Check → Decision
  unfolding decide_endpoint
  decide_existing m org actor check =
      if check.exist_coll == []
      then decide_endpoint m org actor check none
      else elim (get_object m org check.exist_coll check.exist_key) [
        | none ↦ refuse 404 check.exist_msg
        | some raw ↦
            decide_endpoint m org actor check (
              some
                (record { org = org; coll = check.exist_coll; key = check.exist_key; raw = raw }))
      ]

  -- The organisation of the path, whose name is the second segment. The global space has the name "".
  unfoldable pub decide_in_org : Memory → Bytes → Actor → Check → Decision
  unfolding decide_existing segment_of_org has_org
  decide_in_org m path actor check =
      if check.global then decide_existing m [] actor check else elim (segment_of_org path) [
        | some org ↦ if has_org m org then decide_existing m org actor check else proceed none
        | none ↦ panics
      ]

  -- authorize, with the actor of the request's context. `matched` is the router's answer. The store
  -- counts the reads; the counters are left out here.
  unfoldable pub authorize : Memory → Bool → Option Actor → Method → Bytes → Decision
  unfolding classify_request refuse_unclassified_write decide_in_org
  authorize m matched none method path = proceed none
  authorize m matched (some actor) method path =
      if actor.is_global_admin then proceed none else elim (classify_request method path) [
        | none ↦
            if refuse_unclassified_write matched method path
            then refuse 403 (lit "missing permission")
            else proceed none
        | some check ↦
            if not (check.allow_self == []) && actor.name == check.allow_self
            then proceed none
            else if check.superuser_only
            then refuse 403 (lit "missing " ++ (check.perm ++ lit " permission"))
            else decide_in_org m path actor check
      ]

-- prereadFrom
unfoldable pub preread_from : Option Preread → Bytes → Bytes → Bytes → Option Bytes
preread_from none org coll key = none
preread_from (some p) org coll key =
    if p.org == org && (p.coll == coll && p.key == key) then some p.raw else none

-- viewObject
unfoldable pub view_object : Option Preread → Memory → Bytes → Bytes → Bytes → Option Bytes
unfolding preread_from
view_object pre m org coll key = elim (preread_from pre org coll key) [
  | some raw ↦ some raw
  | none ↦ get_object m org coll key
]
