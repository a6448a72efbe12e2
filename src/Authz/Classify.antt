-- ===== src/Authz/Classify.antt =====
-- internal/api/authz_enforce.go: the authorization that a request requires, by its method and path.
pub mod Guarded
use cinc_server_ng.Prelude.{
  ℕ, Bool, true, false, not, ◌&&◌, ◌||◌, Option, none, some, List, [], ◌∷◌, ◌++◌, is_empty, Bytes,
  lit, ◌==◌, eqb, split, has_prefix, contains, if◌then◌else◌,
}

-- The methods that the code tells apart; `other` is any other one.
pub data Method : Type 0 where
  get_m head_m post_m put_m delete_m patch_m other_m : Method

-- authzCheck; an empty string is a field that is not set.
pub record Check : Type 0 where
  pub acl_type : Bytes
  pub acl_name : Bytes
  pub perm : Bytes
  pub exist_coll : Bytes
  pub exist_key : Bytes
  pub exist_msg : Bytes
  pub global : Bool
  pub superuser_only : Bool
  pub allow_self : Bytes
  pub acl_endpoint : Bool

-- &authzCheck{aclType: t, aclName: n, perm: p}
abbrev pub on : Bytes → Bytes → Bytes → Check
on t n p = record {
  acl_type = t;
  acl_name = n;
  perm = p;
  exist_coll = [];
  exist_key = [];
  exist_msg = [];
  global = false;
  superuser_only = false;
  allow_self = [];
  acl_endpoint = false;
}

-- &authzCheck{superuserOnly: true, perm: p}
abbrev pub superuser : Bytes → Check
superuser p = record (on [] [] p) { superuser_only = true }

trim_left : Bytes → Bytes
trim_left [] = []
trim_left (c ∷ s) = if eqb c b'/' then trim_left s else c ∷ s

trim_right : Bytes → Bytes
trim_right [] = []
trim_right (c ∷ s) = let rest = trim_right s in if is_empty rest && eqb c b'/' then [] else c ∷ rest

-- strings.Split(strings.Trim(path, "/"), "/")
unfoldable pub path_parts : Bytes → List Bytes
unfolding trim_left trim_right
path_parts path = split (trim_right (trim_left path)) b'/'

abbrev pub is_read : Method → Bool
is_read get_m = true
is_read head_m = true
is_read _ = false

-- itemPerm
unfoldable pub item_perm : Method → Option Bytes
item_perm get_m = some (lit "read")
item_perm head_m = some (lit "read")
item_perm put_m = some (lit "update")
item_perm delete_m = some (lit "delete")
item_perm _ = none

-- userKeyPerm
unfoldable pub user_key_perm : Method → Option Bytes
unfolding item_perm
user_key_perm post_m = some (lit "create")
user_key_perm m = item_perm m

-- enforceSegs
unfoldable pub enforce_segs : List Bytes
enforce_segs =
    lit "nodes"
    ∷ lit "roles"
    ∷ lit "environments"
    ∷ lit "clients"
    ∷ lit "groups"
    ∷ lit "containers"
    ∷ lit "policies"
    ∷ lit "policy_groups"
    ∷ []

-- existenceSegs
unfoldable pub existence_segs : List Bytes
existence_segs =
    lit "nodes"
    ∷ lit "roles"
    ∷ lit "environments"
    ∷ lit "clients"
    ∷ lit "groups"
    ∷ lit "containers"
    ∷ []

-- classifySubResource, with the segments behind `name`
unfoldable pub classify_sub_resource : Method → Bytes → Bytes → Bytes → Option Check
classify_sub_resource m seg name sub =
    let as_read = λ (p : Bytes). if is_read m then lit "read" else p in
    if sub == lit "keys"
    then some (on seg name (as_read (lit "update")))
    else if seg == lit "policies" && sub == lit "revisions"
    then some (on seg name (as_read (elim m [ delete_m ↦ lit "delete" | _ ↦ lit "update" ])))
    else if seg == lit "policy_groups" && sub == lit "policies"
    then some (on seg name (as_read (lit "update")))
    else none

-- classifyGeneric; `rest` begins with `seg`
unfoldable pub classify_generic : Method → Bytes → List Bytes → Option Check
unfolding item_perm existence_segs classify_sub_resource
classify_generic m seg (s ∷ []) =
    if is_read m
    then some (on (lit "containers") seg (lit "read"))
    else elim m [ post_m ↦ some (on (lit "containers") seg (lit "create")) | _ ↦ none ]
classify_generic m seg (s ∷ name ∷ []) = elim (item_perm m) [
  | none ↦ none
  | some perm ↦ some (
      if contains existence_segs seg
      then record (on seg name perm) {
        exist_coll = seg;
        exist_key = name;
        exist_msg = lit "Cannot find " ++ (seg ++ (lit " " ++ name));
      }
      else on seg name perm)
]
classify_generic m seg (s ∷ name ∷ sub ∷ more) = classify_sub_resource m seg name sub
classify_generic m seg [] = none

-- classifyCookbook
unfoldable pub classify_cookbook : Method → Bytes → List Bytes → Option Check
unfolding item_perm
classify_cookbook m seg (s ∷ []) =
    if is_read m then some (on (lit "containers") seg (lit "read")) else none
classify_cookbook m seg (s ∷ name ∷ []) =
    if has_prefix name (lit "_")
    then (if is_read m then some (on (lit "containers") seg (lit "read")) else none)
    else if is_read m
    then some (on seg name (lit "read"))
    else none
classify_cookbook m seg (s ∷ name ∷ version ∷ []) = elim (item_perm m) [
  | none ↦ none
  | some perm ↦ some (on seg name perm)
]
classify_cookbook m seg _ = none

-- the permissions that a method needs on a data bag, and on one of its items
abbrev bag_perm : Method → Option Bytes
bag_perm get_m = some (lit "read")
bag_perm head_m = some (lit "read")
bag_perm post_m = some (lit "update")
bag_perm delete_m = some (lit "delete")
bag_perm _ = none

abbrev bag_item_perm : Method → Option Bytes
bag_item_perm get_m = some (lit "read")
bag_item_perm head_m = some (lit "read")
bag_item_perm put_m = some (lit "update")
bag_item_perm delete_m = some (lit "update")
bag_item_perm _ = none

-- on a bag that must exist
abbrev on_bag : Bytes → Option Bytes → Option Check
on_bag bag none = none
on_bag bag (some perm) = some (record (on (lit "data") bag perm) {
  exist_coll = lit "data_bags";
  exist_key = bag;
  exist_msg = lit "Cannot find data bag " ++ bag;
})

-- classifyDataBag
unfoldable pub classify_data_bag : Method → List Bytes → Option Check
classify_data_bag m (s ∷ []) =
    if is_read m
    then some (on (lit "containers") (lit "data") (lit "read"))
    else elim m [ post_m ↦ some (on (lit "containers") (lit "data") (lit "create")) | _ ↦ none ]
classify_data_bag m (s ∷ bag ∷ []) = on_bag bag (bag_perm m)
classify_data_bag m (s ∷ bag ∷ item ∷ []) = on_bag bag (bag_item_perm m)
classify_data_bag m _ = none

-- classifyOrgMembership: the segments behind the organisation, at least one
abbrev is_membership_write : Method → Bool
is_membership_write post_m = true
is_membership_write put_m = true
is_membership_write delete_m = true
is_membership_write _ = false

abbrev on_org : Bytes → Check
on_org org = on (lit "organizations") org (lit "update")

unfoldable pub classify_org_membership : Method → Bytes → List Bytes → Option Check
classify_org_membership m org (s ∷ []) =
    if is_membership_write m
    then (if s == lit "users"
        then elim m [ post_m ↦ some (superuser (lit "create")) | _ ↦ some (on_org org) ]
        else some (on_org org))
    else none
classify_org_membership m org (s ∷ user ∷ []) =
    if is_membership_write m
    then (if s == lit "users"
        then elim m [
          | delete_m ↦ some (record (on_org org) {
            allow_self = user;
            exist_coll = lit "association_users";
            exist_key = user;
            exist_msg = lit "Cannot find user " ++ (user ++ (lit " in organization " ++ org));
          })
          | _ ↦ some (on_org org)
        ]
        else some (on_org org))
    else none
classify_org_membership m org _ = none

-- classifyUsers: the segments behind "users"
unfoldable pub classify_users : Method → List Bytes → Option Check
unfolding item_perm user_key_perm
classify_users m [] =
    if is_read m
    then some (superuser (lit "read"))
    else elim m [ post_m ↦ some (superuser (lit "create")) | _ ↦ none ]
classify_users m (name ∷ []) = elim (item_perm m) [
  | none ↦ none
  | some perm ↦ some (record (superuser perm) { allow_self = name })
]
classify_users m (name ∷ sub ∷ more) =
    if sub == lit "_acl"
    then some (record (on (lit "users") name (lit "grant")) { global = true; acl_endpoint = true })
    else if sub == lit "keys"
    then elim (user_key_perm m) [
      | none ↦ none
      | some perm ↦ some (record (superuser perm) { allow_self = name })
    ]
    else none

-- slices.Index(rest, "_acl"), as the segments in front of the first one
unfoldable pub before_acl : List Bytes → Option (List Bytes)
before_acl [] = none
before_acl (s ∷ rest) =
    if s == lit "_acl"
    then some []
    else elim (before_acl rest) [ none ↦ none | some obj ↦ some (s ∷ obj) ]

classify_acl : Bytes → List Bytes → Option Check
classify_acl org (o ∷ []) =
    if o == lit "organizations" then some (on (lit "organizations") org (lit "grant")) else none
classify_acl org (typ ∷ name ∷ []) =
    some (record (on typ name (lit "grant")) { acl_endpoint = true })
classify_acl org _ = none

-- the rest of classifyRequest, for /organizations/{org} and what is below it
unfoldable pub classify_org : Method → Bytes → List Bytes → Option Check
unfolding item_perm
classify_org m org [] = elim (item_perm m) [
  | none ↦ none
  | some perm ↦
      if is_read m then some (on (lit "organizations") org perm) else some (superuser perm)
]
classify_org m org (seg ∷ more) =
    if seg == lit "data"
    then classify_data_bag m (seg ∷ more)
    else if seg == lit "cookbooks" || seg == lit "cookbook_artifacts"
    then classify_cookbook m seg (seg ∷ more)
    else if seg == lit "users" || seg == lit "association_requests"
    then classify_org_membership m org (seg ∷ more)
    else if contains enforce_segs seg
    then classify_generic m seg (seg ∷ more)
    else none

-- classifyRequest
unfoldable pub classify_parts : Method → List Bytes → Option Check
unfolding classify_users before_acl classify_acl classify_org classify_data_bag classify_cookbook
    classify_org_membership classify_generic enforce_segs
classify_parts m [] = none
classify_parts m (p ∷ []) =
    if p == lit "users"
    then classify_users m []
    else if p == lit "organizations"
    then elim m [ post_m ↦ some (superuser (lit "create")) | _ ↦ none ]
    else none
classify_parts m (p ∷ org ∷ rest) =
    if p == lit "users"
    then classify_users m (org ∷ rest)
    else if not (p == lit "organizations") || org == []
    then none
    else elim (before_acl rest) [ some obj ↦ classify_acl org obj | none ↦ classify_org m org rest ]

unfoldable pub classify_request : Method → Bytes → Option Check
unfolding classify_parts path_parts
classify_request m path = classify_parts m (path_parts path)
