-- ===== src/Authz/Policy.antt =====
-- internal/api/acl_policy.go, and the defaults of acl.go: the ACL of an object that has none stored.
pub mod Admins
use cinc_server_ng.Prelude.{
  Bool, true, false, not, ◌&&◌, ◌||◌, Option, none, some, List, [], ◌∷◌, ◌++◌, any, is_some, Bytes,
  lit, ◌==◌, contains, Map, empty_map, get, set, if◌then◌else◌,
}

-- An access control entry: map[string]any{"actors": …, "groups": …}
pub record Ace : Type 0 where
  pub actors : List Bytes
  pub groups : List Bytes

abbrev pub Acl : Type 0
Acl = Map Ace

-- aclPerms
unfoldable pub acl_perms : List Bytes
acl_perms = lit "create" ∷ lit "read" ∷ lit "update" ∷ lit "delete" ∷ lit "grant" ∷ []

-- grant
pub record Grant : Type 0 where
  pub group : Bytes
  pub perms : List Bytes

-- the groups that a permission goes to
unfoldable pub granted : List Grant → Bytes → List Bytes
granted [] p = []
granted (g ∷ gs) p = let rest = granted gs p in if contains g.perms p then g.group ∷ rest else rest

policy_loop : List Grant → List Bytes → Acl → Acl
unfolding granted
policy_loop grants [] acl = acl
policy_loop grants (p ∷ ps) acl =
    policy_loop grants ps (set acl p (record { actors = []; groups = granted grants p }))

-- policyACL
unfoldable pub policy_acl : List Grant → Acl
unfolding policy_loop acl_perms
policy_acl grants = policy_loop grants acl_perms empty_map

abbrev Table : Type 0
Table = List (Bytes × List Bytes)

unfoldable pub find : Table → Bytes → Option (List Bytes)
find [] k = none
find ((j, ps) ∷ t) k = if j == k then some ps else find t k

-- m[k], where a missing key reads as the empty slice
abbrev pub perms_at : Table → Bytes → List Bytes
perms_at t k = elim (find t k) [ none ↦ [] | some ps ↦ ps ]

abbrev all_but_grant : List Bytes
all_but_grant = lit "create" ∷ lit "read" ∷ lit "update" ∷ lit "delete" ∷ []

-- containerUserPerms
unfoldable pub container_user_perms : Table
container_user_perms =
    (lit "cookbooks", all_but_grant)
    ∷ (lit "data", all_but_grant)
    ∷ (lit "nodes", all_but_grant)
    ∷ (lit "roles", all_but_grant)
    ∷ (lit "environments", all_but_grant)
    ∷ (lit "policies", all_but_grant)
    ∷ (lit "policy_groups", all_but_grant)
    ∷ (lit "cookbook_artifacts", all_but_grant)
    ∷ (lit "clients", lit "read" ∷ lit "delete" ∷ [])
    ∷ (lit "groups", lit "read" ∷ [])
    ∷ (lit "containers", lit "read" ∷ [])
    ∷ (lit "sandboxes", lit "create" ∷ [])
    ∷ []

-- containerClientPerms
unfoldable pub container_client_perms : Table
container_client_perms =
    (lit "nodes", lit "create" ∷ lit "read" ∷ [])
    ∷ (lit "policies", lit "read" ∷ [])
    ∷ (lit "policy_groups", lit "read" ∷ [])
    ∷ (lit "cookbook_artifacts", lit "read" ∷ [])
    ∷ (lit "data", lit "read" ∷ [])
    ∷ (lit "cookbooks", lit "read" ∷ [])
    ∷ (lit "environments", lit "read" ∷ [])
    ∷ (lit "roles", lit "read" ∷ [])
    ∷ []

abbrev pub grant_to : Bytes → List Bytes → Grant
grant_to group perms = record { group = group; perms = perms }

container_grants : Bytes → List Grant
unfolding acl_perms find container_user_perms container_client_perms
container_grants name =
    grant_to (lit "admins") acl_perms
    ∷ grant_to (lit "users") (perms_at container_user_perms name)
    ∷ grant_to (lit "clients") (perms_at container_client_perms name)
    ∷ []

-- containerACL
unfoldable pub container_acl : Bytes → Acl
unfolding policy_acl container_grants
container_acl name =
    let known = if is_some (find container_user_perms name) then name else lit "containers" in
    policy_acl (container_grants known)

-- groupACL
unfoldable pub group_acl : Bytes → Acl
unfolding policy_acl container_acl acl_perms
group_acl name =
    if name == lit "admins" || name == lit "clients" || name == lit "users"
    then policy_acl (grant_to (lit "admins") acl_perms ∷ [])
    else if name == lit "billing-admins"
    then policy_acl (grant_to (lit "billing-admins") (lit "read" ∷ lit "update" ∷ []) ∷ [])
    else if name == lit "public_key_read_access"
    then policy_acl (grant_to (lit "admins") (lit "read" ∷ lit "update" ∷ []) ∷ [])
    else container_acl (lit "groups")

-- orgACL
unfoldable pub org_acl : Acl
unfolding policy_acl acl_perms
org_acl =
    policy_acl (grant_to (lit "admins") acl_perms ∷ grant_to (lit "users") (lit "read" ∷ []) ∷ [])

abbrev to_groups : List Bytes → Ace
to_groups gs = record { actors = []; groups = gs }

-- defaultACL
unfoldable pub default_acl : Acl
default_acl =
    set
      (set
        (set
          (set (set empty_map (lit "create") (to_groups (lit "admins" ∷ lit "users" ∷ [])))
            (lit "read") (to_groups (lit "admins" ∷ lit "users" ∷ lit "clients" ∷ [])))
          (lit "update") (to_groups (lit "admins" ∷ lit "users" ∷ [])))
        (lit "delete") (to_groups (lit "admins" ∷ lit "users" ∷ [])))
      (lit "grant") (to_groups (lit "admins" ∷ []))

-- fallbackACL
unfoldable pub fallback_acl : Bytes → Bytes → Acl
unfolding org_acl container_acl group_acl default_acl
fallback_acl typ name =
    if typ == lit "organizations"
    then org_acl
    else if typ == lit "containers"
    then container_acl name
    else if typ == lit "groups"
    then group_acl name
    else default_acl

-- aceAllows: `member` holds the groups that the actor belongs to.
unfoldable pub ace_allows : Option Ace → Bytes → List Bytes → Bool
ace_allows none actor member = false
ace_allows (some ace) actor member = contains ace.actors actor || any (contains member) ace.groups
