-- ===== src/Authz/Policy/Admins.antt =====
-- What the default policy keeps with the admins.
use cinc_server_ng.Prelude.{
  ◌≡◌, refl, Bool, true, false, ◌&&◌, ◌||◌, some, List, [], ◌∷◌, any, is_some, arith, Bytes, lit,
  ◌==◌, eq_iff, contains, empty_map, get, set, get-set, get-empty, if◌then◌else◌, eq_comm,
}
use cinc_server_ng.Authz.Policy.{
  Ace, Acl, acl_perms, Grant, granted, policy_loop, policy_acl, find, perms_at,
  container_user_perms, container_client_perms, grant_to, container_grants, container_acl,
  group_acl, org_acl, fallback_acl, ace_allows,
}

-- A permission of the policy goes to the groups whose grants list it, and no other permission is there.
get-policy_loop :
    (grants : List Grant) (ps : List Bytes) (acl : Acl) (p : Bytes)
    → get (policy_loop grants ps acl) p ≡ (
        if contains ps p
        then some (record { actors = []; groups = granted grants p })
        else get acl p)
unfolding policy_loop
get-policy_loop grants [] acl p = refl
get-policy_loop grants (q ∷ ps) acl p = ground (
  arith,
  get-policy_loop grants ps (set acl q (record { actors = []; groups = granted grants q })) p,
  get-set acl q p (record { actors = []; groups = granted grants q }),
  eq_iff q p,
)

-- a grant of the permission to one of the groups
unfoldable pub any_grant : List Bytes → Bytes → List Grant → Bool
any_grant member p grants = any (λ g. contains g.perms p && contains member g.group) grants

any-granted :
    (member : List Bytes) (p : Bytes) (grants : List Grant)
    → any (contains member) (granted grants p) ≡ any_grant member p grants
unfolding granted any_grant
any-granted member p [] = refl
any-granted member p (g ∷ gs) = ground (arith, any-granted member p gs)

-- The policy's ACL allows exactly what some grant to one of the actor's groups lists.
pub ace_allows-policy_acl :
    (grants : List Grant) (p actor : Bytes) (member : List Bytes)
    → ace_allows (get (policy_acl grants) p) actor member
      ≡ (contains acl_perms p && any_grant member p grants)
unfolding policy_acl ace_allows
ace_allows-policy_acl grants p actor member = ground (
  arith,
  get-policy_loop grants acl_perms empty_map p,
  get-empty {V = Ace} p,
  any-granted member p grants,
)

-- the words of the policy that are told apart below
words :
    ((lit "groups" == lit "organizations") ≡ false)
    × ((lit "groups" == lit "containers") ≡ false)
    × ((lit "organizations" == lit "organizations") ≡ true)
    × ((lit "groups" == lit "groups") ≡ true)
unfolding lit ◌==◌
words = (refl, refl, refl, refl)

-- Of an organisation with no ACL of its own, the admins hold every permission, the users the one to
-- read, and nobody else any.
pub fallback_acl-organizations :
    (name p actor : Bytes) (member : List Bytes)
    → ace_allows (get (fallback_acl (lit "organizations") name) p) actor member ≡ (
        contains acl_perms p
        && (contains member (lit "admins") || (p == lit "read" && contains member (lit "users"))))
unfolding fallback_acl org_acl any_grant
fallback_acl-organizations name p actor member = ground (
  arith,
  words,
  eq_comm p (lit "read"),
  ace_allows-policy_acl
      (grant_to (lit "admins") acl_perms ∷ grant_to (lit "users") (lit "read" ∷ []) ∷ []) p actor
      member,
)

group_rows :
    (perms_at container_user_perms (lit "groups") ≡ lit "read" ∷ [])
    × (perms_at container_client_perms (lit "groups") ≡ [])
    × (is_some (find container_user_perms (lit "groups")) ≡ true)
unfolding find container_user_perms container_client_perms lit ◌==◌
group_rows = (refl, refl, refl)

-- Of a group with no ACL of its own, whatever its name, a permission other than to read is only the
-- admins' or, on the group billing-admins, that group's own.
pub fallback_acl-groups :
    (name p actor : Bytes) (member : List Bytes)
    → (p == lit "read") ≡ false
    → ace_allows (get (fallback_acl (lit "groups") name) p) actor member ≡ true
    → (contains member (lit "admins")
        || (name == lit "billing-admins" && contains member (lit "billing-admins")))
      ≡ true
unfolding fallback_acl group_acl container_acl container_grants any_grant
fallback_acl-groups name p actor member r h = ground (
  arith,
  words,
  group_rows,
  eq_comm p (lit "read"),
  ace_allows-policy_acl (grant_to (lit "admins") acl_perms ∷ []) p actor member,
  ace_allows-policy_acl (grant_to (lit "billing-admins") (lit "read" ∷ lit "update" ∷ []) ∷ []) p
      actor member,
  ace_allows-policy_acl (grant_to (lit "admins") (lit "read" ∷ lit "update" ∷ []) ∷ []) p actor
      member,
  ace_allows-policy_acl (container_grants (lit "groups")) p actor member,
)
