-- ===== src/Authz/Tests.antt =====
-- Decisions of internal/api on small inputs, and the theorems at them.
mod Handed
use cinc_server_ng.Prelude.{
  ◌≡◌, ◌≢◌, refl, arith, Bool, true, false, not, ◌&&◌, ◌||◌, Option, none, some, List, [], ◌∷◌,
  contains, is_some, Bytes, lit, ◌==◌, eq_iff, get, get-set, set, ap, ◌∙◌, empty_map, Result, ok,
  split, has_prefix,
}
use cinc_server_ng.Store.Memory.{set_object, Memory, new_memory, create_org, has_org, get_object}
use cinc_server_ng.Store.Memory.Laws.{get-set_object, get-new_memory, get-create_org}
use cinc_server_ng.Authz.Classify.{get_m, post_m, put_m, Check, on, superuser, classify_request}
use cinc_server_ng.Authz.Classify.Guarded.{classify_request-asks}
use cinc_server_ng.Authz.Open.{mutating_method, refuse_unclassified_write}
use cinc_server_ng.Authz.Policy.{
  Ace, default_acl, Acl, acl_perms, fallback_acl, ace_allows, policy_acl, grant_to,
}
use cinc_server_ng.Authz.Policy.Admins.{
  any_grant, ace_allows-policy_acl, fallback_acl-organizations, fallback_acl-groups,
}
use cinc_server_ng.Authz.Enforce.{
  Actor, proceed, panics, load_acl, allowed_with, acl_key, acl_object_exists, authorize,
  segment_of_org, view_object, Preread,
}
use cinc_server_ng.Authz.Enforce.Sound.{
  allowed_with-ace_allows, authorize_exact, goes_through, is_allowed, view_object-authorize,
}
use cinc_server_ng.Authz.Enforce.Panics.{authorize-calm}

-- No ACL is stored, and everybody is in the group admins.
abbrev no_acl : Bytes → Option Acl
no_acl raw = none

abbrev all_admins : Bytes → Bytes → Result Bytes (List Bytes)
all_admins org actor = ok (lit "admins" ∷ [])

abbrev ann : Actor
ann = record { name = lit "ann"; is_global_admin = false }

abbrev acme : Memory
acme = (create_org new_memory (lit "acme")).1

-- Inviting a user to the organisation.
abbrev invites : Bytes
invites = lit "/organizations/acme/association_requests"

abbrev invite : Check
invite = on (lit "organizations") (lit "acme") (lit "update")

classify_tests :
    (classify_request post_m (lit "/organizations/acme/nodes")
      ≡ some (on (lit "containers") (lit "nodes") (lit "create")))
    × (classify_request put_m (lit "/organizations/acme") ≡ some (superuser (lit "update")))
    × (classify_request get_m (lit "/organizations/acme/search/node") ≡ none)
    × (classify_request get_m (lit "/organizations/acme/nodes/_acl") ≡ none)
unfolding classify_request lit ◌==◌ split
classify_tests = (refl, refl, refl, refl)

open_tests :
    (refuse_unclassified_write true post_m (lit "/organizations/acme/search/node") ≡ false)
    × (refuse_unclassified_write true post_m (lit "/organizations/acme/new_thing") ≡ true)
    × (refuse_unclassified_write false post_m (lit "/organizations/acme/new_thing") ≡ false)
    × (refuse_unclassified_write true get_m (lit "/organizations/acme/new_thing") ≡ false)
unfolding refuse_unclassified_write lit ◌==◌ split has_prefix
open_tests = (refl, refl, refl, refl)

invites_check : classify_request post_m invites ≡ some invite
unfolding classify_request lit ◌==◌ split
invites_check = refl

invites_org : segment_of_org invites ≡ some (lit "acme")
unfolding segment_of_org lit ◌==◌ split
invites_org = refl

ann_is_named : (lit "ann" == []) ≡ false
unfolding lit ◌==◌
ann_is_named = refl

acme_exists : has_org acme (lit "acme") ≡ true
unfolding has_org create_org new_memory
acme_exists = ground (
  arith,
  get-set {V = Bool} empty_map (lit "acme") (lit "acme") true,
  eq_iff (lit "acme") (lit "acme"),
)

no_objects : (o c k : Bytes) → get_object acme o c k ≡ none
no_objects o c k =
    ground (arith, get-create_org new_memory (lit "acme") o c k, get-new_memory o c k)

allowed_by_policy :
    (contains acl_perms (lit "update")
      && (contains (lit "admins" ∷ []) (lit "admins")
          || (lit "update" == lit "read" && contains (lit "admins" ∷ []) (lit "users"))))
    ≡ true
unfolding acl_perms lit ◌==◌
allowed_by_policy = refl

unstored :
    load_acl no_acl all_admins acme (lit "acme") (lit "organizations") (lit "acme")
    ≡ fallback_acl (lit "organizations") (lit "acme")
unfolding load_acl
unstored =
    ground
      (arith, no_objects (lit "acme") (lit "acls") (acl_key (lit "organizations") (lit "acme")))

allowed :
    allowed_with no_acl all_admins acme
      (lit "acme")
      ann
      (lit "organizations")
      (lit "acme")
      (lit "update")
    ≡ ok true
allowed =
    rw
      (
        allowed_with-ace_allows no_acl all_admins acme (lit "acme") ann (lit "organizations")
            (lit "acme") (lit "update") (lit "admins" ∷ []) refl,
        unstored,
        fallback_acl-organizations (lit "acme") (lit "update") (lit "ann") (lit "admins" ∷ []),
        allowed_by_policy,
      )
      refl

allowed_with-ace_allows_example :
    allowed_with no_acl all_admins acme (lit "acme") ann (lit "nodes") (lit "n1") (lit "update")
    ≡ ok (
        ace_allows
          (get
            (load_acl no_acl all_admins acme (lit "acme") (lit "nodes") (lit "n1"))
            (lit "update"))
          (lit "ann")
          (lit "admins" ∷ []))
allowed_with-ace_allows_example =
    allowed_with-ace_allows no_acl all_admins acme (lit "acme") ann (lit "nodes") (lit "n1")
      (lit "update") (lit "admins" ∷ []) refl

authorize_exact_example :
    goes_through (authorize no_acl all_admins acme true (some ann) post_m invites) ≡ (
      not invite.superuser_only
      && ((invite.exist_coll == [])
          || is_some (get_object acme (lit "acme") invite.exist_coll invite.exist_key))
      && (not invite.acl_endpoint
          || acl_object_exists acme (lit "acme") invite.acl_type invite.acl_name)
      && is_allowed (
          allowed_with no_acl all_admins acme
            (lit "acme")
            ann
            invite.acl_type
            invite.acl_name
            invite.perm))
authorize_exact_example =
    authorize_exact no_acl all_admins acme true ann post_m invites (lit "acme") invite refl
      invites_check ann_is_named refl invites_org acme_exists

-- With the admins' permission the invitation goes through.
invite_test : goes_through (authorize no_acl all_admins acme true (some ann) post_m invites) ≡ true
unfolding ◌==◌
invite_test =
    rw
      (
        authorize_exact no_acl all_admins acme true ann post_m invites (lit "acme") invite refl
            invites_check ann_is_named refl invites_org acme_exists,
        allowed,
      )
      refl

authorize-calm_example :
    authorize no_acl all_admins acme true (some ann) post_m (lit "/users") ≢ panics
authorize-calm_example = authorize-calm no_acl all_admins acme true (some ann) post_m (lit "/users")

classify_request-asks_example : (invite.perm == lit "read") ≡ false
unfolding mutating_method
classify_request-asks_example = classify_request-asks post_m invites invite refl invites_check

fallback_acl-organizations_example :
    ace_allows
      (get (fallback_acl (lit "organizations") (lit "acme")) (lit "update"))
      (lit "bob")
      (lit "users" ∷ [])
    ≡ (contains acl_perms (lit "update")
        && (contains (lit "users" ∷ []) (lit "admins")
            || (lit "update" == lit "read" && contains (lit "users" ∷ []) (lit "users"))))
fallback_acl-organizations_example =
    fallback_acl-organizations (lit "acme") (lit "update") (lit "bob") (lit "users" ∷ [])

grant_is_no_read : (lit "grant" == lit "read") ≡ false
unfolding lit ◌==◌
grant_is_no_read = refl

admins_policy :
    fallback_acl (lit "groups") (lit "admins") ≡ policy_acl (grant_to (lit "admins") acl_perms ∷ [])
unfolding fallback_acl lit ◌==◌
admins_policy = refl

admins_hold :
    (contains acl_perms (lit "grant")
      && any_grant (lit "admins" ∷ []) (lit "grant") (grant_to (lit "admins") acl_perms ∷ []))
    ≡ true
unfolding any_grant acl_perms lit ◌==◌
admins_hold = refl

admins_grant :
    ace_allows
      (get (fallback_acl (lit "groups") (lit "admins")) (lit "grant"))
      (lit "ann")
      (lit "admins" ∷ [])
    ≡ true
admins_grant = rw (admins_policy, ace_allows-policy_acl, admins_hold) refl

fallback_acl-groups_example :
    (contains (lit "admins" ∷ []) (lit "admins")
      || (lit "admins" == lit "billing-admins"
          && contains (lit "admins" ∷ []) (lit "billing-admins")))
    ≡ true
fallback_acl-groups_example =
    fallback_acl-groups (lit "admins") (lit "grant") (lit "ann") (lit "admins" ∷ [])
      grant_is_no_read admins_grant
