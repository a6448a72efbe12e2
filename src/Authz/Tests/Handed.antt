-- ===== src/Authz/Tests/Handed.antt =====
-- What authorize of internal/api/authz_enforce.go hands on for the update of a node that is stored.
use cinc_server_ng.Prelude.{
  ◌≡◌, refl, arith, true, false, Option, none, some, List, [], ◌∷◌, Bytes, lit, ◌==◌, get, get-set,
  set, ap, ◌∙◌, empty_map, ok, split,
}
use cinc_server_ng.Store.Memory.{set_object, Memory, has_org, get_object}
use cinc_server_ng.Store.Memory.Laws.{get-set_object}
use cinc_server_ng.Authz.Classify.{put_m, Check, classify_request}
use cinc_server_ng.Authz.Policy.{Ace, default_acl, Acl, fallback_acl, ace_allows}
use cinc_server_ng.Authz.Enforce.{
  proceed, load_acl, allowed_with, acl_key, authorize, segment_of_org, view_object, Preread,
}
use cinc_server_ng.Authz.Enforce.Sound.{allowed_with-ace_allows, view_object-authorize}
use cinc_server_ng.Authz.Tests.{no_acl, all_admins, ann, acme, invite, acme_exists, no_objects}

-- Updating a node that is stored, without an ACL of its own.
abbrev node_path : Bytes
node_path = lit "/organizations/acme/nodes/n1"

abbrev with_node : Memory
with_node = set_object acme (lit "acme") (lit "nodes") (lit "n1") (lit "node")

abbrev node_read : Preread
node_read = record { org = lit "acme"; coll = lit "nodes"; key = lit "n1"; raw = lit "node" }

abbrev check_or : Option Check → Check
check_or none = invite
check_or (some c) = c

abbrev node_check : Check
node_check = check_or (classify_request put_m node_path)

node_checked :
    (classify_request put_m node_path ≡ some node_check)
    × (segment_of_org node_path ≡ some (lit "acme"))
    × (node_check.exist_coll ≡ lit "nodes")
    × (node_check.exist_key ≡ lit "n1")
    × (node_check.acl_type ≡ lit "nodes")
    × (node_check.acl_name ≡ lit "n1")
    × (node_check.perm ≡ lit "update")
    × (node_check.acl_endpoint ≡ false)
    × (node_check.global ≡ false)
    × (node_check.superuser_only ≡ false)
    × (node_check.allow_self ≡ [])
unfolding classify_request segment_of_org lit ◌==◌ split
node_checked = (refl, refl, refl, refl, refl, refl, refl, refl, refl, refl, refl)

node_stored : get_object with_node (lit "acme") (lit "nodes") (lit "n1") ≡ some (lit "node")
unfolding lit ◌==◌
node_stored =
    get-set_object acme (lit "acme") (lit "nodes") (lit "n1") (lit "acme") (lit "nodes") (lit "n1")
      (lit "node")

node_acl_unstored : get_object with_node (lit "acme") (lit "acls") (lit "nodes/n1") ≡ none
unfolding lit ◌==◌
node_acl_unstored =
    get-set_object acme (lit "acme") (lit "nodes") (lit "n1") (lit "acme") (lit "acls")
      (lit "nodes/n1") (lit "node")
    ∙ no_objects (lit "acme") (lit "acls") (lit "nodes/n1")

abbrev to_groups : List Bytes → Ace
to_groups gs = record { actors = []; groups = gs }

-- the default ACL up to the entry for updates, and with it
abbrev before : Acl
before =
    set (set empty_map (lit "create") (to_groups (lit "admins" ∷ lit "users" ∷ []))) (lit "read")
      (to_groups (lit "admins" ∷ lit "users" ∷ lit "clients" ∷ []))

abbrev upto : Acl
upto = set before (lit "update") (to_groups (lit "admins" ∷ lit "users" ∷ []))

-- the entry of the default ACL, behind the two that are set after it
node_acl :
    get (load_acl no_acl all_admins with_node (lit "acme") (lit "nodes") (lit "n1")) (lit "update")
    ≡ some (record { actors = []; groups = lit "admins" ∷ lit "users" ∷ [] })
unfolding load_acl fallback_acl default_acl acl_key lit ◌==◌
node_acl = ground (
  arith,
  node_acl_unstored,
  get-set (set upto (lit "delete") (to_groups (lit "admins" ∷ lit "users" ∷ []))) (lit "grant")
      (lit "update") (to_groups (lit "admins" ∷ [])),
  get-set upto (lit "delete") (lit "update") (to_groups (lit "admins" ∷ lit "users" ∷ [])),
  get-set before (lit "update") (lit "update") (to_groups (lit "admins" ∷ lit "users" ∷ [])),
)

admins_update :
    allowed_with no_acl all_admins with_node
      (lit "acme")
      ann
      (lit "nodes")
      (lit "n1")
      (lit "update")
    ≡ ok true
unfolding ace_allows ◌==◌ lit
admins_update =
    allowed_with-ace_allows no_acl all_admins with_node (lit "acme") ann (lit "nodes") (lit "n1")
      (lit "update") (lit "admins" ∷ []) refl
    ∙ ap (λ e. ok (ace_allows e (lit "ann") (lit "admins" ∷ []))) node_acl

acme_still_exists : has_org with_node (lit "acme") ≡ true
unfolding has_org set_object
acme_still_exists = acme_exists

node_passes :
    authorize no_acl all_admins with_node true (some ann) put_m node_path ≡ proceed (some node_read)
unfolding authorize ◌==◌ lit
node_passes = ground (arith, node_checked, node_stored, admins_update, acme_still_exists)

view_object-authorize_example :
    view_object (some node_read) with_node (lit "acme") (lit "nodes") (lit "n1")
    ≡ get_object with_node (lit "acme") (lit "nodes") (lit "n1")
view_object-authorize_example =
    view_object-authorize no_acl all_admins with_node true (some ann) put_m node_path
      (some node_read) (lit "acme") (lit "nodes") (lit "n1") node_passes
