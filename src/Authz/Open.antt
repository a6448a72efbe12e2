-- ===== src/Authz/Open.antt =====
-- internal/api/failclosed.go: which unclassified requests are refused. The router is not modelled:
-- `matched` says whether it has a handler for the request.
use cinc_server_ng.Prelude.{
  Bool, true, false, not, ◌&&◌, ◌||◌, List, [], ◌∷◌, Bytes, lit, ◌==◌, leb, length, has_prefix,
  has_suffix, is_empty, if◌then◌else◌,
}
use cinc_server_ng.Authz.Classify.{
  Method, get_m, head_m, post_m, put_m, delete_m, patch_m, path_parts,
}

-- mutatingMethod
unfoldable pub mutating_method : Method → Bool
mutating_method post_m = true
mutating_method put_m = true
mutating_method delete_m = true
mutating_method patch_m = true
mutating_method _ = false

-- openWrite; every method of the table is POST or PUT.
pub record OpenWrite : Type 0 where
  pub method : Method
  pub prefix : Bytes
  pub reason : Bytes

abbrev same_method : Method → Method → Bool
same_method post_m post_m = true
same_method put_m put_m = true
same_method delete_m delete_m = true
same_method patch_m patch_m = true
same_method get_m get_m = true
same_method head_m head_m = true
same_method _ _ = false

abbrev opened : Method → Bytes → Bytes → OpenWrite
opened m p why = record { method = m; prefix = p; reason = why }

-- openWrites
unfoldable pub open_writes : List OpenWrite
open_writes =
    opened post_m (lit "/authenticate_user") (
      lit
        "verifies a password and is restricted to the superuser (or the web UI) by the handler itself")
    ∷ opened post_m (lit "/organizations/{org}/sandboxes") (
        lit
          "announces cookbook checksums; the cookbook write that follows is what carries the ACL check")
    ∷ opened put_m (lit "/organizations/{org}/sandboxes/")
        (lit "commits a sandbox announced above; the cookbook write is what carries the ACL check")
    ∷ opened put_m (lit "/organizations/{org}/file_store/") (
        lit "cookbook file transfer, authorized by the pre-signed URL rather than a signed request")
    ∷ opened post_m (lit "/organizations/{org}/search/")
        (lit "partial search: a read that uses POST to carry the projection in a body")
    ∷ opened put_m (lit "/users/{user}/association_requests/")
        (lit "an invitation response, which the handler restricts to the invited user")
    ∷ opened post_m (lit "/organizations/{org}/environments/") (
        lit
          "cookbook-version solving: a read that uses POST to carry a run list in a body, returning only cookbook metadata the caller could read directly")
    ∷ []

-- the loop over pParts; `false` too where aParts is the shorter
parts_match : List Bytes → List Bytes → Bool
unfolding has_suffix
parts_match [] actual = true
parts_match (want ∷ wanted) [] = false
parts_match (want ∷ wanted) (part ∷ actual) =
    (has_prefix want (lit "{") && has_suffix want (lit "}") || part == want)
    && parts_match wanted actual

-- matchesRoutePrefix
unfoldable pub matches_route_prefix : Bytes → Bytes → Bool
unfolding parts_match has_suffix path_parts
matches_route_prefix prefix path =
    let wanted = path_parts prefix in
    let actual = path_parts path in
    parts_match wanted actual
    && (has_suffix prefix (lit "/") || leb (length actual) (length wanted))

reason_in : List OpenWrite → Method → Bytes → Bytes
unfolding matches_route_prefix
reason_in [] m path = []
reason_in (o ∷ os) m path =
    let rest = reason_in os m path in
    if not (same_method o.method m)
    then rest
    else if matches_route_prefix o.prefix path
    then o.reason
    else rest

-- openWriteReason
unfoldable pub open_write_reason : Method → Bytes → Bytes
unfolding reason_in open_writes
open_write_reason m path = reason_in open_writes m path

-- refuseUnclassifiedWrite
unfoldable pub refuse_unclassified_write : Bool → Method → Bytes → Bool
unfolding mutating_method open_write_reason
refuse_unclassified_write matched m path =
    mutating_method m && is_empty (open_write_reason m path) && matched
