-- ===== src/Authz/Enforce/Panics.antt =====
-- The index of authorize into the segments of a path, in internal/api/authz_enforce.go.
use cinc_server_ng.Prelude.{
  ◌≡◌, ◌≢◌, refl, Bool, true, false, ◌||◌, Option, none, some, List, [], ◌∷◌, is_some, arith, Bytes,
  Result, Option-cases, inl, inr,
}
use cinc_server_ng.Store.Memory.{Memory}
use cinc_server_ng.Authz.Classify.{
  Method, Check, classify_request, path_parts, classify_parts, classify_users,
}
use cinc_server_ng.Authz.Policy.{Acl}
use cinc_server_ng.Authz.Enforce.{
  Actor, Decision, panics, decide, decide_endpoint, decide_existing, decide_in_org, authorize,
  segment_of_org, second,
}

-- The check is the superuser's alone.
abbrev is_reserved : Option Check → Bool
is_reserved none = true
is_reserved (some check) = check.superuser_only

classify_users-reserved : (m : Method) → is_reserved (classify_users m []) ≡ true
unfolding classify_users
classify_users-reserved m = ground (arith)

-- A check that comes to the organisation of its path has one in its path.
classify_parts-second :
    (m : Method) (parts : List Bytes)
    → (is_some (second parts) || is_reserved (classify_parts m parts)) ≡ true
unfolding classify_parts second
classify_parts-second m [] = refl
classify_parts-second m (p ∷ []) = ground (arith, classify_users-reserved m)
classify_parts-second m (p ∷ org ∷ rest) = refl

segment_of_org-classify_request :
    (m : Method) (path : Bytes) (check : Check)
    → classify_request m path ≡ some check
    → check.superuser_only ≡ false
    → is_some (segment_of_org path) ≡ true
unfolding segment_of_org classify_request
segment_of_org-classify_request m path check e h =
    ground (arith, classify_parts-second m (path_parts path))

abbrev is_panic : Decision → Bool
is_panic panics = true
is_panic _ = false

module _ (decode : Bytes → Option Acl) (groups_of : Bytes → Bytes → Result Bytes (List Bytes)) where
  decide_existing-calm :
      (m : Memory) (org : Bytes) (actor : Actor) (check : Check)
      → is_panic (decide_existing decode groups_of m org actor check) ≡ false
  unfolding decide_existing decide_endpoint decide
  decide_existing-calm m org actor check = ground (arith)

  decide_in_org-calm :
      (m : Memory) (path : Bytes) (actor : Actor) (check : Check)
      → is_some (segment_of_org path) ≡ true
      → is_panic (decide_in_org decode groups_of m path actor check) ≡ false
  unfolding decide_in_org
  decide_in_org-calm m path actor check h = elim (Option-cases (segment_of_org path)) [
    | inl e ↦ ground (arith)
    | inr (org, e) ↦
        ground
          (arith, decide_existing-calm m [] actor check, decide_existing-calm m org actor check)
  ]

  -- On no request does the decision index the segments of the path out of range.
  pub authorize-calm :
      (m : Memory) (matched : Bool) (actor : Option Actor) (method : Method) (path : Bytes)
      → authorize decode groups_of m matched actor method path ≢ panics
  unfolding authorize
  authorize-calm m matched none method path h = cc
  authorize-calm m matched (some actor) method path h =
      elim (Option-cases (classify_request method path)) [
        | inl e ↦ ground (arith)
        | inr (check, e) ↦ ground (
          arith,
          decide_in_org-calm m path actor check,
          segment_of_org-classify_request method path check,
        )
      ]
