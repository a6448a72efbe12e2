-- ===== src/Authz/Enforce/Sound.antt =====
-- What a decision of internal/api/authz_enforce.go rests on.
use cinc_server_ng.Prelude.{
  ◌≡◌, refl, Bool, true, false, not, ◌&&◌, ◌||◌, Option, none, some, List, [], is_some, arith,
  Bytes, ◌==◌, eq_iff, get, Result, ok, err, inl, inr, Option-cases, Bool-cases, sym,
}
use cinc_server_ng.Store.Memory.{Memory, get_object, has_org}
use cinc_server_ng.Authz.Classify.{Method, Check, classify_request}
use cinc_server_ng.Authz.Policy.{Acl, ace_allows}
use cinc_server_ng.Authz.Enforce.{
  Actor, Preread, Decision, proceed, load_acl, allowed_with, acl_object_exists, decide,
  decide_endpoint, decide_existing, decide_in_org, authorize, segment_of_org, preread_from,
  view_object,
}

-- What a preread holds is what the store holds under the names that it records.
IsCurrent : Memory → Option Preread → Type 0
IsCurrent m none = true ≡ true
IsCurrent m (some p) = get_object m p.org p.coll p.key ≡ some p.raw

view_object-IsCurrent :
    (pre : Option Preread) (m : Memory) (org coll key : Bytes)
    → IsCurrent m pre
    → view_object pre m org coll key ≡ get_object m org coll key
unfolding view_object preread_from IsCurrent
view_object-IsCurrent none m org coll key h = refl
view_object-IsCurrent (some p) m org coll key h =
    ground (arith, eq_iff p.org org, eq_iff p.coll coll, eq_iff p.key key)

-- the preread that authorize leaves for the check
abbrev read_by : Bytes → Check → Bytes → Preread
read_by org check raw = record {
  org = org;
  coll = check.exist_coll;
  key = check.exist_key;
  raw = raw;
}

no_preread : (m : Memory) → IsCurrent m none
unfolding IsCurrent
no_preread m = refl

read_by-IsCurrent :
    (m : Memory) (org raw : Bytes) (check : Check)
    → get_object m org check.exist_coll check.exist_key ≡ some raw
    → IsCurrent m (some (read_by org check raw))
unfolding IsCurrent
read_by-IsCurrent m org raw check e = e

-- A user's own record, for which no more is asked.
abbrev is_own : Actor → Check → Bool
is_own actor check = not (check.allow_self == []) && actor.name == check.allow_self

abbrev pub goes_through : Decision → Bool
goes_through (proceed pre) = true
goes_through _ = false

abbrev pub is_allowed : Result Bytes Bool → Bool
is_allowed (ok b) = b
is_allowed (err e) = false

module _ (decode : Bytes → Option Acl) (groups_of : Bytes → Bytes → Result Bytes (List Bytes)) where
  -- Once the groups of the actor resolve to `member`, the check that skips resolving them where it
  -- can answers what the entry of the object's ACL allows to the actor and those groups.
  pub allowed_with-ace_allows :
      (m : Memory) (org : Bytes) (actor : Actor) (typ name perm : Bytes) (member : List Bytes)
      → groups_of org actor.name ≡ ok member
      → allowed_with decode groups_of m org actor typ name perm
        ≡ ok (ace_allows (get (load_acl decode groups_of m org typ name) perm) actor.name member)
  unfolding allowed_with ace_allows
  allowed_with-ace_allows m org actor typ name perm member h = ground (arith)

  decide-proceed :
      (m : Memory) (org : Bytes) (actor : Actor) (check : Check) (pre got : Option Preread)
      → decide decode groups_of m org actor check pre ≡ proceed got
      → (allowed_with decode groups_of m org actor check.acl_type check.acl_name check.perm
          ≡ ok true)
        × (pre ≡ got)
  unfolding decide
  decide-proceed m org actor check pre got h = ground (arith)

  -- What a request that goes through to the handler behind a check has passed.
  decide_endpoint-proceed :
      (m : Memory) (org : Bytes) (actor : Actor) (check : Check) (pre got : Option Preread)
      → decide_endpoint decode groups_of m org actor check pre ≡ proceed got
      → (allowed_with decode groups_of m org actor check.acl_type check.acl_name check.perm
          ≡ ok true)
        × (pre ≡ got)
  unfolding decide_endpoint
  decide_endpoint-proceed m org actor check pre got h =
      ground (arith, decide-proceed m org actor check pre got)

  decide_existing-goes :
      (m : Memory) (org : Bytes) (actor : Actor) (check : Check)
      → goes_through (decide_existing decode groups_of m org actor check) ≡ (
          ((check.exist_coll == []) || is_some (get_object m org check.exist_coll check.exist_key))
          && (not check.acl_endpoint || acl_object_exists m org check.acl_type check.acl_name)
          && is_allowed
              (allowed_with decode groups_of m org actor check.acl_type check.acl_name check.perm))
  unfolding decide_existing decide_endpoint decide
  decide_existing-goes m org actor check = ground (arith)

  IsCurrent-of :
      (m : Memory) (pre got : Option Preread) → IsCurrent m pre → pre ≡ got → IsCurrent m got
  IsCurrent-of m pre got h e = rw (sym e) h

  decide_existing-IsCurrent :
      (m : Memory) (org : Bytes) (actor : Actor) (check : Check) (got : Option Preread)
      → decide_existing decode groups_of m org actor check ≡ proceed got
      → IsCurrent m got
  unfolding decide_existing
  decide_existing-IsCurrent m org actor check got h =
      elim (Option-cases (get_object m org check.exist_coll check.exist_key)) [
        | inl e ↦
            IsCurrent-of m none got (no_preread m)
              (ground (arith, decide_endpoint-proceed m org actor check none got))
        | inr (raw, e) ↦ elim (Bool-cases (check.exist_coll == [])) [
          | inl t ↦
              IsCurrent-of m none got (no_preread m)
                (ground (arith, decide_endpoint-proceed m org actor check none got))
          | inr f ↦
              IsCurrent-of m (some (read_by org check raw)) got
                (read_by-IsCurrent m org raw check e)
                (ground (
                  arith,
                  decide_endpoint-proceed m org actor check (some (read_by org check raw)) got,
                ))
        ]
      ]

  decide_in_org-IsCurrent :
      (m : Memory) (path : Bytes) (actor : Actor) (check : Check) (got : Option Preread)
      → decide_in_org decode groups_of m path actor check ≡ proceed got
      → IsCurrent m got
  unfolding decide_in_org
  decide_in_org-IsCurrent m path actor check got h = elim (Bool-cases check.global) [
    | inl g ↦ decide_existing-IsCurrent m [] actor check got (ground (arith))
    | inr l ↦ elim (Option-cases (segment_of_org path)) [
      | inl e ↦ ground (arith)
      | inr (org, e) ↦ elim (Bool-cases (has_org m org)) [
        | inl k ↦ decide_existing-IsCurrent m org actor check got (ground (arith))
        | inr k ↦ IsCurrent-of m none got (no_preread m) (ground (arith))
      ]
    ]
  ]

  authorize-IsCurrent :
      (m : Memory) (matched : Bool) (actor : Actor) (method : Method) (path : Bytes) (check : Check)
      (got : Option Preread)
      → actor.is_global_admin ≡ false
      → classify_request method path ≡ some check
      → authorize decode groups_of m matched (some actor) method path ≡ proceed got
      → IsCurrent m got
  unfolding authorize
  authorize-IsCurrent m matched actor method path check got na c h =
      elim (Bool-cases (is_own actor check)) [
        | inl own ↦ IsCurrent-of m none got (no_preread m) (ground (arith))
        | inr other ↦ decide_in_org-IsCurrent m path actor check got (ground (arith))
      ]

  -- Whatever a request reads of the store behind authorize through the object that authorize has
  -- handed on, it is what the store holds.
  pub view_object-authorize :
      (m : Memory) (matched : Bool) (actor : Option Actor) (method : Method) (path : Bytes)
      (got : Option Preread) (org coll key : Bytes)
      → authorize decode groups_of m matched actor method path ≡ proceed got
      → view_object got m org coll key ≡ get_object m org coll key
  unfolding authorize
  view_object-authorize m matched none method path got org coll key h =
      view_object-IsCurrent got m org coll key
        (IsCurrent-of m none got (no_preread m) (ground (arith)))
  view_object-authorize m matched (some actor) method path got org coll key h =
      view_object-IsCurrent got m org coll key (elim (Bool-cases actor.is_global_admin) [
        | inl admin ↦ IsCurrent-of m none got (no_preread m) (ground (arith))
        | inr na ↦ elim (Option-cases (classify_request method path)) [
          | inl e ↦ IsCurrent-of m none got (no_preread m) (ground (arith))
          | inr (check, e) ↦ authorize-IsCurrent m matched actor method path check got na e h
        ]
      ])

  -- A request of an actor who is no superuser, which needs a check on an organisation that is there
  -- and is not about the actor's own record, goes through exactly if the check is not the
  -- superuser's alone, the object that has to be there is there, so is the one whose ACL is
  -- addressed, and the ACL of the check allows the actor.
  pub authorize_exact :
      (m : Memory) (matched : Bool) (actor : Actor) (method : Method) (path org : Bytes)
      (check : Check)
      → actor.is_global_admin ≡ false
      → classify_request method path ≡ some check
      → (actor.name == check.allow_self) ≡ false
      → check.global ≡ false
      → segment_of_org path ≡ some org
      → has_org m org ≡ true
      → goes_through (authorize decode groups_of m matched (some actor) method path) ≡ (
          not check.superuser_only
          && ((check.exist_coll == [])
              || is_some (get_object m org check.exist_coll check.exist_key))
          && (not check.acl_endpoint || acl_object_exists m org check.acl_type check.acl_name)
          && is_allowed
              (allowed_with decode groups_of m org actor check.acl_type check.acl_name check.perm))
  unfolding authorize decide_in_org
  authorize_exact m matched actor method path org check na c ns ng e k =
      ground (arith, decide_existing-goes m org actor check)
