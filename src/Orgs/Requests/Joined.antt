-- ===== src/Orgs/Requests/Joined.antt =====
-- By which requests a user becomes associated with an organisation.
use cinc_server_ng.Prelude.{
  ◌≡◌, refl, sym, ap, ◌∙◌, true, false, Option, none, some, List, [], ◌∷◌, is_some, ◌⊎◌, arith, inl,
  inr, Bool-cases, Option-cases, Result-cases, Bytes, lit, ◌==◌, eq_iff, ok, if◌then◌else◌,
}
use cinc_server_ng.Store.Memory.{Memory, get_object, has_org, list_orgs}
use cinc_server_ng.Store.Memory.Laws.{same_path}
use cinc_server_ng.Store.Reads.{get-delete_value}
use cinc_server_ng.Store.Facade.{Store, get_value, delete_value}
use cinc_server_ng.Search.Json.{Members}
use cinc_server_ng.Authz.Enforce.{Actor}
use cinc_server_ng.Groups.Codec.{Codec}
use cinc_server_ng.Orgs.Answer.{in_org}
use cinc_server_ng.Orgs.Invites.{
  assoc_coll, assoc_req_coll, user_doc, named, find_invite, check_inviter, join_org, respond_in,
  respond_invite, invitation_self_allowed,
}
use cinc_server_ng.Orgs.Associations.{associate_user_in, associate_user, disassociate_user}
use cinc_server_ng.Orgs.Invites.Found.{check_inviter-congr}
use cinc_server_ng.Orgs.Requests.{
  OrgRequest, invite, rescind, respond, associate, disassociate, handle,
}
use cinc_server_ng.Orgs.Requests.Refused.{find_invite-Same, check_inviter-Same}
use cinc_server_ng.Orgs.Requests.Accepted.{get-join_org, colls_differ}
use cinc_server_ng.Orgs.Requests.Kept.{
  association, create_invite-association, rescind_invite-association, disassociate_user-association,
}

-- The invitation of the id in the organisation is the user's, and its inviter still may invite.
pub record IsInvitedBy {W : Type 0} (C : Codec) (org user id : Bytes) (s : Store W) : Type 0 where
  pub invitation : Bytes
  pub stored : get_object s.backend org assoc_req_coll id ≡ some invitation
  pub named_user : C.decode_text (lit "username") invitation ≡ ok user
  pub inviter_may : (check_inviter C org id s).0 ≡ ok true

-- The request adds the user to the organisation.
abbrev pub IsJoining : {W : Type 0} → Codec → OrgRequest → Bytes → Bytes → Store W → Type 0
IsJoining C (associate base org body) o user s =
    (org ≡ o)
    × (m : Members) × (body ≡ some m)
    × (named m (lit "username") (lit "user") ≡ user)
    × (raw : Bytes) × (get_object s.backend [] (lit "users") user ≡ some raw)
IsJoining C (respond who name id response) o user s =
    (name ≡ user)
    × (invitation_self_allowed who user ≡ true)
    × (response ≡ some (lit "accept"))
    × IsInvitedBy C o user id s
IsJoining C _ o user s = ⊥

module _ (C : Codec) {W : Type 0} (o user : Bytes) where
  -- the association was not there, and now is
  abbrev pub IsNew : Store W → Store W → Type 0
  IsNew s t = (association o user s ≡ none) × (is_some (association o user t) ≡ true)

  associate_user-joins :
      (base org : Bytes) (body : Option Members) (s : Store W)
      → IsNew s (associate_user C base org body s).1
      → IsJoining C (associate base org body) o user s
  unfolding associate_user in_org associate_user_in get_value
  associate_user-joins base org none s (n, h) = absurd (ground (arith))
  associate_user-joins base org (some m) s (n, h) =
      let name = named m (lit "username") (lit "user") in
      let t = (get_value org assoc_coll name (get_value [] (lit "users") name s).1).1 in
      let joined = get-join_org C org name o user t in
      let at_name : (org ≡ o) × (name ≡ user) =
        (ground (arith, joined, eq_iff org o), ground (arith, joined, eq_iff name user)) in
      elim (Option-cases (get_object s.backend [] (lit "users") user)) [
        | inl e ↦
            let unknown : get_object s.backend [] (lit "users") name ≡ none =
              ap (λ u. get_object s.backend [] (lit "users") u) at_name.1 ∙ e in
            absurd (ground (arith))
        | inr (raw, e) ↦ (at_name.0, m, refl, at_name.1, raw, e)
      ]

  find_invite_sound :
      (name id org : Bytes) (m : Memory) (orgs : List Bytes) (s : Store W)
      → s.backend ≡ m
      → (find_invite C name id orgs s).0 ≡ ok (some org)
      → (v : Bytes) × (get_object m org assoc_req_coll id ≡ some v)
        × (C.decode_text (lit "username") v ≡ ok name)
  unfolding find_invite get_value
  find_invite_sound name id org m [] s e h = cc
  find_invite_sound name id org m (other ∷ orgs) s e h =
      let next = if has_org s.backend other then (get_value other assoc_req_coll id s).1 else s in
      let same : next.backend ≡ m = ground (arith) in
      let later = find_invite_sound name id org m orgs next same in
      elim (Option-cases (get_object s.backend other assoc_req_coll id)) [
        | inl g ↦ later (ground (arith))
        | inr (v, g) ↦ elim (Bool-cases (has_org s.backend other)) [
          | inr b ↦ later (ground (arith))
          | inl b ↦ elim (Result-cases (C.decode_text (lit "username") v)) [
            | inr (x, d) ↦ absurd (ground (arith))
            | inl (u, d) ↦ elim (Bool-cases (u == name)) [
              | inr f ↦ later (ground (arith))
              | inl t ↦
                  let here : other ≡ org = ground (arith) in
                  let mine : u ≡ name = ground (arith, eq_iff u name) in
                  (
                    v,
                    ap (λ x. get_object x org assoc_req_coll id) (sym e)
                        ∙ ap (λ x. get_object s.backend x assoc_req_coll id) (sym here)
                        ∙ g,
                    d ∙ ap ok mine,
                  )
            ]
          ]
        ]
      ]

  -- the state behind an invitation that is accepted
  abbrev accepted : Bytes → Bytes → Bytes → Store W → Store W
  accepted name id org s =
      join_org C org name (delete_value org assoc_req_coll id (check_inviter C org id s).1).1

  -- The invitation is accepted, or the association is as before.
  respond_in-outcome :
      (name id response org : Bytes) (s : Store W)
      → ((response ≡ lit "accept")
          × ((check_inviter C org id s).0 ≡ ok true)
          × ((respond_in C name id response org s).1 ≡ accepted name id org s))
        ⊎ (association o user (respond_in C name id response org s).1 ≡ association o user s)
  unfolding respond_in
  respond_in-outcome name id response org s =
      let (same, _) = check_inviter-Same C org id s in
      let rejected = get-delete_value org assoc_req_coll id o assoc_coll user s in
      elim (Bool-cases (response == lit "accept")) [
        | inr r ↦ inr (ground (arith, rejected, colls_differ))
        | inl a ↦ elim (Result-cases (check_inviter C org id s).0) [
          | inr (x, e) ↦
              let left : (respond_in C name id response org s).1.backend ≡ s.backend =
                ground (arith) in
              inr (ap (λ m. get_object m o assoc_coll user) left)
          | inl (false, e) ↦
              let left : (respond_in C name id response org s).1.backend ≡ s.backend =
                ground (arith) in
              inr (ap (λ m. get_object m o assoc_coll user) left)
          | inl (true, e) ↦ inl (ground (arith, eq_iff response (lit "accept")), e, ground (arith))
        ]
      ]

  get-accepted :
      (name id org : Bytes) (s : Store W)
      → association o user (accepted name id org s) ≡ (
          if same_path org assoc_coll name o assoc_coll user
          then some (C.encode (user_doc name))
          else association o user s)
  get-accepted name id org s =
      let t = (check_inviter C org id s).1 in
      let (same, _) = check_inviter-Same C org id s in
      ground (
        arith,
        get-join_org C org name o user (delete_value org assoc_req_coll id t).1,
        get-delete_value org assoc_req_coll id o assoc_coll user t,
        ap (λ m. get_object m o assoc_coll user) same,
        colls_differ,
      )

  respond_in-joins :
      (name id response org : Bytes) (s : Store W)
      → IsNew s (respond_in C name id response org s).1
      → (org ≡ o)
        × (name ≡ user)
        × (response ≡ lit "accept")
        × ((check_inviter C org id s).0 ≡ ok true)
  respond_in-joins name id response org s (n, h) =
      elim (respond_in-outcome name id response org s) [
        | inr e ↦ absurd (ground (arith))
        | inl (a, c, e) ↦
            let there : is_some (association o user (accepted name id org s)) ≡ true =
              ap (λ t. is_some (association o user t)) (sym e) ∙ h in
            (
              ground (arith, get-accepted name id org s, eq_iff org o),
              ground (arith, get-accepted name id org s, eq_iff name user),
              a,
              c,
            )
      ]

  respond_invite-joins :
      (who : Option Actor) (name id : Bytes) (response : Option Bytes) (s : Store W)
      → IsNew s (respond_invite C who name id response s).1
      → IsJoining C (respond who name id response) o user s
  unfolding respond_invite
  respond_invite-joins who name id response s (n, h) =
      let (same, _) = find_invite-Same C name id (list_orgs s.backend) s in
      let t = (find_invite C name id (list_orgs s.backend) s).1 in
      let kept : association o user t ≡ association o user s =
        ap (λ m. get_object m o assoc_coll user) same in
      let allowed : invitation_self_allowed who name ≡ true = ground (arith) in
      elim (Result-cases (find_invite C name id (list_orgs s.backend) s).0) [
        | inr (x, e) ↦ absurd (ground (arith))
        | inl (none, e) ↦ absurd (ground (arith))
        | inl (some org, e) ↦ elim (Option-cases response) [
          | inl r ↦ absurd (ground (arith))
          | inr (r, f) ↦
              let (v, stored, named_name) =
                find_invite_sound name id org s.backend (list_orgs s.backend) s refl e in
              let (eo, eu, ea, may) = respond_in-joins name id r org t (kept ∙ n, ground (arith)) in
              let checked = check_inviter-congr C org id t s same in
              (
                eu,
                ap (λ u. invitation_self_allowed who u) (sym eu) ∙ allowed,
                f ∙ ap some ea,
                record {
                  invitation = v;
                  stored = ap (λ x. get_object s.backend x assoc_req_coll id) (sym eo) ∙ stored;
                  named_user = named_name ∙ ap ok eu;
                  inviter_may = ap (λ x. (check_inviter C x id s).0) (sym eo) ∙ sym checked ∙ may;
                },
              )
        ]
      ]

-- After a request on the users of some organisation, a user is associated with `o` who was not only if
-- the request associated that user, whom the server knows, with `o`, or if it accepted an invitation to
-- `o` that is the user's own, by the user himself or by the superuser or without authentication, while
-- the inviter still may invite.
pub handle-joins :
    {W : Type 0} (C : Codec) (members : Bytes → List Bytes × List Bytes × List Bytes)
    (rq : OrgRequest) (o user : Bytes) (s : Store W)
    → IsNew C o user s (handle C members rq s).1
    → IsJoining C rq o user s
unfolding handle disassociate_user in_org
handle-joins C members (invite base org actor body) o user s (n, h) =
    absurd (ground (arith, create_invite-association o user C base org actor body s))
handle-joins C members (rescind org id) o user s (n, h) =
    absurd (ground (arith, rescind_invite-association o user C org id s))
handle-joins C members (respond who name id response) o user s h =
    respond_invite-joins C o user who name id response s h
handle-joins C members (associate base org body) o user s h =
    associate_user-joins C o user base org body s h
handle-joins C members (disassociate org actor) o user s (n, h) =
    absurd (ground (arith, disassociate_user-association o user C members org actor s))
