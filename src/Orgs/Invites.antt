-- ===== src/Orgs/Invites.antt =====
-- internal/api/association_requests.go: inviting a user to an organisation. A request's body comes
-- decoded, `none` where it is no JSON, and `base` is its base URL. API.membership makes each handler
-- one step against the others that take part in it.
pub mod Found
use cinc_server_ng.Prelude.{
  ℕ, length, Bool, true, false, not, ◌&&◌, ◌||◌, Option, none, some, List, [], ◌∷◌, ◌++◌, Bytes,
  lit, ◌==◌, contains, is_some, Result, ok, err, if◌then◌else◌,
}
use cinc_server_ng.Store.Memory.{has_org, list_orgs}
use cinc_server_ng.Store.Facade.{Store, get_value, put, delete_value}
use cinc_server_ng.Search.Json.{
  Json, number, text, bool, object, Members, no_members, member, get_member,
}
use cinc_server_ng.Authz.Enforce.{Actor}
use cinc_server_ng.Groups.Codec.{Codec, as_text}
use cinc_server_ng.Groups.Members.{add_member}
use cinc_server_ng.Groups.Documents.{Membership, group_membership}
use cinc_server_ng.Orgs.Answer.{
  Response, answer, error_list, error_text, raw, json, json_list, in_org,
}

-- assocReqColl
unfoldable pub assoc_req_coll : Bytes
assoc_req_coll = lit "association_requests"

-- AssociationUsersCollection
unfoldable pub assoc_coll : Bytes
assoc_coll = lit "association_users"

-- inviteID
unfoldable pub invite_id : Bytes → Bytes → Bytes
invite_id user org = user ++ (lit "-" ++ org)

-- the name in the body, under the first key or else the second
abbrev pub named : Members → Bytes → Bytes → Bytes
named body first second =
    let name = as_text (get_member body first) in
    if name == [] then as_text (get_member body second) else name

abbrev pub actor_name : Option Actor → Bytes
actor_name none = []
actor_name (some actor) = actor.name

-- the stored invitation
unfoldable pub invite_doc : Bytes → Bytes → Bytes → Members
invite_doc user org inviter = member (lit "id") (text (invite_id user org)) (
    member (lit "username") (text user)
      (member (lit "orgname") (text org) (member (lit "inviter") (text inviter) no_members)))

-- the stored association
unfoldable pub user_doc : Bytes → Members
user_doc user = member (lit "username") (text user) no_members

abbrev forbidden : Response
forbidden = answer 403 (error_text (lit "You are not allowed to take this action."))

-- u["admin"].(bool)
abbrev pub is_true : Option Json → Bool
is_true (some (bool b)) = b
is_true _ = false

-- invitationSelfAllowed
unfoldable pub invitation_self_allowed : Option Actor → Bytes → Bool
invitation_self_allowed none user = true
invitation_self_allowed (some actor) user = actor.is_global_admin || actor.name == user

abbrev pub responded : Bytes → Response
responded org = answer 200 (
    json
      (member (lit "organization") (object (member (lit "name") (text org) no_members)) no_members))

module _ (C : Codec) {W : Type 0} where
  -- createInvite, behind API.org
  unfoldable pub create_invite_in :
      Bytes → Bytes → Option Actor → Option Members → Store W → Response × Store W
  unfolding get_member invite_id invite_doc
  create_invite_in base org actor none s = (answer 400 (error_list (lit "invalid JSON body")), s)
  create_invite_in base org actor (some body) s =
      let user = named body (lit "user") (lit "username") in
      let id = invite_id user org in
      if user == []
      then (answer 400 (error_list (lit "Field 'user' missing")), s)
      else (let (known, s1) = get_value [] (lit "users") user s in
          elim known [
            | none ↦ (answer 404 (error_list (lit "Cannot find user " ++ user)), s1)
            | some _ ↦
                let (joined, s2) = get_value org assoc_coll user s1 in
                elim joined [
                  | some _ ↦ (answer 409 (error_text (lit "The association already exists.")), s2)
                  | none ↦
                      let (invited, s3) = get_value org assoc_req_coll id s2 in
                      elim invited [
                        | some _ ↦
                            (answer 409 (error_text (lit "The invitation already exists.")), s3)
                        | none ↦ (
                          answer 201 (
                              json (
                                member (lit "uri")
                                  (text (
                                    base
                                    ++ (lit "/organizations/"
                                        ++ (org ++ (lit "/association_requests/" ++ id)))))
                                  (member (lit "id") (text id) (
                                    member (lit "organization_user") (object (user_doc user))
                                      no_members)))),
                          put org assoc_req_coll id
                              (C.encode (invite_doc user org (actor_name actor))) s3,
                        )
                      ]
                ]
          ])

  -- createInvite
  unfoldable pub create_invite :
      Bytes → Bytes → Option Actor → Option Members → Store W → Response × Store W
  unfolding in_org create_invite_in
  create_invite base org actor body = in_org org (create_invite_in base org actor body)

  -- rescindInvite
  unfoldable pub rescind_invite : Bytes → Bytes → Store W → Response × Store W
  unfolding in_org
  rescind_invite org id = in_org org (λ s.
      let (old, t) = delete_value org assoc_req_coll id s in
      elim old [
        | none ↦ (answer 404 (error_text (lit "Cannot find association request: " ++ id)), t)
        | some v ↦ (answer 200 (raw v), t)
      ])

  -- the loop of userInvites
  unfoldable pub user_invites : Bytes → List Bytes → Store W → List Members × Store W
  user_invites user [] s = ([], s)
  user_invites user (org ∷ orgs) s =
      let (found, t) = get_value org assoc_req_coll (invite_id user org) s in
      let (out, u) = user_invites user orgs (if has_org s.backend org then t else s) in
      if has_org s.backend org && is_some found
      then (
        member (lit "id") (text (invite_id user org)) (member (lit "orgname") (text org) no_members)
            ∷ out,
        u,
      )
      else (out, u)

  -- listUserInvites
  unfoldable pub list_user_invites : Option Actor → Bytes → Store W → Response × Store W
  unfolding invitation_self_allowed user_invites
  list_user_invites actor user s =
      if invitation_self_allowed actor user
      then (let (out, t) = user_invites user (list_orgs s.backend) s in
          (answer 200 (json_list out), t))
      else (forbidden, s)

  -- countUserInvites, which answers with the number of those invitations
  unfoldable pub count_user_invites :
      Option Actor → Bytes → (ℕ → Bytes) → Store W → Response × Store W
  unfolding invitation_self_allowed user_invites
  count_user_invites actor user digits s =
      if invitation_self_allowed actor user
      then (let (out, t) = user_invites user (list_orgs s.backend) s in
          (answer 200 (json (member (lit "value") (number (digits (length out))) no_members)), t))
      else (forbidden, s)

  -- the loop of findInvite: the organisation, if one is found
  unfoldable pub find_invite :
      Bytes → Bytes → List Bytes → Store W → Result Bytes (Option Bytes) × Store W
  find_invite user id [] s = (ok none, s)
  find_invite user id (org ∷ orgs) s =
      let (found, t) = get_value org assoc_req_coll id s in
      let later = find_invite user id orgs (if has_org s.backend org then t else s) in
      if has_org s.backend org
      then elim found [
        | none ↦ later
        | some v ↦ elim (C.decode_text (lit "username") v) [
          | err e ↦ (err e, t)
          | ok name ↦ if name == user then (ok (some org), t) else later
        ]
      ]
      else later

  -- inviterAuthorized
  unfoldable pub inviter_authorized : Bytes → Bytes → Store W → Result Bytes Bool × Store W
  unfolding get_member group_membership
  inviter_authorized org inviter s =
      if inviter == []
      then (ok true, s)
      else (let (user, s1) = get_value [] (lit "users") inviter s in
          elim user [
            | none ↦ (ok false, s1)
            | some v ↦ elim (C.decode v) [
              | err e ↦ (err e, s1)
              | ok u ↦
                  if is_true (get_member u (lit "admin"))
                  then (ok true, s1)
                  else (let (joined, s2) = get_value org assoc_coll inviter s1 in
                      elim joined [
                        | none ↦ (ok false, s2)
                        | some _ ↦
                            let (admins, s3) = group_membership C org (lit "admins") s2 in
                            (ok (contains admins.users inviter), s3)
                      ])
            ]
          ])

  -- the name of the inviter in the invitation, which is empty if there is none
  unfoldable pub inviter_of : Bytes → Bytes → Store W → Result Bytes Bytes × Store W
  inviter_of org id s =
      let (found, t) = get_value org assoc_req_coll id s in
      (elim found [ none ↦ ok [] | some v ↦ C.decode_text (lit "inviter") v ], t)

  -- the check in respondInvite that precedes accepting
  unfoldable pub check_inviter : Bytes → Bytes → Store W → Result Bytes Bool × Store W
  unfolding inviter_of inviter_authorized
  check_inviter org id s =
      let (inviter, t) = inviter_of org id s in
      elim inviter [ err e ↦ (err e, t) | ok name ↦ inviter_authorized org name t ]

  -- the association, and the row in the group users
  unfoldable pub join_org : Bytes → Bytes → Store W → Store W
  unfolding user_doc add_member
  join_org org user s =
      add_member org (lit "users") (lit "users") user
        (put org assoc_coll user (C.encode (user_doc user)) s)

  -- respondInvite from the invitation that is found on, with the response of the body
  unfoldable pub respond_in : Bytes → Bytes → Bytes → Bytes → Store W → Response × Store W
  unfolding check_inviter join_org
  respond_in user id response org s =
      if response == lit "accept"
      then (let (allowed, t) = check_inviter org id s in
          elim allowed [
            | err e ↦ (answer 500 (error_list e), t)
            | ok false ↦ (
              answer 403
                  (error_text (lit "The user who issued this invitation can no longer do so.")),
              t,
            )
            | ok true ↦ (responded org, join_org org user (delete_value org assoc_req_coll id t).1)
          ])
      else if response == lit "reject"
      then (responded org, (delete_value org assoc_req_coll id s).1)
      else (answer 400 (error_list (lit "Param response must be either 'accept' or 'reject'")), s)

  -- respondInvite
  unfoldable pub respond_invite :
      Option Actor → Bytes → Bytes → Option Bytes → Store W → Response × Store W
  unfolding invitation_self_allowed find_invite respond_in
  respond_invite actor user id response s =
      if invitation_self_allowed actor user
      then (let (found, t) = find_invite user id (list_orgs s.backend) s in
          elim found [
            | err e ↦ (answer 500 (error_list e), t)
            | ok none ↦ (answer 404 (error_text (lit "Cannot find association request: " ++ id)), t)
            | ok (some org) ↦ elim response [
              | none ↦ (answer 400 (error_list (lit "invalid JSON body")), t)
              | some r ↦ respond_in user id r org t
            ]
          ])
      else (forbidden, s)
