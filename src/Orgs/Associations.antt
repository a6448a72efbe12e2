-- ===== src/Orgs/Associations.antt =====
-- internal/api/association.go: the users of an organisation. `members` is what the index of groups reads
-- in a group's document; the index is built for each call, which is what its cache must agree with.
use cinc_server_ng.Prelude.{
  Result, ok, err, Bool, true, false, ◌&&◌, Option, none, some, List, [], ◌∷◌, ◌++◌, map, Bytes,
  lit, ◌==◌, contains, is_some, if◌then◌else◌,
}
use cinc_server_ng.Store.Memory.{keys, has_org, list_orgs}
use cinc_server_ng.Store.Facade.{Store, get_value, delete_value}
use cinc_server_ng.Search.Json.{null, text, object, Members, no_members, member, get_member}
use cinc_server_ng.Authz.Enforce.{Actor}
use cinc_server_ng.Groups.Codec.{Codec}
use cinc_server_ng.Groups.Index.{build_group_index, actor_membership}
use cinc_server_ng.Groups.Documents.{remove_actor_from_all_groups}
use cinc_server_ng.Orgs.Answer.{
  Response, answer, error_list, error_text, raw, json, json_list, in_org,
}
use cinc_server_ng.Orgs.Invites.{assoc_req_coll, assoc_coll, named, user_doc, join_org}

abbrev cannot_find : Bytes → Bytes → Response
cannot_find user org =
    answer 404 (error_list (lit "Cannot find user " ++ (user ++ (lit " in organization " ++ org))))

-- orgViewAllowed, whose refusal is a 403 that the caller then answers with
unfoldable pub org_view_allowed : {W : Type 0} → Option Actor → Bytes → Store W → Bool × Store W
unfolding assoc_coll
org_view_allowed none org s = (true, s)
org_view_allowed (some actor) org s =
    if actor.is_global_admin
    then (true, s)
    else (let (joined, t) = get_value org assoc_coll actor.name s in (is_some joined, t))

abbrev not_a_member : Response
not_a_member = answer 403 (error_list (lit "You are not a member of this organization."))

abbrev listed_user : Bytes → Members
listed_user username = member (lit "user") (object (user_doc username)) no_members

module _ {W : Type 0} where
  -- listOrgUsers
  unfoldable pub list_org_users : Option Actor → Bytes → Store W → Response × Store W
  unfolding in_org org_view_allowed
  list_org_users actor org = in_org org (λ s.
      let (allowed, t) = org_view_allowed actor org s in
      if allowed
      then (answer 200 (json_list (map listed_user (keys t.backend org assoc_coll))), t)
      else (not_a_member, t))

  -- the loop of listOrgInvites, over the keys
  unfoldable pub list_invites :
      Codec → Bytes → List Bytes → Store W → Result Bytes (List Members) × Store W
  unfolding get_member
  list_invites C org [] s = (ok [], s)
  list_invites C org (id ∷ ids) s =
      let (found, t) = get_value org assoc_req_coll id s in
      let (rest, u) = list_invites C org ids t in
      elim (C.decode (elim found [ none ↦ [] | some v ↦ v ])) [
        | err e ↦ (err e, t)
        | ok inv ↦ elim rest [
          | err e ↦ (err e, u)
          | ok out ↦ (
            ok (
                member (lit "id") (text id) (
                  member (lit "username")
                    (elim (get_member inv (lit "username")) [ none ↦ null | some v ↦ v ])
                    no_members)
                ∷ out),
            u,
          )
        ]
      ]

  -- listOrgInvites
  unfoldable pub list_org_invites : Codec → Option Actor → Bytes → Store W → Response × Store W
  unfolding in_org org_view_allowed list_invites
  list_org_invites C actor org = in_org org (λ s.
      let (allowed, t) = org_view_allowed actor org s in
      if allowed
      then (let (invites, u) = list_invites C org (keys t.backend org assoc_req_coll) t in
          elim invites [
            | err e ↦ (answer 500 (error_list e), u)
            | ok out ↦ (answer 200 (json_list out), u)
          ])
      else (not_a_member, t))

  -- getOrgUser
  unfoldable pub get_org_user : Option Actor → Bytes → Bytes → Store W → Response × Store W
  unfolding in_org org_view_allowed
  get_org_user actor org user = in_org org (λ s.
      let (allowed, t) = org_view_allowed actor org s in
      if allowed
      then (let (joined, s1) = get_value org assoc_coll user t in
          elim joined [
            | none ↦ (cannot_find user org, s1)
            | some _ ↦
                let (known, s2) = get_value [] (lit "users") user s1 in
                elim known [
                  | none ↦ (answer 200 (json (user_doc user)), s2)
                  | some v ↦ (answer 200 (raw v), s2)
                ]
          ])
      else (not_a_member, t))

  -- the loop of listUserOrgs
  unfoldable pub orgs_of_user : Bytes → List Bytes → Store W → List Members × Store W
  unfolding assoc_coll
  orgs_of_user user [] s = ([], s)
  orgs_of_user user (org ∷ orgs) s =
      let (joined, t) = get_value org assoc_coll user s in
      let (out, u) = orgs_of_user user orgs (if has_org s.backend org then t else s) in
      if has_org s.backend org && is_some joined
      then (
        member (lit "organization")
              (object
                (member (lit "name") (text org) (member (lit "full_name") (text org) no_members)))
              no_members
            ∷ out,
        u,
      )
      else (out, u)

  -- listUserOrgs
  unfoldable pub list_user_orgs : Bytes → Store W → Response × Store W
  unfolding orgs_of_user
  list_user_orgs user s =
      let (out, t) = orgs_of_user user (list_orgs s.backend) s in (answer 200 (json_list out), t)

module _ (C : Codec) {W : Type 0} where
  -- associateUser, behind API.org
  unfoldable pub associate_user_in : Bytes → Bytes → Option Members → Store W → Response × Store W
  unfolding get_member join_org
  associate_user_in base org none s = (answer 400 (error_list (lit "invalid JSON body")), s)
  associate_user_in base org (some body) s =
      let user = named body (lit "username") (lit "user") in
      if user == []
      then (answer 400 (error_list (lit "Field 'username' missing")), s)
      else (let (known, s1) = get_value [] (lit "users") user s in
          elim known [
            | none ↦ (answer 404 (error_list (lit "Cannot find user " ++ user)), s1)
            | some _ ↦
                let (joined, s2) = get_value org assoc_coll user s1 in
                elim joined [
                  | some _ ↦ (answer 409 (error_text (lit "The association already exists.")), s2)
                  | none ↦ (
                    answer 201 (
                        json (
                          member (lit "uri")
                            (text
                              (base ++ (lit "/organizations/" ++ (org ++ (lit "/users/" ++ user)))))
                            no_members)),
                    join_org C org user s2,
                  )
                ]
          ])

  -- associateUser
  unfoldable pub associate_user : Bytes → Bytes → Option Members → Store W → Response × Store W
  unfolding in_org associate_user_in
  associate_user base org body = in_org org (associate_user_in base org body)

  module _ (members : Bytes → List Bytes × List Bytes × List Bytes) where
    -- actorGroups
    unfoldable pub groups_of_user : Bytes → Bytes → Store W → List Bytes × Store W
    unfolding build_group_index actor_membership
    groups_of_user org user s =
        let (idx, t) = build_group_index members org s in
        (elim (actor_membership idx false user) [ none ↦ [] | some ms ↦ ms ], t)

    -- disassociateUser, behind API.org
    unfoldable pub disassociate_user_in : Bytes → Bytes → Store W → Response × Store W
    unfolding groups_of_user remove_actor_from_all_groups
    disassociate_user_in org user s =
        let (joined, s1) = get_value org assoc_coll user s in
        elim joined [
          | none ↦ (cannot_find user org, s1)
          | some _ ↦
              let (groups, s2) = groups_of_user org user s1 in
              if contains groups (lit "admins")
              then (
                answer 403 (
                    error_text (
                      lit "Please remove "
                      ++ (user
                          ++ lit
                              " from this organization's admins group before removing him or her from the organization."))),
                s2,
              )
              else (
                answer 200 (json (user_doc user)),
                remove_actor_from_all_groups C org (lit "users") user
                    (delete_value org assoc_coll user s2).1,
              )
        ]

    -- disassociateUser
    unfoldable pub disassociate_user : Bytes → Bytes → Store W → Response × Store W
    unfolding in_org disassociate_user_in
    disassociate_user org user = in_org org (disassociate_user_in org user)
