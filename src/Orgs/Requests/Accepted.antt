-- ===== src/Orgs/Requests/Accepted.antt =====
-- What accepting an invitation does, in internal/api/association_requests.go.
use cinc_server_ng.Prelude.{
  ◌≡◌, refl, ap, ◌∙◌, true, false, Option, none, some, arith, Bytes, lit, ◌==◌, eq_iff, eq_refl, ok,
  if◌then◌else◌,
}
use cinc_server_ng.Store.Memory.{Memory, get_object, set_object, put_object, has_org, list_orgs}
use cinc_server_ng.Store.Memory.Listed.{contains-list_orgs}
use cinc_server_ng.Store.Memory.Laws.{same_path, get-set_object}
use cinc_server_ng.Store.Reads.{get-put, get-delete_value}
use cinc_server_ng.Store.Facade.{Store, get_value, put, note, note_write, emit, delete_value}
use cinc_server_ng.Authz.Enforce.{Actor}
use cinc_server_ng.Groups.Codec.{Codec}
use cinc_server_ng.Groups.Members.{group_members_coll, member_key, add_member}
use cinc_server_ng.Orgs.Invites.{
  assoc_coll, assoc_req_coll, user_doc, find_invite, inviter_authorized, inviter_of, check_inviter,
  join_org, respond_in, respond_invite, invitation_self_allowed,
}
use cinc_server_ng.Search.Json.{Members}
use cinc_server_ng.Orgs.Answer.{in_org}
use cinc_server_ng.Orgs.Invites.{
  responded, named, actor_name, create_invite, create_invite_in, invite_doc, invite_id,
}
use cinc_server_ng.Orgs.Requests.Refused.{find_invite-Same}
use cinc_server_ng.Orgs.Invites.Found.{
  IsOnlyIn, IsInvited, find_invite-found, inviter_authorized-congr,
}

has_org-put_object :
    (m : Memory) (org coll key val o : Bytes)
    → has_org (put_object m org coll key val) o ≡ has_org m o
unfolding put_object set_object has_org
has_org-put_object m org coll key val o = refl

pub get-put_object :
    (m : Memory) (org coll key val o c k : Bytes)
    → get_object (put_object m org coll key val) o c k
      ≡ (if same_path org coll key o c k then some val else get_object m o c k)
unfolding put_object
get-put_object m org coll key val o c k = get-set_object m org coll key o c k val

pub colls_differ :
    ((assoc_coll == assoc_req_coll) ≡ false)
    × ((assoc_req_coll == assoc_coll) ≡ false)
    × ((group_members_coll == assoc_coll) ≡ false)
    × ((assoc_req_coll == group_members_coll) ≡ false)
    × ((assoc_coll == group_members_coll) ≡ false)
    × ((lit "groups" == assoc_coll) ≡ false)
unfolding assoc_coll assoc_req_coll group_members_coll lit ◌==◌
colls_differ = (refl, refl, refl, refl, refl, refl)

module _ (C : Codec) where
  -- The user has joined: the association is there, and the row in the group users.
  abbrev pub HasJoined : Bytes → Bytes → Memory → Type 0
  HasJoined org user m =
      (get_object m org assoc_coll user ≡ some (C.encode (user_doc user)))
      × (get_object m org group_members_coll (member_key (lit "users") (lit "users") user)
          ≡ some (lit "{}"))

-- the user whom the body invites
abbrev pub invited_user : Members → Bytes
invited_user body = named body (lit "user") (lit "username")

-- The response "accept" is answered with 200, the user has joined, and the invitation is gone.
abbrev pub Accepts : {W : Type 0} → Codec → Option Actor → Bytes → Bytes → Bytes → Store W → Type 0
Accepts C who org user id s =
    ((respond_invite C who user id (some (lit "accept")) s).0.status ≡ 200)
    × HasJoined C org user (respond_invite C who user id (some (lit "accept")) s).1.backend
    × (get_object (respond_invite C who user id (some (lit "accept")) s).1.backend org
          assoc_req_coll id
        ≡ none)

module _ (C : Codec) {W : Type 0} where
  pub join_org-HasJoined :
      (org user : Bytes) (s : Store W) → HasJoined C org user (join_org C org user s).backend
  unfolding join_org add_member
  join_org-HasJoined org user s =
      let joined = put org assoc_coll user (C.encode (user_doc user)) s in
      let row = member_key (lit "users") (lit "users") user in
      (
        ground (
          arith,
          get-put org group_members_coll row (lit "{}") org assoc_coll user joined,
          get-put org assoc_coll user (C.encode (user_doc user)) org assoc_coll user s,
          colls_differ,
          eq_refl org,
          eq_refl user,
          eq_refl assoc_coll,
        ),
        ground (
          arith,
          get-put org group_members_coll row (lit "{}") org group_members_coll row joined,
          eq_refl org,
          eq_refl row,
          eq_refl group_members_coll,
        ),
      )

  pub get-join_org :
      (org user o k : Bytes) (s : Store W)
      → get_object (join_org C org user s).backend o assoc_coll k ≡ (
          if same_path org assoc_coll user o assoc_coll k
          then some (C.encode (user_doc user))
          else get_object s.backend o assoc_coll k)
  unfolding join_org add_member
  get-join_org org user o k s =
      let joined = put org assoc_coll user (C.encode (user_doc user)) s in
      let row = member_key (lit "users") (lit "users") user in
      ground (
        arith,
        get-put org group_members_coll row (lit "{}") o assoc_coll k joined,
        get-put org assoc_coll user (C.encode (user_doc user)) o assoc_coll k s,
        colls_differ,
      )

  get-join_org_other :
      (org user o c k : Bytes) (s : Store W)
      → (c == assoc_coll) ≡ false
      → (c == group_members_coll) ≡ false
      → get_object (join_org C org user s).backend o c k ≡ get_object s.backend o c k
  unfolding join_org add_member
  get-join_org_other org user o c k s f g =
      let joined = put org assoc_coll user (C.encode (user_doc user)) s in
      let row = member_key (lit "users") (lit "users") user in
      ground (
        arith,
        get-put org group_members_coll row (lit "{}") o c k joined,
        get-put org assoc_coll user (C.encode (user_doc user)) o c k s,
        eq_iff assoc_coll c,
        eq_iff group_members_coll c,
        eq_refl c,
      )

  respond_invite-eq :
      (who : Option Actor) (org user id v inviter : Bytes) (s : Store W)
      → IsInvited C org user id v s.backend
      → IsOnlyIn C org user id s.backend
      → invitation_self_allowed who user ≡ true
      → C.decode_text (lit "inviter") v ≡ ok inviter
      → (inviter_authorized C org inviter s).0 ≡ ok true
      → respond_invite C who user id (some (lit "accept")) s ≡ (
        responded org,
        join_org C org user
            (delete_value org assoc_req_coll id
              (check_inviter C org id (find_invite C user id (list_orgs s.backend) s).1).1).1,
      )
  unfolding respond_invite respond_in check_inviter inviter_of get_value
  respond_invite-eq who org user id v inviter s invited only allowed by may =
      let (known, here, named) = invited in
      let t = (find_invite C user id (list_orgs s.backend) s).1 in
      let (same, _) = find_invite-Same C user id (list_orgs s.backend) s in
      let stored : get_object t.backend org assoc_req_coll id ≡ some v = rw same here in
      let still : (inviter_authorized C org inviter (get_value org assoc_req_coll id t).1).0
          ≡ ok true =
        inviter_authorized-congr C org inviter (get_value org assoc_req_coll id t).1 s same ∙ may in
      let found : (find_invite C user id (list_orgs s.backend) s).0 ≡ ok (some org) =
        find_invite-found C org user id v s.backend invited only (list_orgs s.backend) s refl
          (contains-list_orgs s.backend org known) in
      ground (arith, eq_refl (lit "accept"))

  -- A pending invitation whose inviter still may invite is accepted by the user himself, or for him by
  -- the superuser: the answer is 200, the user has joined, and the invitation is used up.
  pub respond_invite-accept :
      (who : Option Actor) (org user id v inviter : Bytes) (s : Store W)
      → IsInvited C org user id v s.backend
      → IsOnlyIn C org user id s.backend
      → invitation_self_allowed who user ≡ true
      → C.decode_text (lit "inviter") v ≡ ok inviter
      → (inviter_authorized C org inviter s).0 ≡ ok true
      → Accepts C who org user id s
  respond_invite-accept who org user id v inviter s invited only allowed by may =
      let checked = (check_inviter C org id (find_invite C user id (list_orgs s.backend) s).1).1 in
      let left = (delete_value org assoc_req_coll id checked).1 in
      rw (respond_invite-eq who org user id v inviter s invited only allowed by may) (
        refl,
        join_org-HasJoined org user left,
        get-join_org_other org user org assoc_req_coll id left colls_differ.1 colls_differ.3
            ∙ ground (
              arith,
              get-delete_value org assoc_req_coll id org assoc_req_coll id checked,
              eq_refl org,
              eq_refl assoc_req_coll,
              eq_refl id,
            ),
      )

  -- what an invitation that is answered with 201 has written
  create_invite-created :
      (base org : Bytes) (actor : Option Actor) (body : Members) (s : Store W)
      → (create_invite C base org actor (some body) s).0.status ≡ 201
      → (has_org s.backend org ≡ true)
        × ((create_invite C base org actor (some body) s).1.backend
            ≡ put_object s.backend org assoc_req_coll
                (invite_id (invited_user body) org)
                (C.encode (invite_doc (invited_user body) org (actor_name actor))))
  unfolding create_invite in_org create_invite_in get_value put note note_write emit
  create_invite-created base org actor body s h = ground (arith)

  -- An invitation that is answered with 201 can be accepted: as long as its inviter may invite, the
  -- invited user himself, or the superuser for him, accepts it and has then joined, and the invitation
  -- is used up, if no other organisation has an invitation of the same id for the user or one that does
  -- not decode, and if a stored invitation decodes to the names in it.
  pub create_invite-accept :
      (base org : Bytes) (actor who : Option Actor) (body : Members) (s : Store W)
      → ((user inviter : Bytes)
          → (C.decode_text (lit "username") (C.encode (invite_doc user org inviter)) ≡ ok user)
            × (C.decode_text (lit "inviter") (C.encode (invite_doc user org inviter)) ≡ ok inviter))
      → IsOnlyIn C org (invited_user body) (invite_id (invited_user body) org) s.backend
      → invitation_self_allowed who (invited_user body) ≡ true
      → (create_invite C base org actor (some body) s).0.status ≡ 201
      → (inviter_authorized C org
          (actor_name actor)
          (create_invite C base org actor (some body) s).1).0
        ≡ ok true
      → Accepts C who org
          (invited_user body)
          (invite_id (invited_user body) org)
          (create_invite C base org actor (some body) s).1
  create_invite-accept base org actor who body s law only allowed created may =
      let user = invited_user body in
      let id = invite_id user org in
      let t = (create_invite C base org actor (some body) s).1 in
      let v = C.encode (invite_doc user org (actor_name actor)) in
      let (known, wrote) = create_invite-created base org actor body s created in
      let (named, by) = law user (actor_name actor) in
      let at : (o : Bytes)
          → get_object t.backend o assoc_req_coll id ≡ (
              if same_path org assoc_req_coll id o assoc_req_coll id
              then some v
              else get_object s.backend o assoc_req_coll id) =
        λ o.
          ap (λ m. get_object m o assoc_req_coll id) wrote
          ∙ get-put_object s.backend org assoc_req_coll id v o assoc_req_coll id in
      respond_invite-accept who org user id v (actor_name actor) t
        (
          ap (λ m. has_org m org) wrote
              ∙ has_org-put_object s.backend org assoc_req_coll id v org
              ∙ known,
          at org ∙ ground (arith, eq_refl org, eq_refl assoc_req_coll, eq_refl id),
          named,
        )
        (λ other w g f. only other w (ground (arith, at other, eq_iff org other, eq_refl org)) f)
        allowed by may
