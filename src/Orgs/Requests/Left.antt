-- ===== src/Orgs/Requests/Left.antt =====
-- What is left of a user whom internal/api/association.go removes from an organisation.
use cinc_server_ng.Prelude.{◌≡◌, ap, ◌∙◌, false, none, List, arith, Bytes, lit, eq_refl, contains}
use cinc_server_ng.Store.Memory.{get_object, keys}
use cinc_server_ng.Store.Reads.{get-delete_value}
use cinc_server_ng.Store.Facade.{Store, get_value, delete_value}
use cinc_server_ng.Groups.Codec.{Codec}
use cinc_server_ng.Groups.Members.{remove_member_rows}
use cinc_server_ng.Groups.Documents.{
  group_membership, remove_from_group_docs, remove_actor_from_all_groups,
}
use cinc_server_ng.Groups.Documents.Revoked.{IsFaithful}
use cinc_server_ng.Groups.Documents.Left.{group_membership-revoked}
use cinc_server_ng.Orgs.Answer.{in_org}
use cinc_server_ng.Orgs.Invites.{assoc_coll}
use cinc_server_ng.Orgs.Associations.{groups_of_user, disassociate_user_in, disassociate_user}
use cinc_server_ng.Orgs.Requests.Kept.{
  association, remove_member_rows-association, remove_from_docs-association,
}

module _ (C : Codec) (members : Bytes → List Bytes × List Bytes × List Bytes) {W : Type 0}
    (org user : Bytes) (s : Store W) where
  -- the store as it is when the association is deleted
  abbrev deleted : Store W
  deleted =
      (delete_value org assoc_coll user
        (groups_of_user C members org user (get_value org assoc_coll user s).1).1).1

  disassociate_user-done :
      (disassociate_user C members org user s).0.status ≡ 200
      → (disassociate_user C members org user s).1
        ≡ remove_actor_from_all_groups C org (lit "users") user deleted
  unfolding disassociate_user in_org disassociate_user_in
  disassociate_user-done h = ground (arith)

  -- A user whose removal from an organisation is answered with 200 is no more associated with it, and no
  -- group of it has him as a member, whether a row or the group's document had him, if documents of
  -- groups decode to what was encoded.
  pub disassociate_user-leaves :
      IsFaithful C user
      → (disassociate_user C members org user s).0.status ≡ 200
      → (get_object (disassociate_user C members org user s).1.backend org assoc_coll user ≡ none)
        × ((group : Bytes)
            → contains
                (group_membership C org group (disassociate_user C members org user s).1).0.users
                user
              ≡ false)
  unfolding remove_actor_from_all_groups remove_from_group_docs
  disassociate_user-leaves law h =
      let done = disassociate_user-done h in
      let v = remove_member_rows org (lit "users") user deleted in
      let t = (groups_of_user C members org user (get_value org assoc_coll user s).1).1 in
      (
        ap (λ x. association org user x) done
            ∙ remove_from_docs-association org user C org (lit "users") user
                (keys v.backend org (lit "groups")) v
            ∙ remove_member_rows-association org user org (lit "users") user deleted
            ∙ get-delete_value org assoc_coll user org assoc_coll user t
            ∙ ground (arith, eq_refl org, eq_refl user, eq_refl assoc_coll),
        λ group.
            ap (λ x. contains (group_membership C org group x).0.users user) done
            ∙ group_membership-revoked user C law org deleted group,
      )
