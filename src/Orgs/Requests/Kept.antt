-- ===== src/Orgs/Requests/Kept.antt =====
-- The requests that bring no association about.
use cinc_server_ng.Prelude.{
  ◌≡◌, refl, ◌∙◌, Option, none, some, List, [], ◌∷◌, ◌++◌, has_suffix, ◌⊎◌, arith, inl, inr,
  Bool-cases, Option-cases, Result-cases, Bytes, lit, contains,
}
use cinc_server_ng.Store.Memory.{get_object, keys}
use cinc_server_ng.Store.Memory.Laws.{same_path}
use cinc_server_ng.Store.Reads.{get-put, get-delete_value}
use cinc_server_ng.Store.Facade.{
  Store, get_value, put, range_store, note, note_write, emit, delete_value,
}
use cinc_server_ng.Search.Json.{Members}
use cinc_server_ng.Authz.Enforce.{Actor}
use cinc_server_ng.Groups.Codec.{Codec}
use cinc_server_ng.Groups.Index.{build_group_index}
use cinc_server_ng.Groups.Members.{
  group_members_coll, delete_keys, delete_rows, remove_member_rows, collect,
}
use cinc_server_ng.Groups.Documents.{
  group_members, group_json, without_kind, remove_from_doc, remove_from_docs,
  remove_from_group_docs, remove_actor_from_all_groups,
}
use cinc_server_ng.Orgs.Answer.{in_org}
use cinc_server_ng.Orgs.Invites.{
  assoc_coll, assoc_req_coll, named, actor_name, invite_doc, invite_id, create_invite_in,
  create_invite, rescind_invite,
}
use cinc_server_ng.Orgs.Associations.{groups_of_user, disassociate_user_in}
use cinc_server_ng.Orgs.Requests.Accepted.{get-put_object, colls_differ}

-- The object of an association, in each of the stores.
module _ {W : Type 0} (o user : Bytes) where
  abbrev pub association : Store W → Option Bytes
  association s = get_object s.backend o assoc_coll user

  delete_keys-association :
      (org : Bytes) (keys : List Bytes) (s : Store W)
      → association (delete_keys org keys s) ≡ association s
  unfolding delete_keys
  delete_keys-association org [] s = refl
  delete_keys-association org (k ∷ keys) s =
      delete_keys-association org keys (delete_value org group_members_coll k s).1
      ∙ ground (arith, get-delete_value org group_members_coll k o assoc_coll user s, colls_differ)

  pub remove_member_rows-association :
      (org kind actor : Bytes) (s : Store W)
      → association (remove_member_rows org kind actor s) ≡ association s
  unfolding remove_member_rows delete_rows range_store
  remove_member_rows-association org kind actor s =
      let scanned =
        range_store org group_members_coll
          (collect (λ key. has_suffix key (0 ∷ (kind ++ 0 ∷ actor)))) [] s in
      delete_keys-association org scanned.0 scanned.1

  put-association :
      (org name val : Bytes) (s : Store W)
      → association (put org (lit "groups") name val s) ≡ association s
  put-association org name val s =
      ground (arith, get-put org (lit "groups") name val o assoc_coll user s, colls_differ)

  pub remove_from_doc-association :
      (C : Codec) (org kind actor name : Bytes) (s : Store W)
      → association (remove_from_doc C org kind actor name s) ≡ association s
  unfolding remove_from_doc get_value
  remove_from_doc-association C org kind actor name s =
      let t = (get_value org (lit "groups") name s).1 in
      elim (Option-cases (get_object s.backend org (lit "groups") name)) [
        | inl n ↦ ground (arith)
        | inr (doc, d) ↦ elim (Result-cases (C.decode doc)) [
          | inr (x, e) ↦ ground (arith)
          | inl (g, e) ↦
              let m = (without_kind kind actor (group_members g)).0 in
              ground (arith, put-association org name (C.encode (group_json name [] m)) t)
        ]
      ]

  pub remove_from_docs-association :
      (C : Codec) (org kind actor : Bytes) (names : List Bytes) (s : Store W)
      → association (remove_from_docs C org kind actor names s) ≡ association s
  unfolding remove_from_docs
  remove_from_docs-association C org kind actor [] s = refl
  remove_from_docs-association C org kind actor (name ∷ names) s =
      remove_from_docs-association C org kind actor names (remove_from_doc C org kind actor name s)
      ∙ remove_from_doc-association C org kind actor name s

  -- Removing an association, and the actor from the groups, brings no association about.
  pub disassociate_user-association :
      (C : Codec) (members : Bytes → List Bytes × List Bytes × List Bytes) (org actor : Bytes)
      (s : Store W)
      → (association (disassociate_user_in C members org actor s).1 ≡ association s)
        ⊎ (association (disassociate_user_in C members org actor s).1 ≡ none)
  unfolding disassociate_user_in groups_of_user get_value build_group_index range_store
      remove_actor_from_all_groups remove_from_group_docs
  disassociate_user-association C members org actor s =
      let t = (groups_of_user C members org actor (get_value org assoc_coll actor s).1).1 in
      let u = (delete_value org assoc_coll actor t).1 in
      let v = remove_member_rows org (lit "users") actor u in
      let docs =
        remove_from_docs-association C org (lit "users") actor (keys v.backend org (lit "groups"))
          v in
      let rows = remove_member_rows-association org (lit "users") actor u in
      let gone = get-delete_value org assoc_coll actor o assoc_coll user t in
      elim (Option-cases (get_object s.backend org assoc_coll actor)) [
        | inl n ↦ inl (ground (arith))
        | inr (x, e) ↦
            elim (Bool-cases (
              contains (groups_of_user C members org actor (get_value org assoc_coll actor s).1).0
                (lit "admins"))) [
                  | inl a ↦ inl (ground (arith))
                  | inr a ↦ elim (Bool-cases (same_path org assoc_coll actor o assoc_coll user)) [
                    | inl p ↦ inr (ground (arith, docs, rows, gone))
                    | inr p ↦ inl (ground (arith, docs, rows, gone))
                  ]
                ]
      ]

  pub create_invite-association :
      (C : Codec) (base org : Bytes) (actor : Option Actor) (body : Option Members) (s : Store W)
      → association (create_invite C base org actor body s).1 ≡ association s
  unfolding create_invite in_org create_invite_in get_value put note note_write emit
  create_invite-association C base org actor none s = ground (arith)
  create_invite-association C base org actor (some body) s =
      let name = named body (lit "user") (lit "username") in
      let id = invite_id name org in
      ground (
        arith,
        get-put_object s.backend org assoc_req_coll id
            (C.encode (invite_doc name org (actor_name actor))) o assoc_coll user,
        colls_differ,
      )

  pub rescind_invite-association :
      (C : Codec) (org id : Bytes) (s : Store W)
      → association (rescind_invite C org id s).1 ≡ association s
  unfolding rescind_invite in_org
  rescind_invite-association C org id s =
      ground (arith, get-delete_value org assoc_req_coll id o assoc_coll user s, colls_differ)
