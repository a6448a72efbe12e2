-- ===== src/Groups/Documents.antt =====
-- internal/api/groupmembers.go: the membership in the documents of groups, beside the rows.
pub mod Revoked
pub mod Left
use cinc_server_ng.Prelude.{
  Bool, true, false, not, Option, none, some, List, [], ◌∷◌, ◌++◌, Bytes, lit, ◌==◌, eqb, contains,
  keep, length, has_prefix, ok, err, if◌then◌else◌,
}
use cinc_server_ng.Store.Memory.{keys}
use cinc_server_ng.Store.Facade.{Store, get_value, put, range_store}
use cinc_server_ng.Search.Json.{Json, text, array, object, Members, no_members, member, get_member}
use cinc_server_ng.Groups.Codec.{Codec, json_strings, strings_json}
use cinc_server_ng.Groups.Members.{group_members_coll, split_member_key, remove_member_rows}

-- users, clients and groups
pub record Membership : Type 0 where
  pub users : List Bytes
  pub clients : List Bytes
  pub groups : List Bytes

abbrev pub nobody : Membership
nobody = record { users = []; clients = []; groups = [] }

-- src: the nested object of actors, or the group itself
abbrev member_source : Option Json → Members → Members
member_source (some (object nested)) obj = nested
member_source _ obj = obj

-- groupMembers
unfoldable pub group_members : Members → Membership
unfolding get_member json_strings
group_members obj =
    let src = member_source (get_member obj (lit "actors")) obj in
    record {
      users = json_strings (get_member src (lit "users"));
      clients = json_strings (get_member src (lit "clients"));
      groups = json_strings (get_member src (lit "groups"));
    }

-- the members of groupJSON in front of the name of the organisation
abbrev member_arrays : Membership → Members → Members
member_arrays m rest = member (lit "actors") (array (strings_json (m.clients ++ m.users))) (
    member (lit "users") (array (strings_json m.users)) (
      member (lit "clients") (array (strings_json m.clients))
        (member (lit "groups") (array (strings_json m.groups)) rest)))

-- groupJSON, before it is encoded
unfoldable pub group_json : Bytes → Bytes → Membership → Members
unfolding strings_json
group_json name orgname m =
    let names = member (lit "name") (text name) (member (lit "groupname") (text name) no_members) in
    member_arrays m (if orgname == [] then names else member (lit "orgname") (text orgname) names)

-- without
unfoldable pub without : List Bytes → Bytes → List Bytes × Bool
without s v = let out = keep (λ e. not (e == v)) s in (out, not (eqb (length out) (length s)))

-- the switch on the kind, with what has changed
unfoldable pub without_kind : Bytes → Bytes → Membership → Membership × Bool
unfolding without
without_kind kind actor m =
    if kind == lit "users"
    then (let (out, changed) = without m.users actor in (record m { users = out }, changed))
    else if kind == lit "clients"
    then (let (out, changed) = without m.clients actor in (record m { clients = out }, changed))
    else if kind == lit "groups"
    then (let (out, changed) = without m.groups actor in (record m { groups = out }, changed))
    else (m, false)

-- append(into, actor), unless it is there
abbrev append_missing : List Bytes → Bytes → List Bytes
append_missing into actor = if contains into actor then into else into ++ actor ∷ []

-- the switch in groupMembership
unfoldable pub add_row_member : Bytes → Bytes → Membership → Membership
add_row_member kind actor m =
    if kind == lit "users"
    then record m { users = append_missing m.users actor }
    else if kind == lit "clients"
    then record m { clients = append_missing m.clients actor }
    else if kind == lit "groups"
    then record m { groups = append_missing m.groups actor }
    else m

-- its callback
unfoldable pub read_member_row : Bytes → Bytes → Bytes → Membership → Bool × Membership
unfolding add_row_member
read_member_row prefix key raw m =
    if has_prefix key prefix
    then (
      true,
      elim (split_member_key key) [
        | none ↦ m
        | some (group, kind, actor) ↦ add_row_member kind actor m
      ],
    )
    else (true, m)

module _ (C : Codec) where
  -- the members of a stored document, none if it does not decode
  abbrev pub document_members : Option Bytes → Membership
  document_members none = nobody
  document_members (some raw) = elim (C.decode raw) [ err e ↦ nobody | ok g ↦ group_members g ]

module _ (C : Codec) {W : Type 0} where
  -- groupMembership
  unfoldable pub group_membership : Bytes → Bytes → Store W → Membership × Store W
  unfolding group_members read_member_row
  group_membership org group s =
      let (raw, t) = get_value org (lit "groups") group s in
      range_store org group_members_coll (read_member_row (group ++ 0 ∷ []))
        (document_members C raw) t

  -- one round of the loop over the names
  unfoldable pub remove_from_doc : Bytes → Bytes → Bytes → Bytes → Store W → Store W
  unfolding group_members without_kind group_json
  remove_from_doc org kind actor name s =
      let (raw, t) = get_value org (lit "groups") name s in
      elim raw [
        | none ↦ t
        | some doc ↦ elim (C.decode doc) [
          | err e ↦ t
          | ok g ↦
              let (m, changed) = without_kind kind actor (group_members g) in
              if changed then put org (lit "groups") name (C.encode (group_json name [] m)) t else t
        ]
      ]

  unfoldable pub remove_from_docs : Bytes → Bytes → Bytes → List Bytes → Store W → Store W
  unfolding remove_from_doc
  remove_from_docs org kind actor [] s = s
  remove_from_docs org kind actor (name ∷ names) s =
      remove_from_docs org kind actor names (remove_from_doc org kind actor name s)

  -- removeFromGroupDocs
  unfoldable pub remove_from_group_docs : Bytes → Bytes → Bytes → Store W → Store W
  unfolding remove_from_docs
  remove_from_group_docs org kind actor s =
      remove_from_docs org kind actor (keys s.backend org (lit "groups")) s

  -- removeActorFromAllGroups
  unfoldable pub remove_actor_from_all_groups : Bytes → Bytes → Bytes → Store W → Store W
  unfolding remove_from_group_docs
  remove_actor_from_all_groups org kind actor s =
      remove_from_group_docs org kind actor (remove_member_rows org kind actor s)
