-- ===== src/Groups/Documents/Left.antt =====
-- A revoked user is in no group's membership any more: internal/api/groupmembers.go.
use cinc_server_ng.Prelude.{
  ◌≡◌, refl, ap, ◌∙◌, Bool, true, false, ◌&&◌, none, some, List, [], ◌∷◌, ◌++◌, any, any-append,
  arith, inl, inr, Bool-cases, Option-cases, Bytes, lit, ◌==◌, eq_iff, contains, entries, Map,
  inner, any-entries_sound, split, has_suffix, if◌then◌else◌,
}
use cinc_server_ng.Prelude.Parts.{has_suffix-append, split_one, split_more}
use cinc_server_ng.Store.Memory.{get_object, keys, range, range_loop}
use cinc_server_ng.Store.Facade.{Store, get_value, range_store}
use cinc_server_ng.Groups.Codec.{Codec}
use cinc_server_ng.Groups.Members.{group_members_coll, split_member_key, three, remove_member_rows}
use cinc_server_ng.Groups.Members.Rows.{get-delete_rows}
use cinc_server_ng.Groups.Documents.{
  Membership, document_members, group_membership, read_member_row, add_row_member,
  remove_actor_from_all_groups,
}
use cinc_server_ng.Groups.Documents.Revoked.{
  has_user, IsFaithful, in_document-remove_from_group_docs, get-remove_from_docs,
}

three_parts :
    (parts : List Bytes) (group kind actor : Bytes)
    → three parts ≡ some (group, kind, actor)
    → parts ≡ group ∷ kind ∷ actor ∷ []
three_parts [] g k a e = cc
three_parts (x ∷ []) g k a e = cc
three_parts (x ∷ y ∷ []) g k a e = cc
three_parts (x ∷ y ∷ z ∷ []) g k a e = ground (arith)
three_parts (x ∷ y ∷ z ∷ w ∷ ws) g k a e = cc

-- A row of the kind and the actor ends in both.
split_member_key-suffix :
    (key group kind actor : Bytes)
    → split_member_key key ≡ some (group, kind, actor)
    → has_suffix key (0 ∷ (kind ++ 0 ∷ actor)) ≡ true
unfolding split_member_key
split_member_key-suffix key group kind actor e =
    let parts : split key 0 ≡ group ∷ kind ∷ actor ∷ [] =
      three_parts (split key 0) group kind actor e in
    let (t, e1, rest) = split_more key group kind (actor ∷ []) 0 parts in
    let (u, e2, last) = split_more t kind actor [] 0 rest in
    let e3 = split_one u actor 0 last in
    rw (e1, e2, e3) (has_suffix-append group (0 ∷ (kind ++ 0 ∷ actor)))

groups_apart : (lit "groups" == group_members_coll) ≡ false
unfolding group_members_coll lit ◌==◌
groups_apart = refl

get-remove_rows :
    {W : Type 0} (org kind actor key : Bytes) (s : Store W)
    → get_object (remove_member_rows org kind actor s).backend org group_members_coll key ≡ (
        if has_suffix key (0 ∷ (kind ++ 0 ∷ actor))
        then none
        else get_object s.backend org group_members_coll key)
unfolding remove_member_rows
get-remove_rows org kind actor key s =
    get-delete_rows org (λ k. has_suffix k (0 ∷ (kind ++ 0 ∷ actor))) key s

module _ (user : Bytes) where
  -- The key is that of a row of the user.
  abbrev names_user : Bytes → Bool
  names_user key = elim (split_member_key key) [
    | none ↦ false
    | some (group, kind, actor) ↦ kind == lit "users" && actor == user
  ]

  read_member_row-other :
      (prefix key raw : Bytes) (m : Membership)
      → names_user key ≡ false
      → has_user m user ≡ false
      → has_user (read_member_row prefix key raw m).1 user ≡ false
  unfolding read_member_row add_row_member
  read_member_row-other prefix key raw m n h = elim (Option-cases (split_member_key key)) [
    | inl e ↦ ground (arith)
    | inr ((group, kind, actor), e) ↦
        ground (arith, any-append (λ x. x == user) m.users (actor ∷ []))
  ]

  range_loop-row :
      (prefix k v : Bytes) (es : List (Bytes × Bytes)) (m : Membership)
      → range_loop (read_member_row prefix) ((k, v) ∷ es) m
        ≡ range_loop (read_member_row prefix) es (read_member_row prefix k v m).1
  unfolding range_loop read_member_row
  range_loop-row prefix k v es m = ground (arith)

  range_loop-other :
      (prefix : Bytes) (es : List (Bytes × Bytes)) (m : Membership)
      → any (λ e. names_user e.0) es ≡ false
      → has_user m user ≡ false
      → has_user (range_loop (read_member_row prefix) es m) user ≡ false
  unfolding range_loop
  range_loop-other prefix [] m n h = h
  range_loop-other prefix ((k, v) ∷ es) m n h =
      ap (λ r. has_user r user) (range_loop-row prefix k v es m)
      ∙ range_loop-other prefix es (read_member_row prefix k v m).1 (ground (arith))
          (read_member_row-other prefix k v m (ground (arith)) h)

  module _ (C : Codec) {W : Type 0} (law : IsFaithful C user) (org : Bytes) (s : Store W) where
    abbrev left : Store W
    left = remove_actor_from_all_groups C org (lit "users") user s

    abbrev rows : Map Bytes
    rows = inner (inner left.backend.data_of org) group_members_coll

    row_gone :
        (key : Bytes)
        → names_user key ≡ true
        → get_object left.backend org group_members_coll key ≡ none
    unfolding remove_actor_from_all_groups
    row_gone key n = elim (Option-cases (split_member_key key)) [
      | inl e ↦ absurd (ground (arith))
      | inr ((group, kind, actor), e) ↦
          let ek : kind ≡ lit "users" = ground (arith, eq_iff kind (lit "users")) in
          let ea : actor ≡ user = ground (arith, eq_iff actor user) in
          let ends : has_suffix key (0 ∷ (lit "users" ++ 0 ∷ user)) ≡ true =
            rw (← ek, ← ea) (split_member_key-suffix key group kind actor e) in
          let v = remove_member_rows org (lit "users") user s in
          get-remove_from_docs C user law org org group_members_coll key
            (keys v.backend org (lit "groups")) v groups_apart
          ∙ get-remove_rows org (lit "users") user key s
          ∙ ground (arith)
    ]

    no_rows : any (λ e. names_user e.0) (entries rows) ≡ false
    unfolding get_object
    no_rows = elim (Bool-cases (any (λ e. names_user e.0) (entries rows))) [
      | inr f ↦ f
      | inl t ↦
          let (k, v, g, q) = any-entries_sound (λ k v. names_user k) rows t in
          let gone = row_gone k q in absurd (ground (arith))
    ]

    -- Revoking a user takes him out of every group of the organisation, whether a row or the document of
    -- the group had him, if documents of groups decode to what was encoded.
    pub group_membership-revoked :
        (group : Bytes) → contains (group_membership C org group left).0.users user ≡ false
    unfolding group_membership get_value range_store range remove_actor_from_all_groups
    group_membership-revoked group =
        range_loop-other (group ++ 0 ∷ []) (entries rows)
          (document_members C (get_object left.backend org (lit "groups") group)) no_rows
          (in_document-remove_from_group_docs C user law org group
            (remove_member_rows org (lit "users") user s))
