-- ===== src/Groups/Documents/Revoked.antt =====
-- Who is in the groups after a revocation by internal/api/groupmembers.go.
use cinc_server_ng.Prelude.{
  ◌≤◌, ◌≡◌, refl, sym, ap, ◌∙◌, Bool, false, not, List, [], ◌∷◌, keep, length, arith, inl, inr,
  Bool-cases, Option-cases, Result-cases, Bytes, lit, ◌==◌, eq_iff, eq_refl, contains, ok,
  if◌then◌else◌,
}
use cinc_server_ng.Store.Memory.{get_object, keys}
use cinc_server_ng.Store.Memory.Listed.{contains-keys}
use cinc_server_ng.Store.Memory.Laws.{same_path}
use cinc_server_ng.Store.Reads.{get-put}
use cinc_server_ng.Store.Facade.{Store, get_value}
use cinc_server_ng.Search.Json.{Members}
use cinc_server_ng.Groups.Codec.{Codec}
use cinc_server_ng.Groups.Documents.{
  Membership, group_members, group_json, without, without_kind, document_members, remove_from_doc,
  remove_from_docs, remove_from_group_docs,
}

-- Nobody of that name is left by `without`.
contains-without : (s : List Bytes) (v : Bytes) → contains (without s v).0 v ≡ false
unfolding without
contains-without [] v = refl
contains-without (e ∷ s) v = ground (arith, contains-without s v)

-- What `without` reports as unchanged was not there.
length-keep : (s : List Bytes) (v : Bytes) → length (keep (λ e. not (e == v)) s) ≤ length s
length-keep [] v = omega arith
length-keep (e ∷ s) v = ground (arith, length-keep s v)

contains-unchanged : (s : List Bytes) (v : Bytes) → (without s v).1 ≡ false → contains s v ≡ false
unfolding without
contains-unchanged [] v h = refl
contains-unchanged (e ∷ s) v h = ground (arith, contains-unchanged s v, length-keep s v)

-- The user is in the list of the kind "users".
abbrev pub has_user : Membership → Bytes → Bool
has_user m user = contains m.users user

module _ (C : Codec) (user : Bytes) where
  -- Documents of groups decode to what was encoded.
  abbrev pub IsFaithful : Type 0
  IsFaithful =
      (name : Bytes) (m : Membership)
      → (g : Members) × (C.decode (C.encode (group_json name [] m)) ≡ ok g) × (group_members g ≡ m)

  without_kind-users :
      (m : Membership)
      → (has_user (without_kind (lit "users") user m).0 user ≡ false)
        × ((without_kind (lit "users") user m).1 ≡ false → has_user m user ≡ false)
  unfolding without_kind
  without_kind-users m = (
    ground (arith, eq_refl (lit "users"), contains-without m.users user),
    λ h. contains-unchanged m.users user (ground (arith, eq_refl (lit "users"))),
  )

  module _ {W : Type 0} (law : IsFaithful) where
    -- the user in the document of the name
    abbrev pub in_document : Bytes → Bytes → Store W → Bool
    in_document org name s =
        has_user (document_members C (get_object s.backend org (lit "groups") name)) user

    own-remove_from_doc :
        (org name : Bytes) (s : Store W)
        → in_document org name (remove_from_doc C org (lit "users") user name s) ≡ false
    unfolding remove_from_doc get_value
    own-remove_from_doc org name s =
        let t = (get_value org (lit "groups") name s).1 in
        elim (Option-cases (get_object s.backend org (lit "groups") name)) [
          | inl n ↦ ground (arith)
          | inr (doc, d) ↦ elim (Result-cases (C.decode doc)) [
            | inr (x, e) ↦ ground (arith)
            | inl (g, e) ↦
                let m = (without_kind (lit "users") user (group_members g)).0 in
                let (gone, unchanged) = without_kind-users (group_members g) in
                let (g', decoded, same) = law name m in
                let wrote =
                  get-put org (lit "groups") name (C.encode (group_json name [] m)) org
                    (lit "groups") name t in
                let left : has_user (group_members g') user ≡ false =
                  ap (λ x. has_user x user) same ∙ gone in
                ground (arith, unchanged, wrote, eq_refl org, eq_refl (lit "groups"), eq_refl name)
          ]
        ]

    get-remove_from_doc :
        (org name o c k : Bytes) (s : Store W)
        → same_path org (lit "groups") name o c k ≡ false
        → get_object (remove_from_doc C org (lit "users") user name s).backend o c k
          ≡ get_object s.backend o c k
    unfolding remove_from_doc get_value
    get-remove_from_doc org name o c k s h =
        let t = (get_value org (lit "groups") name s).1 in
        elim (Option-cases (get_object s.backend org (lit "groups") name)) [
          | inl n ↦ ground (arith)
          | inr (doc, d) ↦ elim (Result-cases (C.decode doc)) [
            | inr (x, e) ↦ ground (arith)
            | inl (g, e) ↦
                let m = (without_kind (lit "users") user (group_members g)).0 in
                ground
                  (arith, get-put org (lit "groups") name (C.encode (group_json name [] m)) o c k t)
          ]
        ]

    in_document-remove_from_doc :
        (org name other : Bytes) (s : Store W)
        → in_document org other (remove_from_doc C org (lit "users") user name s)
          ≡ (if name == other then false else in_document org other s)
    in_document-remove_from_doc org name other s = elim (Bool-cases (name == other)) [
      | inl t ↦
          let same : name ≡ other = ground (arith, eq_iff name other) in
          rw t (
            ap (λ n. in_document org n (remove_from_doc C org (lit "users") user name s)) (sym same)
            ∙ own-remove_from_doc org name s)
      | inr f ↦ rw f (
          ap (λ o. has_user (document_members C o) user)
            (get-remove_from_doc org name org (lit "groups") other s (ground (arith))))
    ]

    in_document-remove_from_docs :
        (org other : Bytes) (names : List Bytes) (s : Store W)
        → in_document org other (remove_from_docs C org (lit "users") user names s)
          ≡ (if contains names other then false else in_document org other s)
    unfolding remove_from_docs
    in_document-remove_from_docs org other [] s = refl
    in_document-remove_from_docs org other (name ∷ names) s =
        in_document-remove_from_docs org other names
          (remove_from_doc C org (lit "users") user name s)
        ∙ ground (arith, in_document-remove_from_doc org name other s)

    pub get-remove_from_docs :
        (org o c k : Bytes) (names : List Bytes) (s : Store W)
        → (lit "groups" == c) ≡ false
        → get_object (remove_from_docs C org (lit "users") user names s).backend o c k
          ≡ get_object s.backend o c k
    unfolding remove_from_docs
    get-remove_from_docs org o c k [] s h = refl
    get-remove_from_docs org o c k (name ∷ names) s h =
        get-remove_from_docs org o c k names (remove_from_doc C org (lit "users") user name s) h
        ∙ get-remove_from_doc org name o c k s (ground (arith))

    -- No document of a group has the user.
    pub in_document-remove_from_group_docs :
        (org other : Bytes) (s : Store W)
        → in_document org other (remove_from_group_docs C org (lit "users") user s) ≡ false
    unfolding remove_from_group_docs
    in_document-remove_from_group_docs org other s =
        in_document-remove_from_docs org other (keys s.backend org (lit "groups")) s
        ∙ ground (arith, contains-keys s.backend org (lit "groups") other)
