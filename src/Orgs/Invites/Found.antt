-- ===== src/Orgs/Invites/Found.antt =====
-- Which invitation internal/api/association_requests.go finds, and what accepting it does.
use cinc_server_ng.Prelude.{
  ◌≡◌, sym, ap, ◌∙◌, true, false, some, List, [], ◌∷◌, arith, inl, inr, Bool-cases, Option-cases,
  Result-cases, Bytes, lit, ◌==◌, eq_iff, eq_refl, contains, ok, if◌then◌else◌,
}
use cinc_server_ng.Store.Memory.{Memory, get_object, has_org}
use cinc_server_ng.Store.Facade.{Store, get_value, range_store}
use cinc_server_ng.Groups.Codec.{Codec}
use cinc_server_ng.Groups.Documents.{group_membership}
use cinc_server_ng.Orgs.Invites.{
  assoc_req_coll, find_invite, inviter_authorized, inviter_of, check_inviter,
}

module _ (C : Codec) where
  -- No organisation but `org` has an invitation of the id that is the user's, or that does not decode.
  abbrev pub IsOnlyIn : Bytes → Bytes → Bytes → Memory → Type 0
  IsOnlyIn org user id m =
      (other v : Bytes)
      → get_object m other assoc_req_coll id ≡ some v
      → (other == org) ≡ false
      → (name : Bytes) × (C.decode_text (lit "username") v ≡ ok name) × ((name == user) ≡ false)

  -- The invitation is there.
  abbrev pub IsInvited : Bytes → Bytes → Bytes → Bytes → Memory → Type 0
  IsInvited org user id v m =
      (has_org m org ≡ true)
      × (get_object m org assoc_req_coll id ≡ some v)
      × (C.decode_text (lit "username") v ≡ ok user)

module _ (C : Codec) {W : Type 0} where
  module _ (org user id v : Bytes) (m : Memory) (invited : IsInvited C org user id v m)
      (only : IsOnlyIn C org user id m) where
    pub find_invite-found :
        (orgs : List Bytes) (s : Store W)
        → s.backend ≡ m
        → contains orgs org ≡ true
        → (find_invite C user id orgs s).0 ≡ ok (some org)
    unfolding find_invite get_value
    find_invite-found [] s e h = cc
    find_invite-found (other ∷ orgs) s e h =
        let next = if has_org s.backend other then (get_value other assoc_req_coll id s).1 else s in
        let same : next.backend ≡ m = ground (arith) in
        let later = find_invite-found orgs next same in
        let (known, here, named) = invited in
        elim (Bool-cases (other == org)) [
          | inl t ↦
              let same_org : other ≡ org = ground (arith, eq_iff other org) in
              let found : get_object s.backend other assoc_req_coll id ≡ some v =
                rw (e, same_org) here in
              let there : has_org s.backend other ≡ true = rw (e, same_org) known in
              ground (arith, eq_refl user)
          | inr f ↦ elim (Option-cases (get_object s.backend other assoc_req_coll id)) [
            | inl n ↦ ground (arith)
            | inr (w, g) ↦
                let (name, decoded, differs) =
                  only other w (sym (ap (λ x. get_object x other assoc_req_coll id) e) ∙ g) f in
                ground (arith)
          ]
        ]

  -- What the check of the inviter finds does not depend on the counters.
  pub inviter_authorized-congr :
      (org inviter : Bytes) (s t : Store W)
      → s.backend ≡ t.backend
      → (inviter_authorized C org inviter s).0 ≡ (inviter_authorized C org inviter t).0
  unfolding inviter_authorized get_value group_membership range_store
  inviter_authorized-congr org inviter s t e = ground (arith)

  pub check_inviter-congr :
      (org id : Bytes) (s t : Store W)
      → s.backend ≡ t.backend
      → (check_inviter C org id s).0 ≡ (check_inviter C org id t).0
  unfolding check_inviter inviter_of get_value
  check_inviter-congr org id s t e =
      let read : (inviter_of C org id s).0 ≡ (inviter_of C org id t).0 = ground (arith) in
      elim (Result-cases (inviter_of C org id s).0) [
        | inr (x, f) ↦ ground (arith)
        | inl (name, f) ↦ ground (
          arith,
          inviter_authorized-congr org name (inviter_of C org id s).1 (inviter_of C org id t).1 e,
        )
      ]
