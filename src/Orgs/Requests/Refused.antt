-- ===== src/Orgs/Requests/Refused.antt =====
-- What a request on the users of an organisation leaves behind when it is refused.
use cinc_server_ng.Prelude.{
  ◌≡◌, refl, true, List, [], ◌∷◌, arith, leb, inl, inr, Result-cases, Bytes, if◌then◌else◌,
}
use cinc_server_ng.Store.Memory.{has_org}
use cinc_server_ng.Store.Facade.{Store, get_value, range_store}
use cinc_server_ng.Groups.Codec.{Codec}
use cinc_server_ng.Groups.Documents.{group_membership}
use cinc_server_ng.Orgs.Answer.{Response}
use cinc_server_ng.Orgs.Invites.{
  find_invite, inviter_authorized, inviter_of, check_inviter, assoc_req_coll,
}

-- The objects are the same, and no observer has been told anything.
abbrev pub Same : {W : Type 0} → Store W → Store W → Type 0
Same s t = (t.backend ≡ s.backend) × (t.world ≡ s.world)

module _ (C : Codec) {W : Type 0} where
  pub find_invite-Same :
      (user id : Bytes) (orgs : List Bytes) (s : Store W) → Same s (find_invite C user id orgs s).1
  unfolding find_invite get_value
  find_invite-Same user id [] s = (refl, refl)
  find_invite-Same user id (org ∷ orgs) s = ground (
    arith,
    find_invite-Same user id orgs
        (if has_org s.backend org then (get_value org assoc_req_coll id s).1 else s),
  )

  pub inviter_authorized-Same :
      (org inviter : Bytes) (s : Store W) → Same s (inviter_authorized C org inviter s).1
  unfolding inviter_authorized get_value group_membership range_store
  inviter_authorized-Same org inviter s = ground (arith)

  pub check_inviter-Same : (org id : Bytes) (s : Store W) → Same s (check_inviter C org id s).1
  unfolding check_inviter inviter_of get_value
  check_inviter-Same org id s = elim (Result-cases (inviter_of C org id s).0) [
    | inl (name, e) ↦ ground (arith, inviter_authorized-Same org name (inviter_of C org id s).1)
    | inr (x, e) ↦ ground (arith)
  ]

  -- The answer is an error, or the store Keeps its objects.
  abbrev Keeps : Store W → Response × Store W → Type 0
  Keeps s (r, t) = leb 400 r.status ≡ true → Same s t
