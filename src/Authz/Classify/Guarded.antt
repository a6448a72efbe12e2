-- ===== src/Authz/Classify/Guarded.antt =====
-- What internal/api/authz_enforce.go asks of the requests that write.
use cinc_server_ng.Prelude.{
  ◌≡◌, refl, Bool, true, false, not, Option, none, some, List, [], ◌∷◌, arith, Bytes, lit, ◌==◌,
  Option-cases, inl, inr, ◌⊎◌,
}
use cinc_server_ng.Authz.Classify.{
  Method, get_m, head_m, post_m, put_m, delete_m, patch_m, other_m, Check, item_perm, user_key_perm,
  classify_sub_resource, classify_generic, classify_cookbook, classify_data_bag,
  classify_org_membership, classify_users, before_acl, classify_acl, classify_org, classify_parts,
  classify_request, path_parts,
}
use cinc_server_ng.Authz.Open.{mutating_method}

-- It is not the permission to read that the check asks for.
abbrev asks_to_write : Option Check → Bool
asks_to_write none = true
asks_to_write (some check) = not (check.perm == lit "read")

no_read :
    ((lit "create" == lit "read") ≡ false)
    × ((lit "update" == lit "read") ≡ false)
    × ((lit "delete" == lit "read") ≡ false)
    × ((lit "grant" == lit "read") ≡ false)
unfolding lit ◌==◌
no_read = (refl, refl, refl, refl)

writer :
    (m : Method)
    → mutating_method m ≡ true
    → (m ≡ post_m) ⊎ (m ≡ put_m) ⊎ (m ≡ delete_m) ⊎ (m ≡ patch_m)
unfolding mutating_method
writer post_m h = inl refl
writer put_m h = inr (inl refl)
writer delete_m h = inr (inr (inl refl))
writer patch_m h = inr (inr (inr refl))
writer get_m h = cc
writer head_m h = cc
writer other_m h = cc

classify_generic-asks :
    (m : Method) (seg : Bytes) (rest : List Bytes)
    → mutating_method m ≡ true
    → asks_to_write (classify_generic m seg rest) ≡ true
unfolding classify_generic classify_sub_resource item_perm
classify_generic-asks m seg [] h = refl
classify_generic-asks m seg (s ∷ []) h = ground (arith, no_read, writer m)
classify_generic-asks m seg (s ∷ name ∷ []) h = ground (arith, no_read, writer m)
classify_generic-asks m seg (s ∷ name ∷ sub ∷ more) h = ground (arith, no_read, writer m)

classify_cookbook-asks :
    (m : Method) (seg : Bytes) (rest : List Bytes)
    → mutating_method m ≡ true
    → asks_to_write (classify_cookbook m seg rest) ≡ true
unfolding classify_cookbook item_perm
classify_cookbook-asks m seg [] h = refl
classify_cookbook-asks m seg (s ∷ []) h = ground (arith, no_read, writer m)
classify_cookbook-asks m seg (s ∷ name ∷ []) h = ground (arith, no_read, writer m)
classify_cookbook-asks m seg (s ∷ name ∷ version ∷ []) h = ground (arith, no_read, writer m)
classify_cookbook-asks m seg (s ∷ name ∷ version ∷ x ∷ more) h = refl

classify_data_bag-asks :
    (m : Method) (rest : List Bytes)
    → mutating_method m ≡ true
    → asks_to_write (classify_data_bag m rest) ≡ true
unfolding classify_data_bag
classify_data_bag-asks m [] h = refl
classify_data_bag-asks m (s ∷ []) h = ground (arith, no_read, writer m)
classify_data_bag-asks m (s ∷ name ∷ []) h = ground (arith, no_read, writer m)
classify_data_bag-asks m (s ∷ name ∷ item ∷ []) h = ground (arith, no_read, writer m)
classify_data_bag-asks m (s ∷ name ∷ item ∷ x ∷ more) h = refl

classify_org_membership-asks :
    (m : Method) (org : Bytes) (rest : List Bytes)
    → mutating_method m ≡ true
    → asks_to_write (classify_org_membership m org rest) ≡ true
unfolding classify_org_membership
classify_org_membership-asks m org [] h = refl
classify_org_membership-asks m org (s ∷ []) h = ground (arith, no_read, writer m)
classify_org_membership-asks m org (s ∷ user ∷ []) h = ground (arith, no_read, writer m)
classify_org_membership-asks m org (s ∷ user ∷ x ∷ more) h = refl

classify_users-asks :
    (m : Method) (rest : List Bytes)
    → mutating_method m ≡ true
    → asks_to_write (classify_users m rest) ≡ true
unfolding classify_users item_perm user_key_perm
classify_users-asks m [] h = ground (arith, no_read, writer m)
classify_users-asks m (name ∷ []) h = ground (arith, no_read, writer m)
classify_users-asks m (name ∷ sub ∷ more) h = ground (arith, no_read, writer m)

classify_org-asks :
    (m : Method) (org : Bytes) (rest : List Bytes)
    → mutating_method m ≡ true
    → asks_to_write (classify_org m org rest) ≡ true
unfolding classify_org item_perm
classify_org-asks m org [] h = ground (arith, no_read, writer m)
classify_org-asks m org (seg ∷ more) h = ground (
  arith,
  classify_data_bag-asks m (seg ∷ more),
  classify_cookbook-asks m seg (seg ∷ more),
  classify_org_membership-asks m org (seg ∷ more),
  classify_generic-asks m seg (seg ∷ more),
)

classify_acl-asks : (org : Bytes) (obj : List Bytes) → asks_to_write (classify_acl org obj) ≡ true
unfolding classify_acl
classify_acl-asks org [] = refl
classify_acl-asks org (o ∷ []) = ground (arith, no_read)
classify_acl-asks org (typ ∷ name ∷ []) = ground (arith, no_read)
classify_acl-asks org (typ ∷ name ∷ x ∷ more) = refl

classify_parts-asks :
    (m : Method) (parts : List Bytes)
    → mutating_method m ≡ true
    → asks_to_write (classify_parts m parts) ≡ true
unfolding classify_parts
classify_parts-asks m [] h = refl
classify_parts-asks m (p ∷ []) h = ground (arith, no_read, writer m, classify_users-asks m [])
classify_parts-asks m (p ∷ org ∷ rest) h = elim (Option-cases (before_acl rest)) [
  | inl e ↦ ground (arith, classify_users-asks m (org ∷ rest), classify_org-asks m org rest)
  | inr (obj, e) ↦ ground (arith, classify_users-asks m (org ∷ rest), classify_acl-asks org obj)
]

-- A request that creates, changes or deletes anything never gets by on the permission to read.
pub classify_request-asks :
    (m : Method) (path : Bytes) (check : Check)
    → mutating_method m ≡ true
    → classify_request m path ≡ some check
    → (check.perm == lit "read") ≡ false
unfolding classify_request
classify_request-asks m path check h e = ground (arith, classify_parts-asks m (path_parts path))
