-- ===== src/Orgs/Tests.antt =====
-- Requests on the users of an organisation at small inputs, and the theorems at them.
use cinc_server_ng.Prelude.{
  ℕ, ◌≡◌, refl, ap, ◌∙◌, arith, Bool, true, false, none, some, List, [], ◌∷◌, ◌++◌, Bytes, lit,
  ◌==◌, eq_refl, length, get-set, get-empty, empty_map, Result, ok, if◌then◌else◌,
}
use cinc_server_ng.Store.Memory.{
  put_object, set_object, get_object, has_org, create_org, new_memory,
}
use cinc_server_ng.Store.Memory.Laws.{same_path, get-new_memory, get-create_org}
use cinc_server_ng.Store.Facade.{
  new_store, create_organization, put, Store, note, note_write, emit, get_value,
}
use cinc_server_ng.Store.Reads.{get-put}
use cinc_server_ng.Search.Json.{text, Members, no_members, member, get_member}
use cinc_server_ng.Search.Results.Window.{take, drop}
use cinc_server_ng.Groups.Codec.{Codec, as_text}
use cinc_server_ng.Orgs.Answer.{in_org}
use cinc_server_ng.Orgs.Invites.{
  assoc_coll, assoc_req_coll, invite_id, invite_doc, create_invite, create_invite_in,
  inviter_authorized, invitation_self_allowed,
}
use cinc_server_ng.Orgs.Invites.Found.{IsOnlyIn}
use cinc_server_ng.Orgs.Requests.{OrgRequest, handle}
use cinc_server_ng.Orgs.Requests.Accepted.{Accepts, create_invite-accept}
use cinc_server_ng.Orgs.Associations.{associate_user, associate_user_in}
use cinc_server_ng.Orgs.Requests.{associate}
use cinc_server_ng.Orgs.Requests.Accepted.{get-join_org}
use cinc_server_ng.Orgs.Requests.Joined.{IsNew, IsJoining, handle-joins}

-- A toy in place of JSON: the texts of a document one after the other, each behind its length.
abbrev encode_texts : Members → Bytes
encode_texts no_members = []
encode_texts (member k v ms) = length (as_text (some v)) ∷ (as_text (some v) ++ encode_texts ms)

abbrev next_text : Bytes → Bytes
next_text [] = []
next_text (n ∷ s) = take n s

abbrev later_texts : Bytes → Bytes
later_texts [] = []
later_texts (n ∷ s) = drop n s

-- the second text is the user, and the fourth the inviter
abbrev text_at : Bytes → Bytes → Result Bytes Bytes
text_at field s = ok (
    if field == lit "username"
    then next_text (later_texts s)
    else next_text (later_texts (later_texts (later_texts s))))

abbrev toy : Codec
toy = record { encode = encode_texts; decode = λ s. ok no_members; decode_text = text_at }

take_append : (v s : Bytes) → take (length v) (v ++ s) ≡ v
take_append [] s = refl
take_append (c ∷ v) s = ap (λ t. c ∷ t) (take_append v s)

drop_append : (v s : Bytes) → drop (length v) (v ++ s) ≡ s
drop_append [] s = refl
drop_append (c ∷ v) s = drop_append v s

toy_law :
    (org user inviter : Bytes)
    → (toy.decode_text (lit "username") (toy.encode (invite_doc user org inviter)) ≡ ok user)
      × (toy.decode_text (lit "inviter") (toy.encode (invite_doc user org inviter)) ≡ ok inviter)
unfolding invite_doc lit ◌==◌
toy_law org user inviter = simp (take_append, drop_append) (refl, refl)

abbrev acme : Bytes
acme = lit "acme"

abbrev ann : Bytes
ann = lit "ann"

abbrev founded : Store ℕ
founded = (create_organization acme (new_store 0)).1

abbrev empty_store : Store ℕ
empty_store = new_store 0

abbrev here : Store ℕ
here = put [] (lit "users") ann (lit "{}") founded

no_one : Bytes → List Bytes × List Bytes × List Bytes
no_one raw = ([], [], [])

in_here :
    (o c k : Bytes)
    → get_object here.backend o c k
      ≡ (if same_path [] (lit "users") ann o c k then some (lit "{}") else none)
unfolding create_organization new_store
in_here o c k =
    get-put [] (lit "users") ann (lit "{}") o c k founded
    ∙ ground (arith, get-create_org new_memory acme o c k, get-new_memory o c k)

abbrev invite_ann : Members
invite_ann = member (lit "user") (text ann) no_members

acme_has_no : (c k : Bytes) → get_object here.backend acme c k ≡ none
unfolding lit ◌==◌
acme_has_no c k = in_here acme c k ∙ ground (arith)

ann_is_known : get_object here.backend [] (lit "users") ann ≡ some (lit "{}")
ann_is_known =
    in_here [] (lit "users") ann ∙ ground (arith, eq_refl [], eq_refl (lit "users"), eq_refl ann)

acme_is_there : has_org here.backend acme ≡ true
unfolding create_organization new_store has_org create_org new_memory put note note_write emit
    put_object set_object
acme_is_there =
    ground
      (arith, get-set {V = Bool} empty_map acme acme true, get-empty {V = Bool} acme, eq_refl acme)

ann_is_invited : (create_invite toy [] acme none (some invite_ann) here).0.status ≡ 201
unfolding create_invite in_org create_invite_in get_value get_member ◌==◌ lit
ann_is_invited = ground (
  arith,
  acme_is_there,
  ann_is_known,
  acme_has_no assoc_coll ann,
  acme_has_no assoc_req_coll (invite_id ann acme),
)

only_acme : IsOnlyIn toy acme ann (invite_id ann acme) here.backend
unfolding assoc_req_coll lit ◌==◌
only_acme other v e f =
    let apart : (lit "users" == assoc_req_coll) ≡ false = refl in
    let none_here : get_object here.backend other assoc_req_coll (invite_id ann acme) ≡ none =
      in_here other assoc_req_coll (invite_id ann acme) ∙ ground (arith) in
    cc

anyone_may :
    (inviter_authorized toy acme [] (create_invite toy [] acme none (some invite_ann) here).1).0
    ≡ ok true
unfolding inviter_authorized ◌==◌
anyone_may = refl

create_invite-accept_example :
    Accepts toy none acme ann
      (invite_id ann acme)
      (create_invite toy [] acme none (some invite_ann) here).1
unfolding get_member lit ◌==◌ invitation_self_allowed
create_invite-accept_example =
    create_invite-accept toy [] acme none none invite_ann here (toy_law acme) only_acme refl
      ann_is_invited anyone_may

abbrev associate_ann : OrgRequest
associate_ann = associate [] acme (some (member (lit "username") (text ann) no_members))

-- the store after the reads of the handler
abbrev read_twice : Store ℕ
read_twice = (get_value acme assoc_coll ann (get_value [] (lit "users") ann here).1).1

ann-IsNew : IsNew toy acme ann here (handle toy no_one associate_ann here).1
unfolding handle associate_user in_org associate_user_in get_value get_member ◌==◌ lit
ann-IsNew = (
  acme_has_no assoc_coll ann,
  ground (
    arith,
    acme_is_there,
    ann_is_known,
    acme_has_no assoc_coll ann,
    get-join_org toy acme ann acme ann read_twice,
    eq_refl acme,
    eq_refl ann,
    eq_refl assoc_coll,
  ),
)

handle-joins_example : IsJoining toy associate_ann acme ann here
handle-joins_example = handle-joins toy no_one associate_ann acme ann here ann-IsNew
