-- ===== src/Orgs/Requests/Tests.antt =====
-- Removing a user from an organisation of internal/api/association.go, at a small input.
use cinc_server_ng.Prelude.{
  ℕ, zero, suc, ◌≡◌, refl, ap, ◌∙◌, arith, Bool, true, false, none, some, List, [], ◌∷◌, ◌++◌,
  append_assoc, Bytes, lit, ◌==◌, eq_refl, length, any, inl, inr, Bool-cases, contains, Map, get,
  get_or-empty, entries, empty_map, get-set, get-empty, any-entries_sound, inner, ok, if◌then◌else◌,
}
use cinc_server_ng.Store.Memory.{
  Memory, get_object, has_org, create_org, new_memory, put_object, set_object, range, range_loop,
}
use cinc_server_ng.Store.Memory.Laws.{same_path, get-new_memory, get-create_org}
use cinc_server_ng.Store.Facade.{
  Store, new_store, create_organization, put, note, note_write, emit, get_value, range_store,
  groups_coll,
}
use cinc_server_ng.Store.Reads.{get-put}
use cinc_server_ng.Search.Json.{get_member}
use cinc_server_ng.Search.Results.Window.{take, drop}
use cinc_server_ng.Groups.Codec.{Codec, json_strings, item_strings-strings_json}
use cinc_server_ng.Groups.Index.{
  GroupIndex, build_group_index, actor_membership, membership, walk, add_names,
}
use cinc_server_ng.Groups.Members.{group_members_coll}
use cinc_server_ng.Groups.Documents.{Membership, group_members, group_json, group_membership}
use cinc_server_ng.Groups.Documents.Revoked.{IsFaithful}
use cinc_server_ng.Orgs.Answer.{in_org}
use cinc_server_ng.Orgs.Invites.{assoc_coll}
use cinc_server_ng.Orgs.Associations.{groups_of_user, disassociate_user, disassociate_user_in}
use cinc_server_ng.Orgs.Requests.Left.{disassociate_user-leaves}

-- A toy in place of JSON: each list behind its length, and each text in it behind its own.
abbrev encode_texts : List Bytes → Bytes
encode_texts [] = []
encode_texts (s ∷ ss) = length s ∷ (s ++ encode_texts ss)

abbrev block : List Bytes → Bytes
block ss = length ss ∷ encode_texts ss

abbrev encode_group : Membership → Bytes
encode_group m = block m.users ++ (block m.clients ++ (block m.groups ++ []))

abbrev decode_texts : ℕ → Bytes → List Bytes × Bytes
decode_texts zero s = ([], s)
decode_texts (suc n) [] = ([], [])
decode_texts (suc n) (l ∷ s) = let (ss, rest) = decode_texts n (drop l s) in (take l s ∷ ss, rest)

abbrev decode_block : Bytes → List Bytes × Bytes
decode_block [] = ([], [])
decode_block (n ∷ s) = decode_texts n s

abbrev decode_group : Bytes → Membership
decode_group s =
    let (us, r) = decode_block s in
    let (cs, t) = decode_block r in record { users = us; clients = cs; groups = (decode_block t).0 }

toy : Codec
unfolding group_members group_json
toy = record {
  encode = λ ms. encode_group (group_members ms);
  decode = λ s. ok (group_json [] [] (decode_group s));
  decode_text = λ field s. ok [];
}

take_append : (v s : Bytes) → take (length v) (v ++ s) ≡ v
take_append [] s = refl
take_append (c ∷ v) s = ap (λ t. c ∷ t) (take_append v s)

drop_append : (v s : Bytes) → drop (length v) (v ++ s) ≡ s
drop_append [] s = refl
drop_append (c ∷ v) s = drop_append v s

decode_texts-encode_texts :
    (ss : List Bytes) (r : Bytes) → decode_texts (length ss) (encode_texts ss ++ r) ≡ (ss, r)
decode_texts-encode_texts [] r = refl
decode_texts-encode_texts (s ∷ ss) r =
    simp (append_assoc, take_append, drop_append, decode_texts-encode_texts ss r)

decode_group-encode_group : (m : Membership) → decode_group (encode_group m) ≡ m
decode_group-encode_group m = simp (decode_texts-encode_texts)

group_members-group_json :
    (name : Bytes) (m : Membership) → group_members (group_json name [] m) ≡ m
unfolding group_members group_json json_strings get_member lit ◌==◌
group_members-group_json name m = simp (item_strings-strings_json)

toy-IsFaithful : (user : Bytes) → IsFaithful toy user
unfolding toy
toy-IsFaithful user name m =
    let kept = group_members-group_json name m in
    (
      group_json [] [] (decode_group (encode_group (group_members (group_json name [] m)))),
      refl,
      group_members-group_json []
            (decode_group (encode_group (group_members (group_json name [] m))))
          ∙ decode_group-encode_group (group_members (group_json name [] m))
          ∙ kept,
    )

abbrev acme : Bytes
acme = lit "acme"

abbrev ann : Bytes
ann = lit "ann"

abbrev founded : Store ℕ
founded = (create_organization acme (new_store 0)).1

abbrev here : Store ℕ
here = put acme assoc_coll ann (lit "{}") founded

no_one : Bytes → List Bytes × List Bytes × List Bytes
no_one raw = ([], [], [])

in_here :
    (o c k : Bytes)
    → get_object here.backend o c k
      ≡ (if same_path acme assoc_coll ann o c k then some (lit "{}") else none)
unfolding create_organization new_store
in_here o c k =
    get-put acme assoc_coll ann (lit "{}") o c k founded
    ∙ ground (arith, get-create_org new_memory acme o c k, get-new_memory o c k)

acme_is_there : has_org here.backend acme ≡ true
unfolding create_organization new_store has_org create_org new_memory put note note_write emit
    put_object set_object
acme_is_there =
    ground
      (arith, get-set {V = Bool} empty_map acme acme true, get-empty {V = Bool} acme, eq_refl acme)

ann_is_there : get_object here.backend acme assoc_coll ann ≡ some (lit "{}")
ann_is_there =
    in_here acme assoc_coll ann ∙ ground (arith, eq_refl acme, eq_refl assoc_coll, eq_refl ann)

no_groups : (k : Bytes) → get_object here.backend acme groups_coll k ≡ none
unfolding groups_coll assoc_coll lit ◌==◌
no_groups k = in_here acme groups_coll k

no_rows : (k : Bytes) → get_object here.backend acme group_members_coll k ≡ none
unfolding group_members_coll assoc_coll lit ◌==◌
no_rows k = in_here acme group_members_coll k

any_of_all : (es : List (Bytes × Bytes)) → any (λ e. true) es ≡ false → es ≡ []
any_of_all [] h = refl
any_of_all (e ∷ es) h = cc

-- A map in which no key is found has no entries.
no_entries : (m : Map Bytes) → ((k : Bytes) → get m k ≡ none) → entries m ≡ []
no_entries m h = elim (Bool-cases (any (λ e. true) (entries m))) [
  | inr f ↦ any_of_all (entries m) f
  | inl t ↦
      let (k, v, g, _) = any-entries_sound (λ k v. true) m t in
      let gone = h k in absurd (ground (arith))
]

abbrev rows_at : Bytes → Map Bytes
rows_at coll = inner (inner here.backend.data_of acme) coll

empty_groups : entries (rows_at groups_coll) ≡ []
unfolding get_object
empty_groups = no_entries (rows_at groups_coll) no_groups

empty_rows : entries (rows_at group_members_coll) ≡ []
unfolding get_object
empty_rows = no_entries (rows_at group_members_coll) no_rows

abbrev asked : Store ℕ
asked = (get_value acme assoc_coll ann here).1

range_nothing :
    {S : Type 0} (m : Memory) (coll : Bytes) (fn : Bytes → Bytes → S → Bool × S) (a : S)
    → entries (inner (inner m.data_of acme) coll) ≡ []
    → range m acme coll fn a ≡ a
unfolding range range_loop
range_nothing m coll fn a e = ap (λ es. range_loop fn es a) e

abbrev no_index : GroupIndex
no_index = record {
  gen = asked.groups_gen;
  users = empty_map;
  clients = empty_map;
  nests = empty_map;
}

built : (build_group_index no_one acme asked).0 ≡ no_index
unfolding build_group_index range_store get_value
built =
    range_nothing here.backend group_members_coll _ _ empty_rows
    ∙ range_nothing here.backend groups_coll _ no_index empty_groups

none_direct : membership empty_map [] ≡ some []
unfolding membership walk add_names
none_direct = refl

nobody_belongs : actor_membership no_index false ann ≡ some []
unfolding actor_membership
nobody_belongs = ap (membership empty_map) (get_or-empty {V = List Bytes} ann []) ∙ none_direct

in_no_group : (groups_of_user toy no_one acme ann asked).0 ≡ []
unfolding groups_of_user
in_no_group =
    ap (λ idx. elim (actor_membership idx false ann) [ none ↦ [] | some ms ↦ ms ]) built
    ∙ ground (arith, nobody_belongs)

ann_leaves : (disassociate_user toy no_one acme ann here).0.status ≡ 200
unfolding disassociate_user in_org disassociate_user_in get_value
ann_leaves = ground (arith, acme_is_there, ann_is_there, in_no_group)

disassociate_user-leaves_example :
    (get_object (disassociate_user toy no_one acme ann here).1.backend acme assoc_coll ann ≡ none)
    × ((group : Bytes)
        → contains
            (group_membership toy acme group (disassociate_user toy no_one acme ann here).1).0.users
            ann
          ≡ false)
disassociate_user-leaves_example =
    disassociate_user-leaves toy no_one acme ann here (toy-IsFaithful ann) ann_leaves
