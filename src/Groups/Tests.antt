-- ===== src/Groups/Tests.antt =====
-- internal/api/groupmembers.go and groupindex.go on small inputs, and the theorems at them.
use cinc_server_ng.Prelude.{
  ◌≡◌, ◌&&◌, some, none, List, [], ◌∷◌, Bytes, lit, ◌==◌, if◌then◌else◌, IsFree, arith, ℕ, Map,
  empty_map, set, contains, true, ◌↔◌,
}
use cinc_server_ng.Store.Memory.{get_object}
use cinc_server_ng.Store.Facade.{Store, new_store}
use cinc_server_ng.Groups.Index.{membership}
use cinc_server_ng.Groups.Index.Reach.{Reach, membership-Reach}
use cinc_server_ng.Groups.Members.{
  group_members_coll, member_key, split_member_key, add_member, clear_members, remove_member_rows,
}
use cinc_server_ng.Groups.Members.Rows.{
  split_member_key-member_key, get-clear_members, get-remove_member_rows,
}

IsFree-admins : IsFree 0 (lit "admins")
unfolding lit
IsFree-admins =
    (omega arith, (omega arith, (omega arith, (omega arith, (omega arith, (omega arith, tt))))))

IsFree-users : IsFree 0 (lit "users")
unfolding lit
IsFree-users = (omega arith, (omega arith, (omega arith, (omega arith, (omega arith, tt)))))

IsFree-ann : IsFree 0 (lit "ann")
unfolding lit
IsFree-ann = (omega arith, (omega arith, (omega arith, tt)))

abbrev joined : Store ℕ
joined = add_member (lit "acme") (lit "admins") (lit "users") (lit "ann") (new_store 0)

split_member_key-member_key_example :
    split_member_key (member_key (lit "admins") (lit "users") (lit "ann"))
    ≡ some (lit "admins", lit "users", lit "ann")
split_member_key-member_key_example =
    split_member_key-member_key (lit "admins") (lit "users") (lit "ann") IsFree-admins IsFree-users
      IsFree-ann

get-clear_members_example :
    get_object
      (clear_members (lit "acme") (lit "admins") joined).backend
      (lit "acme")
      group_members_coll
      (member_key (lit "admins") (lit "users") (lit "ann"))
    ≡ (if lit "admins" == lit "admins"
        then none
        else get_object joined.backend
            (lit "acme")
            group_members_coll
            (member_key (lit "admins") (lit "users") (lit "ann")))
get-clear_members_example =
    get-clear_members joined (lit "acme") (lit "admins") (lit "admins") (lit "users") (lit "ann")
      IsFree-admins IsFree-admins

get-remove_member_rows_example :
    get_object
      (remove_member_rows (lit "acme") (lit "users") (lit "ann") joined).backend
      (lit "acme")
      group_members_coll
      (member_key (lit "admins") (lit "users") (lit "ann"))
    ≡ (if lit "users" == lit "users" && lit "ann" == lit "ann"
        then none
        else get_object joined.backend
            (lit "acme")
            group_members_coll
            (member_key (lit "admins") (lit "users") (lit "ann")))
get-remove_member_rows_example =
    get-remove_member_rows joined (lit "acme") (lit "users") (lit "ann") (lit "admins")
      (lit "users") (lit "ann") IsFree-users IsFree-admins IsFree-users IsFree-ann

-- Two groups that list each other.
abbrev cycle : Map (List Bytes)
cycle = set (set empty_map (lit "admins") (lit "ops" ∷ [])) (lit "ops") (lit "admins" ∷ [])

membership-Reach_example :
    (ms : List Bytes) × (membership cycle (lit "admins" ∷ []) ≡ some ms)
    × ((g : Bytes) → (contains ms g ≡ true) ↔ Reach cycle (lit "admins" ∷ []) g)
membership-Reach_example = membership-Reach cycle (lit "admins" ∷ [])
