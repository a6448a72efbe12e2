-- ===== src/Groups/Members.antt =====
-- internal/api/groupmembers.go: one row for each group, kind and actor, in a collection of the store.
pub mod Rows
use cinc_server_ng.Prelude.{
  ℕ, Bool, true, false, Option, none, some, List, [], ◌∷◌, ◌++◌, Bytes, lit, split, has_prefix,
  has_suffix, if◌then◌else◌,
}
use cinc_server_ng.Store.Facade.{Store, put, delete_value, range_store}

-- groupMembersColl
unfoldable pub group_members_coll : Bytes
group_members_coll = lit "group_members"

-- memberKey
unfoldable pub member_key : Bytes → Bytes → Bytes → Bytes
member_key group kind actor = group ++ 0 ∷ (kind ++ 0 ∷ actor)

abbrev pub three : List Bytes → Option (Bytes × Bytes × Bytes)
three (group ∷ kind ∷ actor ∷ []) = some (group, kind, actor)
three _ = none

-- splitMemberKey
unfoldable pub split_member_key : Bytes → Option (Bytes × Bytes × Bytes)
split_member_key key = three (split key 0)

-- the callback that collects the keys that pass a test
unfoldable pub collect : (Bytes → Bool) → Bytes → Bytes → List Bytes → Bool × List Bytes
collect test key raw keys = (true, if test key then keys ++ key ∷ [] else keys)

module _ {W : Type 0} where
  -- addMember
  unfoldable pub add_member : Bytes → Bytes → Bytes → Bytes → Store W → Store W
  unfolding member_key group_members_coll
  add_member org group kind actor s =
      put org group_members_coll (member_key group kind actor) (lit "{}") s

  -- the loop that deletes the keys
  unfoldable pub delete_keys : Bytes → List Bytes → Store W → Store W
  delete_keys org [] s = s
  delete_keys org (key ∷ keys) s =
      delete_keys org keys (delete_value org group_members_coll key s).1

  -- the scan and the loop
  unfoldable pub delete_rows : Bytes → (Bytes → Bool) → Store W → Store W
  unfolding collect delete_keys
  delete_rows org test s =
      let (keys, t) = range_store org group_members_coll (collect test) [] s in
      delete_keys org keys t

  -- clearMembers
  unfoldable pub clear_members : Bytes → Bytes → Store W → Store W
  unfolding delete_rows
  clear_members org group s = delete_rows org (λ key. has_prefix key (group ++ 0 ∷ [])) s

  -- removeMemberRows
  unfoldable pub remove_member_rows : Bytes → Bytes → Bytes → Store W → Store W
  unfolding delete_rows
  remove_member_rows org kind actor s =
      delete_rows org (λ key. has_suffix key (0 ∷ (kind ++ 0 ∷ actor))) s
