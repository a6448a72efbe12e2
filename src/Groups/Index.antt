-- ===== src/Groups/Index.antt =====
-- internal/api/groupindex.go: the reverse index of group membership and its expansion. `members` is
-- indexMembers, which decodes a group's JSON document into its users, clients and groups.
pub mod Reach
use cinc_server_ng.Prelude.{
  ℕ, zero, suc, ◌+◌, Bool, true, false, Option, none, some, List, [], ◌∷◌, ◌++◌, Bytes, lit, ◌==◌,
  contains, length, map, entries, Map, empty_map, get_or, set, if◌then◌else◌,
}
use cinc_server_ng.Store.Memory.{range}
use cinc_server_ng.Store.Facade.{Store, groups_coll, range_store}
use cinc_server_ng.Groups.Members.{group_members_coll, split_member_key}

pub record GroupIndex : Type 0 where
  pub gen : ℕ
  pub users : Map (List Bytes)
  pub clients : Map (List Bytes)
  pub nests : Map (List Bytes)

-- m[k] = append(m[k], group), for each of the keys
unfoldable pub append_to : Bytes → List Bytes → Map (List Bytes) → Map (List Bytes)
append_to group [] m = m
append_to group (k ∷ ks) m = append_to group ks (set m k (get_or m k [] ++ group ∷ []))

-- addAll
unfoldable pub add_document : Bytes → List Bytes × List Bytes × List Bytes → GroupIndex → GroupIndex
unfolding append_to
add_document group (us, cs, gs) idx = record idx {
  users = append_to group us idx.users;
  clients = append_to group cs idx.clients;
  nests = append_to group gs idx.nests;
}

-- into[actor] = append(into[actor], group), unless it is there
unfoldable pub append_new : Bytes → Bytes → Map (List Bytes) → Map (List Bytes)
append_new group actor m =
    if contains (get_or m actor []) group then m else set m actor (get_or m actor [] ++ group ∷ [])

-- addOne
unfoldable pub add_row : Bytes → Bytes → Bytes → GroupIndex → GroupIndex
unfolding append_new
add_row group kind actor idx =
    if kind == lit "users"
    then record idx { users = append_new group actor idx.users }
    else if kind == lit "clients"
    then record idx { clients = append_new group actor idx.clients }
    else if kind == lit "groups"
    then record idx { nests = append_new group actor idx.nests }
    else idx

abbrev read_row : Bytes → Bytes → GroupIndex → Bool × GroupIndex
read_row key raw idx = (
  true,
  elim (split_member_key key) [
    | none ↦ idx
    | some (group, kind, actor) ↦ add_row group kind actor idx
  ],
)

module _ (members : Bytes → List Bytes × List Bytes × List Bytes) where
  abbrev read_document : Bytes → Bytes → GroupIndex → Bool × GroupIndex
  read_document name raw idx = (true, add_document name (members raw) idx)

  -- buildGroupIndex
  unfoldable pub build_group_index : {W : Type 0} → Bytes → Store W → GroupIndex × Store W
  unfolding add_document add_row
  build_group_index org s =
      let start : GroupIndex = record {
        gen = s.groups_gen;
        users = empty_map;
        clients = empty_map;
        nests = empty_map;
      } in
      let (documents, t) = range_store org groups_coll read_document start s in
      range_store org group_members_coll read_row documents t

-- The queue behind the index i, and the map `member` as the list of its keys.
abbrev pub Walk : Type 0
Walk = List Bytes × List Bytes

-- the closure `add`
unfoldable pub add_name : Bytes → Walk → Walk
add_name g (queue, member) =
    if contains member g then (queue, member) else (queue ++ g ∷ [], g ∷ member)

unfoldable pub add_names : List Bytes → Walk → Walk
unfolding add_name
add_names [] w = w
add_names (g ∷ gs) w = add_names gs (add_name g w)

-- the loop over the queue
unfoldable pub walk : ℕ → Map (List Bytes) → Walk → Option (List Bytes)
unfolding add_names
walk fuel nests ([], member) = some member
walk zero nests (g ∷ queue, member) = none
walk (suc fuel) nests (g ∷ queue, member) =
    walk fuel nests (add_names (get_or nests g []) (queue, member))

-- every name that the loop can add
unfoldable pub outers : List (Bytes × List Bytes) → List Bytes
outers [] = []
outers ((g, os) ∷ rest) = os ++ outers rest

-- membership, from the groups that list the actor
unfoldable pub membership : Map (List Bytes) → List Bytes → Option (List Bytes)
unfolding walk outers
membership nests direct =
    walk (length direct + length (outers (entries nests))) nests (add_names direct ([], []))

-- membership of an actor; `is_client` is actor.IsClient.
unfoldable pub actor_membership : GroupIndex → Bool → Bytes → Option (List Bytes)
unfolding membership
actor_membership idx is_client name =
    membership idx.nests (get_or (if is_client then idx.clients else idx.users) name [])
