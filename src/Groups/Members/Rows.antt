-- ===== src/Groups/Members/Rows.antt =====
-- What the operations on the rows of internal/api/groupmembers.go leave in the store.
use cinc_server_ng.Prelude.{
  ◌≡◌, refl, ◌∙◌, Bool, false, ◌&&◌, ◌||◌, none, some, List, [], ◌∷◌, ◌++◌, any, any-append, arith,
  is_some, Bytes, ◌==◌, eq_refl, eq_iff, contains, Map, get, entries, inner, split-append,
  split_of_IsFree, IsFree, has_prefix, has_suffix, if◌then◌else◌, any-entries-key, any-congr,
  any-and,
}
use cinc_server_ng.Prelude.Separated.{has_prefix_free, has_suffix_free, free_is_no_pair, same_pair}
use cinc_server_ng.Store.Memory.{get_object, range, range_loop}
use cinc_server_ng.Store.Reads.{get-delete_value}
use cinc_server_ng.Store.Facade.{Store, delete_value, range_store}
use cinc_server_ng.Groups.Members.{
  group_members_coll, member_key, split_member_key, collect, delete_keys, delete_rows,
  clear_members, remove_member_rows,
}

-- The parts of a row's key come back from it, if no name has the separator in it.
pub split_member_key-member_key :
    (group kind actor : Bytes)
    → IsFree 0 group
    → IsFree 0 kind
    → IsFree 0 actor
    → split_member_key (member_key group kind actor) ≡ some (group, kind, actor)
unfolding split_member_key member_key
split_member_key-member_key group kind actor g k a =
    rw
      (
        split-append group (kind ++ 0 ∷ actor) 0 g,
        split-append kind actor 0 k,
        split_of_IsFree actor 0 a,
      )
      refl

contains-range_loop :
    (test : Bytes → Bool) (es : List (Bytes × Bytes)) (keys : List Bytes) (k : Bytes)
    → contains (range_loop (collect test) es keys) k
      ≡ (contains keys k || any (λ e. e.0 == k && test e.0) es)
unfolding range_loop collect
contains-range_loop test [] keys k = ground (arith)
contains-range_loop test ((j, v) ∷ es) keys k = ground (
  arith,
  contains-range_loop test es keys k,
  contains-range_loop test es (keys ++ j ∷ []) k,
  any-append (λ x. x == k) keys (j ∷ []),
)

any-entries-test :
    {V : Type 0} (test : Bytes → Bool) (m : Map V) (k : Bytes)
    → any (λ e. e.0 == k && test e.0) (entries m) ≡ (test k && is_some (get m k))
any-entries-test test m k =
    any-congr (λ e. e.0 == k && test e.0) (λ e. test k && e.0 == k) (entries m)
      (λ e. ground (arith, eq_iff e.0 k))
    ∙ ground (arith, any-and (test k) (λ e. e.0 == k) (entries m), any-entries-key m k)

module _ {W : Type 0} where
  get-delete_keys :
      (org : Bytes) (keys : List Bytes) (k : Bytes) (s : Store W)
      → get_object (delete_keys org keys s).backend org group_members_coll k
        ≡ (if contains keys k then none else get_object s.backend org group_members_coll k)
  unfolding delete_keys
  get-delete_keys org [] k s = refl
  get-delete_keys org (j ∷ keys) k s = ground (
    arith,
    get-delete_keys org keys k (delete_value org group_members_coll j s).1,
    get-delete_value org group_members_coll j org group_members_coll k s,
    eq_refl org,
    eq_refl group_members_coll,
  )

  -- After the scan and the loop, exactly the rows whose key passes the test are gone.
  pub get-delete_rows :
      (org : Bytes) (test : Bytes → Bool) (k : Bytes) (s : Store W)
      → get_object (delete_rows org test s).backend org group_members_coll k
        ≡ (if test k then none else get_object s.backend org group_members_coll k)
  unfolding delete_rows range_store range get_object
  get-delete_rows org test k s =
      let rows = inner (inner s.backend.data_of org) group_members_coll in
      let keys = range_loop (collect test) (entries rows) [] in
      ground (
        arith,
        get-delete_keys org keys k (range_store org group_members_coll (collect test) [] s).1,
        contains-range_loop test (entries rows) [] k,
        any-entries-test test rows k,
      )

module _ {W : Type 0} (s : Store W) (org group : Bytes) where
  -- Clearing a group's rows takes out exactly the rows of that group, also beside a group whose name
  -- begins with its name, if no group's name has the separator in it.
  pub get-clear_members :
      (other kind actor : Bytes)
      → IsFree 0 group
      → IsFree 0 other
      → get_object
          (clear_members org group s).backend
          org
          group_members_coll
          (member_key other kind actor)
        ≡ (if other == group
            then none
            else get_object s.backend org group_members_coll (member_key other kind actor))
  unfolding clear_members member_key
  get-clear_members other kind actor g o =
      get-delete_rows org (λ key. has_prefix key (group ++ 0 ∷ [])) (member_key other kind actor) s
      ∙ ground (arith, has_prefix_free group other (kind ++ 0 ∷ actor) g o)

module _ (kind actor : Bytes) (t u : Bytes) where
  -- one separator is too few
  has_suffix_one :
      IsFree 0 actor
      → (x : Bytes) → IsFree 0 x
      → has_suffix (x ++ 0 ∷ actor) (0 ∷ (t ++ 0 ∷ u)) ≡ false
  unfolding has_suffix ◌==◌
  has_suffix_one a [] h =
      ground (arith, free_is_no_pair actor t u a, has_suffix_free actor (t ++ 0 ∷ u) a)
  has_suffix_one a (c ∷ x) (p, h) = ground (arith, has_suffix_one a x h)

  has_suffix_row :
      IsFree 0 kind
      → IsFree 0 actor
      → IsFree 0 t
      → (group : Bytes) → IsFree 0 group
      → has_suffix (group ++ 0 ∷ (kind ++ 0 ∷ actor)) (0 ∷ (t ++ 0 ∷ u)) ≡ (kind == t && actor == u)
  unfolding has_suffix ◌==◌
  has_suffix_row k a f [] g = ground (arith, has_suffix_one a kind k, same_pair kind actor t u k f)
  has_suffix_row k a f (c ∷ group) (p, g) = ground (arith, has_suffix_row k a f group g)

module _ {W : Type 0} (s : Store W) (org kind actor : Bytes) where
  -- Revoking an actor takes out exactly its rows of the kind, in every group, if no name has the
  -- separator in it.
  pub get-remove_member_rows :
      (group k a : Bytes)
      → IsFree 0 kind
      → IsFree 0 group
      → IsFree 0 k
      → IsFree 0 a
      → get_object
          (remove_member_rows org kind actor s).backend
          org
          group_members_coll
          (member_key group k a)
        ≡ (if k == kind && a == actor
            then none
            else get_object s.backend org group_members_coll (member_key group k a))
  unfolding remove_member_rows member_key
  get-remove_member_rows group k a fk fg f fa =
      get-delete_rows org (λ key. has_suffix key (0 ∷ (kind ++ 0 ∷ actor))) (member_key group k a) s
      ∙ ground (arith, has_suffix_row k a kind actor f fa fk group fg)
