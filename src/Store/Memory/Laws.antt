-- ===== src/Store/Memory/Laws.antt =====
-- What a read of the in-memory backend finds after each operation that writes.
use cinc_server_ng.Prelude.{
  inner, get_or-set, get_or-delete, get_or-empty, ◌≡◌, refl, ap, Bool, ◌&&◌, not, none, some, arith,
  Bytes, ◌==◌, eq_iff, Map, get, get-set, get-delete, get-empty, if◌then◌else◌, is_some, empty_map,
  set, delete,
}
use cinc_server_ng.Store.Memory.{
  Memory, conflict, new_memory, get_object, set_object, create_object, delete_object, put_blob,
  delete_blob, has_org, create_org, delete_org,
}

-- The path (org, coll, key) names the object at (o, c, k).
abbrev pub same_path : Bytes → Bytes → Bytes → Bytes → Bytes → Bytes → Bool
same_path org coll key o c k = org == o && coll == c && key == k

-- What a write of one object's map of keys shows at any path.
get-set_keys :
    (d : Map (Map (Map Bytes))) (org coll : Bytes) (ks : Map Bytes) (o c k : Bytes)
    → get (inner (inner (set d org (set (inner d org) coll ks)) o) c) k
      ≡ (if org == o && coll == c then get ks k else get (inner (inner d o) c) k)
get-set_keys d org coll ks o c k =
    rw (get_or-set d org o (set (inner d org) coll ks) empty_map)
      (ground (arith, eq_iff org o, get_or-set (inner d org) coll c ks empty_map))

module _ (m : Memory) (org coll key : Bytes) (o c k : Bytes) where
  pub get-set_object :
      (val : Bytes)
      → get_object (set_object m org coll key val) o c k
        ≡ (if same_path org coll key o c k then some val else get_object m o c k)
  unfolding get_object set_object
  get-set_object val = rw get-set_keys (
      ground
        (arith, eq_iff org o, eq_iff coll c, get-set (inner (inner m.data_of org) coll) key k val))

  -- After Delete of an object, Get finds nothing at its path, and at any other path what was there.
  pub get-delete_object :
      get_object (delete_object m org coll key).1 o c k
      ≡ (if same_path org coll key o c k then none else get_object m o c k)
  unfolding get_object delete_object
  get-delete_object =
      let ks = inner (inner m.data_of org) coll in
      ground (
        arith,
        eq_iff org o,
        eq_iff coll c,
        eq_iff key k,
        get-delete ks key k,
        get-set_keys m.data_of org coll (delete ks key) o c k,
      )

  -- After DeleteOrg of an organisation that exists, Get finds none of its objects, and any other
  -- object as before; where the organisation does not exist nothing changes.
  pub get-delete_org :
      get_object (delete_org m org).1 o c k
      ≡ (if has_org m org && org == o then none else get_object m o c k)
  unfolding get_object delete_org
  get-delete_org = ground (
    arith,
    get_or-delete m.data_of org o empty_map,
    ap (λ colls. get (inner colls c) k) (get_or-delete m.data_of org o empty_map),
    get_or-empty {V = Map Bytes} c empty_map,
    get-empty {V = Bytes} k,
  )

  -- After Create, Get finds the new value at the path if it was free, and otherwise, there and at any
  -- other path, what was there.
  pub get-create_object :
      (val : Bytes)
      → get_object (create_object m org coll key val).1 o c k ≡ (
          if same_path org coll key o c k && not (is_some (get_object m org coll key))
          then some val
          else get_object m o c k)
  unfolding create_object set_object
  get-create_object val = ground (arith, get-set_object val)

module _ (m : Memory) (org coll key : Bytes) where
  pub create_object-conflict :
      (val : Bytes)
      → (create_object m org coll key val).0
        ≡ (if is_some (get_object m org coll key) then some conflict else none)
  unfolding create_object
  create_object-conflict val = ground arith

  pub delete_object-value : (delete_object m org coll key).0 ≡ get_object m org coll key
  unfolding delete_object
  delete_object-value = ground arith

  pub delete_org-existed : (delete_org m org).0 ≡ has_org m org
  unfolding delete_org
  delete_org-existed = ground arith

pub get-new_memory : (o c k : Bytes) → get_object new_memory o c k ≡ none
unfolding get_object new_memory
get-new_memory o c k = simp (get_or-empty, get-empty)

-- The organisations and the blobs are apart from the objects.
module _ (m : Memory) (name : Bytes) where
  pub get-create_org : (o c k : Bytes) → get_object (create_org m name).1 o c k ≡ get_object m o c k
  unfolding create_org get_object
  get-create_org o c k = ground arith

  pub get-put_blob :
      (checksum content o c k : Bytes)
      → get_object (put_blob m name checksum content) o c k ≡ get_object m o c k
  unfolding put_blob get_object
  get-put_blob checksum content o c k = refl

  pub get-delete_blob :
      (checksum o c k : Bytes) → get_object (delete_blob m name checksum) o c k ≡ get_object m o c k
  unfolding delete_blob get_object
  get-delete_blob checksum o c k = ground arith
