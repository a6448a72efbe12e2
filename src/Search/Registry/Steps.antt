-- ===== src/Search/Registry/Steps.antt =====
-- Each operation of the store, as the registry of internal/api/searchindex.go sees it.
use cinc_server_ng.Prelude.{
  ◌≡◌, refl, true, false, Option, none, some, [], ◌∷◌, ◌++◌, arith, Bytes, ◌==◌, eq_iff, eq_refl,
  IsFree, if◌then◌else◌, Option-cases, Bool-cases, inl, inr,
}
use cinc_server_ng.Prelude.Separated.{has_prefix_free}
use cinc_server_ng.Store.Memory.{
  Memory, get_object, put_object, create_object, delete_object, delete_org,
}
use cinc_server_ng.Store.Memory.Laws.{
  same_path, get-set_object, get-delete_object, get-create_object, get-delete_org,
  create_object-conflict, delete_object-value, delete_org-existed, get-create_org, get-put_blob,
  get-delete_blob,
}
use cinc_server_ng.Store.Watch.{Event, deliver, emit_direct}
use cinc_server_ng.Store.Facade.{
  Op, create_op, put_op, get_op, delete_op, create_org_op, delete_org_op, put_blob_op,
  delete_blob_op,
}
use cinc_server_ng.Store.Tx.{reports}
use cinc_server_ng.Store.Direct.{backend_after}
use cinc_server_ng.Search.Json.{Members}
use cinc_server_ng.Search.Index.{remove}
use cinc_server_ng.Search.Index.Merge.{merge-remove}
use cinc_server_ng.Search.Registry.{Registry, index_key, drop_org, put_raw, observe}
use cinc_server_ng.Search.Registry.Shows.{remove-Shows, put_raw-Shows, merge-put_raw, Shows-of_same}
use cinc_server_ng.Search.Registry.Current.{
  get-drop_org, IsCurrent, IsCurrent-of_same, updated-IsCurrent,
}

-- The operation names a collection, and an organisation whose name is free of the separator.
abbrev pub IsClean : Op → Type 0
IsClean (create_op org coll key val) = ((coll == []) ≡ false) × IsFree 0 org
IsClean (put_op org coll key val) = ((coll == []) ≡ false) × IsFree 0 org
IsClean (delete_op org coll key) = ((coll == []) ≡ false) × IsFree 0 org
IsClean (delete_org_op name) = IsFree 0 name
IsClean _ = Unit

module _ (to_lower : Bytes → Bytes) (decode : Bytes → Option Members) where
  abbrev see : Event → Registry → Registry
  see = observe to_lower decode

  module _ (r : Registry) (m m' : Memory) (org coll key : Bytes) (named : (coll == []) ≡ false)
      (free : IsFree 0 org) (i : IsCurrent to_lower decode r m) where
    write-IsCurrent :
        (val : Bytes)
        → ((o c k : Bytes)
            → get_object m' o c k
              ≡ (if same_path org coll key o c k then some val else get_object m o c k))
        → IsCurrent to_lower decode
            (see
              (record {
                org = org;
                collection = coll;
                key = key;
                value = some val;
                deleted = false;
              })
              r)
            m'
    unfolding observe
    write-IsCurrent val h =
        updated-IsCurrent to_lower decode r m m' org coll (put_raw to_lower decode key val)
          (λ c s.
            put_raw-Shows to_lower decode (λ id. get_object m org coll id)
              (λ id. get_object m' org coll id) key val c
              (λ j. ground (arith, h org coll j, eq_refl org, eq_refl coll)) s)
          (merge-put_raw to_lower decode key val) (λ o c k n. ground (arith, h o c k)) free i

    removal-IsCurrent :
        ((o c k : Bytes)
          → get_object m' o c k
            ≡ (if same_path org coll key o c k then none else get_object m o c k))
        → IsCurrent to_lower decode
            (see
              (record { org = org; collection = coll; key = key; value = none; deleted = true })
              r)
            m'
    unfolding observe
    removal-IsCurrent h =
        IsCurrent-of_same to_lower decode _ _ m' m'
          (updated-IsCurrent to_lower decode r m m' org coll (remove key)
            (λ c s.
              remove-Shows to_lower decode (λ id. get_object m org coll id)
                (λ id. get_object m' org coll id) key c
                (λ j. ground (arith, h org coll j, eq_refl org, eq_refl coll)) s)
            (merge-remove key) (λ o c k n. ground (arith, h o c k)) free i)
          (ground (arith)) (λ o c k. refl)

  drop-IsCurrent :
      (r : Registry) (m m' : Memory) (org : Bytes)
      → IsFree 0 org
      → ((o c k : Bytes) → get_object m' o c k ≡ (if org == o then none else get_object m o c k))
      → IsCurrent to_lower decode r m
      → IsCurrent to_lower decode (drop_org org r) m'
  unfolding index_key
  drop-IsCurrent r m m' org free h i = record {
    shows = λ o c idx fo e.
        let (s, g) =
          i.shows o c idx fo
            (ground (arith, get-drop_org org r (o ++ 0 ∷ c), has_prefix_free org o c free fo)) in
        (
          Shows-of_same to_lower decode (λ id. get_object m o c id) (λ id. get_object m' o c id) idx
              (λ id. ground (
                arith,
                h o c id,
                get-drop_org org r (o ++ 0 ∷ c),
                has_prefix_free org o c free fo,
                eq_iff org o,
                eq_iff o org,
              ))
              s,
          g,
        );
  }

  put_lem :
      (m : Memory) (org coll key val o c k : Bytes)
      → get_object (put_object m org coll key val) o c k
        ≡ (if same_path org coll key o c k then some val else get_object m o c k)
  unfolding put_object
  put_lem m org coll key val o c k = get-set_object m org coll key o c k val

  drop_lem :
      (m : Memory) (name : Bytes) (r : Registry)
      → (delete_org m name).0 ≡ true
      → deliver (see ∷ []) (reports (delete_org_op name) m) r ≡ drop_org name r
  unfolding deliver emit_direct observe
  drop_lem m name r e = ground (arith, eq_refl [])

  -- After an operation and the event that it reports, the registry is current again.
  pub op-IsCurrent :
      (op : Op) (r : Registry) (m : Memory)
      → IsClean op
      → IsCurrent to_lower decode r m
      → IsCurrent to_lower decode (deliver (see ∷ []) (reports op m) r) (backend_after op m)
  unfolding deliver emit_direct
  op-IsCurrent (create_op org coll key val) r m (named, free) i =
      elim (Option-cases (create_object m org coll key val).0) [
        | inl e ↦
            IsCurrent-of_same to_lower decode _ _ _ _
              (write-IsCurrent r m (create_object m org coll key val).1 org coll key named free i
                val
                (λ o c k. ground (
                  arith,
                  get-create_object m org coll key o c k val,
                  create_object-conflict m org coll key val,
                )))
              (ground (arith)) (λ o c k. refl)
        | inr (x, e) ↦ IsCurrent-of_same to_lower decode r _ m _ i (ground (arith)) (λ o c k.
            ground (
              arith,
              get-create_object m org coll key o c k val,
              create_object-conflict m org coll key val,
            ))
      ]
  op-IsCurrent (put_op org coll key val) r m (named, free) i =
      write-IsCurrent r m (put_object m org coll key val) org coll key named free i val
        (λ o c k. put_lem m org coll key val o c k)
  op-IsCurrent (delete_op org coll key) r m (named, free) i =
      elim (Option-cases (delete_object m org coll key).0) [
        | inl e ↦ IsCurrent-of_same to_lower decode r _ m _ i (ground (arith)) (λ o c k. ground (
          arith,
          get-delete_object m org coll key o c k,
          delete_object-value m org coll key,
          eq_iff org o,
          eq_iff coll c,
          eq_iff key k,
        ))
        | inr (x, e) ↦
            IsCurrent-of_same to_lower decode _ _ _ _
              (removal-IsCurrent r m (delete_object m org coll key).1 org coll key named free i
                (λ o c k. get-delete_object m org coll key o c k))
              (ground (arith)) (λ o c k. refl)
      ]
  op-IsCurrent (delete_org_op name) r m free i = elim (Bool-cases (delete_org m name).0) [
    | inl e ↦
        IsCurrent-of_same to_lower decode (drop_org name r) _ _ _
          (drop-IsCurrent r m (delete_org m name).1 name free
            (λ o c k. ground (arith, get-delete_org m name [] [] o c k, delete_org-existed m name))
            i)
          (drop_lem m name r e) (λ o c k. refl)
    | inr e ↦
        IsCurrent-of_same to_lower decode r _ m _ i (ground (arith))
          (λ o c k. ground (arith, get-delete_org m name [] [] o c k, delete_org-existed m name))
  ]
  op-IsCurrent (get_op org coll key) r m h i = i
  op-IsCurrent (create_org_op name) r m h i =
      IsCurrent-of_same to_lower decode r r m _ i refl (λ o c k. get-create_org m name o c k)
  op-IsCurrent (put_blob_op org checksum content) r m h i =
      IsCurrent-of_same to_lower decode r r m _ i refl
        (λ o c k. get-put_blob m org checksum content o c k)
  op-IsCurrent (delete_blob_op org checksum) r m h i =
      IsCurrent-of_same to_lower decode r r m _ i refl
        (λ o c k. get-delete_blob m org checksum o c k)
