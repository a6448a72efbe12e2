-- ===== src/Store/Memory.antt =====
-- internal/store/memory.go: the in-memory backend. The locks are left out: each operation holds the
-- mutex for its whole body, so it is one step. The slices are values here, so a copy is no operation.
pub mod Laws
pub mod Listed
use cinc_server_ng.Prelude.{
  ℕ, zero, suc, ◌≡◌, refl, Bool, true, false, ◌&&◌, Option, none, some, List, [], ◌∷◌, map, arith,
  Bytes, ◌==◌, ltb, Map, empty_map, inner, get, set, delete, entries, is_some, is_empty,
  if◌then◌else◌,
}

-- The errors of package store, and any other that an operation of a caller returns.
pub data Error : Type 0 where
  conflict not_found other : Error

pub record Memory : Type 0 where
  pub orgs : Map Bool
  pub data_of : Map (Map (Map Bytes))
  pub blobs : Map (Map Bytes)

unfoldable pub new_memory : Memory
new_memory = record { orgs = empty_map; data_of = empty_map; blobs = empty_map }

unfoldable pub get_object : Memory → Bytes → Bytes → Bytes → Option Bytes
get_object m org coll key = get (inner (inner m.data_of org) coll) key

-- m.set
unfoldable pub set_object : Memory → Bytes → Bytes → Bytes → Bytes → Memory
set_object m org coll key val =
    let colls = inner m.data_of org in
    let keys = inner colls coll in
    record m { data_of = set m.data_of org (set colls coll (set keys key val)) }

unfoldable pub put_object : Memory → Bytes → Bytes → Bytes → Bytes → Memory
unfolding set_object
put_object m org coll key val = set_object m org coll key val

unfoldable pub create_object : Memory → Bytes → Bytes → Bytes → Bytes → Option Error × Memory
unfolding get_object set_object
create_object m org coll key val = elim (get_object m org coll key) [
  | some old ↦ (some conflict, m)
  | none ↦ (none, set_object m org coll key val)
]

-- delete(m.data[org][coll], key): there is a map to delete from, since the key was found in it.
unfoldable pub delete_object : Memory → Bytes → Bytes → Bytes → Option Bytes × Memory
unfolding get_object
delete_object m org coll key = elim (get_object m org coll key) [
  | none ↦ (none, m)
  | some old ↦ (
    some old,
    record m {
      data_of =
          set m.data_of org
            (set (inner m.data_of org) coll (delete (inner (inner m.data_of org) coll) key));
    },
  )
]

-- a < b on strings: byte by byte, and a proper prefix comes first
unfoldable pub less : Bytes → Bytes → Bool
less s [] = false
less [] (b ∷ bs) = true
less (a ∷ as') (b ∷ bs) =
    let rest = less as' bs in if ltb a b then true else if ltb b a then false else rest

insert_sorted : Bytes → List Bytes → List Bytes
unfolding less
insert_sorted s [] = s ∷ []
insert_sorted s (t ∷ ts) = if less t s then t ∷ insert_sorted s ts else s ∷ t ∷ ts

-- sort.Strings
unfoldable pub sort_strings : List Bytes → List Bytes
unfolding insert_sorted
sort_strings [] = []
sort_strings (s ∷ ss) = insert_sorted s (sort_strings ss)

abbrev keys_of {ℓ} : {V : Type ℓ} → Map V → List Bytes
keys_of m = map (λ e. e.0) (entries m)

unfoldable pub keys : Memory → Bytes → Bytes → List Bytes
unfolding sort_strings
keys m org coll = sort_strings (keys_of (inner (inner m.data_of org) coll))

-- The callback's own state is `S`; it says whether to go on.
unfoldable pub range_loop {ℓ} :
    {S : Type ℓ} → (Bytes → Bytes → S → Bool × S) → List (Bytes × Bytes) → S → S
range_loop fn [] s = s
range_loop fn ((k, v) ∷ rest) s =
    let (more, s') = fn k v s in elim more [ true ↦ range_loop fn rest s' | false ↦ s' ]

unfoldable pub range {ℓ} :
    {S : Type ℓ} → Memory → Bytes → Bytes → (Bytes → Bytes → S → Bool × S) → S → S
unfolding range_loop
range m org coll fn s = range_loop fn (entries (inner (inner m.data_of org) coll)) s

nonempty : List (Bytes × Map Bytes) → List Bytes
nonempty [] = []
nonempty ((c, ks) ∷ rest) =
    let more = nonempty rest in if is_empty (entries ks) then more else c ∷ more

unfoldable pub collections : Memory → Bytes → List Bytes
unfolding sort_strings nonempty
collections m org = sort_strings (nonempty (entries (inner m.data_of org)))

unfoldable pub put_blob : Memory → Bytes → Bytes → Bytes → Memory
put_blob m org checksum content = record m {
  blobs = set m.blobs org (set (inner m.blobs org) checksum content);
}

unfoldable pub blob : Memory → Bytes → Bytes → Option Bytes
blob m org checksum = get (inner m.blobs org) checksum

unfoldable pub has_blob : Memory → Bytes → Bytes → Bool
has_blob m org checksum = is_some (get (inner m.blobs org) checksum)

-- delete(m.blobs[org], checksum): a delete from a nil map does nothing.
unfoldable pub delete_blob : Memory → Bytes → Bytes → Memory
delete_blob m org checksum = elim (get m.blobs org) [
  | none ↦ m
  | some sums ↦ record m { blobs = set m.blobs org (delete sums checksum) }
]

-- m.orgs[name]
unfoldable pub has_org : Memory → Bytes → Bool
has_org m name = elim (get m.orgs name) [ none ↦ false | some b ↦ b ]

unfoldable pub create_org : Memory → Bytes → Option Error × Memory
unfolding has_org
create_org m name =
    if has_org m name then (some conflict, m) else (none, record m { orgs = set m.orgs name true })

unfoldable pub delete_org : Memory → Bytes → Bool × Memory
unfolding has_org
delete_org m name =
    if has_org m name
    then (
      true,
      record m {
        orgs = delete m.orgs name;
        data_of = delete m.data_of name;
        blobs = delete m.blobs name;
      },
    )
    else (false, m)

unfoldable pub list_orgs : Memory → List Bytes
unfolding sort_strings
list_orgs m = sort_strings (keys_of m.orgs)

-- Tx: `fn` works on the backend itself, inside a state of its caller's; on an error the snapshot
-- that was taken first replaces all three maps.
unfoldable pub tx {ℓ} :
    {S : Type ℓ} → (S → Memory) → (S → Memory → S) → (S → Option Error × S) → S → Option Error × S
tx view replace fn s =
    let (e, t) = fn s in elim e [ none ↦ (none, t) | some err ↦ (some err, replace t (view s)) ]
