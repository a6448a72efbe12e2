-- ===== src/Prelude/Maps.antt =====
-- Go's maps with string keys. The entries that `range` visits come in an order that the program
-- cannot rely on; here it is the order of the last writes. The representation is private, and
-- clients have the laws.
pub mod Entries
use mathlib.Core.Path.{◌≡◌, refl}
use mathlib.Core.Bool.{◌&&◌, Bool, true, false}
use mathlib.Core.Logic.{inl, inr}
use mathlib.Core.Option.{Option, none, some}
use mathlib.Core.List.{List, [], ◌∷◌}
use native.Mathlib.Omega.{arith}
use cinc_server_ng.Prelude.Tests.{is_some, if◌then◌else◌, Bool-ext, Bool-cases, Option-cases}
use cinc_server_ng.Prelude.Lists.{any, any_of_is_empty, is_empty}
use cinc_server_ng.Prelude.Text.{Bytes, ◌==◌, eq_iff, eq_refl, contains}

module _ {ℓ} {V : Type ℓ} where
  get_in : List (Bytes × V) → Bytes → Option V
  get_in [] k = none
  get_in ((j, v) ∷ m) k = if j == k then some v else get_in m k

  delete_in : List (Bytes × V) → Bytes → List (Bytes × V)
  delete_in [] k = []
  delete_in ((j, v) ∷ m) k = let rest = delete_in m k in if j == k then rest else (j, v) ∷ rest

  -- Each key once, with the value that a read finds.
  entries_in : List Bytes → List (Bytes × V) → List (Bytes × V)
  entries_in seen [] = []
  entries_in seen ((k, v) ∷ m) = elim (contains seen k) [
    | true ↦ entries_in seen m
    | false ↦ (k, v) ∷ entries_in (k ∷ seen) m
  ]

  get-delete_in :
      (m : List (Bytes × V)) (k j : Bytes)
      → get_in (delete_in m k) j ≡ (if k == j then none else get_in m j)
  unfolding get_in delete_in
  get-delete_in [] k j = ground arith
  get-delete_in ((i, v) ∷ m) k j =
      ground (arith, get-delete_in m k j, eq_iff i k, eq_iff i j, eq_iff k j)

pub record Map {ℓ} (V : Type ℓ) : Type ℓ where
  rows : List (Bytes × V)

module _ {ℓ} {V : Type ℓ} where
  pub empty_map : Map V
  empty_map = record { rows = [] }

  -- v, ok := m[k]
  pub get : Map V → Bytes → Option V
  get m k = get_in m.rows k

  -- m[k] = v
  pub set : Map V → Bytes → V → Map V
  set m k v = record { rows = (k, v) ∷ delete_in m.rows k }

  -- delete(m, k)
  pub delete : Map V → Bytes → Map V
  delete m k = record { rows = delete_in m.rows k }

  -- what `for k, v := range m` visits
  pub entries : Map V → List (Bytes × V)
  entries m = entries_in [] m.rows

  pub get-delete :
      (m : Map V) (k j : Bytes) → get (delete m k) j ≡ (if k == j then none else get m j)
  unfolding get delete
  get-delete m k j = get-delete_in m.rows k j

  pub get-set :
      (m : Map V) (k j : Bytes) (v : V) → get (set m k v) j ≡ (if k == j then some v else get m j)
  unfolding get set get_in
  get-set m k j v = ground (arith, get-delete_in m.rows k j)

  any-entries_in_sound :
      (p : Bytes → V → Bool) (seen : List Bytes) (m : List (Bytes × V))
      → any (λ e. p e.0 e.1) (entries_in seen m) ≡ true
      → (k : Bytes) × (v : V) × (get_in m k ≡ some v) × (contains seen k ≡ false) × (p k v ≡ true)
  unfolding entries_in get_in
  any-entries_in_sound p seen [] h = cc
  any-entries_in_sound p seen ((k, v) ∷ m) h = elim (Bool-cases (contains seen k)) [
    | inl old ↦
        let (k', v', g, c, q) = any-entries_in_sound p seen m (ground arith) in
        (k', v', ground (arith, eq_iff k k'), c, q)
    | inr new ↦ elim (Bool-cases (p k v)) [
      | inl here ↦ (k, v, ground (arith, eq_refl k), new, here)
      | inr there ↦
          let (k', v', g, c, q) = any-entries_in_sound p (k ∷ seen) m (ground arith) in
          (k', v', ground (arith, eq_iff k k'), ground arith, q)
    ]
  ]

  any-entries_in_complete :
      (p : Bytes → V → Bool) (seen : List Bytes) (m : List (Bytes × V)) (k : Bytes) (v : V)
      → get_in m k ≡ some v
      → contains seen k ≡ false
      → p k v ≡ true
      → any (λ e. p e.0 e.1) (entries_in seen m) ≡ true
  unfolding entries_in get_in
  any-entries_in_complete p seen [] k v g c h = cc
  any-entries_in_complete p seen ((j, w) ∷ m) k v g c h = ground (
    arith,
    eq_iff j k,
    any-entries_in_complete p seen m k v,
    any-entries_in_complete p (j ∷ seen) m k v,
  )

pub get-empty {ℓ} : {V : Type ℓ} (k : Bytes) → get (empty_map {V = V}) k ≡ none
unfolding get empty_map get_in
get-empty k = refl

-- A test of the visited entries succeeds exactly when it does at some key that a read finds.
module _ {ℓ} {V : Type ℓ} (p : Bytes → V → Bool) (m : Map V) where
  pub any-entries_sound :
      any (λ e. p e.0 e.1) (entries m) ≡ true
      → (k : Bytes) × (v : V) × (get m k ≡ some v) × (p k v ≡ true)
  unfolding entries get
  any-entries_sound h = let (k, v, g, _, q) = any-entries_in_sound p [] m.rows h in (k, v, g, q)

  pub any-entries_complete :
      (k : Bytes) (v : V)
      → get m k ≡ some v
      → p k v ≡ true
      → any (λ e. p e.0 e.1) (entries m) ≡ true
  unfolding entries get
  any-entries_complete k v g q = any-entries_in_complete p [] m.rows k v g refl q

pub ruleset map_laws = (get-empty, get-set, get-delete)

-- m[k] as a value: `d` is the zero value of the type, which a missing key reads as.
unfoldable pub get_or {ℓ} : {V : Type ℓ} → Map V → Bytes → V → V
get_or m k d = elim (get m k) [ none ↦ d | some v ↦ v ]

-- A key visited by `range` with a test of its value: the test of what a read finds.
pub any-entries-at {ℓ} :
    {V : Type ℓ} (p : V → Bool) (m : Map V) (d : V) (k : Bytes)
    → p d ≡ false
    → any (λ e. e.0 == k && p e.1) (entries m) ≡ p (get_or m k d)
unfolding get_or
any-entries-at p m d k h = Bool-ext _ _ there back
  where
    there : any (λ e. e.0 == k && p e.1) (entries m) ≡ true → p (get_or m k d) ≡ true
    there a =
        let (j, v, g, q) = any-entries_sound (λ j v. j == k && p v) m a in
        ground (arith, eq_iff j k)

    back : p (get_or m k d) ≡ true → any (λ e. e.0 == k && p e.1) (entries m) ≡ true
    back a = elim (Option-cases (get m k)) [
      | inl e ↦ ground arith
      | inr (v, e) ↦ any-entries_complete (λ j w. j == k && p w) m k v e (ground (arith, eq_refl k))
    ]

module _ {ℓ} {V : Type ℓ} (m : Map V) (k j : Bytes) where
  pub get_or-set : (v d : V) → get_or (set m k v) j d ≡ (if k == j then v else get_or m j d)
  unfolding get_or
  get_or-set v d = ground (arith, get-set m k j v)

  pub get_or-delete : (d : V) → get_or (delete m k) j d ≡ (if k == j then d else get_or m j d)
  unfolding get_or
  get_or-delete d = ground (arith, get-delete m k j)

pub get_or-empty {ℓ} : {V : Type ℓ} (k : Bytes) (d : V) → get_or empty_map k d ≡ d
unfolding get_or
get_or-empty {V} k d = ground (arith, get-empty {V = V} k)

pub get_or_lem {ℓ} :
    {V : Type ℓ} (m : Map V) (k : Bytes) (d : V)
    → get_or m k d ≡ (elim (get m k) [ none ↦ d | some v ↦ v ])
unfolding get_or
get_or_lem m k d = refl

-- The keys that `range` visits are those that are there.
pub any-entries-key {ℓ} :
    {V : Type ℓ} (m : Map V) (k : Bytes) → any (λ e. e.0 == k) (entries m) ≡ is_some (get m k)
any-entries-key m k = Bool-ext _ _ there back
  where
    there : any (λ e. e.0 == k) (entries m) ≡ true → is_some (get m k) ≡ true
    there a = let (j, v, g, q) = any-entries_sound (λ j v. j == k) m a in ground (arith, eq_iff j k)

    back : is_some (get m k) ≡ true → any (λ e. e.0 == k) (entries m) ≡ true
    back a = elim (Option-cases (get m k)) [
      | inl e ↦ cc
      | inr (v, e) ↦ any-entries_complete (λ j w. j == k) m k v e (eq_refl k)
    ]

-- A map in which `range` finds nothing has no key.
pub get_of_is_empty {ℓ} :
    {V : Type ℓ} (m : Map V) (k : Bytes) → is_empty (entries m) ≡ true → get m k ≡ none
get_of_is_empty m k h = elim (Option-cases (get m k)) [
  | inl e ↦ e
  | inr (v, e) ↦
      cc
        (any_of_is_empty (λ e. true) (entries m) h, any-entries_complete (λ j w. true) m k v e refl)
]

abbrev pub inner {ℓ} : {V : Type ℓ} → Map (Map V) → Bytes → Map V
inner m k = get_or m k empty_map

pub ruleset get_or_laws = (get_or-empty, get_or-set, get_or-delete)
