-- ===== src/Prelude/Maps/Entries.antt =====
-- What `range` visits, as a list: each key once, with the value that a read finds.
use mathlib.Core.Path.{◌≡◌, refl}
use mathlib.Core.Bool.{true, false}
use mathlib.Core.Option.{Option, none, some}
use mathlib.Core.List.{List, [], ◌∷◌}
use native.Mathlib.Omega.{arith}
use cinc_server_ng.Prelude.Tests.{if◌then◌else◌}
use cinc_server_ng.Prelude.Lists.{any}
use cinc_server_ng.Prelude.Text.{Bytes, ◌==◌, eq_iff, eq_refl, contains}
use cinc_server_ng.Prelude.Maps.{Map, get, entries, get_in, entries_in}

module _ {ℓ} {V : Type ℓ} where
  -- the value at the first entry of the key
  abbrev pub find_entry : List (Bytes × V) → Bytes → Option V
  find_entry [] k = none
  find_entry ((j, v) ∷ es) k = if j == k then some v else find_entry es k

  -- No key stands twice.
  abbrev pub IsUnique : List (Bytes × V) → Type 0
  IsUnique [] = Unit
  IsUnique ((k, v) ∷ es) = (any (λ e. e.0 == k) es ≡ false) × IsUnique es

  find_entries_in :
      (seen : List Bytes) (m : List (Bytes × V)) (k : Bytes)
      → find_entry (entries_in seen m) k ≡ (if contains seen k then none else get_in m k)
  unfolding entries_in get_in
  find_entries_in seen [] k = ground (arith)
  find_entries_in seen ((j, v) ∷ m) k =
      ground
        (arith, find_entries_in seen m k, find_entries_in (j ∷ seen) m k, eq_iff j k, eq_refl j)

  pub find_entry-entries : (m : Map V) (k : Bytes) → find_entry (entries m) k ≡ get m k
  unfolding entries get
  find_entry-entries m k = find_entries_in [] m.rows k

  any-entries_in_seen :
      (seen : List Bytes) (m : List (Bytes × V)) (k : Bytes)
      → contains seen k ≡ true
      → any (λ e. e.0 == k) (entries_in seen m) ≡ false
  unfolding entries_in
  any-entries_in_seen seen [] k h = refl
  any-entries_in_seen seen ((j, v) ∷ m) k h =
      ground (arith, any-entries_in_seen seen m k, any-entries_in_seen (j ∷ seen) m k, eq_iff j k)

  entries_in-IsUnique : (seen : List Bytes) (m : List (Bytes × V)) → IsUnique (entries_in seen m)
  unfolding entries_in
  entries_in-IsUnique seen [] = tt
  entries_in-IsUnique seen ((j, v) ∷ m) = ground (
    arith,
    entries_in-IsUnique seen m,
    entries_in-IsUnique (j ∷ seen) m,
    any-entries_in_seen (j ∷ seen) m j,
    eq_refl j,
  )

  pub entries-IsUnique : (m : Map V) → IsUnique (entries m)
  unfolding entries
  entries-IsUnique m = entries_in-IsUnique [] m.rows
