-- ===== src/Versions.antt =====
-- compareVersions of internal/api/cookbooks.go: the comparison of cookbook versions. What strconv does with integers is a parameter.
pub mod Flip
pub mod Constraint
mod Tests
use cinc_server_ng.Prelude.{
  ℕ, Bool, true, false, not, ◌&&◌, ◌||◌, Option, none, some, List, [], ◌∷◌, ◌++◌, Bytes, lit, ◌==◌,
  split, cut_prefix, if◌then◌else◌,
}
use cinc_server_ng.Store.Memory.{less}

-- int with its order, and strconv.Atoi, with `none` for its errors
pub record Ints : Type 1 where
  pub Int : Type 0
  pub int_lt : Int → Int → Bool
  pub int_eq : Int → Int → Bool
  pub atoi : Bytes → Option Int

-- -1, 0 and 1
pub data Order : Type 0 where
  before same after : Order

-- strings.Compare
unfoldable pub compare_text : Bytes → Bytes → Order
unfolding less
compare_text a b = if a == b then same else if less a b then before else after

abbrev zero_text : Bytes
zero_text = lit "0"

-- a round that decides, or the rest
abbrev pub or_next : Order → Order → Order
or_next same next = next
or_next before next = before
or_next after next = after

module _ (Z : Ints) where
  open Z use {int_lt, int_eq, atoi}

  -- One round of the loop; `same` goes on to the next one. Two texts that differ are never the same
  -- to strings.Compare.
  unfoldable pub compare_segment : Bytes → Bytes → Order
  unfolding compare_text
  compare_segment av bv = if av == bv then same else elim (atoi av) [
    | none ↦ compare_text av bv
    | some an ↦ elim (atoi bv) [
      | none ↦ compare_text av bv
      | some bn ↦ if int_eq an bn then same else if int_lt an bn then before else after
    ]
  ]

  unfoldable pub compare_segments : List Bytes → List Bytes → Order
  unfolding compare_segment
  compare_segments [] [] = same
  compare_segments (a ∷ as') [] = or_next (compare_segment a zero_text) (compare_segments as' [])
  compare_segments [] (b ∷ bs) = or_next (compare_segment zero_text b) (compare_segments [] bs)
  compare_segments (a ∷ as') (b ∷ bs) = or_next (compare_segment a b) (compare_segments as' bs)

  -- compareVersions
  unfoldable pub compare_versions : Bytes → Bytes → Order
  unfolding compare_segments
  compare_versions a b = compare_segments (split a b'.') (split b b'.')
