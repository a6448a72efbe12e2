-- ===== src/Versions/Tests.antt =====
-- Runs of internal/api/constraint.go and compareVersions on small inputs, and the theorems at them.
use cinc_server_ng.Prelude.{
  ℕ, ◌≡◌, refl, ◌+◌, ◌*◌, ◌-◌, ◌&&◌, Option, none, some, [], ◌∷◌, arith, Bytes, lit, ◌==◌, split,
  has_prefix, not, true, false, leb, ltb, eqb, if◌then◌else◌,
}
use cinc_server_ng.Versions.{Ints, before, same, compare_versions}
use cinc_server_ng.Versions.Constraint.{satisfies_constraint}
use cinc_server_ng.Versions.Constraint.Ops.{satisfies_constraint-ge_lt}
use cinc_server_ng.Versions.Flip.{IsOrdered, flip, compare_versions-flip}

-- digits only, with the value of those in front
abbrev digits : Bytes → ℕ → Option ℕ
digits [] n = some n
digits (c ∷ s) n =
    let rest = digits s (n * 10 + (c - b'0')) in if leb b'0' c && leb c b'9' then rest else none

abbrev small : Ints
small = record { Int = ℕ; int_lt = ltb; int_eq = eqb; atoi = λ s. digits s 0 }

small-IsOrdered : IsOrdered small
small-IsOrdered = record { eq_sym = λ m n. ground (arith); lt_total = λ m n h. ground (arith) }

-- The last three go round in a circle: 2, 10 and 1a.
compare_tests :
    (compare_versions small (lit "1.2") (lit "1.10") ≡ before)
    × (compare_versions small (lit "1.0.0") (lit "1") ≡ same)
    × (compare_versions small (lit "1.01") (lit "1.1") ≡ same)
    × (compare_versions small (lit "2") (lit "10") ≡ before)
    × (compare_versions small (lit "10") (lit "1a") ≡ before)
    × (compare_versions small (lit "1a") (lit "2") ≡ before)
unfolding compare_versions lit ◌==◌ split
compare_tests = (refl, refl, refl, refl, refl, refl)

compare_versions-flip_example :
    compare_versions small (lit "1.0") (lit "1.a")
    ≡ flip (compare_versions small (lit "1.a") (lit "1.0"))
compare_versions-flip_example = compare_versions-flip small small-IsOrdered (lit "1.a") (lit "1.0")

-- one more than the major version 1
abbrev two : Bytes → Bytes
two p = lit "2"

constraint_tests :
    (satisfies_constraint small two (lit "1.4") (lit " ~> 1.2 ") ≡ true)
    × (satisfies_constraint small two (lit "2.0") (lit "~> 1.2") ≡ false)
    × (satisfies_constraint small two (lit "1.9") (lit "~> 1") ≡ true)
    × (satisfies_constraint small two (lit "2.0") (lit "~> 1") ≡ false)
    × (satisfies_constraint small two (lit "1.4") (lit "") ≡ true)
    × (satisfies_constraint small two (lit "1.4") (lit "1.4.0") ≡ true)
unfolding satisfies_constraint lit ◌==◌ split
constraint_tests = (refl, refl, refl, refl, refl, refl)

starts_with_space : has_prefix (lit " 1.2") (lit "=") ≡ false
unfolding has_prefix lit
starts_with_space = refl

satisfies_constraint-ge_lt_example :
    satisfies_constraint small two (lit "1.4") (b'>' ∷ b'=' ∷ lit " 1.2")
    ≡ not (satisfies_constraint small two (lit "1.4") (b'<' ∷ lit " 1.2"))
satisfies_constraint-ge_lt_example =
    satisfies_constraint-ge_lt small two (lit "1.4") (lit " 1.2") starts_with_space
