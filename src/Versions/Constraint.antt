-- ===== src/Versions/Constraint.antt =====
-- internal/api/constraint.go: constraints on a version. `successor` is strconv.Itoa of one more than
-- what strconv.Atoi returns for a text, whose error the code ignores.
pub mod Ops
use cinc_server_ng.Prelude.{
  Bool, true, false, not, ◌&&◌, ◌||◌, Option, none, some, List, [], ◌∷◌, ◌++◌, Bytes, lit, ◌==◌,
  split, cut_prefix, if◌then◌else◌,
}
use cinc_server_ng.Search.Lexer.{trim_space}
use cinc_server_ng.Versions.{Ints, Order, before, same, after, compare_versions}

-- the candidates of splitConstraint, in their order
unfoldable pub operators : List Bytes
operators = lit "~>" ∷ lit ">=" ∷ lit "<=" ∷ lit "==" ∷ lit "!=" ∷ lit "=" ∷ lit ">" ∷ lit "<" ∷ []

unfoldable pub split_by : List Bytes → Bytes → Bytes × Bytes
unfolding trim_space cut_prefix
split_by [] c = ([], c)
split_by (op ∷ ops) c =
    let next = split_by ops c in
    elim (cut_prefix c op) [ some rest ↦ (op, trim_space rest) | none ↦ next ]

-- splitConstraint
unfoldable pub split_constraint : Bytes → Bytes × Bytes
unfolding split_by operators
split_constraint c = split_by operators c

-- strings.Join(parts, ".")
unfoldable pub join_dots : List Bytes → Bytes
join_dots [] = []
join_dots (p ∷ []) = p
join_dots (p ∷ q ∷ ps) = p ++ b'.' ∷ join_dots (q ∷ ps)

abbrev pub is_before : Order → Bool
is_before before = true
is_before _ = false

abbrev pub is_same : Order → Bool
is_same same = true
is_same _ = false

abbrev pub is_after : Order → Bool
is_after after = true
is_after _ = false

module _ (Z : Ints) (successor : Bytes → Bytes) where
  -- the parts with the last one left out, if there are two, and the new last one raised
  unfoldable pub raise : List Bytes → List Bytes
  raise [] = []
  raise (p ∷ []) = successor p ∷ []
  raise (p ∷ q ∷ []) = successor p ∷ []
  raise (p ∷ q ∷ r ∷ ps) = p ∷ raise (q ∷ r ∷ ps)

  -- pessimisticUpper
  unfoldable pub pessimistic_upper : Bytes → Bytes
  unfolding raise join_dots
  pessimistic_upper ver = join_dots (raise (split ver b'.'))

  -- the switch on the operator
  unfoldable pub satisfies_op : Bytes → Bytes → Bytes → Bool
  unfolding compare_versions pessimistic_upper
  satisfies_op op version ver =
      let cmp = compare_versions Z version ver in
      if op == lit "=" || op == lit "=="
      then is_same cmp
      else if op == lit "!="
      then not (is_same cmp)
      else if op == lit ">"
      then is_after cmp
      else if op == lit "<"
      then is_before cmp
      else if op == lit ">="
      then not (is_before cmp)
      else if op == lit "<="
      then not (is_after cmp)
      else if op == lit "~>"
      then not (is_before cmp) && is_before (compare_versions Z version (pessimistic_upper ver))
      else is_same cmp

  -- satisfiesConstraint
  unfoldable pub satisfies_constraint : Bytes → Bytes → Bool
  unfolding split_constraint satisfies_op
  satisfies_constraint version constraint =
      let c = trim_space constraint in
      if c == [] then true else (let (op, ver) = split_constraint c in satisfies_op op version ver)
