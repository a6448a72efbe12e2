-- ===== src/Versions/Constraint/Ops.antt =====
-- How the operators of internal/api/constraint.go relate.
use cinc_server_ng.Prelude.{
  ℕ, ◌≡◌, refl, ap, sym, ◌∙◌, false, not, List, [], ◌∷◌, ◌++◌, arith, Bytes, lit, ◌==◌, has_prefix,
}
use cinc_server_ng.Search.Lexer.{trim_space, trim_left, trim_right, is_space}
use cinc_server_ng.Versions.{Ints, compare_versions}
use cinc_server_ng.Versions.Constraint.{
  operators, split_by, split_constraint, is_before, satisfies_op, satisfies_constraint,
}

-- the version that a constraint names, without the space around it
abbrev bare : Bytes → Bytes
bare c = trim_space (trim_right c)

trim_right_keep : (b : ℕ) (s : Bytes) → is_space b ≡ false → trim_right (b ∷ s) ≡ b ∷ trim_right s
unfolding trim_right
trim_right_keep b s h = ground (arith)

-- Space is trimmed behind an operator of one or of two characters.
trim_one : (b : ℕ) (c : Bytes) → is_space b ≡ false → trim_space (b ∷ c) ≡ b ∷ trim_right c
unfolding trim_space trim_left
trim_one b c h = rw h (trim_right_keep b c h)

trim_two :
    (b d : ℕ) (c : Bytes)
    → is_space b ≡ false
    → is_space d ≡ false
    → trim_space (b ∷ d ∷ c) ≡ b ∷ d ∷ trim_right c
trim_two b d c h k = trim_one b (d ∷ c) h ∙ ap (λ s. b ∷ s) (trim_right_keep d c k)

split_constraint-ge : (c : Bytes) → split_constraint (b'>' ∷ b'=' ∷ c) ≡ (lit ">=", trim_space c)
unfolding split_constraint split_by operators lit
split_constraint-ge c = refl

split_constraint-lt :
    (c : Bytes)
    → has_prefix c (lit "=") ≡ false
    → split_constraint (b'<' ∷ c) ≡ (lit "<", trim_space c)
unfolding split_constraint split_by operators lit has_prefix
split_constraint-lt [] h = refl
split_constraint-lt (d ∷ c) h = ground (arith)

has_prefix-trim_right :
    (c : Bytes) → has_prefix c (lit "=") ≡ false → has_prefix (trim_right c) (lit "=") ≡ false
unfolding trim_right has_prefix lit
has_prefix-trim_right [] h = refl
has_prefix-trim_right (d ∷ c) h = ground (arith)

marks :
    (is_space b'>' ≡ false)
    × (is_space b'=' ≡ false)
    × (is_space b'<' ≡ false)
    × (is_space b'~' ≡ false)
unfolding is_space
marks = (refl, refl, refl, refl)

-- The parts of the first version that `~>` refuses: `~> 1` is bounded by 2, `~> 1.4` and so `~> 1.4.2`
-- by what stands in front of its last part, raised.
pub data IsBound (successor : Bytes → Bytes) : List Bytes → List Bytes → Type 0 where
  only : (p : Bytes) → IsBound successor (p ∷ []) (successor p ∷ [])
  several :
      (front : List Bytes) (p last : Bytes)
      → IsBound successor (front ++ p ∷ last ∷ []) (front ++ successor p ∷ [])

module _ (Z : Ints) (successor : Bytes → Bytes) (version c : Bytes) where
  op-ge :
      satisfies_op Z successor (lit ">=") version (bare c)
      ≡ not (is_before (compare_versions Z version (bare c)))
  unfolding satisfies_op lit ◌==◌
  op-ge = refl

  op-lt :
      satisfies_op Z successor (lit "<") version (bare c)
      ≡ is_before (compare_versions Z version (bare c))
  unfolding satisfies_op lit ◌==◌
  op-lt = refl

  satisfies_of_split :
      (constraint t op ver : Bytes) (b : ℕ)
      → trim_space constraint ≡ b ∷ t
      → split_constraint (b ∷ t) ≡ (op, ver)
      → satisfies_constraint Z successor version constraint
        ≡ satisfies_op Z successor op version ver
  unfolding satisfies_constraint ◌==◌
  satisfies_of_split constraint t op ver b e f = ground (arith)

  -- A version is at least another exactly if it is not below it, whatever the space behind the
  -- operator, and whatever stands behind it that does not begin with an equals sign.
  pub satisfies_constraint-ge_lt :
      has_prefix c (lit "=") ≡ false
      → satisfies_constraint Z successor version (b'>' ∷ b'=' ∷ c)
        ≡ not (satisfies_constraint Z successor version (b'<' ∷ c))
  satisfies_constraint-ge_lt h =
      let (gt, eq, lt, _) = marks in
      satisfies_of_split (b'>' ∷ b'=' ∷ c) (b'=' ∷ trim_right c) (lit ">=") (bare c) b'>'
        (trim_two b'>' b'=' c gt eq) (split_constraint-ge (trim_right c))
      ∙ op-ge
      ∙ ap not (
          sym (
            satisfies_of_split (b'<' ∷ c) (trim_right c) (lit "<") (bare c) b'<'
              (trim_one b'<' c lt) (split_constraint-lt (trim_right c) (has_prefix-trim_right c h))
            ∙ op-lt))
