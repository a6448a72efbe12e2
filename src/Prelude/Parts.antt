-- ===== src/Prelude/Parts.antt =====
-- What strings.Split took apart, put together again.
use Prim.Native.Nat.{ℕ}
use mathlib.Core.Path.{◌≡◌, refl, sym, ap, ◌∙◌}
use mathlib.Core.Logic.{◌≢◌, ◌⊎◌, inl, inr}
use mathlib.Core.Bool.{true}
use mathlib.Core.List.{List, [], ◌∷◌, ◌++◌}
use native.Mathlib.Omega.{arith}
use cinc_server_ng.Prelude.Tests.{eqb, Bool-cases}
use cinc_server_ng.Prelude.Text.{Bytes, ◌==◌, eq_refl, split, split_cons, has_suffix}

pub has_suffix-append : (x y : Bytes) → has_suffix (x ++ y) y ≡ true
unfolding has_suffix ◌==◌
has_suffix-append [] [] = refl
has_suffix-append [] (c ∷ y) = ground (arith, eq_refl (c ∷ y))
has_suffix-append (c ∷ x) y = ground (arith, has_suffix-append x y)

split_cons_some : (c : ℕ) (parts : List Bytes) → split_cons c parts ≢ []
split_cons_some c [] e = cc
split_cons_some c (p ∷ ps) e = cc

split_some : (s : Bytes) (sep : ℕ) → split s sep ≢ []
unfolding split
split_some [] sep e = cc
split_some (c ∷ s) sep e = ground (arith, split_cons_some c (split s sep))

List-cases : (xs : List Bytes) → (xs ≡ []) ⊎ ((y : Bytes) × (ys : List Bytes) × (xs ≡ y ∷ ys))
List-cases [] = inl refl
List-cases (y ∷ ys) = inr (y, ys, refl)

-- one part is the whole text
pub split_one : (s a : Bytes) (sep : ℕ) → split s sep ≡ a ∷ [] → s ≡ a
unfolding split
split_one [] a sep e = ground (arith)
split_one (c ∷ s) a sep e = elim (List-cases (split s sep)) [
  | inl n ↦ absurd (split_some s sep n)
  | inr (p, ps, f) ↦ elim (List-cases ps) [
    | inl n ↦ ground (arith, split_one s p sep (f ∙ ap (λ qs. p ∷ qs) n))
    | inr (q, qs, g) ↦ ground (arith)
  ]
]

-- several parts have a separator after the first
pub split_more :
    (s b r : Bytes) (rs : List Bytes) (sep : ℕ)
    → split s sep ≡ b ∷ r ∷ rs
    → (t : Bytes) × (s ≡ b ++ sep ∷ t) × (split t sep ≡ r ∷ rs)
unfolding split
split_more [] b r rs sep e = cc
split_more (c ∷ s) b r rs sep e = elim (Bool-cases (eqb c sep)) [
  | inl t ↦
      let first : b ≡ [] = ground (arith) in
      let same : c ≡ sep = ground (arith) in (s, rw (first, same) refl, ground (arith))
  | inr f ↦ elim (List-cases (split s sep)) [
    | inl n ↦ absurd (split_some s sep n)
    | inr (p, ps, g) ↦
        let tail : ps ≡ r ∷ rs = ground (arith) in
        let head : b ≡ c ∷ p = ground (arith) in
        let (t, e1, e2) = split_more s p r rs sep (g ∙ ap (λ qs. p ∷ qs) tail) in
        (t, ap (λ x. c ∷ x) e1 ∙ ap (λ x. x ++ sep ∷ t) (sym head), e2)
  ]
]
