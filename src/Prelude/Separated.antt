-- ===== src/Prelude/Separated.antt =====
-- Texts put together with a zero byte between them, where no part has one.
use mathlib.Core.Path.{◌≡◌, refl}
use mathlib.Core.Bool.{false, ◌&&◌}
use mathlib.Core.List.{[], ◌∷◌, ◌++◌}
use native.Mathlib.Omega.{arith}
use cinc_server_ng.Prelude.Text.{Bytes, ◌==◌, IsFree, has_prefix, has_suffix}

pub has_prefix_free :
    (group other rest : Bytes)
    → IsFree 0 group
    → IsFree 0 other
    → has_prefix (other ++ 0 ∷ rest) (group ++ 0 ∷ []) ≡ (other == group)
unfolding has_prefix ◌==◌
has_prefix_free [] [] rest g o = refl
has_prefix_free [] (d ∷ other) rest g (p, o) = ground (arith)
has_prefix_free (c ∷ group) [] rest (p, g) o = ground (arith)
has_prefix_free (c ∷ group) (d ∷ other) rest (p, g) (q, o) =
    ground (arith, has_prefix_free group other rest g o)

pub has_suffix_free : (x t : Bytes) → IsFree 0 x → has_suffix x (0 ∷ t) ≡ false
unfolding has_suffix ◌==◌
has_suffix_free [] t h = refl
has_suffix_free (c ∷ x) t (p, h) = ground (arith, has_suffix_free x t h)

pub free_is_no_pair : (x y t : Bytes) → IsFree 0 x → (x == y ++ 0 ∷ t) ≡ false
unfolding ◌==◌
free_is_no_pair [] [] t h = refl
free_is_no_pair [] (d ∷ y) t h = refl
free_is_no_pair (c ∷ x) [] t (p, h) = ground (arith)
free_is_no_pair (c ∷ x) (d ∷ y) t (p, h) = ground (arith, free_is_no_pair x y t h)

pub same_pair :
    (x t y u : Bytes) → IsFree 0 x → IsFree 0 y → (x ++ 0 ∷ t == y ++ 0 ∷ u) ≡ (x == y && t == u)
unfolding ◌==◌
same_pair [] t [] u h k = ground (arith)
same_pair [] t (d ∷ y) u h (q, k) = ground (arith)
same_pair (c ∷ x) t [] u (p, h) k = ground (arith)
same_pair (c ∷ x) t (d ∷ y) u (p, h) (q, k) = ground (arith, same_pair x t y u h k)
