-- ===== src/Versions/Flip.antt =====
-- compareVersions of internal/api/cookbooks.go with its arguments exchanged.
use cinc_server_ng.Prelude.{
  ◌≡◌, refl, false, not, List, [], ◌∷◌, arith, Bytes, ◌==◌, eq_comm, split, inl, inr, Option-cases,
}
use cinc_server_ng.Store.Memory.{less}
use cinc_server_ng.Versions.{
  Ints, Order, before, same, after, compare_text, zero_text, compare_segment, or_next,
  compare_segments, compare_versions,
}

-- Documented behaviour of int's operators: equality is symmetric, and of two integers that differ
-- exactly one is less than the other.
pub record IsOrdered (Z : Ints) : Type 0 where
  pub eq_sym : (m n : Z.Int) → Z.int_eq m n ≡ Z.int_eq n m
  pub lt_total : (m n : Z.Int) → Z.int_eq m n ≡ false → Z.int_lt m n ≡ not (Z.int_lt n m)

unfoldable pub flip : Order → Order
flip before = after
flip same = same
flip after = before

less_total : (a b : Bytes) → (a == b) ≡ false → less a b ≡ not (less b a)
unfolding less ◌==◌
less_total [] [] h = cc
less_total [] (b ∷ bs) h = refl
less_total (a ∷ as') [] h = refl
less_total (a ∷ as') (b ∷ bs) h = ground (arith, less_total as' bs)

compare_text-flip : (a b : Bytes) → compare_text b a ≡ flip (compare_text a b)
unfolding compare_text flip
compare_text-flip a b = ground (arith, eq_comm a b, less_total a b)

or_next-flip : (p q : Order) → or_next (flip p) (flip q) ≡ flip (or_next p q)
unfolding flip
or_next-flip before q = refl
or_next-flip same q = refl
or_next-flip after q = refl

module _ (Z : Ints) (h : IsOrdered Z) where
  compare_segment-flip : (a b : Bytes) → compare_segment Z b a ≡ flip (compare_segment Z a b)
  unfolding compare_segment flip
  compare_segment-flip a b = elim (Option-cases (Z.atoi a)) [
    | inl e ↦ ground (arith, eq_comm a b, compare_text-flip a b)
    | inr (m, e) ↦ elim (Option-cases (Z.atoi b)) [
      | inl f ↦ ground (arith, eq_comm a b, compare_text-flip a b)
      | inr (n, f) ↦ ground (arith, eq_comm a b, h.eq_sym m n, h.lt_total m n)
    ]
  ]

  compare_segments-flip :
      (as' bs : List Bytes) → compare_segments Z bs as' ≡ flip (compare_segments Z as' bs)
  unfolding compare_segments flip
  compare_segments-flip [] [] = refl
  compare_segments-flip (a ∷ as') [] =
      rw (compare_segment-flip a zero_text, compare_segments-flip as' []) (or_next-flip _ _)
  compare_segments-flip [] (b ∷ bs) =
      rw (compare_segment-flip zero_text b, compare_segments-flip [] bs) (or_next-flip _ _)
  compare_segments-flip (a ∷ as') (b ∷ bs) =
      rw (compare_segment-flip a b, compare_segments-flip as' bs) (or_next-flip _ _)

  -- If the integers are ordered, then of any two versions, with segments that are no integers as well,
  -- the one comes before the other exactly if the other comes after the one, and they are the same
  -- either way round.
  pub compare_versions-flip : (a b : Bytes) → compare_versions Z b a ≡ flip (compare_versions Z a b)
  unfolding compare_versions
  compare_versions-flip a b = compare_segments-flip (split a b'.') (split b b'.')
