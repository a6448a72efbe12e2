-- ===== src/Runlist/Distinct.antt =====
-- What the loop of Normalize in internal/runlist/runlist.go gives.
use cinc_server_ng.Prelude.{
  ◌≡◌, refl, sym, ap, ◌∙◌, true, false, not, ◌&&◌, List, [], ◌∷◌, ◌++◌, append_assoc, append-nil,
  any, keep, map, arith, inl, inr, Bool-cases, Bytes, lit, ◌==◌, eq_iff, eq_refl, contains,
  has_prefix, if◌then◌else◌,
}
use cinc_server_ng.Runlist.{qualify, normalize_loop, normalize_items}

qualify-qualify : (name : Bytes) → qualify (qualify name) ≡ qualify name
unfolding qualify has_prefix lit
qualify-qualify name = ground (arith)

-- what the loop appends
fresh : List Bytes → List Bytes → List Bytes
fresh [] seen = []
fresh (name ∷ names) seen =
    let rest = fresh names (qualify name ∷ seen) in
    let skipped = fresh names seen in
    if contains seen (qualify name) then skipped else qualify name ∷ rest

normalize_loop-fresh :
    (names seen out : List Bytes) → normalize_loop names seen out ≡ out ++ fresh names seen
unfolding normalize_loop fresh
normalize_loop-fresh [] seen out = sym (append-nil out)
normalize_loop-fresh (name ∷ names) seen out = elim (Bool-cases (contains seen (qualify name))) [
  | inl t ↦ rw t (normalize_loop-fresh names seen out)
  | inr f ↦ rw f (
      normalize_loop-fresh names (qualify name ∷ seen) (out ++ qualify name ∷ [])
      ∙ append_assoc out (qualify name ∷ []) (fresh names (qualify name ∷ seen)))
]

fresh-fresh : (names seen : List Bytes) → fresh (fresh names seen) seen ≡ fresh names seen
unfolding fresh
fresh-fresh [] seen = refl
fresh-fresh (name ∷ names) seen = elim (Bool-cases (contains seen (qualify name))) [
  | inl t ↦ rw t (fresh-fresh names seen)
  | inr f ↦ ground (arith, qualify-qualify name, fresh-fresh names (qualify name ∷ seen))
]

contains-fresh :
    (names seen : List Bytes) (x : Bytes)
    → contains (fresh names seen) x ≡ (not (contains seen x) && any (λ i. qualify i == x) names)
unfolding fresh
contains-fresh [] seen x = ground (arith)
contains-fresh (name ∷ names) seen x = ground (
  arith,
  contains-fresh names seen x,
  contains-fresh names (qualify name ∷ seen) x,
  eq_iff (qualify name) x,
)

-- the items without those that an earlier one equals
unfoldable pub firsts : List Bytes → List Bytes
firsts [] = []
firsts (x ∷ xs) = x ∷ keep (λ y. not (x == y)) (firsts xs)

-- no item stands twice
abbrev pub IsDistinct : List Bytes → Type 0
IsDistinct [] = Unit
IsDistinct (x ∷ xs) = (contains xs x ≡ false) × IsDistinct xs

keep_seen :
    (seen : List Bytes) (q : Bytes) (xs : List Bytes)
    → contains seen q ≡ true
    → keep (λ y. not (contains seen y)) (keep (λ y. not (q == y)) xs)
      ≡ keep (λ y. not (contains seen y)) xs
keep_seen seen q [] h = refl
keep_seen seen q (x ∷ xs) h = ground (arith, keep_seen seen q xs h, eq_iff q x)

keep_unseen :
    (seen : List Bytes) (q : Bytes) (xs : List Bytes)
    → keep (λ y. not (contains seen y)) (keep (λ y. not (q == y)) xs)
      ≡ keep (λ y. not (contains (q ∷ seen) y)) xs
keep_unseen seen q [] = refl
keep_unseen seen q (x ∷ xs) = ground (arith, keep_unseen seen q xs)

keep_all : (xs : List Bytes) → keep (λ y. not (contains [] y)) xs ≡ xs
keep_all [] = refl
keep_all (x ∷ xs) = ap (λ ys. x ∷ ys) (keep_all xs)

fresh-firsts :
    (names seen : List Bytes)
    → fresh names seen ≡ keep (λ y. not (contains seen y)) (firsts (map qualify names))
unfolding fresh firsts
fresh-firsts [] seen = refl
fresh-firsts (name ∷ names) seen = elim (Bool-cases (contains seen (qualify name))) [
  | inl t ↦
      ground (
        arith,
        fresh-firsts names seen,
        keep_seen seen (qualify name) (firsts (map qualify names)) t,
      )
  | inr f ↦ ground (
    arith,
    fresh-firsts names (qualify name ∷ seen),
    keep_unseen seen (qualify name) (firsts (map qualify names)),
  )
]

fresh-IsDistinct : (names seen : List Bytes) → IsDistinct (fresh names seen)
unfolding fresh
fresh-IsDistinct [] seen = tt
fresh-IsDistinct (name ∷ names) seen = elim (Bool-cases (contains seen (qualify name))) [
  | inl t ↦ rw t (fresh-IsDistinct names seen)
  | inr f ↦ rw f (
    ground
        (arith, contains-fresh names (qualify name ∷ seen) (qualify name), eq_refl (qualify name)),
    fresh-IsDistinct names (qualify name ∷ seen),
  )
]

-- Normalize gives the qualified items, in the order in which each of them first appears; that is, it
-- gives them, no others, and none of them twice, and a list that it gave it leaves as it is.
pub normalize_items_exact :
    (names : List Bytes)
    → (normalize_items names ≡ firsts (map qualify names))
      × IsDistinct (normalize_items names)
      × ((x : Bytes) → contains (normalize_items names) x ≡ any (λ i. qualify i == x) names)
      × (normalize_items (normalize_items names) ≡ normalize_items names)
unfolding normalize_items
normalize_items_exact names =
    let first = normalize_loop-fresh names [] [] in
    (
      first ∙ fresh-firsts names [] ∙ keep_all (firsts (map qualify names)),
      rw first (fresh-IsDistinct names []),
      λ x. ap (λ ns. contains ns x) first ∙ contains-fresh names [] x ∙ ground (arith),
      ap (λ ns. normalize_loop ns [] []) first
          ∙ normalize_loop-fresh (fresh names []) [] []
          ∙ fresh-fresh names []
          ∙ sym first,
    )
