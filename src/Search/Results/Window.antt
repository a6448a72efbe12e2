-- ===== src/Search/Results/Window.antt =====
-- internal/api/search.go: the window of the rows. An int has 64 bits and a sign; `start`, `rows` and the
-- number of matches are never negative. strconv.Atoi is a parameter.
use cinc_server_ng.Prelude.{
  ℕ, zero, suc, ◌+◌, ◌-◌, ◌≤◌, ◌<◌, ◌≡◌, refl, sym, ap, ◌∙◌, inl, inr, Bool-cases, Option, none,
  some, List, [], ◌∷◌, arith, Bytes, ◌==◌, length, ltb, leb, if◌then◌else◌,
}

-- an int
pub data ℤ : Type 0 where
  pos negsuc : ℕ → ℤ

-- queryInt, on the parameter's text
unfoldable pub query_int : (Bytes → Option ℤ) → Bytes → ℕ → ℕ
query_int atoi v def =
    if v == [] then def else elim (atoi v) [ none ↦ def | some (pos n) ↦ n | some (negsuc n) ↦ def ]

-- defaultSearchRows
unfoldable pub default_search_rows : ℕ
default_search_rows = 1000

-- clamp
unfoldable pub clamp : ℕ → ℕ → ℕ → ℕ
clamp v lo hi = if ltb v lo then lo else if ltb hi v then hi else v

abbrev pub take {ℓ} : {A : Type ℓ} → ℕ → List A → List A
take zero xs = []
take (suc n) [] = []
take (suc n) (x ∷ xs) = x ∷ take n xs

abbrev pub drop {ℓ} : {A : Type ℓ} → ℕ → List A → List A
drop zero xs = xs
drop (suc n) [] = []
drop (suc n) (x ∷ xs) = drop n xs

-- lo + rows of two ints that are not negative, where a sum from 2 ^ 63 on wraps around to a negative one
unfoldable pub add_int : ℕ → ℕ → ℤ
add_int m n =
    if ltb (m + n) 9223372036854775808 then pos (m + n) else negsuc (18446744073709551615 - (m + n))

-- lo and hi
unfoldable pub bounds : ℕ → ℕ → ℕ → ℕ × ℤ
unfolding clamp add_int
bounds start rows total =
    let lo = clamp start 0 total in
    (lo, if leb rows (total - lo) then add_int lo rows else pos total)

-- xs[lo:hi], or nothing where that is out of range
unfoldable pub slice : {A : Type 0} → List A → ℕ → ℤ → Option (List A)
slice xs lo (negsuc n) = none
slice xs lo (pos hi) =
    if leb lo hi
    then (if leb hi (length xs) then some (take (hi - lo) (drop lo xs)) else none)
    else none

-- window
unfoldable pub window : {A : Type 0} → ℕ → ℕ → List A → Option (List A)
unfolding bounds slice
window start rows xs = let (lo, hi) = bounds start rows (length xs) in slice xs lo hi

-- the window of lo and hi, if they are ordered and hi is no more than the length
slice-order :
    {A : Type 0} (xs : List A) (lo hi : ℕ)
    → lo ≤ hi
    → hi ≤ length xs
    → slice xs lo (pos hi) ≡ some (take (hi - lo) (drop lo xs))
unfolding slice
slice-order xs lo hi p q = ground (arith)

module _ (start rows total : ℕ) (h : total < 9223372036854775808) where
  bounds-lo : (bounds start rows total).0 ≡ (if ltb total start then total else start)
  unfolding bounds clamp
  bounds-lo = ground (arith)

  -- hi, which is never past the end
  abbrev pub last : ℕ
  last =
      if leb rows (total - (bounds start rows total).0)
      then (bounds start rows total).0 + rows
      else total

  bounds-last : (bounds start rows total).1 ≡ pos last
  unfolding bounds clamp add_int
  bounds-last = ground (arith)

  pub bounds-order : ((bounds start rows total).0 ≤ last) × (last ≤ total)
  bounds-order = ground (arith, bounds-lo)

module _ {A : Type 0} where
  take_all : (n : ℕ) (xs : List A) → length xs ≤ n → take n xs ≡ xs
  take_all zero [] h = refl
  take_all zero (x ∷ xs) h = absurd (omega (arith, h))
  take_all (suc n) [] h = refl
  take_all (suc n) (x ∷ xs) h = ap (λ ys. x ∷ ys) (take_all n xs (omega (arith, h)))

  length-drop : (n : ℕ) (xs : List A) → length (drop n xs) ≡ length xs - n
  length-drop zero xs = omega arith
  length-drop (suc n) [] = omega arith
  length-drop (suc n) (x ∷ xs) = omega (arith, length-drop n xs)

  drop_all : (n : ℕ) (xs : List A) → length xs ≤ n → drop n xs ≡ []
  drop_all zero [] h = refl
  drop_all zero (x ∷ xs) h = absurd (omega (arith, h))
  drop_all (suc n) [] h = refl
  drop_all (suc n) (x ∷ xs) h = drop_all n xs (omega (arith, h))

-- Paging never goes out of range and never overflows, whatever the caller asks for: the rows are
-- those after the first `start`, at most `rows` of them, if there are fewer than 2 ^ 63 matches.
pub window-take-drop :
    {A : Type 0} (start rows : ℕ) (xs : List A)
    → length xs < 9223372036854775808
    → window start rows xs ≡ some (take rows (drop start xs))
unfolding window
window-take-drop start rows xs h =
    let lo = (bounds start rows (length xs)).0 in
    let hi = last start rows (length xs) h in
    let (p, q) = bounds-order start rows (length xs) h in
    let dropped : drop lo xs ≡ drop start xs = elim (Bool-cases (ltb (length xs) start)) [
      | inl past ↦
          rw (bounds-lo start rows (length xs) h, past)
            (drop_all (length xs) xs (omega arith) ∙ sym (drop_all start xs (ground arith)))
      | inr within ↦ rw (bounds-lo start rows (length xs) h, within) refl
    ] in
    let taken : take (hi - lo) (drop lo xs) ≡ take rows (drop lo xs) =
      elim (Bool-cases (leb rows (length xs - lo))) [
        | inl fits ↦ ap (λ n. take n (drop lo xs)) (ground (arith))
        | inr over ↦
            take_all (hi - lo) (drop lo xs) (ground (arith, length-drop lo xs))
            ∙ sym (take_all rows (drop lo xs) (ground (arith, length-drop lo xs)))
      ] in
    ap (λ z. slice xs lo z) (bounds-last start rows (length xs) h)
    ∙ slice-order xs lo hi p q
    ∙ ap some (taken ∙ ap (take rows) dropped)
