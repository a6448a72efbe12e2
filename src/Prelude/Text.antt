-- ===== src/Prelude/Text.antt =====
-- Go's strings and byte slices: lists of bytes, with the functions of package strings that the
-- program calls.
use Prim.Native.Nat.{ℕ}
use Prim.Native.Char.{code}
use Prim.Native.String.{String}
use mathlib.Core.Path.{◌≡◌, refl}
use mathlib.Core.Bool.{Bool, true, false, ◌&&◌, ◌||◌}
use mathlib.Core.Logic.{◌↔◌, ◌≢◌}
use mathlib.Core.Option.{Option, none, some}
use mathlib.Core.List.{List, [], ◌∷◌, ◌++◌}
use native.Mathlib.Omega.{arith}
use cinc_server_ng.Prelude.Tests.{eqb, if◌then◌else◌}
use cinc_server_ng.Prelude.Lists.{any}

abbrev pub Bytes : Type 0
Bytes = List ℕ

-- The bytes of a literal of ASCII characters.
unfoldable pub lit : String → Bytes
lit String.[] = []
lit (String.◌∷◌ c s) = code c ∷ lit s

infix 50 ◌==◌
unfoldable pub ◌==◌ : Bytes → Bytes → Bool
[] == [] = true
[] == (b ∷ bs) = false
(a ∷ as') == [] = false
(a ∷ as') == (b ∷ bs) = eqb a b && as' == bs

==-sound : (a b : Bytes) → (a == b) ≡ true → a ≡ b
unfolding ◌==◌
==-sound [] [] h = refl
==-sound [] (b ∷ bs) h = cc
==-sound (a ∷ as') [] h = cc
==-sound (a ∷ as') (b ∷ bs) h = ground (arith, ==-sound as' bs)

pub eq_refl : (a : Bytes) → (a == a) ≡ true
unfolding ◌==◌
eq_refl [] = refl
eq_refl (a ∷ as') = ground (arith, eq_refl as')

pub eq_iff : (a b : Bytes) → ((a == b) ≡ true) ↔ (a ≡ b)
eq_iff a b = (==-sound a b, λ e. rw e (eq_refl b))

pub eq_comm : (a b : Bytes) → (a == b) ≡ (b == a)
eq_comm a b = ground (arith, eq_iff a b, eq_iff b a)

-- slices.Contains
abbrev pub contains : List Bytes → Bytes → Bool
contains xs v = any (λ x. x == v) xs

-- strings.HasPrefix, and the rest behind the prefix as strings.CutPrefix returns it.
unfoldable pub cut_prefix : Bytes → Bytes → Option Bytes
cut_prefix s [] = some s
cut_prefix [] (p ∷ ps) = none
cut_prefix (c ∷ s) (p ∷ ps) = if eqb c p then cut_prefix s ps else none

unfoldable pub has_prefix : Bytes → Bytes → Bool
has_prefix s [] = true
has_prefix [] (p ∷ ps) = false
has_prefix (c ∷ s) (p ∷ ps) = eqb c p && has_prefix s ps

-- strings.HasSuffix
unfoldable pub has_suffix : Bytes → Bytes → Bool
has_suffix [] suffix = [] == suffix
has_suffix (c ∷ s) suffix = let rest = has_suffix s suffix in c ∷ s == suffix || rest

-- strings.Split on a separator of one byte.
abbrev pub split_cons : ℕ → List Bytes → List Bytes
split_cons c [] = (c ∷ []) ∷ []
split_cons c (part ∷ parts) = (c ∷ part) ∷ parts

unfoldable pub split : Bytes → ℕ → List Bytes
split [] sep = [] ∷ []
split (c ∷ s) sep = let rest = split s sep in if eqb c sep then [] ∷ rest else split_cons c rest

-- No byte of the text is the separator.
abbrev pub IsFree : ℕ → Bytes → Type 0
IsFree sep [] = Unit
IsFree sep (c ∷ s) = (c ≢ sep) × IsFree sep s

pub split_of_IsFree : (s : Bytes) (sep : ℕ) → IsFree sep s → split s sep ≡ s ∷ []
unfolding split
split_of_IsFree [] sep h = refl
split_of_IsFree (c ∷ s) sep (p, h) = ground (arith, split_of_IsFree s sep h)

pub split-append :
    (s t : Bytes) (sep : ℕ) → IsFree sep s → split (s ++ sep ∷ t) sep ≡ s ∷ split t sep
unfolding split
split-append [] t sep h = ground arith
split-append (c ∷ s) t sep (p, h) = ground (arith, split-append s t sep h)
