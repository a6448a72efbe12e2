-- ===== src/Search/Glob.antt =====
-- internal/search/query.go: the pattern of a wildcarded term, and the leaf query of a term.
use cinc_server_ng.Prelude.{
  ℕ, ◌≡◌, refl, ap, all, cut_prefix, Bool, true, false, not, ◌&&◌, ◌||◌, none, some, List, [], ◌∷◌,
  ◌++◌, arith, Bytes, ◌==◌, eqb, if◌then◌else◌, map, Bool-cases, inl, inr,
}
use cinc_server_ng.Search.Query.{
  Runtime, Query, match_all, term_q, exists_q, Piece, char, any_char, any_run, match_string,
  star_text,
}

abbrev backslash : ℕ
backslash = 92

-- The loop of wildcardToRegexp, over the code points; a backslash at the end stands for nothing.
unfoldable pub pieces : Bytes → List Piece
pieces [] = []
pieces (c ∷ []) =
    if eqb c backslash
    then []
    else if eqb c b'*'
    then any_run ∷ []
    else if eqb c b'?'
    then any_char ∷ []
    else char c ∷ []
pieces (c ∷ e ∷ s) =
    let escaped = pieces s in
    let rest = pieces (e ∷ s) in
    if eqb c backslash
    then char e ∷ escaped
    else if eqb c b'*'
    then any_run ∷ rest
    else if eqb c b'?'
    then any_char ∷ rest
    else char c ∷ rest

-- hasWildcard
unfoldable pub has_wildcard : Bytes → Bool
has_wildcard [] = false
has_wildcard (c ∷ []) = if eqb c backslash then false else eqb c b'*' || eqb c b'?'
has_wildcard (c ∷ e ∷ s) =
    let skipped = has_wildcard s in
    let rest = has_wildcard (e ∷ s) in
    if eqb c backslash then skipped else if eqb c b'*' || eqb c b'?' then true else rest

module _ (R : Runtime) where
  open R use {to_lower}

  -- buildTerm
  unfoldable pub build_term : Bytes → Bytes → Bytes → Bool → Query
  unfolding pieces has_wildcard
  build_term field value glob phrase =
      let f = to_lower field in
      let v = to_lower value in
      let g = to_lower glob in
      if g == star_text
      then (if f == [] || f == star_text then match_all else exists_q f)
      else term_q (record {
        field = f;
        value = v;
        phrase = phrase;
        re = if not phrase && has_wildcard g then some (pieces g) else none;
      })

abbrev pub is_special : ℕ → Bool
is_special c = eqb c b'*' || eqb c b'?' || eqb c backslash

-- The pattern that the lexer keeps for a word all of whose special characters were escaped.
unfoldable pub escape : Bytes → Bytes
escape [] = []
escape (c ∷ s) = if is_special c then backslash ∷ c ∷ escape s else c ∷ escape s

pieces_plain : (c : ℕ) (s : Bytes) → is_special c ≡ false → pieces (c ∷ s) ≡ char c ∷ pieces s
unfolding pieces
pieces_plain c [] h = ground arith
pieces_plain c (e ∷ s) h = ground arith

pieces_escaped : (c : ℕ) (s : Bytes) → pieces (backslash ∷ c ∷ s) ≡ char c ∷ pieces s
unfolding pieces
pieces_escaped c s = refl

-- A pattern that begins with an escaped text begins with that text's characters.
pieces-escape-append : (u t : Bytes) → pieces (escape u ++ t) ≡ map char u ++ pieces t
unfolding escape
pieces-escape-append [] t = refl
pieces-escape-append (c ∷ u) t = elim (Bool-cases (is_special c)) [
  | inl e ↦
      rw (e, escape)
        (rw (pieces_escaped c (escape u ++ t)) (ap (λ ps. char c ∷ ps) (pieces-escape-append u t)))
  | inr e ↦
      rw (e, escape)
        (rw (pieces_plain c (escape u ++ t) e) (ap (λ ps. char c ∷ ps) (pieces-escape-append u t)))
]

-- The text has no newline.
abbrev pub one_line : Bytes → Bool
one_line = all (λ c. not (eqb c 10))

star_end : (w : Bytes) → match_string (any_run ∷ []) w ≡ one_line w
unfolding match_string
star_end [] = refl
star_end (c ∷ w) = ground (arith, star_end w)

literal_star :
    (u w : Bytes)
    → match_string (map char u ++ any_run ∷ []) w
      ≡ (elim (cut_prefix w u) [ none ↦ false | some rest ↦ one_line rest ])
unfolding match_string cut_prefix
literal_star [] [] = star_end []
literal_star [] (d ∷ w) = star_end (d ∷ w)
literal_star (c ∷ u) [] = refl
literal_star (c ∷ u) (d ∷ w) = ground (arith, literal_star u w)

-- Escaped characters are literal, and an open end matches the rest of a line: the pattern of a text
-- with every special character escaped and an asterisk behind it matches exactly the values that
-- begin with that text and have no newline behind it.
pub match-escape_star :
    (u w : Bytes)
    → match_string (pieces (escape u ++ b'*' ∷ [])) w
      ≡ (elim (cut_prefix w u) [ none ↦ false | some rest ↦ one_line rest ])
unfolding pieces
match-escape_star u w = rw (pieces-escape-append u (b'*' ∷ [])) (literal_star u w)
