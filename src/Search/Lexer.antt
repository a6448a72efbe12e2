-- ===== src/Search/Lexer.antt =====
-- internal/search/query.go: the tokens of a query.
pub mod Total
use cinc_server_ng.Prelude.{
  ℕ, zero, suc, ◌+◌, ◌≤◌, Bool, true, false, not, ◌&&◌, ◌||◌, Option, none, some, List, [], ◌∷◌,
  ◌++◌, any, Bytes, lit, ◌==◌, eqb, leb, ltb, cut_prefix, length, is_empty, if◌then◌else◌, Result,
  ok, err, ◌>>=◌,
}
use cinc_server_ng.Search.Query.{Runtime}

-- The messages of Parse, one for each place that returns an error. `out_of_fuel` is none of them.
pub data ParseError : Type 0 where
  unterminated_phrase unterminated_range malformed_range trailing_escape : ParseError
  unexpected_character unexpected_token missing_paren expected_value out_of_fuel : ParseError

pub data Token : Type 0 where
  eof lparen rparen and_t or_t not_t colon : Token
  word : (text glob : Bytes) → (negate : Bool) → Token
  phrase : Bytes → Token
  range : (lo hi : Bytes) → (inc_lo inc_hi : Bool) → Token

-- strings.IndexByte and the two slices around the byte
unfoldable pub cut_byte : ℕ → Bytes → Option (Bytes × Bytes)
cut_byte b [] = none
cut_byte b (c ∷ s) =
    if eqb c b
    then some ([], s)
    else elim (cut_byte b s) [ none ↦ none | some (before, after) ↦ some (c ∷ before, after) ]

-- strings.Cut
unfoldable pub cut : Bytes → Bytes → Option (Bytes × Bytes)
cut sep [] = elim (cut_prefix [] sep) [ none ↦ none | some rest ↦ some ([], rest) ]
cut sep (c ∷ s) = elim (cut_prefix (c ∷ s) sep) [
  | some rest ↦ some ([], rest)
  | none ↦ elim (cut sep s) [ none ↦ none | some (before, after) ↦ some (c ∷ before, after) ]
]

-- unicode.IsSpace
unfoldable pub is_space : ℕ → Bool
is_space c =
    leb 9 c && leb c 13
    || eqb c 32
    || eqb c 0x85
    || eqb c 0xa0
    || eqb c 0x1680
    || leb 0x2000 c && leb c 0x200a
    || eqb c 0x2028
    || eqb c 0x2029
    || eqb c 0x202f
    || eqb c 0x205f
    || eqb c 0x3000

unfoldable pub trim_left : Bytes → Bytes
unfolding is_space
trim_left [] = []
trim_left (c ∷ s) = if is_space c then trim_left s else c ∷ s

unfoldable pub trim_right : Bytes → Bytes
unfolding is_space
trim_right [] = []
trim_right (c ∷ s) = let rest = trim_right s in if is_empty rest && is_space c then [] else c ∷ rest

-- strings.TrimSpace
unfoldable pub trim_space : Bytes → Bytes
unfolding trim_left trim_right
trim_space s = trim_right (trim_left s)

-- the bytes of " \t\n\r()[]{}\":"
abbrev pub is_delimiter : ℕ → Bool
is_delimiter c =
    any (eqb c) (32 ∷ 9 ∷ 10 ∷ 13 ∷ b'(' ∷ b')' ∷ b'[' ∷ b']' ∷ b'{' ∷ b'}' ∷ 34 ∷ b':' ∷ [])

-- A word: as it stands, with its escapes resolved, as a pattern, and what follows it.
pub record Word : Type 0 where
  pub raw : Bytes
  pub text : Bytes
  pub glob : Bytes
  pub rest : Bytes

abbrev backslash : ℕ
backslash = 92

abbrev plain_byte : ℕ → Word → Word
plain_byte c w = record w { raw = c ∷ w.raw; text = c ∷ w.text; glob = c ∷ w.glob }

-- the escape before `e` is kept in the pattern where the pattern needs it
abbrev pub glob_escape : ℕ → Bytes → Bytes
glob_escape e glob =
    if eqb e b'*' || eqb e b'?' || eqb e backslash then backslash ∷ e ∷ glob else e ∷ glob

abbrev escaped_byte : ℕ → Word → Word
escaped_byte e w = record w {
  raw = backslash ∷ e ∷ w.raw;
  text = e ∷ w.text;
  glob = glob_escape e w.glob;
}

abbrev word_end : Bytes → Word
word_end s = record { raw = []; text = []; glob = []; rest = s }

-- the default case of the lexer's switch, up to the end of the word
unfoldable pub scan_word : Bytes → Result ParseError Word
scan_word [] = ok (word_end [])
scan_word (c ∷ []) =
    if is_delimiter c
    then ok (word_end (c ∷ []))
    else if eqb c backslash
    then err trailing_escape
    else ok (plain_byte c (word_end []))
scan_word (c ∷ e ∷ s) =
    let escaped = scan_word s in
    let plain = scan_word (e ∷ s) in
    if is_delimiter c
    then ok (word_end (c ∷ e ∷ s))
    else if eqb c backslash
    then escaped >>= (λ w. ok (escaped_byte e w))
    else plain >>= (λ w. ok (plain_byte c w))

abbrev is_dash_word : Bytes → Bool
is_dash_word [] = false
is_dash_word (c ∷ s) = eqb c b'-' && not (is_empty s)

word_token : Word → Token
word_token w =
    if w.raw == lit "AND"
    then and_t
    else if w.raw == lit "OR"
    then or_t
    else if w.raw == lit "NOT"
    then not_t
    else word w.text w.glob (is_dash_word w.raw)

module _ (R : Runtime) where
  open R use {to_lower}

  -- the case of '[' and '{', with the bytes behind the opener
  lex_range : Bool → Bytes → Result ParseError (Token × Bytes)
  unfolding trim_space cut_byte cut
  lex_range inclusive s = elim (cut_byte (if inclusive then b']' else b'}') s) [
    | none ↦ err unterminated_range
    | some (inside, rest) ↦ elim (cut (lit " TO ") inside) [
      | none ↦ err malformed_range
      | some (lo, hi) ↦
          ok (range (to_lower (trim_space lo)) (to_lower (trim_space hi)) inclusive inclusive, rest)
    ]
  ]

  -- One round of the lexer's loop at the byte `c`, going on with `go`.
  pub lex_step :
      (Bytes → Result ParseError (List Token)) → ℕ → Bytes → Result ParseError (List Token)
  unfolding lex_range scan_word word_token cut_byte
  lex_step go c s =
      if eqb c 32 || eqb c 9 || eqb c 10 || eqb c 13
      then go s
      else if eqb c b'('
      then go s >>= (λ ts. ok (lparen ∷ ts))
      else if eqb c b')'
      then go s >>= (λ ts. ok (rparen ∷ ts))
      else if eqb c b':'
      then go s >>= (λ ts. ok (colon ∷ ts))
      else if eqb c 34
      then elim (cut_byte 34 s) [
        | none ↦ err unterminated_phrase
        | some (text, rest) ↦ go rest >>= (λ ts. ok (phrase text ∷ ts))
      ]
      else if eqb c b'[' || eqb c b'{'
      then lex_range (eqb c b'[') s >>= (λ tr. go tr.1 >>= (λ ts. ok (tr.0 ∷ ts)))
      else scan_word (c ∷ s) >>= (λ w.
        if is_empty w.raw
        then err unexpected_character
        else go w.rest >>= (λ ts. ok (word_token w ∷ ts)))

  -- The fuel bounds the rounds: each one takes a byte at least.
  unfoldable pub lex_from : ℕ → Bytes → Result ParseError (List Token)
  unfolding lex_step
  lex_from zero s = err out_of_fuel
  lex_from (suc fuel) [] = ok (eof ∷ [])
  lex_from (suc fuel) (c ∷ s) = lex_step (lex_from fuel) c s

  unfoldable pub lex : Bytes → Result ParseError (List Token)
  unfolding lex_from
  lex s = lex_from (length s + 1) s
