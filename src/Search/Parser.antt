-- ===== src/Search/Parser.antt =====
-- internal/search/query.go: the parser. Its position is what is left of the tokens: the end token
-- is the last one, and `next` never passes it. The fuel bounds the depth of the calls.
pub mod Total
use cinc_server_ng.Prelude.{
  ℕ, zero, suc, ◌+◌, ◌*◌, Bool, true, false, List, [], ◌∷◌, Bytes, if◌then◌else◌, length, Result,
  ok, err, ◌>>=◌,
}
use cinc_server_ng.Search.Query.{Runtime, Query, and_q, or_q, not_q, range_q}
use cinc_server_ng.Search.Glob.{build_term}
use cinc_server_ng.Search.Lexer.{
  ParseError, unexpected_token, missing_paren, expected_value, out_of_fuel, Token, eof, lparen,
  rparen, and_t, or_t, not_t, colon, word, phrase, range, lex,
}

abbrev pub Tokens : Type 0
Tokens = List Token

abbrev pub peek : Tokens → Token
peek [] = eof
peek (t ∷ ts) = t

-- p.next(), the position after it
abbrev pub advance : Tokens → Tokens
advance [] = []
advance (t ∷ []) = t ∷ []
advance (t ∷ u ∷ ts) = u ∷ ts

abbrev pub Parsed : Type 0
Parsed = Result ParseError (Query × Tokens)

-- field[1:]
abbrev pub rest_of : Bytes → Bytes
rest_of [] = []
rest_of (c ∷ s) = s

abbrev negated : Bool → Query → Query
negated true q = not_q q
negated false q = q

module _ (R : Runtime) where
  open R use {to_lower}

  -- the value behind the colon
  clause_value : Bytes → Token → Result ParseError Query
  unfolding build_term
  clause_value field (word text glob negate) = ok (build_term R field text glob false)
  clause_value field (phrase text) = ok (build_term R field text text true)
  clause_value field (range lo hi inc_lo inc_hi) = ok (
      range_q
        (record { field = to_lower field; lo = lo; hi = hi; inc_lo = inc_lo; inc_hi = inc_hi }))
  clause_value field _ = err expected_value

  -- parseClause from the word on: with a colon behind it the word is a field, else a bare term.
  clause_from : Bytes → Bytes → Bool → Tokens → Parsed
  unfolding clause_value
  clause_from field glob negate ts = elim (peek ts) [
    | colon ↦
        let us = advance ts in
        clause_value field (peek us) >>= (λ q. ok (negated negate q, advance us))
    | _ ↦ ok (negated negate (build_term R [] field glob false), ts)
  ]

  -- parseClause
  pub parse_clause : Bytes → Bytes → Bool → Tokens → Parsed
  unfolding clause_from
  parse_clause text glob negate ts =
      if negate
      then clause_from (rest_of text) (rest_of glob) true (advance ts)
      else clause_from text glob false (advance ts)

  unfoldable mutual
    pub parse_or : ℕ → Tokens → Parsed
    parse_or zero ts = err out_of_fuel
    parse_or (suc fuel) ts = parse_and fuel ts >>= (λ r. or_loop fuel r.0 r.1)

    -- the loop of parseOr, with what was parsed so far
    pub or_loop : ℕ → Query → Tokens → Parsed
    or_loop zero left ts = err out_of_fuel
    or_loop (suc fuel) left ts = elim (peek ts) [
      | or_t ↦ parse_and fuel (advance ts) >>= (λ r. or_loop fuel (or_q left r.0) r.1)
      | _ ↦ ok (left, ts)
    ]

    pub parse_and : ℕ → Tokens → Parsed
    parse_and zero ts = err out_of_fuel
    parse_and (suc fuel) ts = parse_unary fuel ts >>= (λ r. and_loop fuel r.0 r.1)

    -- the loop of parseAnd: juxtaposition is AND
    pub and_loop : ℕ → Query → Tokens → Parsed
    and_loop zero left ts = err out_of_fuel
    and_loop (suc fuel) left ts = elim (peek ts) [
      | and_t ↦ parse_unary fuel (advance ts) >>= (λ r. and_loop fuel (and_q left r.0) r.1)
      | word text glob negate ↦ parse_unary fuel ts >>= (λ r. and_loop fuel (and_q left r.0) r.1)
      | phrase text ↦ parse_unary fuel ts >>= (λ r. and_loop fuel (and_q left r.0) r.1)
      | lparen ↦ parse_unary fuel ts >>= (λ r. and_loop fuel (and_q left r.0) r.1)
      | not_t ↦ parse_unary fuel ts >>= (λ r. and_loop fuel (and_q left r.0) r.1)
      | _ ↦ ok (left, ts)
    ]

    pub parse_unary : ℕ → Tokens → Parsed
    parse_unary zero ts = err out_of_fuel
    parse_unary (suc fuel) ts = elim (peek ts) [
      | not_t ↦ parse_unary fuel (advance ts) >>= (λ r. ok (not_q r.0, r.1))
      | _ ↦ parse_primary fuel ts
    ]

    pub parse_primary : ℕ → Tokens → Parsed
    parse_primary zero ts = err out_of_fuel
    parse_primary (suc fuel) ts = elim (peek ts) [
      | lparen ↦
          parse_or fuel (advance ts)
          >>= (λ r. elim (peek r.1) [ rparen ↦ ok (r.0, advance r.1) | _ ↦ err missing_paren ])
      | phrase text ↦ ok (build_term R [] text text true, advance ts)
      | word text glob negate ↦ parse_clause text glob negate ts
      | _ ↦ err unexpected_token
    ]

  -- Parse: the whole of the tokens must be used up.
  unfoldable pub parse : Bytes → Result ParseError Query
  unfolding lex parse_or parse_clause
  parse s = lex R s >>= (λ ts.
      parse_or (length ts * 5 + 5) ts
      >>= (λ r. elim (peek r.1) [ eof ↦ ok r.0 | _ ↦ err unexpected_token ]))
