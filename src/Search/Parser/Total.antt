-- ===== src/Search/Parser/Total.antt =====
-- The parser always answers: its fuel is enough, it stops at the end token, and no query that it
-- returns asks for a nameless field.
use cinc_server_ng.Prelude.{
  ℕ, zero, suc, ◌+◌, ◌*◌, ◌≤◌, ◌<◌, ◌≡◌, ◌≢◌, Bool, true, false, List, [], ◌∷◌, arith, Bytes, ◌==◌,
  length, Result, ok, err, ◌>>=◌, Bool-cases, inl, inr,
}
use mathlib.Core.Path.{subst}
use cinc_server_ng.Search.Query.{Runtime, Query, and_q, or_q, star_text}
use cinc_server_ng.Search.Plan.{IsPlannable}
use cinc_server_ng.Search.Glob.{build_term}
use cinc_server_ng.Search.Lexer.{
  ParseError, unexpected_token, missing_paren, out_of_fuel, Token, eof, lparen, rparen, and_t, or_t,
  not_t, colon, word, phrase, range, lex,
}
use cinc_server_ng.Search.Lexer.Total.{EndsInEof, IsLexed, lexed, refused, lex-IsLexed}
use cinc_server_ng.Search.Parser.{
  Tokens, peek, advance, Parsed, rest_of, negated, clause_value, clause_from, parse_clause,
  parse_or, or_loop, parse_and, and_loop, parse_unary, parse_primary, parse,
}

advance-EndsInEof : (ts : Tokens) → EndsInEof ts → EndsInEof (advance ts)
advance-EndsInEof [] h = h
advance-EndsInEof (t ∷ []) h = h
advance-EndsInEof (t ∷ u ∷ ts) h = h

-- A token that is not the end token is passed.
length-advance :
    (t : Token) (ts : Tokens)
    → EndsInEof (t ∷ ts)
    → t ≢ eof
    → length (advance (t ∷ ts)) < length (t ∷ ts)
length-advance t [] h n = absurd (n h)
length-advance t (u ∷ ts) h n = omega arith

length-advance-le : (ts : Tokens) → length (advance ts) ≤ length ts
length-advance-le [] = omega arith
length-advance-le (t ∷ []) = omega arith
length-advance-le (t ∷ u ∷ ts) = omega arith

-- A result that is an error of Parse, or a query with fewer than `n` tokens left.
abbrev IsFine : ℕ → Parsed → Type 0
IsFine n (ok r) = IsPlannable r.0 × EndsInEof r.1 × (length r.1 < n)
IsFine n (err e) = e ≢ out_of_fuel

IsFine-bind :
    (k n : ℕ) (m : Parsed) (f : Query × Tokens → Parsed)
    → IsFine k m
    → ((q : Query) (ts : Tokens)
        → IsPlannable q
        → EndsInEof ts
        → length ts < k
        → IsFine n (f (q, ts)))
    → IsFine n (m >>= f)
IsFine-bind k n (ok r) f h g = g r.0 r.1 h.0 h.1 h.2
IsFine-bind k n (err e) f h g = h

err_injective :
    (d : ParseError) → ◌≡◌ {A = Result ParseError Query} (err d) (err out_of_fuel) → d ≡ out_of_fuel
err_injective d e = cc

ok_injective : (p q : Query) → ◌≡◌ {A = Result ParseError Query} (ok p) (ok q) → p ≡ q
ok_injective p q e = cc

module _ (R : Runtime) where
  build_term-IsPlannable :
      (field value glob : Bytes) (p : Bool) → IsPlannable (build_term R field value glob p)
  unfolding build_term
  build_term-IsPlannable field value glob p = elim (Bool-cases (R.to_lower glob == star_text)) [
    | inl e ↦ elim (Bool-cases (R.to_lower field == [])) [
      | inl e' ↦ rw (e, e') tt
      | inr e' ↦ elim (Bool-cases (R.to_lower field == star_text)) [
        | inl e'' ↦ rw (e, e', e'') tt
        | inr e'' ↦ rw (e, e', e'') e'
      ]
    ]
    | inr e ↦ rw e tt
  ]

  negated-IsPlannable : (b : Bool) (q : Query) → IsPlannable q → IsPlannable (negated b q)
  negated-IsPlannable true q h = h
  negated-IsPlannable false q h = h

  clause_value-IsFine :
      (n : ℕ) (field : Bytes) (negate : Bool) (t : Token) (ts : Tokens)
      → EndsInEof ts
      → length ts < n
      → IsFine n (clause_value R field t >>= (λ q. ok (negated negate q, ts)))
  unfolding clause_value
  clause_value-IsFine n field negate (word text glob b) ts h l =
      (negated-IsPlannable negate _ (build_term-IsPlannable field text glob false), h, l)
  clause_value-IsFine n field negate (phrase text) ts h l =
      (negated-IsPlannable negate _ (build_term-IsPlannable field text text true), h, l)
  clause_value-IsFine n field negate (range lo hi inc_lo inc_hi) ts h l =
      (negated-IsPlannable negate _ tt, h, l)
  clause_value-IsFine n field negate _ ts h l = λ e. cc

  clause_from-IsFine :
      (n : ℕ) (field glob : Bytes) (negate : Bool) (ts : Tokens)
      → EndsInEof ts
      → length ts < n
      → IsFine n (clause_from R field glob negate ts)
  unfolding clause_from
  clause_from-IsFine n field glob negate [] h l = absurd h
  clause_from-IsFine n field glob negate (colon ∷ ts) h l =
      let us = advance (colon ∷ ts) in
      clause_value-IsFine n field negate (peek us) (advance us)
        (advance-EndsInEof us (advance-EndsInEof (colon ∷ ts) h))
        (omega (arith, length-advance-le us, length-advance-le (colon ∷ ts)))
  clause_from-IsFine n field glob negate (eof ∷ ts) h l =
      (negated-IsPlannable negate _ (build_term-IsPlannable [] field glob false), h, l)
  clause_from-IsFine n field glob negate (t ∷ ts) h l =
      (negated-IsPlannable negate _ (build_term-IsPlannable [] field glob false), h, l)

  parse_clause-IsFine :
      (text glob : Bytes) (negate : Bool) (ts : Tokens)
      → EndsInEof (word text glob negate ∷ ts)
      → IsFine
          (length (word text glob negate ∷ ts))
          (parse_clause R text glob negate (word text glob negate ∷ ts))
  unfolding parse_clause
  parse_clause-IsFine text glob true ts h =
      clause_from-IsFine _ (rest_of text) (rest_of glob) true _
        (advance-EndsInEof (word text glob true ∷ ts) h) (length-advance _ ts h (λ e. cc))
  parse_clause-IsFine text glob false ts h =
      clause_from-IsFine _ text glob false _ (advance-EndsInEof (word text glob false ∷ ts) h)
        (length-advance _ ts h (λ e. cc))

  closing-IsFine :
      (n : ℕ) (q : Query) (ts : Tokens)
      → IsPlannable q
      → EndsInEof ts
      → length ts < n
      → IsFine n (elim (peek ts) [ rparen ↦ ok (q, advance ts) | _ ↦ err missing_paren ])
  closing-IsFine n q [] p h l = absurd h
  closing-IsFine n q (rparen ∷ ts) p h l =
      (p, advance-EndsInEof (rparen ∷ ts) h, omega (arith, length-advance-le (rparen ∷ ts)))
  closing-IsFine n q (t ∷ ts) p h l = λ e. cc

  mutual
    unfolding parse_or

    or-IsFine :
        (fuel : ℕ) (ts : Tokens)
        → EndsInEof ts
        → 5 * length ts + 4 ≤ fuel
        → IsFine (length ts) (parse_or R fuel ts)
    or-IsFine zero ts h l = absurd (omega arith)
    or-IsFine (suc fuel) ts h l =
        IsFine-bind (length ts) (length ts) (parse_and R fuel ts) _
          (and-IsFine fuel ts h (omega arith))
          (λ q us p k m. or_loop-IsFine fuel q us (length ts) p k m (omega arith))

    or_loop-IsFine :
        (fuel : ℕ) (left : Query) (ts : Tokens) (n : ℕ)
        → IsPlannable left
        → EndsInEof ts
        → length ts < n
        → 5 * length ts + 4 ≤ fuel
        → IsFine n (or_loop R fuel left ts)
    or_loop-IsFine zero left ts n p h m l = absurd (omega arith)
    or_loop-IsFine (suc fuel) left [] n p h m l = absurd h
    or_loop-IsFine (suc fuel) left (or_t ∷ ts) n p h m l =
        let us = advance (or_t ∷ ts) in
        let shorter : length us < length (or_t ∷ ts) = length-advance or_t ts h (λ e. cc) in
        IsFine-bind (length us) n (parse_and R fuel us) _
          (and-IsFine fuel us (advance-EndsInEof (or_t ∷ ts) h) (omega arith))
          (λ q vs p' k m'.
            or_loop-IsFine fuel (or_q left q) vs n (p, p') k (omega arith) (omega arith))
    or_loop-IsFine (suc fuel) left (t ∷ ts) n p h m l = (p, h, m)

    and-IsFine :
        (fuel : ℕ) (ts : Tokens)
        → EndsInEof ts
        → 5 * length ts + 3 ≤ fuel
        → IsFine (length ts) (parse_and R fuel ts)
    and-IsFine zero ts h l = absurd (omega arith)
    and-IsFine (suc fuel) ts h l =
        IsFine-bind (length ts) (length ts) (parse_unary R fuel ts) _
          (unary-IsFine fuel ts h (omega arith))
          (λ q us p k m. and_loop-IsFine fuel q us (length ts) p k m (omega arith))

    and_loop-IsFine :
        (fuel : ℕ) (left : Query) (ts : Tokens) (n : ℕ)
        → IsPlannable left
        → EndsInEof ts
        → length ts < n
        → 5 * length ts + 3 ≤ fuel
        → IsFine n (and_loop R fuel left ts)
    and_loop-IsFine zero left ts n p h m l = absurd (omega arith)
    and_loop-IsFine (suc fuel) left [] n p h m l = absurd h
    and_loop-IsFine (suc fuel) left (and_t ∷ ts) n p h m l =
        let us = advance (and_t ∷ ts) in
        let shorter : length us < length (and_t ∷ ts) = length-advance and_t ts h (λ e. cc) in
        IsFine-bind (length us) n (parse_unary R fuel us) _
          (unary-IsFine fuel us (advance-EndsInEof (and_t ∷ ts) h) (omega arith))
          (λ q vs p' k m'.
            and_loop-IsFine fuel (and_q left q) vs n (p, p') k (omega arith) (omega arith))
    and_loop-IsFine (suc fuel) left (word a b c ∷ ts) n p h m l =
        IsFine-bind (length (word a b c ∷ ts)) n (parse_unary R fuel (word a b c ∷ ts)) _
          (unary-IsFine fuel (word a b c ∷ ts) h (omega arith))
          (λ q vs p' k m'.
            and_loop-IsFine fuel (and_q left q) vs n (p, p') k (omega arith) (omega arith))
    and_loop-IsFine (suc fuel) left (phrase a ∷ ts) n p h m l =
        IsFine-bind (length (phrase a ∷ ts)) n (parse_unary R fuel (phrase a ∷ ts)) _
          (unary-IsFine fuel (phrase a ∷ ts) h (omega arith))
          (λ q vs p' k m'.
            and_loop-IsFine fuel (and_q left q) vs n (p, p') k (omega arith) (omega arith))
    and_loop-IsFine (suc fuel) left (lparen ∷ ts) n p h m l =
        IsFine-bind (length (lparen ∷ ts)) n (parse_unary R fuel (lparen ∷ ts)) _
          (unary-IsFine fuel (lparen ∷ ts) h (omega arith))
          (λ q vs p' k m'.
            and_loop-IsFine fuel (and_q left q) vs n (p, p') k (omega arith) (omega arith))
    and_loop-IsFine (suc fuel) left (not_t ∷ ts) n p h m l =
        IsFine-bind (length (not_t ∷ ts)) n (parse_unary R fuel (not_t ∷ ts)) _
          (unary-IsFine fuel (not_t ∷ ts) h (omega arith))
          (λ q vs p' k m'.
            and_loop-IsFine fuel (and_q left q) vs n (p, p') k (omega arith) (omega arith))
    and_loop-IsFine (suc fuel) left (t ∷ ts) n p h m l = (p, h, m)

    unary-IsFine :
        (fuel : ℕ) (ts : Tokens)
        → EndsInEof ts
        → 5 * length ts + 2 ≤ fuel
        → IsFine (length ts) (parse_unary R fuel ts)
    unary-IsFine zero ts h l = absurd (omega arith)
    unary-IsFine (suc fuel) [] h l = absurd h
    unary-IsFine (suc fuel) (not_t ∷ ts) h l =
        let us = advance (not_t ∷ ts) in
        let shorter : length us < length (not_t ∷ ts) = length-advance not_t ts h (λ e. cc) in
        IsFine-bind (length us) (length (not_t ∷ ts)) (parse_unary R fuel us) _
          (unary-IsFine fuel us (advance-EndsInEof (not_t ∷ ts) h) (omega arith))
          (λ q vs p k m. (p, k, omega arith))
    unary-IsFine (suc fuel) (t ∷ ts) h l = primary-IsFine fuel (t ∷ ts) h (omega arith)

    primary-IsFine :
        (fuel : ℕ) (ts : Tokens)
        → EndsInEof ts
        → 5 * length ts + 1 ≤ fuel
        → IsFine (length ts) (parse_primary R fuel ts)
    primary-IsFine zero ts h l = absurd (omega arith)
    primary-IsFine (suc fuel) [] h l = absurd h
    primary-IsFine (suc fuel) (lparen ∷ ts) h l =
        let us = advance (lparen ∷ ts) in
        let shorter : length us < length (lparen ∷ ts) = length-advance lparen ts h (λ e. cc) in
        IsFine-bind (length us) (length (lparen ∷ ts)) (parse_or R fuel us) _
          (or-IsFine fuel us (advance-EndsInEof (lparen ∷ ts) h) (omega arith))
          (λ q vs p k m. closing-IsFine (length (lparen ∷ ts)) q vs p k (omega arith))
    primary-IsFine (suc fuel) (phrase a ∷ ts) h l = (
      build_term-IsPlannable [] a a true,
      advance-EndsInEof (phrase a ∷ ts) h,
      length-advance (phrase a) ts h (λ e. cc),
    )
    primary-IsFine (suc fuel) (word a b c ∷ ts) h l = parse_clause-IsFine a b c ts h
    primary-IsFine (suc fuel) (t ∷ ts) h l = λ e. cc

  data IsAnswer : Result ParseError Query → Type 0 where
    answered : {q : Query} → IsPlannable q → IsAnswer (ok q)
    declined : {e : ParseError} → e ≢ out_of_fuel → IsAnswer (err e)

  -- the test that the whole query was used
  end-IsAnswer :
      (n : ℕ) (r : Parsed)
      → IsFine n r
      → IsAnswer (r >>= (λ r. elim (peek r.1) [ eof ↦ ok r.0 | _ ↦ err unexpected_token ]))
  end-IsAnswer n (ok (q, [])) h = absurd h.1
  end-IsAnswer n (ok (q, eof ∷ ts)) h = answered h.0
  end-IsAnswer n (ok (q, t ∷ ts)) h = declined (λ e. cc)
  end-IsAnswer n (err e) h = declined h

  tokens-IsAnswer :
      (r : Result ParseError (List Token))
      → IsLexed r
      → IsAnswer (
          r >>= (λ ts.
            parse_or R (length ts * 5 + 5) ts
            >>= (λ r. elim (peek r.1) [ eof ↦ ok r.0 | _ ↦ err unexpected_token ])))
  tokens-IsAnswer r (lexed {ts} h) =
      end-IsAnswer (length ts) (parse_or R (length ts * 5 + 5) ts)
        (or-IsFine (length ts * 5 + 5) ts h (omega arith))
  tokens-IsAnswer r (refused h) = declined h

  parse-IsAnswer : (s : Bytes) → IsAnswer (parse R s)
  unfolding parse
  parse-IsAnswer s = tokens-IsAnswer (lex R s) (lex-IsLexed R s)

  IsPlannable-of_IsAnswer :
      {r : Result ParseError Query} {q : Query} → IsAnswer r → r ≡ ok q → IsPlannable q
  IsPlannable-of_IsAnswer {q} (answered {q = q'} h) e = subst IsPlannable (ok_injective q' q e) h
  IsPlannable-of_IsAnswer (declined h) e = absurd (cc)

  ne_out_of_fuel_of_IsAnswer : {r : Result ParseError Query} → IsAnswer r → r ≢ err out_of_fuel
  ne_out_of_fuel_of_IsAnswer (answered h) e = cc
  ne_out_of_fuel_of_IsAnswer (declined {e = e'} h) e = h (err_injective e' e)

  -- For every text, Parse answers: it returns a query or one of its errors, and never runs out of the
  -- fuel that the model gives its loops.
  pub parse_total : (s : Bytes) → parse R s ≢ err out_of_fuel
  parse_total s = ne_out_of_fuel_of_IsAnswer (parse-IsAnswer s)

  -- No query that Parse returns asks for the existence of a nameless field.
  pub parse-IsPlannable : (s : Bytes) (q : Query) → parse R s ≡ ok q → IsPlannable q
  parse-IsPlannable s q e = IsPlannable-of_IsAnswer (parse-IsAnswer s) e
