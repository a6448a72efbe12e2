-- ===== src/Search/Lexer/Total.antt =====
-- The lexer always answers: its fuel is enough, and its tokens end in the end token.
use cinc_server_ng.Prelude.{
  ℕ, zero, suc, ◌+◌, ◌≤◌, ◌<◌, ◌≡◌, ◌≢◌, refl, Bool, true, false, none, some, List, [], ◌∷◌, arith,
  Bytes, if◌then◌else◌, length, is_empty, Result, ok, err, ◌>>=◌, Bool-cases, Option-cases, inl,
  inr, eqb, lit,
}
use cinc_server_ng.Search.Query.{Runtime}
use cinc_server_ng.Search.Lexer.{
  ParseError, unterminated_phrase, unexpected_character, out_of_fuel, Token, eof, lparen, rparen,
  colon, phrase, cut_byte, cut, Word, scan_word, word_token, lex_range, lex_step, lex_from, lex,
  escaped_byte, plain_byte,
}

-- The end token is the last one.
abbrev pub EndsInEof : List Token → Type 0
EndsInEof [] = ⊥
EndsInEof (t ∷ []) = t ≡ eof
EndsInEof (t ∷ u ∷ ts) = EndsInEof (u ∷ ts)

-- Tokens that end, or an error of Parse.
pub data IsLexed : Result ParseError (List Token) → Type 0 where
  lexed : {ts : List Token} → EndsInEof ts → IsLexed (ok ts)
  refused : {e : ParseError} → e ≢ out_of_fuel → IsLexed (err e)

EndsInEof-cons : (t : Token) (ts : List Token) → EndsInEof ts → EndsInEof (t ∷ ts)
EndsInEof-cons t [] h = absurd h
EndsInEof-cons t (u ∷ ts) h = h

IsLexed-cons :
    (t : Token) (r : Result ParseError (List Token))
    → IsLexed r
    → IsLexed (r >>= (λ ts. ok (t ∷ ts)))
IsLexed-cons t r (lexed {ts} h) = lexed (EndsInEof-cons t ts h)
IsLexed-cons t r (refused h) = refused h

IsLexed-if :
    (b : Bool) (m n : Result ParseError (List Token))
    → IsLexed m
    → IsLexed n
    → IsLexed (if b then m else n)
IsLexed-if true m n h k = h
IsLexed-if false m n h k = k

length-cut_byte :
    (b : ℕ) (s before after : Bytes) → cut_byte b s ≡ some (before, after) → length after ≤ length s
unfolding cut_byte
length-cut_byte b [] before after h = cc
length-cut_byte b (c ∷ s) before after h = elim (Bool-cases (eqb c b)) [
  | inl e ↦ ground arith
  | inr e ↦ elim (Option-cases (cut_byte b s)) [
    | inl n ↦ ground arith
    | inr ((x, y), n) ↦ ground (arith, length-cut_byte b s x y n)
  ]
]

-- What a scan leaves is no longer than the text, and shorter if it took anything.
data IsScanned (s : Bytes) : Result ParseError Word → Type 0 where
  scanned :
      {w : Word}
      → length w.rest ≤ length s
      → (is_empty w.raw ≡ false → length w.rest < length s)
      → IsScanned s (ok w)
  bad : {e : ParseError} → e ≢ out_of_fuel → IsScanned s (err e)

IsScanned-map :
    (s t : Bytes) (r : Result ParseError Word) (f : Word → Word)
    → length s < length t
    → ((w : Word) → (f w).rest ≡ w.rest)
    → IsScanned s r
    → IsScanned t (r >>= (λ w. ok (f w)))
IsScanned-map s t r f l same (scanned {w} h k) =
    scanned (rw (same w) (omega arith)) (λ e. rw (same w) (omega arith))
IsScanned-map s t r f l same (bad h) = bad h

IsScanned-if :
    (s : Bytes) (b : Bool) (m n : Result ParseError Word)
    → IsScanned s m
    → IsScanned s n
    → IsScanned s (if b then m else n)
IsScanned-if s true m n h k = h
IsScanned-if s false m n h k = k

scan_word-IsScanned : (s : Bytes) → IsScanned s (scan_word s)
unfolding scan_word
scan_word-IsScanned [] = scanned (omega arith) (λ e. cc)
scan_word-IsScanned (c ∷ []) =
    IsScanned-if (c ∷ []) _ _ _ (scanned (omega arith) (λ e. cc))
      (IsScanned-if (c ∷ []) _ _ _ (bad (λ e. cc)) (scanned (omega arith) (λ e. omega arith)))
scan_word-IsScanned (c ∷ e ∷ s) = IsScanned-if (c ∷ e ∷ s) _ _ _ (scanned (omega arith) (λ e. cc)) (
    IsScanned-if (c ∷ e ∷ s) _ _ _
      (IsScanned-map s (c ∷ e ∷ s) (scan_word s) (escaped_byte e) (omega arith) (λ w. refl)
        (scan_word-IsScanned s))
      (IsScanned-map (e ∷ s) (c ∷ e ∷ s) (scan_word (e ∷ s)) (plain_byte c) (omega arith)
        (λ w. refl) (scan_word-IsScanned (e ∷ s))))

module _ (R : Runtime) where
  range-IsLexed :
      (go : Bytes → Result ParseError (List Token)) (b : Bool) (s : Bytes)
      → ((t : Bytes) → length t ≤ length s → IsLexed (go t))
      → IsLexed (lex_range R b s >>= (λ tr. go tr.1 >>= (λ ts. ok (tr.0 ∷ ts))))
  unfolding lex_range
  range-IsLexed go b s h = elim (Option-cases (cut_byte (if b then b']' else b'}') s)) [
    | inl e ↦ rw (e, lex_range) (refused (λ x. cc))
    | inr ((inside, rest), e) ↦ elim (Option-cases (cut (lit " TO ") inside)) [
      | inl n ↦ rw (e, n, lex_range) (refused (λ x. cc))
      | inr ((lo, hi), n) ↦
          rw (e, n, lex_range)
            (IsLexed-cons _ (go rest) (h rest (length-cut_byte _ s inside rest e)))
    ]
  ]

  phrase-IsLexed :
      (go : Bytes → Result ParseError (List Token)) (s : Bytes)
      → ((t : Bytes) → length t ≤ length s → IsLexed (go t))
      → IsLexed (elim (cut_byte 34 s) [
        | none ↦ err unterminated_phrase
        | some (text, rest) ↦ go rest >>= (λ ts. ok (phrase text ∷ ts))
      ])
  phrase-IsLexed go s h = elim (Option-cases (cut_byte 34 s)) [
    | inl e ↦ rw e (refused (λ x. cc))
    | inr ((text, rest), e) ↦
        rw e (IsLexed-cons _ (go rest) (h rest (length-cut_byte 34 s text rest e)))
  ]

  word-IsLexed :
      (go : Bytes → Result ParseError (List Token)) (r : Result ParseError Word) (s : Bytes)
      → IsScanned s r
      → ((t : Bytes) → length t < length s → IsLexed (go t))
      → IsLexed (
          r >>= (λ w.
            if is_empty w.raw
            then err unexpected_character
            else go w.rest >>= (λ ts. ok (word_token w ∷ ts))))
  word-IsLexed go r s (scanned {w} l h) k = elim (Bool-cases (is_empty w.raw)) [
    | inl e ↦ rw e (refused (λ x. cc))
    | inr e ↦ rw e (IsLexed-cons _ (go w.rest) (k w.rest (h e)))
  ]
  word-IsLexed go r s (bad h) k = refused h

  lex_step-IsLexed :
      (go : Bytes → Result ParseError (List Token)) (c : ℕ) (s : Bytes)
      → ((t : Bytes) → length t ≤ length s → IsLexed (go t))
      → IsLexed (lex_step R go c s)
  unfolding lex_step
  lex_step-IsLexed go c s h =
      let here = h s (omega arith) in
      IsLexed-if _ _ _ here (
        IsLexed-if _ _ _ (IsLexed-cons lparen (go s) here) (
          IsLexed-if _ _ _ (IsLexed-cons rparen (go s) here) (
            IsLexed-if _ _ _ (IsLexed-cons colon (go s) here) (
              IsLexed-if _ _ _ (phrase-IsLexed go s h) (
                IsLexed-if _ _ _ (range-IsLexed go (eqb c b'[') s h) (
                  word-IsLexed go (scan_word (c ∷ s)) (c ∷ s) (scan_word-IsScanned (c ∷ s))
                    (λ t l. h t (omega arith))))))))

  pub lex_from-IsLexed : (fuel : ℕ) (s : Bytes) → length s < fuel → IsLexed (lex_from R fuel s)
  unfolding lex_from
  lex_from-IsLexed zero s l = absurd (omega arith)
  lex_from-IsLexed (suc fuel) [] l = lexed refl
  lex_from-IsLexed (suc fuel) (c ∷ s) l =
      lex_step-IsLexed (lex_from R fuel) c s (λ t k. lex_from-IsLexed fuel t (omega arith))

  pub lex-IsLexed : (s : Bytes) → IsLexed (lex R s)
  unfolding lex
  lex-IsLexed s = lex_from-IsLexed (length s + 1) s (omega arith)
