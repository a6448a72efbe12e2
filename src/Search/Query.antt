-- ===== src/Search/Query.antt =====
-- internal/search/query.go: the queries and what they match. Texts are sequences of code points, as
-- in any valid UTF-8 string: every byte that the code tests is ASCII, and the order of the encodings
-- is the order of the code points.
use cinc_server_ng.Prelude.{
  ◌≡◌, get, ℕ, Bool, true, false, not, ◌&&◌, ◌||◌, Option, none, some, List, [], ◌∷◌, any, Bytes,
  lit, ◌==◌, eqb, Map, get_or, entries, is_empty, is_some, if◌then◌else◌,
}
use cinc_server_ng.Store.Memory.{less}

-- What the code takes from strconv, math and unicode: floats with their order, the parser of
-- floats, and the lower-case form of a text.
pub record Runtime : Type 1 where
  pub Float : Type 0
  pub parse_float : Bytes → Option Float
  pub float_lt : Float → Float → Bool
  pub float_eq : Float → Float → Bool
  pub to_lower : Bytes → Bytes

-- The compiled form of a wildcarded value: what the regular expression between ^ and $ is made of.
pub data Piece : Type 0 where
  char : ℕ → Piece
  any_char any_run : Piece

-- ".*", before the rest of the expression: "." matches anything but a newline.
star : (Bytes → Bool) → Bytes → Bool
star rest [] = rest []
star rest (c ∷ v) = rest (c ∷ v) || not (eqb c 10) && star rest v

-- re.MatchString
unfoldable pub match_string : List Piece → Bytes → Bool
unfolding star
match_string [] [] = true
match_string [] (d ∷ v) = false
match_string (char c ∷ ps) [] = false
match_string (char c ∷ ps) (d ∷ v) = eqb c d && match_string ps v
match_string (any_char ∷ ps) [] = false
match_string (any_char ∷ ps) (d ∷ v) = not (eqb d 10) && match_string ps v
match_string (any_run ∷ ps) v = star (match_string ps) v

pub record Term : Type 0 where
  pub field : Bytes
  pub value : Bytes
  pub phrase : Bool
  pub re : Option (List Piece)

pub record Range : Type 0 where
  pub field : Bytes
  pub lo : Bytes
  pub hi : Bytes
  pub inc_lo : Bool
  pub inc_hi : Bool

pub data Query : Type 0 where
  match_all : Query
  and_q or_q : Query → Query → Query
  not_q : Query → Query
  term_q : Term → Query
  exists_q : Bytes → Query
  range_q : Range → Query

-- IsMatchAll
unfoldable pub is_match_all : Query → Bool
is_match_all match_all = true
is_match_all _ = false

abbrev pub Fields : Type 0
Fields = Map (List Bytes)

-- Every field that is there has a value, as in all that `Flatten` returns.
abbrev pub HasValues : Fields → Type 0
HasValues d = (f : Bytes) (vs : List Bytes) → get d f ≡ some vs → is_empty vs ≡ false

-- f[k], where a missing field has no values
abbrev pub values : Fields → Bytes → List Bytes
values f k = get_or f k []

-- termQ.matchVal
unfoldable pub match_val : Term → Bytes → Bool
match_val q v = elim q.re [ none ↦ v == q.value | some re ↦ match_string re v ]

-- the loop over every value of every field
abbrev pub any_value : (Bytes → Bool) → Fields → Bool
any_value p f = any (λ e. any p e.1) (entries f)

abbrev pub star_text : Bytes
star_text = lit "*"

module _ (R : Runtime) where
  open R use {Float, parse_float, float_lt, float_eq}

  -- q.lo != "*" && (vn < lon || (!q.incLo && vn == lon)), and the same for the upper bound
  below : Bool → Float → Option Float → Bool
  below inc v none = false
  below inc v (some lo) = float_lt v lo || not inc && float_eq v lo

  above : Bool → Float → Option Float → Bool
  above inc v none = false
  above inc v (some hi) = float_lt hi v || not inc && float_eq v hi

  open_or_number : Bytes → Bool
  open_or_number b = b == star_text || is_some (parse_float b)

  bound : Bytes → Option Float
  bound b = if b == star_text then none else parse_float b

  lexical : Range → Bytes → Bool
  unfolding less
  lexical q v =
      if not (q.lo == star_text) && (less v q.lo || not q.inc_lo && v == q.lo)
      then false
      else if not (q.hi == star_text) && (less q.hi v || not q.inc_hi && v == q.hi)
      then false
      else true

  -- rangeQ.inRange: by number if the value and both bounds are numbers, else by text
  unfoldable pub in_range : Range → Bytes → Bool
  unfolding below above open_or_number bound lexical
  in_range q v = elim (parse_float v) [
    | none ↦ lexical q v
    | some n ↦
        if open_or_number q.lo && open_or_number q.hi
        then (if below q.inc_lo n (bound q.lo)
            then false
            else if above q.inc_hi n (bound q.hi)
            then false
            else true)
        else lexical q v
  ]

  -- Matches
  unfoldable pub matches : Query → Fields → Bool
  matches match_all f = true
  matches (and_q l r) f = matches l f && matches r f
  matches (or_q l r) f = matches l f || matches r f
  matches (not_q q) f = not (matches q f)
  matches (term_q t) f =
      if t.field == [] then any_value (match_val t) f else any (match_val t) (values f t.field)
  matches (exists_q field) f =
      if field == [] then not (is_empty (entries f)) else not (is_empty (values f field))
  matches (range_q q) f = any (in_range q) (values f q.field)
