-- ===== src/FieldPath.antt =====
-- internal/render/fieldpath.go, the notation of field paths: segments, `Path.String` and `Parse`.
-- A `Segment` is what the three builders of the source make. `field []` and `key_match [] v` are
-- the values of `FieldSegment("")` and `KeySegment("", v)`, which none of the predicates accepts.
pub mod Numbers
pub mod RoundTrip
mod Tests
use patch_operator.Base.{
  ℕ, zero, suc, ◌+◌, ◌-◌, ◌*◌, ◌/◌, ◌%◌, ◌^◌, Bool, true, false, ◌&&◌, Option, none, some, List, [],
  ◌∷◌, ◌++◌, Text, ltb, leb, eqb, if◌then◌else◌, length,
}

pub data Segment : Type 0 where
  field : Text → Segment
  index : ℕ → Segment
  key_match : Text → Text → Segment

abbrev pub FieldPath : Type 0
FieldPath = List Segment

-- Go's `int` on a 64-bit platform.
abbrev pub max_int : ℕ
max_int = 2 ^ 63 - 1

-- `strconv.Itoa` of a non-negative number; `n` rounds are enough, since each divides by ten.
pub digits : ℕ → ℕ → Text → Text
digits zero n out = (b'0' + n) ∷ out
digits (suc fuel) n out =
    if ltb n 10 then (b'0' + n) ∷ out else digits fuel (n / 10) ((b'0' + n % 10) ∷ out)

unfoldable pub itoa : ℕ → Text
unfolding digits
itoa n = digits n n []

-- the value of a run of digits, after those that make `n`
pub scan : ℕ → Text → Option ℕ
scan n [] = some n
scan n (c ∷ s) = if leb b'0' c && leb c b'9' then scan (n * 10 + (c - b'0')) s else none

pub data Atoi : Type 0 where
  number : ℕ → Atoi
  negative : Atoi
  invalid : Atoi

-- the outcome of `strconv.Atoi` on the digits behind a sign, and the test `n < 0`
pub signed : Bool → Text → Atoi
signed neg [] = invalid
signed neg (c ∷ s) = elim (scan 0 (c ∷ s)) [
  | none ↦ invalid
  | some n ↦
      if neg
      then (if eqb n 0 then number 0 else if leb n (2 ^ 63) then negative else invalid)
      else if leb n max_int
      then number n
      else invalid
]

-- `strconv.Atoi`, with the sign of the result told apart
unfoldable pub atoi : Text → Atoi
atoi [] = invalid
atoi (c ∷ s) =
    if eqb c b'-'
    then signed true s
    else if eqb c b'+'
    then signed false s
    else signed false (c ∷ s)

-- one round of the loop of `Path.String`; `b` is what the builder holds
pub write_segment : Text → Segment → Text
write_segment b (field []) = b
write_segment [] (field (c ∷ name)) = c ∷ name
write_segment (d ∷ b) (field (c ∷ name)) = (d ∷ b) ++ b'.' ∷ c ∷ name
write_segment b (index i) = b ++ b'[' ∷ (itoa i ++ b']' ∷ [])
write_segment b (key_match [] value) = b
write_segment b (key_match (c ∷ key) value) = b ++ b'[' ∷ ((c ∷ key) ++ b'=' ∷ (value ++ b']' ∷ []))

pub write : Text → FieldPath → Text
write b [] = b
write b (s ∷ p) = write (write_segment b s) p

-- `Path.String`
unfoldable pub to_text : FieldPath → Text
unfolding write write_segment itoa
to_text p = write [] p

pub data ParseError : Type 0 where
  empty_path unterminated empty_bracket empty_key bad_bracket negative_index : ParseError
  trailing_dot no_segments out_of_fuel : ParseError

pub data Parsed : Type 0 where
  ok : FieldPath → Parsed
  err : ParseError → Parsed

-- the text before and behind the first `b`, as `strings.IndexByte` finds it
pub cut_at : ℕ → Text → Option (Text × Text)
cut_at b [] = none
cut_at b (c ∷ s) =
    if eqb c b
    then some ([], s)
    else elim (cut_at b s) [ none ↦ none | some (before, behind) ↦ some (c ∷ before, behind) ]

pub is_stop : ℕ → Bool
is_stop c = if eqb c b'.' then true else eqb c b'['

-- the inner loop of the `default` case: the bytes up to the next '.' or '['
pub span_field : Text → Text × Text
span_field [] = ([], [])
span_field (c ∷ s) =
    let (name, rest) = span_field s in if is_stop c then ([], c ∷ s) else (c ∷ name, rest)

pub data Round : Type 0 where
  fail : ParseError → Round
  skip : Text → Round
  emit : Segment → Text → Round

-- what stands between '[' and ']'
pub bracket : Text → Text → Round
bracket [] rest = fail empty_bracket
bracket (c ∷ inner) rest = elim (cut_at b'=' (c ∷ inner)) [
  | some ([], value) ↦ fail empty_key
  | some (d ∷ key, value) ↦ emit (key_match (d ∷ key) value) rest
  | none ↦ elim (atoi (c ∷ inner)) [
    | number n ↦ emit (index n) rest
    | negative ↦ fail negative_index
    | invalid ↦ fail bad_bracket
  ]
]

abbrev pub behind_dot : Text → Round
behind_dot [] = fail trailing_dot
behind_dot (c ∷ s) = skip (c ∷ s)

-- one round of the loop of `Parse`, at a text that is not empty
pub round : ℕ → Text → Round
round c s =
    if eqb c b'['
    then elim (cut_at b']' s) [ none ↦ fail unterminated | some (inner, rest) ↦ bracket inner rest ]
    else if eqb c b'.'
    then behind_dot s
    else let (name, rest) = span_field s in emit (field (c ∷ name)) rest

abbrev pub finish : FieldPath → Parsed
finish [] = err no_segments
finish (s ∷ p) = ok (s ∷ p)

-- the loop; each round takes a byte or more, so the length of the text is enough fuel
pub loop : ℕ → Text → FieldPath → Parsed
loop fuel [] out = finish out
loop zero (c ∷ s) out = err out_of_fuel
loop (suc fuel) (c ∷ s) out = elim (round c s) [
  | fail e ↦ err e
  | skip rest ↦ loop fuel rest out
  | emit seg rest ↦ loop fuel rest (out ++ seg ∷ [])
]

-- `Parse`
unfoldable pub parse : Text → Parsed
unfolding loop round bracket span_field is_stop cut_at atoi signed scan
parse [] = err empty_path
parse (c ∷ s) = loop (length (c ∷ s)) (c ∷ s) []
