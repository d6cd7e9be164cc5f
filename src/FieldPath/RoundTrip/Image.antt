-- ===== src/FieldPath/RoundTrip/Image.antt =====
-- internal/render/fieldpath.go: the paths that `Parse` returns, and the fuel of its loop.
use patch_operator.Base.{
  ℕ, zero, suc, ◌≤◌, ◌≡◌, ◌≢◌, ◌↔◌, refl, subst, inl, inr, none, some, [], ◌∷◌, ◌++◌, arith, Text,
  All, All-append, length, Bool-cases, eqb, Option-cases,
}
use patch_operator.FieldPath.{
  index, FieldPath, Parsed, to_text, ok, err, out_of_fuel, cut_at, is_stop, span_field, Round, fail,
  skip, emit, negative_index, bad_bracket, Atoi, number, negative, invalid, atoi, behind_dot,
  bracket, round, finish, loop, parse,
}
use patch_operator.FieldPath.Numbers.{atoi-le}
use patch_operator.FieldPath.RoundTrip.{NotStop, Lacks, IsPlain, IsPrintable, parse-to_text}

-- the two sides of a cut: the first lacks the byte, and neither is longer than the text
cut_at_sound :
    (b : ℕ) (s before behind : Text)
    → cut_at b s ≡ some (before, behind)
    → Lacks b before × (length behind ≤ length s)
unfolding cut_at
cut_at_sound b [] before behind e = cc
cut_at_sound b (c ∷ s) before behind e = elim (Option-cases (cut_at b s)) [
  | inl missed ↦ ground arith
  | inr (found, at) ↦ let (l, le) = cut_at_sound b s found.0 found.1 at in ground arith
]

cut_at_keeps :
    (b d : ℕ) (s before behind : Text)
    → cut_at b s ≡ some (before, behind)
    → Lacks d s
    → Lacks d before × Lacks d behind
unfolding cut_at
cut_at_keeps b d [] before behind e h = cc
cut_at_keeps b d (c ∷ s) before behind e (ne, h) = elim (Option-cases (cut_at b s)) [
  | inl missed ↦ ground arith
  | inr (found, at) ↦ let (l, m) = cut_at_keeps b d s found.0 found.1 at h in ground arith
]

span_field_sound : (s : Text) → All NotStop (span_field s).0 × (length (span_field s).1 ≤ length s)
unfolding span_field is_stop
span_field_sound [] = ground arith
span_field_sound (c ∷ s) = ground (arith, span_field_sound s)

-- The text that a round leaves to the rounds behind it, and the segment that it emits.
abbrev Sound : ℕ → Round → Type 0
Sound n (fail e) = e ≢ out_of_fuel
Sound n (skip rest) = length rest ≤ n
Sound n (emit seg rest) = IsPlain seg × (length rest ≤ n)

bracket_key-Sound :
    (n : ℕ) (s key value rest : Text)
    → Lacks b']' s
    → cut_at b'=' s ≡ some (key, value)
    → length rest ≤ n
    → Sound n (bracket s rest)
unfolding bracket
bracket_key-Sound n [] key value rest l e le = cc
bracket_key-Sound n (c ∷ s) [] value rest l e le = rw (e, bracket) (λ q. cc)
bracket_key-Sound n (c ∷ s) (d ∷ key) value rest l e le =
    let sound = cut_at_sound b'=' (c ∷ s) (d ∷ key) value e in
    let keeps = cut_at_keeps b'=' b']' (c ∷ s) (d ∷ key) value e l in
    rw (e, bracket) (((λ q. cc), sound.0, keeps.0, keeps.1), le)

bracket_number-Sound :
    (n : ℕ) (s rest : Text) → cut_at b'=' s ≡ none → length rest ≤ n → Sound n (bracket s rest)
unfolding bracket
bracket_number-Sound n [] rest e le = λ q. cc
bracket_number-Sound n (c ∷ s) rest e le = rw (e, bracket) (by_atoi (atoi (c ∷ s)) refl)
  where
    by_atoi :
        (a : Atoi)
        → atoi (c ∷ s) ≡ a
        → Sound n (elim a [
          | number m ↦ emit (index m) rest
          | negative ↦ fail negative_index
          | invalid ↦ fail bad_bracket
        ])
    by_atoi (number m) q = (atoi-le (c ∷ s) m q, le)
    by_atoi negative q = λ r. cc
    by_atoi invalid q = λ r. cc

bracket-Sound : (n : ℕ) (s rest : Text) → Lacks b']' s → length rest ≤ n → Sound n (bracket s rest)
bracket-Sound n s rest l le = elim (Option-cases (cut_at b'=' s)) [
  | inl missed ↦ bracket_number-Sound n s rest missed le
  | inr (found, at) ↦ bracket_key-Sound n s found.0 found.1 rest l at le
]

behind_dot-Sound : (s : Text) → Sound (length s) (behind_dot s)
behind_dot-Sound [] = λ q. cc
behind_dot-Sound (c ∷ s) = omega arith

open_bracket-Sound : (s : Text) → Sound (length s) (round b'[' s)
unfolding round
open_bracket-Sound s = elim (Option-cases (cut_at b']' s)) [
  | inl missed ↦ rw (missed, round) (λ q. cc)
  | inr (found, at) ↦
      let (l, le) = cut_at_sound b']' s found.0 found.1 at in
      rw (at, round) (bracket-Sound (length s) found.0 found.1 l le)
]

round-Sound : (c : ℕ) (s : Text) → Sound (length s) (round c s)
round-Sound c s = elim (Bool-cases (eqb c b'[')) [
  | inl opens ↦ let e : c ≡ b'[' = ground arith in rw e (open_bracket-Sound s)
  | inr other ↦ elim (Bool-cases (eqb c b'.')) [
    | inl dot ↦ unfold round in rw (other, dot) (behind_dot-Sound s)
    | inr name ↦
        let (l, le) = span_field_sound s in
        unfold round in rw (other, name) (((λ q. cc), ((ground arith, ground arith), l)), le)
  ]
]

-- What the loop returns: a path of plain segments behind those read before, or an error that the
-- source has.
abbrev Good : Parsed → Type 0
Good (ok p) = IsPrintable p
Good (err e) = e ≢ out_of_fuel

finish-Good : (out : FieldPath) → All IsPlain out → Good (finish out)
finish-Good [] h = λ q. cc
finish-Good (s ∷ p) h = ((λ q. cc), h)

module _ (fuel n : ℕ) (out : FieldPath) where
  -- one round and what follows it
  next-Good :
      (r : Round)
      → ((rest : Text) (more : FieldPath)
          → length rest ≤ fuel
          → All IsPlain more
          → Good (loop fuel rest more))
      → n ≤ fuel
      → Sound n r
      → All IsPlain out
      → Good (elim r [
        | fail e ↦ err e
        | skip rest ↦ loop fuel rest out
        | emit seg rest ↦ loop fuel rest (out ++ seg ∷ [])
      ])
  next-Good (fail e) ih le sound h = sound
  next-Good (skip rest) ih le sound h = ih rest out (omega arith) h
  next-Good (emit seg rest) ih le (plain, shorter) h =
      ih rest (out ++ seg ∷ []) (omega arith) (All-append IsPlain out (seg ∷ []) h (plain, tt))

loop-Good :
    (fuel : ℕ) (s : Text) (out : FieldPath)
    → length s ≤ fuel
    → All IsPlain out
    → Good (loop fuel s out)
unfolding loop
loop-Good zero [] out le h = finish-Good out h
loop-Good zero (c ∷ s) out le h = absurd (omega arith)
loop-Good (suc fuel) [] out le h = finish-Good out h
loop-Good (suc fuel) (c ∷ s) out le h =
    next-Good fuel (length s) out (round c s) (loop-Good fuel) (omega arith) (round-Sound c s) h

parse-Good : (s : Text) → Good (parse s)
unfolding parse
parse-Good [] = λ q. cc
parse-Good (c ∷ s) = loop-Good (length (c ∷ s)) (c ∷ s) [] (omega arith) tt

parse-IsPrintable : (s : Text) (p : FieldPath) → parse s ≡ ok p → IsPrintable p
parse-IsPrintable s p e = subst Good e (parse-Good s)

-- `Parse` ends on every text: the number of its bytes is enough fuel for the loop.
pub parse-ne-out_of_fuel : (s : Text) → parse s ≢ err out_of_fuel
parse-ne-out_of_fuel s e = (subst Good e (parse-Good s)) refl

-- A path is printed and read back unchanged exactly when it is not empty, its fields are names
-- without '.' and '[', its keys names without '=' and ']', its values texts without ']', and its
-- indices fit in an `int`.
pub round_trip_iff : (p : FieldPath) → (parse (to_text p) ≡ ok p) ↔ IsPrintable p
round_trip_iff p = (parse-IsPrintable (to_text p) p, parse-to_text p)

-- Whatever text `Parse` accepts, the path that it returns is printed and read back unchanged.
pub parse-to_text-parse : (s : Text) (p : FieldPath) → parse s ≡ ok p → parse (to_text p) ≡ ok p
parse-to_text-parse s p e = parse-to_text p (parse-IsPrintable s p e)
