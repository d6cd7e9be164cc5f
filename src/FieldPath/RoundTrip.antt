-- ===== src/FieldPath/RoundTrip.antt =====
-- internal/render/fieldpath.go: `Parse` on what `Path.String` prints.
pub mod Image
use patch_operator.Base.{
  ℕ, zero, suc, ◌+◌, ◌≤◌, ◌≡◌, ◌≢◌, refl, ap, ◌∙◌, true, some, none, [], ◌∷◌, ◌++◌, append_assoc,
  append-nil, arith, Text, All, length, length-append, eqb, eqb_iff,
}
use patch_operator.FieldPath.{
  Segment, field, index, key_match, FieldPath, max_int, itoa, atoi, write_segment, write, to_text,
  ok, cut_at, is_stop, span_field, Round, emit, number, bracket, round, finish, loop, parse,
}
use patch_operator.FieldPath.Numbers.{IsDigit, itoa-IsDigit, itoa-ne-nil, atoi-itoa}

abbrev pub NotStop : ℕ → Type 0
NotStop c = (c ≢ b'.') × (c ≢ b'[')

abbrev pub Lacks : ℕ → Text → Type 0
Lacks b = All (λ c. c ≢ b)

-- A segment that the notation can express: a field is not empty and holds no '.' and no '[', a key
-- is not empty and holds no '=' and no ']', and a value holds no ']'.
abbrev pub IsPlain : Segment → Type 0
IsPlain (field name) = (name ≢ []) × All NotStop name
IsPlain (index i) = i ≤ max_int
IsPlain (key_match key value) = (key ≢ []) × Lacks b'=' key × Lacks b']' key × Lacks b']' value

abbrev pub IsPrintable : FieldPath → Type 0
IsPrintable p = (p ≢ []) × All IsPlain p

-- what a segment adds to a text that is not empty
mark : Segment → Text
mark (field name) = b'.' ∷ name
mark (index i) = b'[' ∷ (itoa i ++ b']' ∷ [])
mark (key_match key value) = b'[' ∷ (key ++ b'=' ∷ (value ++ b']' ∷ []))

suffix : FieldPath → Text
unfolding mark
suffix [] = []
suffix (s ∷ p) = mark s ++ suffix p

write_segment-mark : (b : Text) (s : Segment) → b ≢ [] → IsPlain s → write_segment b s ≡ b ++ mark s
unfolding write_segment mark
write_segment-mark [] s h p = absurd (h refl)
write_segment-mark (d ∷ b) (field []) h p = absurd (p.0 refl)
write_segment-mark (d ∷ b) (field (c ∷ name)) h p = refl
write_segment-mark (d ∷ b) (index i) h p = refl
write_segment-mark (d ∷ b) (key_match [] value) h p = absurd (p.0 refl)
write_segment-mark (d ∷ b) (key_match (c ∷ key) value) h p = refl

append-ne-nil : (b t : Text) → b ≢ [] → b ++ t ≢ []
append-ne-nil [] t h e = h refl
append-ne-nil (c ∷ b) t h e = cc

write-suffix : (b : Text) (p : FieldPath) → b ≢ [] → All IsPlain p → write b p ≡ b ++ suffix p
unfolding write suffix
write-suffix b [] h ps = rw append-nil
write-suffix b (s ∷ p) h (here, later) = rw (write_segment-mark b s h here) (
    write-suffix (b ++ mark s) p (append-ne-nil b (mark s) h) later
    ∙ append_assoc b (mark s) (suffix p))

pub cut_at-append : (b : ℕ) (s rest : Text) → Lacks b s → cut_at b (s ++ b ∷ rest) ≡ some (s, rest)
unfolding cut_at
cut_at-append b [] rest h = ground arith
cut_at-append b (c ∷ s) rest (ne, h) = rw (cut_at-append b s rest h) (ground arith)

pub cut_at-Lacks : (b : ℕ) (s : Text) → Lacks b s → cut_at b s ≡ none
unfolding cut_at
cut_at-Lacks b [] h = refl
cut_at-Lacks b (c ∷ s) (ne, h) = rw (cut_at-Lacks b s h) (ground arith)

-- the text is empty or begins with a byte that ends a field
abbrev Stops : Text → Type 0
Stops [] = Unit
Stops (c ∷ s) = is_stop c ≡ true

span_field-append :
    (name rest : Text) → All NotStop name → Stops rest → span_field (name ++ rest) ≡ (name, rest)
unfolding span_field is_stop
span_field-append [] [] h stop = refl
span_field-append [] (c ∷ rest) h stop = ground arith
span_field-append (c ∷ name) rest (ne, h) stop = ground (arith, span_field-append name rest h stop)

suffix-Stops : (p : FieldPath) → Stops (suffix p)
unfolding suffix is_stop
suffix-Stops [] = tt
suffix-Stops (field name ∷ p) = refl
suffix-Stops (index i ∷ p) = refl
suffix-Stops (key_match key value ∷ p) = refl

round-field :
    (c : ℕ) (name rest : Text)
    → All NotStop (c ∷ name)
    → Stops rest
    → round c (name ++ rest) ≡ emit (field (c ∷ name)) rest
unfolding round
round-field c name rest (ne, h) stop = ground (arith, span_field-append name rest h stop)

IsDigit-Lacks : (b : ℕ) (s : Text) → b'9' + 1 ≤ b → All IsDigit s → Lacks b s
IsDigit-Lacks b [] le h = tt
IsDigit-Lacks b (c ∷ s) le (d, h) = ((λ e. absurd (omega arith)), IsDigit-Lacks b s le h)

bracket-number :
    (s rest : Text) (n : ℕ)
    → s ≢ []
    → Lacks b'=' s
    → atoi s ≡ number n
    → bracket s rest ≡ emit (index n) rest
unfolding bracket
bracket-number [] rest n h l e = absurd (h refl)
bracket-number (c ∷ s) rest n h l e = rw (cut_at-Lacks b'=' (c ∷ s) l, bracket, e)

round-index :
    (i : ℕ) (rest : Text)
    → i ≤ max_int
    → round b'[' ((itoa i ++ b']' ∷ []) ++ rest) ≡ emit (index i) rest
unfolding round
round-index i rest le =
    let cut =
      cut_at-append b']' (itoa i) rest
        (IsDigit-Lacks b']' (itoa i) (omega arith) (itoa-IsDigit i)) in
    rw (append_assoc, cut)
      (bracket-number (itoa i) rest i (itoa-ne-nil i)
        (IsDigit-Lacks b'=' (itoa i) (omega arith) (itoa-IsDigit i)) (atoi-itoa i le))

bracket-key :
    (key value rest : Text)
    → key ≢ []
    → Lacks b'=' key
    → bracket (key ++ b'=' ∷ value) rest ≡ emit (key_match key value) rest
unfolding bracket
bracket-key [] value rest h l = absurd (h refl)
bracket-key (c ∷ key) value rest h l = rw (cut_at-append b'=' (c ∷ key) value l, bracket)

Lacks-middle :
    (b : ℕ) (key value : Text)
    → b'=' ≢ b
    → Lacks b key
    → Lacks b value
    → Lacks b (key ++ b'=' ∷ value)
Lacks-middle b [] value ne hk hv = (ne, hv)
Lacks-middle b (c ∷ key) value ne (h, hk) hv = (h, Lacks-middle b key value ne hk hv)

round-key :
    (key value rest : Text)
    → IsPlain (key_match key value)
    → round b'[' ((key ++ b'=' ∷ (value ++ b']' ∷ [])) ++ rest) ≡ emit (key_match key value) rest
unfolding round
round-key key value rest (ne, l, m, n) =
    let cut =
      cut_at-append b']' (key ++ b'=' ∷ value) rest
        (Lacks-middle b']' key value (λ e. absurd (omega arith)) m n) in
    let same : (key ++ b'=' ∷ (value ++ b']' ∷ [])) ++ rest ≡ (key ++ b'=' ∷ value) ++ b']' ∷ rest =
      simp append_assoc in
    rw (same, cut) (bracket-key key value rest ne l)

loop-emit :
    (fuel c : ℕ) (s : Text) (seg : Segment) (rest : Text) (out : FieldPath)
    → round c s ≡ emit seg rest
    → loop (suc fuel) (c ∷ s) out ≡ loop fuel rest (out ++ seg ∷ [])
unfolding loop
loop-emit fuel c s seg rest out e = rw (e, loop)

-- A field behind others: the '.' takes a round of its own.
loop-dot :
    (fuel c : ℕ) (s : Text) (out : FieldPath)
    → loop (suc fuel) (b'.' ∷ c ∷ s) out ≡ loop fuel (c ∷ s) out
unfolding loop round
loop-dot fuel c s out = refl

-- One segment more, at the end of those read.
loop-next :
    (fuel : ℕ) (seg : Segment) (p out : FieldPath)
    → loop fuel (suffix p) (out ++ seg ∷ []) ≡ finish ((out ++ seg ∷ []) ++ p)
    → loop fuel (suffix p) (out ++ seg ∷ []) ≡ finish (out ++ seg ∷ p)
loop-next fuel seg p out e = rw append_assoc at e

loop-nil : (fuel : ℕ) (out : FieldPath) → loop fuel [] out ≡ finish out
unfolding loop
loop-nil zero out = refl
loop-nil (suc fuel) out = refl

-- The loop of `Parse` on what the segments behind the first have printed.
loop-suffix :
    (fuel : ℕ) (p out : FieldPath)
    → All IsPlain p
    → length (suffix p) ≤ fuel
    → loop fuel (suffix p) out ≡ finish (out ++ p)
unfolding suffix mark
loop-suffix fuel [] out ps le = rw append-nil (loop-nil fuel out)
loop-suffix zero (field [] ∷ p) out ps le = absurd (ps.0.0 refl)
loop-suffix (suc fuel) (field [] ∷ p) out ps le = absurd (ps.0.0 refl)
loop-suffix zero (field (c ∷ name) ∷ p) out ps le = absurd (omega arith)
loop-suffix (suc zero) (field (c ∷ name) ∷ p) out ps le = absurd (omega arith)
loop-suffix (suc (suc fuel)) (field (c ∷ name) ∷ p) out ((ne, plain), later) le =
    loop-dot (suc fuel) c (name ++ suffix p) out
    ∙ loop-emit fuel c (name ++ suffix p) (field (c ∷ name)) (suffix p) out
        (round-field c name (suffix p) plain (suffix-Stops p))
    ∙ loop-next fuel (field (c ∷ name)) p out (
        loop-suffix fuel p (out ++ field (c ∷ name) ∷ []) later
          (omega (arith, length-append {0} name (suffix p))))
loop-suffix zero (index i ∷ p) out ps le = absurd (omega arith)
loop-suffix (suc fuel) (index i ∷ p) out (here, later) le =
    loop-emit fuel b'[' ((itoa i ++ b']' ∷ []) ++ suffix p) (index i) (suffix p) out
      (round-index i (suffix p) here)
    ∙ loop-next fuel (index i) p out (
        loop-suffix fuel p (out ++ index i ∷ []) later
          (omega (arith, length-append {0} (itoa i ++ b']' ∷ []) (suffix p))))
loop-suffix zero (key_match key value ∷ p) out ps le = absurd (omega arith)
loop-suffix (suc fuel) (key_match key value ∷ p) out (here, later) le =
    loop-emit fuel b'[' ((key ++ b'=' ∷ (value ++ b']' ∷ [])) ++ suffix p) (key_match key value)
      (suffix p) out (round-key key value (suffix p) here)
    ∙ loop-next fuel (key_match key value) p out (
        loop-suffix fuel p (out ++ key_match key value ∷ []) later
          (omega (arith, length-append {0} (key ++ b'=' ∷ (value ++ b']' ∷ [])) (suffix p))))

-- what the first segment prints
first : Segment → Text
unfolding mark
first (field name) = name
first s = mark s

to_text-first :
    (s : Segment) (p : FieldPath) → All IsPlain (s ∷ p) → to_text (s ∷ p) ≡ first s ++ suffix p
unfolding to_text first
to_text-first (field []) p (here, later) = absurd (here.0 refl)
to_text-first (field (c ∷ name)) p (here, later) = write-suffix (c ∷ name) p (λ e. cc) later
to_text-first (index i) p (here, later) =
    write-suffix (b'[' ∷ (itoa i ++ b']' ∷ [])) p (λ e. cc) later
to_text-first (key_match [] value) p (here, later) = absurd (here.0 refl)
to_text-first (key_match (c ∷ key) value) p (here, later) =
    write-suffix (b'[' ∷ ((c ∷ key) ++ b'=' ∷ (value ++ b']' ∷ []))) p (λ e. cc) later

loop-first :
    (s : Segment) (p : FieldPath) (c : ℕ) (t rest : Text)
    → All IsPlain p
    → t ≡ c ∷ rest
    → round c rest ≡ emit s (suffix p)
    → length (suffix p) ≤ length rest
    → parse t ≡ ok (s ∷ p)
unfolding parse
loop-first s p c t rest later e r le = rw e (
    loop-emit (length rest) c rest s (suffix p) [] r
    ∙ loop-suffix (length rest) p (s ∷ []) later le)

-- A path of the notation that is printed by `Path.String` is read back by `Parse`: every field in
-- it is a name without '.' and '[', every key a name without '=' and ']', no value holds ']', and
-- every index fits in an `int`.
pub parse-to_text : (p : FieldPath) → IsPrintable p → parse (to_text p) ≡ ok p
unfolding first mark
parse-to_text [] h = absurd (h.0 refl)
parse-to_text (field [] ∷ p) (_, (here, later)) = absurd (here.0 refl)
parse-to_text (field (c ∷ name) ∷ p) (_, (here, later)) =
    loop-first (field (c ∷ name)) p c _ (name ++ suffix p) later
      (to_text-first (field (c ∷ name)) p (here, later))
      (round-field c name (suffix p) here.1 (suffix-Stops p))
      (omega (arith, length-append {0} name (suffix p)))
parse-to_text (index i ∷ p) (_, (here, later)) =
    loop-first (index i) p b'[' _ ((itoa i ++ b']' ∷ []) ++ suffix p) later
      (to_text-first (index i) p (here, later)) (round-index i (suffix p) here)
      (omega (arith, length-append {0} (itoa i ++ b']' ∷ []) (suffix p)))
parse-to_text (key_match key value ∷ p) (_, (here, later)) =
    loop-first (key_match key value) p b'[' _ ((key ++ b'=' ∷ (value ++ b']' ∷ [])) ++ suffix p)
      later (to_text-first (key_match key value) p (here, later))
      (round-key key value (suffix p) here)
      (omega (arith, length-append {0} (key ++ b'=' ∷ (value ++ b']' ∷ [])) (suffix p)))
