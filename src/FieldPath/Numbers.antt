-- ===== src/FieldPath/Numbers.antt =====
-- `strconv.Itoa` and `strconv.Atoi`, as internal/render/fieldpath.go uses them.
use patch_operator.Base.{
  ℕ, zero, suc, ◌+◌, ◌*◌, ◌/◌, ◌%◌, ◌≤◌, ◌<◌, ◌≡◌, ◌≢◌, refl, ◌∙◌, some, [], ◌∷◌, arith, Text, All,
  Bool-cases, ltb, inl, inr,
}
use patch_operator.FieldPath.{max_int, digits, itoa, scan, number, signed, atoi}

abbrev pub IsDigit : ℕ → Type 0
IsDigit c = (b'0' ≤ c) × (c ≤ b'9')

digits-IsDigit : (f n : ℕ) (out : Text) → n ≤ f → All IsDigit out → All IsDigit (digits f n out)
unfolding digits
digits-IsDigit zero n out le h = (omega arith, h)
digits-IsDigit (suc f) n out le h =
    ground (arith, digits-IsDigit f (n / 10) ((b'0' + n % 10) ∷ out) (omega arith))

-- `digits` puts something in front of what it is given.
digits-ne-nil : (f n : ℕ) (out : Text) → digits f n out ≢ []
unfolding digits
digits-ne-nil zero n out e = cc
digits-ne-nil (suc f) n out e = ground (arith, digits-ne-nil f (n / 10) ((b'0' + n % 10) ∷ out))

scan-digit :
    (n d m : ℕ) (out : Text) → d < 10 → n * 10 + d ≡ m → scan n ((b'0' + d) ∷ out) ≡ scan m out
unfolding scan
scan-digit n d m out h e = rw (← e) (ground arith)

scan-digits : (f n : ℕ) (out : Text) → n ≤ f → scan 0 (digits f n out) ≡ scan n out
unfolding digits
scan-digits zero n out le = scan-digit 0 n n out (omega arith) (omega arith)
scan-digits (suc f) n out le = elim (Bool-cases (ltb n 10)) [
  | inl small ↦ rw small (scan-digit 0 n n out (ground arith) (omega arith))
  | inr large ↦ rw large (
      scan-digits f (n / 10) ((b'0' + n % 10) ∷ out) (omega arith)
      ∙ scan-digit (n / 10) (n % 10) n out (omega arith) (omega arith))
]

pub itoa-IsDigit : (n : ℕ) → All IsDigit (itoa n)
unfolding itoa
itoa-IsDigit n = digits-IsDigit n n [] (omega arith) tt

pub itoa-ne-nil : (n : ℕ) → itoa n ≢ []
unfolding itoa
itoa-ne-nil n = digits-ne-nil n n []

scan-itoa : (n : ℕ) → scan 0 (itoa n) ≡ some n
unfolding itoa scan
scan-itoa n = scan-digits n n [] (omega arith)

atoi_of_digits :
    (s : Text) (n : ℕ)
    → s ≢ []
    → All IsDigit s
    → scan 0 s ≡ some n
    → n ≤ max_int
    → atoi s ≡ number n
unfolding atoi signed
atoi_of_digits [] n h d e le = absurd (h refl)
atoi_of_digits (c ∷ s) n h d e le = ground arith

-- `Atoi` reads back what `Itoa` prints.
pub atoi-itoa : (n : ℕ) → n ≤ max_int → atoi (itoa n) ≡ number n
atoi-itoa n le = atoi_of_digits (itoa n) n (itoa-ne-nil n) (itoa-IsDigit n) (scan-itoa n) le

-- What `Atoi` accepts fits in an `int`.
pub atoi-le : (s : Text) (n : ℕ) → atoi s ≡ number n → n ≤ max_int
unfolding atoi signed
atoi-le [] n e = cc
atoi-le (c ∷ s) n e = ground arith
