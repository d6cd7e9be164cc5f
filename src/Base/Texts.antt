-- ===== src/Base/Texts.antt =====
-- Go strings as lists of bytes, their comparison and the functions of package `strings` in use.
use Prim.Native.Nat.{ℕ, ◌+◌, compare, Ordering}
use Prim.Native.Char.{code}
use Prim.Native.String.{String}
use mathlib.Core.Path.{◌≡◌, ◌∙◌, ap, sym, refl}
use mathlib.Core.Logic.{inl, inr, ◌↔◌}
use mathlib.Core.Bool.{Bool, true, false, ◌&&◌}
use mathlib.Core.List.{List, [], ◌∷◌, ◌++◌, map, reverse}
use native.Mathlib.Omega.{arith}
use patch_operator.Base.Tests.{Bool-cases, eqb, eqb_iff, leb, if◌then◌else◌}

abbrev pub Text : Type 0
Text = List ℕ

-- The bytes of an ASCII literal.
abbrev pub codes : String → Text
codes String.[] = []
codes (String.◌∷◌ c s) = code c ∷ codes s

infix 50 ◌==◌
unfoldable pub ◌==◌ : Text → Text → Bool
[] == [] = true
[] == (d ∷ t) = false
(c ∷ s) == [] = false
(c ∷ s) == (d ∷ t) = eqb c d && s == t

pub eq_iff : (s t : Text) → ((s == t) ≡ true) ↔ (s ≡ t)
unfolding ◌==◌
eq_iff [] [] = ground arith
eq_iff [] (d ∷ t) = ground arith
eq_iff (c ∷ s) [] = ground arith
eq_iff (c ∷ s) (d ∷ t) = ground (arith, eqb_iff c d, eq_iff s t)

pub eq_refl : (s : Text) → (s == s) ≡ true
eq_refl s = (eq_iff s s).1 refl

pub eq_sym : (s t : Text) → (s == t) ≡ (t == s)
eq_sym s t = elim (Bool-cases (s == t)) [
  | inl e ↦ e ∙ sym ((eq_iff t s).1 (sym ((eq_iff s t).0 e)))
  | inr e ↦ elim (Bool-cases (t == s)) [
    | inl f ↦ cc ((eq_iff s t).1 (sym ((eq_iff t s).0 f)))
    | inr f ↦ e ∙ sym f
  ]
]

-- `strings.HasPrefix(s, prefix)`
unfoldable pub has_prefix : Text → Text → Bool
has_prefix s [] = true
has_prefix [] (d ∷ prefix) = false
has_prefix (c ∷ s) (d ∷ prefix) = eqb c d && has_prefix s prefix

pub has_prefix-append : (prefix s : Text) → has_prefix (prefix ++ s) prefix ≡ true
unfolding has_prefix
has_prefix-append [] s = refl
has_prefix-append (c ∷ prefix) s = ground (arith, has_prefix-append prefix s)

prefix_rest :
    (c d : ℕ) (s prefix : Text)
    → (has_prefix s prefix ≡ true → (rest : Text) × (s ≡ prefix ++ rest))
    → (eqb c d && has_prefix s prefix) ≡ true
    → (rest : Text) × (c ∷ s ≡ d ∷ (prefix ++ rest))
prefix_rest c d s prefix more h = elim (Bool-cases (eqb c d)) [
  | inr differs ↦ cc (rw differs at h)
  | inl same ↦ let (rest, e) = more (rw same at h) in (rest, cc ((eqb_iff c d).0 same, e))
]

pub has_prefix_iff :
    (s prefix : Text) → (has_prefix s prefix ≡ true) ↔ ((rest : Text) × (s ≡ prefix ++ rest))
unfolding has_prefix
has_prefix_iff s [] = (λ h. (s, refl), λ h. refl)
has_prefix_iff [] (d ∷ prefix) = (λ h. cc h, λ h. cc (h.1))
has_prefix_iff (c ∷ s) (d ∷ prefix) = (
  λ h. prefix_rest c d s prefix (has_prefix_iff s prefix).0 h,
  λ (rest, e). ap (λ x. has_prefix x (d ∷ prefix)) e ∙ has_prefix-append (d ∷ prefix) rest,
)

-- The byte order of Go's `<` on strings.
unfoldable pub text_lt : Text → Text → Bool
text_lt s [] = false
text_lt [] (d ∷ t) = true
text_lt (c ∷ s) (d ∷ t) = elim (compare c d) [
  | Ordering.lt ↦ true
  | Ordering.eq ↦ text_lt s t
  | Ordering.gt ↦ false
]

-- `strings.HasSuffix(s, suffix)`
unfoldable pub has_suffix : Text → Text → Bool
unfolding has_prefix
has_suffix s suffix = has_prefix (reverse s) (reverse suffix)

-- `strings.ToLower` of an ASCII text
abbrev pub to_lower_byte : ℕ → ℕ
to_lower_byte c = if leb b'A' c && leb c b'Z' then c + 32 else c

unfoldable pub to_lower : Text → Text
to_lower = map to_lower_byte
