-- ===== src/Render/Pointer/RoundTrip.antt =====
-- internal/render/render.go: `pointerTokens` on the pointers that RFC 6901 writes.
use patch_operator.Base.{
  ℕ, ◌≡◌, ◌≢◌, ◌∙◌, refl, ap, inl, inr, false, List, [], ◌∷◌, ◌++◌, append-nil, Text, eqb, eqb_iff,
  Bool-cases, if◌then◌else◌,
}
use patch_operator.Render.Pointer.{
  replace_escape, unescape, onto_first, split_slash, unescape_all, tokens_of, pointer_tokens,
}

-- a token without its slashes and tildes
abbrev pub escape : Text → Text
escape [] = []
escape (c ∷ s) =
    let rest = escape s in
    if eqb c b'~' then b'~' ∷ b'0' ∷ rest else if eqb c b'/' then b'~' ∷ b'1' ∷ rest else c ∷ rest

-- a pointer
abbrev pub pointer_of : List Text → Text
pointer_of [] = []
pointer_of (t ∷ ts) = b'/' ∷ (escape t ++ pointer_of ts)

-- a token without its tildes
abbrev half_escape : Text → Text
half_escape [] = []
half_escape (c ∷ s) =
    let rest = half_escape s in if eqb c b'~' then b'~' ∷ b'0' ∷ rest else c ∷ rest

replace_escape-other :
    (d by c : ℕ) (s : Text)
    → eqb c b'~' ≡ false
    → replace_escape d by (c ∷ s) ≡ c ∷ replace_escape d by s
unfolding replace_escape
replace_escape-other d by c [] other = refl
replace_escape-other d by c (e ∷ s) other = rw other refl

unescape-slash : (t : Text) → replace_escape b'1' b'/' (escape t) ≡ half_escape t
unfolding replace_escape
unescape-slash [] = refl
unescape-slash (c ∷ s) = elim (Bool-cases (eqb c b'~')) [
  | inl tilde ↦ rw tilde (
      ap (◌∷◌ b'~')
        (replace_escape-other b'1' b'/' b'0' (escape s) refl ∙ ap (◌∷◌ b'0') (unescape-slash s)))
  | inr plain ↦ elim (Bool-cases (eqb c b'/')) [
    | inl slash ↦ rw (plain, slash) (cc ((eqb_iff c b'/').0 slash, unescape-slash s))
    | inr other ↦
        rw (plain, other)
          (replace_escape-other b'1' b'/' c (escape s) plain ∙ ap (◌∷◌ c) (unescape-slash s))
  ]
]

unescape-tilde : (t : Text) → replace_escape b'0' b'~' (half_escape t) ≡ t
unfolding replace_escape
unescape-tilde [] = refl
unescape-tilde (c ∷ s) = elim (Bool-cases (eqb c b'~')) [
  | inl tilde ↦ rw tilde (cc ((eqb_iff c b'~').0 tilde, unescape-tilde s))
  | inr plain ↦
      rw plain
        (replace_escape-other b'0' b'~' c (half_escape s) plain ∙ ap (◌∷◌ c) (unescape-tilde s))
]

unescape-escape : (t : Text) → unescape (escape t) ≡ t
unescape-escape t = ap (replace_escape b'0' b'~') (unescape-slash t) ∙ unescape-tilde t

abbrev onto_front : Text → List Text → List Text
onto_front [] ts = ts
onto_front (c ∷ s) ts = onto_first c (onto_front s ts)

split_slash-escape :
    (t rest : Text) → split_slash (escape t ++ rest) ≡ onto_front (escape t) (split_slash rest)
unfolding split_slash
split_slash-escape [] rest = refl
split_slash-escape (c ∷ s) rest = elim (Bool-cases (eqb c b'~')) [
  | inl tilde ↦
      rw tilde (ap (λ ts. onto_first b'~' (onto_first b'0' ts)) (split_slash-escape s rest))
  | inr plain ↦ elim (Bool-cases (eqb c b'/')) [
    | inl slash ↦
        rw (plain, slash)
          (ap (λ ts. onto_first b'~' (onto_first b'1' ts)) (split_slash-escape s rest))
    | inr other ↦ rw (plain, other) (rw other (ap (onto_first c) (split_slash-escape s rest)))
  ]
]

onto_front-first : (s t : Text) (ts : List Text) → onto_front s (t ∷ ts) ≡ (s ++ t) ∷ ts
onto_front-first [] t ts = refl
onto_front-first (c ∷ s) t ts = ap (onto_first c) (onto_front-first s t ts)

-- the pieces of a pointer behind its first slash
pieces :
    (t : Text) (ts : List Text) → unescape_all (split_slash (escape t ++ pointer_of ts)) ≡ t ∷ ts
unfolding unescape_all split_slash
pieces t [] =
    ap unescape_all (
      split_slash-escape t []
      ∙ onto_front-first (escape t) [] []
      ∙ ap (λ s. s ∷ []) (append-nil (escape t)))
    ∙ ap (λ s. s ∷ []) (unescape-escape t)
pieces t (u ∷ ts) =
    ap unescape_all (
      split_slash-escape t (pointer_of (u ∷ ts))
      ∙ onto_front-first (escape t) [] (split_slash (escape u ++ pointer_of ts))
      ∙ ap (λ s. s ∷ split_slash (escape u ++ pointer_of ts)) (append-nil (escape t)))
    ∙ ap (λ s. s ∷ unescape_all (split_slash (escape u ++ pointer_of ts))) (unescape-escape t)
    ∙ ap (◌∷◌ t) (pieces u ts)

tokens_of-pieces : (s : Text) → s ≢ [] → tokens_of s ≡ unescape_all (split_slash s)
tokens_of-pieces [] ne = absurd (ne refl)
tokens_of-pieces (c ∷ s) ne = refl

behind_slash : (t : Text) (ts : List Text) → t ∷ ts ≢ [] ∷ [] → escape t ++ pointer_of ts ≢ []
behind_slash [] [] ne e = ne refl
behind_slash [] (u ∷ ts) ne e = cc
behind_slash (c ∷ s) ts ne e = elim (Bool-cases (eqb c b'~')) [
  | inl tilde ↦ cc (rw tilde at e)
  | inr plain ↦ elim (Bool-cases (eqb c b'/')) [
    | inl slash ↦ cc (rw (plain, slash) at e)
    | inr other ↦ cc (rw (plain, other) at e)
  ]
]

-- The tokens of a pointer that was written from a list of tokens, each behind a slash with its tildes
-- and slashes escaped, are that list, unless it is one empty token.
pub pointer_tokens-pointer_of :
    (ts : List Text) → ts ≢ [] ∷ [] → pointer_tokens (pointer_of ts) ≡ ts
unfolding pointer_tokens
pointer_tokens-pointer_of [] ne = refl
pointer_tokens-pointer_of (t ∷ ts) ne =
    tokens_of-pieces (escape t ++ pointer_of ts) (behind_slash t ts ne) ∙ pieces t ts
