-- ===== src/Webhook/Dedupe.antt =====
-- internal/webhook/sar.go: `dedupeChecks`, by the texts of the checks.
use patch_operator.Base.{
  ◌≡◌, ◌⊎◌, ◌∙◌, refl, subst, inl, inr, List, [], ◌∷◌, Text, ◌==◌, eq_iff, text_lt, All, Bool-cases,
}
use patch_operator.Webhook.{Check, check_text, insert_check, dedupe_from, dedupe_checks}

-- Some check of the list reads as the text.
abbrev pub HasText : Text → List Check → Type 0
HasText t [] = ⊥
HasText t (d ∷ l) = (check_text d ≡ t) ⊎ HasText t l

insert_check_self : (c : Check) (l : List Check) → HasText (check_text c) (insert_check c l)
unfolding insert_check
insert_check_self c [] = inl refl
insert_check_self c (d ∷ l) = elim (Bool-cases (check_text c == check_text d)) [
  | inl same ↦ rw same (inl refl)
  | inr new ↦ elim (Bool-cases (text_lt (check_text c) (check_text d))) [
    | inl before ↦ rw (new, before) (inl refl)
    | inr after ↦ rw (new, after) (inr (insert_check_self c l))
  ]
]

replaced :
    (t : Text) (c d : Check) (l : List Check)
    → check_text c ≡ check_text d
    → HasText t (d ∷ l)
    → HasText t (c ∷ l)
replaced t c d l e (inl q) = inl (e ∙ q)
replaced t c d l e (inr q) = inr q

later :
    (t : Text) (d : Check) (l m : List Check)
    → (HasText t l → HasText t m)
    → HasText t (d ∷ l)
    → HasText t (d ∷ m)
later t d l m f (inl q) = inl q
later t d l m f (inr q) = inr (f q)

insert_check-keeps :
    (t : Text) (c : Check) (l : List Check) → HasText t l → HasText t (insert_check c l)
unfolding insert_check
insert_check-keeps t c [] h = inr h
insert_check-keeps t c (d ∷ l) h = elim (Bool-cases (check_text c == check_text d)) [
  | inl same ↦ rw same (replaced t c d l ((eq_iff _ _).0 same) h)
  | inr new ↦ elim (Bool-cases (text_lt (check_text c) (check_text d))) [
    | inl before ↦ rw (new, before) (inr h)
    | inr after ↦ rw (new, after) (later t d l (insert_check c l) (insert_check-keeps t c l) h)
  ]
]

dedupe_from-keeps :
    (t : Text) (seen checks : List Check)
    → HasText t seen ⊎ HasText t checks
    → HasText t (dedupe_from seen checks)
unfolding dedupe_from
dedupe_from-keeps t seen [] (inl h) = h
dedupe_from-keeps t seen [] (inr h) = absurd h
dedupe_from-keeps t seen (c ∷ checks) (inl h) =
    dedupe_from-keeps t (insert_check c seen) checks (inl (insert_check-keeps t c seen h))
dedupe_from-keeps t seen (c ∷ checks) (inr (inl e)) =
    dedupe_from-keeps t (insert_check c seen) checks
      (inl (subst (λ u. HasText u (insert_check c seen)) e (insert_check_self c seen)))
dedupe_from-keeps t seen (c ∷ checks) (inr (inr h)) =
    dedupe_from-keeps t (insert_check c seen) checks (inr h)

pub dedupe_checks-keeps :
    (t : Text) (checks : List Check) → HasText t checks → HasText t (dedupe_checks checks)
unfolding dedupe_checks
dedupe_checks-keeps t checks h = dedupe_from-keeps t [] checks (inr h)

module _ (P : Check → Type 0) where
  insert_check-All : (c : Check) (l : List Check) → P c → All P l → All P (insert_check c l)
  unfolding insert_check
  insert_check-All c [] p all = (p, tt)
  insert_check-All c (d ∷ l) p (q, all) = elim (Bool-cases (check_text c == check_text d)) [
    | inl same ↦ rw same (p, all)
    | inr new ↦ elim (Bool-cases (text_lt (check_text c) (check_text d))) [
      | inl before ↦ rw (new, before) (p, (q, all))
      | inr after ↦ rw (new, after) (q, insert_check-All c l p all)
    ]
  ]

  dedupe_from-All :
      (seen checks : List Check) → All P seen → All P checks → All P (dedupe_from seen checks)
  unfolding dedupe_from
  dedupe_from-All seen [] all rest = all
  dedupe_from-All seen (c ∷ checks) all (p, rest) =
      dedupe_from-All (insert_check c seen) checks (insert_check-All c seen p all) rest

  -- What holds of the checks holds of those that are left.
  pub dedupe_checks-All : (checks : List Check) → All P checks → All P (dedupe_checks checks)
  unfolding dedupe_checks
  dedupe_checks-All checks all = dedupe_from-All [] checks tt all
