-- ===== src/Tracker/Conflicts/Contested.antt =====
-- internal/controller/tracker_controller.go: the claims on a path that `detectPathConflicts` takes for
-- contested.
use patch_operator.Base.{
  suc, ◌≡◌, ◌≢◌, ◌∙◌, ◌⊎◌, refl, sym, ap, inl, inr, arith, Bool, true, false, ◌&&◌, ◌||◌, List, [],
  ◌∷◌, Text, ◌==◌, eq_iff, eq_refl, any, All, leb, length, Bool-cases,
}
use patch_operator.Tracker.Conflicts.{Claim, distinct, is_contested}

-- Some claim of the list has another hash.
abbrev pub Differs : Text → List Claim → Type 0
Differs h [] = ⊥
Differs h (c ∷ cs) = (c.hash ≢ h) ⊎ Differs h cs

-- No two claims have different hashes, or some two have.
abbrev pub Agreed : List Claim → Type 0
Agreed [] = Unit {0}
Agreed (c ∷ cs) = All (λ d. d.hash ≡ c.hash) cs

abbrev pub Disputed : List Claim → Type 0
Disputed [] = ⊥
Disputed (c ∷ cs) = Differs c.hash cs

abbrev has : Text → List Text → Bool
has h = any (λ k. k == h)

Differs-split : (h : Text) (cs : List Claim) → All (λ d. d.hash ≡ h) cs ⊎ Differs h cs
Differs-split h [] = inl tt
Differs-split h (c ∷ cs) = elim (Bool-cases (c.hash == h)) [
  | inr other ↦ inr (inl (λ e. cc (other, (eq_iff c.hash h).1 e)))
  | inl same ↦ elim (Differs-split h cs) [
    | inl all_same ↦ inl ((eq_iff c.hash h).0 same, all_same)
    | inr differs ↦ inr (inr differs)
  ]
]

-- the hash of one claim, before what is distinct behind it
has-distinct_first : (c : Claim) (cs : List Claim) → has c.hash (distinct (c ∷ cs)) ≡ true
has-distinct_first c cs = elim (Bool-cases (any (λ h. h == c.hash) (distinct cs))) [
  | inl there ↦ rw (there, there) refl
  | inr new ↦ rw (new, eq_refl c.hash) refl
]

has-distinct_next :
    (h : Text) (c : Claim) (cs : List Claim)
    → has h (distinct cs) ≡ true
    → has h (distinct (c ∷ cs)) ≡ true
has-distinct_next h c cs found = elim (Bool-cases (any (λ k. k == c.hash) (distinct cs))) [
  | inl there ↦ rw there found
  | inr new ↦ rw (new, found) (or_of_true (c.hash == h))
]
  where
    or_of_true : (b : Bool) → (b || true) ≡ true
    or_of_true true = refl
    or_of_true false = refl

distinct-one :
    (h : Text) (c : Claim) (cs : List Claim)
    → c.hash ≡ h
    → All (λ d. d.hash ≡ h) cs
    → distinct (c ∷ cs) ≡ h ∷ []
distinct-one h c [] same all_same = ap (λ x. x ∷ []) same
distinct-one h c (d ∷ cs) same (here, rest) =
    let behind = distinct-one h d cs here rest in
    let met : any (λ k. k == c.hash) (distinct (d ∷ cs)) ≡ true =
      ap (any (λ k. k == c.hash)) behind ∙ ap (λ x. (h == x) || false) same ∙ rw (eq_refl h) refl in
    rw met behind

two_of :
    (a b : Text) (l : List Text) → has a l ≡ true → has b l ≡ true → a ≢ b → leb 2 (length l) ≡ true
two_of a b [] p q ne = cc
two_of a b (x ∷ y ∷ l) p q ne = ground arith
two_of a b (x ∷ []) p q ne = elim (Bool-cases (x == a)) [
  | inr other ↦ cc (rw other at p)
  | inl at_a ↦ elim (Bool-cases (x == b)) [
    | inr other ↦ cc (rw other at q)
    | inl at_b ↦ absurd (ne (sym ((eq_iff x a).0 at_a) ∙ (eq_iff x b).0 at_b))
  ]
]

Differs-two :
    (h : Text) (cs : List Claim)
    → Differs h cs
    → (k : Text) × ((has k (distinct cs) ≡ true) × (k ≢ h))
Differs-two h [] d = absurd d
Differs-two h (c ∷ cs) (inl ne) = (c.hash, (has-distinct_first c cs, ne))
Differs-two h (c ∷ cs) (inr d) =
    let (k, (found, ne)) = Differs-two h cs d in (k, (has-distinct_next k c cs found, ne))

long_of : (h : Text) (cs : List Claim) → Differs h cs → leb 2 (suc (length cs)) ≡ true
long_of h [] d = absurd d
long_of h (c ∷ cs) d = ground arith

-- the claims of a path are agreed, or they are disputed, and the code takes them so
pub is_contested-cases :
    (cs : List Claim)
    → ((is_contested cs ≡ true) × Disputed cs) ⊎ ((is_contested cs ≡ false) × Agreed cs)
is_contested-cases [] = inr (refl, tt)
is_contested-cases (c ∷ cs) = elim (Differs-split c.hash cs) [
  | inl all_same ↦
      let one = distinct-one c.hash c cs refl all_same in
      inr (
        and_false (leb 2 (length (c ∷ cs))) (leb 2 (length (distinct (c ∷ cs))))
            (ap (λ l. leb 2 (length l)) one),
        all_same,
      )
  | inr differs ↦
      let (k, (found, ne)) = Differs-two c.hash cs differs in
      inl (
        and_true _ _ (long_of c.hash cs differs) (
            two_of k c.hash (distinct (c ∷ cs)) (has-distinct_next k c cs found)
              (has-distinct_first c cs) ne),
        differs,
      )
]
  where
    and_false : (a b : Bool) → b ≡ false → (a && b) ≡ false
    and_false true b e = e
    and_false false b e = refl

    and_true : (a b : Bool) → a ≡ true → b ≡ true → (a && b) ≡ true
    and_true true b e f = f
    and_true false b e f = cc e
