-- ===== src/Sort/Lexicographic.antt =====
-- Orders that compare one key after the other.
use patch_operator.Base.{
  ℕ, ℤ, pos, negsuc, ltb_ℤ, ◌≡◌, ◌↔◌, refl, Bool, true, false, Option, none, some, [], ◌∷◌, Text,
  ◌==◌, text_lt, eq_iff, eqb, eqb_iff, ltb, arith, if◌then◌else◌,
}

-- A key's test for equality and its strict order.
pub record IsKey {ℓ} {A : Type ℓ} (same lt : A → A → Bool) : Type ℓ where
  pub same_iff : (a b : A) → (same a b ≡ true) ↔ (a ≡ b)
  pub asym : (a b : A) → lt a b ≡ true → lt b a ≡ false
  pub total : (a b : A) → same a b ≡ false → lt a b ≡ false → lt b a ≡ true
  pub trans : (a b c : A) → lt a b ≡ true → lt b c ≡ true → lt a c ≡ true

module _ {ℓ} {A : Type ℓ} (same lt : A → A → Bool) where
  -- The next key decides, `r`, where this one is the same.
  abbrev pub lex : A → A → Bool → Bool
  lex a b r = if same a b then r else lt a b

  module _ (k : IsKey same lt) where
    pub lex-asym :
        (a b : A) (r s : Bool) → (r ≡ true → s ≡ false) → lex a b r ≡ true → lex b a s ≡ false
    lex-asym a b r s h e = ground (arith, k.same_iff a b, k.same_iff b a, k.asym a b, h)

    pub lex-split :
        (a b c : A) (r s t : Bool)
        → (r ≡ false → s ≡ false → t ≡ false)
        → lex a b r ≡ false
        → lex b c s ≡ false
        → lex a c t ≡ false
    lex-split a b c r s t h e f = ground (
      arith,
      k.same_iff a b,
      k.same_iff b c,
      k.same_iff a c,
      k.total a b,
      k.total b c,
      k.trans c b a,
      k.asym c a,
      h,
    )

    pub lex-same :
        (a b : A) (r s : Bool)
        → lex a b r ≡ false
        → lex b a s ≡ false
        → (a ≡ b) × (r ≡ false) × (s ≡ false)
    lex-same a b r s e f = ground (arith, k.same_iff a b, k.same_iff b a, k.total a b)

abbrev pub same_ℤ : ℤ → ℤ → Bool
same_ℤ (pos m) (pos n) = eqb m n
same_ℤ (negsuc m) (negsuc n) = eqb m n
same_ℤ _ _ = false

abbrev pub after_ℤ : ℤ → ℤ → Bool
after_ℤ a b = ltb_ℤ b a

same_ℤ_iff : (a b : ℤ) → (same_ℤ a b ≡ true) ↔ (a ≡ b)
same_ℤ_iff (pos m) (pos n) = ground (arith, eqb_iff m n)
same_ℤ_iff (pos m) (negsuc n) = ground arith
same_ℤ_iff (negsuc m) (pos n) = ground arith
same_ℤ_iff (negsuc m) (negsuc n) = ground (arith, eqb_iff m n)

after_ℤ-asym : (a b : ℤ) → after_ℤ a b ≡ true → after_ℤ b a ≡ false
after_ℤ-asym (pos m) (pos n) h = ground arith
after_ℤ-asym (pos m) (negsuc n) h = ground arith
after_ℤ-asym (negsuc m) (pos n) h = ground arith
after_ℤ-asym (negsuc m) (negsuc n) h = ground arith

after_ℤ-total : (a b : ℤ) → same_ℤ a b ≡ false → after_ℤ a b ≡ false → after_ℤ b a ≡ true
after_ℤ-total (pos m) (pos n) h g = ground arith
after_ℤ-total (pos m) (negsuc n) h g = ground arith
after_ℤ-total (negsuc m) (pos n) h g = ground arith
after_ℤ-total (negsuc m) (negsuc n) h g = ground arith

after_ℤ-trans : (a b c : ℤ) → after_ℤ a b ≡ true → after_ℤ b c ≡ true → after_ℤ a c ≡ true
after_ℤ-trans (pos a) (pos b) (pos c) h g = ground arith
after_ℤ-trans (pos a) (pos b) (negsuc c) h g = ground arith
after_ℤ-trans (pos a) (negsuc b) (pos c) h g = ground arith
after_ℤ-trans (pos a) (negsuc b) (negsuc c) h g = ground arith
after_ℤ-trans (negsuc a) (pos b) (pos c) h g = ground arith
after_ℤ-trans (negsuc a) (pos b) (negsuc c) h g = ground arith
after_ℤ-trans (negsuc a) (negsuc b) (pos c) h g = ground arith
after_ℤ-trans (negsuc a) (negsuc b) (negsuc c) h g = ground arith

-- the greater number first
pub after_ℤ-IsKey : IsKey same_ℤ after_ℤ
after_ℤ-IsKey = record {
  same_iff = same_ℤ_iff;
  asym = after_ℤ-asym;
  total = after_ℤ-total;
  trans = after_ℤ-trans;
}

-- a time that is there comes before one that is not
abbrev pub same_time : Option ℕ → Option ℕ → Bool
same_time (some s) (some t) = eqb s t
same_time (some s) none = false
same_time none (some t) = false
same_time none none = true

abbrev pub time_before : Option ℕ → Option ℕ → Bool
time_before (some s) (some t) = ltb s t
time_before (some s) none = true
time_before none t = false

same_time_iff : (a b : Option ℕ) → (same_time a b ≡ true) ↔ (a ≡ b)
same_time_iff (some s) (some t) = ground (arith, eqb_iff s t)
same_time_iff (some s) none = ground arith
same_time_iff none (some t) = ground arith
same_time_iff none none = ground arith

time_before-asym : (a b : Option ℕ) → time_before a b ≡ true → time_before b a ≡ false
time_before-asym (some s) (some t) h = ground arith
time_before-asym (some s) none h = refl
time_before-asym none t h = cc

time_before-total :
    (a b : Option ℕ) → same_time a b ≡ false → time_before a b ≡ false → time_before b a ≡ true
time_before-total (some s) (some t) h g = ground arith
time_before-total (some s) none h g = cc
time_before-total none (some t) h g = refl
time_before-total none none h g = cc

time_before_trans :
    (a b c : Option ℕ) → time_before a b ≡ true → time_before b c ≡ true → time_before a c ≡ true
time_before_trans (some a) (some b) (some c) h g = ground arith
time_before_trans (some a) (some b) none h g = refl
time_before_trans (some a) none c h g = cc
time_before_trans none b c h g = cc

pub time_before-IsKey : IsKey same_time time_before
time_before-IsKey = record {
  same_iff = same_time_iff;
  asym = time_before-asym;
  total = time_before-total;
  trans = time_before_trans;
}

text_lt-asym : (s t : Text) → text_lt s t ≡ true → text_lt t s ≡ false
unfolding text_lt
text_lt-asym s [] h = cc
text_lt-asym [] (d ∷ t) h = refl
text_lt-asym (c ∷ s) (d ∷ t) h = ground (arith, text_lt-asym s t)

text_lt-total : (s t : Text) → s == t ≡ false → text_lt s t ≡ false → text_lt t s ≡ true
unfolding text_lt ◌==◌
text_lt-total [] [] h g = cc
text_lt-total (c ∷ s) [] h g = refl
text_lt-total [] (d ∷ t) h g = cc
text_lt-total (c ∷ s) (d ∷ t) h g = ground (arith, text_lt-total s t)

text_lt_trans : (s t u : Text) → text_lt s t ≡ true → text_lt t u ≡ true → text_lt s u ≡ true
unfolding text_lt
text_lt_trans s t [] h g = cc
text_lt_trans s [] (e ∷ u) h g = cc
text_lt_trans [] (d ∷ t) (e ∷ u) h g = refl
text_lt_trans (c ∷ s) (d ∷ t) (e ∷ u) h g = ground (arith, text_lt_trans s t u)

pub text_lt-IsKey : IsKey ◌==◌ text_lt
text_lt-IsKey = record {
  same_iff = eq_iff;
  asym = text_lt-asym;
  total = text_lt-total;
  trans = text_lt_trans;
}
