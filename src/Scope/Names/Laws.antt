-- ===== src/Scope/Names/Laws.antt =====
-- internal/scope/scope.go: what the names of trackers are made of.
use patch_operator.Base.{
  ℕ, suc, ◌+◌, ◌-◌, ◌≤◌, ◌≡◌, refl, ap, inl, inr, arith, true, false, Option, none, some, [], ◌∷◌,
  ◌++◌, Text, codes, ltb, All, All-append, All-take, length, take, length-append, length-take,
  Bool-cases, if◌then◌else◌,
}
use patch_operator.Scope.{TargetKey, key_text}
use patch_operator.Scope.Names.{
  is_name_byte, is_upper, takes_dash, emitted, or_last, onto, sanitize_from, is_separator,
  trim_left, keep_before, trim_right, trim, sanitize_dns1123, or_target, name_base, readable_name,
  tracker_name,
}

-- A byte of a DNS-1123 subdomain.
abbrev pub IsNameByte : ℕ → Type 0
IsNameByte c = is_name_byte c ≡ true

-- nothing, or a byte of a name
abbrev Emits : Option ℕ → Type 0
Emits none = Unit {0}
Emits (some c) = IsNameByte c

lower-IsNameByte : (c : ℕ) → is_upper c ≡ true → IsNameByte (c + 32)
lower-IsNameByte c upper = ground (arith, upper)

emitted-Emits : (last : Option ℕ) (c : ℕ) → Emits (emitted last c)
unfolding emitted
emitted-Emits last c = elim (Bool-cases (is_name_byte c)) [
  | inl kept ↦ rw kept kept
  | inr changed ↦ elim (Bool-cases (is_upper c)) [
    | inl upper ↦ rw (changed, upper) (lower-IsNameByte c upper)
    | inr other ↦ elim (Bool-cases (takes_dash last)) [
      | inl dash ↦ rw (changed, other, dash) refl
      | inr dropped ↦ rw (changed, other, dropped) tt
    ]
  ]
]

onto-All : (o : Option ℕ) (s : Text) → Emits o → All IsNameByte s → All IsNameByte (onto o s)
onto-All none s e h = h
onto-All (some c) s e h = (e, h)

sanitize_from-All : (last : Option ℕ) (s : Text) → All IsNameByte (sanitize_from last s)
unfolding sanitize_from
sanitize_from-All last [] = tt
sanitize_from-All last (c ∷ s) =
    onto-All (emitted last c) _ (emitted-Emits last c)
      (sanitize_from-All (or_last (emitted last c) last) s)

trim_left-All : (s : Text) → All IsNameByte s → All IsNameByte (trim_left s)
unfolding trim_left
trim_left-All [] h = tt
trim_left-All (c ∷ s) (p, h) = elim (Bool-cases (is_separator c)) [
  | inl cut ↦ rw cut (trim_left-All s h)
  | inr kept ↦ rw kept (p, h)
]

keep_before-All :
    (c : ℕ) (s : Text) → IsNameByte c → All IsNameByte s → All IsNameByte (keep_before c s)
keep_before-All c [] p h = elim (Bool-cases (is_separator c)) [
  | inl cut ↦ rw cut tt
  | inr kept ↦ rw kept (p, tt)
]
keep_before-All c (d ∷ s) p h = (p, h)

trim_right-All : (s : Text) → All IsNameByte s → All IsNameByte (trim_right s)
unfolding trim_right
trim_right-All [] h = tt
trim_right-All (c ∷ s) (p, h) = keep_before-All c (trim_right s) p (trim_right-All s h)

-- A text is empty, or it does not begin with a separator.
abbrev Begins : Text → Type 0
Begins [] = Unit {0}
Begins (c ∷ s) = is_separator c ≡ false

trim_left-Begins : (s : Text) → Begins (trim_left s)
unfolding trim_left
trim_left-Begins [] = tt
trim_left-Begins (c ∷ s) = elim (Bool-cases (is_separator c)) [
  | inl cut ↦ rw cut (trim_left-Begins s)
  | inr kept ↦ rw kept kept
]

keep_before-Begins : (c : ℕ) (s : Text) → is_separator c ≡ false → Begins (keep_before c s)
keep_before-Begins c [] kept = rw kept kept
keep_before-Begins c (d ∷ s) kept = kept

trim_right-Begins : (s : Text) → Begins s → Begins (trim_right s)
unfolding trim_right
trim_right-Begins [] h = tt
trim_right-Begins (c ∷ s) h = keep_before-Begins c (trim_right s) h

length-trim_left : (s : Text) → length (trim_left s) ≤ length s
unfolding trim_left
length-trim_left [] = omega arith
length-trim_left (c ∷ s) =
    let rest = length-trim_left s in
    elim (Bool-cases (is_separator c)) [
      | inl cut ↦ rw cut (omega (arith, rest))
      | inr kept ↦ rw kept (omega arith)
    ]

length-keep_before : (c : ℕ) (s : Text) → length (keep_before c s) ≤ suc (length s)
length-keep_before c [] = elim (Bool-cases (is_separator c)) [
  | inl cut ↦ rw cut (omega arith)
  | inr kept ↦ rw kept (omega arith)
]
length-keep_before c (d ∷ s) = omega arith

length-trim_right : (s : Text) → length (trim_right s) ≤ length s
unfolding trim_right
length-trim_right [] = omega arith
length-trim_right (c ∷ s) = omega (arith, length-keep_before c (trim_right s), length-trim_right s)

trim-All : (s : Text) → All IsNameByte s → All IsNameByte (trim s)
trim-All s h = trim_right-All (trim_left s) (trim_left-All s h)

trim-Begins : (s : Text) → Begins (trim s)
trim-Begins s = trim_right-Begins (trim_left s) (trim_left-Begins s)

length-trim : (s : Text) → length (trim s) ≤ length s
length-trim s = omega (arith, length-trim_right (trim_left s), length-trim_left s)

-- A text of name bytes that begins with none of the separators, and is not empty.
pub record IsName (s : Text) : Type 0 where
  pub bytes : All IsNameByte s
  pub head : ℕ
  pub tail : Text
  pub shape : s ≡ head ∷ tail
  pub begins : is_separator head ≡ false

or_target-IsName : (s : Text) → All IsNameByte s → Begins s → IsName (or_target s)
or_target-IsName [] h b = record {
  bytes = (refl, (refl, (refl, (refl, (refl, (refl, tt))))));
  head = b't';
  tail = codes "arget";
  shape = refl;
  begins = refl;
}
or_target-IsName (c ∷ s) h b = record { bytes = h; head = c; tail = s; shape = refl; begins = b }

length-or_target : (s : Text) (n : ℕ) → length s ≤ n → 6 ≤ n → length (or_target s) ≤ n
length-or_target [] n h six = omega (arith, six)
length-or_target (c ∷ s) n h six = h

sanitize_dns1123-All : (s : Text) → All IsNameByte (sanitize_dns1123 s)
unfolding sanitize_dns1123
sanitize_dns1123-All s = trim-All (sanitize_from none s) (sanitize_from-All none s)

-- the readable part before it is trimmed
abbrev cut_to : ℕ → Text → Text
cut_to most clean = if ltb most (length clean) then take most clean else clean

cut_to-All : (most : ℕ) (clean : Text) → All IsNameByte clean → All IsNameByte (cut_to most clean)
cut_to-All most clean h = elim (Bool-cases (ltb most (length clean))) [
  | inl long ↦ rw long (All-take IsNameByte most clean h)
  | inr short ↦ rw short h
]

length-cut_to : (most : ℕ) (clean : Text) → length (cut_to most clean) ≤ most
length-cut_to most clean = elim (Bool-cases (ltb most (length clean))) [
  | inl long ↦ rw long (omega (arith, length-take most clean))
  | inr short ↦ rw short (ground (arith, short))
]

name_base-IsName : (readable suffix : Text) → IsName (name_base readable suffix)
unfolding name_base
name_base-IsName readable suffix =
    let cut = cut_to (253 - length suffix - 1) (sanitize_dns1123 readable) in
    or_target-IsName (trim cut)
      (trim-All cut (cut_to-All _ (sanitize_dns1123 readable) (sanitize_dns1123-All readable)))
      (trim-Begins cut)

length-name_base :
    (readable suffix : Text)
    → length suffix ≤ 10
    → length (name_base readable suffix) ≤ 253 - length suffix - 1
unfolding name_base
length-name_base readable suffix short =
    let most = 253 - length suffix - 1 in
    let cut = cut_to most (sanitize_dns1123 readable) in
    length-or_target (trim cut) most
      (omega (arith, length-trim cut, length-cut_to most (sanitize_dns1123 readable)))
      (omega (arith, short))

suffixed-IsName :
    (base suffix : Text) → IsName base → All IsNameByte suffix → IsName (base ++ b'-' ∷ suffix)
suffixed-IsName base suffix name h = record {
  bytes = All-append IsNameByte base (b'-' ∷ suffix) name.bytes (refl, h);
  head = name.head;
  tail = name.tail ++ b'-' ∷ suffix;
  shape = ap (λ s. s ++ b'-' ∷ suffix) name.shape;
  begins = name.begins;
}

-- If a digest is made of bytes that names may have, as hexadecimal digits are, then the name of every
-- tracker is not empty and at most 253 bytes long, all its bytes are lower-case letters, digits,
-- dashes and dots, and it begins with neither a dash nor a dot.
pub tracker_name-IsName :
    (digest : Text → Text) (key : TargetKey)
    → ((s : Text) → All IsNameByte (digest s))
    → IsName (tracker_name digest key) × (length (tracker_name digest key) ≤ 253)
unfolding tracker_name
tracker_name-IsName digest key hex =
    let suffix = take 10 (digest (key_text key)) in
    let base = name_base (readable_name key) suffix in
    let ten : length suffix ≤ 10 = omega (arith, length-take 10 (digest (key_text key))) in
    (
      suffixed-IsName base suffix (name_base-IsName (readable_name key) suffix)
          (All-take IsNameByte 10 (digest (key_text key)) (hex (key_text key))),
      omega (
        arith,
        ten,
        length-append base (b'-' ∷ suffix),
        length-name_base (readable_name key) suffix ten,
      ),
    )
