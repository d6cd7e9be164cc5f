-- ===== src/Apply/Manager.antt =====
-- internal/apply/applier.go: the field manager of a contributor. `digest` stands for the hexadecimal
-- SHA-256 of the encoded name, which `render.HashObject` puts behind "sha256:".
use patch_operator.Base.{
  ℕ, zero, suc, ◌-◌, ◌≤◌, ◌≡◌, refl, true, [], ◌∷◌, ◌++◌, Text, arith, has_prefix,
  has_prefix-append, leb, length, take, length-append, length-take, Bool-cases, inl, inr, ◌==◌,
  if◌then◌else◌,
}
use patch_operator.Apply.{field_manager_prefix, is_our_manager}

-- `maxFieldManagerLength`
abbrev pub max_field_manager_length : ℕ
max_field_manager_length = 128

module _ (digest : Text → Text) where
  -- the dash and the first 16 digits
  abbrev pub name_suffix : Text → Text
  name_suffix s = b'-' ∷ take 16 (digest s)

  -- `truncateFieldManager`
  unfoldable pub truncate_field_manager : Text → Text
  truncate_field_manager s =
      if leb (length s) max_field_manager_length
      then s
      else take (max_field_manager_length - length (name_suffix s)) s ++ name_suffix s

  -- `FieldManagerFor`; the kind plays no part
  unfoldable pub field_manager_for : Text → Text → Text → Text
  unfolding truncate_field_manager
  field_manager_for kind namespace name =
      truncate_field_manager
        (field_manager_prefix ++ ((if namespace == [] then [] else namespace ++ b'/' ∷ []) ++ name))

has_prefix-take :
    (p s suffix : Text) (n : ℕ) → length p ≤ n → has_prefix (take n (p ++ s) ++ suffix) p ≡ true
unfolding has_prefix
has_prefix-take [] s suffix n le = refl
has_prefix-take (c ∷ p) s suffix zero le = absurd (omega (arith, le))
has_prefix-take (c ∷ p) s suffix (suc n) le =
    let rest = has_prefix-take p s suffix n (omega (arith, le)) in ground (arith, rest)

name_suffix-le : (digest : Text → Text) (s : Text) → length (name_suffix digest s) ≤ 17
name_suffix-le digest s = omega (arith, length-take 16 (digest s))

truncate-length :
    (digest : Text → Text) (s : Text)
    → length (truncate_field_manager digest s) ≤ max_field_manager_length
unfolding truncate_field_manager
truncate-length digest s = elim (Bool-cases (leb (length s) max_field_manager_length)) [
  | inl short ↦ rw short (ground arith)
  | inr long ↦
      let n = max_field_manager_length - length (name_suffix digest s) in
      rw long (
        omega (
          arith,
          length-append (take n s) (name_suffix digest s),
          length-take n s,
          name_suffix-le digest s,
        ))
]

truncate-prefix :
    (digest : Text → Text) (p s : Text)
    → length p ≤ 111
    → has_prefix (truncate_field_manager digest (p ++ s)) p ≡ true
unfolding truncate_field_manager
truncate-prefix digest p s le = elim (Bool-cases (leb (length (p ++ s)) max_field_manager_length)) [
  | inl short ↦ rw short (has_prefix-append p s)
  | inr long ↦ rw long (
      has_prefix-take p s (name_suffix digest (p ++ s)) _
        (omega (arith, le, name_suffix-le digest (p ++ s))))
]

-- Whatever the contributor and the digest, the field manager is one that the operator knows as its
-- own, and it is within the API server's limit.
pub field_manager_for-known :
    (digest : Text → Text) (kind namespace name : Text)
    → (is_our_manager (field_manager_for digest kind namespace name) ≡ true)
      × (length (field_manager_for digest kind namespace name) ≤ max_field_manager_length)
unfolding field_manager_for is_our_manager
field_manager_for-known digest kind namespace name = (
  truncate-prefix digest field_manager_prefix _ (omega arith),
  truncate-length digest
      (field_manager_prefix ++ ((if namespace == [] then [] else namespace ++ b'/' ∷ []) ++ name)),
)
