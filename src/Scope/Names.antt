-- ===== src/Scope/Names.antt =====
-- internal/scope/scope.go: `TrackerName` and `sanitizeDNS1123`. `digest` is the hexadecimal SHA-256;
-- `strings.ToLower` is modelled on kinds that are ASCII, as those of the API server are.
pub mod Laws
mod Tests
use patch_operator.Base.{
  ℕ, ◌+◌, ◌-◌, Bool, true, false, ◌&&◌, ◌||◌, not, Option, none, some, List, [], ◌∷◌, ◌++◌, Text,
  codes, ◌==◌, eqb, leb, ltb, to_lower, length, take, if◌then◌else◌,
}
use patch_operator.Scope.{TargetKey, key_text}

abbrev pub onto_group : ℕ → Option Text → Option Text
onto_group c none = none
onto_group c (some group) = some (c ∷ group)

-- what stands before the first slash
unfoldable pub before_slash : Text → Option Text
before_slash [] = none
before_slash (c ∷ s) =
    let rest = before_slash s in if eqb c b'/' then some [] else onto_group c rest

abbrev pub or_no_group : Option Text → Text
or_no_group none = []
or_no_group (some group) = group

-- the bytes that are kept
abbrev pub is_name_byte : ℕ → Bool
is_name_byte c =
    (leb b'a' c && leb c b'z') || ((leb b'0' c && leb c b'9') || (eqb c b'-' || eqb c b'.'))

abbrev pub is_upper : ℕ → Bool
is_upper c = leb b'A' c && leb c b'Z'

-- `len(out) > 0 && out[len(out)-1] != '-'`
abbrev pub takes_dash : Option ℕ → Bool
takes_dash none = false
takes_dash (some c) = not (eqb c b'-')

-- the byte that one byte of the text appends, if it appends one; `last` is the one appended before
unfoldable pub emitted : Option ℕ → ℕ → Option ℕ
emitted last c =
    if is_name_byte c
    then some c
    else if is_upper c
    then some (c + 32)
    else if takes_dash last
    then some b'-'
    else none

abbrev pub or_last : Option ℕ → Option ℕ → Option ℕ
or_last none last = last
or_last (some c) last = some c

abbrev pub onto : Option ℕ → Text → Text
onto none s = s
onto (some c) s = c ∷ s

-- the loop of `sanitizeDNS1123`
unfoldable pub sanitize_from : Option ℕ → Text → Text
unfolding emitted
sanitize_from last [] = []
sanitize_from last (c ∷ s) = onto (emitted last c) (sanitize_from (or_last (emitted last c) last) s)

abbrev pub is_separator : ℕ → Bool
is_separator c = eqb c b'-' || eqb c b'.'

unfoldable pub trim_left : Text → Text
trim_left [] = []
trim_left (c ∷ s) = let rest = trim_left s in if is_separator c then rest else c ∷ s

abbrev pub keep_before : ℕ → Text → Text
keep_before c [] = if is_separator c then [] else c ∷ []
keep_before c (d ∷ s) = c ∷ d ∷ s

unfoldable pub trim_right : Text → Text
trim_right [] = []
trim_right (c ∷ s) = keep_before c (trim_right s)

-- `strings.Trim(s, "-.")`
abbrev pub trim : Text → Text
trim s = trim_right (trim_left s)

-- `sanitizeDNS1123`
unfoldable pub sanitize_dns1123 : Text → Text
unfolding sanitize_from trim_left trim_right
sanitize_dns1123 s = trim (sanitize_from none s)

-- `validation.DNS1123SubdomainMaxLength`
abbrev pub dns1123_subdomain_max_length : ℕ
dns1123_subdomain_max_length = 253

-- kind, group, namespace and name of a target, where it has them
abbrev pub readable_name : TargetKey → Text
readable_name key =
    let group = or_no_group (before_slash key.api_version) in
    to_lower key.kind
    ++ ((if group == [] then [] else b'.' ∷ group)
        ++ ((if key.namespace == [] then [] else b'-' ∷ key.namespace) ++ b'-' ∷ key.name))

abbrev pub or_target : Text → Text
or_target [] = codes "target"
or_target (c ∷ s) = c ∷ s

-- the readable part, cut to the length that the suffix leaves
unfoldable pub name_base : Text → Text → Text
unfolding sanitize_dns1123 trim_left trim_right
name_base readable suffix =
    let clean = sanitize_dns1123 readable in
    let most = dns1123_subdomain_max_length - length suffix - 1 in
    or_target (trim (if ltb most (length clean) then take most clean else clean))

-- `TrackerName`
unfoldable pub tracker_name : (Text → Text) → TargetKey → Text
unfolding name_base before_slash to_lower key_text
tracker_name digest key =
    let suffix = take 10 (digest (key_text key)) in
    name_base (readable_name key) suffix ++ b'-' ∷ suffix
