-- ===== src/Render/Pointer.antt =====
-- internal/render/render.go: JSON pointers (`pointerTokens`, `pathFromJSONPointer`) and the document
-- that ops are applied to (`seedFor`). An `int` has 64 bits and wraps.
pub mod RoundTrip
use patch_operator.Base.{
  ℕ, ◌+◌, ◌-◌, ◌*◌, ◌%◌, Bool, true, false, ◌&&◌, ◌||◌, Option, none, some, List, [], ◌∷◌, Text,
  codes, ◌==◌, eqb, leb, ltb, has_prefix, all, if◌then◌else◌,
}
use patch_operator.FieldPath.{Segment, field, index, FieldPath, max_int}
use patch_operator.Json.{Json, arr, nil, obj, Fields, end, lookup, put}

-- the part of `jsonPatchOp` that the code reads
pub record Op : Type 0 where
  pub path : Text

-- `strings.ReplaceAll(s, "~" + d, by)`, each of one byte
unfoldable pub replace_escape : ℕ → ℕ → Text → Text
replace_escape d by [] = []
replace_escape d by (c ∷ []) = c ∷ []
replace_escape d by (c ∷ e ∷ s) =
    let replaced = by ∷ replace_escape d by s in
    let kept = c ∷ replace_escape d by (e ∷ s) in if eqb c b'~' && eqb e d then replaced else kept

-- RFC 6901: first ~1, then ~0
abbrev pub unescape : Text → Text
unescape s = replace_escape b'0' b'~' (replace_escape b'1' b'/' s)

abbrev pub onto_first : ℕ → List Text → List Text
onto_first c [] = (c ∷ []) ∷ []
onto_first c (t ∷ ts) = (c ∷ t) ∷ ts

-- `strings.Split(s, "/")`
unfoldable pub split_slash : Text → List Text
split_slash [] = [] ∷ []
split_slash (c ∷ s) =
    let rest = split_slash s in if eqb c b'/' then [] ∷ rest else onto_first c rest

unfoldable pub unescape_all : List Text → List Text
unfolding replace_escape
unescape_all [] = []
unescape_all (t ∷ ts) = unescape t ∷ unescape_all ts

abbrev pub trim_slash : Text → Text
trim_slash [] = []
trim_slash (c ∷ s) = if eqb c b'/' then s else c ∷ s

abbrev pub tokens_of : Text → List Text
tokens_of [] = []
tokens_of (c ∷ s) = unescape_all (split_slash (c ∷ s))

-- `pointerTokens`
unfoldable pub pointer_tokens : Text → List Text
unfolding split_slash unescape_all
pointer_tokens ptr = tokens_of (trim_slash ptr)

abbrev pub is_digit : ℕ → Bool
is_digit c = leb b'0' c && leb c b'9'

-- `isNumeric`
abbrev pub is_numeric : Text → Bool
is_numeric [] = false
is_numeric (c ∷ s) = all is_digit (c ∷ s)

-- the number that the digits make, in 64 bits
unfoldable pub to_int : ℕ → Text → ℕ
to_int n [] = n
to_int n (c ∷ s) = to_int ((n * 10 + (c - b'0')) % 18446744073709551616) s

-- an index; a negative one is a segment that no predicate accepts
abbrev pub index_of : ℕ → Segment
index_of n = if leb n max_int then index n else field []

abbrev pub token_segment : Text → Segment
token_segment tok =
    if tok == codes "-"
    then index 0
    else if is_numeric tok
    then index_of (to_int 0 tok)
    else field tok

abbrev pub segments_of : List Text → FieldPath
segments_of [] = []
segments_of (tok ∷ tokens) = token_segment tok ∷ segments_of tokens

abbrev pub non_empty : FieldPath → Option FieldPath
non_empty [] = none
non_empty (s ∷ p) = some (s ∷ p)

-- `pathFromJSONPointer`; none is an error
unfoldable pub path_from_pointer : Text → Option FieldPath
unfolding pointer_tokens to_int
path_from_pointer ptr =
    if ptr == [] || ptr == codes "/"
    then none
    else if has_prefix ptr (codes "/")
    then non_empty (segments_of (pointer_tokens ptr))
    else none

abbrev pub submap : Option Json → Fields
submap (some (obj m)) = m
submap v = end

abbrev pub is_position : Text → Bool
is_position tok = tok == codes "-" || is_numeric tok

-- the containers along one op path
unfoldable pub seed_path : List Text → Fields → Fields
seed_path [] m = m
seed_path (leaf ∷ []) m = m
seed_path (tok ∷ leaf ∷ []) m =
    put tok (if is_position leaf then arr nil else obj (submap (lookup tok m))) m
seed_path (tok ∷ next ∷ leaf ∷ tokens) m =
    put tok (obj (seed_path (next ∷ leaf ∷ tokens) (submap (lookup tok m)))) m

unfoldable pub seed_from : Fields → List Op → Fields
unfolding seed_path pointer_tokens
seed_from m [] = m
seed_from m (op ∷ ops) = seed_from (seed_path (pointer_tokens op.path) m) ops

-- `seedFor`
unfoldable pub seed_for : List Op → Fields
unfolding seed_from
seed_for ops = seed_from end ops
