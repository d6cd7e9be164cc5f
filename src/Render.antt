-- ===== src/Render.antt =====
-- internal/render/render.go: a patch rendered into the object and the paths that a contributor claims.
-- Copies of a value are the value here. Parameters: `decode` is `json.Unmarshal` into a map,
-- `hash_of` is `HashObject`, SHA-256 of the JSON text; `decode_ops` and `apply_ops` are
-- `json.Unmarshal` of the ops and the json-patch library.
pub mod Pointer
pub mod Leaves
pub mod Readable
mod Tests
use patch_operator.Base.{
  ℕ, zero, suc, Bool, true, false, ◌&&◌, ◌||◌, Option, none, some, List, [], ◌∷◌, ◌++◌, Text, codes,
  ◌==◌, text_lt, if◌then◌else◌,
}
use patch_operator.Api.{PatchType, RawExtension, MergeKey, PatchSpec}
use patch_operator.Scope.Validate.{patch_type_of, no_bytes}
use patch_operator.FieldPath.{FieldPath, to_text, ok, err, Parsed, parse}
use patch_operator.Json.{Json, str, obj, Fields, end, entry, lookup, put}
use patch_operator.Render.Pointer.{Op, path_from_pointer, seed_for}
use patch_operator.Render.Leaves.{leaf_paths, sort_paths}

pub record Target : Type 0 where
  pub api_version : Text
  pub kind : Text
  pub name : Text
  pub namespace : Text

pub record Contribution : Type 0 where
  pub object : Fields
  pub paths : List FieldPath
  pub hash : Text

abbrev pub map_or_empty : Option Json → Fields
map_or_empty (some (obj m)) = m
map_or_empty v = end

abbrev pub with_namespace : Text → Fields → Fields
with_namespace namespace meta =
    if namespace == [] then meta else put (codes "namespace") (str namespace) meta

-- `withIdentity`
unfoldable pub with_identity : Fields → Target → Fields
with_identity fields t =
    let named =
      put (codes "kind") (str t.kind) (put (codes "apiVersion") (str t.api_version) fields) in
    let meta = map_or_empty (lookup (codes "metadata") named) in
    put (codes "metadata") (obj (with_namespace t.namespace (put (codes "name") (str t.name) meta)))
      named

-- `Identity`
unfoldable pub identity : Target → Fields
identity t = entry (codes "apiVersion") (str t.api_version) (
    entry (codes "kind") (str t.kind) (
      entry (codes "metadata")
        (obj (with_namespace t.namespace (entry (codes "name") (str t.name) end))) end))

-- `PathStrings`
unfoldable pub path_strings : List FieldPath → List Text
path_strings [] = []
path_strings (p ∷ paths) = to_text p ∷ path_strings paths

abbrev pub cons_parsed : Parsed → Option (List FieldPath) → Option (List FieldPath)
cons_parsed (ok p) (some paths) = some (p ∷ paths)
cons_parsed (ok p) none = none
cons_parsed (err e) paths = none

-- `ParsePaths`
unfoldable pub parse_paths : List Text → Option (List FieldPath)
parse_paths [] = some []
parse_paths (s ∷ texts) = cons_parsed (parse s) (parse_paths texts)

-- the paths of the ops, each once, by its text
abbrev pub is_among : Text → List FieldPath → Bool
is_among s [] = false
is_among s (p ∷ paths) = to_text p == s || is_among s paths

unfoldable pub op_paths : List FieldPath → List Op → Option (List FieldPath)
op_paths paths [] = some paths
op_paths paths (op ∷ ops) = elim (path_from_pointer op.path) [
  | none ↦ none
  | some p ↦
      op_paths (if to_text p == [] || is_among (to_text p) paths then paths else paths ++ p ∷ [])
        ops
]

module _ (decode : Text → Option Fields) (hash_of : Fields → Text)
    (decode_ops : Text → Option (List Op)) (apply_ops : Text → Fields → Option Fields) where
  -- `decodeObject`, and `DecodeBase`
  abbrev pub decode_object : Option RawExtension → Option Fields
  decode_object none = none
  decode_object (some raw) = if raw == [] then none else decode raw

  -- a patch value, which is not empty
  abbrev pub value_claims : List MergeKey → Option Fields → Option (Fields × List FieldPath)
  value_claims merge_keys none = none
  value_claims merge_keys (some end) = none
  value_claims merge_keys (some (entry k v m)) =
      some (entry k v m, leaf_paths (entry k v m) merge_keys)

  abbrev pub ops_claims : Text → Option (List Op) → Option (Fields × List FieldPath)
  ops_claims raw none = none
  ops_claims raw (some []) = none
  ops_claims raw (some (op ∷ ops)) = elim (apply_ops raw (seed_for (op ∷ ops))) [
    | none ↦ none
    | some fields ↦ elim (op_paths [] (op ∷ ops)) [
      | none ↦ none
      | some paths ↦ some (fields, sort_paths paths)
    ]
  ]

  -- `renderJSON6902`
  abbrev pub render_json6902 : Option RawExtension → Option (Fields × List FieldPath)
  render_json6902 none = none
  render_json6902 (some raw) = if raw == [] then none else ops_claims raw (decode_ops raw)

  abbrev pub claims_as : PatchType → PatchSpec → Option (Fields × List FieldPath)
  claims_as PatchType.strategic_merge spec = value_claims spec.merge_keys (decode_object spec.value)
  claims_as PatchType.merge spec = value_claims spec.merge_keys (decode_object spec.value)
  claims_as PatchType.json6902 spec = render_json6902 spec.ops
  claims_as _ spec = none

  -- `Render`; none is an error
  unfoldable pub render : PatchSpec → Target → Option Contribution
  render spec target = elim (claims_as (patch_type_of spec.type) spec) [
    | none ↦ none
    | some (fields, paths) ↦
        let object = with_identity fields target in
        some (record { object = object; paths = paths; hash = hash_of object })
  ]
