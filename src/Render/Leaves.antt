-- ===== src/Render/Leaves.antt =====
-- internal/render/render.go: `LeafPaths`, `collectLeaves` and `sortPaths`.
use patch_operator.Base.{
  ℕ, zero, suc, Bool, true, false, ◌&&◌, ◌||◌, Option, none, some, List, [], ◌∷◌, ◌++◌, Text, codes,
  ◌==◌, text_lt, if◌then◌else◌,
}
use patch_operator.Api.{MergeKey}
use patch_operator.FieldPath.{Segment, field, index, key_match, FieldPath, to_text}
use patch_operator.Json.{Json, arr, obj, Items, nil, cons, Fields, end, entry, lookup, print}
use patch_operator.Sort.{stable_sort}

-- `keyByPath[path]`, which is empty for a path that is not there; a later entry replaces an earlier
unfoldable pub merge_key_at : List MergeKey → Text → Text
merge_key_at [] path = []
merge_key_at (mk ∷ merge_keys) path = elim (merge_key_at merge_keys path) [
  | [] ↦ if mk.path == path then mk.key else []
  | c ∷ key ↦ c ∷ key
]

-- an empty container or a value is a leaf, except at the root
abbrev pub leaf_at : FieldPath → List FieldPath
leaf_at [] = []
leaf_at (s ∷ p) = (s ∷ p) ∷ []

abbrev pub is_root : FieldPath → Bool
is_root [] = true
is_root (s ∷ p) = false

-- what a map's loop passes over
abbrev pub is_identity : FieldPath → Text → Bool
is_identity prefix k = is_root prefix && (k == codes "apiVersion" || k == codes "kind")

-- `sort.Strings(keys)`, with what each key collects
unfoldable pub insert_key :
    Text → List FieldPath → List (Text × List FieldPath) → List (Text × List FieldPath)
insert_key k ps [] = (k, ps) ∷ []
insert_key k ps ((j, qs) ∷ l) =
    let rest = insert_key k ps l in if text_lt j k then (j, qs) ∷ rest else (k, ps) ∷ (j, qs) ∷ l

abbrev pub flatten : List (Text × List FieldPath) → List FieldPath
flatten [] = []
flatten ((k, ps) ∷ l) = ps ++ flatten l

abbrev pub keyed : Text → Option Json → ℕ → Segment
keyed key none i = index i
keyed key (some v) i = key_match key (print v)

-- the segment of a list element
abbrev pub element_segment : Text → Json → ℕ → Segment
element_segment [] e i = index i
element_segment (c ∷ key) (obj m) i = keyed (c ∷ key) (lookup (c ∷ key) m) i
element_segment (c ∷ key) e i = index i

abbrev pub is_key_match : Segment → Bool
is_key_match (key_match (c ∷ key) value) = true
is_key_match s = false

module _ (merge_keys : List MergeKey) where
  -- `collectLeaves`
  unfoldable mutual
    unfolding insert_key

    pub collect_leaves : Json → FieldPath → List FieldPath
    collect_leaves (obj end) prefix = leaf_at prefix
    collect_leaves (obj (entry k v m)) prefix = flatten (collect_fields (entry k v m) prefix)
    collect_leaves (arr nil) prefix = leaf_at prefix
    collect_leaves (arr (cons e l)) prefix =
        collect_items (cons e l) (merge_key_at merge_keys (to_text prefix)) zero prefix
    collect_leaves v prefix = leaf_at prefix

    pub collect_fields : Fields → FieldPath → List (Text × List FieldPath)
    collect_fields end prefix = []
    collect_fields (entry k v m) prefix =
        let rest = collect_fields m prefix in
        let below = collect_leaves v (prefix ++ field k ∷ []) in
        if is_identity prefix k then rest else insert_key k below rest

    pub collect_items : Items → Text → ℕ → FieldPath → List FieldPath
    collect_items nil key i prefix = []
    collect_items (cons e l) key i prefix =
        let at = prefix ++ element_segment key e i ∷ [] in
        let below = collect_leaves e at in
        (if is_key_match (element_segment key e i) then at ∷ [] else below)
        ++ collect_items l key (suc i) prefix

-- `sortPaths`; paths that read alike stay as they are collected
unfoldable pub sort_paths : List FieldPath → List FieldPath
sort_paths = stable_sort (λ p q. text_lt (to_text p) (to_text q))

-- `LeafPaths`
unfoldable pub leaf_paths : Fields → List MergeKey → List FieldPath
leaf_paths fields merge_keys = sort_paths (collect_leaves merge_keys (obj fields) [])
