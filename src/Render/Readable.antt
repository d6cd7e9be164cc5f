-- ===== src/Render/Readable.antt =====
-- internal/render/render.go: the leaf paths of an object, and `Get` on them.
use patch_operator.Base.{
  ℕ, zero, suc, ◌+◌, ◌≡◌, ◌≢◌, ◌∙◌, refl, sym, ap, inl, inr, true, false, none, some, List, [], ◌∷◌,
  ◌++◌, append-nil, append_assoc, Text, ◌==◌, eq_iff, eq_refl, some-injective, subst, text_lt,
  arith, All, All-append, All-split, Bool-cases, Option-cases,
}
use patch_operator.Api.{MergeKey}
use patch_operator.FieldPath.{Segment, field, FieldPath, to_text}
use patch_operator.Json.{
  Json, null, bool, num, str, arr, obj, Items, nil, cons, Fields, end, entry, lookup, item, print,
  matches, find_by_key,
}
use patch_operator.Access.{child, get}
use patch_operator.Access.Steps.{child-Admits, get-step}
use patch_operator.Sort.Laws.{All-stable_sort}
use patch_operator.Render.Leaves.{
  leaf_at, is_identity, insert_key, flatten, element_segment, is_key_match, merge_key_at,
  collect_leaves, collect_fields, collect_items, sort_paths, leaf_paths,
}

-- The keys of each map are different, and none is empty.
abbrev mutual
  pub NamedFields : Fields → Type 0
  NamedFields end = Unit {0}
  NamedFields (entry k v m) = (k ≢ []) × ((lookup k m ≡ none) × (NamedJson v × NamedFields m))

  pub NamedItems : Items → Type 0
  NamedItems nil = Unit {0}
  NamedItems (cons e l) = NamedJson e × NamedItems l

  pub NamedJson : Json → Type 0
  NamedJson (obj m) = NamedFields m
  NamedJson (arr l) = NamedItems l
  NamedJson v = Unit {0}

-- Something can be read at the path.
abbrev pub Readable : Json → FieldPath → Type 0
Readable root p = (w : Json) × (get root p ≡ some w)

module _ (root : Json) where
  -- A path leads to a value: what follows the path is read in the value.
  abbrev Leads : FieldPath → Json → Type 0
  Leads prefix v = (q : FieldPath) → get root (prefix ++ q) ≡ get v q

  Leads-step :
      (prefix : FieldPath) (s : Segment) (v w : Json)
      → Leads prefix v
      → child v s ≡ some w
      → Leads (prefix ++ s ∷ []) w
  Leads-step prefix s v w leads at q =
      ap (get root) (append_assoc prefix (s ∷ []) q)
      ∙ leads (s ∷ q)
      ∙ get-step w q (child-Admits v w s at) at

  Leads-Readable : (prefix : FieldPath) (v : Json) → Leads prefix v → Readable root prefix
  unfolding get
  Leads-Readable prefix v leads = (v, ap (get root) (sym (append-nil prefix)) ∙ leads [])

  leaf-Readable :
      (prefix : FieldPath) (v : Json) → Leads prefix v → All (Readable root) (leaf_at prefix)
  leaf-Readable [] v leads = tt
  leaf-Readable (s ∷ p) v leads = (Leads-Readable (s ∷ p) v leads, tt)

  insert_key-Readable :
      (k : Text) (ps : List FieldPath) (l : List (Text × List FieldPath))
      → All (Readable root) ps
      → All (Readable root) (flatten l)
      → All (Readable root) (flatten (insert_key k ps l))
  unfolding insert_key
  insert_key-Readable k ps [] h rest = All-append (Readable root) ps [] h tt
  insert_key-Readable k ps ((j, qs) ∷ l) h rest =
      let (here, later) = All-split (Readable root) qs (flatten l) rest in
      elim (Bool-cases (text_lt j k)) [
        | inl first ↦ rw first (
            All-append (Readable root) qs (flatten (insert_key k ps l)) here
              (insert_key-Readable k ps l h later))
        | inr behind ↦ rw behind (All-append (Readable root) ps (qs ++ flatten l) h rest)
      ]

  -- the elements of a list from the `i`-th on
  abbrev From : ℕ → Items → Items → Type 0
  From i l whole = (j : ℕ) (e : Json) → item j l ≡ some e → item (j + i) whole ≡ some e

  From-next : (i : ℕ) (e : Json) (l whole : Items) → From i (cons e l) whole → From (suc i) l whole
  unfolding item
  From-next i e l whole from j d at =
      let same : j + suc i ≡ suc j + i = omega arith in rw same (from (suc j) d at)

  From-here : (i : ℕ) (e : Json) (l whole : Items) → From i (cons e l) whole → item i whole ≡ some e
  unfolding item
  From-here i e l whole from =
      let same : zero + i ≡ i = omega arith in rw same at (from zero e refl)

  From-whole : (l : Items) → From zero l l
  From-whole l j e at = let same : j ≡ j + zero = omega arith in rw same at at

  -- the entries of a map that are left in a loop over it
  abbrev Within : Fields → Fields → Type 0
  Within m whole = (k : Text) (v : Json) → lookup k m ≡ some v → lookup k whole ≡ some v

  Within-here :
      (k : Text) (v : Json) (m whole : Fields)
      → Within (entry k v m) whole
      → lookup k whole ≡ some v
  unfolding lookup
  Within-here k v m whole within = within k v (rw (eq_refl k) refl)

  Within-next :
      (k : Text) (v : Json) (m whole : Fields)
      → lookup k m ≡ none
      → Within (entry k v m) whole
      → Within m whole
  unfolding lookup
  Within-next k v m whole fresh within j w at = elim (Bool-cases (k == j)) [
    | inl same ↦ cc (fresh, rw (sym ((eq_iff k j).0 same)) at at)
    | inr other ↦ within j w (rw other at)
  ]

  child-field :
      (k : Text) (v : Json) (whole : Fields)
      → k ≢ []
      → lookup k whole ≡ some v
      → child (obj whole) (field k) ≡ some v
  unfolding child
  child-field [] v whole ne at = absurd (ne refl)
  child-field (c ∷ k) v whole ne at = at

-- A search finds an element where one matches.
find_by_key-found :
    (key value : Text) (i : ℕ) (e : Json) (l : Items)
    → item i l ≡ some e
    → matches key value e ≡ true
    → (d : Json) × (item (find_by_key key value l) l ≡ some d)
unfolding item find_by_key
find_by_key-found key value i e nil at match = cc
find_by_key-found key value zero e (cons c l) at match =
    let same : c ≡ e = some-injective at in
    let found : matches key value c ≡ true = ap (matches key value) same ∙ match in
    (c, rw found refl)
find_by_key-found key value (suc i) e (cons c l) at match =
    elim (Bool-cases (matches key value c)) [
      | inl found ↦ (c, rw found refl)
      | inr other ↦ rw other (find_by_key-found key value i e l at match)
    ]

module _ (root : Json) (merge_keys : List MergeKey) where
  -- how the segment of an element reads it
  element-child :
      (key : Text) (e : Json) (i : ℕ) (whole : Items)
      → item i whole ≡ some e
      → (d : Json) × (child (arr whole) (element_segment key e i) ≡ some d)
        × (is_key_match (element_segment key e i) ≡ false → d ≡ e)
  unfolding child matches
  element-child [] e i whole at = (e, at, λ _. refl)
  element-child (c ∷ key) (obj m) i whole at = elim (Option-cases (lookup (c ∷ key) m)) [
    | inl absent ↦ rw absent (obj m, at, λ _. refl)
    | inr (v, present) ↦
        let (d, found) =
          find_by_key-found (c ∷ key) (print v) i (obj m) whole at
            (rw present (eq_refl (print v))) in
        (rw present (d, found, λ e. cc))
  ]
  element-child (c ∷ key) null i whole at = (null, at, λ _. refl)
  element-child (c ∷ key) (bool b) i whole at = (bool b, at, λ _. refl)
  element-child (c ∷ key) (num n) i whole at = (num n, at, λ _. refl)
  element-child (c ∷ key) (str s) i whole at = (str s, at, λ _. refl)
  element-child (c ∷ key) (arr l) i whole at = (arr l, at, λ _. refl)

  mutual
    unfolding collect_leaves collect_fields collect_items

    leaves-Readable :
        (v : Json) (prefix : FieldPath)
        → NamedJson v
        → Leads root prefix v
        → All (Readable root) (collect_leaves merge_keys v prefix)
    leaves-Readable (obj end) prefix named leads = leaf-Readable root prefix (obj end) leads
    leaves-Readable (obj (entry k v m)) prefix named leads =
        fields-Readable (entry k v m) (entry k v m) prefix named leads (λ j w at. at)
    leaves-Readable (arr nil) prefix named leads = leaf-Readable root prefix (arr nil) leads
    leaves-Readable (arr (cons e l)) prefix named leads =
        items-Readable (cons e l) (cons e l) (merge_key_at merge_keys (to_text prefix)) zero prefix
          named leads (From-whole root (cons e l))
    leaves-Readable null prefix named leads = leaf-Readable root prefix null leads
    leaves-Readable (bool b) prefix named leads = leaf-Readable root prefix (bool b) leads
    leaves-Readable (num n) prefix named leads = leaf-Readable root prefix (num n) leads
    leaves-Readable (str s) prefix named leads = leaf-Readable root prefix (str s) leads

    fields-Readable :
        (m whole : Fields) (prefix : FieldPath)
        → NamedFields m
        → Leads root prefix (obj whole)
        → Within root m whole
        → All (Readable root) (flatten (collect_fields merge_keys m prefix))
    fields-Readable end whole prefix named leads within = tt
    fields-Readable (entry k v m) whole prefix (ne, (fresh, (inner, named))) leads within =
        let rest =
          fields-Readable m whole prefix named leads (Within-next root k v m whole fresh within) in
        let at = child-field root k v whole ne (Within-here root k v m whole within) in
        let below =
          leaves-Readable v (prefix ++ field k ∷ []) inner
            (Leads-step root prefix (field k) (obj whole) v leads at) in
        elim (Bool-cases (is_identity prefix k)) [
          | inl passed ↦ rw passed rest
          | inr kept ↦ rw kept (insert_key-Readable root k _ _ below rest)
        ]

    items-Readable :
        (l whole : Items) (key : Text) (i : ℕ) (prefix : FieldPath)
        → NamedItems l
        → Leads root prefix (arr whole)
        → From root i l whole
        → All (Readable root) (collect_items merge_keys l key i prefix)
    items-Readable nil whole key i prefix named leads from = tt
    items-Readable (cons e l) whole key i prefix (inner, named) leads from =
        let s = element_segment key e i in
        let (d, at, plain) = element-child key e i whole (From-here root i e l whole from) in
        let there = Leads-step root prefix s (arr whole) d leads at in
        let rest =
          items-Readable l whole key (suc i) prefix named leads (From-next root i e l whole from) in
        elim (Bool-cases (is_key_match s)) [
          | inl by_key ↦ rw by_key (Leads-Readable root (prefix ++ s ∷ []) d there, rest)
          | inr other ↦ rw other (
              All-append (Readable root) _ _
                (leaves-Readable e (prefix ++ s ∷ []) inner
                  (subst (Leads root (prefix ++ s ∷ [])) (plain other) there))
                rest)
        ]

-- Let each map in an object have different keys, none of them empty. Then `Get` finds something at
-- each of the object's leaf paths, whatever the merge keys are.
pub leaf_paths-Readable :
    (fields : Fields) (merge_keys : List MergeKey)
    → NamedFields fields
    → All (Readable (obj fields)) (leaf_paths fields merge_keys)
unfolding leaf_paths sort_paths
leaf_paths-Readable fields merge_keys named =
    All-stable_sort _ (Readable (obj fields)) _
      (leaves-Readable (obj fields) merge_keys (obj fields) [] named (λ q. refl))
