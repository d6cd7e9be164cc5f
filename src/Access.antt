-- ===== src/Access.antt =====
-- internal/render/fieldpath.go, the access to an object by a path: `Get`, `Set` and `Delete`.
-- The source splits each walk in a function for maps and one for slices and calls the one that fits
-- the child; here one function looks at the container itself. A write returns the object as the
-- caller sees it afterwards, also when it fails halfway.
pub mod Steps
pub mod Inversion
pub mod GetSet
pub mod Frame
mod Tests
use patch_operator.Base.{
  ℕ, zero, suc, ◌-◌, Bool, true, false, Option, none, some, List, [], ◌∷◌, ◌==◌, is_some, ltb, take,
  length, if◌then◌else◌,
}
use patch_operator.FieldPath.{Segment, field, index, key_match, FieldPath}
use patch_operator.Json.{
  Json, null, str, obj, arr, Fields, nil, end, lookup, put, erase, size, item, set_item,
  remove_item, find_by_key,
}

-- the value that a segment selects in a container; none for a container of another kind
unfoldable pub child : Json → Segment → Option Json
child (obj m) (field (c ∷ name)) = lookup (c ∷ name) m
child (arr l) (index i) = item i l
child (arr l) (key_match (c ∷ key) value) = item (find_by_key (c ∷ key) value l) l
child _ _ = none

-- `Get`; a segment that no predicate accepts is passed over
unfoldable pub get : Json → FieldPath → Option Json
unfolding child
get cur [] = some cur
get cur (field [] ∷ p) = get cur p
get cur (key_match [] value ∷ p) = get cur p
get cur (s ∷ p) = elim (child cur s) [ none ↦ none | some next ↦ get next p ]

pub data SetError : Type 0 where
  empty_path not_a_field expected_map reached_set_in expected_list unhandled : SetError

-- the error that `setIn` or `setInList` returns for a segment at its container
unfoldable pub refuse : Json → Segment → Option SetError
refuse (obj m) (field (c ∷ name)) = none
refuse (arr l) (index i) = none
refuse (arr l) (key_match (c ∷ key) value) = none
refuse (arr l) s = some expected_list
refuse _ (field (c ∷ name)) = some expected_map
refuse _ (field []) = some unhandled
refuse _ (key_match [] value) = some unhandled
refuse _ s = some reached_set_in

-- `m[k] = v` or `l[i] = v`, after the slice has been extended
unfoldable pub write_back : Json → Segment → Json → Json
write_back (obj m) (field name) v = obj (put name v m)
write_back (arr l) (index i) v = arr (set_item i v l)
write_back (arr l) (key_match key value) v = arr (set_item (find_by_key key value l) v l)
write_back c s v = c

-- `emptyFor`
unfoldable pub empty_for : Segment → Json
empty_for (index i) = arr nil
empty_for (key_match (c ∷ key) value) = arr nil
empty_for _ = obj end

-- the value behind a segment before the walk goes on: what is missing is created
unfoldable pub made : Segment → Json
made (key_match key value) = obj (put key (str value) end)
made _ = obj end

abbrev pub or_made : Option Json → Segment → Segment → Json
or_made none (field name) next = empty_for next
or_made none s next = made s
or_made (some null) s next = empty_for next
or_made (some v) s next = v

unfoldable pub start : Json → Segment → Segment → Json
unfolding child empty_for made
start c s next = or_made (child c s) s next

-- What the caller sees when the walk below `s` has failed: the map has the child that was made,
-- but the slice that `append` returned is dropped.
unfoldable pub leave : Json → Segment → Json → Json
unfolding child write_back
leave (arr l) s v = if is_some (child (arr l) s) then write_back (arr l) s v else arr l
leave c s v = write_back c s v

-- how the container is written, by the outcome of the walk below
abbrev pub rebuild : Json → Segment → Json × Option SetError → Json × Option SetError
rebuild c s (v, none) = (write_back c s v, none)
rebuild c s (v, some e) = (leave c s v, some e)

-- `setIn` and `setInList`; they are never called with an empty path
unfoldable pub set_in : Json → FieldPath → Json → Json × Option SetError
unfolding refuse write_back start leave
set_in c [] v = (c, some unhandled)
set_in c (s ∷ []) v = elim (refuse c s) [ some e ↦ (c, some e) | none ↦ (write_back c s v, none) ]
set_in c (s ∷ next ∷ p) v = elim (refuse c s) [
  | some e ↦ (c, some e)
  | none ↦ rebuild c s (set_in (start c s next) (next ∷ p) v)
]

-- `Set`
unfoldable pub set : Fields → FieldPath → Json → Json × Option SetError
unfolding set_in
set m [] v = (obj m, some empty_path)
set m (field (c ∷ name) ∷ p) v = set_in (obj m) (field (c ∷ name) ∷ p) v
set m (s ∷ p) v = (obj m, some not_a_field)

-- `delete(m, k)` or the slice without the element
unfoldable pub remove : Json → Segment → Json
remove (obj m) (field name) = obj (erase name m)
remove (arr l) (index i) = arr (remove_item i l)
remove (arr l) (key_match key value) = arr (remove_item (find_by_key key value l) l)
remove c s = c

abbrev pub rebuild_removed : Json → Segment → Json × Bool → Json × Bool
rebuild_removed c s (v, true) = (write_back c s v, true)
rebuild_removed c s (v, false) = (c, false)

-- `deleteIn` and `deleteInList`
unfoldable pub delete_in : Json → FieldPath → Json × Bool
unfolding child write_back remove
delete_in c [] = (c, false)
delete_in c (s ∷ []) = elim (child c s) [ none ↦ (c, false) | some v ↦ (remove c s, true) ]
delete_in c (s ∷ next ∷ p) = elim (child c s) [
  | none ↦ (c, false)
  | some v ↦ rebuild_removed c s (delete_in v (next ∷ p))
]

abbrev pub is_empty_map : Json → Bool
is_empty_map (obj end) = true
is_empty_map _ = false

-- the loop of `pruneEmpty`, at the prefix of the given length
unfoldable pub prune_from : ℕ → Json → FieldPath → Json
unfolding get delete_in
prune_from zero c p = c
prune_from (suc i) c p = elim (get c (take (suc i) p)) [
  | none ↦ prune_from i c p
  | some v ↦ elim (is_empty_map v) [
    | false ↦ c
    | true ↦
        let (d, removed) = delete_in c (take (suc i) p) in
        elim removed [ true ↦ prune_from i d p | false ↦ d ]
  ]
]

-- `pruneEmpty`
unfoldable pub prune_empty : Json → FieldPath → Json
unfolding prune_from
prune_empty c p = prune_from (length p - 1) c p

-- `Delete`
unfoldable pub delete : Fields → FieldPath → Json × Bool
unfolding delete_in prune_empty
delete m [] = (obj m, false)
delete m (s ∷ p) =
    let (c, removed) = delete_in (obj m) (s ∷ p) in
    if removed then (prune_empty c (s ∷ p), true) else (c, false)
