-- ===== src/Access/Steps.antt =====
-- internal/render/fieldpath.go: one step of a walk, a container at a segment after a write at it.
use patch_operator.Base.{
  ℕ, ◌≡◌, refl, true, none, some, [], ◌∷◌, Text, eq_refl, inl, inr, Option-cases,
}
use patch_operator.FieldPath.{Segment, field, index, key_match, FieldPath}
use patch_operator.Json.{Json, str, obj, arr, Fields, end, put, item, matches, find_by_key, Items}
use patch_operator.Json.Laws.{
  lookup-put_self, item-set_item_self, find_by_key-matches, find_by_key-set_item,
}
use patch_operator.Access.{child, get, refuse, write_back, or_made, start}

-- An element written for a key carries that key.
abbrev pub Fits : Segment → Json → Type 0
Fits (key_match key value) v = matches key value v ≡ true
Fits s v = Unit

-- The containers that admit a segment.
pub data Admits : Json → Segment → Type 0 where
  map_field : (m : Fields) (a : ℕ) (name : Text) → Admits (obj m) (field (a ∷ name))
  list_index : (l : Items) (i : ℕ) → Admits (arr l) (index i)
  list_key : (l : Items) (a : ℕ) (k x : Text) → Admits (arr l) (key_match (a ∷ k) x)

pub refuse-Admits : (c : Json) (s : Segment) → refuse c s ≡ none → Admits c s
unfolding refuse
refuse-Admits (obj m) (field (a ∷ name)) r = map_field m a name
refuse-Admits (arr l) (index i) r = list_index l i
refuse-Admits (arr l) (key_match (a ∷ k) x) r = list_key l a k x
refuse-Admits (obj m) (field []) r = cc
refuse-Admits _ (field []) r = cc
refuse-Admits _ (field (a ∷ name)) r = cc
refuse-Admits (obj m) (key_match [] x) r = cc
refuse-Admits _ (key_match [] x) r = cc
refuse-Admits _ (key_match (a ∷ k) x) r = cc
refuse-Admits _ (index i) r = cc

pub Admits-refuse : {c : Json} {s : Segment} → Admits c s → refuse c s ≡ none
unfolding refuse
Admits-refuse (map_field m a name) = refl
Admits-refuse (list_index l i) = refl
Admits-refuse (list_key l a k x) = refl

pub child-Admits : (c v : Json) (s : Segment) → child c s ≡ some v → Admits c s
unfolding child
child-Admits (obj m) v (field (a ∷ name)) e = map_field m a name
child-Admits (arr l) v (index i) e = list_index l i
child-Admits (arr l) v (key_match (a ∷ k) x) e = list_key l a k x
child-Admits (obj m) v (field []) e = cc
child-Admits _ v (field []) e = cc
child-Admits _ v (field (a ∷ name)) e = cc
child-Admits (obj m) v (key_match [] x) e = cc
child-Admits _ v (key_match [] x) e = cc
child-Admits _ v (key_match (a ∷ k) x) e = cc
child-Admits _ v (index i) e = cc

pub get-step :
    {c : Json} {s : Segment} (v : Json) (p : FieldPath)
    → Admits c s
    → child c s ≡ some v
    → get c (s ∷ p) ≡ get v p
unfolding get
get-step v p (map_field m a name) e = rw (e, get)
get-step v p (list_index l i) e = rw (e, get)
get-step v p (list_key l a k x) e = rw (e, get)

pub get-missing :
    {c : Json} {s : Segment} (p : FieldPath) → Admits c s → child c s ≡ none → get c (s ∷ p) ≡ none
unfolding get
get-missing p (map_field m a name) e = rw (e, get)
get-missing p (list_index l i) e = rw (e, get)
get-missing p (list_key l a k x) e = rw (e, get)

-- After a write at a segment that the container admits, the segment selects what was written.
pub child-write_back :
    {c : Json} {s : Segment} (v : Json)
    → Admits c s
    → Fits s v
    → child (write_back c s v) s ≡ some v
unfolding write_back child
child-write_back v (map_field m a name) h = lookup-put_self (a ∷ name) v m
child-write_back v (list_index l i) h = item-set_item_self i v l
child-write_back v (list_key l a k x) h =
    rw (find_by_key-set_item (a ∷ k) x v l h) (item-set_item_self (find_by_key (a ∷ k) x l) v l)

-- What a segment selects fits it, and so does what is made for it.
pub child-Fits : {c : Json} {s : Segment} (v : Json) → Admits c s → child c s ≡ some v → Fits s v
unfolding child
child-Fits v (map_field m a name) e = tt
child-Fits v (list_index l i) e = tt
child-Fits v (list_key l a k x) e = find_by_key-matches (a ∷ k) x v l e

matches-made : (k x : Text) → matches k x (obj (put k (str x) end)) ≡ true
unfolding matches
matches-made k x = rw (lookup-put_self k (str x) end) (eq_refl x)

pub start-Fits : {c : Json} {s : Segment} (next : Segment) → Admits c s → Fits s (start c s next)
unfolding start matches
start-Fits next (map_field m a name) = tt
start-Fits next (list_index l i) = tt
start-Fits next (list_key l a k x) = elim (Option-cases (item (find_by_key (a ∷ k) x l) l)) [
  | inl missing ↦ rw missing (matches-made (a ∷ k) x)
  | inr (v, e) ↦ rw e (found_Fits v (find_by_key-matches (a ∷ k) x v l e))
]
  where
    found_Fits :
        (v : Json)
        → matches (a ∷ k) x v ≡ true
        → matches (a ∷ k) x (or_made (some v) (key_match (a ∷ k) x) next) ≡ true
    found_Fits (obj m) h = h
    found_Fits _ h = cc
