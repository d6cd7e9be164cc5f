-- ===== src/Access/Frame.antt =====
-- internal/render/fieldpath.go: `Set` and the paths that part from the one that is written.
use patch_operator.Base.{
  ℕ, ◌≡◌, ◌≢◌, refl, ◌∙◌, ap, true, false, Option, none, some, [], ◌∷◌, Text, arith, eq_iff,
}
use patch_operator.FieldPath.{Segment, field, index, key_match, FieldPath}
use patch_operator.Json.{
  Json, null, obj, Items, Fields, item, set_item, lookup, or_null, print, matches, find_by_key,
}
use patch_operator.Json.Laws.{
  lookup-put_ne, item-set_item_ne, find_by_key-matches, find_by_key-set_item_ne,
}
use patch_operator.Access.{child, get, write_back, start, or_made, set_in, set}
use patch_operator.Access.Steps.{
  Fits, Admits, map_field, list_index, list_key, child-Admits, get-step,
}
use patch_operator.Access.Inversion.{set_in-last, set_in-next}
use patch_operator.Access.GetSet.{
  KeepsKeys, KeepsKeys-Fits, KeepsKeys-tail, walked-Fits, get-write_back,
}

-- A segment that one of the predicates of the source accepts.
pub data IsNamed : Segment → Type 0 where
  named_field : (a : ℕ) (name : Text) → IsNamed (field (a ∷ name))
  named_index : (i : ℕ) → IsNamed (index i)
  named_key : (a : ℕ) (k x : Text) → IsNamed (key_match (a ∷ k) x)

-- Two segments that select different places of one container.
pub data Parts : Segment → Segment → Type 0 where
  fields : {a b : Text} → a ≢ b → Parts (field a) (field b)
  indices : {i j : ℕ} → i ≢ j → Parts (index i) (index j)
  keys : {k x y : Text} → x ≢ y → Parts (key_match k x) (key_match k y)

-- Two paths that part after a common beginning.
pub data Apart : FieldPath → FieldPath → Type 0 where
  here : {s t : Segment} {p q : FieldPath} → Parts s t → IsNamed t → Apart (s ∷ p) (t ∷ q)
  below : {s : Segment} {p q : FieldPath} → IsNamed s → Apart p q → Apart (s ∷ p) (s ∷ q)

step_inv :
    (o : Option Json) (u : Json) (q : FieldPath)
    → elim o as (λ _. Option Json) [ none ↦ none | some next ↦ get next q ] ≡ some u
    → (d : Json) × (o ≡ some d) × (get d q ≡ some u)
step_inv none u q e = cc
step_inv (some d) u q e = (d, refl, e)

get-named :
    {t : Segment} (c u : Json) (q : FieldPath)
    → IsNamed t
    → get c (t ∷ q) ≡ some u
    → (d : Json) × (child c t ≡ some d) × (get d q ≡ some u)
unfolding get
get-named c u q (named_field a name) e = step_inv (child c (field (a ∷ name))) u q e
get-named c u q (named_index i) e = step_inv (child c (index i)) u q e
get-named c u q (named_key a k x) e = step_inv (child c (key_match (a ∷ k) x)) u q e

-- A list element has one value at a key.
matches_once : (k x y : Text) (c : Json) → x ≢ y → matches k x c ≡ true → matches k y c ≡ false
unfolding matches
matches_once k x y (obj m) ne h =
    ground (arith, eq_iff (print (or_null (lookup k m))) x, eq_iff (print (or_null (lookup k m))) y)
matches_once k x y _ ne h = cc

module _ (k x y : Text) (w d : Json) (l : Items) (ne : x ≢ y) where
  different_places : item (find_by_key k y l) l ≡ some d → find_by_key k x l ≢ find_by_key k y l
  different_places e q =
      let here : item (find_by_key k x l) l ≡ some d = rw q e in
      cc (matches_once k x y d ne (find_by_key-matches k x d l here), find_by_key-matches k y d l e)

  -- Writing the element of one value leaves the element of another.
  keys_apart :
      matches k x w ≡ true
      → item (find_by_key k y l) l ≡ some d
      → item (find_by_key k y (set_item (find_by_key k x l) w l)) (set_item (find_by_key k x l) w l)
        ≡ some d
  keys_apart f e =
      rw
        (find_by_key-set_item_ne k y (find_by_key k x l) w d l (matches_once k x y w ne f) e
          (λ o at. matches_once k x y o ne (find_by_key-matches k x o l at)))
        (item-set_item_ne (find_by_key k x l) (find_by_key k y l) w d l (different_places e) e)

child-frame :
    {c : Json} {s t : Segment} (w d : Json)
    → Admits c s
    → Fits s w
    → Parts s t
    → IsNamed t
    → child c t ≡ some d
    → child (write_back c s w) t ≡ some d
unfolding child write_back
child-frame w d (map_field m a name) f (fields ne) (named_field b other) e =
    lookup-put_ne (a ∷ name) (b ∷ other) w m ne ∙ e
child-frame w d (list_index l i) f (indices ne) (named_index j) e = item-set_item_ne i j w d l ne e
child-frame w d (list_key l a k x) f (keys {y} ne) n e = keys_apart (a ∷ k) x y w d l ne f e

get-frame :
    {c : Json} {s t : Segment} (w u r : Json) (q : FieldPath)
    → Admits c s
    → Fits s w
    → r ≡ write_back c s w
    → Parts s t
    → IsNamed t
    → get c (t ∷ q) ≡ some u
    → get r (t ∷ q) ≡ some u
get-frame {c} {s} w u r q a f same part n e =
    let (d, at, deeper) = get-named c u q n e in
    let kept = child-frame w d a f part n at in
    rw same (get-step d q (child-Admits _ d _ kept) kept ∙ deeper)

-- nothing can be read below null
get-null : {p q : FieldPath} (u : Json) → Apart p q → get null q ≢ some u
unfolding get
get-null u (here part (named_field a name)) e = cc
get-null u (here part (named_index i)) e = cc
get-null u (here part (named_key a k x)) e = cc
get-null u (below (named_field a name) apart) e = cc
get-null u (below (named_index i) apart) e = cc
get-null u (below (named_key a k x) apart) e = cc

-- where something below can be read, the walk goes on with the child that is there
or_made-some : (d : Json) (s next : Segment) → d ≢ null → or_made (some d) s next ≡ d
or_made-some null s next ne = absurd (ne refl)
or_made-some _ s next ne = refl

start_of_child :
    (c d : Json) (s next : Segment) → d ≢ null → child c s ≡ some d → start c s next ≡ d
unfolding start
start_of_child c d s next ne e = ap (λ o. or_made o s next) e ∙ or_made-some d s next ne

set_in-frame :
    (c v r u : Json) (s : Segment) (p q : FieldPath)
    → set_in c (s ∷ p) v ≡ (r, none)
    → KeepsKeys (s ∷ p) v
    → Apart (s ∷ p) q
    → get c q ≡ some u
    → get r q ≡ some u
set_in-frame c v r u s [] q e h (here {q = q'} part n) g =
    let (a, same) = set_in-last c v r s e in
    get-frame v u r q' a (KeepsKeys-Fits s v h) same part n g
set_in-frame c v r u s [] _ e h (below {q = q'} n apart) g = elim apart [ ]
set_in-frame c v r u s (next ∷ p) q e h (here {q = q'} part n) g =
    let (a, (w, deeper, same)) = set_in-next c v r s next p e in
    get-frame w u r q' a (walked-Fits s next w v p a h deeper) same part n g
set_in-frame c v r u s (next ∷ p) q e h (below {q = q'} n apart) g =
    let (a, (w, deeper, same)) = set_in-next c v r s next p e in
    let (d, at, g') = get-named c u q' n g in
    let begun = start_of_child c d s next (λ z. get-null u apart (rw z at g')) at in
    get-write_back w r q' a (walked-Fits s next w v p a h deeper) same
    ∙ set_in-frame d v w u next p q' (rw begun at deeper) (KeepsKeys-tail s next p v h) apart g'

-- A `Set` that succeeds leaves the value at every path that parts from the one that is written, by
-- another field name, another index, or another value of the same list key, if the write leaves
-- every list element that its path selects by a key under that key.
pub set-frame :
    (m : Fields) (p q : FieldPath) (v r u : Json)
    → set m p v ≡ (r, none)
    → KeepsKeys p v
    → Apart p q
    → get (obj m) q ≡ some u
    → get r q ≡ some u
unfolding set
set-frame m [] q v r u e h apart g = cc
set-frame m (field [] ∷ p) q v r u e h apart g = cc
set-frame m (field (a ∷ name) ∷ p) q v r u e h apart g =
    set_in-frame (obj m) v r u (field (a ∷ name)) p q e h apart g
set-frame m (index i ∷ p) q v r u e h apart g = cc
set-frame m (key_match k x ∷ p) q v r u e h apart g = cc
