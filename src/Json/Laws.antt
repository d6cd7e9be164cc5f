-- ===== src/Json/Laws.antt =====
-- Reading a map or a slice after a write.
use patch_operator.Base.{
  ℕ, zero, suc, ◌≡◌, ◌≢◌, refl, true, false, inl, inr, none, some, arith, Text, ◌==◌, eq_iff,
  if◌then◌else◌, Bool-cases,
}
use patch_operator.Json.{
  Json, Items, Fields, nil, cons, end, entry, lookup, put, erase, size, item, set_item, matches,
  find_by_key,
}

pub lookup-put :
    (k j : Text) (v : Json) (m : Fields)
    → lookup j (put k v m) ≡ (if k == j then some v else lookup j m)
unfolding lookup put
lookup-put k j v end = refl
lookup-put k j v (entry i w m) =
    ground (arith, eq_iff k j, eq_iff i k, eq_iff i j, lookup-put k j v m)

pub lookup-put_self : (k : Text) (v : Json) (m : Fields) → lookup k (put k v m) ≡ some v
lookup-put_self k v m = ground (arith, lookup-put k k v m, eq_iff k k)

pub lookup-put_ne : (k j : Text) (v : Json) (m : Fields) → k ≢ j → lookup j (put k v m) ≡ lookup j m
lookup-put_ne k j v m ne = ground (arith, lookup-put k j v m, eq_iff k j)

-- A second write to a key replaces the first.
pub put-put : (k : Text) (v w : Json) (m : Fields) → put k v (put k w m) ≡ put k v m
unfolding put
put-put k v w end = ground (arith, eq_iff k k)
put-put k v w (entry j u m) = ground (arith, put-put k v w m)

-- Writing back what a key holds changes nothing.
pub put-lookup : (k : Text) (v : Json) (m : Fields) → lookup k m ≡ some v → put k v m ≡ m
unfolding lookup put
put-lookup k v end h = cc
put-lookup k v (entry j w m) h = ground (arith, put-lookup k v m)

-- Deleting a key that was added restores the map.
pub erase-put : (k : Text) (v : Json) (m : Fields) → lookup k m ≡ none → erase k (put k v m) ≡ m
unfolding lookup put erase
erase-put k v end h = ground (arith, eq_iff k k)
erase-put k v (entry j w m) h = ground (arith, erase-put k v m)

pub item-set_item_self : (i : ℕ) (v : Json) (l : Items) → item i (set_item i v l) ≡ some v
unfolding item set_item
item-set_item_self zero v nil = refl
item-set_item_self (suc i) v nil = item-set_item_self i v nil
item-set_item_self zero v (cons e l) = refl
item-set_item_self (suc i) v (cons e l) = item-set_item_self i v l

-- A write at one index leaves the elements at others.
pub item-set_item_ne :
    (i j : ℕ) (v w : Json) (l : Items)
    → i ≢ j
    → item j l ≡ some w
    → item j (set_item i v l) ≡ some w
unfolding item set_item
item-set_item_ne i j v w nil ne h = cc
item-set_item_ne zero zero v w (cons e l) ne h = absurd (ne refl)
item-set_item_ne zero (suc j) v w (cons e l) ne h = h
item-set_item_ne (suc i) zero v w (cons e l) ne h = h
item-set_item_ne (suc i) (suc j) v w (cons e l) ne h =
    item-set_item_ne i j v w l (λ e. absurd (omega arith)) h

-- The element that a search finds matches, if there is one.
pub find_by_key-matches :
    (k x : Text) (e : Json) (l : Items) → item (find_by_key k x l) l ≡ some e → matches k x e ≡ true
unfolding item find_by_key
find_by_key-matches k x e nil h = cc
find_by_key-matches k x e (cons d l) h = elim (Bool-cases (matches k x d)) [
  | inl found ↦ ground arith
  | inr other ↦ find_by_key-matches k x e l (ground arith)
]

-- After a write at the place that a search finds, of an element that matches, the search finds the
-- same place.
pub find_by_key-set_item :
    (k x : Text) (v : Json) (l : Items)
    → matches k x v ≡ true
    → find_by_key k x (set_item (find_by_key k x l) v l) ≡ find_by_key k x l
unfolding find_by_key set_item
find_by_key-set_item k x v nil h = ground arith
find_by_key-set_item k x v (cons d l) h = elim (Bool-cases (matches k x d)) [
  | inl found ↦ rw (found, set_item, find_by_key, h)
  | inr other ↦ ground (arith, find_by_key-set_item k x v l h)
]

-- A write at the place of an element that does not match, by one that does not match either,
-- leaves the place that a search finds.
pub find_by_key-set_item_ne :
    (k x : Text) (i : ℕ) (v w : Json) (l : Items)
    → matches k x v ≡ false
    → item (find_by_key k x l) l ≡ some w
    → ((e : Json) → item i l ≡ some e → matches k x e ≡ false)
    → find_by_key k x (set_item i v l) ≡ find_by_key k x l
unfolding item find_by_key set_item
find_by_key-set_item_ne k x i v w nil h there old = cc
find_by_key-set_item_ne k x zero v w (cons d l) h there old = rw (h, old d refl)
find_by_key-set_item_ne k x (suc i) v w (cons d l) h there old = elim (Bool-cases (matches k x d)) [
  | inl found ↦ rw found
  | inr other ↦ ground (arith, find_by_key-set_item_ne k x i v w l h (ground arith) old)
]

-- Behind a search that fails stands the place where `append` puts an element, which the search
-- then finds; removing it restores the list.
pub find_by_key-absent :
    (k x : Text) (l : Items) → item (find_by_key k x l) l ≡ none → find_by_key k x l ≡ size l
unfolding item find_by_key size
find_by_key-absent k x nil h = refl
find_by_key-absent k x (cons d l) h = elim (Bool-cases (matches k x d)) [
  | inl found ↦ cc (rw (found, item) at h)
  | inr other ↦ ground (arith, find_by_key-absent k x l (rw (other, item) at h))
]
