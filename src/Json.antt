-- ===== src/Json.antt =====
-- JSON values as Go decodes them into `any`, with the map, slice and `fmt` operations in use.
-- A number is kept by the two texts that the program makes of it, what `%v` prints and what
-- `json.Marshal` writes: an `int64` and a `float64` that are equal may differ in the first. A map is
-- a list of its entries; what a map prints does not depend on their order.
pub mod Laws
mod Tests
use patch_operator.Base.{
  ℕ, zero, suc, ◌+◌, Bool, true, false, Option, none, some, List, [], ◌∷◌, ◌++◌, Text, codes, ◌==◌,
  text_lt, if◌then◌else◌,
}

pub record Number : Type 0 where
  pub printed : Text
  pub encoded : Text

mutual
  pub data Json : Type 0 where
    null : Json
    bool : Bool → Json
    num : Number → Json
    str : Text → Json
    arr : Items → Json
    obj : Fields → Json

  pub data Items : Type 0 where
    nil : Items
    cons : Json → Items → Items

  pub data Fields : Type 0 where
    end : Fields
    entry : Text → Json → Fields → Fields

-- `v, ok := m[k]`
unfoldable pub lookup : Text → Fields → Option Json
lookup k end = none
lookup k (entry j v m) = if j == k then some v else lookup k m

-- `m[k] = v`; a new key stands behind the others
unfoldable pub put : Text → Json → Fields → Fields
put k v end = entry k v end
put k v (entry j w m) = if j == k then entry j v m else entry j w (put k v m)

-- `delete(m, k)`
unfoldable pub erase : Text → Fields → Fields
erase k end = end
erase k (entry j w m) = if j == k then m else entry j w (erase k m)

unfoldable pub size : Items → ℕ
size nil = 0
size (cons e l) = suc (size l)

-- `l[i]`, in range
unfoldable pub item : ℕ → Items → Option Json
item i nil = none
item zero (cons e l) = some e
item (suc i) (cons e l) = item i l

-- `l[i] = v`; the slice is first extended by `{}` up to `i`
unfoldable pub set_item : ℕ → Json → Items → Items
set_item zero v nil = cons v nil
set_item (suc i) v nil = cons (obj end) (set_item i v nil)
set_item zero v (cons e l) = cons v l
set_item (suc i) v (cons e l) = cons e (set_item i v l)

-- `append(l[:i:i], l[i+1:]...)`
unfoldable pub remove_item : ℕ → Items → Items
remove_item i nil = nil
remove_item zero (cons e l) = l
remove_item (suc i) (cons e l) = cons e (remove_item i l)

-- Sorting by key, as `fmt` and `encoding/json` order a map.
pub insert_entry : Text → Text → List (Text × Text) → List (Text × Text)
insert_entry k v [] = (k, v) ∷ []
insert_entry k v ((j, w) ∷ l) =
    if text_lt j k then (j, w) ∷ insert_entry k v l else (k, v) ∷ (j, w) ∷ l

pub join_entries : List (Text × Text) → Text
join_entries [] = []
join_entries ((k, v) ∷ []) = k ++ b':' ∷ v
join_entries ((k, v) ∷ e ∷ l) = (k ++ b':' ∷ v) ++ b' ' ∷ join_entries (e ∷ l)

pub join_items : List Text → Text
join_items [] = []
join_items (t ∷ []) = t
join_items (t ∷ u ∷ l) = t ++ b' ' ∷ join_items (u ∷ l)

-- `fmt.Sprintf("%v", v)`
unfoldable mutual
  unfolding insert_entry join_entries join_items text_lt

  pub print : Json → Text
  print null = codes "<nil>"
  print (bool true) = codes "true"
  print (bool false) = codes "false"
  print (num n) = n.printed
  print (str s) = s
  print (arr l) = b'[' ∷ (join_items (print_items l) ++ b']' ∷ [])
  print (obj m) = codes "map[" ++ (join_entries (print_fields m) ++ b']' ∷ [])

  pub print_items : Items → List Text
  print_items nil = []
  print_items (cons e l) = print e ∷ print_items l

  pub print_fields : Fields → List (Text × Text)
  print_fields end = []
  print_fields (entry k v m) = insert_entry k (print v) (print_fields m)

-- `m[k]`, which is nil for a missing key
abbrev pub or_null : Option Json → Json
or_null none = null
or_null (some v) = v

-- whether an element is a map whose `key` prints as `value`
unfoldable pub matches : Text → Text → Json → Bool
unfolding lookup print ◌==◌
matches key value (obj m) = print (or_null (lookup key m)) == value
matches key value _ = false

-- `findByKey`; its -1 is the length of the list here, where `append` puts a new element
unfoldable pub find_by_key : Text → Text → Items → ℕ
find_by_key key value nil = 0
find_by_key key value (cons e l) = if matches key value e then 0 else suc (find_by_key key value l)
