-- ===== src/Apply/Client.antt =====
-- internal/apply/csa.go: what the client-side applier writes to a target that is there, and the
-- prior values that it records. `encode` stands for `json.Marshal`.
pub mod Laws
pub mod Applier
mod Tests
mod Runs
use patch_operator.Base.{
  Bool, true, false, ◌&&◌, Option, none, some, List, [], ◌∷◌, Text, ◌==◌, any, is_some,
  if◌then◌else◌,
}
use patch_operator.FieldPath.{FieldPath, to_text}
use patch_operator.Json.{Json, Fields, obj, lookup, put, erase}
use patch_operator.Access.{get, set, delete}

-- what `update` comes to: an error, nothing to write, or an object to write, with the priors
pub data Updated : Type 0 where
  broken : Updated
  unchanged : Fields → Updated
  written : Json → Fields → Updated

module _ (encode : Json → Text) where
  -- `sameValue`
  abbrev pub same_value : Json → Json → Bool
  same_value a b = encode a == encode b

  abbrev pub already_wanted : Json → Option Json → Bool
  already_wanted existing none = false
  already_wanted existing (some want) = same_value existing want

  abbrev pub record_prior : Text → Option Json → Option Json → Fields → Fields
  record_prior key none want priors = priors
  record_prior key (some existing) want priors =
      if already_wanted existing want then priors else put key existing priors

  -- the loop that captures the priors of the claimed paths
  unfoldable pub capture : Json → Json → List FieldPath → Fields → Fields
  capture live contribution [] priors = priors
  capture live contribution (p ∷ paths) priors = capture live contribution paths (
      if is_some (lookup (to_text p) priors)
      then priors
      else record_prior (to_text p) (get live p) (get contribution p) priors)

-- `Set` and `Delete` on an object that is a map, as every target is
abbrev pub set_object : Json → FieldPath → Json → Option Json
set_object (obj m) p v = let (d, error) = set m p v in elim error [ none ↦ some d | some e ↦ none ]
set_object d p v = none

abbrev pub delete_object : Json → FieldPath → Json
delete_object (obj m) p = (delete m p).0
delete_object d p = d

-- the object after a `Set`, also one that has failed
abbrev pub touched : Json → FieldPath → Json → Json
touched (obj m) p v = (set m p v).0
touched d p v = d

abbrev pub restored : Json → FieldPath → Json → Option Json → Json
restored d p prior (some e) = e
restored d p prior none = delete_object (touched d p prior) p

-- `restoreOrDelete`
unfoldable pub restore_or_delete : Json → FieldPath → Fields → Json
restore_or_delete d p priors = elim (lookup (to_text p) priors) [
  | none ↦ delete_object d p
  | some prior ↦ restored d p prior (set_object d p prior)
]

-- the loop that withdraws the paths that are no longer claimed
unfoldable pub withdraw : List FieldPath → List FieldPath → Json → Fields → Json × Fields
withdraw claimed [] d priors = (d, priors)
withdraw claimed (p ∷ previous) d priors =
    let kept = withdraw claimed previous d priors in
    let gone =
      withdraw claimed previous (restore_or_delete d p priors) (erase (to_text p) priors) in
    if any (λ q. to_text q == to_text p) claimed then kept else gone

-- the loop that applies the claimed paths
unfoldable pub set_all : Json → List FieldPath → Json → Option Json
set_all contribution [] d = some d
set_all contribution (p ∷ paths) d = elim (get contribution p) [
  | none ↦ none
  | some value ↦ elim (set_object d p value) [ none ↦ none | some e ↦ set_all contribution paths e ]
]

-- `ClientSideApplier.Revert`, the object that it writes
unfoldable pub revert_paths : List FieldPath → Fields → Json → Json
revert_paths [] priors d = d
revert_paths (p ∷ owned) priors d = revert_paths owned priors (restore_or_delete d p priors)

module _ (encode : Json → Text) (same_content : Json → Json → Bool) where
  abbrev pub concluded : Json → Fields → Option Json → Updated
  concluded live priors none = broken
  concluded live priors (some d) =
      if same_content live d then unchanged priors else written d priors

  -- `update`, up to the write
  unfoldable pub update : Json → Json → List FieldPath → List FieldPath → Fields → Bool → Updated
  update live contribution paths previous priors captured =
      let known = if captured then priors else capture encode live contribution paths priors in
      let (d, left) = withdraw paths previous live known in
      concluded live left (set_all contribution paths d)
