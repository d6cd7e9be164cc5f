-- ===== src/Apply.antt =====
-- internal/apply/ssa.go and conflict.go: how a contribution is applied on the server's side, when
-- ownership is forced, and what a created target holds.
-- The API server is a parameter `send` that answers an apply request from the requests before it; a
-- request is the object and whether it forces ownership.
pub mod Manager
pub mod Policy
pub mod Merge
pub mod Client
mod Tests
use patch_operator.Base.{
  Bool, true, false, not, Option, none, some, List, [], ◌∷◌, ◌++◌, Text, codes, has_prefix, all,
  ◌==◌, if◌then◌else◌,
}
use patch_operator.Api.{ConflictPolicy}
use patch_operator.Json.{Json, Fields, obj, end, entry, lookup, put}

pub record Sent : Type 0 where
  pub object : Fields
  pub forced : Bool

-- the answer to an apply; a field conflict names the managers that own the fields
pub data Answer : Type 0 where
  done : Answer
  field_conflict : List Text → Answer
  not_found : Answer
  failure : Answer

abbrev pub Server : Type 0
Server = List Sent → Sent → Answer

pub record Conflict : Type 0 where
  pub managers : List Text
  pub all_ours : Bool

pub data Outcome : Type 0 where
  applied : Outcome
  conflicted : Conflict → Outcome
  error : Outcome

-- `FieldManagerPrefix`
abbrev pub field_manager_prefix : Text
field_manager_prefix = codes "patch-operator/"

-- `IsOurManager`
unfoldable pub is_our_manager : Text → Bool
unfolding has_prefix
is_our_manager manager = has_prefix manager field_manager_prefix

-- `AllOurs`
unfoldable pub all_ours : List Text → Bool
all_ours [] = false
all_ours (m ∷ managers) = all is_our_manager (m ∷ managers)

abbrev pub conflict_of : List Text → Conflict
conflict_of managers = record { managers = managers; all_ours = all_ours managers }

abbrev pub is_force : ConflictPolicy → Bool
is_force ConflictPolicy.force = true
is_force _ = false

abbrev pub is_priority : ConflictPolicy → Bool
is_priority ConflictPolicy.priority = true
is_priority _ = false

-- the answer to the forced retry under `Priority`
abbrev pub retried : Conflict → Answer → Outcome
retried c done = applied
retried c (field_conflict managers) = conflicted c
retried c _ = error

-- `patch`: the requests that it sends, in order, and what it returns
abbrev pub settle : Server → ConflictPolicy → Sent → Answer → List Sent × Outcome
settle send policy first done = (first ∷ [], applied)
settle send policy first (field_conflict managers) =
    let forced : Sent = record { object = first.object; forced = true } in
    if is_priority policy
    then (if all_ours managers
        then (first ∷ forced ∷ [], retried (conflict_of managers) (send (first ∷ []) forced))
        else (first ∷ [], conflicted (conflict_of managers)))
    else (first ∷ [], conflicted (conflict_of managers))
settle send policy first _ = (first ∷ [], error)

unfoldable pub patch : Server → Fields → ConflictPolicy → List Sent × Outcome
patch send object policy =
    let first : Sent = record { object = object; forced = is_force policy } in
    settle send policy first (send [] first)

-- `ServerSideApplier.Revert`, on the identity of the target
abbrev pub revert_settle : Server → Sent → Answer → List Sent × Outcome
revert_settle send first done = (first ∷ [], applied)
revert_settle send first not_found = (first ∷ [], applied)
revert_settle send first (field_conflict managers) =
    let forced : Sent = record { object = first.object; forced = true } in
    (first ∷ forced ∷ [], elim (send (first ∷ []) forced) [ done ↦ applied | _ ↦ error ])
revert_settle send first failure = (first ∷ [], error)

unfoldable pub revert : Server → Text → Fields → List Sent × Outcome
revert send manager identity =
    let first : Sent = record { object = identity; forced = false } in
    if manager == [] then ([], error) else revert_settle send first (send [] first)

unfoldable mutual
  unfolding lookup put

  -- `deepMerge`, the map that it leaves
  pub deep_merge : Fields → Fields → Fields
  deep_merge dst end = dst
  deep_merge dst (entry k v src) = deep_merge (put k (overlay (lookup k dst) v) dst) src

  -- what one key holds afterwards
  pub overlay : Option Json → Json → Json
  overlay (some (obj dm)) (obj sm) = obj (deep_merge dm sm)
  overlay old v = v

-- `mergeBaseAndContribution`; none is the error for an empty object
unfoldable pub merge_base_and_contribution : Fields → Fields → Option Fields
merge_base_and_contribution base contribution = elim (deep_merge base contribution) [
  | end ↦ none
  | entry k v m ↦ some (entry k v m)
]

-- what the applier's Get of the target answers
pub data Existing : Type 0 where
  exists absent unknown : Existing

pub data ApplyResult : Type 0 where
  result : Bool → Fields → ApplyResult
  conflict : Conflict → ApplyResult
  target_not_found rejected : ApplyResult

abbrev pub reported : Bool → Fields → Outcome → ApplyResult
reported created object applied = result created object
reported created object (conflicted c) = conflict c
reported created object error = rejected

abbrev pub apply_object : Server → Bool → ConflictPolicy → Option Fields → List Sent × ApplyResult
apply_object send created policy none = ([], rejected)
apply_object send created policy (some object) =
    let sent = patch send object policy in (sent.0, reported created object sent.1)

-- the object that is sent
abbrev pub seeded : Bool → Option Fields → Fields → Option Fields
seeded true base contribution = some contribution
seeded false none contribution = some contribution
seeded false (some base) contribution = merge_base_and_contribution base contribution

abbrev pub apply_existing :
    Server → Existing → Bool → ConflictPolicy → Option Fields → Fields → List Sent × ApplyResult
apply_existing send unknown allow_create policy base contribution = ([], rejected)
apply_existing send exists allow_create policy base contribution =
    apply_object send false policy (seeded true base contribution)
apply_existing send absent allow_create policy base contribution =
    if allow_create
    then apply_object send true policy (seeded false base contribution)
    else ([], target_not_found)

-- `ServerSideApplier.Apply`: the requests that it sends, and its result
unfoldable pub apply :
    Server
    → Existing
    → Bool
    → ConflictPolicy
    → Text
    → Option Fields
    → Fields
    → List Sent × ApplyResult
apply send existing allow_create policy manager base contribution =
    if manager == []
    then ([], rejected)
    else apply_existing send existing allow_create policy base contribution
