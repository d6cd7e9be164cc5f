-- ===== src/Api/Conditions.antt =====
-- api/v1alpha1/interfaces.go: `SetCondition` and `GetCondition`.
pub mod Laws
mod Tests
use patch_operator.Base.{
  ℕ, Bool, true, false, ◌≡◌, refl, ◌≢◌, Option, none, some, List, [], ◌∷◌, Text, ◌==◌, eqb, eq_iff,
  arith, if◌then◌else◌,
}
use patch_operator.Api.{Condition, ConditionStatus, yes_status, no_status, unknown_status}

abbrev pub same_status : ConditionStatus → ConditionStatus → Bool
same_status yes_status yes_status = true
same_status no_status no_status = true
same_status unknown_status unknown_status = true
same_status _ _ = false

-- the loop of `SetCondition`
abbrev pub upsert : Condition → List Condition → List Condition
upsert c [] = c ∷ []
upsert c (d ∷ conds) =
    if d.type == c.type
    then (if same_status d.status c.status
        then record c { last_transition_time = d.last_transition_time }
        else c)
      ∷ conds
    else d ∷ upsert c conds

-- `SetCondition`; `now` is the clock, read when the condition brings no time of its own
unfoldable pub set_condition : ℕ → Condition → List Condition → List Condition
set_condition now c conds =
    upsert (if eqb c.last_transition_time 0 then record c { last_transition_time = now } else c)
      conds

-- `GetCondition`
unfoldable pub get_condition : List Condition → Text → Option Condition
get_condition [] type = none
get_condition (c ∷ conds) type = if c.type == type then some c else get_condition conds type
