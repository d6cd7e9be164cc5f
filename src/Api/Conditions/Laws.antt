-- ===== src/Api/Conditions/Laws.antt =====
-- api/v1alpha1/interfaces.go: the conditions after `SetCondition`.
use patch_operator.Base.{
  ℕ, false, ◌≡◌, refl, sym, inl, inr, Option, none, some, List, [], ◌∷◌, Text, ◌==◌, eqb, eq_iff,
  eq_refl, arith, Bool-cases, if◌then◌else◌,
}
use patch_operator.Api.{Condition}
use patch_operator.Api.Conditions.{same_status, upsert, set_condition, get_condition}

-- The condition with the time at hand where it brings none.
abbrev pub timed : ℕ → Condition → Condition
timed now c = if eqb c.last_transition_time 0 then record c { last_transition_time = now } else c

-- The condition as it is stored next to the one that was there: the time of the last transition is
-- kept where the status is the same.
abbrev pub settled : Condition → Option Condition → Condition
settled c none = c
settled c (some d) =
    if same_status d.status c.status
    then record c { last_transition_time = d.last_transition_time }
    else c

-- the type of a condition is not changed by that
settled-type : (c : Condition) (old : Option Condition) → (settled c old).type ≡ c.type
settled-type c none = refl
settled-type c (some d) = elim (Bool-cases (same_status d.status c.status)) [
  | inl same ↦ rw same refl
  | inr other ↦ rw other refl
]

upsert-get_self :
    (c : Condition) (conds : List Condition)
    → get_condition (upsert c conds) c.type ≡ some (settled c (get_condition conds c.type))
unfolding get_condition
upsert-get_self c [] = rw (eq_refl c.type) refl
upsert-get_self c (d ∷ conds) = elim (Bool-cases (d.type == c.type)) [
  | inl same ↦ elim (Bool-cases (same_status d.status c.status)) [
    | inl kept ↦ rw (same, kept, eq_refl c.type) refl
    | inr moved ↦ rw (same, moved, eq_refl c.type) refl
  ]
  | inr other ↦ rw (other, other) (upsert-get_self c conds)
]

upsert-get_other :
    (c : Condition) (conds : List Condition) (t : Text)
    → c.type == t ≡ false
    → get_condition (upsert c conds) t ≡ get_condition conds t
unfolding get_condition
upsert-get_other c [] t ne = rw ne refl
upsert-get_other c (d ∷ conds) t ne = elim (Bool-cases (d.type == c.type)) [
  | inl same ↦
      let d_t : d.type == t ≡ false = rw ((eq_iff d.type c.type).0 same) ne in
      elim (Bool-cases (same_status d.status c.status)) [
        | inl kept ↦ rw (same, kept, ne, d_t) refl
        | inr moved ↦ rw (same, moved, ne, d_t) refl
      ]
  | inr other ↦ elim (Bool-cases (d.type == t)) [
    | inl here ↦ rw (other, here) refl
    | inr there ↦ rw (other, there) (upsert-get_other c conds t ne)
  ]
]

timed-type : (now : ℕ) (c : Condition) → (timed now c).type ≡ c.type
timed-type now c = ground arith

-- After a condition has been set, its type reads as that condition, with the clock's time where it
-- brings none, and with the time of the one before it where that has the same status; every other
-- type reads as before.
pub set_condition-get :
    (now : ℕ) (c : Condition) (conds : List Condition) (t : Text)
    → get_condition (set_condition now c conds) t ≡ (
        if c.type == t
        then some (settled (timed now c) (get_condition conds c.type))
        else get_condition conds t)
unfolding set_condition
set_condition-get now c conds t = elim (Bool-cases (c.type == t)) [
  | inl same ↦
      let at = upsert-get_self (timed now c) conds in
      let named = timed-type now c in rw (same, sym ((eq_iff c.type t).0 same)) (rw named at at)
  | inr other ↦ rw other (upsert-get_other (timed now c) conds t (rw (timed-type now c) other))
]
