-- ===== src/Apply/Policy.antt =====
-- internal/apply/ssa.go: the requests of `patch` and what it returns.
use patch_operator.Base.{
  ◌≡◌, ◌≢◌, ◌⊎◌, refl, inl, inr, Bool, true, false, List, [], ◌∷◌, Text, all, All, Bool-cases,
}
use patch_operator.Api.{ConflictPolicy}
use patch_operator.Json.{Fields}
use patch_operator.Apply.{
  Sent, Answer, done, field_conflict, not_found, failure, Server, Outcome, applied, conflicted,
  error, is_our_manager, all_ours, is_force, is_priority, retried, settle, patch,
}

-- Every manager that owns a contested field is one of the operator's own.
abbrev pub OnlyOurs : List Text → Type 0
OnlyOurs managers = (managers ≢ []) × All (λ m. is_our_manager m ≡ true) managers

all-All : (p : Text → Bool) (xs : List Text) → all p xs ≡ true → All (λ x. p x ≡ true) xs
all-All p [] h = tt
all-All p (x ∷ xs) h = elim (Bool-cases (p x)) [
  | inl holds ↦ (holds, all-All p xs (rw holds at h))
  | inr fails ↦ cc (rw fails at h)
]

all_ours-OnlyOurs : (managers : List Text) → all_ours managers ≡ true → OnlyOurs managers
unfolding all_ours
all_ours-OnlyOurs [] h = cc
all_ours-OnlyOurs (m ∷ managers) h = (λ e. cc, all-All is_our_manager (m ∷ managers) h)

-- A request may force ownership under Force, and under Priority where the server has refused the
-- plain request with a conflict whose managers are all the operator's own.
abbrev pub MayForce : Server → ConflictPolicy → Fields → Type 0
MayForce send policy object =
    (policy ≡ ConflictPolicy.force)
    ⊎ ((policy ≡ ConflictPolicy.priority)
        × ((managers : List Text) × (send [] (record { object = object; forced = false })
              ≡ field_conflict managers)
            × OnlyOurs managers))

abbrev pub Allows : Server → ConflictPolicy → Fields → List Sent → Type 0
Allows send policy object requests =
    All (λ r. (r.object ≡ object) × (r.forced ≡ true → MayForce send policy object)) requests

force_only :
    (send : Server) (policy : ConflictPolicy) (object : Fields)
    → is_force policy ≡ true
    → MayForce send policy object
force_only send ConflictPolicy.unset object h = cc
force_only send ConflictPolicy.fail object h = cc
force_only send ConflictPolicy.priority object h = cc
force_only send ConflictPolicy.force object h = inl refl

module _ (send : Server) (policy : ConflictPolicy) (object : Fields) where
  abbrev plain : Bool → Sent
  plain b = record { object = object; forced = b }

  one-Allows : Allows send policy object (plain (is_force policy) ∷ [])
  one-Allows = ((refl, force_only send policy object), tt)

priority-settle :
    (send : Server) (object : Fields) (managers : List Text)
    → send [] (plain send ConflictPolicy.priority object false) ≡ field_conflict managers
    → Allows send ConflictPolicy.priority object
        (settle send ConflictPolicy.priority
          (plain send ConflictPolicy.priority object false)
          (field_conflict managers)).0
priority-settle send object managers e = elim (Bool-cases (all_ours managers)) [
  | inl ours ↦ rw ours (
    (refl, λ h. cc),
    ((refl, λ h. inr (refl, (managers, e, all_ours-OnlyOurs managers ours))), tt),
  )
  | inr foreign ↦ rw foreign ((refl, λ h. cc), tt)
]

settle-Allows :
    (send : Server) (policy : ConflictPolicy) (object : Fields) (answer : Answer)
    → send [] (plain send policy object (is_force policy)) ≡ answer
    → Allows send policy object
        (settle send policy (plain send policy object (is_force policy)) answer).0
settle-Allows send policy object done e = one-Allows send policy object
settle-Allows send policy object not_found e = one-Allows send policy object
settle-Allows send policy object failure e = one-Allows send policy object
settle-Allows send ConflictPolicy.unset object (field_conflict managers) e =
    one-Allows send ConflictPolicy.unset object
settle-Allows send ConflictPolicy.fail object (field_conflict managers) e =
    one-Allows send ConflictPolicy.fail object
settle-Allows send ConflictPolicy.force object (field_conflict managers) e =
    one-Allows send ConflictPolicy.force object
settle-Allows send ConflictPolicy.priority object (field_conflict managers) e =
    priority-settle send object managers e

-- Every request of an apply carries the object, and one that forces ownership is sent under Force,
-- or under Priority after the server has refused the plain request with a conflict whose managers
-- are some, and all the operator's own. So a foreign manager is never forced out but under Force.
pub patch-Allows :
    (send : Server) (object : Fields) (policy : ConflictPolicy)
    → Allows send policy object (patch send object policy).0
unfolding patch
patch-Allows send object policy =
    settle-Allows send policy object (send [] (plain send policy object (is_force policy))) refl

-- What `patch` reports is what the server did: it reports success where the server took the last
-- request, and a conflict where the server refused the first one for a conflict of those managers.
abbrev pub Reports : Server → List Sent → Outcome → Type 0
Reports send [] outcome = ⊥
Reports send (first ∷ []) applied = send [] first ≡ done
Reports send (first ∷ []) (conflicted c) = send [] first ≡ field_conflict c.managers
Reports send (first ∷ []) error = (send [] first ≡ not_found) ⊎ (send [] first ≡ failure)
Reports send (first ∷ retry ∷ more) applied = send (first ∷ []) retry ≡ done
Reports send (first ∷ retry ∷ more) (conflicted c) =
    (send [] first ≡ field_conflict c.managers)
    × ((managers : List Text) × (send (first ∷ []) retry ≡ field_conflict managers))
Reports send (first ∷ retry ∷ more) error =
    (send (first ∷ []) retry ≡ not_found) ⊎ (send (first ∷ []) retry ≡ failure)

retried-Reports :
    (send : Server) (first retry : Sent) (managers : List Text) (b : Bool) (answer : Answer)
    → send [] first ≡ field_conflict managers
    → send (first ∷ []) retry ≡ answer
    → Reports send
        (first ∷ retry ∷ [])
        (retried (record { managers = managers; all_ours = b }) answer)
retried-Reports send first retry managers b done e q = q
retried-Reports send first retry managers b (field_conflict others) e q = (e, (others, q))
retried-Reports send first retry managers b not_found e q = inl q
retried-Reports send first retry managers b failure e q = inr q

settle-Reports :
    (send : Server) (policy : ConflictPolicy) (first : Sent) (answer : Answer)
    → send [] first ≡ answer
    → Reports send (settle send policy first answer).0 (settle send policy first answer).1
settle-Reports send policy first done e = e
settle-Reports send policy first not_found e = inl e
settle-Reports send policy first failure e = inr e
settle-Reports send policy first (field_conflict managers) e =
    elim (Bool-cases (is_priority policy)) [
      | inl prior ↦ elim (Bool-cases (all_ours managers)) [
        | inl ours ↦ rw (prior, ours) (retried-Reports send first _ managers true _ e refl)
        | inr foreign ↦ rw (prior, foreign) e
      ]
      | inr other ↦ rw other e
    ]

-- What an apply returns is what the server did. It returns success where the server took the last
-- request that was sent, a conflict where the server refused the first request for a conflict of
-- the managers that are reported, and the retry, where one was sent, for a conflict too, and an
-- error where the last request failed in another way.
pub patch-Reports :
    (send : Server) (object : Fields) (policy : ConflictPolicy)
    → Reports send (patch send object policy).0 (patch send object policy).1
unfolding patch
patch-Reports send object policy =
    settle-Reports send policy (plain send policy object (is_force policy))
      (send [] (plain send policy object (is_force policy))) refl
