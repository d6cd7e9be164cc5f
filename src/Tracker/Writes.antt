-- ===== src/Tracker/Writes.antt =====
-- internal/controller/tracker_controller.go: `patchStatus`, `writeStatus` and `recordProvenance`.
-- The API server is a parameter: what a call at each instant finds stored. An update lands if it
-- carries the version that is stored; `attempts` is how often `retry.RetryOnConflict` tries.
pub mod Laws
pub mod Landed
use patch_operator.Base.{
  ℕ, zero, suc, ◌+◌, Bool, true, false, ◌&&◌, not, ◌||◌, Option, none, some, List, [], ◌∷◌, Text,
  ◌==◌, eqb, length, if◌then◌else◌,
}
use patch_operator.Api.{ContributorRef}
use patch_operator.Api.Status.{TrackerStatus, ContributorStatus, ConflictStatus}

-- a tracker's `resourceVersion` and status
pub record Versioned : Type 0 where
  pub version : ℕ
  pub status : TrackerStatus

pub data Seen : Type 0 where
  stored : Versioned → Seen
  missing failing : Seen

abbrev pub World : Type 0
World = ℕ → Seen

-- what becomes of a write: it lands at an instant, or the tracker is gone, or it fails
pub data Written : Type 0 where
  landed : ℕ → TrackerStatus → Written
  gone conflicted failed : Written

-- `patchStatus`, from an instant on; `memory` is the reconciler's copy of the tracker
unfoldable pub patch_status : World → (TrackerStatus → TrackerStatus) → ℕ → ℕ → Versioned → Written
patch_status world mutate zero t memory = conflicted
patch_status world mutate (suc attempts) t memory =
    let mutated : Versioned = record memory { status = mutate memory.status } in
    let again = patch_status world mutate attempts (t + 3) mutated in
    elim (world t) [
      | missing ↦ gone
      | failing ↦ failed
      | stored s ↦ elim (eqb s.version memory.version) [
        | true ↦ landed t mutated.status
        | false ↦ elim (world (t + 1)) [
          | missing ↦ gone
          | failing ↦ failed
          | stored fresh ↦ elim (world (t + 2)) [
            | missing ↦ gone
            | failing ↦ failed
            | stored s' ↦ elim (eqb s'.version fresh.version) [
              | true ↦ landed (t + 2) (mutate fresh.status)
              | false ↦ again
            ]
          ]
        ]
      ]
    ]

abbrev pub or_else {ℓ} : {A : Type ℓ} → Option A → A → A
or_else none a = a
or_else (some b) a = b

abbrev pub first_known {ℓ} : {A : Type ℓ} → Option A → Option A → Option A
first_known none o = o
first_known (some a) o = some a

-- `if known == "" { known = learned }`
abbrev pub fill : Text → Text → Text
fill known learned = if known == [] then learned else known

-- `if learned != "" { known = learned }`
abbrev pub renew : Text → Text → Text
renew known learned = if learned == [] then known else learned

-- the mutation of `writeStatus`; `computed` is the status that the pass has computed in memory, and
-- no records mean that the list is left alone
unfoldable pub write_mutation :
    TrackerStatus
    → Option (List ContributorStatus)
    → List ConflictStatus
    → TrackerStatus
    → TrackerStatus
write_mutation computed records conflicts st =
    let contributors = or_else records st.contributors in
    record st {
      contributors = contributors;
      contributor_count = length contributors;
      conflicts = conflicts;
      phase = computed.phase;
      conditions = computed.conditions;
      created_by_operator = st.created_by_operator || computed.created_by_operator;
      creator_patch_ref = first_known st.creator_patch_ref computed.creator_patch_ref;
      observed_base_hash = fill st.observed_base_hash computed.observed_base_hash;
      observed_target_uid = renew st.observed_target_uid computed.observed_target_uid;
      observed_resource_version =
          renew st.observed_resource_version computed.observed_resource_version;
    }

-- `writeStatus`
unfoldable pub write_status :
    World → ℕ → ℕ → Versioned → Option (List ContributorStatus) → List ConflictStatus → Written
write_status world attempts t memory records conflicts =
    patch_status world (write_mutation memory.status records conflicts) attempts t memory

-- the mutation of `recordProvenance`
unfoldable pub provenance_mutation : ContributorRef → Text → TrackerStatus → TrackerStatus
provenance_mutation creator base_hash st = record st {
  created_by_operator = true;
  creator_patch_ref = first_known st.creator_patch_ref (some creator);
  observed_base_hash = fill st.observed_base_hash base_hash;
}

-- `recordProvenance`
unfoldable pub record_provenance : World → ℕ → ℕ → Versioned → ContributorRef → Text → Written
record_provenance world attempts t memory creator base_hash =
    patch_status world (provenance_mutation creator base_hash) attempts t memory
