-- ===== src/Promotion.antt =====
-- internal/controller/promotion.go: what a ClusterSharedResource takes over from the SharedResource
-- that it replaces (`adoptStatus`).
pub mod Filled
pub mod Laws
mod Tests
use patch_operator.Base.{
  ℕ, Bool, true, false, ◌&&◌, ◌||◌, not, Option, none, some, is_some, List, [], ◌∷◌, ◌++◌, Text,
  codes, ◌==◌, length, if◌then◌else◌,
}
use patch_operator.Api.{RawExtension, yes_status}
use patch_operator.Api.Refs.{same_contributor}
use patch_operator.Api.Status.{TrackerPhase, ContributorStatus, TrackerStatus}
use patch_operator.Tracker.Writes.{fill, first_known}
use patch_operator.Tracker.Pass.Step.{with_condition}

-- the prior values of a record that has captured none of its own
abbrev pub handed_over : Option RawExtension → Option RawExtension → Option RawExtension
handed_over own none = own
handed_over own (some values) = some values

-- the capture of the predecessor
abbrev pub with_capture : ContributorStatus → ContributorStatus → ContributorStatus
with_capture rec existing =
    if not existing.prior_values_captured && (rec.prior_values_captured || is_some rec.prior_values)
    then record existing {
      prior_values = handed_over existing.prior_values rec.prior_values;
      prior_values_captured = true;
    }
    else existing

abbrev pub or_paths : List Text → List Text → List Text
or_paths [] paths = paths
or_paths (p ∷ own) paths = p ∷ own

-- a record that the successor has, filled in from the predecessor's
unfoldable pub filled_in : ContributorStatus → ContributorStatus → ContributorStatus
filled_in rec existing = record (with_capture rec existing) {
  owned_paths = or_paths existing.owned_paths rec.owned_paths;
  last_applied_hash = fill existing.last_applied_hash rec.last_applied_hash;
  field_manager = fill existing.field_manager rec.field_manager;
}

-- the body of the loop: the first record of the same contributor is filled in, or the
-- predecessor's is appended
unfoldable pub adopt_record : ContributorStatus → List ContributorStatus → List ContributorStatus
unfolding filled_in
adopt_record rec [] = rec ∷ []
adopt_record rec (r ∷ records) =
    let rest = adopt_record rec records in
    if same_contributor r.patch_ref rec.patch_ref then filled_in rec r ∷ records else r ∷ rest

unfoldable pub adopt_records :
    List ContributorStatus → List ContributorStatus → List ContributorStatus
unfolding adopt_record
adopt_records [] records = records
adopt_records (rec ∷ recs) records = adopt_records recs (adopt_record rec records)

abbrev pub settled_phase : TrackerPhase → TrackerPhase
settled_phase TrackerPhase.unset = TrackerPhase.applied
settled_phase TrackerPhase.promoting = TrackerPhase.applied
settled_phase phase = phase

-- `adoptStatus`; `message` makes the text of the condition from the number of contributors
unfoldable pub adopt_status : ℕ → (ℕ → Text) → TrackerStatus → TrackerStatus → TrackerStatus
unfolding adopt_records
adopt_status now message dst src =
    let records = adopt_records src.contributors dst.contributors in
    with_condition now (codes "Synced") yes_status (codes "AdoptedFromPromotion")
      (message (length records))
      record dst {
        created_by_operator = dst.created_by_operator || src.created_by_operator;
        creator_patch_ref = first_known dst.creator_patch_ref src.creator_patch_ref;
        observed_base_hash = fill dst.observed_base_hash src.observed_base_hash;
        observed_target_uid = fill dst.observed_target_uid src.observed_target_uid;
        observed_resource_version =
            fill dst.observed_resource_version src.observed_resource_version;
        contributors = records;
        contributor_count = length records;
        promoted_to = none;
        phase = settled_phase dst.phase;
      }
