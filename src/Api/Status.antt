-- ===== src/Api/Status.antt =====
-- api/v1alpha1/tracker_types.go: the status of a tracker, and its look-ups in interfaces.go.
-- `runtime.RawExtension` is its bytes, and `metav1.Time` a number of seconds.
use patch_operator.Base.{
  ℕ, ℤ, Bool, Option, none, some, List, [], ◌∷◌, Text, is_some, if◌then◌else◌,
}
use patch_operator.Api.{RawExtension, Condition, ContributorState, ContributorRef}
use patch_operator.Api.Refs.{same_contributor}

pub data TrackerPhase : Type 0 where
  unset waiting applied conflicted releasing promoting : TrackerPhase

-- `ContributorStatus`, the record that a tracker keeps of a contributor
pub record ContributorStatus : Type 0 where
  pub patch_ref : ContributorRef
  pub observed_generation : ℕ
  pub priority : ℤ
  pub field_manager : Text
  pub state : ContributorState
  pub last_applied_hash : Text
  pub owned_paths : List Text
  pub prior_values : Option RawExtension
  pub prior_values_captured : Bool
  pub creation_timestamp : Option ℕ

pub record ConflictStatus : Type 0 where
  pub field_path : Text
  pub claimants : List Text
  pub holder : Text

pub record PromotionRef : Type 0 where
  pub name : Text
  pub adopted : Bool

-- `SharedResourceStatus`
pub record TrackerStatus : Type 0 where
  pub phase : TrackerPhase
  pub conditions : List Condition
  pub promoted_to : Option PromotionRef
  pub created_by_operator : Bool
  pub creator_patch_ref : Option ContributorRef
  pub observed_base_hash : Text
  pub observed_target_uid : Text
  pub observed_resource_version : Text
  pub contributors : List ContributorStatus
  pub contributor_count : ℕ
  pub conflicts : List ConflictStatus

-- `IsFenced`
abbrev pub is_fenced : TrackerStatus → Bool
is_fenced status = is_some status.promoted_to

abbrev pub find_in : ContributorRef → List ContributorStatus → Option ContributorStatus
find_in ref [] = none
find_in ref (r ∷ records) = if same_contributor r.patch_ref ref then some r else find_in ref records

-- `FindContributor`
abbrev pub find_contributor : TrackerStatus → ContributorRef → Option ContributorStatus
find_contributor status ref = find_in ref status.contributors
