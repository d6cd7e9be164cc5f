-- ===== src/Api/PatchStatus.antt =====
-- api/v1alpha1/common_types.go: the status of a contributor, and the object that carries it.
use patch_operator.Base.{ℕ, Bool, Option, List, Text}
use patch_operator.Api.{Condition, ContributorState, Contributor}

pub record TargetStatus : Type 0 where
  pub api_version : Text
  pub kind : Text
  pub name : Text
  pub namespace : Text
  pub uid : Text
  pub state : ContributorState

-- `ResourcePatchStatus` without `sharedResourceRefs`, which stands in `Contributor`
pub record PatchStatus : Type 0 where
  pub conditions : List Condition
  pub observed_targets : List TargetStatus
  pub applied_generation : ℕ
  pub authorized_as : Text
  pub last_authorized_time : Option ℕ

-- a map of annotations, by what it holds under a key; a missing key reads as the empty text
abbrev pub Annotations : Type 0
Annotations = Text → Text

-- a contributor as the API server has it, with whether it has the operator's finalizer
pub record PatchObject : Type 0 where
  pub contributor : Contributor
  pub annotations : Annotations
  pub has_finalizer : Bool
  pub status : PatchStatus
