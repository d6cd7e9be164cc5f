-- ===== src/Api.antt =====
-- api/v1alpha1: the data of the four custom resources. A typed string of the source is an
-- enumeration with a constructor for the empty text, and, where the code has a branch for it, one for
-- a text that the schema does not admit; `adoptExisting` and `fieldManager`, which the code does not
-- read, are left out; `metav1.Time` is a
-- number of seconds; a label selector and a raw extension are opaque texts here.
pub mod Refs
pub mod Samples
pub mod Conditions
pub mod Status
pub mod PatchStatus
pub mod Identity
use patch_operator.Base.{ℕ, ℤ, Bool, Option, List, Text}

pub data TargetMode : Type 0 where
  unset single selector : TargetMode
  other : Text → TargetMode

pub data OnMissing : Type 0 where
  unset fail wait create : OnMissing

pub data OnRelease : Type 0 where
  unset revert orphan delete : OnRelease

pub data BaseReconcile : Type 0 where
  unset create_only enforce : BaseReconcile

pub data ApplyMode : Type 0 where
  unset server_side client_side : ApplyMode
  other : Text → ApplyMode

pub data ConflictPolicy : Type 0 where
  unset fail priority force : ConflictPolicy

pub data PatchType : Type 0 where
  unset strategic_merge merge json6902 : PatchType
  other : Text → PatchType

-- `metav1.LabelSelector`, by its text; what it selects is a parameter where that matters
abbrev pub LabelSelector : Type 0
LabelSelector = Text

-- `runtime.RawExtension`, by its bytes
abbrev pub RawExtension : Type 0
RawExtension = Text

pub record TargetRef : Type 0 where
  pub mode : TargetMode
  pub api_version : Text
  pub kind : Text
  pub name : Text
  pub namespace : Text
  pub selector : Option LabelSelector
  pub namespace_selector : Option LabelSelector
  pub max_targets : ℤ

pub record LifecycleSpec : Type 0 where
  pub on_missing : OnMissing
  pub on_release : OnRelease
  pub base_reconcile : BaseReconcile

pub record ApplySpec : Type 0 where
  pub mode : ApplyMode
  pub conflict_policy : ConflictPolicy

pub record MergeKey : Type 0 where
  pub path : Text
  pub key : Text

pub record PatchSpec : Type 0 where
  pub type : PatchType
  pub value : Option RawExtension
  pub ops : Option RawExtension
  pub merge_keys : List MergeKey

pub record ServiceAccountRef : Type 0 where
  pub name : Text
  pub namespace : Text

pub record ResourcePatchSpec : Type 0 where
  pub target : TargetRef
  pub lifecycle : LifecycleSpec
  pub apply : ApplySpec
  pub priority : ℤ
  pub service_account_ref : Option ServiceAccountRef
  pub base : Option RawExtension
  pub patch : PatchSpec

pub data ConditionStatus : Type 0 where
  yes_status no_status unknown_status : ConditionStatus

pub record Condition : Type 0 where
  pub type : Text
  pub status : ConditionStatus
  pub reason : Text
  pub message : Text
  pub last_transition_time : ℕ

pub data ContributorState : Type 0 where
  unset applied superseded conflicted releasing : ContributorState

pub record TrackerRef : Type 0 where
  pub kind : Text
  pub name : Text
  pub namespace : Text

-- A contributor of either kind; `cluster_scoped` is `IsClusterScoped()`, true of a
-- ClusterResourcePatch and false of a ResourcePatch.
pub record Contributor : Type 0 where
  pub cluster_scoped : Bool
  pub name : Text
  pub namespace : Text
  pub uid : Text
  pub deleting : Bool
  pub generation : ℕ
  pub creation_timestamp : ℕ
  pub spec : ResourcePatchSpec
  pub shared_resource_refs : List TrackerRef

pub record ContributorRef : Type 0 where
  pub kind : Text
  pub name : Text
  pub namespace : Text
  pub uid : Text
