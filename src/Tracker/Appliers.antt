-- ===== src/Tracker/Appliers.antt =====
-- internal/apply/applier.go: what a tracker asks of an applier, and the applier of a contributor
-- (`For`, and `applierFor` of internal/controller/tracker_controller.go).
-- `S` is everything that appliers and the API server read and write. What is outside of the
-- controller is the record `Outside`: the clients and the impersonation of a contributor, the two
-- appliers, the deletion of a target, `encoding/json`, the hashes, the json-patch library, the clock,
-- the order in which Go visits a map, and the text of a rendering error.
use patch_operator.Base.{ℕ, Bool, Option, none, some, List, [], Text, ◌==◌, if◌then◌else◌}
use patch_operator.Api.{ApplyMode, ConflictPolicy, MergeKey, RawExtension, Contributor}
use patch_operator.FieldPath.{FieldPath}
use patch_operator.Json.{Json, Fields, end}
use patch_operator.Render.{Target, Contribution}
use patch_operator.Render.Pointer.{Op}

-- `Request`
pub record Request : Type 0 where
  pub target : Target
  pub contribution : Contribution
  pub field_manager : Text
  pub conflict_policy : ConflictPolicy
  pub merge_keys : List MergeKey
  pub previous_paths : List FieldPath
  pub prior_values : Fields
  pub prior_values_captured : Bool
  pub base : Option Fields
  pub allow_create : Bool

-- `RevertRequest`
pub record RevertRequest : Type 0 where
  pub target : Target
  pub field_manager : Text
  pub owned_paths : List FieldPath
  pub prior_values : Fields

-- the part of `Conflict` that a tracker reads
pub record FieldConflict : Type 0 where
  pub fields : List Text
  pub managers : List Text

-- `resourceVersion` and `uid` of a target
pub record Live : Type 0 where
  pub resource_version : Text
  pub uid : Text

-- `Result`
pub record Report : Type 0 where
  pub created : Bool
  pub live : Option Live
  pub owned_paths : List FieldPath
  pub prior_values : Fields
  pub prior_values_captured : Bool
  pub conflict : Option FieldConflict

-- a result, or an error by the kinds that a tracker tells apart
pub data ApplyAnswer : Type 0 where
  answered : Report → ApplyAnswer
  absent concurrent : ApplyAnswer
  failure : Text → ApplyAnswer

-- `Applier`; a revert is true if it succeeds
pub record Applier (S : Type 0) : Type 0 where
  pub apply : S → Request → S × ApplyAnswer
  pub revert : S → RevertRequest → S × Bool

pub record Outside (S W : Type 0) : Type 0 where
  pub client : W
  pub impersonation : Option (Contributor → Option W)
  pub server_side : W → Applier S
  pub client_side : W → Applier S
  pub delete_target : S → Target → S × Bool
  pub decode : Text → Option Fields
  pub encode : Fields → Text
  pub hash_of : Fields → Text
  pub hash_value : Json → Text
  pub decode_ops : Text → Option (List Op)
  pub apply_ops : Text → Fields → Option Fields
  pub visit : ℕ → List (Text × List ℕ) → List (Text × List ℕ)
  pub now : ℕ → ℕ
  pub render_error : Text

module _ {S W : Type 0} (outside : Outside S W) where
  -- `For`
  abbrev pub applier_of_mode : ApplyMode → W → Option (Applier S)
  applier_of_mode ApplyMode.unset w = some (outside.server_side w)
  applier_of_mode ApplyMode.server_side w = some (outside.server_side w)
  applier_of_mode ApplyMode.client_side w = some (outside.client_side w)
  applier_of_mode _ w = none

  abbrev pub applier_as : Option W → ApplyMode → Option (Applier S)
  applier_as none mode = none
  applier_as (some w) mode = applier_of_mode mode w

  abbrev pub writer_for : Option (Contributor → Option W) → Contributor → Option W
  writer_for none c = some outside.client
  writer_for (some impersonated) c = impersonated c

  -- `applierFor`; none is an error
  unfoldable pub applier_for : Contributor → Option (Applier S)
  applier_for c = applier_as (writer_for outside.impersonation c) c.spec.apply.mode

  -- `decodePriorValues`; none is an error
  abbrev pub decode_prior_values : Option RawExtension → Option Fields
  decode_prior_values none = some end
  decode_prior_values (some raw) = if raw == [] then some end else outside.decode raw

  -- `encodePriorValues` of a map, which always succeeds
  abbrev pub encode_prior_values : Fields → Option RawExtension
  encode_prior_values end = none
  encode_prior_values values = some (outside.encode values)

  abbrev pub decoded_base : Option Fields → Option (Option Fields)
  decoded_base none = none
  decoded_base (some m) = some (some m)

  -- `baseFor`; none is an error
  abbrev pub base_for : Option RawExtension → Option (Option Fields)
  base_for none = some none
  base_for (some raw) = if raw == [] then some none else decoded_base (outside.decode raw)
