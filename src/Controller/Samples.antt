-- ===== src/Controller/Samples.antt =====
-- A contributor as the API server has it, and an environment, for the tests of its controller.
use patch_operator.Base.{ℕ, true, false, none, some, List, [], ◌∷◌, Text, codes}
use patch_operator.Api.{TrackerRef}
use patch_operator.Api.PatchStatus.{PatchStatus, PatchObject, Annotations}
use patch_operator.Api.Refs.{kind_shared_resource}
use patch_operator.Api.Samples.{sample_patch}
use patch_operator.Scope.Validate.{IsNamespacedKind}
use patch_operator.Controller.Reauthorize.{Reauthorizer}
use patch_operator.Controller.Reconcile.{lands, Environment}

abbrev pub sample_tracker_ref : TrackerRef
sample_tracker_ref = record {
  kind = kind_shared_resource;
  name = codes "t";
  namespace = codes "default";
}

abbrev pub no_annotations : Annotations
no_annotations key = []

abbrev pub new_status : PatchStatus
new_status = record {
  conditions = [];
  observed_targets = [];
  applied_generation = 0;
  authorized_as = [];
  last_authorized_time = none;
}

abbrev pub sample_object : PatchObject
sample_object = record {
  contributor = sample_patch;
  annotations = no_annotations;
  has_finalizer = true;
  status = new_status;
}

-- The same, registered with a tracker and being deleted.
abbrev pub leaving_object : PatchObject
leaving_object = record sample_object {
  contributor = record sample_patch {
    deleting = true;
    shared_resource_refs = sample_tracker_ref ∷ [];
  };
}

abbrev pub unfinalized_object : PatchObject
unfinalized_object = record sample_object { has_finalizer = false }

abbrev pub plain_format : Text → List ℕ → Text
plain_format format numbers = format

abbrev pub all_namespaced : IsNamespacedKind
all_namespaced api_version kind = some true

abbrev pub sample_environment : Environment
sample_environment = record {
  parse_group = λ t. some [];
  valid_selector = λ s. true;
  list_objects = λ api_version kind selector ns. some [];
  list_namespaces = λ s. some [];
  lookup = some all_namespaced;
  decode_identity = λ t. none;
  digest = λ t. codes "0123456789abcdef";
  sprintf = plain_format;
  adopted_message = λ n. codes "adopted";
  errors_text = λ errors. codes "invalid";
  resolution_text = λ r. codes "unresolved";
  landing = λ w. lands;
}

-- an authorizer that denies everybody
abbrev pub denies : Reauthorizer
denies user c = some (record { allowed = false; reason = codes "no" })

-- a contributor whose author is recorded
abbrev pub authored_object : PatchObject
authored_object = record sample_object { annotations = λ key. codes "jane" }
