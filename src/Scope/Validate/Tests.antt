-- ===== src/Scope/Validate/Tests.antt =====
-- Runs of `Validate`, and the witnesses.
use patch_operator.Base.{◌≡◌, ◌≢◌, ◌↔◌, refl, false, none, some, [], ◌==◌, has_prefix}
use patch_operator.Api.Samples.{sample_patch}
use patch_operator.Scope.{target_key_for, is_own_kind}
use patch_operator.Scope.Validate.{
  scope_of, validate, validate_target_identity, validate_mode_as, validate_mode, validate_lifecycle,
  validate_patch_as, validate_merge_keys, validate_patch, validate_namespaced,
}
use patch_operator.Scope.Validate.Rules.{WithinNamespace, AccountWithin, IsAdmissible, validate_iff}
use patch_operator.Scope.Validate.Containment.{validate-contained}

pub sample_valid : validate none sample_patch ≡ []
unfolding validate validate_target_identity validate_mode_as validate_mode validate_lifecycle
    validate_patch_as validate_merge_keys validate_patch validate_namespaced is_own_kind has_prefix
    ◌==◌
sample_valid = refl

validate_iff_example : (validate none sample_patch ≡ []) ↔ IsAdmissible none sample_patch
validate_iff_example = validate_iff none sample_patch

validate-contained_example :
    ((target_key_for sample_patch).namespace ≡ sample_patch.namespace)
    × WithinNamespace (target_key_for sample_patch).namespace sample_patch.spec.target.namespace
    × (scope_of none sample_patch.spec.target ≢ some false)
    × (sample_patch.spec.target.namespace_selector ≡ none)
    × AccountWithin (target_key_for sample_patch).namespace sample_patch.spec.service_account_ref
validate-contained_example = validate-contained none sample_patch refl sample_valid
