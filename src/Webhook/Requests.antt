-- ===== src/Webhook/Requests.antt =====
-- Runs of the two webhooks, and the witnesses on them.
use patch_operator.Base.{
  ◌≡◌, ◌≢◌, ◌∙◌, sym, ap, eq_iff, some-injective, to_lower, has_suffix, ◌==◌, refl, Bool, true,
  false, Option, none, some, [], Text, codes, if◌then◌else◌,
}
use patch_operator.Api.{ResourcePatchSpec, Contributor}
use patch_operator.Api.Identity.{UserInfo, named_user, identity_from_annotations}
use patch_operator.Api.PatchStatus.{PatchObject}
use patch_operator.Api.Samples.{sample_patch, moved_patch}
use patch_operator.Scope.Validate.{validate}
use patch_operator.Webhook.{Verb, Operation, Check, check_text, guess_resource, Reviewed}
use patch_operator.Webhook.Needs.{asked, check_text-verb}
use patch_operator.Scope.Validate.Tests.{sample_valid}
use patch_operator.Webhook.Tests.{
  core_group, allow_all, moved_checks, checks_of_update, admits_moved,
}
use patch_operator.Webhook.Admission.{Moved, WritesAllowed, ReadsApart}
use patch_operator.Webhook.Handler.{
  AdmissionRequest, allowed, Decoded, decode_request, handle, handle-Admits, handle-update,
}
use patch_operator.Webhook.Recorder.{
  annotations_after, record_principal, refused, should_record, recorded_as,
  record_principal-identity,
}

abbrev jane : UserInfo
jane = named_user (codes "jane")

-- the text "n" is the sample, any other text the sample on its old target
abbrev decode_sample : Text → Option Contributor
decode_sample raw = if raw == codes "n" then some sample_patch else some moved_patch

abbrev update_request : AdmissionRequest
update_request = record {
  operation = Operation.update;
  user = jane;
  object = codes "n";
  old_object = codes "o";
}

abbrev decoded_update : Decoded
decoded_update = record { object = some sample_patch; old_object = some moved_patch }

abbrev permits : UserInfo → Check → Option Reviewed
permits user = allow_all

decodes_update : decode_request decode_sample update_request ≡ some decoded_update
unfolding decode_request ◌==◌
decodes_update = refl

allows_update : handle decode_sample none core_group none permits update_request ≡ allowed
allows_update = (handle-Admits decode_sample none core_group none permits update_request).1 record {
  decoded = decoded_update;
  checks = moved_checks;
  decodes = decodes_update;
  valid = sample_valid;
  implies = checks_of_update;
  passes = admits_moved;
}

-- the texts of the two samples' checks of a verb differ, as the names of their targets do
texts_differ :
    (v : Verb)
    → check_text (asked none sample_patch [] v) == check_text (asked none moved_patch [] v) ≡ false
unfolding check_text ◌==◌ guess_resource to_lower has_suffix
texts_differ Verb.get = refl
texts_differ Verb.create = refl
texts_differ Verb.update = refl
texts_differ Verb.patch = refl
texts_differ Verb.delete = refl
texts_differ Verb.impersonate = refl

samples-ReadsApart : ReadsApart core_group none allow_all sample_patch moved_patch
samples-ReadsApart d w (g, at, p) (h, there, q) same =
    let left : d ≡ asked none sample_patch [] d.verb =
      p ∙ ap (λ x. asked none sample_patch x d.verb) (sym (some-injective at)) in
    let right : w ≡ asked none moved_patch [] d.verb =
      q
      ∙ ap (λ x. asked none moved_patch x w.verb) (sym (some-injective there))
      ∙ ap (asked none moved_patch []) (sym (check_text-verb d w same)) in
    let alike = sym (ap check_text left) ∙ same ∙ ap check_text right in
    cc (texts_differ d.verb, (eq_iff _ _).1 alike)

handle-update_example :
    (validate none sample_patch ≡ [])
    × (WritesAllowed core_group none allow_all sample_patch
        × (Moved moved_patch.spec.target sample_patch.spec.target
            → WritesAllowed core_group none allow_all moved_patch))
handle-update_example =
    handle-update decode_sample none core_group none permits update_request sample_patch moved_patch
      refl samples-ReadsApart decodes_update allows_update

abbrev plain_object : PatchObject
plain_object = record {
  contributor = sample_patch;
  annotations = λ key. [];
  has_finalizer = false;
  status = record {
    conditions = [];
    observed_targets = [];
    applied_generation = 0;
    authorized_as = [];
    last_authorized_time = none;
  };
}

abbrev decode_plain : Text → Option PatchObject
decode_plain raw = some plain_object

abbrev encode_name : UserInfo → Text
encode_name user = user.username

abbrev decode_name : Text → Option UserInfo
decode_name raw = some (named_user raw)

abbrev always : PatchObject → Bool
always o = true

abbrev never_same : ResourcePatchSpec → ResourcePatchSpec → Bool
never_same a b = false

abbrev create_request : AdmissionRequest
create_request = record update_request { operation = Operation.create; old_object = [] }

records_well :
    record_principal decode_plain encode_name decode_name always never_same create_request ≢ refused
unfolding record_principal should_record recorded_as ◌==◌
records_well e = cc e

jane_named : codes "jane" ≢ []
jane_named e = cc e

object_carried : codes "n" ≢ []
object_carried e = cc e

record_principal-identity_example :
    identity_from_annotations decode_name (
      annotations_after decode_plain encode_name decode_name always never_same plain_object
        (record_principal decode_plain encode_name decode_name always never_same create_request))
    ≡ some jane
unfolding should_record
record_principal-identity_example =
    record_principal-identity decode_plain encode_name decode_name always never_same create_request
      plain_object refl object_carried refl refl jane_named jane_named refl records_well
