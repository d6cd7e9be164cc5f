-- ===== src/Webhook/Tests.antt =====
-- Runs of the webhook's checks, and the witnesses.
use patch_operator.Base.{
  ◌≡◌, ◌⊎◌, refl, true, false, Option, none, some, List, [], ◌∷◌, Text, codes, ◌==◌, text_lt,
  has_suffix, to_lower,
}
use patch_operator.Api.{OnRelease}
use patch_operator.Api.Samples.{sample_patch, moved_patch}
use patch_operator.Scope.{resolve_target_namespace}
use patch_operator.Webhook.{
  Verb, Operation, Check, check_text, guess_resource, target_check, each_verb, target_checks,
  checks_for_spec, target_changed, insert_check, dedupe_from, dedupe_checks, checks_for, Reviewed,
  admitted, authorize,
}
use patch_operator.Webhook.Coverage.{WithdrawalAllowed, admitted_delete}
use patch_operator.Webhook.Admission.{WritesAllowed, admitted_create}

-- an apiVersion without a group
abbrev pub core_group : Text → Option Text
core_group t = some []

abbrev pub allow_all : Check → Option Reviewed
allow_all c = some (record { allowed = true; denied = false })

abbrev on_config_map : Verb → Text → Check
on_config_map v name = record {
  verb = v;
  group = [];
  resource = codes "configmaps";
  namespace = codes "default";
  name = name;
}

abbrev pub sample_checks : List Check
sample_checks =
    on_config_map Verb.patch (codes "app") ∷ on_config_map Verb.update (codes "app") ∷ []

abbrev pub moved_checks : List Check
moved_checks =
    on_config_map Verb.patch (codes "app")
    ∷ on_config_map Verb.patch (codes "old")
    ∷ on_config_map Verb.update (codes "app")
    ∷ on_config_map Verb.update (codes "old")
    ∷ []

guess_tests :
    (guess_resource (codes "Ingress") ≡ codes "ingresses")
    × (guess_resource (codes "NetworkPolicy") ≡ codes "networkpolicies")
    × (guess_resource (codes "Pod") ≡ codes "pods")
unfolding guess_resource to_lower has_suffix ◌==◌
guess_tests = (refl, refl, refl)

checks_of_create :
    checks_for core_group none Operation.create (some sample_patch) none ≡ some sample_checks
unfolding checks_for checks_for_spec target_checks each_verb target_check guess_resource to_lower
    has_suffix resolve_target_namespace dedupe_checks dedupe_from insert_check check_text text_lt
    ◌==◌
checks_of_create = refl

pub checks_of_update :
    checks_for core_group none Operation.update (some sample_patch) (some moved_patch)
    ≡ some moved_checks
unfolding checks_for checks_for_spec target_checks each_verb target_check guess_resource to_lower
    has_suffix resolve_target_namespace dedupe_checks dedupe_from insert_check check_text text_lt
    target_changed ◌==◌
checks_of_update = refl

checks_of_delete :
    checks_for core_group none Operation.delete none (some sample_patch) ≡ some sample_checks
unfolding checks_for target_checks each_verb target_check guess_resource to_lower has_suffix
    resolve_target_namespace dedupe_checks dedupe_from insert_check check_text text_lt ◌==◌
checks_of_delete = refl

admits_sample : authorize allow_all sample_checks ≡ admitted
unfolding authorize
admits_sample = refl

pub admits_moved : authorize allow_all moved_checks ≡ admitted
unfolding authorize
admits_moved = refl

admitted_create_example : WritesAllowed core_group none allow_all sample_patch
admitted_create_example =
    admitted_create core_group none allow_all sample_patch sample_checks checks_of_create
      admits_sample

admitted_delete_example :
    (sample_patch.spec.lifecycle.on_release ≡ OnRelease.orphan)
    ⊎ WithdrawalAllowed core_group none allow_all sample_patch
        sample_patch.spec.lifecycle.on_release
admitted_delete_example =
    admitted_delete core_group none allow_all sample_patch sample_checks checks_of_delete
      admits_sample
