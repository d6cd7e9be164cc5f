-- ===== src/Controller/Tests.antt =====
-- Runs of the resolution of targets, and the witnesses.
use patch_operator.Base.{
  ◌≡◌, ◌≢◌, ◌≤◌, refl, subst, true, Bool, Option, none, some, some-injective, List, [], ◌∷◌, Text,
  codes, length, All,
}
use patch_operator.Api.{LabelSelector}
use patch_operator.Api.Samples.{fan_out_patch, cluster_fan_out}
use patch_operator.Scope.{TargetKey}
use patch_operator.Webhook.{Verb, target_check}
use patch_operator.Controller.{
  Found, ListObjects, resolved, cap_of, collect, collect_all, resolve_selector, resolve_targets,
  key_of,
}
use patch_operator.Controller.Targets.{
  Confines, capped, resolve_selector-matches, resolve_targets-contained,
}
use patch_operator.Controller.Reach.{at_namespace, selector_ignores_namespace}

abbrev core_group : Text → Option Text
core_group t = some []

abbrev any_selector : LabelSelector → Bool
any_selector s = true

abbrev found_in : Text → List Found
found_in ns =
    record { namespace = ns; name = codes "a" } ∷ record { namespace = ns; name = codes "b" } ∷ []

abbrev two_objects : ListObjects
two_objects api_version kind selector ns = some (found_in ns)

abbrev no_namespaces : LabelSelector → Option (List Text)
no_namespaces s = some []

abbrev two_keys : List TargetKey
two_keys =
    key_of fan_out_patch.spec.target (record { namespace = codes "default"; name = codes "a" })
    ∷ key_of fan_out_patch.spec.target (record { namespace = codes "default"; name = codes "b" })
    ∷ []

abbrev any_kind : Text → Text → Bool
any_kind api_version kind = true

two_objects-Confines : Confines any_kind two_objects
two_objects-Confines api_version kind selector ns items kinded named e =
    subst (All (λ item. item.namespace ≡ ns)) (some-injective e) (refl, (refl, tt))

resolves :
    resolve_targets core_group any_selector two_objects no_namespaces fan_out_patch
    ≡ resolved two_keys
unfolding resolve_targets resolve_selector collect_all collect
resolves = refl

in_a_namespace : fan_out_patch.namespace ≢ []
in_a_namespace e = cc

resolve_targets-contained_example :
    All (λ k. k.namespace ≡ fan_out_patch.namespace) two_keys
    × (length two_keys ≤ cap_of fan_out_patch.spec.target.max_targets)
resolve_targets-contained_example =
    resolve_targets-contained core_group any_selector two_objects no_namespaces any_kind
      fan_out_patch two_keys refl in_a_namespace two_objects-Confines refl resolves

resolve_selector-matches_example :
    resolve_selector core_group any_selector two_objects no_namespaces fan_out_patch
    ≡ capped (cap_of fan_out_patch.spec.target.max_targets) two_keys
resolve_selector-matches_example =
    resolve_selector-matches core_group any_selector two_objects no_namespaces fan_out_patch
      (codes "default" ∷ []) two_keys refl refl refl refl

selector_ignores_namespace_example :
    ((target_check core_group none
        (at_namespace (codes "a") cluster_fan_out)
        []
        Verb.update).namespace
      ≡ codes "a")
    × (resolve_selector core_group any_selector two_objects no_namespaces
          (at_namespace (codes "a") cluster_fan_out)
        ≡ resolve_selector core_group any_selector two_objects no_namespaces cluster_fan_out)
selector_ignores_namespace_example =
    selector_ignores_namespace core_group none any_selector two_objects no_namespaces
      cluster_fan_out (codes "a") [] Verb.update refl refl
