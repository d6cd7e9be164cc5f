-- ===== src/Controller/Reach.antt =====
-- internal/webhook/sar.go and internal/controller/contributor_controller.go: the namespace that a
-- Selector-mode contributor is authorized in, and those that it reaches.
use patch_operator.Base.{◌≡◌, refl, Bool, true, Option, none, some, List, Text}
use patch_operator.Api.{LabelSelector, TargetRef, Contributor}
use patch_operator.Scope.{resolve_target_namespace}
use patch_operator.Webhook.{Verb, ResourceFor, resource_of, target_check}
use patch_operator.Controller.{ListObjects, collect, collect_all, resolve_selector}

-- The same contributor with another `spec.target.namespace`.
abbrev pub at_namespace : Text → Contributor → Contributor
at_namespace ns c = record c {
  spec = record c.spec { target = record c.spec.target { namespace = ns } };
}

resource_of-at_namespace :
    (resource_for : Option ResourceFor) (t : TargetRef) (ns : Text)
    → resource_of resource_for (record t { namespace = ns }) ≡ resource_of resource_for t
resource_of-at_namespace none t ns = refl
resource_of-at_namespace (some f) t ns = refl

-- For a cluster-scoped contributor on a namespaced kind, every check that the webhook makes names
-- `spec.target.namespace`, while the set of targets that its selector resolves to is the same
-- whatever that field says.
pub selector_ignores_namespace :
    (parse_group : Text → Option Text)
    → (resource_for : Option ResourceFor) → (valid_selector : LabelSelector → Bool)
    → (list_objects : ListObjects) → (list_namespaces : LabelSelector → Option (List Text))
    → (c : Contributor) (ns group : Text) (v : Verb) → c.cluster_scoped ≡ true
    → (resource_of resource_for c.spec.target).1 ≡ true
    → ((target_check parse_group resource_for (at_namespace ns c) group v).namespace ≡ ns)
      × (resolve_selector parse_group valid_selector list_objects list_namespaces
            (at_namespace ns c)
          ≡ resolve_selector parse_group valid_selector list_objects list_namespaces c)
unfolding resolve_selector target_check resolve_target_namespace collect_all collect
selector_ignores_namespace parse_group resource_for valid_selector list_objects list_namespaces c ns
      group v cluster namespaced =
    (
      rw (resource_of-at_namespace resource_for c.spec.target ns, namespaced, cluster) refl,
      rw cluster refl,
    )
