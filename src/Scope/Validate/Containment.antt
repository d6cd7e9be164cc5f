-- ===== src/Scope/Validate/Containment.antt =====
-- internal/scope/scope.go: `Validate` and `TargetKeyFor`, and the namespace of a ResourcePatch.
use patch_operator.Base.{false, ◌≡◌, ◌≢◌, refl, subst, Option, none, some, []}
use patch_operator.Api.{Contributor}
use patch_operator.Scope.{target_key_for}
use patch_operator.Scope.Validate.{IsNamespacedKind, scope_of, validate}
use patch_operator.Scope.Validate.Rules.{
  NamespacedRules, WithinNamespace, AccountWithin, ReachRules, validate_iff,
}

namespaced_rules :
    (lookup : Option IsNamespacedKind) (c : Contributor)
    → c.cluster_scoped ≡ false
    → validate lookup c ≡ []
    → NamespacedRules lookup c
namespaced_rules lookup c n e =
    let a = (validate_iff lookup c).0 e in subst (λ b. ReachRules b lookup c) n a.reach_ruled

-- The target of a ResourcePatch that `Validate` accepts lies in the contributor's own namespace,
-- where its spec says so too if it names one; the kind is not one that the RESTMapper knows as
-- cluster-scoped; no namespace selector is set; and the ServiceAccount that the writes run as, if
-- one is named with a namespace, is in the same namespace.
pub validate-contained :
    (lookup : Option IsNamespacedKind) (c : Contributor)
    → c.cluster_scoped ≡ false
    → validate lookup c ≡ []
    → ((target_key_for c).namespace ≡ c.namespace)
      × WithinNamespace (target_key_for c).namespace c.spec.target.namespace
      × (scope_of lookup c.spec.target ≢ some false)
      × (c.spec.target.namespace_selector ≡ none)
      × AccountWithin (target_key_for c).namespace c.spec.service_account_ref
unfolding target_key_for
validate-contained lookup c n e =
    let rules = namespaced_rules lookup c n e in
    rw n (refl, rules.target_within, rules.namespaced_kind, rules.no_fan_out, rules.account_within)
