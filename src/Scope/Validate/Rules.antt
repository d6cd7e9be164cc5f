-- ===== src/Scope/Validate/Rules.antt =====
-- internal/scope/scope.go: a table of rules for a spec, stated on its own, next to `Validate`.
use patch_operator.Base.{
  ℕ, suc, ℤ, pos, negsuc, Bool, true, false, ◌&&◌, ◌≡◌, ◌≢◌, ◌↔◌, ◌⊎◌, Option, none, some, List, [],
  ◌∷◌, ◌++◌, ◌||◌, ◌==◌, Text, codes, has_prefix, has_prefix_iff, eq_iff, arith, All, if◌then◌else◌,
}
use patch_operator.Api.{
  TargetMode, OnMissing, OnRelease, BaseReconcile, ApplyMode, PatchType, RawExtension, TargetRef,
  MergeKey, PatchSpec, ServiceAccountRef, ResourcePatchSpec, Contributor,
}
use patch_operator.Api.Refs.{
  kind_resource_patch, kind_cluster_resource_patch, kind_shared_resource,
  kind_cluster_shared_resource,
}
use patch_operator.Scope.{group, is_own_kind}
use patch_operator.Scope.Validate.{
  FieldError, forbidden, invalid, kind, merge_keys, when, IsNamespacedKind, target_mode,
  patch_type_of, validate_target_identity, validate_mode_as, validate_mode, validate_lifecycle,
  validate_patch_as, validate_merge_keys, validate_patch, scope_of, validate_namespaced,
  validate_scope, validate_cluster_scoped, validate, has_items, is_server_side, no_bytes,
  account_elsewhere,
}

abbrev pub NonNegative : ℤ → Type 0
NonNegative (pos n) = Unit
NonNegative (negsuc n) = ⊥

-- Single mode names one object; Selector mode names none and selects by a selector.
abbrev pub ModeRules : TargetMode → TargetRef → Type 0
ModeRules TargetMode.single t = (t.name ≢ []) × (t.selector ≡ none) × (t.namespace_selector ≡ none)
ModeRules TargetMode.selector t =
    (t.name ≡ [])
    × ((t.selector ≢ none) ⊎ (t.namespace_selector ≢ none))
    × NonNegative t.max_targets
ModeRules _ t = ⊥

-- Only a contributor to one object creates or deletes it, only one that creates deletes, a create
-- needs a base, and a base is not enforced later.
pub record LifecycleRules (spec : ResourcePatchSpec) : Type 0 where
  pub selected_kept :
      target_mode spec.target.mode ≡ TargetMode.selector
      → (spec.lifecycle.on_missing ≢ OnMissing.create)
        × (spec.lifecycle.on_release ≢ OnRelease.delete)
  pub creator_deletes :
      spec.lifecycle.on_release ≡ OnRelease.delete → spec.lifecycle.on_missing ≡ OnMissing.create
  pub create_has_base : spec.lifecycle.on_missing ≡ OnMissing.create → spec.base ≢ none
  pub not_enforced : spec.lifecycle.base_reconcile ≢ BaseReconcile.enforce

abbrev pub HasBytes : Option RawExtension → Type 0
HasBytes none = ⊥
HasBytes (some raw) = raw ≢ []

abbrev pub PatchTypeRules : PatchType → PatchSpec → Type 0
PatchTypeRules PatchType.strategic_merge p = HasBytes p.value × (p.ops ≡ none)
PatchTypeRules PatchType.merge p = HasBytes p.value × (p.ops ≡ none)
PatchTypeRules PatchType.json6902 p = HasBytes p.ops × (p.value ≡ none)
PatchTypeRules _ p = ⊥

-- A patch carries the payload of its type only, and merge keys that are complete, and none of them
-- where the API server merges.
pub record PatchRules (spec : ResourcePatchSpec) : Type 0 where
  pub payload : PatchTypeRules (patch_type_of spec.patch.type) spec.patch
  pub client_side : (spec.patch.merge_keys ≡ []) ⊎ (spec.apply.mode ≢ ApplyMode.server_side)
  pub complete_keys : All (λ mk. (mk.path ≢ []) × (mk.key ≢ [])) spec.patch.merge_keys

abbrev pub WithinNamespace : Text → Text → Type 0
WithinNamespace own there = (there ≡ []) ⊎ (there ≡ own)

abbrev pub AccountWithin : Text → Option ServiceAccountRef → Type 0
AccountWithin own none = Unit
AccountWithin own (some ref) = WithinNamespace own ref.namespace

-- A ResourcePatch stays in its own namespace.
pub record NamespacedRules (lookup : Option IsNamespacedKind) (c : Contributor) : Type 0 where
  pub target_within : WithinNamespace c.namespace c.spec.target.namespace
  pub namespaced_kind : scope_of lookup c.spec.target ≢ some false
  pub no_fan_out : c.spec.target.namespace_selector ≡ none
  pub account_within : AccountWithin c.namespace c.spec.service_account_ref

-- A ClusterResourcePatch names no namespace for the kinds that have none, and one for the single
-- target of a kind that has one.
abbrev pub ClusterRules : Option Bool → TargetRef → Type 0
ClusterRules none t = Unit
ClusterRules (some true) t = target_mode t.mode ≡ TargetMode.single → t.namespace ≢ []
ClusterRules (some false) t = t.namespace ≡ []

identity_iff :
    (t : TargetRef) → (validate_target_identity t ≡ []) ↔ ((t.api_version ≢ []) × (t.kind ≢ []))
unfolding validate_target_identity
identity_iff t = ground (arith, eq_iff t.api_version [], eq_iff t.kind [])

mode_iff : (m : TargetMode) (t : TargetRef) → (validate_mode_as m t ≡ []) ↔ ModeRules m t
unfolding validate_mode_as
mode_iff TargetMode.single t = ground (arith, eq_iff t.name [])
mode_iff TargetMode.selector t = ground (arith, eq_iff t.name [])
mode_iff TargetMode.unset t = ground arith
mode_iff (TargetMode.other m) t = ground arith

lifecycle_iff : (spec : ResourcePatchSpec) → (validate_lifecycle spec ≡ []) ↔ LifecycleRules spec
unfolding validate_lifecycle
lifecycle_iff spec = ground arith

no_bytes_iff : (o : Option RawExtension) → (no_bytes o ≡ false) ↔ HasBytes o
no_bytes_iff none = ground arith
no_bytes_iff (some raw) = ground (arith, eq_iff raw [])

patch_type_iff : (y : PatchType) (p : PatchSpec) → (validate_patch_as y p ≡ []) ↔ PatchTypeRules y p
unfolding validate_patch_as
patch_type_iff PatchType.strategic_merge p = ground (arith, no_bytes_iff p.value)
patch_type_iff PatchType.merge p = ground (arith, no_bytes_iff p.value)
patch_type_iff PatchType.json6902 p = ground (arith, no_bytes_iff p.ops)
patch_type_iff PatchType.unset p = ground arith
patch_type_iff (PatchType.other y) p = ground arith

merge_keys_iff :
    (i : ℕ) (mks : List MergeKey)
    → (validate_merge_keys i mks ≡ []) ↔ All (λ mk. (mk.path ≢ []) × (mk.key ≢ [])) mks
unfolding validate_merge_keys
merge_keys_iff i [] = ground arith
merge_keys_iff i (mk ∷ mks) =
    ground (arith, eq_iff mk.path [], eq_iff mk.key [], merge_keys_iff (suc i) mks)

abbrev ClientSide : ResourcePatchSpec → Type 0
ClientSide spec = (spec.patch.merge_keys ≡ []) ⊎ (spec.apply.mode ≢ ApplyMode.server_side)

merge_mode_iff :
    (spec : ResourcePatchSpec)
    → ((has_items spec.patch.merge_keys && is_server_side spec.apply.mode) ≡ false)
      ↔ ClientSide spec
merge_mode_iff spec = ground arith

append-eq-nil_iff {ℓ} : {A : Type ℓ} (xs ys : List A) → (xs ++ ys ≡ []) ↔ ((xs ≡ []) × (ys ≡ []))
append-eq-nil_iff [] ys = ground arith
append-eq-nil_iff (x ∷ xs) ys = ground arith

when-eq-nil_iff : (b : Bool) (e : FieldError) → (when b e ≡ []) ↔ (b ≡ false)
when-eq-nil_iff true e = ground arith
when-eq-nil_iff false e = ground arith

account_iff :
    (own : Text) (ref : Option ServiceAccountRef)
    → (account_elsewhere own ref ≡ false) ↔ AccountWithin own ref
account_iff own none = ground arith
account_iff own (some ref) = ground (arith, eq_iff ref.namespace [], eq_iff ref.namespace own)

namespaced_iff :
    (lookup : Option IsNamespacedKind) (c : Contributor)
    → (validate_namespaced lookup c ≡ []) ↔ NamespacedRules lookup c
unfolding validate_namespaced
namespaced_iff lookup c = ground (
  arith,
  eq_iff c.spec.target.namespace [],
  eq_iff c.spec.target.namespace c.namespace,
  account_iff c.namespace c.spec.service_account_ref,
)

scope_iff : (o : Option Bool) (t : TargetRef) → (validate_scope o t ≡ []) ↔ ClusterRules o t
unfolding validate_scope
scope_iff none t = ground arith
scope_iff (some true) t = ground (arith, eq_iff t.namespace [])
scope_iff (some false) t = ground (arith, eq_iff t.namespace [])

patch_iff : (spec : ResourcePatchSpec) → (validate_patch spec ≡ []) ↔ PatchRules spec
unfolding validate_patch
patch_iff spec = ground (
  arith,
  append-eq-nil_iff (validate_patch_as (patch_type_of spec.patch.type) spec.patch) (
      when (has_items spec.patch.merge_keys && is_server_side spec.apply.mode)
        (forbidden merge_keys)
      ++ validate_merge_keys 0 spec.patch.merge_keys),
  append-eq-nil_iff
      (when (has_items spec.patch.merge_keys && is_server_side spec.apply.mode)
        (forbidden merge_keys))
      (validate_merge_keys 0 spec.patch.merge_keys),
  when-eq-nil_iff (has_items spec.patch.merge_keys && is_server_side spec.apply.mode)
      (forbidden merge_keys),
  merge_mode_iff spec,
  patch_type_iff (patch_type_of spec.patch.type) spec.patch,
  merge_keys_iff 0 spec.patch.merge_keys,
)

-- What each kind of contributor may reach.
abbrev pub ReachRules : Bool → Option IsNamespacedKind → Contributor → Type 0
ReachRules true lookup c = ClusterRules (scope_of lookup c.spec.target) c.spec.target
ReachRules false lookup c = NamespacedRules lookup c

-- The API group of the operator, at any version or without one, and the kinds that it has there.
abbrev pub OwnGroup : Text → Type 0
OwnGroup api_version =
    (api_version ≡ codes "terasky.com")
    ⊎ ((version : Text) × (api_version ≡ codes "terasky.com/" ++ version))

abbrev pub OwnKind : Text → Type 0
OwnKind name =
    (name ≡ codes "ResourcePatch")
    ⊎ ((name ≡ codes "ClusterResourcePatch")
        ⊎ ((name ≡ codes "SharedResource") ⊎ (name ≡ codes "ClusterSharedResource")))

OwnGroup-iff :
    (api_version : Text)
    → ((has_prefix api_version (group ++ b'/' ∷ []) || api_version == group) ≡ true)
      ↔ OwnGroup api_version
OwnGroup-iff api_version =
    ground (arith, has_prefix_iff api_version (codes "terasky.com/"), eq_iff api_version group)

OwnKind-iff :
    (api_version name : Text)
    → (is_own_kind api_version name ≡ false) ↔ ¬ (OwnGroup api_version × OwnKind name)
unfolding is_own_kind
OwnKind-iff api_version name = ground (
  arith,
  OwnGroup-iff api_version,
  eq_iff name kind_resource_patch,
  eq_iff name kind_cluster_resource_patch,
  eq_iff name kind_shared_resource,
  eq_iff name kind_cluster_shared_resource,
)

-- The whole table. The target is none of the operator's own objects.
pub record IsAdmissible (lookup : Option IsNamespacedKind) (c : Contributor) : Type 0 where
  pub identity : (c.spec.target.api_version ≢ []) × (c.spec.target.kind ≢ [])
  pub mode_ruled : ModeRules (target_mode c.spec.target.mode) c.spec.target
  pub lifecycle_ruled : LifecycleRules c.spec
  pub patch_ruled : PatchRules c.spec
  pub reach_ruled : ReachRules c.cluster_scoped lookup c
  pub not_own_kind : ¬ (OwnGroup c.spec.target.api_version × OwnKind c.spec.target.kind)

abbrev reach_errors : Bool → Option IsNamespacedKind → Contributor → List FieldError
reach_errors b lookup c =
    if b then validate_cluster_scoped lookup c else validate_namespaced lookup c

reach_iff :
    (b : Bool) (lookup : Option IsNamespacedKind) (c : Contributor)
    → (reach_errors b lookup c ≡ []) ↔ ReachRules b lookup c
unfolding validate_cluster_scoped
reach_iff true lookup c = scope_iff (scope_of lookup c.spec.target) c.spec.target
reach_iff false lookup c = namespaced_iff lookup c

-- Six lists are empty together exactly when their concatenation is.
six_nil {ℓ} :
    {A : Type ℓ} (a b c d e f : List A)
    → (a ++ (b ++ (c ++ (d ++ (e ++ f)))) ≡ [])
      ↔ ((a ≡ []) × (b ≡ []) × (c ≡ []) × (d ≡ []) × (e ≡ []) × (f ≡ []))
six_nil a b c d e f = ground (
  arith,
  append-eq-nil_iff a (b ++ (c ++ (d ++ (e ++ f)))),
  append-eq-nil_iff b (c ++ (d ++ (e ++ f))),
  append-eq-nil_iff c (d ++ (e ++ f)),
  append-eq-nil_iff d (e ++ f),
  append-eq-nil_iff e f,
)

module _ (lookup : Option IsNamespacedKind) (c : Contributor) where
  abbrev own : Bool
  own = is_own_kind c.spec.target.api_version c.spec.target.kind

  validate_parts : (validate lookup c ≡ []) ↔ (
      (validate_target_identity c.spec.target ≡ [])
      × (validate_mode_as (target_mode c.spec.target.mode) c.spec.target ≡ [])
      × (validate_lifecycle c.spec ≡ [])
      × (validate_patch c.spec ≡ [])
      × (reach_errors c.cluster_scoped lookup c ≡ [])
      × (when own (invalid kind) ≡ []))
  unfolding validate validate_mode
  validate_parts =
      six_nil (validate_target_identity c.spec.target) (validate_mode c.spec.target)
        (validate_lifecycle c.spec) (validate_patch c.spec) (reach_errors c.cluster_scoped lookup c)
        (when own (invalid kind))

-- `Validate` reports no error exactly for the contributors that meet every rule of the table, for
-- both kinds, whether or not a RESTMapper is at hand.
pub validate_iff :
    (lookup : Option IsNamespacedKind) (c : Contributor)
    → (validate lookup c ≡ []) ↔ IsAdmissible lookup c
validate_iff lookup c = (
  λ e.
      let (i, m, l, p, r, o) = (validate_parts lookup c).0 e in
      record {
        identity = (identity_iff c.spec.target).0 i;
        mode_ruled = (mode_iff (target_mode c.spec.target.mode) c.spec.target).0 m;
        lifecycle_ruled = (lifecycle_iff c.spec).0 l;
        patch_ruled = (patch_iff c.spec).0 p;
        reach_ruled = (reach_iff c.cluster_scoped lookup c).0 r;
        not_own_kind =
            (OwnKind-iff c.spec.target.api_version c.spec.target.kind).0
              ((when-eq-nil_iff (own lookup c) (invalid kind)).0 o);
      },
  λ a. (validate_parts lookup c).1 (
    (identity_iff c.spec.target).1 a.identity,
    (mode_iff (target_mode c.spec.target.mode) c.spec.target).1 a.mode_ruled,
    (lifecycle_iff c.spec).1 a.lifecycle_ruled,
    (patch_iff c.spec).1 a.patch_ruled,
    (reach_iff c.cluster_scoped lookup c).1 a.reach_ruled,
    (when-eq-nil_iff (own lookup c) (invalid kind)).1
        ((OwnKind-iff c.spec.target.api_version c.spec.target.kind).1 a.not_own_kind),
  ),
)
