-- ===== src/Scope/Validate.antt =====
-- internal/scope/scope.go: `Validate` and the checks that it is made of. An error is its type and
-- the field that it names; the messages are left out.
pub mod Rules
pub mod Containment
pub mod Tests
use patch_operator.Base.{
  ℕ, suc, ℤ, pos, negsuc, Bool, true, false, not, ◌&&◌, ◌||◌, Option, none, some, List, [], ◌∷◌,
  ◌++◌, Text, ◌==◌, is_some, is_none, if◌then◌else◌,
}
use patch_operator.Api.{
  TargetMode, OnMissing, OnRelease, BaseReconcile, ApplyMode, PatchType, RawExtension, TargetRef,
  LifecycleSpec, MergeKey, PatchSpec, ServiceAccountRef, ResourcePatchSpec, Contributor,
}
use patch_operator.Scope.{is_own_kind}

pub data Place : Type 0 where
  api_version kind name namespace selector namespace_selector max_targets mode : Place
  on_missing on_release base_reconcile base : Place
  value ops patch_type merge_keys service_account_namespace : Place
  merge_key_path merge_key_key : ℕ → Place

pub data FieldError : Type 0 where
  required forbidden invalid not_supported : Place → FieldError

-- `if b { errs = append(errs, e) }`
abbrev pub when : Bool → FieldError → List FieldError
when true e = e ∷ []
when false e = []

-- the answer of a RESTMapper: none is an error
abbrev pub IsNamespacedKind : Type 0
IsNamespacedKind = Text → Text → Option Bool

-- an unset mode means Single
abbrev pub target_mode : TargetMode → TargetMode
target_mode TargetMode.unset = TargetMode.single
target_mode m = m

abbrev pub patch_type_of : PatchType → PatchType
patch_type_of PatchType.unset = PatchType.strategic_merge
patch_type_of t = t

-- `raw == nil || len(raw.Raw) == 0`
abbrev pub no_bytes : Option RawExtension → Bool
no_bytes none = true
no_bytes (some raw) = raw == []

abbrev pub is_create : OnMissing → Bool
is_create OnMissing.create = true
is_create _ = false

abbrev pub is_delete : OnRelease → Bool
is_delete OnRelease.delete = true
is_delete _ = false

abbrev pub is_enforce : BaseReconcile → Bool
is_enforce BaseReconcile.enforce = true
is_enforce _ = false

abbrev pub is_selector : TargetMode → Bool
is_selector TargetMode.selector = true
is_selector _ = false

abbrev pub is_single : TargetMode → Bool
is_single TargetMode.single = true
is_single _ = false

abbrev pub is_server_side : ApplyMode → Bool
is_server_side ApplyMode.server_side = true
is_server_side _ = false

abbrev pub is_negative : ℤ → Bool
is_negative (pos n) = false
is_negative (negsuc n) = true

-- `validateTargetIdentity`
pub validate_target_identity : TargetRef → List FieldError
validate_target_identity t =
    when (t.api_version == []) (required api_version) ++ when (t.kind == []) (required kind)

-- the `switch` of `validateMode`
pub validate_mode_as : TargetMode → TargetRef → List FieldError
validate_mode_as TargetMode.single t =
    when (t.name == []) (required name)
    ++ (when (is_some t.selector) (forbidden selector)
        ++ when (is_some t.namespace_selector) (forbidden namespace_selector))
validate_mode_as TargetMode.selector t =
    when (not (t.name == [])) (forbidden name)
    ++ (when (is_none t.selector && is_none t.namespace_selector) (required selector)
        ++ when (is_negative t.max_targets) (invalid max_targets))
validate_mode_as _ t = not_supported mode ∷ []

-- `validateMode`
pub validate_mode : TargetRef → List FieldError
validate_mode t = validate_mode_as (target_mode t.mode) t

-- `validateLifecycle`
pub validate_lifecycle : ResourcePatchSpec → List FieldError
validate_lifecycle spec =
    when (is_selector (target_mode spec.target.mode) && is_create spec.lifecycle.on_missing)
      (forbidden on_missing)
    ++ (when (is_selector (target_mode spec.target.mode) && is_delete spec.lifecycle.on_release)
          (forbidden on_release)
        ++ (when (is_delete spec.lifecycle.on_release && not (is_create spec.lifecycle.on_missing))
              (forbidden on_release)
            ++ (when (is_create spec.lifecycle.on_missing && is_none spec.base) (required base)
                ++ when (is_enforce spec.lifecycle.base_reconcile) (forbidden base_reconcile))))

-- the `switch` of `validatePatch`
pub validate_patch_as : PatchType → PatchSpec → List FieldError
validate_patch_as PatchType.strategic_merge p =
    when (no_bytes p.value) (required value) ++ when (is_some p.ops) (forbidden ops)
validate_patch_as PatchType.merge p =
    when (no_bytes p.value) (required value) ++ when (is_some p.ops) (forbidden ops)
validate_patch_as PatchType.json6902 p =
    when (no_bytes p.ops) (required ops) ++ when (is_some p.value) (forbidden value)
validate_patch_as _ p = not_supported patch_type ∷ []

-- the loop over the merge keys, from index `i`
pub validate_merge_keys : ℕ → List MergeKey → List FieldError
validate_merge_keys i [] = []
validate_merge_keys i (mk ∷ mks) =
    when (mk.path == []) (required (merge_key_path i))
    ++ (when (mk.key == []) (required (merge_key_key i)) ++ validate_merge_keys (suc i) mks)

abbrev pub has_items {ℓ} : {A : Type ℓ} → List A → Bool
has_items [] = false
has_items (x ∷ xs) = true

-- `validatePatch`
pub validate_patch : ResourcePatchSpec → List FieldError
validate_patch spec =
    validate_patch_as (patch_type_of spec.patch.type) spec.patch
    ++ (when (has_items spec.patch.merge_keys && is_server_side spec.apply.mode)
          (forbidden merge_keys)
        ++ validate_merge_keys 0 spec.patch.merge_keys)

-- what the RESTMapper says of a kind, where it is asked and answers
abbrev pub scope_of : Option IsNamespacedKind → TargetRef → Option Bool
scope_of none t = none
scope_of (some is_namespaced_kind) t = is_namespaced_kind t.api_version t.kind

abbrev pub is_false : Option Bool → Bool
is_false (some false) = true
is_false _ = false

abbrev pub elsewhere : Text → Text → Bool
elsewhere own there = not (there == []) && not (there == own)

abbrev pub account_elsewhere : Text → Option ServiceAccountRef → Bool
account_elsewhere own none = false
account_elsewhere own (some ref) = elsewhere own ref.namespace

-- `validateNamespaced`
pub validate_namespaced : Option IsNamespacedKind → Contributor → List FieldError
validate_namespaced lookup c =
    when (elsewhere c.namespace c.spec.target.namespace) (invalid namespace)
    ++ (when (is_false (scope_of lookup c.spec.target)) (invalid kind)
        ++ (when (is_some c.spec.target.namespace_selector) (forbidden namespace_selector)
            ++ when (account_elsewhere c.namespace c.spec.service_account_ref)
                (invalid service_account_namespace)))

-- the `switch` of `validateClusterScoped`
pub validate_scope : Option Bool → TargetRef → List FieldError
validate_scope none t = []
validate_scope (some true) t =
    when (is_single (target_mode t.mode) && t.namespace == []) (required namespace)
validate_scope (some false) t = when (not (t.namespace == [])) (forbidden namespace)

-- `validateClusterScoped`
pub validate_cluster_scoped : Option IsNamespacedKind → Contributor → List FieldError
validate_cluster_scoped lookup c = validate_scope (scope_of lookup c.spec.target) c.spec.target

-- `Validate`
unfoldable pub validate : Option IsNamespacedKind → Contributor → List FieldError
validate lookup c =
    validate_target_identity c.spec.target
    ++ (validate_mode c.spec.target
        ++ (validate_lifecycle c.spec
            ++ (validate_patch c.spec
                ++ ((if c.cluster_scoped
                      then validate_cluster_scoped lookup c
                      else validate_namespaced lookup c)
                    ++ when (is_own_kind c.spec.target.api_version c.spec.target.kind)
                        (invalid kind)))))
