-- ===== src/Controller.antt =====
-- internal/controller/contributor_controller.go: the targets that a contributor resolves to.
-- Parameters, as they are not code of the repository: `parse_group` is `schema.ParseGroupVersion`;
-- `valid_selector` tells whether `metav1.LabelSelectorAsSelector` takes a selector; `list_objects`
-- and `list_namespaces` are the API server's lists, none for a request that fails.
pub mod Targets
pub mod Sync
pub mod Release
pub mod Events
pub mod Reauthorize
pub mod Reconcile
pub mod Reach
mod Tests
mod Samples
mod Witnesses
use patch_operator.Base.{
  ℕ, zero, suc, ℤ, pos, negsuc, Bool, true, false, not, ◌&&◌, Option, none, some, List, [], ◌∷◌,
  ◌++◌, Text, ltb, length, is_some, if◌then◌else◌,
}
use patch_operator.Api.{TargetMode, LabelSelector, TargetRef, Contributor}
use patch_operator.Scope.{TargetKey, target_key_for}

-- the part of a listed object that the code reads
pub record Found : Type 0 where
  pub namespace : Text
  pub name : Text

-- the apiVersion, the kind, the selector and the namespace, the empty one for no restriction
abbrev pub ListObjects : Type 0
ListObjects = Text → Text → Option LabelSelector → Text → Option (List Found)

pub data Resolution : Type 0 where
  resolved : List TargetKey → Resolution
  too_many : ℕ → Resolution
  failed : Resolution

abbrev pub key_of : TargetRef → Found → TargetKey
key_of t item = record {
  api_version = t.api_version;
  kind = t.kind;
  namespace = item.namespace;
  name = item.name;
}

-- `maxTargets` with its default
abbrev pub cap_of : ℤ → ℕ
cap_of (pos zero) = 100
cap_of (pos (suc n)) = suc n
cap_of (negsuc n) = 100

-- the loop over the objects of one list; none is more keys than the limit
unfoldable pub collect : TargetRef → ℕ → List TargetKey → List Found → Option (List TargetKey)
collect t most keys [] = some keys
collect t most keys (item ∷ items) =
    let keys' = keys ++ key_of t item ∷ [] in
    let rest = collect t most keys' items in if ltb most (length keys') then none else rest

-- the loop over the namespaces
unfoldable pub collect_all : ListObjects → TargetRef → ℕ → List TargetKey → List Text → Resolution
collect_all list_objects t most keys [] = resolved keys
collect_all list_objects t most keys (ns ∷ namespaces) =
    elim (list_objects t.api_version t.kind t.selector ns) [
      | none ↦ failed
      | some items ↦ elim (collect t most keys items) [
        | none ↦ too_many most
        | some keys' ↦ collect_all list_objects t most keys' namespaces
      ]
    ]

module _ (parse_group : Text → Option Text) (valid_selector : LabelSelector → Bool)
    (list_objects : ListObjects) (list_namespaces : LabelSelector → Option (List Text)) where
  abbrev pub listed_namespaces : Option LabelSelector → Option (List Text)
  listed_namespaces none = some ([] ∷ [])
  listed_namespaces (some s) = if valid_selector s then list_namespaces s else none

  -- `selectorNamespaces`
  abbrev pub selector_namespaces : Contributor → Option (List Text)
  selector_namespaces c =
      if not c.cluster_scoped
      then some (c.namespace ∷ [])
      else listed_namespaces c.spec.target.namespace_selector

  abbrev pub accepted : Option LabelSelector → Bool
  accepted none = true
  accepted (some s) = valid_selector s

  abbrev pub resolve_in : TargetRef → Option (List Text) → Resolution
  resolve_in t none = failed
  resolve_in t (some namespaces) = collect_all list_objects t (cap_of t.max_targets) [] namespaces

  -- `resolveSelector`
  unfoldable pub resolve_selector : Contributor → Resolution
  resolve_selector c =
      if is_some (parse_group c.spec.target.api_version) && accepted c.spec.target.selector
      then resolve_in c.spec.target (selector_namespaces c)
      else failed

  abbrev pub resolve_as : Contributor → TargetMode → Resolution
  resolve_as c TargetMode.unset = resolved (target_key_for c ∷ [])
  resolve_as c TargetMode.single = resolved (target_key_for c ∷ [])
  resolve_as c _ = resolve_selector c

  -- `resolveTargets`
  unfoldable pub resolve_targets : Contributor → Resolution
  resolve_targets c = resolve_as c c.spec.target.mode
