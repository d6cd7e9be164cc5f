-- ===== src/Scope.antt =====
-- internal/scope/scope.go: the rules for a contributor's spec, the namespace that its target
-- resolves in, and the tracker that owns a target.
pub mod Validate
pub mod Names
use patch_operator.Base.{
  Bool, true, false, ◌&&◌, ◌||◌, List, [], ◌∷◌, ◌++◌, Text, codes, ◌==◌, has_prefix, if◌then◌else◌,
}
use patch_operator.Api.{Contributor}
use patch_operator.Api.Refs.{
  kind_resource_patch, kind_cluster_resource_patch, kind_shared_resource,
  kind_cluster_shared_resource,
}

pub record TargetKey : Type 0 where
  pub api_version : Text
  pub kind : Text
  pub namespace : Text
  pub name : Text

-- `TargetKey.String`
unfoldable pub key_text : TargetKey → Text
key_text k =
    if k.namespace == []
    then k.api_version ++ b'/' ∷ (k.kind ++ b'/' ∷ k.name)
    else k.api_version ++ b'/' ∷ (k.kind ++ b'/' ∷ (k.namespace ++ b'/' ∷ k.name))

-- `TargetKey.IsClusterScopedTarget`
unfoldable pub is_cluster_scoped_target : TargetKey → Bool
is_cluster_scoped_target k = k.namespace == []

-- `GroupVersion.Group`
abbrev pub group : Text
group = codes "terasky.com"

-- `isOwnKind`
unfoldable pub is_own_kind : Text → Text → Bool
is_own_kind api_version kind =
    (has_prefix api_version (group ++ b'/' ∷ []) || api_version == group)
    && (kind == kind_resource_patch
        || kind == kind_cluster_resource_patch
        || kind == kind_shared_resource
        || kind == kind_cluster_shared_resource)

-- `ResolveTargetNamespace`
unfoldable pub resolve_target_namespace : Contributor → Text
resolve_target_namespace c = if c.cluster_scoped then c.spec.target.namespace else c.namespace

-- `TargetKeyFor`
unfoldable pub target_key_for : Contributor → TargetKey
unfolding resolve_target_namespace
target_key_for c = record {
  api_version = c.spec.target.api_version;
  kind = c.spec.target.kind;
  namespace = resolve_target_namespace c;
  name = c.spec.target.name;
}

-- `TrackerKindFor`
unfoldable pub tracker_kind_for : TargetKey → Bool → Text
unfolding is_cluster_scoped_target
tracker_kind_for key has_cluster_scoped_contributor =
    if is_cluster_scoped_target key || has_cluster_scoped_contributor
    then kind_cluster_shared_resource
    else kind_shared_resource

-- `TrackerNamespace`
unfoldable pub tracker_namespace : Text → TargetKey → Text
tracker_namespace tracker_kind key =
    if tracker_kind == kind_shared_resource then key.namespace else []
