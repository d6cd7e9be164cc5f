-- ===== src/Api/Refs.antt =====
-- api/v1alpha1/interfaces.go: references to contributors, and the kinds that they are built from.
use patch_operator.Base.{Bool, ◌&&◌, not, [], ◌∷◌, ◌++◌, Text, codes, ◌==◌, if◌then◌else◌}
use patch_operator.Api.{Contributor, ContributorRef}

abbrev pub kind_resource_patch : Text
kind_resource_patch = codes "ResourcePatch"

abbrev pub kind_cluster_resource_patch : Text
kind_cluster_resource_patch = codes "ClusterResourcePatch"

abbrev pub kind_shared_resource : Text
kind_shared_resource = codes "SharedResource"

abbrev pub kind_cluster_shared_resource : Text
kind_cluster_shared_resource = codes "ClusterSharedResource"

-- `ContributorKind()`
abbrev pub contributor_kind : Contributor → Text
contributor_kind c = if c.cluster_scoped then kind_cluster_resource_patch else kind_resource_patch

-- `ContributorRefOf`
unfoldable pub contributor_ref_of : Contributor → ContributorRef
contributor_ref_of c = record {
  kind = contributor_kind c;
  name = c.name;
  namespace = c.namespace;
  uid = c.uid;
}

-- `SameContributor`
unfoldable pub same_contributor : ContributorRef → ContributorRef → Bool
same_contributor a b =
    if not (a.uid == []) && not (b.uid == [])
    then a.uid == b.uid
    else (a.kind == b.kind && a.name == b.name && a.namespace == b.namespace)

-- `ContributorRef.String`
unfoldable pub ref_text : ContributorRef → Text
ref_text r =
    if r.namespace == []
    then r.kind ++ b'/' ∷ r.name
    else r.kind ++ b'/' ∷ (r.namespace ++ b'/' ∷ r.name)
