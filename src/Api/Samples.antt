-- ===== src/Api/Samples.antt =====
-- Contributors that the tests of several modules run on.
use patch_operator.Base.{pos, true, false, none, some, [], codes}
use patch_operator.Api.{
  TargetMode, OnMissing, OnRelease, BaseReconcile, ApplyMode, ConflictPolicy, PatchType,
  Contributor,
}

-- A ResourcePatch in `default` that merges a value into the ConfigMap `app`.
abbrev pub sample_patch : Contributor
sample_patch = record {
  cluster_scoped = false;
  name = codes "p";
  namespace = codes "default";
  uid = codes "u1";
  deleting = false;
  generation = 1;
  creation_timestamp = 0;
  spec = record {
    target = record {
      mode = TargetMode.unset;
      api_version = codes "v1";
      kind = codes "ConfigMap";
      name = codes "app";
      namespace = [];
      selector = none;
      namespace_selector = none;
      max_targets = pos 0;
    };
    lifecycle = record {
      on_missing = OnMissing.wait;
      on_release = OnRelease.revert;
      base_reconcile = BaseReconcile.create_only;
    };
    apply = record { mode = ApplyMode.server_side; conflict_policy = ConflictPolicy.fail };
    priority = pos 0;
    service_account_ref = none;
    base = none;
    patch = record {
      type = PatchType.merge;
      value = some (codes "{}");
      ops = none;
      merge_keys = [];
    };
  };
  shared_resource_refs = [];
}

-- The same, on the ConfigMap `old`.
abbrev pub moved_patch : Contributor
moved_patch = record sample_patch {
  spec = record sample_patch.spec {
    target = record sample_patch.spec.target { name = codes "old" };
  };
}

-- The same, on the ConfigMaps that a selector matches.
abbrev pub fan_out_patch : Contributor
fan_out_patch = record sample_patch {
  spec = record sample_patch.spec {
    target = record sample_patch.spec.target {
      mode = TargetMode.selector;
      name = [];
      selector = some (codes "tier=web");
    };
  };
}

-- A ClusterResourcePatch with a selector and a namespace.
abbrev pub cluster_fan_out : Contributor
cluster_fan_out = record fan_out_patch { cluster_scoped = true; namespace = [] }
