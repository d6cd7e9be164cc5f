-- ===== src/Tracker/Samples.antt =====
-- A tracker, its contributors and a cluster that the tests of several modules run on.
use patch_operator.Base.{ℕ, suc, pos, true, false, none, some, [], ◌∷◌, codes}
use patch_operator.Api.{
  OnMissing, OnRelease, ConflictPolicy, ContributorState, Contributor, ContributorRef,
}
use patch_operator.Api.Samples.{sample_patch}
use patch_operator.Api.Status.{TrackerPhase, TrackerStatus, ContributorStatus}
use patch_operator.Json.{str, Fields, end, entry}
use patch_operator.Render.{Target}
use patch_operator.Tracker.Writes.{Versioned, stored, World}
use patch_operator.Tracker.Records.{ContributorRecord}
use patch_operator.Tracker.Appliers.{Report, answered, Applier, Outside}

-- A ResourcePatch that creates its target, and deletes it when it leaves.
abbrev pub creator_patch : Contributor
creator_patch = record sample_patch {
  deleting = true;
  spec = record sample_patch.spec {
    lifecycle = record sample_patch.spec.lifecycle {
      on_missing = OnMissing.create;
      on_release = OnRelease.delete;
    };
  };
}

-- A ResourcePatch whose conflicts are decided by priority.
abbrev pub priority_patch : Contributor
priority_patch = record sample_patch {
  spec = record sample_patch.spec {
    apply = record sample_patch.spec.apply { conflict_policy = ConflictPolicy.priority };
  };
}

abbrev pub sample_ref : ContributorRef
sample_ref = record {
  kind = codes "ResourcePatch";
  name = codes "p";
  namespace = codes "default";
  uid = codes "u1";
}

abbrev pub other_ref : ContributorRef
other_ref = record sample_ref { name = codes "q"; uid = codes "u2" }

abbrev pub sample_record : ContributorStatus
sample_record = record {
  patch_ref = sample_ref;
  observed_generation = 1;
  priority = pos 0;
  field_manager = codes "patch-operator/default/p";
  state = ContributorState.applied;
  last_applied_hash = codes "sha256:1";
  owned_paths = codes "data.a" ∷ [];
  prior_values = none;
  prior_values_captured = true;
  creation_timestamp = some 1;
}

abbrev pub urgent_record : ContributorStatus
urgent_record = record sample_record { patch_ref = other_ref; priority = pos 9 }

abbrev pub sample_active : ContributorRecord
sample_active = record { contributor = sample_patch; status = sample_record }

abbrev pub leaving_creator : ContributorRecord
leaving_creator = record { contributor = creator_patch; status = sample_record }

abbrev pub sample_loser : ContributorRecord
sample_loser = record { contributor = priority_patch; status = sample_record }

abbrev pub sample_winner : ContributorRecord
sample_winner = record { contributor = priority_patch; status = urgent_record }

-- a tracker with one contributor, which created the target
abbrev pub sample_status : TrackerStatus
sample_status = record {
  phase = TrackerPhase.applied;
  conditions = [];
  promoted_to = none;
  created_by_operator = true;
  creator_patch_ref = some sample_ref;
  observed_base_hash = codes "sha256:0";
  observed_target_uid = codes "t1";
  observed_resource_version = codes "7";
  contributors = sample_record ∷ [];
  contributor_count = 1;
  conflicts = [];
}

-- a tracker that has met nobody yet
abbrev pub blank_status : TrackerStatus
blank_status = record {
  phase = TrackerPhase.unset;
  conditions = [];
  promoted_to = none;
  created_by_operator = false;
  creator_patch_ref = none;
  observed_base_hash = [];
  observed_target_uid = [];
  observed_resource_version = [];
  contributors = [];
  contributor_count = 0;
  conflicts = [];
}

abbrev pub fenced_status : TrackerStatus
fenced_status = record sample_status {
  phase = TrackerPhase.promoting;
  promoted_to = some (record { name = codes "t"; adopted = true });
}

abbrev pub at_one : TrackerStatus → Versioned
at_one status = record { version = 1; status = status }

-- nobody else writes the tracker
abbrev pub quiet : TrackerStatus → World
quiet status t = stored (at_one status)

abbrev pub sample_target : Target
sample_target = record {
  api_version = codes "v1";
  kind = codes "ConfigMap";
  name = codes "app";
  namespace = codes "default";
}

abbrev pub sample_report : Report
sample_report = record {
  created = true;
  live = some (record { resource_version = codes "8"; uid = codes "t1" });
  owned_paths = [];
  prior_values = end;
  prior_values_captured = false;
  conflict = none;
}

-- an applier that creates the target, and counts what it is asked
abbrev pub counting : Applier ℕ
counting = record {
  apply = λ s request. (suc s, answered sample_report);
  revert = λ s request. (suc s, true);
}

abbrev pub sample_fields : Fields
sample_fields = entry (codes "a") (str (codes "x")) end

-- a cluster that is the number of the requests to it
abbrev pub counter : Outside ℕ ℕ
counter = record {
  client = 0;
  impersonation = none;
  server_side = λ w. counting;
  client_side = λ w. counting;
  delete_target = λ s target. (suc s, true);
  decode = λ raw. some sample_fields;
  encode = λ m. codes "{}";
  hash_of = λ m. codes "sha256:2";
  hash_value = λ v. codes "sha256:3";
  decode_ops = λ raw. none;
  apply_ops = λ raw m. none;
  visit = λ t claims. claims;
  now = λ t. t;
  render_error = codes "no patch";
}

-- the same, where nothing can be decoded
abbrev pub unreadable : Outside ℕ ℕ
unreadable = record counter { decode = λ raw. none }
