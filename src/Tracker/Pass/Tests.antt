-- ===== src/Tracker/Pass/Tests.antt =====
-- Runs of a pass, and the witnesses.
use patch_operator.Base.{
  ℕ, ◌≡◌, ◌≢◌, ◌⊎◌, refl, true, false, ◌==◌, Option, none, some, List, [], ◌∷◌, codes, length,
}
use patch_operator.Api.{OnRelease}
use patch_operator.Api.Status.{TrackerStatus}
use patch_operator.Render.{Contribution, render, with_identity}
use patch_operator.Render.Leaves.{leaf_paths}
use patch_operator.Tracker.Writes.{Written, landed, patch_status, write_status, record_provenance}
use patch_operator.Tracker.Records.{ContributorRecord, statuses}
use patch_operator.Tracker.Conflicts.{is_superseded_on}
use patch_operator.Tracker.Withdraw.{split_releasing, release_all}
use patch_operator.Tracker.Appliers.{answered, applier_for}
use patch_operator.Tracker.Samples.{
  creator_patch, other_ref, sample_record, sample_active, blank_status, sample_status, at_one,
  quiet, sample_target, sample_report, sample_fields, counter, unreadable,
}
use patch_operator.Tracker.Pass.Step.{Pass, after_apply}
use patch_operator.Tracker.Pass.{render_all, requeue_after, reconcile_contributions, Passed}
use patch_operator.Tracker.Pass.Covers.{refs}
use patch_operator.Tracker.Pass.Counts.{
  staying, reconcile_contributions-Counts, reconcile_contributions-unrendered,
}
use patch_operator.Tracker.Pass.Provenance.{KnowsCreator, Recorded, after_apply-KnowsCreator}

abbrev leaving_orphan : ContributorRecord
leaving_orphan = record {
  contributor = record creator_patch {
    spec = record creator_patch.spec {
      lifecycle = record creator_patch.spec.lifecycle { on_release = OnRelease.orphan };
    };
  };
  status = record sample_record { patch_ref = other_ref };
}

-- one contributor that leaves and one that stays
abbrev mixed : List ContributorRecord
mixed = leaving_orphan ∷ sample_active ∷ []

abbrev status_in : Option Written → TrackerStatus
status_in (some (landed t st)) = st
status_in w = blank_status

abbrev sample_passed : Passed ℕ
sample_passed =
    reconcile_contributions counter sample_target (quiet sample_status) (λ t. t) 5 0
      (at_one sample_status) mixed 0

abbrev sample_rendered : List (ContributorRecord × Contribution)
sample_rendered =
    (
      sample_active,
      record {
        object = with_identity sample_fields sample_target;
        paths = leaf_paths sample_fields [];
        hash = codes "sha256:2";
      },
    )
    ∷ []

mixed-active : (split_releasing mixed).1 ≡ sample_active ∷ []
unfolding split_releasing
mixed-active = refl

mixed-rendered : render_all counter sample_target (staying mixed) ≡ some sample_rendered
unfolding render_all render ◌==◌
mixed-rendered = refl

mixed-write : sample_passed.write ≡ some (landed 0 (status_in sample_passed.write))
unfolding reconcile_contributions split_releasing render_all render ◌==◌ release_all patch_status
    write_status applier_for is_superseded_on
mixed-write = refl

mixed-returned : sample_passed.returned ≡ requeue_after 0
unfolding reconcile_contributions split_releasing render_all render ◌==◌ release_all patch_status
    write_status applier_for is_superseded_on
mixed-returned = refl

reconcile_contributions-Counts_example :
    (refs (status_in sample_passed.write).contributors ≡ refs (statuses (staying mixed)))
    × ((status_in sample_passed.write).contributor_count ≡ length (refs (statuses (staying mixed))))
reconcile_contributions-Counts_example =
    reconcile_contributions-Counts counter sample_target (quiet sample_status) (λ t. t) 5 0
      (at_one sample_status) mixed 0 sample_rendered 0 0 (status_in sample_passed.write)
      mixed-rendered mixed-write mixed-returned

-- a pass in which nothing can be rendered
abbrev lost_passed : Passed ℕ
lost_passed =
    reconcile_contributions unreadable sample_target (quiet sample_status) (λ t. t) 5 0
      (at_one sample_status) mixed 0

mixed-unrendered : render_all unreadable sample_target (split_releasing mixed).1 ≡ none
unfolding split_releasing render_all render ◌==◌
mixed-unrendered = refl

lost-write : lost_passed.write ≡ some (landed 0 (status_in lost_passed.write))
unfolding reconcile_contributions split_releasing render_all render ◌==◌ release_all patch_status
    write_status
lost-write = refl

reconcile_contributions-unrendered_example :
    ((status_in lost_passed.write).contributors ≡ [])
    × ((status_in lost_passed.write).contributor_count ≡ 0)
reconcile_contributions-unrendered_example =
    reconcile_contributions-unrendered unreadable sample_target (quiet sample_status) (λ t. t) 5 0
      (at_one sample_status) mixed 0 mixed-unrendered 0 (status_in lost_passed.write) lost-write

abbrev blank_pass : Pass ℕ
blank_pass = record {
  world = 0;
  instant = 0;
  memory = at_one blank_status;
  conflicts = [];
  any_conflict = false;
  target_exists = true;
}

abbrev sample_contribution : Contribution
sample_contribution = record { object = sample_fields; paths = []; hash = codes "sha256:2" }

after_apply-KnowsCreator_example :
    KnowsCreator (
      after_apply counter sample_target
        (quiet blank_status)
        (λ t. t)
        5
        (answered sample_report)
        sample_contribution
        sample_record
        none
        blank_pass)
    × ((blank_status.creator_patch_ref ≢ none)
        ⊎ Recorded
            (record_provenance
              (quiet blank_status)
              5
              blank_pass.instant
              (at_one blank_status)
              sample_record.patch_ref
              [])
            (after_apply counter sample_target
              (quiet blank_status)
              (λ t. t)
              5
              (answered sample_report)
              sample_contribution
              sample_record
              none
              blank_pass))
after_apply-KnowsCreator_example =
    after_apply-KnowsCreator counter sample_target (quiet blank_status) (λ t. t) 5 sample_report
      sample_contribution sample_record none blank_pass refl refl
