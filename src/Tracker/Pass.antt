-- ===== src/Tracker/Pass.antt =====
-- internal/controller/tracker_controller.go: `renderAll` and `reconcileContributions`, the pass over
-- a tracker's contributors; Pass/Step has the body of its loop. `version_after` is the version that
-- the API server gives to an update at an instant, and `attempts` is how often a status write is
-- tried.
pub mod Step
pub mod Unfenced
pub mod Covers
pub mod Counts
pub mod Provenance
mod Tests
use patch_operator.Base.{
  ℕ, zero, suc, ◌+◌, ◌*◌, Bool, true, false, ◌&&◌, Option, none, some, List, [], ◌∷◌, Text, codes,
  if◌then◌else◌,
}
use patch_operator.Api.{yes_status, no_status}
use patch_operator.Api.Status.{TrackerPhase, TrackerStatus, ContributorStatus, ConflictStatus}
use patch_operator.Render.{Target, Contribution, render}
use patch_operator.Tracker.Writes.{
  Versioned, World, Written, landed, gone, conflicted, failed, write_status,
}
use patch_operator.Tracker.Records.{ContributorRecord, Tracker}
use patch_operator.Tracker.Conflicts.{detect_path_conflicts}
use patch_operator.Tracker.Appliers.{Outside}
use patch_operator.Tracker.Withdraw.{split_releasing, release_all, maybe_delete_target}
use patch_operator.Tracker.Pass.Step.{
  Pass, Turn, kept, halted, Halt, requeued, broken, apply_failed, with_condition, turn,
}

-- how the loop ends: over all contributors, with their records, or early
pub data Loop (S : Type 0) : Type 0 where
  completed : Pass S → List ContributorStatus → Loop S
  stopped : Pass S → Halt → Loop S

abbrev pub with_record : {S : Type 0} → ContributorStatus → Loop S → Loop S
with_record rec (completed p records) = completed p (rec ∷ records)
with_record rec (stopped p halt) = stopped p halt

-- what a pass leaves: the rest of the cluster, its status write if it makes one, and what it returns,
-- an error, a requeue, or the time to the next pass in milliseconds
pub data Returned : Type 0 where
  error requeue : Returned
  requeue_after : ℕ → Returned

pub record Passed (S : Type 0) : Type 0 where
  pub world : S
  pub write : Option Written
  pub returned : Returned

module _ {S W : Type 0} (outside : Outside S W) (target : Target) where
  abbrev pub paired :
      ContributorRecord
      → Option Contribution
      → Option (List (ContributorRecord × Contribution))
      → Option (List (ContributorRecord × Contribution))
  paired c (some contribution) (some rest) = some ((c, contribution) ∷ rest)
  paired c (some contribution) none = none
  paired c none rest = none

  -- `renderAll`, each contribution beside its contributor; none is an error
  unfoldable pub render_all :
      List ContributorRecord → Option (List (ContributorRecord × Contribution))
  render_all [] = some []
  render_all (c ∷ active) =
      paired c
        (render outside.decode outside.hash_of outside.decode_ops outside.apply_ops
          c.contributor.spec.patch target)
        (render_all active)

  abbrev pub contributions : List (ContributorRecord × Contribution) → List Contribution
  contributions [] = []
  contributions ((c, contribution) ∷ rendered) = contribution ∷ contributions rendered

  module _ (world : World) (version_after : ℕ → ℕ) (attempts : ℕ) where
    abbrev pub loop_on : (Pass S → Loop S) → Turn S → Loop S
    loop_on rest (kept p rec) = with_record rec (rest p)
    loop_on rest (halted p halt) = stopped p halt

    -- the loop, from the `i`-th contributor on
    unfoldable pub pass_loop :
        List ContributorRecord
        → List (Text × List ℕ)
        → ℕ
        → List (ContributorRecord × Contribution)
        → Pass S
        → Loop S
    unfolding turn
    pass_loop active path_claims i [] p = completed p []
    pass_loop active path_claims i ((c, contribution) ∷ rendered) p =
        loop_on (pass_loop active path_claims (suc i) rendered)
          (turn outside target world version_after attempts i active path_claims c contribution p)

    -- the status at the end of the loop
    unfoldable pub settled_status : Pass S → TrackerStatus
    unfolding with_condition
    settled_status p =
        let now = outside.now p.instant in
        let st = p.memory.status in
        let ended : TrackerStatus =
          if p.target_exists
          then (if p.any_conflict
              then with_condition now (codes "Conflict") yes_status (codes "Conflict")
                  (codes "contributors disagree on at least one field")
                  (record st { phase = TrackerPhase.conflicted })
              else with_condition now (codes "Applied") yes_status (codes "Applied") [] (
                  with_condition now (codes "Conflict") no_status (codes "NoConflict") [] (
                    with_condition now (codes "TargetFound") yes_status (codes "Found") []
                      (record st { phase = TrackerPhase.applied }))))
          else with_condition now (codes "TargetFound") no_status (codes "TargetMissing")
              (codes "the target does not exist and no contributor creates it")
              (record st { phase = TrackerPhase.waiting }) in
        with_condition now (codes "Synced") yes_status (codes "ReconcileSuccess") [] ended

    abbrev pub write_of : Pass S → TrackerStatus → Option (List ContributorStatus) → Written
    write_of p status records =
        write_status world attempts p.instant (record p.memory { status = status }) records
          p.conflicts

    -- what `writeStatus` returns; a tracker that is gone is no error
    abbrev pub returned_by : Returned → Written → Returned
    returned_by returned (landed t status) = returned
    returned_by returned gone = returned
    returned_by returned conflicted = error
    returned_by returned failed = error

    abbrev pub written_as : Pass S → Returned → Written → Passed S
    written_as p returned written = record {
      world = p.world;
      write = some written;
      returned = returned_by returned written;
    }

    abbrev pub unwritten : S → Returned → Passed S
    unwritten s returned = record { world = s; write = none; returned = returned }

    -- the end of a pass
    unfoldable pub conclude : Loop S → Passed S
    unfolding settled_status
    conclude (completed p records) =
        written_as p (requeue_after (if p.target_exists then 0 else 10000))
          (write_of p (settled_status p) (some records))
    conclude (stopped p requeued) = unwritten p.world (requeue_after 500)
    conclude (stopped p broken) = unwritten p.world error
    conclude (stopped p (apply_failed message)) = written_as p error (
        write_of p
          (with_condition (outside.now p.instant) (codes "Synced") no_status (codes "ApplyFailed")
            message p.memory.status)
          none)

    -- a contribution that cannot be rendered
    unfoldable pub invalid_spec : Pass S → TrackerStatus
    unfolding with_condition
    invalid_spec p =
        with_condition (outside.now p.instant) (codes "Synced") no_status (codes "InvalidSpec")
          outside.render_error (record p.memory.status { phase = TrackerPhase.waiting })

    unfoldable pub unrendered : Pass S → Passed S
    unfolding invalid_spec
    unrendered p = written_as p (requeue_after 0) (write_of p (invalid_spec p) (some []))

    abbrev pub pass_over :
        Pass S
        → List ContributorRecord
        → Option (List (ContributorRecord × Contribution))
        → Passed S
    pass_over p active none = unrendered p
    pass_over p active (some rendered) = conclude (
        pass_loop active (detect_path_conflicts outside.hash_value (contributions rendered)) zero
          rendered p)

    abbrev pub start_pass : S → ℕ → Versioned → Pass S
    start_pass s t memory = record {
      world = s;
      instant = t;
      memory = memory;
      conflicts = [];
      any_conflict = false;
      target_exists = true;
    }

    abbrev pub pass_after : ℕ → Versioned → List ContributorRecord → S × Bool → Passed S
    pass_after t memory active (s, true) =
        pass_over (start_pass s t memory) active (render_all active)
    pass_after t memory active (s, false) = unwritten s error

    abbrev pub after_release :
        ℕ → Versioned → List ContributorRecord → List ContributorRecord → S × Bool → S × Bool
    after_release t memory releasing [] (s, true) = elim releasing [
      | [] ↦ (s, true)
      | c ∷ cs ↦ maybe_delete_target outside target memory.status (c ∷ cs) s
    ]
    after_release t memory releasing active outcome = outcome

    -- `reconcileContributions`
    unfoldable pub reconcile_contributions : ℕ → Versioned → List ContributorRecord → S → Passed S
    unfolding conclude unrendered pass_loop
    reconcile_contributions t memory contributors s =
        let (releasing, active) = split_releasing contributors in
        pass_after t memory active
          (after_release t memory releasing active (release_all outside target releasing s))
