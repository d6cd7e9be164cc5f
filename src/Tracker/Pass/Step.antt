-- ===== src/Tracker/Pass/Step.antt =====
-- internal/controller/tracker_controller.go: one turn of the loop of `reconcileContributions`.
use patch_operator.Base.{
  ℕ, ◌+◌, ◌*◌, Bool, true, false, ◌&&◌, Option, none, some, is_none, List, [], ◌∷◌, ◌++◌, Text,
  codes, ◌==◌, if◌then◌else◌,
}
use patch_operator.Api.{ConditionStatus, ContributorState, ContributorRef, OnMissing}
use patch_operator.Api.Conditions.{set_condition}
use patch_operator.Api.Refs.{ref_text}
use patch_operator.Api.Status.{TrackerStatus, ContributorStatus, ConflictStatus}
use patch_operator.FieldPath.{FieldPath}
use patch_operator.Json.{Fields}
use patch_operator.Render.{Target, Contribution, path_strings, parse_paths}
use patch_operator.Tracker.Writes.{
  Versioned, World, Written, landed, gone, conflicted, failed, provenance_mutation,
  record_provenance,
}
use patch_operator.Tracker.Records.{ContributorRecord}
use patch_operator.Tracker.Conflicts.{is_superseded_on, append_conflict}
use patch_operator.Tracker.Appliers.{
  Request, FieldConflict, Live, Report, ApplyAnswer, answered, absent, concurrent, failure, Applier,
  Outside, applier_for, decode_prior_values, encode_prior_values, base_for,
}

pub record Pass (S : Type 0) : Type 0 where
  pub world : S
  pub instant : ℕ
  pub memory : Versioned
  pub conflicts : List ConflictStatus
  pub any_conflict : Bool
  pub target_exists : Bool

-- how a pass ends early: with a requeue, with an error, or with an error of an apply, which is
-- written to the status first
pub data Halt : Type 0 where
  requeued broken : Halt
  apply_failed : Text → Halt

-- A turn appends a record and goes on, or it ends the pass.
pub data Turn (S : Type 0) : Type 0 where
  kept : Pass S → ContributorStatus → Turn S
  halted : Pass S → Halt → Turn S

-- `setTrackerCond`
unfoldable pub with_condition :
    ℕ → Text → ConditionStatus → Text → Text → TrackerStatus → TrackerStatus
with_condition now type cond reason message st = record st {
  conditions =
      set_condition now
        (record {
          type = type;
          status = cond;
          reason = reason;
          message = message;
          last_transition_time = 0;
        })
        st.conditions;
}

abbrev pub in_state : ContributorState → ContributorStatus → ContributorStatus
in_state state rec = record rec { state = state }

-- `firstOr(in, "<unknown>")`
abbrev pub first_or_unknown : List Text → Text
first_or_unknown [] = codes "<unknown>"
first_or_unknown (t ∷ texts) = t

abbrev pub or_fresh : Option (List FieldPath) → List FieldPath
or_fresh none = []
or_fresh (some paths) = paths

abbrev pub may_create : OnMissing → Bool
may_create OnMissing.create = true
may_create policy = false

-- the target's version and UID as they were seen
abbrev pub observe : Option Live → TrackerStatus → TrackerStatus
observe none st = st
observe (some live) st = record st {
  observed_resource_version = live.resource_version;
  observed_target_uid = if live.uid == [] then st.observed_target_uid else live.uid;
}

module _ {S W : Type 0} (outside : Outside S W) (target : Target) (world : World)
    (version_after : ℕ → ℕ) (attempts : ℕ) where
  abbrev pub base_hash_of : Option Fields → Text
  base_hash_of none = []
  base_hash_of (some base) = outside.hash_of base

  -- the reconciler's copy once `recordProvenance` is done; none is an error
  abbrev pub remembered : Versioned → TrackerStatus → Written → Option Versioned
  remembered memory mutated (landed t status) =
      some (record { version = version_after t; status = status })
  remembered memory mutated gone = some (record memory { status = mutated })
  remembered memory mutated conflicted = none
  remembered memory mutated failed = none

  abbrev pub learn_creator : ContributorRef → Option Fields → Pass S → Option Versioned
  learn_creator creator base p =
      remembered p.memory (provenance_mutation creator (base_hash_of base) p.memory.status)
        (record_provenance world attempts p.instant p.memory creator (base_hash_of base))

  abbrev pub with_memory : Pass S → Option Versioned → Option (Pass S)
  with_memory p none = none
  with_memory p (some memory) =
      some (record p { instant = p.instant + 3 * attempts; memory = memory })

  -- "the operator created this target", written as soon as it is known
  unfoldable pub with_provenance :
      Report → ContributorStatus → Option Fields → Pass S → Option (Pass S)
  with_provenance report rec base p =
      if report.created && is_none p.memory.status.creator_patch_ref
      then with_memory p (learn_creator rec.patch_ref base p)
      else some p

  abbrev pub with_priors : Report → ContributorStatus → ContributorStatus
  with_priors report rec =
      if report.prior_values_captured
      then record rec {
        prior_values = encode_prior_values outside report.prior_values;
        prior_values_captured = true;
      }
      else rec

  -- the record of a contributor that is applied
  abbrev pub applied_record : Report → Contribution → ContributorStatus → ContributorStatus
  applied_record report contribution rec = with_priors report record rec {
    state = ContributorState.applied;
    last_applied_hash = contribution.hash;
    owned_paths = path_strings report.owned_paths;
  }

  abbrev pub observed : Report → Pass S → Pass S
  observed report p = record p {
    memory = record p.memory { status = observe report.live p.memory.status };
  }

  abbrev pub after_provenance :
      Report → Contribution → ContributorStatus → Pass S → Option (Pass S) → Turn S
  after_provenance report contribution rec p none = halted p broken
  after_provenance report contribution rec p (some q) =
      kept (observed report q) (applied_record report contribution rec)

  abbrev pub after_report :
      Option FieldConflict
      → Report
      → Contribution
      → ContributorStatus
      → Option Fields
      → Pass S
      → Turn S
  after_report (some conflict) report contribution rec base p =
      kept
        (record p {
          any_conflict = true;
          conflicts =
              p.conflicts
              ++ record {
                field_path = first_or_unknown conflict.fields;
                claimants = ref_text rec.patch_ref ∷ [];
                holder = first_or_unknown conflict.managers;
              }
                ∷ [];
        })
        (in_state ContributorState.conflicted rec)
  after_report none report contribution rec base p =
      after_provenance report contribution rec p (with_provenance report rec base p)

  -- the branches on what `Apply` returns
  unfoldable pub after_apply :
      ApplyAnswer → Contribution → ContributorStatus → Option Fields → Pass S → Turn S
  unfolding with_provenance
  after_apply absent contribution rec base p =
      kept (record p { target_exists = false }) (in_state ContributorState.unset rec)
  after_apply concurrent contribution rec base p = halted p requeued
  after_apply (failure message) contribution rec base p = halted p (apply_failed message)
  after_apply (answered report) contribution rec base p =
      after_report report.conflict report contribution rec base p

  abbrev pub request_of : ContributorRecord → Contribution → Fields → Option Fields → Request
  request_of c contribution priors base = record {
    target = target;
    contribution = contribution;
    field_manager = c.status.field_manager;
    conflict_policy = c.contributor.spec.apply.conflict_policy;
    merge_keys = c.contributor.spec.patch.merge_keys;
    previous_paths = or_fresh (parse_paths c.status.owned_paths);
    prior_values = priors;
    prior_values_captured = c.status.prior_values_captured;
    base = base;
    allow_create = may_create c.contributor.spec.lifecycle.on_missing;
  }

  abbrev pub apply_with :
      Applier S → ContributorRecord → Contribution → Fields → Option Fields → Pass S → Turn S
  apply_with applier c contribution priors base p =
      let (s, answer) = applier.apply p.world (request_of c contribution priors base) in
      after_apply answer contribution c.status base (record p { world = s })

  -- a base that cannot be decoded is a conflict of this contributor alone
  abbrev pub on_base :
      Option (Option Fields)
      → Applier S
      → ContributorRecord
      → Contribution
      → Fields
      → Pass S
      → Turn S
  on_base none applier c contribution priors p =
      kept p (in_state ContributorState.conflicted c.status)
  on_base (some base) applier c contribution priors p =
      apply_with applier c contribution priors base p

  abbrev pub on_priors :
      Option Fields → Applier S → ContributorRecord → Contribution → Pass S → Turn S
  on_priors none applier c contribution p = halted p broken
  on_priors (some priors) applier c contribution p =
      on_base (base_for outside c.contributor.spec.base) applier c contribution priors p

  abbrev pub on_superseded :
      Option Text
      → Applier S
      → ContributorRecord
      → Contribution
      → List (Text × List ℕ)
      → Pass S
      → Turn S
  on_superseded (some holder) applier c contribution visited p =
      kept
        (record p { any_conflict = true; conflicts = append_conflict p.conflicts visited c holder })
        (in_state ContributorState.superseded c.status)
  on_superseded none applier c contribution visited p =
      on_priors (decode_prior_values outside c.status.prior_values) applier c contribution p

  abbrev pub on_applier :
      Option (Applier S)
      → ℕ
      → List ContributorRecord
      → List (Text × List ℕ)
      → ContributorRecord
      → Contribution
      → Pass S
      → Turn S
  on_applier none i active path_claims c contribution p =
      kept p (in_state ContributorState.conflicted c.status)
  on_applier (some applier) i active path_claims c contribution p =
      on_superseded (is_superseded_on c active (outside.visit (2 * i) path_claims)) applier c
        contribution (outside.visit (2 * i + 1) path_claims) p

  -- the body of the loop
  unfoldable pub turn :
      ℕ
      → List ContributorRecord
      → List (Text × List ℕ)
      → ContributorRecord
      → Contribution
      → Pass S
      → Turn S
  unfolding after_apply
  turn i active path_claims c contribution p =
      on_applier (applier_for outside c.contributor) i active path_claims c contribution p
