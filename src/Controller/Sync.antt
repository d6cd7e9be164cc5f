-- ===== src/Controller/Sync.antt =====
-- internal/controller/contributor_controller.go: `syncStatus`. `sprintf` is `fmt.Sprintf` of a format
-- and its numbers.
pub mod Tally
pub mod Ready
use patch_operator.Base.{
  ℕ, suc, ◌+◌, Bool, true, false, Option, none, some, List, [], ◌∷◌, ◌++◌, Text, codes, length, ltb,
  if◌then◌else◌,
}
use patch_operator.Api.{
  Condition, ConditionStatus, yes_status, no_status, ContributorState, TrackerRef, ContributorRef,
}
use patch_operator.Api.Conditions.{set_condition}
use patch_operator.Api.PatchStatus.{TargetStatus, PatchStatus, PatchObject}
use patch_operator.Api.Refs.{contributor_ref_of}
use patch_operator.Api.Status.{ContributorStatus, find_contributor}
use patch_operator.Scope.{TargetKey}
use patch_operator.Registration.Calls.{Tracked, ObjectKey, Read, found, nothing, unread, ApiServer}
use patch_operator.Registration.{object_of}

-- `setCond`
unfoldable pub set_cond : ℕ → Text → ConditionStatus → Text → Text → PatchStatus → PatchStatus
set_cond now type cond reason message status = record status {
  conditions =
      set_condition now
        (record {
          type = type;
          status = cond;
          reason = reason;
          message = message;
          last_transition_time = 0;
        })
        status.conditions;
}

-- `boolCondition`
abbrev pub bool_condition : Bool → ConditionStatus
bool_condition true = yes_status
bool_condition false = no_status

-- the targets in each state
pub record StateCounts : Type 0 where
  pub applied : ℕ
  pub conflicted : ℕ
  pub superseded : ℕ
  pub waiting : ℕ

abbrev pub no_counts : StateCounts
no_counts = record { applied = 0; conflicted = 0; superseded = 0; waiting = 0 }

abbrev pub count_waiting : StateCounts → StateCounts
count_waiting n = record n { waiting = suc n.waiting }

abbrev pub count_state : ContributorState → StateCounts → StateCounts
count_state ContributorState.applied n = record n { applied = suc n.applied }
count_state ContributorState.conflicted n = record n { conflicted = suc n.conflicted }
count_state ContributorState.superseded n = record n { superseded = suc n.superseded }
count_state ContributorState.releasing n = count_waiting n
count_state ContributorState.unset n = count_waiting n

abbrev pub count_record : Option ContributorStatus → StateCounts → StateCounts
count_record none n = count_waiting n
count_record (some rec) n = count_state rec.state n

abbrev pub recorded_state : Option ContributorStatus → ContributorState
recorded_state none = ContributorState.unset
recorded_state (some rec) = rec.state

abbrev pub target_status : TargetKey → Text → ContributorState → TargetStatus
target_status key uid state = record {
  api_version = key.api_version;
  kind = key.kind;
  name = key.name;
  namespace = key.namespace;
  uid = uid;
  state = state;
}

-- the answer to the read of one tracker; none is an error
abbrev pub count_read : ContributorRef → Read → StateCounts → Option StateCounts
count_read ref (found t) n = some (count_record (find_contributor t.status ref) n)
count_read ref nothing n = some (count_waiting n)
count_read ref unread n = none

abbrev pub observed_read : ContributorRef → TargetKey → Read → TargetStatus
observed_read ref key (found t) =
    target_status key t.status.observed_target_uid (recorded_state (find_contributor t.status ref))
observed_read ref key _ = target_status key [] ContributorState.unset

module _ {S : Type 0} (api : ApiServer S) where
  abbrev pub read_at : S → Option ObjectKey → Read
  read_at s none = unread
  read_at s (some k) = api.cached s k

  -- `getTracker`
  unfoldable pub get_tracker : S → TrackerRef → Read
  get_tracker s ref = read_at s (object_of ref)

  abbrev pub counted_with :
      (StateCounts → Option StateCounts) → Option StateCounts → Option StateCounts
  counted_with go none = none
  counted_with go (some n) = go n

  -- the counts of the loop
  unfoldable pub count_all :
      S → ContributorRef → List TargetKey → List TrackerRef → StateCounts → Option StateCounts
  count_all s ref [] trackers n = some n
  count_all s ref (key ∷ keys) [] n = count_all s ref keys [] n
  count_all s ref (key ∷ keys) (tracker ∷ trackers) n =
      counted_with (count_all s ref keys trackers) (count_read ref (get_tracker s tracker) n)

  -- the targets that the loop observes
  unfoldable pub observe_all :
      S → ContributorRef → List TargetKey → List TrackerRef → List TargetStatus
  observe_all s ref [] trackers = []
  observe_all s ref (key ∷ keys) [] =
      target_status key [] ContributorState.unset ∷ observe_all s ref keys []
  observe_all s ref (key ∷ keys) (tracker ∷ trackers) =
      observed_read ref key (get_tracker s tracker) ∷ observe_all s ref keys trackers

  module _ (now : ℕ) (sprintf : Text → List ℕ → Text) where
    abbrev pub not_ready : Text → Text → PatchStatus → PatchStatus
    not_ready reason message status = set_cond now (codes "Ready") no_status reason message status

    -- the switch that decides on Ready
    unfoldable pub with_ready : ℕ → ℕ → StateCounts → PatchStatus → PatchStatus
    unfolding set_cond
    with_ready generation total n status =
        if ltb total 1
        then not_ready (codes "WaitingForTarget") (codes "no targets resolved") status
        else if ltb 0 n.conflicted
        then not_ready (codes "Conflict")
            (sprintf (codes "%d of %d targets have an unresolved field conflict")
              (n.conflicted ∷ total ∷ []))
            status
        else if ltb 0 n.superseded
        then not_ready (codes "Superseded")
            (sprintf
              (codes
                "a higher-priority contributor holds contested fields on %d of %d targets; this contribution is not present")
              (n.superseded ∷ total ∷ []))
            status
        else if ltb 0 n.waiting
        then not_ready (codes "WaitingForTarget")
            (sprintf (codes "%d of %d targets not yet applied") (n.waiting ∷ total ∷ [])) status
        else record (set_cond now (codes "Ready") yes_status (codes "Applied")
            (sprintf (codes "applied to %d target(s)") (n.applied ∷ [])) status) {
              applied_generation = generation;
            }

    abbrev pub synced_as :
        PatchObject
        → List TargetStatus
        → List TrackerRef
        → ℕ
        → Option StateCounts
        → Option PatchObject
    synced_as o observed trackers total none = none
    synced_as o observed trackers total (some n) = some (record o {
      contributor = record o.contributor { shared_resource_refs = trackers };
      status = set_cond now (codes "Synced") yes_status (codes "ReconcileSuccess") [] (
          set_cond now (codes "Conflict") (bool_condition (ltb 0 n.conflicted)) (codes "Conflict")
            []
            (with_ready o.contributor.generation total n
              record o.status { observed_targets = observed }));
    })

    -- `syncStatus` up to the write of the object that it returns; none is an error
    unfoldable pub sync_status :
        PatchObject → List TargetKey → List TrackerRef → S → Option PatchObject
    unfolding with_ready set_cond count_all observe_all
    sync_status o keys trackers s =
        let ref = contributor_ref_of o.contributor in
        synced_as o (observe_all s ref keys trackers) trackers (length keys)
          (count_all s ref keys trackers no_counts)
