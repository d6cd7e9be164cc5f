-- ===== src/Tracker/Lifecycle.antt =====
-- internal/controller/tracker_controller.go and promotion.go: `Reconcile`, `reconcileEmpty`,
-- `reconcileDelete` and `finishPromotion`. The calls on the tracker itself are acts that the API
-- server replies to; a reconciliation makes each of them at most once. The watch of the target's
-- kind, which changes nothing of this, is left out.
pub mod Laws
pub mod Unfenced
use patch_operator.Base.{
  ℕ, Bool, true, false, ◌&&◌, not, Option, none, some, List, [], ◌∷◌, Text, if◌then◌else◌,
}
use patch_operator.Api.Status.{TrackerPhase, PromotionRef, TrackerStatus, is_fenced}
use patch_operator.Render.{Target}
use patch_operator.Tracker.Writes.{
  Versioned, World, Written, landed, gone, conflicted, failed, write_status,
}
use patch_operator.Tracker.Records.{ContributorRecord, Tracker}
use patch_operator.Tracker.Appliers.{Outside}
use patch_operator.Tracker.Withdraw.{release_all, maybe_delete_target}
use patch_operator.Tracker.Pass.{
  Returned, error, requeue, requeue_after, Passed, reconcile_contributions,
}

pub data Act : Type 0 where
  adds_finalizer removes_finalizer deletes_tracker : Act
  writes_status : TrackerStatus → Act

pub data Reply : Type 0 where
  done not_found refused : Reply

pub record Reconciled (S : Type 0) : Type 0 where
  pub world : S
  pub acts : List Act
  pub write : Option Written
  pub returned : Returned

-- the tracker as the API server has it
pub record Object : Type 0 where
  pub memory : Versioned
  pub deleting : Bool
  pub has_finalizer : Bool

-- `client.IgnoreNotFound(err)`
abbrev pub ignore_not_found : Reply → Returned
ignore_not_found done = requeue_after 0
ignore_not_found not_found = requeue_after 0
ignore_not_found refused = error

abbrev pub is_releasing : TrackerPhase → Bool
is_releasing TrackerPhase.releasing = true
is_releasing phase = false

abbrev pub is_none_listed : TrackerStatus → Bool
is_none_listed status = elim status.contributors [ [] ↦ true | c ∷ cs ↦ false ]

abbrev pub with_phase : TrackerPhase → Versioned → Versioned
with_phase phase memory = record memory { status = record memory.status { phase = phase } }

abbrev pub unfenced : TrackerStatus → TrackerStatus
unfenced status = record status { promoted_to = none; phase = TrackerPhase.applied }

module _ {S : Type 0} (reply : Act → Reply) where
  abbrev pub acted : S → List Act → Returned → Reconciled S
  acted s acts returned = record { world = s; acts = acts; write = none; returned = returned }

  -- the deletion of the tracker after the update that drops its finalizer
  abbrev pub after_update : S → Reply → Reconciled S
  after_update s done =
      acted s (removes_finalizer ∷ deletes_tracker ∷ []) (ignore_not_found (reply deletes_tracker))
  after_update s r = acted s (removes_finalizer ∷ []) (ignore_not_found r)

  abbrev pub status_written : S → Written → Reconciled S
  status_written s w = record {
    world = s;
    acts = [];
    write = some w;
    returned = elim w [
      | landed t st ↦ requeue_after 0
      | gone ↦ requeue_after 0
      | conflicted ↦ error
      | failed ↦ error
    ];
  }

  -- `reconcileEmpty`
  unfoldable pub reconcile_empty : World → ℕ → ℕ → Versioned → S → Reconciled S
  reconcile_empty world attempts t memory s =
      if is_none_listed memory.status && not (is_releasing memory.status.phase)
      then after_update s (reply removes_finalizer)
      else status_written s
          (write_status world attempts t (with_phase TrackerPhase.releasing memory) none [])

  abbrev pub retire : Bool → S → Reconciled S
  retire true s = after_update s (reply removes_finalizer)
  retire false s = acted s (deletes_tracker ∷ []) (ignore_not_found (reply deletes_tracker))

  abbrev pub unfence : S → TrackerStatus → Reply → Reconciled S
  unfence s status done = acted s (writes_status status ∷ []) requeue
  unfence s status r = acted s (writes_status status ∷ []) error

  abbrev pub finish_for : Option PromotionRef → Object → Reply → S → Reconciled S
  finish_for none o successor s = acted s [] (requeue_after 0)
  finish_for (some ref) o not_found s =
      unfence s (unfenced o.memory.status) (reply (writes_status (unfenced o.memory.status)))
  finish_for (some ref) o refused s = acted s [] error
  finish_for (some ref) o done s =
      if ref.adopted then retire o.has_finalizer s else acted s [] (requeue_after 1000)

  -- `finishPromotion`, by the reply to the read of the successor
  unfoldable pub finish_promotion : Object → Reply → S → Reconciled S
  finish_promotion o successor s = finish_for o.memory.status.promoted_to o successor s

  -- the end of `reconcileDelete`
  abbrev pub drop_finalizer : Bool → S → Reconciled S
  drop_finalizer true s =
      acted s (removes_finalizer ∷ []) (ignore_not_found (reply removes_finalizer))
  drop_finalizer false s = acted s [] (requeue_after 0)

  abbrev pub after_effect : (S → Reconciled S) → S × Bool → Reconciled S
  after_effect next (s, true) = next s
  after_effect next (s, false) = acted s [] error

  module _ {W : Type 0} (outside : Outside S W) (target : Target) where
    -- `reconcileDelete`, of the contributors that are listed; none is an error
    unfoldable pub reconcile_delete : Object → Option (List ContributorRecord) → S → Reconciled S
    reconcile_delete o none s = acted s [] error
    reconcile_delete o (some contributors) s =
        after_effect
          (λ released.
            after_effect (drop_finalizer o.has_finalizer)
              (maybe_delete_target outside target o.memory.status contributors released))
          (release_all outside target contributors s)

    module _ (world : World) (version_after : ℕ → ℕ) (attempts t : ℕ) (successor : Reply) where
      abbrev pub passed : Passed S → Reconciled S
      passed p = record { world = p.world; acts = []; write = p.write; returned = p.returned }

      -- once the finalizer stands
      abbrev pub on_listed : Object → Option (List ContributorRecord) → S → Reconciled S
      on_listed o none s = acted s [] error
      on_listed o (some []) s = reconcile_empty world attempts t o.memory s
      on_listed o (some (c ∷ cs)) s = passed (
          reconcile_contributions outside target world version_after attempts t o.memory (c ∷ cs) s)

      abbrev pub add_finalizer : S → Reply → Reconciled S
      add_finalizer s done = acted s (adds_finalizer ∷ []) requeue
      add_finalizer s r = acted s (adds_finalizer ∷ []) error

      -- `Reconcile`, of a tracker that is there, by what `listContributors` returns
      unfoldable pub reconcile : Object → Option (List ContributorRecord) → S → Reconciled S
      unfolding finish_promotion reconcile_delete reconcile_empty
      reconcile o listed s =
          if is_fenced o.memory.status
          then finish_promotion o successor s
          else if o.deleting
          then reconcile_delete o listed s
          else if o.has_finalizer
          then on_listed o listed s
          else add_finalizer s (reply adds_finalizer)
