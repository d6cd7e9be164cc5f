-- ===== src/Registration/Promote.antt =====
-- internal/controller/promotion.go: `promoteIfNeeded` and `createSuccessor`. Each
-- `RetryOnConflict` is one attempt: nobody else writes during a run, so that a conflict is one of the
-- errors of a write.
use patch_operator.Base.{ℕ, Bool, true, false, Option, none, some, [], Text, codes, if◌then◌else◌}
use patch_operator.Api.{no_status}
use patch_operator.Api.Status.{TrackerPhase, PromotionRef, TrackerStatus, is_fenced}
use patch_operator.Scope.{TargetKey}
use patch_operator.Tracker.Pass.Step.{with_condition}
use patch_operator.Promotion.{adopt_status}
use patch_operator.Registration.Calls.{
  Tracked, ObjectKey, shared_resource, cluster_shared_resource, Read, found, nothing, unread,
  WriteReply, accepted, existing, vanished, unsent, ApiServer,
}

abbrev pub promoting_message : Text
promoting_message =
    codes "a ClusterResourcePatch joined this target; migrating to a ClusterSharedResource"

-- the fence, in the status of the namespaced tracker
unfoldable pub fenced_tracker : ℕ → Text → Tracked → Tracked
fenced_tracker now name t = record t {
  status =
      with_condition now (codes "Synced") no_status (codes "Promoting") promoting_message
        (record t.status {
          promoted_to = some (record { name = name; adopted = false });
          phase = TrackerPhase.promoting;
        });
}

-- what `fenceErr` is: none, NotFound or another
pub data Fencing : Type 0 where
  stands no_tracker unfenced_still : Fencing

abbrev pub fencing_of : WriteReply → Fencing
fencing_of accepted = stands
fencing_of vanished = no_tracker
fencing_of existing = unfenced_still
fencing_of unsent = unfenced_still

abbrev pub is_accepted : WriteReply → Bool
is_accepted accepted = true
is_accepted sent = false

-- the status of a tracker that has met nobody
abbrev pub fresh_status : TrackerStatus
fresh_status = record {
  phase = TrackerPhase.unset;
  conditions = [];
  promoted_to = none;
  created_by_operator = false;
  creator_patch_ref = none;
  observed_base_hash = [];
  observed_target_uid = [];
  observed_resource_version = [];
  contributors = [];
  contributor_count = 0;
  conflicts = [];
}

-- a tracker as `newTracker` and `AddFinalizer` make it
abbrev pub new_tracker : TargetKey → Tracked
new_tracker key = record {
  target = key;
  has_finalizer = true;
  deleting = false;
  status = fresh_status;
}

abbrev pub adopted_flag : Option PromotionRef → Bool
adopted_flag none = false
adopted_flag (some ref) = ref.adopted

-- the flag of an adoption, set
abbrev pub flagged : PromotionRef → Tracked → Tracked
flagged ref t = record t {
  status = record t.status { promoted_to = some (record ref { adopted = true }) };
}

module _ {S : Type 0} (api : ApiServer S) (now : ℕ) (message : ℕ → Text) where
  abbrev pub fence_found : ObjectKey → Text → S → Tracked → S × Fencing
  fence_found k name s t = if is_fenced t.status then (s, stands) else (
    (api.write_status s k (fenced_tracker now name t)).0,
    fencing_of (api.write_status s k (fenced_tracker now name t)).1,
  )

  abbrev pub fence_read : ObjectKey → Text → S → Read → S × Fencing
  fence_read k name s (found t) = fence_found k name s t
  fence_read k name s nothing = (s, no_tracker)
  fence_read k name s unread = (s, unfenced_still)

  -- the first step of `promoteIfNeeded`
  unfoldable pub fence : ObjectKey → Text → S → S × Fencing
  fence k name s = fence_read k name s (api.read s k)

  abbrev pub written_well : S × WriteReply → S × Bool
  written_well (s, sent) = (s, is_accepted sent)

  abbrev pub copy_read : ObjectKey → TrackerStatus → S → Read → S × Bool
  copy_read k old s (found t) =
      written_well
        (api.write_status s k (record t { status = adopt_status now message t.status old }))
  copy_read k old s nothing = (s, false)
  copy_read k old s unread = (s, false)

  -- the copy of `createSuccessor`
  unfoldable pub copy_status : ObjectKey → TrackerStatus → S → S × Bool
  copy_status k old s = copy_read k old s (api.read s k)

  abbrev pub after_create : ObjectKey → TrackerStatus → S × WriteReply → S × Bool
  after_create k old (s, accepted) = copy_status k old s
  after_create k old (s, existing) = copy_status k old s
  after_create k old (s, vanished) = (s, false)
  after_create k old (s, unsent) = (s, false)

  abbrev pub successor_read : ObjectKey → TargetKey → TrackerStatus → S → Read → S × Bool
  successor_read k key old s (found t) = copy_status k old s
  successor_read k key old s nothing = after_create k old (api.create s k (new_tracker key))
  successor_read k key old s unread = (s, false)

  -- `createSuccessor`; true is no error
  unfoldable pub create_successor : ObjectKey → TargetKey → TrackerStatus → S → S × Bool
  create_successor k key old s =
      if adopted_flag old.promoted_to
      then (s, true)
      else successor_read k key old s (api.cached s k)

  abbrev pub flag_found : ObjectKey → S → Tracked → Option PromotionRef → S × Bool
  flag_found k s t none = (s, true)
  flag_found k s t (some ref) =
      if ref.adopted then (s, true) else written_well (api.write_status s k (flagged ref t))

  abbrev pub flag_read : ObjectKey → S → Read → S × Bool
  flag_read k s (found t) = flag_found k s t t.status.promoted_to
  flag_read k s nothing = (s, true)
  flag_read k s unread = (s, false)

  -- the third step of `promoteIfNeeded`
  unfoldable pub flag_adoption : ObjectKey → S → S × Bool
  flag_adoption k s = flag_read k s (api.read s k)

  abbrev pub after_successor : ObjectKey → S × Bool → S × Bool
  after_successor k (s, true) = flag_adoption k s
  after_successor k (s, false) = (s, false)

  abbrev pub fenced_read : ObjectKey → ObjectKey → TargetKey → S → Read → S × Bool
  fenced_read n c key s (found old) = after_successor n (create_successor c key old.status s)
  fenced_read n c key s nothing = (s, true)
  fenced_read n c key s unread = (s, false)

  abbrev pub after_fence : ObjectKey → ObjectKey → TargetKey → S × Fencing → S × Bool
  after_fence n c key (s, stands) = fenced_read n c key s (api.read s n)
  after_fence n c key (s, no_tracker) = (s, true)
  after_fence n c key (s, unfenced_still) = (s, false)

  -- `promoteIfNeeded` of a target whose trackers have the given name
  unfoldable pub promote_if_needed : Text → TargetKey → S → S × Bool
  unfolding fence create_successor flag_adoption copy_status
  promote_if_needed name key s =
      after_fence (shared_resource key.namespace name) (cluster_shared_resource name) key
        (fence (shared_resource key.namespace name) name s)
