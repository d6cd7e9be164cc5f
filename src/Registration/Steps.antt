-- ===== src/Registration/Steps.antt =====
-- internal/controller: runs of the controllers, as steps of the cluster.
use patch_operator.Base.{ℕ, ◌≡◌, ◌⊎◌, true, false, Option, none, some, List, [], ◌∷◌, Text}
use patch_operator.Api.{Contributor, ContributorRef}
use patch_operator.Api.Status.{PromotionRef, TrackerStatus, is_fenced}
use patch_operator.Scope.{TargetKey}
use patch_operator.Scope.Names.{tracker_name}
use patch_operator.Tracker.Lifecycle.{
  Act, adds_finalizer, removes_finalizer, deletes_tracker, writes_status, Reply, not_found, Object,
  finish_promotion, Reconciled, reconcile,
}
use patch_operator.Render.{Target}
use patch_operator.Tracker.Writes.{World, landed, provenance_mutation}
use patch_operator.Tracker.Records.{ContributorRecord}
use patch_operator.Tracker.Appliers.{Outside}
use patch_operator.Tracker.Pass.Unfenced.{ShowsFree}
use patch_operator.Registration.Calls.{Tracked, ObjectKey, cluster_shared_resource, ApiServer}
use patch_operator.Registration.{ensure_tracker}

-- What can have become of a tracker after some acts on it: each may have been done or not, and to
-- drop the finalizer or to delete may remove it.
abbrev pub Became : List Act → Tracked → Option Tracked → Type 0
Became [] t o = o ≡ some t
Became (adds_finalizer ∷ acts) t o =
    Became acts t o ⊎ Became acts (record t { has_finalizer = true }) o
Became (removes_finalizer ∷ acts) t o =
    (o ≡ none) ⊎ (Became acts t o ⊎ Became acts (record t { has_finalizer = false }) o)
Became (deletes_tracker ∷ acts) t o =
    (o ≡ none) ⊎ (Became acts t o ⊎ Became acts (record t { deleting = true }) o)
Became (writes_status st ∷ acts) t o = Became acts t o ⊎ Became acts (record t { status = st }) o

-- the reconciler's copy of a tracker
abbrev pub copy_of : ℕ → Tracked → Object
copy_of version t = record {
  memory = record { version = version; status = t.status };
  deleting = t.deleting;
  has_finalizer = t.has_finalizer;
}

-- What a reconciliation of a tracker that is not fenced can have left of its status: the one before,
-- the one with the creator of the target, or the one of the status write that has landed.
abbrev pub Leaves : {X : Type 0} → Reconciled X → Tracked → TrackerStatus → Type 0
Leaves r t st =
    (st ≡ t.status)
    ⊎ (((creator : ContributorRef) × ((base_hash : Text) × (st
              ≡ provenance_mutation creator base_hash t.status)))
        ⊎ ((at : ℕ) × (r.write ≡ some (landed at st))))

module _ {X W : Type 0} (outside : Outside X W) {S : Type 0} (api : ApiServer S)
    (live : S → ObjectKey → Option Tracked) (message : ℕ → Text) (digest : Text → Text)
    (key : TargetKey) where
  -- A run of a controller, as a step of the cluster. A contributor registers with any target: if
  -- the trackers of that target have the name of those of `key`, then the namespace is the same. A
  -- fenced tracker finishes its promotion, and takes its successor for missing only if it is. Any
  -- other tracker reconciles, while the API server shows no fence on it, and may vanish.
  pub data Step : S → S → Type 0 where
    registers :
        (now : ℕ) (s : S) (c : Contributor) (at : TargetKey)
        → (tracker_name digest at ≡ tracker_name digest key → at.namespace ≡ key.namespace)
        → Step s (ensure_tracker api now message digest c at s).0
    finishes :
        (s s' : S) (k : ObjectKey) (t : Tracked) (ref : PromotionRef)
        → (version : ℕ) (reply : Act → Reply) (successor : Reply) → live s k ≡ some t
        → t.status.promoted_to ≡ some ref
        → (successor ≡ not_found → live s (cluster_shared_resource ref.name) ≡ none)
        → Became (finish_promotion reply (copy_of version t) successor s).acts t (live s' k)
        → ((j : ObjectKey) → (j ≡ k) ⊎ (live s' j ≡ live s j))
        → Step s s'
    reconciles :
        (s s' : S) (k : ObjectKey) (t : Tracked) (x : X) (target : Target) (world : World)
        → (version attempts at : ℕ) (version_after : ℕ → ℕ) (reply : Act → Reply)
        → (successor : Reply) (listed : Option (List ContributorRecord)) → live s k ≡ some t
        → is_fenced t.status ≡ false
        → ShowsFree world
        → ((u : Tracked)
            → live s' k ≡ some u
            → Leaves
                (reconcile reply outside target world version_after attempts at successor
                  (copy_of version t)
                  listed
                  x)
                t
                u.status)
        → ((j : ObjectKey) → (j ≡ k) ⊎ (live s' j ≡ live s j))
        → Step s s'

  pub data Reach (s : S) : S → Type 0 where
    here : Reach s s
    next : {t u : S} → Reach s t → Step t u → Reach s u
