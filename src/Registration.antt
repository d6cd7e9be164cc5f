-- ===== src/Registration.antt =====
-- internal/controller/contributor_controller.go: `ensureTracker`. `digest` is the hexadecimal
-- SHA-256, in the names of the trackers.
pub mod Calls
pub mod Promote
pub mod Writes
pub mod Fence
pub mod Promoted
pub mod OneWriter
pub mod Steps
pub mod Acts
pub mod Keeps
pub mod Reach
pub mod Handed
pub mod Completes
pub mod Samples
mod Tests
use patch_operator.Base.{
  ℕ, Bool, true, false, ◌&&◌, not, Option, none, some, [], Text, ◌==◌, if◌then◌else◌,
}
use patch_operator.Api.{TrackerRef, Contributor}
use patch_operator.Api.Refs.{kind_shared_resource, kind_cluster_shared_resource}
use patch_operator.Api.Status.{PromotionRef}
use patch_operator.Scope.{TargetKey, is_cluster_scoped_target, tracker_kind_for, tracker_namespace}
use patch_operator.Scope.Names.{tracker_name}
use patch_operator.Registration.Calls.{
  Tracked, ObjectKey, shared_resource, cluster_shared_resource, Read, found, nothing, unread,
  WriteReply, accepted, existing, vanished, unsent, ApiServer,
}
use patch_operator.Registration.Promote.{new_tracker, promote_if_needed}

-- the object that a reference names, by `emptyTracker`; none is an unknown kind
unfoldable pub object_of : TrackerRef → Option ObjectKey
object_of ref =
    if ref.kind == kind_shared_resource
    then some (shared_resource ref.namespace ref.name)
    else if ref.kind == kind_cluster_shared_resource
    then some (cluster_shared_resource ref.name)
    else none

abbrev pub cluster_ref : Text → TrackerRef
cluster_ref name = record { kind = kind_cluster_shared_resource; name = name; namespace = [] }

-- the tracker that the fence of another points to, or that other one
abbrev pub follow : TrackerRef → Option PromotionRef → TrackerRef
follow ref none = ref
follow ref (some successor) = cluster_ref successor.name

-- the reference that `TrackerKindFor` and `TrackerNamespace` lead to
unfoldable pub own_tracker : Text → Bool → TargetKey → TrackerRef
own_tracker name cluster_scoped key = record {
  kind = tracker_kind_for key cluster_scoped;
  name = name;
  namespace = tracker_namespace (tracker_kind_for key cluster_scoped) key;
}

module _ {S : Type 0} (api : ApiServer S) (now : ℕ) (message : ℕ → Text) where
  abbrev pub created : TrackerRef → S × WriteReply → S × Option TrackerRef
  created ref (s, accepted) = (s, some ref)
  created ref (s, existing) = (s, some ref)
  created ref (s, vanished) = (s, none)
  created ref (s, unsent) = (s, none)

  abbrev pub tracker_read : TrackerRef → ObjectKey → TargetKey → S → Read → S × Option TrackerRef
  tracker_read ref k key s (found t) = (s, some (follow ref t.status.promoted_to))
  tracker_read ref k key s nothing = created ref (api.create s k (new_tracker key))
  tracker_read ref k key s unread = (s, none)

  abbrev pub register_at : TrackerRef → TargetKey → S → Option ObjectKey → S × Option TrackerRef
  register_at ref key s none = (s, none)
  register_at ref key s (some k) = tracker_read ref k key s (api.cached s k)

  -- the end of `ensureTracker`, from `TrackerKindFor` on
  unfoldable pub register : TrackerRef → TargetKey → S → S × Option TrackerRef
  register ref key s = register_at ref key s (object_of ref)

  abbrev pub join_read : Text → TargetKey → S → Read → S × Option TrackerRef
  join_read name key s (found t) = (s, some (cluster_ref name))
  join_read name key s nothing = register (own_tracker name false key) key s
  join_read name key s unread = (s, none)

  abbrev pub after_promotion : Text → TargetKey → S × Bool → S × Option TrackerRef
  after_promotion name key (s, true) = register (own_tracker name true key) key s
  after_promotion name key (s, false) = (s, none)

  -- `ensureTracker` of a target whose trackers have the given name
  unfoldable pub ensure_named : Text → Bool → TargetKey → S → S × Option TrackerRef
  unfolding register promote_if_needed
  ensure_named name cluster_scoped key s =
      if is_cluster_scoped_target key
      then register (own_tracker name cluster_scoped key) key s
      else if cluster_scoped
      then after_promotion name key (promote_if_needed api now message name key s)
      else join_read name key s (api.read s (cluster_shared_resource name))

  -- `ensureTracker`; none is an error
  unfoldable pub ensure_tracker :
      (Text → Text) → Contributor → TargetKey → S → S × Option TrackerRef
  unfolding ensure_named tracker_name
  ensure_tracker digest c key s = ensure_named (tracker_name digest key) c.cluster_scoped key s
