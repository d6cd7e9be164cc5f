-- ===== src/Tracker/Withdraw.antt =====
-- internal/controller/tracker_controller.go: `splitReleasing`, `releaseContributor` and
-- `maybeDeleteTarget`.
pub mod Laws
use patch_operator.Base.{
  Bool, true, false, ◌&&◌, ◌||◌, Option, none, some, is_none, List, [], ◌∷◌, ◌++◌, Text,
  if◌then◌else◌,
}
use patch_operator.Api.{OnRelease, ContributorRef, Contributor}
use patch_operator.Api.Refs.{same_contributor}
use patch_operator.Api.Status.{TrackerStatus}
use patch_operator.FieldPath.{FieldPath}
use patch_operator.Json.{Fields}
use patch_operator.Render.{Target, parse_paths}
use patch_operator.Tracker.Records.{ContributorRecord}
use patch_operator.Tracker.Appliers.{
  Applier, RevertRequest, Outside, applier_for, decode_prior_values,
}

-- `splitReleasing`: the contributors that are being deleted, and the active ones
unfoldable pub split_releasing :
    List ContributorRecord → List ContributorRecord × List ContributorRecord
split_releasing [] = ([], [])
split_releasing (c ∷ cs) =
    let (releasing, active) = split_releasing cs in
    if c.contributor.deleting then (c ∷ releasing, active) else (releasing, c ∷ active)

abbrev pub is_orphan : OnRelease → Bool
is_orphan OnRelease.orphan = true
is_orphan policy = false

abbrev pub is_delete_policy : OnRelease → Bool
is_delete_policy OnRelease.delete = true
is_delete_policy policy = false

-- A record asks for the deletion of the target, and is of the creator.
abbrev pub asks_as : ContributorRef → ContributorRecord → Bool
asks_as creator c =
    is_delete_policy c.contributor.spec.lifecycle.on_release
    && same_contributor c.status.patch_ref creator

-- the loop that looks for the creator
unfoldable pub wants_delete : ContributorRef → List ContributorRecord → Bool
wants_delete creator [] = false
wants_delete creator (c ∷ cs) = if asks_as creator c then true else wants_delete creator cs

module _ {S W : Type 0} (outside : Outside S W) (target : Target) where
  abbrev pub revert_with :
      S
      → ContributorRecord
      → Option (Applier S)
      → Option (List FieldPath)
      → Option Fields
      → S × Bool
  revert_with s c (some applier) (some paths) (some priors) = applier.revert s record {
    target = target;
    field_manager = c.status.field_manager;
    owned_paths = paths;
    prior_values = priors;
  }
  revert_with s c applier paths priors = (s, false)

  -- `releaseContributor`; false is an error
  unfoldable pub release_contributor : S → ContributorRecord → S × Bool
  release_contributor s c =
      if is_orphan c.contributor.spec.lifecycle.on_release
      then (s, true)
      else revert_with s c (applier_for outside c.contributor) (parse_paths c.status.owned_paths)
          (decode_prior_values outside c.status.prior_values)

  abbrev pub go_on : (S → S × Bool) → S × Bool → S × Bool
  go_on next (s, true) = next s
  go_on next (s, false) = (s, false)

  -- the loop over the contributors that are released; it ends at the first error
  unfoldable pub release_all : List ContributorRecord → S → S × Bool
  unfolding release_contributor
  release_all [] s = (s, true)
  release_all (c ∷ cs) s = go_on (release_all cs) (release_contributor s c)

  abbrev pub delete_for : Option ContributorRef → List ContributorRecord → S → S × Bool
  delete_for none cs s = (s, true)
  delete_for (some creator) cs s =
      if wants_delete creator cs then outside.delete_target s target else (s, true)

  -- `maybeDeleteTarget`
  unfoldable pub maybe_delete_target : TrackerStatus → List ContributorRecord → S → S × Bool
  unfolding wants_delete
  maybe_delete_target status cs s =
      if status.created_by_operator then delete_for status.creator_patch_ref cs s else (s, true)
