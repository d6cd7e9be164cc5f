-- ===== src/Controller/Reconcile.antt =====
-- internal/controller/contributor_controller.go: `Reconcile`. The writes of the contributor itself
-- are listed in their order; `lands` tells of each whether the API server accepts it.
pub mod Guards
pub mod Kept
pub mod Permissions
pub mod Denied
use patch_operator.Base.{
  ℕ, Bool, true, false, Option, none, some, List, [], ◌∷◌, ◌++◌, Text, codes, if◌then◌else◌,
}
use patch_operator.Api.{no_status, LabelSelector, TrackerRef, Contributor}
use patch_operator.Api.Identity.{UserInfo}
use patch_operator.Api.PatchStatus.{PatchStatus, PatchObject}
use patch_operator.Scope.{TargetKey}
use patch_operator.Scope.Validate.{IsNamespacedKind, FieldError, validate}
use patch_operator.Tracker.Pass.{Returned, error, requeue, requeue_after}
use patch_operator.Registration.Calls.{ApiServer}
use patch_operator.Registration.{ensure_tracker}
use patch_operator.Controller.Sync.{set_cond, sync_status}
use patch_operator.Controller.Release.{Deletion, over, waits, releases, reconcile_deleted}
use patch_operator.Controller.Reauthorize.{
  Reauthorizer, Reauthorized, unchanged, rewritten, reauthorize,
}
use patch_operator.Controller.{ListObjects, Resolution, resolved, too_many, resolve_targets}

-- `Client.Update` and `Client.Status().Update`
pub data PatchWrite : Type 0 where
  updates : PatchObject → PatchWrite
  updates_status : PatchObject → PatchWrite

-- the reply to a write: none, NotFound or another error
pub data Landing : Type 0 where
  lands is_gone refused : Landing

pub record Run (S : Type 0) : Type 0 where
  pub world : S
  pub writes : List PatchWrite
  pub returned : Returned

-- what of the operator's environment a reconciliation asks
pub record Environment : Type 0 where
  pub parse_group : Text → Option Text
  pub valid_selector : LabelSelector → Bool
  pub list_objects : ListObjects
  pub list_namespaces : LabelSelector → Option (List Text)
  pub lookup : Option IsNamespacedKind
  pub decode_identity : Text → Option UserInfo
  pub digest : Text → Text
  pub sprintf : Text → List ℕ → Text
  pub adopted_message : ℕ → Text
  pub errors_text : List FieldError → Text
  pub resolution_text : Resolution → Text
  pub landing : PatchWrite → Landing

abbrev pub returned_unless : Returned → Landing → Returned
returned_unless next lands = next
returned_unless next is_gone = error
returned_unless next refused = error

-- `client.IgnoreNotFound` of the error of an update
abbrev pub returned_if_there : Landing → Returned
returned_if_there lands = requeue_after 0
returned_if_there is_gone = requeue_after 0
returned_if_there refused = error

-- `setStatusError` up to its write, and `setInvalid`, whose reason it is
unfoldable pub with_status_error : ℕ → Text → PatchObject → PatchObject
unfolding set_cond
with_status_error now message o = record o {
  status =
      set_cond now (codes "Synced") no_status (codes "InvalidSpec") message
        (set_cond now (codes "Ready") no_status (codes "InvalidSpec") message o.status);
}

abbrev pub with_finalizer : Bool → PatchObject → PatchObject
with_finalizer b o = record o { has_finalizer = b }

module _ {S : Type 0} (api : ApiServer S) (env : Environment) (after now : ℕ) where
  abbrev pub at_rest : S → Returned → Run S
  at_rest s returned = record { world = s; writes = []; returned = returned }

  -- a run that ends with the write of a status
  abbrev pub ends_with : S → List PatchWrite → PatchObject → Returned → Run S
  ends_with s writes o next = record {
    world = s;
    writes = writes ++ updates_status o ∷ [];
    returned = returned_unless next (env.landing (updates_status o));
  }

  abbrev pub onto_refs : TrackerRef → S × Option (List TrackerRef) → S × Option (List TrackerRef)
  onto_refs ref (s, none) = (s, none)
  onto_refs ref (s, some refs) = (s, some (ref ∷ refs))

  abbrev pub then_all :
      (S → S × Option (List TrackerRef)) → S × Option TrackerRef → S × Option (List TrackerRef)
  then_all go (s, none) = (s, none)
  then_all go (s, some ref) = onto_refs ref (go s)

  -- the loop over the targets; none is an error
  unfoldable pub ensure_all : Contributor → List TargetKey → S → S × Option (List TrackerRef)
  ensure_all c [] s = (s, some [])
  ensure_all c (key ∷ keys) s =
      then_all (ensure_all c keys) (ensure_tracker api now env.adopted_message env.digest c key s)

  abbrev pub synced : List PatchWrite → ℕ → S → Option PatchObject → Run S
  synced writes wait s none = record { world = s; writes = writes; returned = error }
  synced writes wait s (some o) = ends_with s writes o (requeue_after wait)

  abbrev pub after_ensure :
      List PatchWrite → ℕ → PatchObject → List TargetKey → S × Option (List TrackerRef) → Run S
  after_ensure writes wait o keys (s, none) = record {
    world = s;
    writes = writes;
    returned = error;
  }
  after_ensure writes wait o keys (s, some trackers) =
      synced writes wait s (sync_status api now env.sprintf o keys trackers s)

  abbrev pub after_resolve : List PatchWrite → ℕ → PatchObject → S → Resolution → Run S
  after_resolve writes wait o s (resolved keys) =
      after_ensure writes wait o keys (ensure_all o.contributor keys s)
  after_resolve writes wait o s r =
      ends_with s writes (with_status_error now (env.resolution_text r) o) (requeue_after 0)

  -- once the identity has been checked again
  unfoldable pub register_all : List PatchWrite → ℕ → PatchObject → S → Run S
  unfolding ensure_all with_status_error
  register_all writes wait o s = after_resolve writes wait o s (
      resolve_targets env.parse_group env.valid_selector env.list_objects env.list_namespaces
        o.contributor)

  abbrev pub after_rewrite : ℕ → PatchObject → S → Landing → Run S
  after_rewrite wait o s lands = register_all (updates_status o ∷ []) wait o s
  after_rewrite wait o s landing = record {
    world = s;
    writes = updates_status o ∷ [];
    returned = error;
  }

  abbrev pub after_reauthorize : PatchObject → S → Reauthorized → Run S
  after_reauthorize o s (unchanged wait) = register_all [] wait o s
  after_reauthorize o s (rewritten wait o') =
      after_rewrite wait o' s (env.landing (updates_status o'))
  after_reauthorize o s _ = at_rest s error

  abbrev pub after_delete : PatchObject → S → Deletion → Run S
  after_delete o s over = at_rest s (requeue_after 0)
  after_delete o s waits = at_rest s (requeue_after 2000)
  after_delete o s releases = record {
    world = s;
    writes = updates (with_finalizer false o) ∷ [];
    returned = returned_if_there (env.landing (updates (with_finalizer false o)));
  }
  after_delete o s _ = at_rest s error

  abbrev pub add_finalizer_to : PatchObject → S → Run S
  add_finalizer_to o s = record {
    world = s;
    writes = updates (with_finalizer true o) ∷ [];
    returned = returned_unless requeue (env.landing (updates (with_finalizer true o)));
  }

  abbrev pub if_valid : PatchObject → S → List FieldError → Run S → Run S
  if_valid o s [] next = next
  if_valid o s (e ∷ errors) next =
      ends_with s [] (with_status_error now (env.errors_text (e ∷ errors)) o) (requeue_after 0)

  -- `Reconcile`, of a contributor that is there
  unfoldable pub reconcile_patch : Option Reauthorizer → PatchObject → S → Run S
  unfolding register_all with_status_error reconcile_deleted reauthorize
  reconcile_patch authorizer o s =
      if o.contributor.deleting
      then after_delete o s (reconcile_deleted api o s)
      else if_valid o s (validate env.lookup o.contributor) (
          if o.has_finalizer
          then after_reauthorize o s (reauthorize env.decode_identity after now authorizer o)
          else add_finalizer_to o s)
