-- ===== src/Controller/Witnesses.antt =====
-- Runs of the contributor controller, and the witnesses on it.
use patch_operator.Base.{
  subst, ◌≡◌, ◌≢◌, ◌↔◌, ◌==◌, refl, inl, inr, true, none, some, List, [], ◌∷◌, codes, All,
}
use patch_operator.Api.{Contributor, yes_status, no_status}
use patch_operator.Api.Identity.{UserInfo}
use patch_operator.Api.PatchStatus.{PatchObject}
use patch_operator.Api.Refs.{contributor_ref_of, same_contributor}
use patch_operator.Scope.{TargetKey, target_key_for, resolve_target_namespace}
use patch_operator.Registration.Samples.{
  store_put, store_server, stored, store_server-Lawful, sample_key, sample_key-namespaced,
  no_trackers, one_tracker,
}
use patch_operator.Registration.{object_of}
use patch_operator.Registration.Keeps.{OneWriterOf}
use patch_operator.Controller.{resolved, resolve_targets}
use patch_operator.Controller.Targets.{resolved-injective}
use patch_operator.Controller.Sync.{
  sync_status, no_counts, count_all, observe_all, set_cond, with_ready, get_tracker,
}
use patch_operator.Controller.Sync.Ready.{is_ready, sync_status-is_ready}
use patch_operator.Controller.Sync.Tally.{AppliedAll}
use patch_operator.Controller.Release.{
  releases, reconcile_deleted, HasLeftAll, reconcile_deleted-releases,
}
use patch_operator.Controller.Reconcile.{reconcile_patch}
use patch_operator.Controller.Reconcile.Denied.{reconcile_patch-denied}
use patch_operator.Controller.Reconcile.Guards.{reconcile_patch-barred}
use patch_operator.Controller.Reconcile.Kept.{IsApart, reconcile_patch-OneWriter}
use patch_operator.Controller.Samples.{
  sample_tracker_ref, sample_object, leaving_object, unfinalized_object, plain_format,
  sample_environment, denies, authored_object,
}

abbrev synced_object : PatchObject
synced_object = record sample_object {
  contributor = record sample_object.contributor { shared_resource_refs = sample_tracker_ref ∷ [] };
  status = set_cond 5 (codes "Synced") yes_status (codes "ReconcileSuccess") [] (
      set_cond 5 (codes "Conflict") no_status (codes "Conflict") [] (
        with_ready store_server 5 plain_format 1 1 (record no_counts { applied = 1 })
          record sample_object.status {
            observed_targets =
                observe_all store_server (one_tracker (codes "t"))
                  (contributor_ref_of sample_object.contributor) (sample_key ∷ [])
                  (sample_tracker_ref ∷ []);
          }));
}

syncs :
    sync_status store_server 5 plain_format sample_object
      (sample_key ∷ [])
      (sample_tracker_ref ∷ [])
      (one_tracker (codes "t"))
    ≡ some synced_object
unfolding sync_status count_all get_tracker object_of store_put contributor_ref_of same_contributor
    ◌==◌
syncs = refl

sync_status-is_ready_example : (is_ready synced_object.status ≡ true) ↔ (
    (sample_key ∷ [] ≢ [])
    × AppliedAll store_server
        (one_tracker (codes "t"))
        (contributor_ref_of sample_object.contributor)
        (sample_key ∷ [])
        (sample_tracker_ref ∷ []))
sync_status-is_ready_example =
    sync_status-is_ready 5 plain_format store_server sample_object synced_object (sample_key ∷ [])
      (sample_tracker_ref ∷ []) (one_tracker (codes "t")) syncs

reconcile_deleted-releases_example :
    (reconcile_deleted store_server leaving_object no_trackers ≡ releases) ↔ (
      (true ≡ true)
      × HasLeftAll store_server no_trackers
          (contributor_ref_of leaving_object.contributor)
          (sample_tracker_ref ∷ []))
reconcile_deleted-releases_example =
    reconcile_deleted-releases store_server leaving_object no_trackers

reconcile_patch-barred_example :
    (reconcile_patch store_server sample_environment 60000 5 none unfinalized_object
      no_trackers).world
    ≡ no_trackers
reconcile_patch-barred_example =
    reconcile_patch-barred store_server sample_environment 60000 5 none unfinalized_object
      no_trackers (inr (inr refl))

answered : (user : UserInfo) (c : Contributor) → denies user c ≢ none
answered user c e = cc e

reconcile_patch-denied_example :
    (reconcile_patch store_server sample_environment 60000 5
      (some denies)
      authored_object
      no_trackers).world
    ≡ (reconcile_patch store_server sample_environment 60000 5 none authored_object
        no_trackers).world
reconcile_patch-denied_example =
    reconcile_patch-denied store_server sample_environment 60000 5 denies answered (λ o. refl)
      authored_object no_trackers

resolved-IsApart :
    (keys : List TargetKey)
    → resolve_targets sample_environment.parse_group sample_environment.valid_selector
        sample_environment.list_objects sample_environment.list_namespaces sample_object.contributor
      ≡ resolved keys
    → All (IsApart store_server-Lawful sample_environment 60000 5 sample_key) keys
unfolding resolve_targets target_key_for resolve_target_namespace
resolved-IsApart keys e =
    subst (All (IsApart store_server-Lawful sample_environment 60000 5 sample_key))
      (resolved-injective e) (λ same. refl, tt)

reconcile_patch-OneWriter_example :
    OneWriterOf stored sample_environment.digest sample_key
      (reconcile_patch store_server sample_environment 60000 5 none sample_object no_trackers).world
reconcile_patch-OneWriter_example =
    reconcile_patch-OneWriter store_server-Lawful sample_environment 60000 5 sample_key none
      sample_object no_trackers sample_key-namespaced resolved-IsApart
      (λ t ref e fenced. cc e, inl refl)
