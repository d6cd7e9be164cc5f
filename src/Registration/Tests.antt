-- ===== src/Registration/Tests.antt =====
-- The witnesses on the registration of contributors and on promotions.
use patch_operator.Base.{
  ◌==◌, ℕ, ◌≡◌, refl, true, false, Option, none, some, ◌⊎◌, inl, inr, Bool-cases, if-else,
  if◌then◌else◌, [], ◌∷◌, Text, codes,
}
use patch_operator.Api.Samples.{sample_patch, cluster_fan_out}
use patch_operator.Scope.Names.{tracker_name}
use patch_operator.Tracker.Samples.{counter, sample_record}
use patch_operator.Tracker.Pass.Step.{with_condition}
use patch_operator.Tracker.Lifecycle.{done, finish_promotion}
use patch_operator.Registration.Calls.{Tracked, shared_resource, cluster_shared_resource}
use patch_operator.Registration.Promote.{
  fenced_tracker, flagged, fence, create_successor, copy_status, flag_adoption, promote_if_needed,
}
use patch_operator.Registration.Fence.{OneWriter}
use patch_operator.Registration.Reach.{Reach-OneWriter}
use patch_operator.Registration.Steps.{Became, here, next, registers, finishes, copy_of}
use patch_operator.Registration.Handed.{IsHeir}
use patch_operator.Registration.Completes.{retirement, promote_if_needed-completes}
use patch_operator.Registration.Samples.{
  same_key, same_key-eq, sample_key-namespaced, Store, store_put, store_server, store_server-Lawful,
  store_server-Answers, sample_key, sample_tracked, no_trackers, one_tracker, one_tracker-there,
}
use patch_operator.Registration.{ensure_named, ensure_tracker, object_of, own_tracker}
use patch_operator.Scope.{is_cluster_scoped_target, tracker_kind_for, tracker_namespace}
use patch_operator.Api.Status.{PromotionRef}
use patch_operator.Registration.Calls.{ObjectKey}

abbrev plain_digest : Text → Text
plain_digest s = codes "0123456789abcdef"

abbrev text_of_count : ℕ → Text
text_of_count k = codes "adopted"

abbrev tracker : Text
tracker = tracker_name plain_digest sample_key

-- a ResourcePatch registers, then a ClusterResourcePatch
abbrev after_patch : Store
after_patch =
    (ensure_tracker store_server 1 text_of_count plain_digest sample_patch sample_key no_trackers).0

abbrev after_cluster_patch : Store
after_cluster_patch =
    (ensure_tracker store_server 2 text_of_count plain_digest cluster_fan_out sample_key
      after_patch).0

abbrev own_key : ObjectKey
own_key = shared_resource (codes "default") tracker

abbrev found_or_sample : Option Tracked → Tracked
found_or_sample none = sample_tracked
found_or_sample (some t) = t

-- the tracker of the namespace, fenced and handed on
abbrev replaced_tracker : Tracked
replaced_tracker = found_or_sample (after_cluster_patch own_key)

abbrev named_successor : PromotionRef
named_successor = record { name = tracker; adopted = true }

replaced-there : after_cluster_patch own_key ≡ some replaced_tracker
unfolding ensure_tracker ensure_named promote_if_needed fence create_successor copy_status
    flag_adoption store_put fenced_tracker with_condition tracker_name is_cluster_scoped_target
    object_of own_tracker tracker_kind_for tracker_namespace ◌==◌
replaced-there = refl

replaced-fenced : replaced_tracker.status.promoted_to ≡ some named_successor
unfolding ensure_tracker ensure_named promote_if_needed fence create_successor copy_status
    flag_adoption store_put fenced_tracker with_condition tracker_name is_cluster_scoped_target
    object_of own_tracker tracker_kind_for tracker_namespace ◌==◌
replaced-fenced = refl

-- the tracker controller retires it
abbrev retired : Store
retired k = if same_key k own_key then none else after_cluster_patch k

retired-Became :
    Became
      (finish_promotion {S = Store}
        (λ a. done)
        (copy_of 1 replaced_tracker)
        done
        after_cluster_patch).acts
      replaced_tracker
      (retired own_key)
unfolding ensure_tracker ensure_named promote_if_needed fence create_successor copy_status
    flag_adoption store_put fenced_tracker with_condition tracker_name is_cluster_scoped_target
    object_of own_tracker tracker_kind_for tracker_namespace finish_promotion ◌==◌
retired-Became = inl refl

retired-elsewhere : (j : ObjectKey) → (j ≡ own_key) ⊎ (retired j ≡ after_cluster_patch j)
retired-elsewhere j = elim (Bool-cases (same_key j own_key)) [
  | inl own ↦ inl (same_key-eq j own_key own)
  | inr other ↦ inr (if-else (same_key j own_key) none (after_cluster_patch j) other)
]

Reach-OneWriter_example :
    OneWriter tracker
      (retired (shared_resource (codes "default") tracker))
      (retired (cluster_shared_resource tracker))
Reach-OneWriter_example =
    Reach-OneWriter store_server-Lawful text_of_count plain_digest sample_key counter
      sample_key-namespaced refl refl
      (next
        (next (next here (registers 1 no_trackers sample_patch sample_key (λ e. refl)))
          (registers 2 after_patch cluster_fan_out sample_key (λ e. refl)))
        (finishes after_cluster_patch retired own_key replaced_tracker named_successor 1 (λ a. done)
          done replaced-there replaced-fenced (λ e. cc e) retired-Became retired-elsewhere))

abbrev promoted : Store
promoted =
    (promote_if_needed store_server 3 text_of_count (codes "t") sample_key
      (one_tracker (codes "t"))).0

abbrev handed_on : Tracked
handed_on =
    flagged (record { name = codes "t"; adopted = false })
      (fenced_tracker 3 (codes "t") sample_tracked)

promote_if_needed-completes_example :
    ((promote_if_needed store_server 3 text_of_count
        (codes "t")
        sample_key
        (one_tracker (codes "t"))).1
      ≡ true)
    × (IsHeir (sample_record ∷ []) (promoted (cluster_shared_resource (codes "t")))
        × ((w : Tracked) × ((promoted (shared_resource (codes "default") (codes "t")) ≡ some w)
              × ((finish_promotion (λ a. done) (copy_of 1 w) done tt).acts ≡ retirement true))))
promote_if_needed-completes_example =
    promote_if_needed-completes store_server-Lawful store_server-Answers 3 text_of_count (codes "t")
      sample_key (one_tracker (codes "t")) sample_tracked 1 (one_tracker-there (codes "t")) refl
