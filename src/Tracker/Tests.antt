-- ===== src/Tracker/Tests.antt =====
-- Runs of the tracker controller's parts, and the witnesses.
use mathlib.Core.List.{Mem, Perm, forall_mem-cons, not-mem-nil}
use patch_operator.Base.{
  ℕ, zero, ◌≡◌, ◌≢◌, eq_iff, ◌⊎◌, refl, sym, subst, true, false, none, some, List, [], ◌∷◌, ◌++◌,
  Text, codes, ◌==◌, All, any, eqb, pos, if◌then◌else◌,
}
use patch_operator.Api.{TargetMode, Contributor}
use patch_operator.Api.Refs.{ref_text, same_contributor}
use patch_operator.Api.Samples.{sample_patch}
use patch_operator.Api.Status.{PromotionRef, TrackerPhase, TrackerStatus, ContributorStatus}
use patch_operator.Apply.{is_priority}
use patch_operator.FieldPath.{field, to_text}
use patch_operator.Access.{get}
use patch_operator.Json.{lookup, Json, str, end, entry}
use patch_operator.Render.{Contribution}
use patch_operator.Scope.{key_text}
use patch_operator.Sort.{stable_sort, insert}
use patch_operator.Sort.Laws.{IsSorted}
use patch_operator.Tracker.Order.{comes_before, sort_contributors}
use patch_operator.Tracker.Order.Laws.{OwnUids}
use patch_operator.Tracker.Writes.{Written, write_status}
use patch_operator.Tracker.Writes.Laws.{
  IsVersioned, Follows, LandsOn, Kept, Safe-refl, write_status-Kept,
}
use patch_operator.Tracker.Records.{
  ContributorRecord, Tracker, ListContributors, record_for, records_of, registered, statuses,
  sorted_records, list_contributors,
}
use patch_operator.Tracker.Records.Selected.{Lists, Selects, IsNamed}
use patch_operator.Tracker.Records.Laws.{list_contributors_complete}
use patch_operator.Tracker.Conflicts.{
  claimant_indices, is_superseded_on, detect_path_conflicts, record_index,
}
use patch_operator.Tracker.Conflicts.Contested.{Agreed, Disputed}
use patch_operator.Tracker.Conflicts.Detect.{
  claimants_at, claims_on, detect_path_conflicts-claimants,
}
use patch_operator.Tracker.Conflicts.Superseded.{
  Outranked, Unbeaten, is_superseded_on-Outranked, is_superseded_on-Unbeaten,
}
use patch_operator.Tracker.Withdraw.{maybe_delete_target}
use patch_operator.Tracker.Withdraw.Laws.{MayDelete, maybe_delete_target-MayDelete}
use patch_operator.Tracker.Lifecycle.{
  Act, Reply, done, Object, finish_promotion, reconcile_empty, reconcile,
}
use patch_operator.Tracker.Lifecycle.Laws.{
  KeepsRecords, StaysReleasing, finish_promotion-retires, reconcile_empty-stays, reconcile-fenced,
}
use patch_operator.Tracker.Samples.{
  sample_record, urgent_record, leaving_creator, sample_loser, sample_winner, sample_status,
  blank_status, fenced_status, at_one, quiet, sample_target, counter,
}

quiet-IsVersioned : (status : TrackerStatus) → IsVersioned (quiet status)
quiet-IsVersioned status i j s r e f same = cc (e, f)

quiet-Follows : (status : TrackerStatus) → Follows (quiet status) (Kept none) (at_one status)
quiet-Follows status i s e same =
    let found : status ≡ s.status = cc e in
    subst (λ old. Kept none old status) found (Safe-refl status, refl)

write_status-Kept_example :
    LandsOn
      (quiet sample_status)
      (Kept none)
      (write_status (quiet sample_status) 5 0 (at_one sample_status) none [])
write_status-Kept_example =
    write_status-Kept (quiet sample_status) 5 0 (at_one sample_status) none []
      (quiet-IsVersioned sample_status) (quiet-Follows sample_status)

abbrev two_records : List ContributorStatus
two_records = sample_record ∷ urgent_record ∷ []

urgent_first : sort_contributors two_records ≡ urgent_record ∷ sample_record ∷ []
unfolding sort_contributors stable_sort insert
urgent_first = refl

abbrev Own : ContributorStatus → ContributorStatus → Type 0
Own a b = a.patch_ref.uid ≡ b.patch_ref.uid → a ≡ b

Own-prop : (a b : ContributorStatus) → IsProp (Own a b)
Own-prop a b = hlevel

-- what holds of both records holds of each
each_of_two :
    (P : ContributorStatus → Type 0)
    → ((a : ContributorStatus) → IsProp (P a))
    → P sample_record
    → P urgent_record
    → (a : ContributorStatus) → Mem a two_records
    → P a
each_of_two P prop p q =
    (forall_mem-cons prop).1 (p, (forall_mem-cons prop).1 (q, λ a m. absurd (not-mem-nil m)))

OwnAll-prop :
    (a : ContributorStatus) → IsProp ((b : ContributorStatus) → Mem b two_records → Own a b)
OwnAll-prop a = hlevel

other_uid : codes "u1" ≢ codes "u2"
unfolding ◌==◌
other_uid e = let same : false ≡ true = (eq_iff (codes "u1") (codes "u2")).1 e in cc same

two_records-OwnUids : OwnUids two_records
two_records-OwnUids a b m n =
    each_of_two (λ x. (y : ContributorStatus) → Mem y two_records → Own x y) OwnAll-prop
      (each_of_two (Own sample_record) (Own-prop sample_record) (λ e. refl)
        (λ e. absurd (other_uid e)))
      (each_of_two (Own urgent_record) (Own-prop urgent_record) (λ e. absurd (other_uid (sym e)))
        (λ e. refl))
      a m b n

abbrev sample_tracker : Tracker
sample_tracker = record {
  cluster_scoped = false;
  name = codes "t";
  namespace = codes "default";
  target = record {
    api_version = codes "v1";
    kind = codes "ConfigMap";
    namespace = codes "default";
    name = codes "app";
  };
  status = sample_status;
}

abbrev one_patch : Text → ListContributors
one_patch key cluster_scoped namespace = some (if cluster_scoped then [] else sample_patch ∷ [])

-- a contributor that selects its targets, and is registered with the tracker
abbrev selecting_patch : Contributor
selecting_patch = record sample_patch {
  name = codes "s";
  spec = record sample_patch.spec {
    target = record sample_patch.spec.target { mode = TargetMode.selector; name = [] };
  };
  shared_resource_refs =
      record { kind = codes "SharedResource"; name = codes "t"; namespace = codes "default" } ∷ [];
}

abbrev one_selecting : ListContributors
one_selecting cluster_scoped namespace = some (if cluster_scoped then [] else selecting_patch ∷ [])

abbrev their_records : List ContributorRecord
their_records = sorted_records (
    records_of (λ s. s) sample_status (sample_patch ∷ [])
    ++ records_of (λ s. s) sample_status
        (registered (λ s. s) sample_tracker (records_of (λ s. s) sample_status (sample_patch ∷ []))
          (selecting_patch ∷ [])))

their_records-listed :
    list_contributors (λ s. s) one_patch one_selecting sample_tracker ≡ some their_records
unfolding list_contributors
their_records-listed = refl

list_contributors_complete_example :
    (by_target : List Contributor) × (by_kind : List Contributor) × Lists
      (one_patch (key_text sample_tracker.target))
      sample_tracker
      by_target
    × Lists one_selecting sample_tracker by_kind
    × All (λ c. Mem (record_for (λ s. s) sample_status c) (statuses their_records)) by_target
    × All
        (λ c.
          Selects sample_tracker c
          → IsNamed by_target c
            ⊎ Mem (record_for (λ s. s) sample_status c) (statuses their_records))
        by_kind
    × ((more : List Contributor) × (All (Selects sample_tracker) more
          × Perm (statuses their_records) (
              statuses (
                records_of (λ s. s) sample_status by_target
                ++ records_of (λ s. s) sample_status more))))
    × IsSorted comes_before (statuses their_records)
list_contributors_complete_example =
    list_contributors_complete (λ s. s) one_patch one_selecting sample_tracker their_records
      their_records-listed

abbrev claims_a : Text → Contribution
claims_a value = record {
  object = entry (codes "a") (str value) end;
  paths = (field (codes "a") ∷ []) ∷ [];
  hash = codes "sha256:2";
}

-- the text of a value stands for its hash
abbrev hash_text : Json → Text
hash_text (str s) = s
hash_text v = []

abbrev rivals : List Contribution
rivals = claims_a (codes "x") ∷ claims_a (codes "y") ∷ []

rivals_conflict :
    claimants_at (codes "a") (detect_path_conflicts hash_text rivals) ≡ some (0 ∷ 1 ∷ [])
unfolding detect_path_conflicts get to_text ◌==◌ lookup
rivals_conflict = refl

detect_path_conflicts-claimants_example :
    (Disputed (claims_on hash_text (codes "a") zero rivals)
      × (claimants_at (codes "a") (detect_path_conflicts hash_text rivals)
          ≡ some (claimant_indices (claims_on hash_text (codes "a") zero rivals))))
    ⊎ (Agreed (claims_on hash_text (codes "a") zero rivals)
        × (claimants_at (codes "a") (detect_path_conflicts hash_text rivals) ≡ none))
detect_path_conflicts-claimants_example =
    detect_path_conflicts-claimants hash_text rivals (codes "a")

abbrev both_active : List ContributorRecord
both_active = sample_loser ∷ sample_winner ∷ []

abbrev contested_a : List (Text × List ℕ)
contested_a = (codes "a", 0 ∷ 1 ∷ []) ∷ []

is_superseded_on-Outranked_example :
    (is_priority sample_loser.contributor.spec.apply.conflict_policy ≡ true)
    × ((mine : ℕ) × ((record_index sample_loser.status.patch_ref both_active ≡ some mine)
          × Outranked both_active mine (pos 0) contested_a (ref_text urgent_record.patch_ref)))
unfolding is_superseded_on same_contributor ref_text ◌==◌
is_superseded_on-Outranked_example =
    is_superseded_on-Outranked sample_loser both_active contested_a
      (ref_text urgent_record.patch_ref) refl

is_superseded_on-Unbeaten_example :
    All (λ e. any (λ idx. eqb idx 1) e.1 ≡ true → Unbeaten both_active 1 (pos 9) e.1) contested_a
unfolding is_superseded_on same_contributor ref_text ◌==◌
is_superseded_on-Unbeaten_example =
    is_superseded_on-Unbeaten sample_winner both_active contested_a 1 refl refl refl

maybe_delete_target-MayDelete_example :
    (MayDelete sample_status (leaving_creator ∷ [])
      × (maybe_delete_target counter sample_target sample_status (leaving_creator ∷ []) 0
          ≡ counter.delete_target 0 sample_target))
    ⊎ (¬ MayDelete sample_status (leaving_creator ∷ [])
        × (maybe_delete_target counter sample_target sample_status (leaving_creator ∷ []) 0
            ≡ (0, true)))
maybe_delete_target-MayDelete_example =
    maybe_delete_target-MayDelete counter sample_target sample_status (leaving_creator ∷ []) 0

abbrev all_done : Act → Reply
all_done act = done

abbrev fenced : Object
fenced = record { memory = at_one fenced_status; deleting = false; has_finalizer = true }

finish_promotion-retires_example :
    (done ≡ done)
    × ((ref : PromotionRef) × ((fenced_status.promoted_to ≡ some ref) × (ref.adopted ≡ true)))
unfolding finish_promotion
finish_promotion-retires_example = finish_promotion-retires {S = ℕ} all_done fenced done 0 refl

abbrev released_status : TrackerStatus
released_status = record blank_status { phase = TrackerPhase.releasing }

reconcile_empty-stays_example :
    ((reconcile_empty {S = ℕ} all_done (quiet released_status) 5 0 (at_one released_status) 0).acts
      ≡ [])
    × ((w : Written) × (((reconcile_empty {S = ℕ} all_done
              (quiet released_status)
              5
              0
              (at_one released_status)
              0).write
            ≡ some w)
          × StaysReleasing w))
reconcile_empty-stays_example =
    reconcile_empty-stays {S = ℕ} all_done (quiet released_status) 5 0 (at_one released_status) 0
      refl

reconcile-fenced_example :
    ((reconcile all_done counter sample_target
        (quiet fenced_status)
        (λ t. t)
        5
        0
        done
        fenced
        (some [])
        0).world
      ≡ 0)
    × (((reconcile all_done counter sample_target
            (quiet fenced_status)
            (λ t. t)
            5
            0
            done
            fenced
            (some [])
            0).write
          ≡ none)
        × All
            (KeepsRecords fenced_status)
            (reconcile all_done counter sample_target
              (quiet fenced_status)
              (λ t. t)
              5
              0
              done
              fenced
              (some [])
              0).acts)
reconcile-fenced_example =
    reconcile-fenced all_done counter sample_target (quiet fenced_status) (λ t. t) 5 0 done fenced
      (some []) 0 refl
