-- ===== src/Controller/Events/Wakes.antt =====
-- internal/controller: what wakes the controllers.
use patch_operator.Base.{
  ℕ, arith, ◌≡◌, ◌∙◌, refl, ap, Bool, true, false, ◌||◌, not, Option, none, some, is_some, List, [],
  ◌∷◌, Text, eq_refl, eqb, length,
}
use patch_operator.Api.{Contributor}
use patch_operator.Api.Status.{
  PromotionRef, ContributorStatus, ConflictStatus, TrackerStatus, is_fenced,
}
use patch_operator.Scope.{target_key_for}
use patch_operator.Scope.Names.{tracker_name}
use patch_operator.Tracker.Pass.Step.{with_condition}
use patch_operator.Tracker.Writes.{write_mutation}
use patch_operator.Registration.Calls.{Tracked}
use patch_operator.Registration.Promote.{fenced_tracker, flagged}
use patch_operator.Registration.{own_tracker}
use patch_operator.Controller.Events.{
  Metadata, flips, adoption_flips, generation_or_finalizer_changed, tracker_changed,
  registered_with, first_tracker, trackers_of_contributor, is_selector_mode,
}

or_right : (a b : Bool) → b ≡ true → (a || b) ≡ true
or_right true b h = refl
or_right false b h = h

flips_self : (b : Bool) → flips b b ≡ false
flips_self true = refl
flips_self false = refl

-- The writes of a promotion wake the tracker controller: the fence of a tracker that is not fenced,
-- and the flag of an adoption that is not flagged.
pub tracker_changed-promotion :
    (now : ℕ) (name : Text) (t u : Tracked) (ref : PromotionRef) (old new : Metadata)
    → is_fenced t.status ≡ false
    → u.status.promoted_to ≡ some ref
    → ref.adopted ≡ false
    → (tracker_changed old t.status new (fenced_tracker now name t).status ≡ true)
      × (tracker_changed old u.status new (flagged ref u).status ≡ true)
unfolding tracker_changed fenced_tracker with_condition
tracker_changed-promotion now name t u ref old new free fenced waiting = (
  or_right (generation_or_finalizer_changed old new) _ (
      ap
        (λ b.
          flips b true
          || (adoption_flips t.status.promoted_to (some (record { name = name; adopted = false }))
              || not (eqb t.status.contributor_count t.status.contributor_count)))
        free),
  or_right (generation_or_finalizer_changed old new) _ (
      ap
        (λ p.
          flips (is_some p) true
          || (adoption_flips p (some (record ref { adopted = true }))
              || not (eqb u.status.contributor_count u.status.contributor_count)))
        fenced
      ∙ ap (λ b. flips b true || not (eqb u.status.contributor_count u.status.contributor_count))
          waiting),
)

adoption_flips_self : (p : Option PromotionRef) → adoption_flips p p ≡ false
adoption_flips_self none = refl
adoption_flips_self (some ref) = flips_self ref.adopted

eqb_self : (n : ℕ) → not (eqb n n) ≡ false
eqb_self n = ground arith

or_false : (a : Bool) → (false || a) ≡ a
or_false a = refl

-- The tracker's own status writes, where the metadata of the filter stay, wake it exactly if they
-- change the count of its contributors.
pub tracker_changed-own_write :
    (meta : Metadata) (computed st : TrackerStatus) (records : List ContributorStatus)
    → (conflicts : List ConflictStatus)
    → tracker_changed meta st meta (write_mutation computed (some records) conflicts st)
      ≡ not (eqb st.contributor_count (length records))
unfolding tracker_changed generation_or_finalizer_changed write_mutation
tracker_changed-own_write meta computed st records conflicts =
    rw
      (
        eqb_self meta.generation,
        flips_self meta.deleting,
        eqb_self meta.finalizers,
        flips_self (is_fenced st),
        adoption_flips_self st.promoted_to,
      )
      refl

-- A contributor that has recorded no tracker of the kind that `TrackerKindFor` gives it, and is not
-- in Selector mode, wakes exactly the tracker that it is going to be registered with.
pub trackers_of_contributor-own :
    (digest : Text → Text) (c : Contributor)
    → registered_with
        (own_tracker
          (tracker_name digest (target_key_for c))
          c.cluster_scoped
          (target_key_for c)).kind
        c.shared_resource_refs
      ≡ []
    → is_selector_mode c.spec.target.mode ≡ false
    → trackers_of_contributor digest
        (own_tracker
          (tracker_name digest (target_key_for c))
          c.cluster_scoped
          (target_key_for c)).kind
        c
      ≡ record {
        namespace =
            (own_tracker
              (tracker_name digest (target_key_for c))
              c.cluster_scoped
              (target_key_for c)).namespace;
        name =
            (own_tracker
              (tracker_name digest (target_key_for c))
              c.cluster_scoped
              (target_key_for c)).name;
      }
        ∷ []
unfolding trackers_of_contributor own_tracker first_tracker
trackers_of_contributor-own digest c fresh single =
    let kind =
      (own_tracker (tracker_name digest (target_key_for c)) c.cluster_scoped
        (target_key_for c)).kind in
    rw (fresh, single, eq_refl kind) refl
