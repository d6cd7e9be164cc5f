-- ===== src/Tracker/Pass/Covers.antt =====
-- internal/controller/tracker_controller.go: the records that the loop of a pass collects.
use mathlib.Core.List.{map}
use patch_operator.Base.{
  ℕ, suc, ◌≡◌, refl, inl, inr, Option, none, some, List, [], ◌∷◌, Text, Bool-cases,
}
use patch_operator.Api.{ContributorRef}
use patch_operator.Api.Status.{ContributorStatus}
use patch_operator.Json.{Fields}
use patch_operator.Render.{Target, Contribution}
use patch_operator.Tracker.Writes.{World}
use patch_operator.Tracker.Records.{ContributorRecord, statuses}
use patch_operator.Tracker.Appliers.{
  FieldConflict, Report, ApplyAnswer, answered, absent, concurrent, failure, Applier, Outside,
  applier_for, base_for, decode_prior_values,
}
use patch_operator.Tracker.Pass.Step.{
  Pass, Turn, kept, halted, after_provenance, after_report, after_apply, on_base, on_priors,
  on_superseded, on_applier, turn, with_provenance,
}
use patch_operator.Tracker.Pass.{Loop, loop_on, with_record, completed, stopped, pass_loop}

-- whom a list of records is about
abbrev pub refs : List ContributorStatus → List ContributorRef
refs [] = []
refs (rec ∷ records) = rec.patch_ref ∷ refs records

abbrev IsAbout : {S : Type 0} → ContributorRecord → Turn S → Type 0
IsAbout c (kept p rec) = rec.patch_ref ≡ c.status.patch_ref
IsAbout c (halted p halt) = Unit {0}

module _ {S W : Type 0} (outside : Outside S W) (target : Target) (world : World)
    (version_after : ℕ → ℕ) (attempts : ℕ) where
  after_provenance-ref :
      (report : Report) (contribution : Contribution) (c : ContributorRecord) (p : Pass S)
      (o : Option (Pass S))
      → IsAbout c (
          after_provenance outside target world version_after attempts report contribution c.status
            p o)
  after_provenance-ref report contribution c p none = tt
  after_provenance-ref report contribution c p (some q) =
      elim (Bool-cases report.prior_values_captured) [
        | inl captured ↦ rw captured refl
        | inr not_captured ↦ rw not_captured refl
      ]

  after_report-IsAbout :
      (o : Option FieldConflict) (report : Report) (contribution : Contribution)
      (c : ContributorRecord)
      → (base : Option Fields) (p : Pass S)
      → IsAbout c (
          after_report outside target world version_after attempts o report contribution c.status
            base p)
  after_report-IsAbout (some conflict) report contribution c base p = refl
  after_report-IsAbout none report contribution c base p =
      after_provenance-ref report contribution c p
        (with_provenance outside target world version_after attempts report c.status base p)

  after_apply-IsAbout :
      (answer : ApplyAnswer) (contribution : Contribution) (c : ContributorRecord)
      (base : Option Fields) (p : Pass S)
      → IsAbout c (
          after_apply outside target world version_after attempts answer contribution c.status base
            p)
  unfolding after_apply
  after_apply-IsAbout (answered report) contribution c base p =
      after_report-IsAbout report.conflict report contribution c base p
  after_apply-IsAbout absent contribution c base p = refl
  after_apply-IsAbout concurrent contribution c base p = tt
  after_apply-IsAbout (failure message) contribution c base p = tt

  on_base-IsAbout :
      (o : Option (Option Fields)) (applier : Applier S) (c : ContributorRecord)
      (contribution : Contribution)
      → (priors : Fields) (p : Pass S)
      → IsAbout c
          (on_base outside target world version_after attempts o applier c contribution priors p)
  on_base-IsAbout none applier c contribution priors p = refl
  on_base-IsAbout (some base) applier c contribution priors p =
      after_apply-IsAbout _ contribution c base _

  on_priors-IsAbout :
      (o : Option Fields) (applier : Applier S) (c : ContributorRecord)
      (contribution : Contribution) (p : Pass S)
      → IsAbout c (on_priors outside target world version_after attempts o applier c contribution p)
  on_priors-IsAbout none applier c contribution p = tt
  on_priors-IsAbout (some priors) applier c contribution p =
      on_base-IsAbout (base_for outside c.contributor.spec.base) applier c contribution priors p

  on_superseded-IsAbout :
      (o : Option Text) (applier : Applier S) (c : ContributorRecord) (contribution : Contribution)
      → (visited : List (Text × List ℕ)) (p : Pass S)
      → IsAbout c (
          on_superseded outside target world version_after attempts o applier c contribution visited
            p)
  on_superseded-IsAbout (some holder) applier c contribution visited p = refl
  on_superseded-IsAbout none applier c contribution visited p =
      on_priors-IsAbout (decode_prior_values outside c.status.prior_values) applier c contribution p

  on_applier-IsAbout :
      (o : Option (Applier S)) (i : ℕ) (active : List ContributorRecord)
      (path_claims : List (Text × List ℕ))
      → (c : ContributorRecord) (contribution : Contribution) (p : Pass S)
      → IsAbout c (
          on_applier outside target world version_after attempts o i active path_claims c
            contribution p)
  on_applier-IsAbout none i active path_claims c contribution p = refl
  on_applier-IsAbout (some applier) i active path_claims c contribution p =
      on_superseded-IsAbout _ applier c contribution _ p

  turn-IsAbout :
      (i : ℕ) (active : List ContributorRecord) (path_claims : List (Text × List ℕ))
      → (c : ContributorRecord) (contribution : Contribution) (p : Pass S)
      → IsAbout c
          (turn outside target world version_after attempts i active path_claims c contribution p)
  unfolding turn
  turn-IsAbout i active path_claims c contribution p =
      on_applier-IsAbout (applier_for outside c.contributor) i active path_claims c contribution p

-- A loop that completes has a record of each contributor, in their order.
abbrev pub Covers : {S : Type 0} → List (ContributorRecord × Contribution) → Loop S → Type 0
Covers rendered (completed p records) = refs records ≡ refs (statuses (map (λ e. e.0) rendered))
Covers rendered (stopped p halt) = Unit {0}

module _ {S W : Type 0} (outside : Outside S W) (target : Target) (world : World)
    (version_after : ℕ → ℕ) (attempts : ℕ) where
  loop_on-Covers :
      (c : ContributorRecord) (contribution : Contribution)
      (rendered : List (ContributorRecord × Contribution))
      → (rest : Pass S → Loop S) (t : Turn S) → IsAbout c t
      → ((p : Pass S) → Covers rendered (rest p))
      → Covers
          ((c, contribution) ∷ rendered)
          (loop_on outside target world version_after attempts rest t)
  loop_on-Covers c contribution rendered rest (halted p halt) about covers = tt
  loop_on-Covers c contribution rendered rest (kept p rec) about covers =
      with_record-Covers c contribution rendered rec (rest p) about (covers p)
    where
      with_record-Covers :
          (c : ContributorRecord) (contribution : Contribution)
          (rendered : List (ContributorRecord × Contribution))
          → (rec : ContributorStatus) (l : Loop S) → rec.patch_ref ≡ c.status.patch_ref
          → Covers rendered l
          → Covers ((c, contribution) ∷ rendered) (with_record rec l)
      with_record-Covers c contribution rendered rec (completed p records) same covers =
          cc (same, covers)
      with_record-Covers c contribution rendered rec (stopped p halt) same covers = tt

  pub pass_loop-Covers :
      (active : List ContributorRecord) (path_claims : List (Text × List ℕ)) (i : ℕ)
      → (rendered : List (ContributorRecord × Contribution)) (p : Pass S)
      → Covers rendered
          (pass_loop outside target world version_after attempts active path_claims i rendered p)
  unfolding pass_loop
  pass_loop-Covers active path_claims i [] p = refl
  pass_loop-Covers active path_claims i ((c, contribution) ∷ rendered) p =
      loop_on-Covers c contribution rendered _ _
        (turn-IsAbout outside target world version_after attempts i active path_claims c
          contribution p)
        (pass_loop-Covers active path_claims (suc i) rendered)
