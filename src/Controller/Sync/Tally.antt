-- ===== src/Controller/Sync/Tally.antt =====
-- internal/controller/contributor_controller.go: what the counts of `syncStatus` say.
use patch_operator.Base.{
  suc, ◌≡◌, ◌∙◌, refl, sym, ap, inl, inr, some, some-injective, List, [], ◌∷◌, arith, Option-cases,
}
use patch_operator.Api.{ContributorState, TrackerRef, ContributorRef}
use patch_operator.Api.Status.{ContributorStatus, find_contributor}
use patch_operator.Scope.{TargetKey}
use patch_operator.Registration.Calls.{Tracked, found, Read-cases, ApiServer}
use patch_operator.Controller.Sync.{StateCounts, count_state, count_read, get_tracker, count_all}

-- A tracker, as the cache has it, lists the contributor as applied.
pub record IsApplied {S : Type 0} (api : ApiServer S) (s : S) (ref : ContributorRef)
    (at : TrackerRef) : Type 0 where
  pub tracker : Tracked
  pub rec : ContributorStatus
  pub reads : get_tracker api s at ≡ found tracker
  pub lists : find_contributor tracker.status ref ≡ some rec
  pub is_applied : rec.state ≡ ContributorState.applied

-- The tracker beside each target does, where there is one.
abbrev pub AppliedAll :
    {S : Type 0} → ApiServer S → S → ContributorRef → List TargetKey → List TrackerRef → Type 0
AppliedAll api s ref [] trackers = Unit {0}
AppliedAll api s ref (key ∷ keys) [] = Unit {0}
AppliedAll api s ref (key ∷ keys) (at ∷ trackers) =
    IsApplied api s ref at × AppliedAll api s ref keys trackers

-- No target is in another state than applied.
abbrev pub IsClean : StateCounts → Type 0
IsClean n = (n.conflicted ≡ 0) × ((n.superseded ≡ 0) × (n.waiting ≡ 0))

-- What the read of one tracker adds to the counts.
count_state-IsClean :
    (state : ContributorState) (n : StateCounts)
    → IsClean (count_state state n)
    → IsClean n × (state ≡ ContributorState.applied)
count_state-IsClean ContributorState.applied n clean = (clean, refl)
count_state-IsClean ContributorState.conflicted n clean = absurd (omega (arith, clean.0))
count_state-IsClean ContributorState.superseded n clean = absurd (omega (arith, clean.1.0))
count_state-IsClean ContributorState.releasing n clean = absurd (omega (arith, clean.1.1))
count_state-IsClean ContributorState.unset n clean = absurd (omega (arith, clean.1.1))

module _ {S : Type 0} (api : ApiServer S) (s : S) (ref : ContributorRef) where
  count_read-IsClean :
      (at : TrackerRef) (n m : StateCounts)
      → count_read ref (get_tracker api s at) n ≡ some m
      → IsClean m
      → IsClean n × IsApplied api s ref at
  count_read-IsClean at n m e clean = elim (Read-cases (get_tracker api s at)) [
    | inr (inr unread_now) ↦ cc (rw unread_now at e)
    | inr (inl missing) ↦
        let same : m.waiting ≡ suc n.waiting =
          ap (λ x. x.waiting) (sym (some-injective (rw missing at e))) in
        absurd (omega (arith, same, clean.1.1))
    | inl (t, there) ↦ elim (Option-cases (find_contributor t.status ref)) [
      | inl unlisted ↦
          let same : m.waiting ≡ suc n.waiting =
            ap (λ x. x.waiting) (sym (some-injective (rw (there, unlisted) at e))) in
          absurd (omega (arith, same, clean.1.1))
      | inr (rec, listed) ↦
          let same : m ≡ count_state rec.state n = sym (some-injective (rw (there, listed) at e)) in
          let (before, is_applied_now) = count_state-IsClean rec.state n (rw same at clean) in
          (
            before,
            record {
              tracker = t;
              rec = rec;
              reads = there;
              lists = listed;
              is_applied = is_applied_now;
            },
          )
    ]
  ]

  pub count_all-IsClean :
      (keys : List TargetKey) (trackers : List TrackerRef) (n m : StateCounts)
      → count_all api s ref keys trackers n ≡ some m
      → IsClean m
      → IsClean n × AppliedAll api s ref keys trackers
  unfolding count_all
  count_all-IsClean [] trackers n m e clean = (rw (sym (some-injective e)) at clean, tt)
  count_all-IsClean (key ∷ keys) [] n m e clean = ((count_all-IsClean keys [] n m e clean).0, tt)
  count_all-IsClean (key ∷ keys) (at ∷ trackers) n m e clean =
      elim (Option-cases (count_read ref (get_tracker api s at) n)) [
        | inl failed ↦ cc (rw (failed, count_all) at e)
        | inr (n', counted) ↦
            let (middle, rest) =
              count_all-IsClean keys trackers n' m (rw (counted, count_all) at e) clean in
            let (before, applied_here) = count_read-IsClean at n n' counted middle in
            (before, (applied_here, rest))
      ]

  count_read-applied :
      (at : TrackerRef) (n : StateCounts)
      → IsClean n
      → IsApplied api s ref at
      → (m : StateCounts) × ((count_read ref (get_tracker api s at) n ≡ some m) × IsClean m)
  count_read-applied at n clean h =
      rw (h.reads, h.lists, h.is_applied) (record n { applied = suc n.applied }, (refl, clean))

  count_all-unpaired :
      (keys : List TargetKey) (n : StateCounts) → count_all api s ref keys [] n ≡ some n
  unfolding count_all
  count_all-unpaired [] n = refl
  count_all-unpaired (key ∷ keys) n = count_all-unpaired keys n

  pub count_all-applied :
      (keys : List TargetKey) (trackers : List TrackerRef) (n m : StateCounts)
      → IsClean n
      → AppliedAll api s ref keys trackers
      → count_all api s ref keys trackers n ≡ some m
      → IsClean m
  unfolding count_all
  count_all-applied [] trackers n m clean all e = rw (some-injective e) at clean
  count_all-applied (key ∷ keys) [] n m clean all e =
      rw (some-injective (sym (count_all-unpaired keys n) ∙ e)) at clean
  count_all-applied (key ∷ keys) (at ∷ trackers) n m clean (first, rest) e =
      let (n', (counted, middle)) = count_read-applied at n clean first in
      count_all-applied keys trackers n' m middle rest (rw (counted, count_all) at e)
