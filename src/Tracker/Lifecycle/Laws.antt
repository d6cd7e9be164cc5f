-- ===== src/Tracker/Lifecycle/Laws.antt =====
-- internal/controller/tracker_controller.go and promotion.go: when a tracker leaves its target alone,
-- and when it goes.
use patch_operator.Base.{
  ℕ, any, All, ◌⊎◌, ◌≡◌, ◌∙◌, refl, ap, inl, inr, Bool, true, false, ◌&&◌, not, Option, none, some,
  List, [], Option-cases, Bool-cases,
}
use patch_operator.Api.Status.{TrackerPhase, PromotionRef, TrackerStatus, is_fenced}
use patch_operator.Render.{Target}
use patch_operator.Tracker.Writes.{
  Versioned, World, Written, landed, gone, conflicted, failed, write_mutation, write_status,
}
use patch_operator.Tracker.Writes.Landed.{IsMutated, write_status-IsMutated}
use patch_operator.Tracker.Records.{ContributorRecord}
use patch_operator.Tracker.Appliers.{Outside}
use patch_operator.Tracker.Lifecycle.{
  Act, writes_status, removes_finalizer, deletes_tracker, Reply, done, not_found, refused,
  Reconciled, Object, after_update, retire, unfence, finish_for, unfenced, with_phase, is_releasing,
  is_none_listed, reconcile_empty, finish_promotion, reconcile,
}

-- An act gives the tracker up.
abbrev pub is_retiring : Act → Bool
is_retiring removes_finalizer = true
is_retiring deletes_tracker = true
is_retiring act = false

Reply-cases : (r : Reply) → (r ≡ done) ⊎ ((r ≡ not_found) ⊎ (r ≡ refused))
Reply-cases done = inl refl
Reply-cases not_found = inr (inl refl)
Reply-cases refused = inr (inr refl)

and_false : (a : Bool) → (a && false) ≡ false
and_false true = refl
and_false false = refl

-- A status that an act writes has the contributors, the conflicts and the count of the one before.
abbrev pub KeepsRecords : TrackerStatus → Act → Type 0
KeepsRecords old (writes_status new) =
    (new.contributors ≡ old.contributors)
    × ((new.conflicts ≡ old.conflicts) × (new.contributor_count ≡ old.contributor_count))
KeepsRecords old act = Unit {0}

-- A reconciliation that touches nothing but the tracker itself, and of its status only the fence.
abbrev Untouched : {S : Type 0} → TrackerStatus → S → Reconciled S → Type 0
Untouched old s r = (r.world ≡ s) × ((r.write ≡ none) × All (KeepsRecords old) r.acts)

-- What lands is in phase Releasing.
abbrev pub StaysReleasing : Written → Type 0
StaysReleasing (landed t st) = st.phase ≡ TrackerPhase.releasing
StaysReleasing w = Unit {0}

IsMutated-StaysReleasing :
    (m : Versioned) (w : Written)
    → m.status.phase ≡ TrackerPhase.releasing
    → IsMutated (write_mutation m.status none []) w
    → StaysReleasing w
unfolding write_mutation
IsMutated-StaysReleasing m (landed t st) phase (old, same) = ap (λ x. x.phase) same ∙ phase
IsMutated-StaysReleasing m gone phase mutated = tt
IsMutated-StaysReleasing m conflicted phase mutated = tt
IsMutated-StaysReleasing m failed phase mutated = tt

module _ {S : Type 0} (reply : Act → Reply) where
  after_update-Untouched :
      (old : TrackerStatus) (s : S) (r : Reply) → Untouched old s (after_update reply s r)
  after_update-Untouched old s done = (refl, (refl, (tt, (tt, tt))))
  after_update-Untouched old s not_found = (refl, (refl, (tt, tt)))
  after_update-Untouched old s refused = (refl, (refl, (tt, tt)))

  retire-Untouched : (old : TrackerStatus) (b : Bool) (s : S) → Untouched old s (retire reply b s)
  retire-Untouched old true s = after_update-Untouched old s (reply removes_finalizer)
  retire-Untouched old false s = (refl, (refl, (tt, tt)))

  unfence-Untouched :
      (old : TrackerStatus) (s : S) (r : Reply) → Untouched old s (unfence reply s (unfenced old) r)
  unfence-Untouched old s done = (refl, (refl, ((refl, (refl, refl)), tt)))
  unfence-Untouched old s not_found = (refl, (refl, ((refl, (refl, refl)), tt)))
  unfence-Untouched old s refused = (refl, (refl, ((refl, (refl, refl)), tt)))

  finish_for-Untouched :
      (p : Option PromotionRef) (o : Object) (successor : Reply) (s : S)
      → Untouched o.memory.status s (finish_for reply p o successor s)
  finish_for-Untouched none o successor s = (refl, (refl, tt))
  finish_for-Untouched (some ref) o not_found s = unfence-Untouched o.memory.status s _
  finish_for-Untouched (some ref) o refused s = (refl, (refl, tt))
  finish_for-Untouched (some ref) o done s = elim (Bool-cases ref.adopted) [
    | inl adopted ↦ rw adopted (retire-Untouched o.memory.status o.has_finalizer s)
    | inr waiting ↦ rw waiting (refl, (refl, tt))
  ]

  unfence-stays :
      (s : S) (status : TrackerStatus) (r : Reply)
      → any is_retiring (unfence reply s status r).acts ≡ false
  unfence-stays s status done = refl
  unfence-stays s status not_found = refl
  unfence-stays s status refused = refl

  -- A fenced tracker drops its finalizer or is deleted only if its successor is there and the
  -- adoption of its state is flagged.
  pub finish_promotion-retires :
      (o : Object) (successor : Reply) (s : S)
      → any is_retiring (finish_promotion reply o successor s).acts ≡ true
      → (successor ≡ done)
        × ((ref : PromotionRef) × ((o.memory.status.promoted_to ≡ some ref) × (ref.adopted ≡ true)))
  unfolding finish_promotion
  finish_promotion-retires o successor s retires = elim (Option-cases o.memory.status.promoted_to) [
    | inl unfenced_now ↦ cc (simp unfenced_now at retires)
    | inr (ref, fenced) ↦ elim (Reply-cases successor) [
      | inl there ↦ elim (Bool-cases ref.adopted) [
        | inl adopted ↦ (there, (ref, (fenced, adopted)))
        | inr waiting ↦ cc (simp (fenced, there, waiting) at retires)
      ]
      | inr (inl missing) ↦
          cc (simp (fenced, missing) at retires, unfence-stays s (unfenced o.memory.status) _)
      | inr (inr failing) ↦ cc (simp (fenced, failing) at retires)
    ]
  ]

  -- A tracker without contributors that is in phase Releasing stays there: nothing is done but a
  -- status write, and what that leaves, if it lands, is in phase Releasing again.
  pub reconcile_empty-stays :
      (world : World) (attempts t : ℕ) (memory : Versioned) (s : S)
      → is_releasing memory.status.phase ≡ true
      → ((reconcile_empty reply world attempts t memory s).acts ≡ [])
        × ((w : Written) × (((reconcile_empty reply world attempts t memory s).write ≡ some w)
              × StaysReleasing w))
  unfolding reconcile_empty
  reconcile_empty-stays world attempts t memory s releasing =
      let passed : (is_none_listed memory.status && not (is_releasing memory.status.phase))
          ≡ false =
        rw releasing (and_false (is_none_listed memory.status)) in
      let m = with_phase TrackerPhase.releasing memory in
      rw passed (
        refl,
        (
          write_status world attempts t m none [],
          (
            refl,
            IsMutated-StaysReleasing m _ refl (write_status-IsMutated world attempts t m none []),
          ),
        ),
      )

  module _ {W : Type 0} (outside : Outside S W) (target : Target) (world : World)
      (version_after : ℕ → ℕ) where
    -- A reconciliation of a fenced tracker leaves everything outside of the tracker as it is, its
    -- target included, and makes no write of contributors and conflicts: the status that it may
    -- write, to drop the fence, has those and their count as before, whatever it finds and whatever
    -- the API server replies.
    pub reconcile-fenced :
        (attempts t : ℕ) (successor : Reply) (o : Object) (listed : Option (List ContributorRecord))
        (s : S)
        → is_fenced o.memory.status ≡ true
        → ((reconcile reply outside target world version_after attempts t successor o listed
              s).world
            ≡ s)
          × (((reconcile reply outside target world version_after attempts t successor o listed
                  s).write
                ≡ none)
              × All
                  (KeepsRecords o.memory.status)
                  (reconcile reply outside target world version_after attempts t successor o listed
                    s).acts)
    unfolding reconcile
    reconcile-fenced attempts t successor o listed s fenced =
        rw fenced (finish_for-Untouched o.memory.status.promoted_to o successor s)
