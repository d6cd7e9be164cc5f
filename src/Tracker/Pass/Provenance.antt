-- ===== src/Tracker/Pass/Provenance.antt =====
-- internal/controller/tracker_controller.go: what a pass remembers of who created the target.
use patch_operator.Base.{
  ℕ, ◌≡◌, ◌≢◌, ◌⊎◌, inl, inr, ◌∙◌, refl, sym, ap, subst, true, false, ◌&&◌, Option, none, some,
  is_none, Text, Option-cases,
}
use patch_operator.Api.{ContributorRef}
use patch_operator.Api.Status.{TrackerStatus, ContributorStatus}
use patch_operator.Json.{Fields}
use patch_operator.Render.{Target, Contribution}
use patch_operator.Tracker.Writes.{
  Versioned, World, Written, landed, gone, conflicted, failed, first_known, provenance_mutation,
  record_provenance,
}
use patch_operator.Tracker.Writes.Landed.{IsMutated, patch_status-IsMutated}
use patch_operator.Tracker.Appliers.{Live, Report, answered, Outside}
use patch_operator.Tracker.Pass.Step.{
  Pass, Turn, kept, halted, broken, requeued, apply_failed, observe, remembered, with_memory,
  with_provenance, after_provenance, after_apply, base_hash_of,
}

-- If a turn goes on, the creator of the target is known in memory.
abbrev pub KnowsCreator : {S : Type 0} → Turn S → Type 0
KnowsCreator (kept p rec) = p.memory.status.creator_patch_ref ≢ none
KnowsCreator (halted p halt) = Unit {0}

-- A turn ends with an error.
abbrev pub IsBroken : {S : Type 0} → Turn S → Type 0
IsBroken (kept p rec) = ⊥
IsBroken (halted p broken) = Unit {0}
IsBroken (halted p requeued) = ⊥
IsBroken (halted p (apply_failed message)) = ⊥

-- What a turn makes of the write of the creator: what lands names one, unless the tracker is gone, and
-- a write that cannot be made ends the turn with an error.
abbrev pub Recorded : {S : Type 0} → Written → Turn S → Type 0
Recorded (landed t st) turn = st.creator_patch_ref ≢ none
Recorded gone turn = Unit {0}
Recorded conflicted turn = IsBroken turn
Recorded failed turn = IsBroken turn

first_known-known : (o : Option ContributorRef) (c : ContributorRef) → first_known o (some c) ≢ none
first_known-known none c e = cc
first_known-known (some d) c e = cc

observe-creator :
    (o : Option Live) (st : TrackerStatus) → (observe o st).creator_patch_ref ≡ st.creator_patch_ref
observe-creator none st = refl
observe-creator (some live) st = refl

module _ {S W : Type 0} (outside : Outside S W) (target : Target) (world : World)
    (version_after : ℕ → ℕ) (attempts : ℕ) where
  -- a copy in memory that knows the creator, if there is one
  abbrev Remembers : Option Versioned → Type 0
  Remembers none = Unit {0}
  Remembers (some m) = m.status.creator_patch_ref ≢ none

  mutated-known :
      (creator : ContributorRef) (hash : Text) (old : TrackerStatus)
      → (provenance_mutation creator hash old).creator_patch_ref ≢ none
  unfolding provenance_mutation
  mutated-known creator hash old = first_known-known old.creator_patch_ref creator

  remembered-Remembers :
      (creator : ContributorRef) (hash : Text) (memory : Versioned) (w : Written)
      → IsMutated (provenance_mutation creator hash) w
      → Remembers (
          remembered outside target world version_after attempts memory
            (provenance_mutation creator hash memory.status)
            w)
  remembered-Remembers creator hash memory (landed t st) (old, same) =
      subst (λ s. s.creator_patch_ref ≢ none) (sym same) (mutated-known creator hash old)
  remembered-Remembers creator hash memory gone mutated = mutated-known creator hash memory.status
  remembered-Remembers creator hash memory conflicted mutated = tt
  remembered-Remembers creator hash memory failed mutated = tt

  abbrev Knows : Option (Pass S) → Type 0
  Knows none = Unit {0}
  Knows (some p) = p.memory.status.creator_patch_ref ≢ none

  with_memory-Knows :
      (p : Pass S) (o : Option Versioned)
      → Remembers o
      → Knows (with_memory outside target world version_after attempts p o)
  with_memory-Knows p none h = tt
  with_memory-Knows p (some m) h = h

  with_provenance-Knows :
      (report : Report) (rec : ContributorStatus) (base : Option Fields) (p : Pass S)
      → report.created ≡ true
      → Knows (with_provenance outside target world version_after attempts report rec base p)
  unfolding with_provenance record_provenance
  with_provenance-Knows report rec base p created =
      elim (Option-cases p.memory.status.creator_patch_ref) [
        | inr (c, known) ↦
            let passed : (report.created && is_none p.memory.status.creator_patch_ref) ≡ false =
              rw created (ap is_none known) in
            rw passed (λ e. cc (known, e))
        | inl unknown ↦
            let hash = base_hash_of outside target world version_after attempts base in
            let first : (report.created && is_none p.memory.status.creator_patch_ref) ≡ true =
              rw created (ap is_none unknown) in
            rw first (
              with_memory-Knows p _ (
                remembered-Remembers rec.patch_ref hash p.memory _ (
                  patch_status-IsMutated world (provenance_mutation rec.patch_ref hash) attempts
                    p.instant p.memory)))
      ]

  after_provenance-KnowsCreator :
      (report : Report) (contribution : Contribution) (rec : ContributorStatus) (p : Pass S)
      (o : Option (Pass S))
      → Knows o
      → KnowsCreator
          (after_provenance outside target world version_after attempts report contribution rec p o)
  after_provenance-KnowsCreator report contribution rec p none h = tt
  after_provenance-KnowsCreator report contribution rec p (some q) h =
      λ e. h (sym (observe-creator report.live q.memory.status) ∙ e)

  -- the write of the creator, and the turn after it
  remembered-Recorded :
      (creator : ContributorRef) (hash : Text) (report : Report) (contribution : Contribution)
      → (rec : ContributorStatus) (p : Pass S) (w : Written)
      → IsMutated (provenance_mutation creator hash) w
      → Recorded w (
          after_provenance outside target world version_after attempts report contribution rec p (
            with_memory outside target world version_after attempts p (
              remembered outside target world version_after attempts p.memory
                (provenance_mutation creator hash p.memory.status)
                w)))
  remembered-Recorded creator hash report contribution rec p (landed t st) (old, same) =
      subst (λ s. s.creator_patch_ref ≢ none) (sym same) (mutated-known creator hash old)
  remembered-Recorded creator hash report contribution rec p gone mutated = tt
  remembered-Recorded creator hash report contribution rec p conflicted mutated = tt
  remembered-Recorded creator hash report contribution rec p failed mutated = tt

  with_provenance-Recorded :
      (report : Report) (contribution : Contribution) (rec : ContributorStatus)
      (base : Option Fields) (p : Pass S)
      → report.created ≡ true
      → (p.memory.status.creator_patch_ref ≢ none)
        ⊎ Recorded
            (record_provenance world attempts p.instant p.memory rec.patch_ref
              (base_hash_of outside target world version_after attempts base))
            (after_provenance outside target world version_after attempts report contribution rec p
              (with_provenance outside target world version_after attempts report rec base p))
  unfolding with_provenance record_provenance
  with_provenance-Recorded report contribution rec base p created =
      elim (Option-cases p.memory.status.creator_patch_ref) [
        | inr (c, known) ↦ inl (λ e. cc (known, e))
        | inl unknown ↦
            let hash = base_hash_of outside target world version_after attempts base in
            let first : (report.created && is_none p.memory.status.creator_patch_ref) ≡ true =
              rw created (ap is_none unknown) in
            inr (
              rw first (
                remembered-Recorded rec.patch_ref hash report contribution rec p _ (
                  patch_status-IsMutated world (provenance_mutation rec.patch_ref hash) attempts
                    p.instant p.memory)))
      ]

  -- If an applier reports that it created the target, without a conflict, then the pass goes on only
  -- with a creator of the target in its copy of the tracker's status; and unless that copy named one
  -- before, the status that the pass then writes names one, and if it cannot be written, the pass ends
  -- with an error. Only a tracker that is gone keeps nothing.
  pub after_apply-KnowsCreator :
      (report : Report) (contribution : Contribution) (rec : ContributorStatus)
      (base : Option Fields) (p : Pass S)
      → report.conflict ≡ none
      → report.created ≡ true
      → KnowsCreator (
          after_apply outside target world version_after attempts
            (answered report)
            contribution
            rec
            base
            p)
        × ((p.memory.status.creator_patch_ref ≢ none)
            ⊎ Recorded
                (record_provenance world attempts p.instant p.memory rec.patch_ref
                  (base_hash_of outside target world version_after attempts base))
                (after_apply outside target world version_after attempts
                  (answered report)
                  contribution
                  rec
                  base
                  p))
  unfolding after_apply
  after_apply-KnowsCreator report contribution rec base p clean created = rw clean (
    after_provenance-KnowsCreator report contribution rec p _
        (with_provenance-Knows report rec base p created),
    with_provenance-Recorded report contribution rec base p created,
  )
