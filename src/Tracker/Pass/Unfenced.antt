-- ===== src/Tracker/Pass/Unfenced.antt =====
-- internal/controller/tracker_controller.go: the pointer of a promotion in the status that a pass
-- works on.
use patch_operator.Base.{
  ℕ, zero, suc, ◌+◌, ◌*◌, ◌≡◌, inl, inr, ◌&&◌, Option, none, some, List, Text, is_none, eqb,
  Bool-cases,
}
use patch_operator.Api.{ContributorRef}
use patch_operator.Api.Status.{TrackerStatus, ContributorStatus, ConflictStatus}
use patch_operator.Json.{Fields}
use patch_operator.Render.{Target, Contribution}
use patch_operator.Tracker.Writes.{
  Versioned, World, stored, Written, landed, gone, conflicted, failed, patch_status, write_mutation,
  write_status, provenance_mutation, record_provenance,
}
use patch_operator.Tracker.Writes.Laws.{Seen-cases}
use patch_operator.Tracker.Records.{ContributorRecord}
use patch_operator.Tracker.Appliers.{
  FieldConflict, Live, Report, ApplyAnswer, answered, absent, concurrent, failure, Applier, Outside,
  applier_for, decode_prior_values, base_for,
}
use patch_operator.Tracker.Conflicts.{is_superseded_on}
use patch_operator.Tracker.Pass.Step.{
  Pass, Turn, kept, halted, observe, base_hash_of, remembered, with_memory, with_provenance,
  after_provenance, after_report, after_apply, apply_with, request_of, on_base, on_priors,
  on_superseded, on_applier, turn,
}

-- A status that points to no successor.
abbrev pub IsFree : TrackerStatus → Type 0
IsFree st = st.promoted_to ≡ none

abbrev pub WritesFree : Written → Type 0
WritesFree (landed t st) = IsFree st
WritesFree w = Unit {0}

-- Whatever is stored points to no successor.
abbrev pub ShowsFree : World → Type 0
ShowsFree world = (t : ℕ) (v : Versioned) → world t ≡ stored v → IsFree v.status

abbrev pub TurnsFree : {S : Type 0} → Turn S → Type 0
TurnsFree (kept p rec) = IsFree p.memory.status
TurnsFree (halted p halt) = IsFree p.memory.status

observe-IsFree : (live : Option Live) (st : TrackerStatus) → IsFree st → IsFree (observe live st)
observe-IsFree none st free = free
observe-IsFree (some live) st free = free

module _ (world : World) (shows : ShowsFree world) where
  patch_status-IsFree :
      (mutate : TrackerStatus → TrackerStatus)
      → ((st : TrackerStatus) → IsFree st → IsFree (mutate st))
      → (attempts t : ℕ) (memory : Versioned) → IsFree memory.status
      → WritesFree (patch_status world mutate attempts t memory)
  unfolding patch_status
  patch_status-IsFree mutate keeps zero t memory free = tt
  patch_status-IsFree mutate keeps (suc attempts) t memory free = elim (Seen-cases (world t)) [
    | inr (inl e) ↦ rw (e, patch_status) tt
    | inr (inr e) ↦ rw (e, patch_status) tt
    | inl (s, e) ↦ elim (Bool-cases (eqb s.version memory.version)) [
      | inl same ↦ rw (e, same, patch_status) (keeps memory.status free)
      | inr stale ↦ elim (Seen-cases (world (t + 1))) [
        | inr (inl f) ↦ rw (e, stale, f, patch_status) tt
        | inr (inr f) ↦ rw (e, stale, f, patch_status) tt
        | inl (fresh, f) ↦ elim (Seen-cases (world (t + 2))) [
          | inr (inl g) ↦ rw (e, stale, f, g, patch_status) tt
          | inr (inr g) ↦ rw (e, stale, f, g, patch_status) tt
          | inl (now, g) ↦ elim (Bool-cases (eqb now.version fresh.version)) [
            | inl same ↦
                rw (e, stale, f, g, same, patch_status) (keeps fresh.status (shows (t + 1) fresh f))
            | inr lost ↦
                rw (e, stale, f, g, lost, patch_status)
                  (patch_status-IsFree mutate keeps attempts (t + 3)
                    (record memory { status = mutate memory.status }) (keeps memory.status free))
          ]
        ]
      ]
    ]
  ]

  pub write_status-IsFree :
      (attempts t : ℕ) (memory : Versioned) (records : Option (List ContributorStatus))
      → (conflicts : List ConflictStatus) → IsFree memory.status
      → WritesFree (write_status world attempts t memory records conflicts)
  unfolding write_status write_mutation
  write_status-IsFree attempts t memory records conflicts free =
      patch_status-IsFree (write_mutation memory.status records conflicts) (λ st h. h) attempts t
        memory free

  record_provenance-IsFree :
      (attempts t : ℕ) (memory : Versioned) (creator : ContributorRef) (base_hash : Text)
      → IsFree memory.status
      → WritesFree (record_provenance world attempts t memory creator base_hash)
  unfolding record_provenance provenance_mutation
  record_provenance-IsFree attempts t memory creator base_hash free =
      patch_status-IsFree (provenance_mutation creator base_hash) (λ st h. h) attempts t memory free

  module _ {S W : Type 0} (outside : Outside S W) (target : Target) (version_after : ℕ → ℕ)
      (attempts : ℕ) where
    PassFree : Option (Pass S) → Type 0
    PassFree none = Unit {0}
    PassFree (some p) = IsFree p.memory.status

    with_memory-IsFree :
        (p : Pass S) (mutated : TrackerStatus) (w : Written)
        → IsFree p.memory.status
        → IsFree mutated
        → WritesFree w
        → PassFree (
            with_memory outside target world version_after attempts p
              (remembered outside target world version_after attempts p.memory mutated w))
    unfolding PassFree
    with_memory-IsFree p mutated (landed t st) free free' h = h
    with_memory-IsFree p mutated gone free free' h = free'
    with_memory-IsFree p mutated conflicted free free' h = tt
    with_memory-IsFree p mutated failed free free' h = tt

    with_provenance-IsFree :
        (report : Report) (rec : ContributorStatus) (base : Option Fields) (p : Pass S)
        → IsFree p.memory.status
        → PassFree (with_provenance outside target world version_after attempts report rec base p)
    unfolding with_provenance provenance_mutation PassFree
    with_provenance-IsFree report rec base p free =
        let hash = base_hash_of outside target world version_after attempts base in
        elim (Bool-cases (report.created && is_none p.memory.status.creator_patch_ref)) [
          | inl new ↦ rw new (
              with_memory-IsFree p (provenance_mutation rec.patch_ref hash p.memory.status)
                (record_provenance world attempts p.instant p.memory rec.patch_ref hash) free free
                (record_provenance-IsFree attempts p.instant p.memory rec.patch_ref hash free))
          | inr known ↦ rw known free
        ]

    after_provenance-IsFree :
        (report : Report) (contribution : Contribution) (rec : ContributorStatus) (p : Pass S)
        → (q : Option (Pass S)) → IsFree p.memory.status
        → PassFree q
        → TurnsFree (
            after_provenance outside target world version_after attempts report contribution rec p
              q)
    unfolding PassFree
    after_provenance-IsFree report contribution rec p none free h = free
    after_provenance-IsFree report contribution rec p (some q) free h =
        observe-IsFree report.live q.memory.status h

    after_report-IsFree :
        (conflict : Option FieldConflict) (report : Report) (contribution : Contribution)
        → (rec : ContributorStatus) (base : Option Fields) (p : Pass S) → IsFree p.memory.status
        → TurnsFree (
            after_report outside target world version_after attempts conflict report contribution
              rec base p)
    after_report-IsFree (some conflict) report contribution rec base p free = free
    after_report-IsFree none report contribution rec base p free =
        after_provenance-IsFree report contribution rec p
          (with_provenance outside target world version_after attempts report rec base p) free
          (with_provenance-IsFree report rec base p free)

    after_apply-IsFree :
        (answer : ApplyAnswer) (contribution : Contribution) (rec : ContributorStatus)
        → (base : Option Fields) (p : Pass S) → IsFree p.memory.status
        → TurnsFree
            (after_apply outside target world version_after attempts answer contribution rec base p)
    unfolding after_apply
    after_apply-IsFree absent contribution rec base p free = free
    after_apply-IsFree concurrent contribution rec base p free = free
    after_apply-IsFree (failure message) contribution rec base p free = free
    after_apply-IsFree (answered report) contribution rec base p free =
        after_report-IsFree report.conflict report contribution rec base p free

    apply_with-IsFree :
        (applier : Applier S) (c : ContributorRecord) (contribution : Contribution)
        → (priors : Fields) (base : Option Fields) (p : Pass S) → IsFree p.memory.status
        → TurnsFree (
            apply_with outside target world version_after attempts applier c contribution priors
              base p)
    apply_with-IsFree applier c contribution priors base p free =
        let asked =
          applier.apply p.world
            (request_of outside target world version_after attempts c contribution priors base) in
        after_apply-IsFree asked.1 contribution c.status base (record p { world = asked.0 }) free

    on_base-IsFree :
        (base : Option (Option Fields)) (applier : Applier S) (c : ContributorRecord)
        → (contribution : Contribution) (priors : Fields) (p : Pass S) → IsFree p.memory.status
        → TurnsFree (
            on_base outside target world version_after attempts base applier c contribution priors
              p)
    on_base-IsFree none applier c contribution priors p free = free
    on_base-IsFree (some base) applier c contribution priors p free =
        apply_with-IsFree applier c contribution priors base p free

    on_priors-IsFree :
        (priors : Option Fields) (applier : Applier S) (c : ContributorRecord)
        → (contribution : Contribution) (p : Pass S) → IsFree p.memory.status
        → TurnsFree
            (on_priors outside target world version_after attempts priors applier c contribution p)
    on_priors-IsFree none applier c contribution p free = free
    on_priors-IsFree (some priors) applier c contribution p free =
        on_base-IsFree (base_for outside c.contributor.spec.base) applier c contribution priors p
          free

    on_superseded-IsFree :
        (holder : Option Text) (applier : Applier S) (c : ContributorRecord)
        → (contribution : Contribution) (visited : List (Text × List ℕ)) (p : Pass S)
        → IsFree p.memory.status
        → TurnsFree (
            on_superseded outside target world version_after attempts holder applier c contribution
              visited p)
    on_superseded-IsFree (some holder) applier c contribution visited p free = free
    on_superseded-IsFree none applier c contribution visited p free =
        on_priors-IsFree (decode_prior_values outside c.status.prior_values) applier c contribution
          p free

    on_applier-IsFree :
        (applier : Option (Applier S)) (i : ℕ) (active : List ContributorRecord)
        → (path_claims : List (Text × List ℕ)) (c : ContributorRecord)
        → (contribution : Contribution) (p : Pass S) → IsFree p.memory.status
        → TurnsFree (
            on_applier outside target world version_after attempts applier i active path_claims c
              contribution p)
    on_applier-IsFree none i active path_claims c contribution p free = free
    on_applier-IsFree (some applier) i active path_claims c contribution p free =
        on_superseded-IsFree (is_superseded_on c active (outside.visit (2 * i) path_claims)) applier
          c contribution (outside.visit (2 * i + 1) path_claims) p free

    -- A turn of the pass on a status that points to no successor leaves it without one.
    pub turn-IsFree :
        (i : ℕ) (active : List ContributorRecord) (path_claims : List (Text × List ℕ))
        → (c : ContributorRecord) (contribution : Contribution) (p : Pass S)
        → IsFree p.memory.status
        → TurnsFree
            (turn outside target world version_after attempts i active path_claims c contribution p)
    unfolding turn
    turn-IsFree i active path_claims c contribution p free =
        on_applier-IsFree (applier_for outside c.contributor) i active path_claims c contribution p
          free
