-- ===== src/Tracker/Withdraw/Laws.antt =====
-- internal/controller/tracker_controller.go: who can have a target deleted.
use mathlib.Core.List.{Mem, mem-cons_self, mem-cons_of_mem, forall_mem-cons, not-mem-nil}
use patch_operator.Base.{
  ◌≡◌, ◌∙◌, refl, sym, ap, inl, inr, Bool, true, false, some, some-injective, ◌⊎◌, List, [], ◌∷◌,
  Bool-cases, Option-cases, ◌&&◌,
}
use patch_operator.Api.{ContributorRef}
use patch_operator.Api.Refs.{same_contributor}
use patch_operator.Api.Status.{TrackerStatus}
use patch_operator.Render.{Target}
use patch_operator.Tracker.Records.{ContributorRecord}
use patch_operator.Tracker.Appliers.{Outside}
use patch_operator.Tracker.Withdraw.{is_delete_policy, asks_as, wants_delete, maybe_delete_target}

-- The target may go: the operator created it, and of the contributors that leave one asks for the
-- deletion and is the one that created it.
pub record MayDelete (status : TrackerStatus) (cs : List ContributorRecord) : Type 0 where
  pub created : status.created_by_operator ≡ true
  pub creator : ContributorRef
  pub known : status.creator_patch_ref ≡ some creator
  pub leaver : ContributorRecord
  pub leaves : Mem leaver cs
  pub asks : is_delete_policy leaver.contributor.spec.lifecycle.on_release ≡ true
  pub same : same_contributor leaver.status.patch_ref creator ≡ true

-- A record that asks for the deletion as the creator is found.
abbrev Wants : ContributorRef → List ContributorRecord → ContributorRecord → Type 0
Wants creator cs c = asks_as creator c ≡ true → wants_delete creator cs ≡ true

Wants-prop :
    (creator : ContributorRef) (cs : List ContributorRecord) (c : ContributorRecord)
    → IsProp (Wants creator cs c)
Wants-prop creator cs c = hlevel

wants_delete-mem :
    (creator : ContributorRef) (cs : List ContributorRecord) (c : ContributorRecord)
    → Mem c cs
    → asks_as creator c ≡ true
    → wants_delete creator cs ≡ true
unfolding wants_delete
wants_delete-mem creator [] c m asks = absurd (not-mem-nil m)
wants_delete-mem creator (d ∷ cs) c m asks =
    (forall_mem-cons (Wants-prop creator (d ∷ cs))).1
      (
        (λ e. rw e refl),
        (λ x n e. elim (Bool-cases (asks_as creator d)) [
          | inl first ↦ rw first refl
          | inr passed ↦ rw passed (wants_delete-mem creator cs x n e)
        ]),
      )
      c m asks

wants_delete-asks :
    (creator : ContributorRef) (cs : List ContributorRecord)
    → wants_delete creator cs ≡ true
    → (c : ContributorRecord) × (Mem c cs × (asks_as creator c ≡ true))
unfolding wants_delete
wants_delete-asks creator [] e = cc
wants_delete-asks creator (c ∷ cs) e = elim (Bool-cases (asks_as creator c)) [
  | inl first ↦ (c, (mem-cons_self, first))
  | inr passed ↦
      let (d, (m, asks)) = wants_delete-asks creator cs (rw passed at e) in
      (d, (mem-cons_of_mem c m, asks))
]

both_true : (a b : Bool) → (a && b) ≡ true → (a ≡ true) × (b ≡ true)
both_true true b e = (refl, e)
both_true false b e = cc

asks-MayDelete :
    (status : TrackerStatus) (cs : List ContributorRecord) (creator : ContributorRef)
    → status.created_by_operator ≡ true
    → status.creator_patch_ref ≡ some creator
    → wants_delete creator cs ≡ true
    → MayDelete status cs
asks-MayDelete status cs creator created known wants =
    let (c, (m, asks)) = wants_delete-asks creator cs wants in
    let (deletes, same) = both_true _ _ asks in
    record {
      created = created;
      creator = creator;
      known = known;
      leaver = c;
      leaves = m;
      asks = deletes;
      same = same;
    }

MayDelete-wants :
    (status : TrackerStatus) (cs : List ContributorRecord) (creator : ContributorRef)
    → status.creator_patch_ref ≡ some creator
    → wants_delete creator cs ≡ false
    → ¬ MayDelete status cs
MayDelete-wants status cs creator known stays may =
    let same : may.creator ≡ creator = some-injective (sym may.known ∙ known) in
    let wants =
      wants_delete-mem may.creator cs may.leaver may.leaves (rw (may.asks, may.same) refl) in
    cc (ap (λ c. wants_delete c cs) same, wants, stays)

module _ {S W : Type 0} (outside : Outside S W) (target : Target) where
  -- The target is deleted if the operator created it and the contributor that created it is among
  -- those that leave and asks for the deletion; in every other case nothing at all is done.
  pub maybe_delete_target-MayDelete :
      (status : TrackerStatus) (cs : List ContributorRecord) (s : S)
      → (MayDelete status cs
          × (maybe_delete_target outside target status cs s ≡ outside.delete_target s target))
        ⊎ (¬ MayDelete status cs × (maybe_delete_target outside target status cs s ≡ (s, true)))
  unfolding maybe_delete_target
  maybe_delete_target-MayDelete status cs s = elim (Bool-cases status.created_by_operator) [
    | inr foreign ↦ inr ((λ may. cc (foreign, may.created)), rw foreign refl)
    | inl created ↦ elim (Option-cases status.creator_patch_ref) [
      | inl unknown ↦ inr ((λ may. cc (unknown, may.known)), rw (created, unknown) refl)
      | inr (creator, known) ↦ elim (Bool-cases (wants_delete creator cs)) [
        | inl wants ↦
            inl (
              asks-MayDelete status cs creator created known wants,
              rw (created, known, wants) refl,
            )
        | inr stays ↦
            inr (MayDelete-wants status cs creator known stays, rw (created, known, stays) refl)
      ]
    ]
  ]
