-- ===== src/Registration/Completes.antt =====
-- internal/controller/promotion.go: a promotion to which the API server answers comes to its end.
use patch_operator.Base.{
  ℕ, ◌≡◌, ◌≢◌, ◌⊎◌, ◌∙◌, refl, sym, ap, subst, inl, inr, Bool, true, false, Option, none, some,
  is_some, List, [], ◌∷◌, Text, Bool-cases, Option-cases,
}
use patch_operator.Api.Status.{PromotionRef, TrackerStatus, is_fenced}
use patch_operator.Scope.{TargetKey}
use patch_operator.Tracker.Lifecycle.{
  Act, removes_finalizer, deletes_tracker, done, finish_promotion,
}
use patch_operator.Tracker.Pass.Step.{with_condition}
use patch_operator.Promotion.{adopt_status}
use patch_operator.Registration.Calls.{
  Tracked, ObjectKey, shared_resource, cluster_shared_resource, Read, found, nothing, WriteReply,
  accepted, existing, vanished, unsent, ApiServer, Lawful,
}
use patch_operator.Registration.Promote.{
  fenced_tracker, Fencing, stands, no_tracker, unfenced_still, fence, is_accepted, adopted_flag,
  new_tracker, flagged, copy_status, create_successor, after_create, flag_adoption, after_successor,
  after_fence, promote_if_needed,
}
use patch_operator.Registration.Writes.{create_successor-elsewhere, flag_adoption-elsewhere}
use patch_operator.Registration.Fence.{apart}
use patch_operator.Registration.Handed.{IsHeir, create_successor-IsHeir}
use patch_operator.Registration.Steps.{copy_of}

abbrev pub answer_of : Option Tracked → Read
answer_of none = nothing
answer_of (some t) = found t

-- A server that answers: an uncached read tells what is stored, the status of an object that is there
-- is written, an object stands after its creation, as it was made or as somebody else had, and the
-- cache answers, perhaps that there is no object, and shows none that has been deleted.
pub record Answers {S : Type 0} (api : ApiServer S) (live : S → ObjectKey → Option Tracked)
    : Type 0 where
  pub reads : (s : S) (k : ObjectKey) → api.read s k ≡ answer_of (live s k)
  pub writes :
      (s : S) (k : ObjectKey) (t u : Tracked)
      → live s k ≡ some u
      → (api.write_status s k t).1 ≡ accepted
  pub creates :
      (s : S) (k : ObjectKey) (t : Tracked)
      → ((api.create s k t).1 ≡ accepted) ⊎ ((api.create s k t).1 ≡ existing)
  pub stands_there :
      (s : S) (k : ObjectKey) (t : Tracked) → (u : Tracked) × (live (api.create s k t).0 k ≡ some u)
  pub caches :
      (s : S) (k : ObjectKey)
      → (api.cached s k ≡ nothing)
        ⊎ ((t : Tracked) × ((api.cached s k ≡ found t) × ((u : Tracked) × (live s k ≡ some u))))

-- A tracker is fenced, its adoption is not flagged, and for the rest it is another one.
record Ready (t u : Tracked) : Type 0 where
  ref : PromotionRef
  fenced : u.status.promoted_to ≡ some ref
  waiting : ref.adopted ≡ false
  contributors : u.status.contributors ≡ t.status.contributors
  finalizer : u.has_finalizer ≡ t.has_finalizer

fenced_tracker-Ready : (now : ℕ) (name : Text) (t : Tracked) → Ready t (fenced_tracker now name t)
unfolding fenced_tracker with_condition
fenced_tracker-Ready now name t = record {
  ref = record { name = name; adopted = false };
  fenced = refl;
  waiting = refl;
  contributors = refl;
  finalizer = refl;
}

self-Ready :
    (t : Tracked)
    → is_fenced t.status ≡ true
    → adopted_flag t.status.promoted_to ≡ false
    → Ready t t
self-Ready t fenced waiting = elim (Option-cases t.status.promoted_to) [
  | inl free ↦ cc (fenced, ap is_some free)
  | inr (r, known) ↦ record {
    ref = r;
    fenced = known;
    waiting = sym (ap adopted_flag known) ∙ waiting;
    contributors = refl;
    finalizer = refl;
  }
]

-- The acts of the tracker controller on a tracker whose promotion has come to its end.
abbrev pub retirement : Bool → List Act
retirement true = removes_finalizer ∷ deletes_tracker ∷ []
retirement false = deletes_tracker ∷ []

flagged-retires :
    (ref : PromotionRef) (u : Tracked) (version : ℕ)
    → (finish_promotion (λ a. done) (copy_of version (flagged ref u)) done tt).acts
      ≡ retirement u.has_finalizer
unfolding finish_promotion
flagged-retires ref u version = elim (Bool-cases u.has_finalizer) [
  | inl e ↦ rw e refl
  | inr e ↦ rw e refl
]

module _ {S : Type 0} {api : ApiServer S} {live : S → ObjectKey → Option Tracked}
    (law : Lawful api live) (answers : Answers api live) (now : ℕ) (message : ℕ → Text) where
  reads-some : (s : S) (k : ObjectKey) (t : Tracked) → live s k ≡ some t → api.read s k ≡ found t
  reads-some s k t there = answers.reads s k ∙ ap answer_of there

  fence-answers :
      (n : ObjectKey) (name : Text) (s : S) (t : Tracked)
      → live s n ≡ some t
      → adopted_flag t.status.promoted_to ≡ false
      → ((fence api now message n name s).1 ≡ stands)
        × ((u : Tracked) × ((live (fence api now message n name s).0 n ≡ some u) × Ready t u))
  unfolding fence
  fence-answers n name s t there waiting = elim (Bool-cases (is_fenced t.status)) [
    | inl fenced ↦
        rw (reads-some s n t there, fenced) (refl, (t, (there, self-Ready t fenced waiting)))
    | inr free ↦
        let u = fenced_tracker now name t in
        let landed = answers.writes s n u t there in
        rw (reads-some s n t there, free, landed)
          (refl, (u, (law.write-accepted s n u landed, fenced_tracker-Ready now name t)))
  ]

  copy_status-answers :
      (c : ObjectKey) (old : TrackerStatus) (s : S) (u : Tracked)
      → live s c ≡ some u
      → (copy_status api now message c old s).1 ≡ true
  unfolding copy_status
  copy_status-answers c old s u there =
      let landed =
        answers.writes s c (record u { status = adopt_status now message u.status old }) u there in
      rw (reads-some s c u there, landed) refl

  after_create-answers :
      (c : ObjectKey) (old : TrackerStatus) (s : S) (x : WriteReply) (u : Tracked)
      → (x ≡ accepted) ⊎ (x ≡ existing)
      → live s c ≡ some u
      → (after_create api now message c old (s, x)).1 ≡ true
  after_create-answers c old s accepted u ok there = copy_status-answers c old s u there
  after_create-answers c old s existing u ok there = copy_status-answers c old s u there
  after_create-answers c old s vanished u (inl e) there = cc e
  after_create-answers c old s vanished u (inr e) there = cc e
  after_create-answers c old s unsent u (inl e) there = cc e
  after_create-answers c old s unsent u (inr e) there = cc e

  create_successor-answers :
      (c : ObjectKey) (key : TargetKey) (old : TrackerStatus) (s : S)
      → (create_successor api now message c key old s).1 ≡ true
  unfolding create_successor
  create_successor-answers c key old s = elim (Bool-cases (adopted_flag old.promoted_to)) [
    | inl adopted ↦ rw adopted refl
    | inr waiting ↦ elim (answers.caches s c) [
      | inl e ↦
          let made = api.create s c (new_tracker key) in
          let (u, there) = answers.stands_there s c (new_tracker key) in
          rw (waiting, e)
            (after_create-answers c old made.0 made.1 u (answers.creates s c (new_tracker key))
              there)
      | inr (t, (e, (u, there))) ↦ rw (waiting, e) (copy_status-answers c old s u there)
    ]
  ]

  flag_adoption-answers :
      (n : ObjectKey) (s : S) (u : Tracked) (ref : PromotionRef)
      → live s n ≡ some u
      → u.status.promoted_to ≡ some ref
      → ref.adopted ≡ false
      → ((flag_adoption api now message n s).1 ≡ true)
        × (live (flag_adoption api now message n s).0 n ≡ some (flagged ref u))
  unfolding flag_adoption
  flag_adoption-answers n s u ref there fenced waiting =
      let landed = answers.writes s n (flagged ref u) u there in
      rw (reads-some s n u there, fenced, waiting)
        (ap is_accepted landed, law.write-accepted s n (flagged ref u) landed)

  after_successor-ok :
      (n : ObjectKey) (x : S × Bool)
      → x.1 ≡ true
      → after_successor api now message n x ≡ flag_adoption api now message n x.0
  after_successor-ok n (s, true) ok = refl
  after_successor-ok n (s, false) ok = cc ok

  module _ (n c : ObjectKey) (apart_keys : c ≢ n) (key : TargetKey) where
    after_fence-stands :
        (x : S × Fencing) (u : Tracked)
        → x.1 ≡ stands
        → live x.0 n ≡ some u
        → (create_successor api now message c key u.status x.0).1 ≡ true
        → after_fence api now message n c key x
          ≡ flag_adoption api now message n (create_successor api now message c key u.status x.0).0
    after_fence-stands (s, stands) u e there ok =
        rw (reads-some s n u there)
          (after_successor-ok n (create_successor api now message c key u.status s) ok)
    after_fence-stands (s, no_tracker) u e there ok = cc e
    after_fence-stands (s, unfenced_still) u e there ok = cc e

    after_fence-answers :
        (x : S × Fencing) (t u : Tracked) (version : ℕ)
        → x.1 ≡ stands
        → live x.0 n ≡ some u
        → Ready t u
        → ((after_fence api now message n c key x).1 ≡ true)
          × (IsHeir t.status.contributors (live (after_fence api now message n c key x).0 c)
              × ((w : Tracked) × ((live (after_fence api now message n c key x).0 n ≡ some w)
                    × ((finish_promotion (λ a. done) (copy_of version w) done tt).acts
                        ≡ retirement t.has_finalizer))))
    after_fence-answers x t u version ok there ready =
        let waiting : adopted_flag u.status.promoted_to ≡ false =
          ap adopted_flag ready.fenced ∙ ready.waiting in
        let made = create_successor api now message c key u.status x.0 in
        let well = create_successor-answers c key u.status x.0 in
        let heir : IsHeir t.status.contributors (live made.0 c) =
          subst (λ l. IsHeir l (live made.0 c)) ready.contributors
            (create_successor-IsHeir law now message c key u.status x.0 waiting well) in
        let kept : live made.0 n ≡ some u =
          create_successor-elsewhere law now message c key u.status x.0 n (λ e. apart_keys (sym e))
          ∙ there in
        let (flag_well, flag_there) =
          flag_adoption-answers n made.0 u ready.ref kept ready.fenced ready.waiting in
        rw (after_fence-stands x u ok there well) (
          flag_well,
          (
            subst (IsHeir t.status.contributors)
                (sym (flag_adoption-elsewhere law now message n made.0 c apart_keys)) heir,
            (
              flagged ready.ref u,
              (flag_there, flagged-retires ready.ref u version ∙ ap retirement ready.finalizer),
            ),
          ),
        )

  -- With an API server that answers each call, lets the status of an object that is there be written,
  -- and has a cache that shows no deleted object, a promotion of a namespaced tracker whose adoption
  -- is not flagged yet, at whatever step an earlier one ended, returns no error; the successor is there and
  -- lists each of the contributors; and the tracker controller then drops the finalizer of the
  -- namespaced tracker, if it has one, and deletes it.
  pub promote_if_needed-completes :
      (name : Text) (key : TargetKey) (s : S) (t : Tracked) (version : ℕ)
      → live s (shared_resource key.namespace name) ≡ some t
      → adopted_flag t.status.promoted_to ≡ false
      → ((promote_if_needed api now message name key s).1 ≡ true)
        × (IsHeir t.status.contributors
              (live (promote_if_needed api now message name key s).0 (cluster_shared_resource name))
            × ((w : Tracked) × ((live
                      (promote_if_needed api now message name key s).0
                      (shared_resource key.namespace name)
                    ≡ some w)
                  × ((finish_promotion (λ a. done) (copy_of version w) done tt).acts
                      ≡ retirement t.has_finalizer))))
  unfolding promote_if_needed
  promote_if_needed-completes name key s t version there waiting =
      let n = shared_resource key.namespace name in
      let (ok, (u, (fenced, ready))) = fence-answers n name s t there waiting in
      after_fence-answers n (cluster_shared_resource name) (apart key.namespace name name) key
        (fence api now message n name s) t u version ok fenced ready
