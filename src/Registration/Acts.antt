-- ===== src/Registration/Acts.antt =====
-- internal/controller/promotion.go: what the acts on a tracker leave of its status.
use patch_operator.Base.{
  ◌≡◌, ◌∙◌, refl, sym, ap, subst, inl, inr, Bool, true, false, Option, none, some, some-injective,
  List, [], ◌∷◌, Bool-cases,
}
use patch_operator.Api.Status.{PromotionRef, TrackerStatus}
use patch_operator.Tracker.Lifecycle.{
  Act, adds_finalizer, removes_finalizer, deletes_tracker, writes_status, Reply, done, not_found,
  refused, Object, finish_for, retire, unfence, unfenced, after_update,
}
use patch_operator.Registration.Calls.{Tracked}
use patch_operator.Registration.Steps.{Became}

-- What the acts write has a property.
abbrev pub Writes : (TrackerStatus → Type 0) → List Act → Type 0
Writes P [] = Unit {0}
Writes P (writes_status st ∷ acts) = P st × Writes P acts
Writes P (adds_finalizer ∷ acts) = Writes P acts
Writes P (removes_finalizer ∷ acts) = Writes P acts
Writes P (deletes_tracker ∷ acts) = Writes P acts

abbrev pub Holds : (TrackerStatus → Type 0) → Option Tracked → Type 0
Holds P o = (u : Tracked) → o ≡ some u → P u.status

none-Holds : (P : TrackerStatus → Type 0) (o : Option Tracked) → o ≡ none → Holds P o
none-Holds P o blank u e = cc (blank, e)

pub Became-Holds :
    (P : TrackerStatus → Type 0) (acts : List Act) (t : Tracked) (o : Option Tracked)
    → P t.status
    → Writes P acts
    → Became acts t o
    → (u : Tracked) → o ≡ some u
    → P u.status
Became-Holds P [] t o p w b u e = subst P (ap (λ x. x.status) (some-injective (sym b ∙ e))) p
Became-Holds P (adds_finalizer ∷ acts) t o p w (inl b) u e = Became-Holds P acts t o p w b u e
Became-Holds P (adds_finalizer ∷ acts) t o p w (inr b) u e =
    Became-Holds P acts (record t { has_finalizer = true }) o p w b u e
Became-Holds P (removes_finalizer ∷ acts) t o p w (inl b) u e = none-Holds P o b u e
Became-Holds P (removes_finalizer ∷ acts) t o p w (inr (inl b)) u e =
    Became-Holds P acts t o p w b u e
Became-Holds P (removes_finalizer ∷ acts) t o p w (inr (inr b)) u e =
    Became-Holds P acts (record t { has_finalizer = false }) o p w b u e
Became-Holds P (deletes_tracker ∷ acts) t o p w (inl b) u e = none-Holds P o b u e
Became-Holds P (deletes_tracker ∷ acts) t o p w (inr (inl b)) u e =
    Became-Holds P acts t o p w b u e
Became-Holds P (deletes_tracker ∷ acts) t o p w (inr (inr b)) u e =
    Became-Holds P acts (record t { deleting = true }) o p w b u e
Became-Holds P (writes_status st ∷ acts) t o p (q, w) (inl b) u e =
    Became-Holds P acts t o p w b u e
Became-Holds P (writes_status st ∷ acts) t o p (q, w) (inr b) u e =
    Became-Holds P acts (record t { status = st }) o q w b u e

module _ {S : Type 0} (reply : Act → Reply) (P : TrackerStatus → Type 0) where
  after_update-Writes : (s : S) (r : Reply) → Writes P (after_update reply s r).acts
  after_update-Writes s done = tt
  after_update-Writes s not_found = tt
  after_update-Writes s refused = tt

  retire-Writes : (b : Bool) (s : S) → Writes P (retire reply b s).acts
  retire-Writes true s = after_update-Writes s (reply removes_finalizer)
  retire-Writes false s = tt

  unfence-Writes :
      (s : S) (st : TrackerStatus) (r : Reply) → P st → Writes P (unfence reply s st r).acts
  unfence-Writes s st done p = (p, tt)
  unfence-Writes s st not_found p = (p, tt)
  unfence-Writes s st refused p = (p, tt)

  -- The end of a promotion writes nothing but the status without the fence, and that only where the
  -- successor is missing.
  pub finish_for-Writes :
      (p : Option PromotionRef) (o : Object) (successor : Reply) (s : S)
      → (successor ≡ not_found → P (unfenced o.memory.status))
      → Writes P (finish_for reply p o successor s).acts
  finish_for-Writes none o successor s h = tt
  finish_for-Writes (some ref) o not_found s h = unfence-Writes s _ _ (h refl)
  finish_for-Writes (some ref) o refused s h = tt
  finish_for-Writes (some ref) o done s h = elim (Bool-cases ref.adopted) [
    | inl adopted ↦ rw adopted (retire-Writes o.has_finalizer s)
    | inr waiting ↦ rw waiting tt
  ]
