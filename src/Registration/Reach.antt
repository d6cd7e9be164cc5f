-- ===== src/Registration/Reach.antt =====
-- internal/controller: contributors that register, and trackers that reconcile, in any order.
use patch_operator.Base.{
  ℕ, ◌≡◌, ◌≢◌, ◌⊎◌, ◌∙◌, refl, sym, ap, subst, inl, inr, true, false, Option, none, some, is_some,
  Text,
}
use patch_operator.Api.Status.{PromotionRef, TrackerStatus, is_fenced}
use patch_operator.Scope.{TargetKey, is_cluster_scoped_target}
use patch_operator.Scope.Names.{tracker_name}
use patch_operator.Tracker.Lifecycle.{
  Act, Reply, done, not_found, refused, finish_promotion, unfenced, Reconciled, reconcile,
}
use patch_operator.Registration.Calls.{
  Tracked, ObjectKey, shared_resource, cluster_shared_resource, ApiServer, Lawful,
}
use patch_operator.Registration.Fence.{IsNamed, OneWriter, apart}
use patch_operator.Tracker.Lifecycle.Unfenced.{WritesFreeIf, reconcile-SetsNoFence}
use patch_operator.Tracker.Writes.{provenance_mutation}
use patch_operator.Tracker.Appliers.{Outside}
use patch_operator.Registration.Steps.{
  Leaves, Became, copy_of, Step, registers, finishes, reconciles, Reach, here, next,
}
use patch_operator.Registration.Keeps.{ensure_tracker-keeps}
use patch_operator.Registration.Acts.{Holds, Became-Holds, finish_for-Writes}

-- the statuses of a tracker that is fenced, and of one that names its successor as itself
abbrev Fenced : TrackerStatus → Type 0
Fenced st = is_fenced st ≡ true

abbrev NamedAs : Text → TrackerStatus → Type 0
NamedAs name st = (ref : PromotionRef) → st.promoted_to ≡ some ref → ref.name ≡ name

unfenced-NamedAs : (name : Text) (st : TrackerStatus) → NamedAs name (unfenced st)
unfenced-NamedAs name st ref e = cc e

unfenced_now-NamedAs : (name : Text) (st : TrackerStatus) → is_fenced st ≡ false → NamedAs name st
unfenced_now-NamedAs name st free ref e = cc (free, ap is_some e)

Reply-missing : (r : Reply) → (r ≡ not_found) ⊎ (r ≢ not_found)
Reply-missing done = inr (λ e. cc e)
Reply-missing not_found = inl refl
Reply-missing refused = inr (λ e. cc e)

IsNamed-of : (name : Text) (o : Option Tracked) → Holds (NamedAs name) o → IsNamed name o
IsNamed-of name o h t ref e fenced = h t e ref fenced

Leaves-unfenced :
    {X : Type 0} (r : Reconciled X) (t : Tracked) (st : TrackerStatus)
    → is_fenced t.status ≡ false
    → WritesFreeIf r.write
    → Leaves r t st
    → is_fenced st ≡ false
unfolding provenance_mutation
Leaves-unfenced r t st free writes (inl same) = ap is_fenced same ∙ free
Leaves-unfenced r t st free writes (inr (inl (creator, (base_hash, same)))) =
    ap is_fenced same ∙ free
Leaves-unfenced r t st free writes (inr (inr (at, wrote))) =
    ap is_some (subst WritesFreeIf wrote writes)

module _ {S : Type 0} {api : ApiServer S} {live : S → ObjectKey → Option Tracked}
    (law : Lawful api live) (message : ℕ → Text) (digest : Text → Text) (key : TargetKey) where
  abbrev name : Text
  name = tracker_name digest key

  abbrev n : ObjectKey
  n = shared_resource key.namespace (tracker_name digest key)

  abbrev c : ObjectKey
  c = cluster_shared_resource (tracker_name digest key)

  abbrev One : S → Type 0
  One s = OneWriter (tracker_name digest key) (live s n) (live s c)

  -- a run of another tracker than the namespaced one: the namespaced one stays
  One-aside :
      (s s' : S) → live s' n ≡ live s n → (live s c ≡ none → live s' c ≡ none) → One s → One s'
  One-aside s s' e keeps (named, one) =
      (rw e named, elim one [ inl blank ↦ inl (keeps blank) | inr retired ↦ inr (rw e retired) ])

  finishes-One :
      (s s' : S) (k : ObjectKey) (t : Tracked) (ref : PromotionRef) (version : ℕ)
      → (reply : Act → Reply) (successor : Reply) → live s k ≡ some t
      → t.status.promoted_to ≡ some ref
      → (successor ≡ not_found → live s (cluster_shared_resource ref.name) ≡ none)
      → Became (finish_promotion reply (copy_of version t) successor s).acts t (live s' k)
      → ((j : ObjectKey) → (j ≡ k) ⊎ (live s' j ≡ live s j))
      → One s
      → One s'
  unfolding finish_promotion
  finishes-One s s' k t ref version reply successor there fenced honest became frame one =
      elim (frame n) [
        | inr same ↦
            One-aside s s' same
              (λ blank. elim (frame c) [
                | inl e ↦ cc (ap (live s) e, blank, there)
                | inr f ↦ f ∙ blank
              ])
              one
        | inl e ↦
            let here_n : live s n ≡ some t = ap (live s) e ∙ there in
            let became_n : Became (finish_promotion reply (copy_of version t) successor s).acts t
                (live s' n) =
              subst
                (λ j.
                  Became (finish_promotion reply (copy_of version t) successor s).acts t
                    (live s' j))
                (sym e) became in
            let same_name : ref.name ≡ name = one.0 t ref here_n fenced in
            let same_c : live s' c ≡ live s c = elim (frame c) [
              | inl f ↦ absurd (apart key.namespace name name (f ∙ sym e))
              | inr f ↦ f
            ] in
            let named : IsNamed name (live s' n) = IsNamed-of name (live s' n) (
              Became-Holds (NamedAs name) _ t (live s' n) (λ r known. one.0 t r here_n known)
                (finish_for-Writes reply (NamedAs name) t.status.promoted_to (copy_of version t)
                  successor s (λ gone. unfenced-NamedAs name t.status))
                became_n) in
            elim (Reply-missing successor) [
              | inl gone ↦ (
                named,
                inl (
                    same_c
                    ∙ ap (λ x. live s (cluster_shared_resource x)) (sym same_name)
                    ∙ honest gone),
              )
              | inr kept ↦ (
                named,
                inr (
                    Became-Holds Fenced _ t (live s' n) (ap is_some fenced)
                      (finish_for-Writes reply Fenced t.status.promoted_to (copy_of version t)
                        successor s (λ gone. absurd (kept gone)))
                      became_n),
              )
            ]
      ]

  reconciles-One :
      (s s' : S) (k : ObjectKey) (t : Tracked)
      → live s k ≡ some t
      → is_fenced t.status ≡ false
      → ((u : Tracked) → live s' k ≡ some u → is_fenced u.status ≡ false)
      → ((j : ObjectKey) → (j ≡ k) ⊎ (live s' j ≡ live s j))
      → One s
      → One s'
  reconciles-One s s' k t there free after frame one = elim (frame n) [
    | inr same ↦
        One-aside s s' same
          (λ blank. elim (frame c) [ inl e ↦ cc (ap (live s) e, blank, there) | inr f ↦ f ∙ blank ])
          one
    | inl e ↦
        let here_n : live s n ≡ some t = ap (live s) e ∙ there in
        let blank : live s c ≡ none = elim one.1 [
          | inl none_there ↦ none_there
          | inr retired ↦ cc (retired t here_n, free)
        ] in
        let same_c : live s' c ≡ live s c = elim (frame c) [
          | inl f ↦ absurd (apart key.namespace name name (f ∙ sym e))
          | inr f ↦ f
        ] in
        (
          λ u ref known fenced.
              unfenced_now-NamedAs name u.status (after u (ap (live s') (sym e) ∙ known)) ref
                fenced,
          inl (same_c ∙ blank),
        )
  ]

  module _ {X W : Type 0} (outside : Outside X W) where
    Step-One :
        {s s' : S}
        → is_cluster_scoped_target key ≡ false
        → Step outside api live message digest key s s'
        → One s
        → One s'
    Step-One within (registers now s contributor at separate) one =
        ensure_tracker-keeps law message digest key now contributor at s within separate one
    Step-One within (finishes s s' k t ref version reply successor there fenced honest became frame)
          one =
        finishes-One s s' k t ref version reply successor there fenced honest became frame one
    Step-One within
          (reconciles s s' k t x target world version attempts at version_after reply successor
            listed there free shows leaves frame)
          one =
        reconciles-One s s' k t there free
          (λ u e.
            Leaves-unfenced
              (reconcile reply outside target world version_after attempts at successor
                (copy_of version t) listed x)
              t u.status free
              (reconcile-SetsNoFence reply outside target world shows version_after attempts at
                successor (copy_of version t) listed x free).1
              (leaves u e))
          frame one

    -- Of a namespaced target, at most one tracker writes, in every state that runs of the controllers
    -- lead to from one in which there is no tracker of it: while its ClusterSharedResource is there,
    -- its SharedResource is gone or fenced. A run may fail at any call, and the next takes over. The
    -- runs follow one another: the trackers are as the reconciler has read them when it acts, and a
    -- fenced tracker takes its successor for missing only if it is. The reads of the tracker controller
    -- are cached, so that this is not so where the cache lags behind.
    pub Reach-OneWriter :
        {s s' : S}
        → is_cluster_scoped_target key ≡ false
        → live s n ≡ none
        → live s c ≡ none
        → Reach outside api live message digest key s s'
        → OneWriter
            (tracker_name digest key)
            (live s' (shared_resource key.namespace (tracker_name digest key)))
            (live s' (cluster_shared_resource (tracker_name digest key)))
    Reach-OneWriter within no_n no_c here = (λ t ref e fenced. cc (no_n, e), inl no_c)
    Reach-OneWriter within no_n no_c (next r step) =
        Step-One within step (Reach-OneWriter within no_n no_c r)
