-- ===== src/Registration/Promoted.antt =====
-- internal/controller/promotion.go: what a promotion makes of the two trackers of a target, whatever
-- the API server replies.
use patch_operator.Base.{
  ℕ, ◌≡◌, ◌≢◌, ◌⊎◌, ◌∙◌, refl, sym, ap, subst, inl, inr, Bool, true, false, Option, some, Text,
}
use patch_operator.Api.Status.{PromotionRef}
use patch_operator.Scope.{TargetKey}
use patch_operator.Registration.Calls.{
  Tracked, ObjectKey, shared_resource, cluster_shared_resource, Read-cases, ApiServer, Lawful,
}
use patch_operator.Registration.Promote.{
  Fencing, stands, no_tracker, unfenced_still, fence, flagged, create_successor, after_successor,
  after_fence, promote_if_needed,
}
use patch_operator.Registration.Writes.{
  fence-elsewhere, fence-keeps, create_successor-elsewhere, flag_adoption-elsewhere,
  flag_adoption-keeps,
}
use patch_operator.Registration.Fence.{
  IsRetired, IsNamed, OneWriter, fenced_tracker-IsRetired, fenced_tracker-IsNamed,
  flagged-IsRetired, flagged-IsNamed, apart, fence-IsRetired,
}

module _ {S : Type 0} {api : ApiServer S} {live : S → ObjectKey → Option Tracked}
    (law : Lawful api live) (now : ℕ) (message : ℕ → Text) where
  module _ (n c : ObjectKey) (apart : c ≢ n) (key : TargetKey) where
    back : n ≢ c
    back e = apart (sym e)

    -- The steps of a promotion after the first: of the namespaced tracker, only the flag is set.
    after_successor-keeps :
        (P : Option Tracked → Type 0) (x : S × Bool)
        → ((t : Tracked) (ref : PromotionRef)
            → live x.0 n ≡ some t
            → t.status.promoted_to ≡ some ref
            → P (some (flagged ref t)))
        → P (live x.0 n)
        → P (live (after_successor api now message n x).0 n)
    after_successor-keeps P (s, true) after before =
        flag_adoption-keeps law now message P n s after before
    after_successor-keeps P (s, false) after before = before

    pub after_fence-keeps :
        (P : Option Tracked → Type 0) (x : S × Fencing)
        → ((t : Tracked) (ref : PromotionRef)
            → live x.0 n ≡ some t
            → t.status.promoted_to ≡ some ref
            → P (some (flagged ref t)))
        → P (live x.0 n)
        → P (live (after_fence api now message n c key x).0 n)
    after_fence-keeps P (s, no_tracker) after before = before
    after_fence-keeps P (s, unfenced_still) after before = before
    after_fence-keeps P (s, stands) after before = elim (Read-cases (api.read s n)) [
      | inr (inl e) ↦ rw e before
      | inr (inr e) ↦ rw e before
      | inl (old, there) ↦
          let x = create_successor api now message c key old.status s in
          let same = create_successor-elsewhere law now message c key old.status s n back in
          rw there (
            after_successor-keeps P x (λ t ref e. after t ref (sym same ∙ e))
              (subst P (sym same) before))
    ]

    after_successor-elsewhere :
        (x : S × Bool) (j : ObjectKey)
        → j ≢ n
        → live (after_successor api now message n x).0 j ≡ live x.0 j
    after_successor-elsewhere (s, true) j other =
        flag_adoption-elsewhere law now message n s j other
    after_successor-elsewhere (s, false) j other = refl

    pub after_fence-elsewhere :
        (x : S × Fencing) (j : ObjectKey)
        → j ≢ n
        → j ≢ c
        → live (after_fence api now message n c key x).0 j ≡ live x.0 j
    after_fence-elsewhere (s, no_tracker) j other away = refl
    after_fence-elsewhere (s, unfenced_still) j other away = refl
    after_fence-elsewhere (s, stands) j other away = elim (Read-cases (api.read s n)) [
      | inr (inl e) ↦ rw e refl
      | inr (inr e) ↦ rw e refl
      | inl (old, there) ↦ rw there (
          after_successor-elsewhere (create_successor api now message c key old.status s) j other
          ∙ create_successor-elsewhere law now message c key old.status s j away)
    ]

    -- A promotion that could not fence stops there.
    after_fence-halts :
        (x : S × Fencing)
        → x.1 ≡ unfenced_still
        → after_fence api now message n c key x ≡ (x.0, false)
    after_fence-halts (s, unfenced_still) e = refl
    after_fence-halts (s, stands) e = cc e
    after_fence-halts (s, no_tracker) e = cc e

    Fencing-cases : (x : Fencing) → (x ≡ unfenced_still) ⊎ (x ≢ unfenced_still)
    Fencing-cases unfenced_still = inl refl
    Fencing-cases stands = inr (λ e. cc e)
    Fencing-cases no_tracker = inr (λ e. cc e)

    IsRetired-step :
        (name : Text) (s : S)
        → IsRetired (live (fence api now message n name s).0 n)
        → IsRetired
            (live (after_fence api now message n c key (fence api now message n name s)).0 n)
    IsRetired-step name s h =
        after_fence-keeps IsRetired (fence api now message n name s)
          (λ t ref e fenced. flagged-IsRetired ref t) h

    IsNamed-step :
        (name : Text) (s : S)
        → IsNamed name (live s n)
        → IsNamed name
            (live (after_fence api now message n c key (fence api now message n name s)).0 n)
    IsNamed-step name s h =
        let named =
          fence-keeps law now message (IsNamed name) n name s
            (λ t e free. fenced_tracker-IsNamed now name t) h in
        after_fence-keeps (IsNamed name) (fence api now message n name s)
          (λ t ref e fenced. flagged-IsNamed name ref t (named t ref e fenced)) named

    fence-OneWriter :
        (name : Text) (s : S)
        → OneWriter name (live s n) (live s c)
        → OneWriter name
            (live (after_fence api now message n c key (fence api now message n name s)).0 n)
            (live (after_fence api now message n c key (fence api now message n name s)).0 c)
          × ((after_fence api now message n c key (fence api now message n name s)).1 ≡ true
              → IsRetired
                  (live (after_fence api now message n c key (fence api now message n name s)).0 n))
    fence-OneWriter name s (named, one) =
        let x = fence api now message n name s in
        elim (Fencing-cases x.1) [
          | inr ok ↦
              let retired = IsRetired-step name s (fence-IsRetired law now message n name s ok) in
              ((IsNamed-step name s named, inr retired), λ e. retired)
          | inl halted ↦
              let stop = after_fence-halts x halted in
              let same : live (after_fence api now message n c key x).0 c ≡ live s c =
                ap (λ y. live y.0 c) stop ∙ fence-elsewhere law now message n name s c apart in
              (
                (
                  IsNamed-step name s named,
                  elim one [
                    | inl blank ↦ inl (same ∙ blank)
                    | inr retired ↦ inr (
                        IsRetired-step name s (
                          fence-keeps law now message IsRetired n name s
                            (λ t e free. fenced_tracker-IsRetired now name t) retired))
                  ],
                ),
                λ e. cc (ap (λ y. y.1) stop, e),
              )
        ]

  -- A promotion leaves one writer at most, whatever the API server replies; and if it returns no
  -- error then the namespaced tracker is gone or fenced.
  pub promote_if_needed-OneWriter :
      (name : Text) (key : TargetKey) (s : S)
      → OneWriter name
          (live s (shared_resource key.namespace name))
          (live s (cluster_shared_resource name))
      → OneWriter name
          (live
            (promote_if_needed api now message name key s).0
            (shared_resource key.namespace name))
          (live (promote_if_needed api now message name key s).0 (cluster_shared_resource name))
        × ((promote_if_needed api now message name key s).1 ≡ true
            → IsRetired (
                live
                  (promote_if_needed api now message name key s).0
                  (shared_resource key.namespace name)))
  unfolding promote_if_needed
  promote_if_needed-OneWriter name key s one =
      fence-OneWriter (shared_resource key.namespace name) (cluster_shared_resource name)
        (apart key.namespace name name) key name s one

  pub promote_if_needed-elsewhere :
      (name : Text) (key : TargetKey) (s : S) (j : ObjectKey)
      → j ≢ shared_resource key.namespace name
      → j ≢ cluster_shared_resource name
      → live (promote_if_needed api now message name key s).0 j ≡ live s j
  unfolding promote_if_needed
  promote_if_needed-elsewhere name key s j other away =
      after_fence-elsewhere (shared_resource key.namespace name) (cluster_shared_resource name)
        (apart key.namespace name name) key
        (fence api now message (shared_resource key.namespace name) name s) j other away
      ∙ fence-elsewhere law now message (shared_resource key.namespace name) name s j other
