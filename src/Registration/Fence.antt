-- ===== src/Registration/Fence.antt =====
-- internal/controller/promotion.go: what the fence of a promotion says, and when it stands.
use patch_operator.Base.{
  ℕ, ◌≡◌, ◌≢◌, ◌⊎◌, ◌∙◌, refl, sym, ap, subst, inl, inr, true, Option, none, some, some-injective,
  Text, Bool-cases,
}
use patch_operator.Api.Status.{PromotionRef, is_fenced}
use patch_operator.Tracker.Pass.Step.{with_condition}
use patch_operator.Registration.Calls.{
  Tracked, ObjectKey, shared_resource, cluster_shared_resource, Read-cases, ApiServer, Lawful,
}
use patch_operator.Registration.Promote.{fenced_tracker, unfenced_still, fence, flagged}
use patch_operator.Registration.Writes.{WriteReply-cases}

-- A tracker that is there is fenced.
abbrev pub IsRetired : Option Tracked → Type 0
IsRetired o = (t : Tracked) → o ≡ some t → is_fenced t.status ≡ true

-- A tracker that is fenced names its successor by its own name.
abbrev pub IsNamed : Text → Option Tracked → Type 0
IsNamed name o =
    (t : Tracked) (ref : PromotionRef)
    → o ≡ some t
    → t.status.promoted_to ≡ some ref
    → ref.name ≡ name

-- The two trackers that a target may have: only one of them writes.
abbrev pub OneWriter : Text → Option Tracked → Option Tracked → Type 0
OneWriter name namespaced cluster =
    IsNamed name namespaced × ((cluster ≡ none) ⊎ IsRetired namespaced)

pub none-IsRetired : IsRetired none
none-IsRetired t e = cc e

some-IsRetired : (t : Tracked) → is_fenced t.status ≡ true → IsRetired (some t)
some-IsRetired t fenced u e = ap (λ x. is_fenced x.status) (sym (some-injective e)) ∙ fenced

some-IsNamed :
    (name : Text) (t : Tracked)
    → ((ref : PromotionRef) → t.status.promoted_to ≡ some ref → ref.name ≡ name)
    → IsNamed name (some t)
some-IsNamed name t h u ref e fenced =
    h ref (ap (λ x. x.status.promoted_to) (some-injective e) ∙ fenced)

module _ (now : ℕ) (name : Text) (t : Tracked) where
  pub fenced_tracker-IsRetired : IsRetired (some (fenced_tracker now name t))
  unfolding fenced_tracker with_condition
  fenced_tracker-IsRetired = some-IsRetired (fenced_tracker now name t) refl

  pub fenced_tracker-IsNamed : IsNamed name (some (fenced_tracker now name t))
  unfolding fenced_tracker with_condition
  fenced_tracker-IsNamed =
      some-IsNamed name (fenced_tracker now name t)
        (λ ref e. ap (λ r. r.name) (sym (some-injective e)))

pub flagged-IsRetired : (ref : PromotionRef) (t : Tracked) → IsRetired (some (flagged ref t))
flagged-IsRetired ref t = some-IsRetired (flagged ref t) refl

pub flagged-IsNamed :
    (name : Text) (ref : PromotionRef) (t : Tracked)
    → ref.name ≡ name
    → IsNamed name (some (flagged ref t))
flagged-IsNamed name ref t same =
    some-IsNamed name (flagged ref t) (λ r e. ap (λ x. x.name) (sym (some-injective e)) ∙ same)

pub apart : (ns name other : Text) → cluster_shared_resource other ≢ shared_resource ns name
apart ns name other e = cc e

module _ {S : Type 0} {api : ApiServer S} {live : S → ObjectKey → Option Tracked}
    (law : Lawful api live) (now : ℕ) (message : ℕ → Text) where
  -- The first step of a promotion, unless it fails, leaves no namespaced tracker that writes.
  pub fence-IsRetired :
      (n : ObjectKey) (name : Text) (s : S)
      → (fence api now message n name s).1 ≢ unfenced_still
      → IsRetired (live (fence api now message n name s).0 n)
  unfolding fence
  fence-IsRetired n name s = elim (Read-cases (api.read s n)) [
    | inr (inl e) ↦ rw e (λ ok. subst IsRetired (sym (law.read-nothing e)) none-IsRetired)
    | inr (inr e) ↦ rw e (λ ok. absurd (ok refl))
    | inl (t, there) ↦ elim (Bool-cases (is_fenced t.status)) [
      | inl fenced ↦
          rw (there, fenced)
            (λ ok. subst IsRetired (sym (law.read-found there)) (some-IsRetired t fenced))
      | inr free ↦
          let u = fenced_tracker now name t in
          elim (WriteReply-cases (api.write_status s n u).1) [
            | inl (inl e) ↦
                rw (there, free, e)
                  (λ ok.
                    subst IsRetired (sym (law.write-accepted s n u e))
                      (fenced_tracker-IsRetired now name t))
            | inl (inr e) ↦ rw (there, free, e) (λ ok. absurd (ok refl))
            | inr (inl e) ↦
                rw (there, free, e)
                  (λ ok. subst IsRetired (sym (law.write-vanished s n u e)) none-IsRetired)
            | inr (inr e) ↦ rw (there, free, e) (λ ok. absurd (ok refl))
          ]
    ]
  ]
