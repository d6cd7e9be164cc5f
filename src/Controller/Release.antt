-- ===== src/Controller/Release.antt =====
-- internal/controller/contributor_controller.go: `reconcileDelete`.
use patch_operator.Base.{
  ◌≡◌, ◌⊎◌, ◌↔◌, ◌∙◌, refl, ap, inl, inr, Bool, true, false, ◌||◌, Option, none, some,
  some-injective, is_some, List, [], ◌∷◌, Bool-cases, Option-cases, if◌then◌else◌,
}
use patch_operator.Api.{TrackerRef, ContributorRef}
use patch_operator.Api.PatchStatus.{PatchObject}
use patch_operator.Api.Refs.{contributor_ref_of}
use patch_operator.Api.Status.{find_contributor}
use patch_operator.Registration.Calls.{Tracked, Read, found, nothing, unread, Read-cases, ApiServer}
use patch_operator.Controller.Sync.{get_tracker}

-- What is left to do: nothing, as the finalizer is gone; to return an error; to come back; or to
-- drop the finalizer.
pub data Deletion : Type 0 where
  over failed waits releases : Deletion

or_none : (a b : Bool) → (a || b) ≡ false → (a ≡ false) × (b ≡ false)
or_none true b e = cc e
or_none false b e = (refl, e)

is_some-none {ℓ} : {A : Type ℓ} (o : Option A) → is_some o ≡ false → o ≡ none
is_some-none none e = refl
is_some-none (some a) e = cc e

module _ {S : Type 0} (api : ApiServer S) where
  abbrev pub registered_on : Bool → Option Bool → Option Bool
  registered_on here none = none
  registered_on here (some later) = some (here || later)

  abbrev pub registered_read : ContributorRef → Read → Option Bool → Option Bool
  registered_read ref (found t) rest = registered_on (is_some (find_contributor t.status ref)) rest
  registered_read ref nothing rest = rest
  registered_read ref unread rest = none

  -- the loop; none is an error
  unfoldable pub still_registered : S → ContributorRef → List TrackerRef → Option Bool
  still_registered s ref [] = some false
  still_registered s ref (at ∷ trackers) =
      registered_read ref (get_tracker api s at) (still_registered s ref trackers)

  abbrev pub deletion_of : Option Bool → Deletion
  deletion_of none = failed
  deletion_of (some true) = waits
  deletion_of (some false) = releases

  -- `reconcileDelete`
  unfoldable pub reconcile_deleted : PatchObject → S → Deletion
  unfolding still_registered
  reconcile_deleted o s =
      if o.has_finalizer
      then deletion_of
          (still_registered s (contributor_ref_of o.contributor) o.contributor.shared_resource_refs)
      else over

  -- A tracker is gone, or does not list the contributor.
  abbrev pub HasLeft : S → ContributorRef → TrackerRef → Type 0
  HasLeft s ref at =
      (get_tracker api s at ≡ nothing)
      ⊎ ((t : Tracked) × ((get_tracker api s at ≡ found t)
            × (find_contributor t.status ref ≡ none)))

  abbrev pub HasLeftAll : S → ContributorRef → List TrackerRef → Type 0
  HasLeftAll s ref [] = Unit {0}
  HasLeftAll s ref (at ∷ trackers) = HasLeft s ref at × HasLeftAll s ref trackers

  still_registered-HasLeft :
      (s : S) (ref : ContributorRef) (trackers : List TrackerRef)
      → still_registered s ref trackers ≡ some false
      → HasLeftAll s ref trackers
  unfolding still_registered
  still_registered-HasLeft s ref [] e = tt
  still_registered-HasLeft s ref (at ∷ trackers) e = elim (Read-cases (get_tracker api s at)) [
    | inr (inl missing) ↦
        (inl missing, still_registered-HasLeft s ref trackers (rw (missing, still_registered) at e))
    | inr (inr failing) ↦ cc (rw (failing, still_registered) at e)
    | inl (t, there) ↦ elim (Option-cases (still_registered s ref trackers)) [
      | inl failing ↦ cc (rw (there, failing, still_registered) at e)
      | inr (later, rest) ↦
          let both : some (is_some (find_contributor t.status ref) || later) ≡ some false =
            rw (there, rest, still_registered) at e in
          let (unlisted, left) =
            or_none (is_some (find_contributor t.status ref)) later (some-injective both) in
          (
            inr (t, (there, is_some-none (find_contributor t.status ref) unlisted)),
            still_registered-HasLeft s ref trackers (rest ∙ ap some left),
          )
    ]
  ]

  HasLeft-still_registered :
      (s : S) (ref : ContributorRef) (trackers : List TrackerRef)
      → HasLeftAll s ref trackers
      → still_registered s ref trackers ≡ some false
  unfolding still_registered
  HasLeft-still_registered s ref [] h = refl
  HasLeft-still_registered s ref (at ∷ trackers) (inl missing, rest) =
      rw missing (HasLeft-still_registered s ref trackers rest)
  HasLeft-still_registered s ref (at ∷ trackers) (inr (t, (there, unlisted)), rest) =
      rw (there, unlisted, HasLeft-still_registered s ref trackers rest) refl

  deletion_of-releases : (o : Option Bool) → deletion_of o ≡ releases → o ≡ some false
  deletion_of-releases none e = cc e
  deletion_of-releases (some true) e = cc e
  deletion_of-releases (some false) e = refl

  -- The finalizer of a contributor that is being deleted is dropped exactly if it is there and each
  -- tracker that the contributor has recorded is gone or does not list it.
  pub reconcile_deleted-releases :
      (o : PatchObject) (s : S)
      → (reconcile_deleted o s ≡ releases) ↔ (
          (o.has_finalizer ≡ true)
          × HasLeftAll s (contributor_ref_of o.contributor) o.contributor.shared_resource_refs)
  unfolding reconcile_deleted
  reconcile_deleted-releases o s =
      let ref = contributor_ref_of o.contributor in
      let refs = o.contributor.shared_resource_refs in
      (
        λ e. elim (Bool-cases o.has_finalizer) [
          | inl held ↦ (
            held,
            still_registered-HasLeft s ref refs
                (deletion_of-releases (still_registered s ref refs) (rw held at e)),
          )
          | inr free ↦ cc (rw free at e)
        ],
        λ h. rw (h.0, HasLeft-still_registered s ref refs h.1) refl,
      )
