-- ===== src/Controller/Reconcile/Permissions.antt =====
-- internal/controller/contributor_controller.go: what the answer of the authorizer changes.
use patch_operator.Base.{ℕ, ◌≡◌, refl, inl, inr, Option, none, some, Text, eqb, Bool-cases}
use patch_operator.Api.Identity.{UserInfo, identity_from_annotations}
use patch_operator.Api.PatchStatus.{PatchObject}
use patch_operator.Controller.Reauthorize.{
  Permission, Reauthorizer, Reauthorized, unchanged, rewritten, with_permission, asked, is_recent,
  reauthorize_as, reauthorize,
}

-- The contributor itself is not changed by a reauthorization.
abbrev SameContributor : PatchObject → Reauthorized → Type 0
SameContributor o (unchanged wait) = Unit {0}
SameContributor o Reauthorized.failed = Unit {0}
SameContributor o (rewritten wait o') = o'.contributor ≡ o.contributor

module _ (decode_identity : Text → Option UserInfo) (after now : ℕ) where
  asked-same :
      (user : UserInfo) (o : PatchObject) (p : Option Permission)
      → SameContributor o (asked decode_identity after now user o p)
  unfolding with_permission
  asked-same user o none = tt
  asked-same user o (some p) = refl

  reauthorize_as-same :
      (authorizer : Reauthorizer) (o : PatchObject) (user : Option UserInfo)
      → SameContributor o (reauthorize_as decode_identity after now authorizer o user)
  reauthorize_as-same authorizer o none = tt
  reauthorize_as-same authorizer o (some user) =
      elim (Bool-cases (is_recent decode_identity after now o.status.last_authorized_time)) [
        | inl recent ↦ rw recent tt
        | inr due ↦ rw due (asked-same user o (authorizer user o.contributor))
      ]

  reauthorize-same :
      (authorizer : Option Reauthorizer) (o : PatchObject)
      → SameContributor o (reauthorize decode_identity after now authorizer o)
  unfolding reauthorize
  reauthorize-same none o = tt
  reauthorize-same (some authorizer) o = elim (Bool-cases (eqb after 0)) [
    | inl off ↦ rw off tt
    | inr on ↦
        rw on (
          reauthorize_as-same authorizer o
            (identity_from_annotations decode_identity o.annotations))
  ]

  pub reauthorize-contributor :
      (authorizer : Option Reauthorizer) (o : PatchObject) (wait : ℕ) (o' : PatchObject)
      → reauthorize decode_identity after now authorizer o ≡ rewritten wait o'
      → o'.contributor ≡ o.contributor
  reauthorize-contributor authorizer o wait o' e = rw e at (reauthorize-same authorizer o)
