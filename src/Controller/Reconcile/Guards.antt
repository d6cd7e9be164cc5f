-- ===== src/Controller/Reconcile/Guards.antt =====
-- internal/controller/contributor_controller.go: when a contributor does not register.
use patch_operator.Base.{
  ℕ, ◌≡◌, ◌≢◌, ◌⊎◌, ◌∙◌, refl, ap, inl, inr, true, false, Option, List, [], ◌∷◌, Bool-cases,
  if-then, if-else, if◌then◌else◌,
}
use patch_operator.Api.PatchStatus.{PatchObject}
use patch_operator.Scope.Validate.{FieldError, validate}
use patch_operator.Registration.Calls.{ApiServer}
use patch_operator.Controller.Release.{Deletion, over, waits, releases, reconcile_deleted}
use patch_operator.Controller.Reauthorize.{Reauthorizer, reauthorize}
use patch_operator.Controller.Reconcile.{
  Environment, Run, Landing, lands, is_gone, refused, after_reauthorize, after_delete,
  add_finalizer_to, if_valid, reconcile_patch,
}

-- Something keeps a contributor from registering: it is being deleted, its spec is not valid, or it
-- has no finalizer.
abbrev pub IsBarred : Environment → PatchObject → Type 0
IsBarred env o =
    (o.contributor.deleting ≡ true)
    ⊎ ((validate env.lookup o.contributor ≢ []) ⊎ (o.has_finalizer ≡ false))

pub Landing-cases : (l : Landing) → (l ≡ lands) ⊎ ((l ≡ is_gone) ⊎ (l ≡ refused))
Landing-cases lands = inl refl
Landing-cases is_gone = inr (inl refl)
Landing-cases refused = inr (inr refl)

module _ {S : Type 0} (api : ApiServer S) (env : Environment) (after now : ℕ) where
  pub after_delete-world :
      (o : PatchObject) (s : S) (d : Deletion) → (after_delete api env after now o s d).world ≡ s
  after_delete-world o s over = refl
  after_delete-world o s waits = refl
  after_delete-world o s releases = refl
  after_delete-world o s Deletion.failed = refl

  if_valid-stops :
      (o : PatchObject) (s : S) (errors : List FieldError) (next : Run S)
      → errors ≢ []
      → (if_valid api env after now o s errors next).world ≡ s
  if_valid-stops o s [] next h = absurd (h refl)
  if_valid-stops o s (e ∷ errors) next h = refl

  if_valid-world :
      (o : PatchObject) (s : S) (errors : List FieldError) (next : Run S)
      → next.world ≡ s
      → (if_valid api env after now o s errors next).world ≡ s
  if_valid-world o s [] next h = h
  if_valid-world o s (e ∷ errors) next h = refl

  -- A contributor that is being deleted, whose spec is not valid, or that does not have the
  -- operator's finalizer yet, is not registered: no tracker is touched.
  pub reconcile_patch-barred :
      (authorizer : Option Reauthorizer) (o : PatchObject) (s : S)
      → IsBarred env o
      → (reconcile_patch api env after now authorizer o s).world ≡ s
  unfolding reconcile_patch
  reconcile_patch-barred authorizer o s barred =
      let errors = validate env.lookup o.contributor in
      let registering =
        after_reauthorize api env after now o s
          (reauthorize env.decode_identity after now authorizer o) in
      let guarded =
        if o.has_finalizer then registering else add_finalizer_to api env after now o s in
      let removal = after_delete api env after now o s (reconcile_deleted api o s) in
      let alive_run = if_valid api env after now o s errors guarded in
      elim (Bool-cases o.contributor.deleting) [
        | inl deleting ↦
            ap (λ r. r.world) (if-then o.contributor.deleting removal alive_run deleting)
            ∙ after_delete-world o s (reconcile_deleted api o s)
        | inr alive ↦
            let past = ap (λ r. r.world) (if-else o.contributor.deleting removal alive_run alive) in
            elim barred [
              | inl deleting ↦ cc (alive, deleting)
              | inr (inl invalid) ↦ past ∙ if_valid-stops o s errors guarded invalid
              | inr (inr free) ↦
                  past
                  ∙ if_valid-world o s errors guarded (
                      ap (λ r. r.world)
                        (if-else o.has_finalizer registering
                          (add_finalizer_to api env after now o s) free))
            ]
      ]
