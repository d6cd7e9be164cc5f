-- ===== src/Controller/Reconcile/Denied.antt =====
-- internal/controller/contributor_controller.go: a reconciliation after the authorizer has answered.
use patch_operator.Base.{
  ℕ, ◌≡◌, ◌≢◌, ◌∙◌, refl, sym, ap, inl, inr, Bool, true, false, Option, none, some, List, [], ◌∷◌,
  eqb, Bool-cases, Option-cases, if◌then◌else◌,
}
use patch_operator.Api.{TrackerRef, Contributor}
use patch_operator.Api.Identity.{UserInfo, identity_from_annotations}
use patch_operator.Api.PatchStatus.{PatchObject}
use patch_operator.Scope.{TargetKey}
use patch_operator.Scope.Validate.{FieldError, validate}
use patch_operator.Registration.Calls.{ApiServer}
use patch_operator.Controller.{Resolution, resolved, too_many, resolve_targets}
use patch_operator.Controller.Sync.{sync_status}
use patch_operator.Controller.Release.{reconcile_deleted}
use patch_operator.Controller.Reauthorize.{
  Reauthorizer, Reauthorized, unchanged, rewritten, is_recent, reauthorize,
}
use patch_operator.Controller.Reconcile.Permissions.{reauthorize-contributor}
use patch_operator.Controller.Reconcile.{
  Environment, Run, PatchWrite, lands, updates_status, ensure_all, synced, after_ensure,
  after_resolve, register_all, after_reauthorize, after_delete, add_finalizer_to, if_valid,
  reconcile_patch,
}

-- Runs that leave the same world, under a test and behind the validation.
if-world :
    {S : Type 0} (b : Bool) (x x' y y' : Run S)
    → x.world ≡ x'.world
    → y.world ≡ y'.world
    → (if b then x else y).world ≡ (if b then x' else y').world
if-world true x x' y y' e f = e
if-world false x x' y y' e f = f

module _ {S : Type 0} (api : ApiServer S) (env : Environment) (after now : ℕ) where
  if_valid-same :
      (o : PatchObject) (s : S) (errors : List FieldError) (x y : Run S)
      → x.world ≡ y.world
      → (if_valid api env after now o s errors x).world
        ≡ (if_valid api env after now o s errors y).world
  if_valid-same o s [] x y e = e
  if_valid-same o s (d ∷ errors) x y e = refl

  synced-world :
      (writes : List PatchWrite) (wait : ℕ) (s : S) (o : Option PatchObject)
      → (synced api env after now writes wait s o).world ≡ s
  synced-world writes wait s none = refl
  synced-world writes wait s (some o) = refl

  after_ensure-world :
      (writes : List PatchWrite) (wait : ℕ) (o : PatchObject) (keys : List TargetKey)
      → (x : S × Option (List TrackerRef))
      → (after_ensure api env after now writes wait o keys x).world ≡ x.0
  after_ensure-world writes wait o keys (s, none) = refl
  after_ensure-world writes wait o keys (s, some trackers) =
      synced-world writes wait s (sync_status api now env.sprintf o keys trackers s)

  -- what a resolution comes to
  abbrev world_after : Contributor → S → Resolution → S
  world_after c s (resolved keys) = (ensure_all api env after now c keys s).0
  world_after c s r = s

  after_resolve-world :
      (writes : List PatchWrite) (wait : ℕ) (o : PatchObject) (s : S) (r : Resolution)
      → (after_resolve api env after now writes wait o s r).world ≡ world_after o.contributor s r
  after_resolve-world writes wait o s (resolved keys) =
      after_ensure-world writes wait o keys (ensure_all api env after now o.contributor keys s)
  after_resolve-world writes wait o s (too_many n) = refl
  after_resolve-world writes wait o s Resolution.failed = refl

  resolution : Contributor → Resolution
  resolution c =
      resolve_targets env.parse_group env.valid_selector env.list_objects env.list_namespaces c

  register_all-world :
      (writes : List PatchWrite) (wait : ℕ) (o : PatchObject) (s : S)
      → (register_all api env after now writes wait o s).world
        ≡ world_after o.contributor s (resolution o.contributor)
  unfolding register_all resolution
  register_all-world writes wait o s =
      after_resolve-world writes wait o s (resolution o.contributor)

  module _ (authorizer : Reauthorizer)
      (answers : (user : UserInfo) (c : Contributor) → authorizer user c ≢ none)
      (landed : (o : PatchObject) → env.landing (updates_status o) ≡ lands) where
    reauthorize-answers :
        (o : PatchObject)
        → reauthorize env.decode_identity after now (some authorizer) o ≢ Reauthorized.failed
    unfolding reauthorize
    reauthorize-answers o = elim (Bool-cases (eqb after 0)) [
      | inl off ↦ rw off (λ e. cc e)
      | inr on ↦ elim (Option-cases (identity_from_annotations env.decode_identity o.annotations)) [
        | inl unknown ↦ rw (on, unknown) (λ e. cc e)
        | inr (user, known) ↦
            elim (Bool-cases
              (is_recent env.decode_identity after now o.status.last_authorized_time)) [
                | inl recent ↦ rw (on, known, recent) (λ e. cc e)
                | inr due ↦ elim (Option-cases (authorizer user o.contributor)) [
                  | inl silent ↦ absurd (answers user o.contributor silent)
                  | inr (p, said) ↦ rw (on, known, due, said) (λ e. cc e)
                ]
              ]
      ]
    ]

    after_reauthorize-world :
        (o : PatchObject) (s : S) (r : Reauthorized)
        → r ≢ Reauthorized.failed
        → ((wait : ℕ) (o' : PatchObject) → r ≡ rewritten wait o' → o'.contributor ≡ o.contributor)
        → (after_reauthorize api env after now o s r).world
          ≡ world_after o.contributor s (resolution o.contributor)
    after_reauthorize-world o s (unchanged wait) well same = register_all-world [] wait o s
    after_reauthorize-world o s Reauthorized.failed well same = absurd (well refl)
    after_reauthorize-world o s (rewritten wait o') well same = rw (landed o') (
        register_all-world (updates_status o' ∷ []) wait o' s
        ∙ ap (λ c. world_after c s (resolution c)) (same wait o' refl))

    -- Where the authorizer answers and the writes of the contributor's status land, what it answers
    -- makes no difference to the trackers: a contributor whose authorization is denied register_all
    -- as one that is never checked.
    pub reconcile_patch-denied :
        (o : PatchObject) (s : S)
        → (reconcile_patch api env after now (some authorizer) o s).world
          ≡ (reconcile_patch api env after now none o s).world
    unfolding reconcile_patch reauthorize
    reconcile_patch-denied o s =
        let errors = validate env.lookup o.contributor in
        let r = reauthorize env.decode_identity after now (some authorizer) o in
        let registering = after_reauthorize api env after now o s r in
        let unchecked = register_all api env after now [] 0 o s in
        let adding = add_finalizer_to api env after now o s in
        let removal = after_delete api env after now o s (reconcile_deleted api o s) in
        let same : registering.world ≡ unchecked.world =
          after_reauthorize-world o s r (reauthorize-answers o)
            (reauthorize-contributor env.decode_identity after now (some authorizer) o)
          ∙ sym (register_all-world [] 0 o s) in
        if-world o.contributor.deleting removal removal _ _ refl (
          if_valid-same o s errors _ _
            (if-world o.has_finalizer registering unchecked adding adding same refl))
