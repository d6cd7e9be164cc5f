-- ===== src/Controller/Reconcile/Kept.antt =====
-- internal/controller/contributor_controller.go: what holds of the trackers after a reconciliation of a
-- contributor.
use patch_operator.Base.{
  ℕ, ◌≡◌, ◌∙◌, refl, sym, ap, subst, inl, inr, false, Option, none, some, List, [], ◌∷◌, All,
  Bool-cases, if-then, if-else, if◌then◌else◌,
}
use patch_operator.Api.{TrackerRef, Contributor}
use patch_operator.Api.PatchStatus.{PatchObject}
use patch_operator.Scope.{TargetKey, is_cluster_scoped_target}
use patch_operator.Scope.Names.{tracker_name}
use patch_operator.Scope.Validate.{FieldError, validate}
use patch_operator.Registration.Calls.{Tracked, ObjectKey, ApiServer, Lawful}
use patch_operator.Registration.{ensure_tracker}
use patch_operator.Registration.Keeps.{OneWriterOf, ensure_tracker-keeps}
use patch_operator.Controller.{Resolution, resolved, too_many, resolve_targets}
use patch_operator.Controller.Sync.{sync_status}
use patch_operator.Controller.Release.{reconcile_deleted}
use patch_operator.Controller.Reauthorize.{
  Reauthorizer, Reauthorized, unchanged, rewritten, reauthorize,
}
use patch_operator.Controller.Reconcile.Permissions.{reauthorize-contributor}
use patch_operator.Controller.Reconcile.{
  Environment, Run, PatchWrite, updates_status, then_all, onto_refs, ensure_all, synced,
  after_ensure, after_resolve, register_all, after_reauthorize, after_delete, add_finalizer_to,
  if_valid, reconcile_patch,
}
use patch_operator.Controller.Reconcile.Guards.{Landing-cases, after_delete-world}

module _ {S : Type 0} (api : ApiServer S) (env : Environment) (after now : ℕ) where
  -- What every registration with a target of the contributor keeps, a reconciliation keeps.
  module _ (P : S → Type 0) where
    abbrev pub KeptBy : Contributor → TargetKey → Type 0
    KeptBy c key =
        (s : S) → P s → P (ensure_tracker api now env.adopted_message env.digest c key s).0

    onto_refs-keeps :
        (ref : TrackerRef) (x : S × Option (List TrackerRef))
        → P x.0
        → P (onto_refs api env after now ref x).0
    onto_refs-keeps ref (s, none) h = h
    onto_refs-keeps ref (s, some refs) h = h

    then_all-keeps :
        (go : S → S × Option (List TrackerRef)) (x : S × Option TrackerRef)
        → ((s : S) → P s → P (go s).0)
        → P x.0
        → P (then_all api env after now go x).0
    then_all-keeps go (s, none) keeps h = h
    then_all-keeps go (s, some ref) keeps h = onto_refs-keeps ref (go s) (keeps s h)

    ensure_all-keeps :
        (c : Contributor) (keys : List TargetKey) (s : S)
        → All (KeptBy c) keys
        → P s
        → P (ensure_all api env after now c keys s).0
    unfolding ensure_all
    ensure_all-keeps c [] s kept h = h
    ensure_all-keeps c (key ∷ keys) s (first, rest) h =
        then_all-keeps (ensure_all api env after now c keys)
          (ensure_tracker api now env.adopted_message env.digest c key s)
          (λ s' h'. ensure_all-keeps c keys s' rest h') (first s h)

    synced-keeps :
        (writes : List PatchWrite) (wait : ℕ) (s : S) (o : Option PatchObject)
        → P s
        → P (synced api env after now writes wait s o).world
    synced-keeps writes wait s none h = h
    synced-keeps writes wait s (some o) h = h

    after_ensure-keeps :
        (writes : List PatchWrite) (wait : ℕ) (o : PatchObject) (keys : List TargetKey)
        → (x : S × Option (List TrackerRef)) → P x.0
        → P (after_ensure api env after now writes wait o keys x).world
    after_ensure-keeps writes wait o keys (s, none) h = h
    after_ensure-keeps writes wait o keys (s, some trackers) h =
        synced-keeps writes wait s (sync_status api now env.sprintf o keys trackers s) h

    after_resolve-keeps :
        (writes : List PatchWrite) (wait : ℕ) (o : PatchObject) (s : S) (r : Resolution)
        → ((keys : List TargetKey) → r ≡ resolved keys → All (KeptBy o.contributor) keys)
        → P s
        → P (after_resolve api env after now writes wait o s r).world
    after_resolve-keeps writes wait o s (resolved keys) kept h =
        after_ensure-keeps writes wait o keys (ensure_all api env after now o.contributor keys s)
          (ensure_all-keeps o.contributor keys s (kept keys refl) h)
    after_resolve-keeps writes wait o s (too_many n) kept h = h
    after_resolve-keeps writes wait o s Resolution.failed kept h = h

    register_all-keeps :
        (writes : List PatchWrite) (wait : ℕ) (o : PatchObject) (s : S)
        → ((keys : List TargetKey)
            → resolve_targets env.parse_group env.valid_selector env.list_objects
                env.list_namespaces o.contributor
              ≡ resolved keys
            → All (KeptBy o.contributor) keys)
        → P s
        → P (register_all api env after now writes wait o s).world
    unfolding register_all
    register_all-keeps writes wait o s kept h =
        after_resolve-keeps writes wait o s
          (resolve_targets env.parse_group env.valid_selector env.list_objects env.list_namespaces
            o.contributor)
          kept h

    after_reauthorize-keeps :
        (o : PatchObject) (s : S) (r : Reauthorized)
        → ((wait : ℕ) (o' : PatchObject) → r ≡ rewritten wait o' → o'.contributor ≡ o.contributor)
        → ((keys : List TargetKey)
            → resolve_targets env.parse_group env.valid_selector env.list_objects
                env.list_namespaces o.contributor
              ≡ resolved keys
            → All (KeptBy o.contributor) keys)
        → P s
        → P (after_reauthorize api env after now o s r).world
    after_reauthorize-keeps o s (unchanged wait) same kept h = register_all-keeps [] wait o s kept h
    after_reauthorize-keeps o s Reauthorized.failed same kept h = h
    after_reauthorize-keeps o s (rewritten wait o') same kept h =
        let kept' =
          subst
            (λ c.
              (keys : List TargetKey)
              → resolve_targets env.parse_group env.valid_selector env.list_objects
                  env.list_namespaces c
                ≡ resolved keys
              → All (KeptBy c) keys)
            (sym (same wait o' refl)) kept in
        elim (Landing-cases (env.landing (updates_status o'))) [
          | inl e ↦ rw e (register_all-keeps (updates_status o' ∷ []) wait o' s kept' h)
          | inr (inl e) ↦ rw e h
          | inr (inr e) ↦ rw e h
        ]

    if_valid-keeps :
        (o : PatchObject) (s : S) (errors : List FieldError) (next : Run S)
        → P s
        → P next.world
        → P (if_valid api env after now o s errors next).world
    if_valid-keeps o s [] next h h' = h'
    if_valid-keeps o s (e ∷ errors) next h h' = h

    -- What every registration with a target of the contributor keeps, its reconciliation keeps.
    pub reconcile_patch-keeps :
        (authorizer : Option Reauthorizer) (o : PatchObject) (s : S)
        → ((keys : List TargetKey)
            → resolve_targets env.parse_group env.valid_selector env.list_objects
                env.list_namespaces o.contributor
              ≡ resolved keys
            → All (KeptBy o.contributor) keys)
        → P s
        → P (reconcile_patch api env after now authorizer o s).world
    unfolding reconcile_patch
    reconcile_patch-keeps authorizer o s kept h =
        let errors = validate env.lookup o.contributor in
        let r = reauthorize env.decode_identity after now authorizer o in
        let registering = after_reauthorize api env after now o s r in
        let adding = add_finalizer_to api env after now o s in
        let guarded = if o.has_finalizer then registering else adding in
        let removal = after_delete api env after now o s (reconcile_deleted api o s) in
        let alive_run = if_valid api env after now o s errors guarded in
        let held : P registering.world =
          after_reauthorize-keeps o s r
            (reauthorize-contributor env.decode_identity after now authorizer o) kept h in
        let next : P guarded.world = elim (Bool-cases o.has_finalizer) [
          | inl e ↦ subst (λ x. P x.world) (sym (if-then o.has_finalizer registering adding e)) held
          | inr e ↦ subst (λ x. P x.world) (sym (if-else o.has_finalizer registering adding e)) h
        ] in
        elim (Bool-cases o.contributor.deleting) [
          | inl deleting ↦
              subst P
                (sym (
                  ap (λ x. x.world) (if-then o.contributor.deleting removal alive_run deleting)
                  ∙ after_delete-world api env after now o s (reconcile_deleted api o s)))
                h
          | inr alive ↦
              subst (λ x. P x.world) (sym (if-else o.contributor.deleting removal alive_run alive))
                (if_valid-keeps o s errors guarded h next)
        ]

module _ {S : Type 0} {api : ApiServer S} {live : S → ObjectKey → Option Tracked}
    (law : Lawful api live) (env : Environment) (after now : ℕ) (key : TargetKey) where
  -- The trackers of a target are named differently, or its namespace is that of `key`.
  abbrev pub IsApart : TargetKey → Type 0
  IsApart at =
      tracker_name env.digest at ≡ tracker_name env.digest key → at.namespace ≡ key.namespace

  All-KeptBy :
      (c : Contributor) (keys : List TargetKey)
      → is_cluster_scoped_target key ≡ false
      → All IsApart keys
      → All (KeptBy api env after now (OneWriterOf live env.digest key) c) keys
  All-KeptBy c [] within h = tt
  All-KeptBy c (at ∷ keys) within (first, rest) = (
    λ s one.
        ensure_tracker-keeps law env.adopted_message env.digest key now c at s within first one,
    All-KeptBy c keys within rest,
  )

  -- If at most one tracker of a namespaced target writes before a reconciliation of a contributor,
  -- whatever that resolves to, whatever the API server replies and wherever it ends, then at most one
  -- does after it, where the trackers of the contributor's targets have the name of those of that
  -- target only if the namespace is the same. The theorem on runs shows the premise of the states
  -- that they lead to. Nobody else writes during the reconciliation.
  pub reconcile_patch-OneWriter :
      (authorizer : Option Reauthorizer) (o : PatchObject) (s : S)
      → is_cluster_scoped_target key ≡ false
      → ((keys : List TargetKey)
          → resolve_targets env.parse_group env.valid_selector env.list_objects env.list_namespaces
              o.contributor
            ≡ resolved keys
          → All IsApart keys)
      → OneWriterOf live env.digest key s
      → OneWriterOf live env.digest key (reconcile_patch api env after now authorizer o s).world
  reconcile_patch-OneWriter authorizer o s within apart one =
      reconcile_patch-keeps api env after now (OneWriterOf live env.digest key) authorizer o s
        (λ keys e. All-KeptBy o.contributor keys within (apart keys e)) one
