-- ===== src/Webhook/Admission.antt =====
-- internal/webhook/sar.go: an admitted contributor, against a table of the writes that its spec
-- implies.
use patch_operator.Base.{
  ◌≡◌, ◌≢◌, ◌⊎◌, ◌∙◌, ap, sym, All-append, Bool, false, if-then, if-else, refl, inl, inr, ◌++◌,
  true, Option, none, some, List, [], ◌∷◌, Text, ◌==◌, eq_iff, arith, All, Bool-cases, subst,
  if◌then◌else◌,
}
use patch_operator.Api.{
  OnMissing, OnRelease, TargetRef, ServiceAccountRef, ResourcePatchSpec, Contributor,
}
use patch_operator.Scope.Validate.{is_create, is_delete}
use patch_operator.Webhook.{
  Verb, Operation, Check, check_text, ResourceFor, each_verb, spec_verbs, account_checks,
  append_checks, target_changed, checks_for_spec, update_checks, checks_for, Reviewed, admitted,
  authorize,
}
use patch_operator.Webhook.Dedupe.{HasText}
use patch_operator.Webhook.Needs.{Allowed, impersonation, need, account_need, target_check-need}
use patch_operator.Webhook.Coverage.{
  Permitted, Shaped, Shaped-same, asked-need, each_verb-Shaped, write_needs, checks_for_spec-some,
  deduped-some, dedupe_checks-Permitted, HasText-subset, append_checks-some,
}

-- The verbs on its target that a spec implies.
pub data Implied (spec : ResourcePatchSpec) : Verb → Type 0 where
  updates : Implied spec Verb.update
  patches : Implied spec Verb.patch
  creates : spec.lifecycle.on_missing ≡ OnMissing.create → Implied spec Verb.create
  deletes : spec.lifecycle.on_release ≡ OnRelease.delete → Implied spec Verb.delete

-- Two targets that differ in what identifies the object.
abbrev pub Moved : TargetRef → TargetRef → Type 0
Moved a b =
    (a.api_version ≢ b.api_version)
    ⊎ (a.kind ≢ b.kind)
    ⊎ (a.name ≢ b.name)
    ⊎ (a.namespace ≢ b.namespace)

Moved-changed : (a b : TargetRef) → Moved a b → target_changed a b ≡ true
unfolding target_changed
Moved-changed a b moved = ground (
  arith,
  eq_iff a.api_version b.api_version,
  eq_iff a.kind b.kind,
  eq_iff a.name b.name,
  eq_iff a.namespace b.namespace,
)

abbrev HasVerb : Verb → List Verb → Type 0
HasVerb v [] = ⊥
HasVerb v (w ∷ vs) = (w ≡ v) ⊎ HasVerb v vs

module _ (parse_group : Text → Option Text) (resource_for : Option ResourceFor)
    (review : Check → Option Reviewed) where
  Implied-HasVerb :
      (spec : ResourcePatchSpec) (v : Verb)
      → Implied spec v
      → HasVerb v (spec_verbs parse_group resource_for spec)
  Implied-HasVerb spec _ updates = inl refl
  Implied-HasVerb spec _ patches = inr (inl refl)
  Implied-HasVerb spec _ (creates e) = inr (inr (rw e (inl refl)))
  Implied-HasVerb spec _ (deletes e) = elim (Bool-cases (is_create spec.lifecycle.on_missing)) [
    | inl created ↦ inr (inr (rw (created, e) (inr (inl refl))))
    | inr waits ↦ inr (inr (rw (waits, e) (inl refl)))
  ]

  -- Among the checks of a contributor, what reads like a verb on its target or like the
  -- impersonation of its account.
  HasText-verb :
      (c : Contributor) (group : Text) (vs : List Verb) (rest : List Check) (v : Verb)
      → HasVerb v vs
      → HasText
          (check_text (need resource_for c group v))
          (each_verb parse_group resource_for c group vs ++ rest)
  unfolding each_verb
  HasText-verb c group [] rest v h = absurd h
  HasText-verb c group (w ∷ vs) rest v (inl e) = inl (
      ap check_text
        (target_check-need resource_for parse_group c group w ∙ ap (need resource_for c group) e))
  HasText-verb c group (w ∷ vs) rest v (inr h) = inr (HasText-verb c group vs rest v h)

  HasText-account :
      (c : Contributor) (group : Text) (vs : List Verb) (ref : ServiceAccountRef)
      → ref.name ≢ []
      → HasText (check_text (impersonation c ref)) (
          each_verb parse_group resource_for c group vs
          ++ account_checks parse_group resource_for c (some ref))
  unfolding each_verb
  HasText-account c group [] ref named = elim (Bool-cases (ref.name == [])) [
    | inl blank ↦ absurd (named ((eq_iff ref.name []).0 blank))
    | inr given ↦ rw given (inl refl)
  ]
  HasText-account c group (w ∷ vs) ref named = inr (HasText-account c group vs ref named)

  one_verb :
      (b : Bool) (v : Verb)
      → v ≢ Verb.impersonate
      → All (λ w. w ≢ Verb.impersonate) (if b then v ∷ [] else [])
  one_verb true v h = (h, tt)
  one_verb false v h = tt

  Implied-target : (spec : ResourcePatchSpec) (v : Verb) → Implied spec v → v ≢ Verb.impersonate
  Implied-target spec _ updates x = cc x
  Implied-target spec _ patches x = cc x
  Implied-target spec _ (creates e) x = cc x
  Implied-target spec _ (deletes e) x = cc x

  All-map : (P Q : Check → Type 0) (l : List Check) → ((d : Check) → P d → Q d) → All P l → All Q l
  All-map P Q [] g all = tt
  All-map P Q (d ∷ l) g (p, all) = (g d p, All-map P Q l g all)

  spec_verbs-target :
      (spec : ResourcePatchSpec)
      → All (λ v. v ≢ Verb.impersonate) (spec_verbs parse_group resource_for spec)
  spec_verbs-target spec = (
    λ x. cc x,
    (
      λ x. cc x,
      All-append (λ v. v ≢ Verb.impersonate) _ _
          (one_verb (is_create spec.lifecycle.on_missing) Verb.create (λ x. cc x))
          (one_verb (is_delete spec.lifecycle.on_release) Verb.delete (λ x. cc x)),
    ),
  )

  account_checks-Shaped :
      (c : Contributor) (group : Text) (o : Option ServiceAccountRef)
      → parse_group c.spec.target.api_version ≡ some group
      → c.spec.service_account_ref ≡ o
      → All (Shaped parse_group resource_for c) (account_checks parse_group resource_for c o)
  account_checks-Shaped c group none at e = tt
  account_checks-Shaped c group (some ref) at e = elim (Bool-cases (ref.name == [])) [
    | inl blank ↦ rw blank tt
    | inr given ↦ rw given ((group, at, sym (ap (account_need resource_for c group) e)), tt)
  ]

  write_needs-Shaped :
      (c : Contributor) (group : Text)
      → parse_group c.spec.target.api_version ≡ some group
      → All (Shaped parse_group resource_for c) (write_needs parse_group resource_for c group)
  write_needs-Shaped c group at =
      All-append (Shaped parse_group resource_for c) _ _
        (each_verb-Shaped parse_group resource_for c group
          (spec_verbs parse_group resource_for c.spec) at (spec_verbs-target c.spec))
        (account_checks-Shaped c group c.spec.service_account_ref at refl)

  -- The API server has allowed each verb that the spec implies, on the contributor's target, and the
  -- impersonation of the ServiceAccount that the spec names.
  abbrev pub WritesAllowed : Contributor → Type 0
  WritesAllowed c =
      (group : Text) × (parse_group c.spec.target.api_version ≡ some group)
      × ((v : Verb) → Implied c.spec v → Allowed review (need resource_for c group v))
      × ((ref : ServiceAccountRef)
          → c.spec.service_account_ref ≡ some ref
          → ref.name ≢ []
          → Allowed review (impersonation c ref))

  -- A property that holds only of the checks of a contributor, among those that read like one.
  abbrev Tells : (Check → Type 0) → Contributor → Type 0
  Tells P c =
      (d w : Check)
      → P d
      → Shaped parse_group resource_for c w
      → check_text d ≡ check_text w
      → d ≡ w

  spec-WritesAllowed :
      (P : Check → Type 0) (c : Contributor) (xs : List Check)
      → Tells P c
      → checks_for_spec parse_group resource_for c ≡ some xs
      → ((t : Text) → HasText t xs → Permitted review P t)
      → WritesAllowed c
  spec-WritesAllowed P c xs tells e f =
      let (group, at, same) = checks_for_spec-some parse_group resource_for c xs e in
      let exact : (w : Check)
          → Shaped parse_group resource_for c w
          → HasText (check_text w) (write_needs parse_group resource_for c group)
          → Allowed review w =
        λ w shaped h.
          let (d, reads, p, ok) = f (check_text w) (subst (HasText (check_text w)) (sym same) h) in
          subst (Allowed review) (tells d w p shaped reads) ok in
      (
        group,
        at,
        λ v implied.
            exact (need resource_for c group v)
              (
                group,
                at,
                sym (
                    asked-need parse_group resource_for c group v
                      (Implied-target c.spec v implied)),
              )
              (HasText-verb c group (spec_verbs parse_group resource_for c.spec) _ v
                (Implied-HasVerb c.spec v implied)),
        λ ref e named.
            exact (impersonation c ref) (group, at, sym (ap (account_need resource_for c group) e))
              (subst
                (λ o. HasText (check_text (impersonation c ref)) (
                  each_verb parse_group resource_for c group
                    (spec_verbs parse_group resource_for c.spec)
                  ++ account_checks parse_group resource_for c o))
                (sym e)
                (HasText-account c group (spec_verbs parse_group resource_for c.spec) ref named)),
      )

  spec-Shaped :
      (c : Contributor) (xs : List Check)
      → checks_for_spec parse_group resource_for c ≡ some xs
      → All (Shaped parse_group resource_for c) xs
  spec-Shaped c xs e =
      let (group, at, same) = checks_for_spec-some parse_group resource_for c xs e in
      subst (All (Shaped parse_group resource_for c)) (sym same) (write_needs-Shaped c group at)

  -- A contributor that is admitted on creation has been allowed every write that its spec implies:
  -- update and patch of the target, create where the spec creates it, delete where it deletes it,
  -- and impersonation of the ServiceAccount that it names.
  pub admitted_create :
      (c : Contributor) (l : List Check)
      → checks_for parse_group resource_for Operation.create (some c) none ≡ some l
      → authorize review l ≡ admitted
      → WritesAllowed c
  unfolding checks_for
  admitted_create c l e admits =
      let P = Shaped parse_group resource_for c in
      let (xs, found, left) = deduped-some (checks_for_spec parse_group resource_for c) l e in
      spec-WritesAllowed P c xs (λ d w. Shaped-same parse_group resource_for c d w) found
        (dedupe_checks-Permitted review P xs l left admits (spec-Shaped c xs found))

  -- No check of one contributor reads like a different check of the other.
  abbrev pub ReadsApart : Contributor → Contributor → Type 0
  ReadsApart c old =
      (d w : Check)
      → Shaped parse_group resource_for c d
      → Shaped parse_group resource_for old w
      → check_text d ≡ check_text w
      → d ≡ w

  moved-Allowed :
      (c old : Contributor) (xs : List Check)
      → ReadsApart c old
      → append_checks
          (checks_for_spec parse_group resource_for c)
          (checks_for_spec parse_group resource_for old)
        ≡ some xs
      → ((P : Check → Type 0) → All P xs → (t : Text) → HasText t xs → Permitted review P t)
      → WritesAllowed c × WritesAllowed old
  moved-Allowed c old xs apart e f =
      let (a, b, first, second, same) = append_checks-some parse_group resource_for _ _ xs e in
      let P : Check → Type 0 =
        λ d. Shaped parse_group resource_for c d ⊎ Shaped parse_group resource_for old d in
      let all : All P xs = subst (All P) (sym same) (
        All-append P a b
          (All-map (Shaped parse_group resource_for c) P a (λ d p. inl p) (spec-Shaped c a first))
          (All-map (Shaped parse_group resource_for old) P b (λ d p. inr p)
            (spec-Shaped old b second))) in
      let permits : (t : Text) → HasText t (a ++ b) → Permitted review P t =
        λ t h. f P all t (subst (HasText t) (sym same) h) in
      let (left, right) = HasText-subset review P a b permits in
      (
        spec-WritesAllowed P c a
            (λ d w p q reads. elim p [
              | inl own ↦ Shaped-same parse_group resource_for c d w own q reads
              | inr other ↦ sym (apart w d q other (sym reads))
            ])
            first left,
        spec-WritesAllowed P old b
            (λ d w p q reads. elim p [
              | inl other ↦ apart d w other q reads
              | inr own ↦ Shaped-same parse_group resource_for old d w own q reads
            ])
            second right,
      )

  -- A contributor that is admitted on an update has been allowed every write that its new spec
  -- implies, and, where its target has moved, every write that its old spec implies, if no check of
  -- one of the two specs reads like a different check of the other.
  pub admitted_update :
      (c old : Contributor) (l : List Check)
      → ReadsApart c old
      → checks_for parse_group resource_for Operation.update (some c) (some old) ≡ some l
      → authorize review l ≡ admitted
      → WritesAllowed c × (Moved old.spec.target c.spec.target → WritesAllowed old)
  unfolding checks_for
  admitted_update c old l apart e admits =
      let (xs, found, left) =
        deduped-some (update_checks parse_group resource_for c (some old)) l e in
      let permits : (P : Check → Type 0)
          → All P xs
          → (t : Text) → HasText t xs
          → Permitted review P t =
        λ P. dedupe_checks-Permitted review P xs l left admits in
      let old_target = old.spec.target in
      elim (Bool-cases (target_changed old_target c.spec.target)) [
        | inl changed ↦
            let whole : update_checks parse_group resource_for c (some old)
                ≡ append_checks (checks_for_spec parse_group resource_for c)
                    (checks_for_spec parse_group resource_for old) =
              if-then (target_changed old_target c.spec.target) _ _ changed in
            let (a, b) = moved-Allowed c old xs apart (sym whole ∙ found) permits in (a, λ moved. b)
        | inr kept ↦
            let P = Shaped parse_group resource_for c in
            let first : checks_for_spec parse_group resource_for c ≡ some xs =
              sym (if-else (target_changed old_target c.spec.target) _ _ kept) ∙ found in
            (
              spec-WritesAllowed P c xs (λ d w. Shaped-same parse_group resource_for c d w) first
                  (permits P (spec-Shaped c xs first)),
              λ moved. cc (kept, Moved-changed old_target c.spec.target moved),
            )
      ]
