-- ===== src/Webhook/Coverage.antt =====
-- internal/webhook/sar.go: the checks that an admitted operation has passed.
use patch_operator.Base.{
  ◌≡◌, ◌≢◌, ◌⊎◌, ◌∙◌, ap, sym, refl, inl, inr, true, false, Option, none, some, some-injective,
  List, [], ◌∷◌, ◌++◌, Text, arith, All, Option-cases, subst,
}
use patch_operator.Api.{Contributor, OnRelease}
use patch_operator.Webhook.{
  Verb, Operation, Check, check_text, ResourceFor, each_verb, target_checks, spec_verbs,
  account_checks, checks_for_spec, append_checks, checks_for, Reviewed, release_checks,
  dedupe_checks, admitted, authorize, deduped,
}
use patch_operator.Webhook.Dedupe.{HasText, dedupe_checks-keeps, dedupe_checks-All}
use patch_operator.Webhook.Needs.{
  Allowed, Withdraws, deletes_it, updates_it, patches_it, need, asked, target_check-need,
  check_text-verb,
}

module _ (review : Check → Option Reviewed) (P : Check → Type 0) where
  -- The API server has allowed a check that reads so, among those of a property.
  abbrev pub Permitted : Text → Type 0
  Permitted t = (d : Check) × (check_text d ≡ t) × P d × Allowed review d

  authorize-head :
      (c : Check) (checks : List Check)
      → authorize review (c ∷ checks) ≡ admitted
      → (review c ≡ some (record { allowed = true; denied = false }))
        × (authorize review checks ≡ admitted)
  unfolding authorize
  authorize-head c checks e = elim (Option-cases (review c)) [
    | inl missing ↦ cc (rw (missing, authorize) at e)
    | inr (status, at) ↦ ground arith
  ]

  -- An admitted list of checks permits each of its texts.
  authorize-Permitted :
      (t : Text) (checks : List Check)
      → authorize review checks ≡ admitted
      → All P checks
      → HasText t checks
      → Permitted t
  authorize-Permitted t [] e all h = absurd h
  authorize-Permitted t (c ∷ checks) e (p, all) (inl q) = (c, q, p, (authorize-head c checks e).0)
  authorize-Permitted t (c ∷ checks) e (p, all) (inr h) =
      authorize-Permitted t checks (authorize-head c checks e).1 all h

HasText-append_left : (t : Text) (a b : List Check) → HasText t a → HasText t (a ++ b)
HasText-append_left t [] b h = absurd h
HasText-append_left t (d ∷ a) b (inl q) = inl q
HasText-append_left t (d ∷ a) b (inr q) = inr (HasText-append_left t a b q)

HasText-append_right : (t : Text) (a b : List Check) → HasText t b → HasText t (a ++ b)
HasText-append_right t [] b h = h
HasText-append_right t (d ∷ a) b h = inr (HasText-append_right t a b h)

pub HasText-subset :
    (review : Check → Option Reviewed) (P : Check → Type 0) (a b : List Check)
    → ((t : Text) → HasText t (a ++ b) → Permitted review P t)
    → ((t : Text) → HasText t a → Permitted review P t)
      × ((t : Text) → HasText t b → Permitted review P t)
HasText-subset review P a b f =
    (λ t h. f t (HasText-append_left t a b h), λ t h. f t (HasText-append_right t a b h))

-- What a list was before its duplicates were removed.
pub deduped-some :
    (found : Option (List Check)) (l : List Check)
    → deduped found ≡ some l
    → (xs : List Check) × (found ≡ some xs) × (dedupe_checks xs ≡ l)
deduped-some none l e = cc
deduped-some (some xs) l e = (xs, refl, some-injective e)

-- An admitted list that answers for a removal of duplicates permits what it was made from.
pub dedupe_checks-Permitted :
    (review : Check → Option Reviewed) (P : Check → Type 0) (xs l : List Check)
    → dedupe_checks xs ≡ l
    → authorize review l ≡ admitted
    → All P xs
    → (t : Text) → HasText t xs
    → Permitted review P t
dedupe_checks-Permitted review P xs l e ok all t h =
    authorize-Permitted review P t l ok (subst (All P) e (dedupe_checks-All P xs all))
      (subst (HasText t) e (dedupe_checks-keeps t xs h))

module _ (parse_group : Text → Option Text) (resource_for : Option ResourceFor) where
  -- What the writes of a contributor need: a check for each verb that its spec implies, and one
  -- for the ServiceAccount that it names.
  abbrev pub write_needs : Contributor → Text → List Check
  write_needs c group =
      each_verb parse_group resource_for c group (spec_verbs parse_group resource_for c.spec)
      ++ account_checks parse_group resource_for c c.spec.service_account_ref

  target_checks-some :
      (c : Contributor) (verbs : List Verb) (l : List Check)
      → target_checks parse_group resource_for c verbs ≡ some l
      → (group : Text) × (parse_group c.spec.target.api_version ≡ some group)
        × (l ≡ each_verb parse_group resource_for c group verbs)
  unfolding target_checks
  target_checks-some c verbs l e = elim (Option-cases (parse_group c.spec.target.api_version)) [
    | inl bad ↦ cc (rw (bad, target_checks) at e)
    | inr (group, at) ↦ (group, at, some-injective (sym (rw (at, target_checks) at e)))
  ]

  pub checks_for_spec-some :
      (c : Contributor) (l : List Check)
      → checks_for_spec parse_group resource_for c ≡ some l
      → (group : Text) × (parse_group c.spec.target.api_version ≡ some group)
        × (l ≡ write_needs c group)
  unfolding checks_for_spec
  checks_for_spec-some c l e =
      elim (Option-cases
        (target_checks parse_group resource_for c (spec_verbs parse_group resource_for c.spec))) [
          | inl bad ↦ cc (rw (bad, checks_for_spec) at e)
          | inr (checks, at) ↦
              let known =
                target_checks-some c (spec_verbs parse_group resource_for c.spec) checks at in
              (
                known.0,
                known.1,
                some-injective (sym (rw (at, checks_for_spec) at e))
                    ∙ ap
                        (λ m.
                          m ++ account_checks parse_group resource_for c c.spec.service_account_ref)
                        known.2,
              )
        ]

  pub append_checks-some :
      (a b : Option (List Check)) (l : List Check)
      → append_checks a b ≡ some l
      → (xs : List Check) × (ys : List Check) × (a ≡ some xs) × (b ≡ some ys) × (l ≡ xs ++ ys)
  append_checks-some none b l e = cc
  append_checks-some (some a) none l e = cc
  append_checks-some (some a) (some b) l e = (a, b, refl, refl, some-injective (sym e))

  -- A check is the one that its verb asks for, at the group of the contributor's target.
  abbrev pub Shaped : Contributor → Check → Type 0
  Shaped c d =
      (group : Text) × (parse_group c.spec.target.api_version ≡ some group)
      × (d ≡ asked resource_for c group d.verb)

  -- The verbs on a target: all but the impersonation of an account.
  abbrev pub IsTargetVerb : Verb → Type 0
  IsTargetVerb v = v ≢ Verb.impersonate

  pub asked-need :
      (c : Contributor) (group : Text) (v : Verb)
      → IsTargetVerb v
      → asked resource_for c group v ≡ need resource_for c group v
  asked-need c group Verb.get h = refl
  asked-need c group Verb.create h = refl
  asked-need c group Verb.update h = refl
  asked-need c group Verb.patch h = refl
  asked-need c group Verb.delete h = refl
  asked-need c group Verb.impersonate h = absurd (h refl)

  pub each_verb-Shaped :
      (c : Contributor) (group : Text) (vs : List Verb)
      → parse_group c.spec.target.api_version ≡ some group
      → All IsTargetVerb vs
      → All (Shaped c) (each_verb parse_group resource_for c group vs)
  unfolding each_verb
  each_verb-Shaped c group [] at all = tt
  each_verb-Shaped c group (v ∷ vs) at (h, all) = (
    subst (Shaped c) (sym (target_check-need resource_for parse_group c group v))
        (group, at, sym (asked-need c group v h)),
    each_verb-Shaped c group vs at all,
  )

  -- Of two checks of one contributor that read alike, neither differs.
  pub Shaped-same :
      (c : Contributor) (d e : Check)
      → Shaped c d
      → Shaped c e
      → check_text d ≡ check_text e
      → d ≡ e
  Shaped-same c d e (g, at, p) (h, there, q) same =
      let groups : g ≡ h = some-injective (sym at ∙ there) in
      p
      ∙ ap (λ x. asked resource_for c x d.verb) groups
      ∙ ap (asked resource_for c h) (check_text-verb d e same)
      ∙ sym q

  -- The API server has allowed each check of a list, as the contributor asks for it.
  pub Permitted-Allowed :
      (review : Check → Option Reviewed) (c : Contributor) (w : Check)
      → Shaped c w
      → Permitted review (Shaped c) (check_text w)
      → Allowed review w
  Permitted-Allowed review c w p (d, same, q, ok) =
      subst (Allowed review) (Shaped-same c d w q p same) ok

  -- The API server has allowed each verb that a withdrawal needs.
  abbrev pub WithdrawalAllowed : (Check → Option Reviewed) → Contributor → OnRelease → Type 0
  WithdrawalAllowed review c r =
      (group : Text) × (parse_group c.spec.target.api_version ≡ some group)
      × ((v : Verb) → Withdraws r v → Allowed review (need resource_for c group v))

  HasCheck-Allowed :
      (review : Check → Option Reviewed) (c : Contributor) (group : Text) (vs : List Verb)
      → parse_group c.spec.target.api_version ≡ some group
      → All IsTargetVerb vs
      → ((t : Text)
          → HasText t (each_verb parse_group resource_for c group vs)
          → Permitted review (Shaped c) t)
      → All (λ v. Allowed review (need resource_for c group v)) vs
  unfolding each_verb
  HasCheck-Allowed review c group [] at all f = tt
  HasCheck-Allowed review c group (v ∷ vs) at (h, all) f =
      let same = target_check-need resource_for parse_group c group v in
      (
        Permitted-Allowed review c (need resource_for c group v)
            (group, at, sym (asked-need c group v h))
            (f (check_text (need resource_for c group v)) (inl (ap check_text same))),
        HasCheck-Allowed review c group vs at all (λ t k. f t (inr k)),
      )

  verbs-Allowed :
      (review : Check → Option Reviewed) (c : Contributor) (vs : List Verb) (l : List Check)
      → All IsTargetVerb vs
      → deduped (target_checks parse_group resource_for c vs) ≡ some l
      → authorize review l ≡ admitted
      → (group : Text) × (parse_group c.spec.target.api_version ≡ some group)
        × All (λ v. Allowed review (need resource_for c group v)) vs
  verbs-Allowed review c vs l all e ok =
      let (xs, found, left) = deduped-some (target_checks parse_group resource_for c vs) l e in
      let (group, at, same) = target_checks-some c vs xs found in
      (
        group,
        at,
        HasCheck-Allowed review c group vs at all (λ t h.
            dedupe_checks-Permitted review (Shaped c) xs l left ok
              (subst (All (Shaped c)) (sym same) (each_verb-Shaped c group vs at all)) t
              (subst (HasText t) (sym same) h)),
      )

  by_deletion :
      (P : Verb → Type 0) → P Verb.delete → (v : Verb) → Withdraws OnRelease.delete v → P v
  by_deletion P p _ (deletes_it e) = p
  by_deletion P p _ (updates_it h) = absurd (h refl)
  by_deletion P p _ (patches_it h) = absurd (h refl)

  by_update :
      (P : Verb → Type 0) (r : OnRelease)
      → r ≢ OnRelease.delete
      → P Verb.update
      → P Verb.patch
      → (v : Verb) → Withdraws r v
      → P v
  by_update P r h p q _ (deletes_it e) = absurd (h e)
  by_update P r h p q _ (updates_it k) = p
  by_update P r h p q _ (patches_it k) = q

  update-Allowed :
      (review : Check → Option Reviewed) (c : Contributor) (l : List Check) (r : OnRelease)
      → r ≢ OnRelease.delete
      → deduped (target_checks parse_group resource_for c (Verb.update ∷ Verb.patch ∷ [])) ≡ some l
      → authorize review l ≡ admitted
      → WithdrawalAllowed review c r
  update-Allowed review c l r h e ok =
      let (group, at, (u, (p, _))) =
        verbs-Allowed review c (Verb.update ∷ Verb.patch ∷ []) l ((λ x. cc x), ((λ x. cc x), tt)) e
          ok in
      (group, at, by_update (λ v. Allowed review (need resource_for c group v)) r h u p)

  release_checks-Allowed :
      (review : Check → Option Reviewed) (c : Contributor) (l : List Check) (r : OnRelease)
      → release_checks parse_group resource_for r c ≡ some l
      → authorize review l ≡ admitted
      → (r ≡ OnRelease.orphan) ⊎ WithdrawalAllowed review c r
  release_checks-Allowed review c l OnRelease.orphan e ok = inl refl
  release_checks-Allowed review c l OnRelease.delete e ok =
      let (group, at, (d, _)) =
        verbs-Allowed review c (Verb.delete ∷ []) l ((λ x. cc x), tt) e ok in
      inr (group, at, by_deletion (λ v. Allowed review (need resource_for c group v)) d)
  release_checks-Allowed review c l OnRelease.unset e ok =
      inr (update-Allowed review c l OnRelease.unset (λ x. cc x) e ok)
  release_checks-Allowed review c l OnRelease.revert e ok =
      inr (update-Allowed review c l OnRelease.revert (λ x. cc x) e ok)

  -- A contributor whose deletion is admitted either leaves its fields behind, or its requester has
  -- been allowed what the withdrawal of the fields needs: delete of the target where the spec
  -- deletes it, update and patch of it otherwise.
  pub admitted_delete :
      (review : Check → Option Reviewed) (c : Contributor) (l : List Check)
      → checks_for parse_group resource_for Operation.delete none (some c) ≡ some l
      → authorize review l ≡ admitted
      → (c.spec.lifecycle.on_release ≡ OnRelease.orphan)
        ⊎ WithdrawalAllowed review c c.spec.lifecycle.on_release
  unfolding checks_for
  admitted_delete review c l e ok =
      release_checks-Allowed review c l c.spec.lifecycle.on_release e ok
