-- ===== src/Webhook/Needs.antt =====
-- internal/webhook/sar.go: the permission that each write of a contributor needs, described on its
-- own, and how the text of a check tells its verb.
use patch_operator.Base.{
  ◌≡◌, ◌≢◌, ◌∙◌, refl, sym, ap, inl, inr, Bool, true, false, Option, none, some, [], ◌∷◌, ◌++◌,
  Text, codes, eqb, Option-cases, if◌then◌else◌,
}
use patch_operator.Api.{TargetMode, OnRelease, TargetRef, ServiceAccountRef, Contributor}
use patch_operator.Scope.{resolve_target_namespace}
use patch_operator.Scope.Validate.{is_selector}
use patch_operator.Webhook.{
  Verb, Check, verb_text, check_text, guess_resource, ResourceFor, resource_of, target_check,
  Reviewed,
}

-- The API server allows a check, and does not deny it.
abbrev pub Allowed : (Check → Option Reviewed) → Check → Type 0
Allowed review d = review d ≡ some (record { allowed = true; denied = false })

-- The impersonation of a ServiceAccount: a ResourcePatch names one of its own namespace.
abbrev pub impersonation : Contributor → ServiceAccountRef → Check
impersonation c ref = record {
  verb = Verb.impersonate;
  group = [];
  resource = codes "serviceaccounts";
  namespace = if c.cluster_scoped then ref.namespace else c.namespace;
  name = ref.name;
}

-- What the withdrawal of a contributor needs on its target: delete where the spec deletes it, and
-- update and patch otherwise.
pub data Withdraws (r : OnRelease) : Verb → Type 0 where
  deletes_it : r ≡ OnRelease.delete → Withdraws r Verb.delete
  updates_it : r ≢ OnRelease.delete → Withdraws r Verb.update
  patches_it : r ≢ OnRelease.delete → Withdraws r Verb.patch

-- The resource of a kind, and whether it has namespaces: as the RESTMapper says, and otherwise a
-- guess, with namespaces.
abbrev pub mapped : Option ResourceFor → TargetRef → Text × Bool
mapped none t = (guess_resource t.kind, true)
mapped (some f) t = elim (f t.api_version t.kind) [
  | none ↦ (guess_resource t.kind, true)
  | some r ↦ r
]

-- One object, or all of a selector.
abbrev pub object_name : TargetMode → Text → Text
object_name TargetMode.selector name = []
object_name TargetMode.single name = name
object_name TargetMode.unset name = name
object_name (TargetMode.other mode) name = name

mapped-eq :
    (resource_for : Option ResourceFor) (t : TargetRef)
    → resource_of resource_for t ≡ mapped resource_for t
mapped-eq none t = refl
mapped-eq (some f) t = elim (Option-cases (f t.api_version t.kind)) [
  | inl unknown ↦ rw unknown refl
  | inr (r, known) ↦ rw known refl
]

object_name-eq :
    (mode : TargetMode) (name : Text)
    → (if is_selector mode then [] else name) ≡ object_name mode name
object_name-eq TargetMode.selector name = refl
object_name-eq TargetMode.single name = refl
object_name-eq TargetMode.unset name = refl
object_name-eq (TargetMode.other mode) name = refl

module _ (resource_for : Option ResourceFor) where
  -- A verb on the target of a contributor, in the group of that target: a ResourcePatch writes in its
  -- own namespace, a ClusterResourcePatch in the one that it names, and a kind without namespaces is
  -- written in none.
  abbrev pub need : Contributor → Text → Verb → Check
  need c group v = record {
    verb = v;
    group = group;
    resource = (mapped resource_for c.spec.target).0;
    namespace =
        if (mapped resource_for c.spec.target).1
        then (if c.cluster_scoped then c.spec.target.namespace else c.namespace)
        else [];
    name = object_name c.spec.target.mode c.spec.target.name;
  }

  abbrev pub account_need : Contributor → Text → Option ServiceAccountRef → Check
  account_need c group none = need c group Verb.impersonate
  account_need c group (some ref) = impersonation c ref

  -- the check of each verb that a contributor can need
  abbrev pub asked : Contributor → Text → Verb → Check
  asked c group Verb.impersonate = account_need c group c.spec.service_account_ref
  asked c group Verb.get = need c group Verb.get
  asked c group Verb.create = need c group Verb.create
  asked c group Verb.update = need c group Verb.update
  asked c group Verb.patch = need c group Verb.patch
  asked c group Verb.delete = need c group Verb.delete

  pub target_check-need :
      (parse_group : Text → Option Text) (c : Contributor) (group : Text) (v : Verb)
      → target_check parse_group resource_for c group v ≡ need c group v
  unfolding target_check resolve_target_namespace
  target_check-need parse_group c group v =
      let build : Text × Bool → Text → Check = λ r name. record {
        verb = v;
        group = group;
        resource = r.0;
        namespace =
            if r.1 then (if c.cluster_scoped then c.spec.target.namespace else c.namespace) else [];
        name = name;
      } in
      ap (λ r. build r (if is_selector c.spec.target.mode then [] else c.spec.target.name))
        (mapped-eq resource_for c.spec.target)
      ∙ ap (build (mapped resource_for c.spec.target))
          (object_name-eq c.spec.target.mode c.spec.target.name)

-- the verb of a check, by the first byte of its text
verb_at : Text → Verb
verb_at [] = Verb.get
verb_at (b ∷ s) =
    if eqb b b'c'
    then Verb.create
    else if eqb b b'u'
    then Verb.update
    else if eqb b b'p'
    then Verb.patch
    else if eqb b b'd'
    then Verb.delete
    else if eqb b b'i'
    then Verb.impersonate
    else Verb.get

verb_at-text : (v : Verb) (rest : Text) → verb_at (verb_text v ++ rest) ≡ v
unfolding verb_at
verb_at-text Verb.get rest = refl
verb_at-text Verb.create rest = refl
verb_at-text Verb.update rest = refl
verb_at-text Verb.patch rest = refl
verb_at-text Verb.delete rest = refl
verb_at-text Verb.impersonate rest = refl

-- Checks that read alike have the same verb.
pub check_text-verb : (d e : Check) → check_text d ≡ check_text e → d.verb ≡ e.verb
unfolding check_text
check_text-verb d e same = sym (verb_at-text d.verb _) ∙ ap verb_at same ∙ verb_at-text e.verb _
