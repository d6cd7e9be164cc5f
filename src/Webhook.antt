-- ===== src/Webhook.antt =====
-- internal/webhook/sar.go: the authorization questions that an operation on a contributor implies,
-- and the SubjectAccessReviews that answer them. Parameters, as they are not code of the repository:
-- `parse_group` is `schema.ParseGroupVersion`, the group of an apiVersion or none for its error;
-- `resource_for` is the RESTMapper's answer; `review` is the API server's.
pub mod Needs
pub mod Dedupe
pub mod Coverage
pub mod Admission
pub mod Handler
pub mod Recorder
mod Tests
mod Requests
use patch_operator.Base.{
  ℕ, Bool, true, false, ◌&&◌, ◌||◌, not, Option, none, some, List, [], ◌∷◌, ◌++◌, Text, codes, ◌==◌,
  text_lt, has_suffix, to_lower, if◌then◌else◌,
}
use patch_operator.Api.{
  TargetMode, OnMissing, OnRelease, TargetRef, ServiceAccountRef, ResourcePatchSpec, Contributor,
}
use patch_operator.Scope.{resolve_target_namespace}
use patch_operator.Scope.Validate.{is_create, is_delete, is_selector}

pub data Verb : Type 0 where
  get create update patch delete impersonate : Verb

pub data Operation : Type 0 where
  create update delete : Operation
  other : Text → Operation

pub record Check : Type 0 where
  pub verb : Verb
  pub group : Text
  pub resource : Text
  pub namespace : Text
  pub name : Text

abbrev pub verb_text : Verb → Text
verb_text Verb.get = codes "get"
verb_text Verb.create = codes "create"
verb_text Verb.update = codes "update"
verb_text Verb.patch = codes "patch"
verb_text Verb.delete = codes "delete"
verb_text Verb.impersonate = codes "impersonate"

abbrev pub qualified : Check → Text
qualified c = if c.group == [] then c.resource else c.resource ++ b'.' ∷ c.group

-- `Check.String`
unfoldable pub check_text : Check → Text
check_text c =
    verb_text c.verb
    ++ b' '
      ∷ (qualified c
          ++ (if c.namespace == []
              then (if c.name == [] then codes " (cluster-wide)" else b' ' ∷ c.name)
              else if c.name == []
              then codes " in namespace " ++ c.namespace
              else b' ' ∷ (c.namespace ++ b'/' ∷ c.name)))

-- without the last byte
abbrev pub but_last : Text → Text
but_last [] = []
but_last (c ∷ []) = []
but_last (c ∷ d ∷ s) = c ∷ but_last (d ∷ s)

-- `guessResource`
unfoldable pub guess_resource : Text → Text
unfolding to_lower has_suffix
guess_resource kind =
    let l = to_lower kind in
    if has_suffix l (codes "s") || has_suffix l (codes "x") || has_suffix l (codes "ch")
    then l ++ codes "es"
    else if has_suffix l (codes "y")
    then but_last l ++ codes "ies"
    else l ++ codes "s"

-- the resource and scope of a kind; none is an error
abbrev pub ResourceFor : Type 0
ResourceFor = Text → Text → Option (Text × Bool)

abbrev pub guessed : Text → Option (Text × Bool) → Text × Bool
guessed kind none = (guess_resource kind, true)
guessed kind (some answer) = answer

abbrev pub resource_of : Option ResourceFor → TargetRef → Text × Bool
resource_of none t = guessed t.kind none
resource_of (some f) t = guessed t.kind (f t.api_version t.kind)

module _ (parse_group : Text → Option Text) (resource_for : Option ResourceFor) where
  -- the check of one verb, once the group is known
  unfoldable pub target_check : Contributor → Text → Verb → Check
  target_check c group v = record {
    verb = v;
    group = group;
    resource = (resource_of resource_for c.spec.target).0;
    namespace =
        if (resource_of resource_for c.spec.target).1 then resolve_target_namespace c else [];
    name = if is_selector c.spec.target.mode then [] else c.spec.target.name;
  }

  -- the loop of `targetChecks`
  unfoldable pub each_verb : Contributor → Text → List Verb → List Check
  each_verb c group [] = []
  each_verb c group (v ∷ vs) = target_check c group v ∷ each_verb c group vs

  -- `targetChecks`; none is an apiVersion that does not parse
  unfoldable pub target_checks : Contributor → List Verb → Option (List Check)
  target_checks c verbs = elim (parse_group c.spec.target.api_version) [
    | none ↦ none
    | some group ↦ some (each_verb c group verbs)
  ]

  abbrev pub spec_verbs : ResourcePatchSpec → List Verb
  spec_verbs spec =
      Verb.update
      ∷ Verb.patch
      ∷ ((if is_create spec.lifecycle.on_missing then Verb.create ∷ [] else [])
          ++ (if is_delete spec.lifecycle.on_release then Verb.delete ∷ [] else []))

  -- the check that `serviceAccountRef` needs
  abbrev pub account_checks : Contributor → Option ServiceAccountRef → List Check
  account_checks c none = []
  account_checks c (some ref) =
      if ref.name == []
      then []
      else record {
        verb = Verb.impersonate;
        group = [];
        resource = codes "serviceaccounts";
        namespace = if c.cluster_scoped then ref.namespace else c.namespace;
        name = ref.name;
      }
        ∷ []

  -- `checksForSpec`
  unfoldable pub checks_for_spec : Contributor → Option (List Check)
  checks_for_spec c = elim (target_checks c (spec_verbs c.spec)) [
    | none ↦ none
    | some checks ↦ some (checks ++ account_checks c c.spec.service_account_ref)
  ]

abbrev pub same_mode : TargetMode → TargetMode → Bool
same_mode TargetMode.unset TargetMode.unset = true
same_mode TargetMode.single TargetMode.single = true
same_mode TargetMode.selector TargetMode.selector = true
same_mode (TargetMode.other a) (TargetMode.other b) = a == b
same_mode _ _ = false

-- `targetChanged`
unfoldable pub target_changed : TargetRef → TargetRef → Bool
target_changed a b =
    not (a.api_version == b.api_version)
    || not (a.kind == b.kind)
    || not (a.name == b.name)
    || not (a.namespace == b.namespace)
    || not (same_mode a.mode b.mode)

-- `dedupeChecks`: the map from texts to checks, kept in the order of the texts as it is filled
unfoldable pub insert_check : Check → List Check → List Check
insert_check c [] = c ∷ []
insert_check c (d ∷ l) =
    if check_text c == check_text d
    then c ∷ l
    else if text_lt (check_text c) (check_text d)
    then c ∷ d ∷ l
    else d ∷ insert_check c l

unfoldable pub dedupe_from : List Check → List Check → List Check
dedupe_from seen [] = seen
dedupe_from seen (c ∷ checks) = dedupe_from (insert_check c seen) checks

unfoldable pub dedupe_checks : List Check → List Check
unfolding dedupe_from
dedupe_checks checks = dedupe_from [] checks

abbrev pub append_checks : Option (List Check) → Option (List Check) → Option (List Check)
append_checks none b = none
append_checks (some a) none = none
append_checks (some a) (some b) = some (a ++ b)

abbrev pub deduped : Option (List Check) → Option (List Check)
deduped none = none
deduped (some checks) = some (dedupe_checks checks)

module _ (parse_group : Text → Option Text) (resource_for : Option ResourceFor) where
  -- the checks of an update, before duplicates are removed
  abbrev pub update_checks : Contributor → Option Contributor → Option (List Check)
  update_checks c none = checks_for_spec parse_group resource_for c
  update_checks c (some old) =
      if target_changed old.spec.target c.spec.target
      then append_checks (checks_for_spec parse_group resource_for c)
          (checks_for_spec parse_group resource_for old)
      else checks_for_spec parse_group resource_for c

  abbrev pub release_checks : OnRelease → Contributor → Option (List Check)
  release_checks OnRelease.orphan c = some []
  release_checks OnRelease.delete c =
      deduped (target_checks parse_group resource_for c (Verb.delete ∷ []))
  release_checks _ c =
      deduped (target_checks parse_group resource_for c (Verb.update ∷ Verb.patch ∷ []))

  -- `ChecksFor` on an object and an old object; none is an error
  unfoldable pub checks_for :
      Operation → Option Contributor → Option Contributor → Option (List Check)
  checks_for Operation.create (some c) old = deduped (checks_for_spec parse_group resource_for c)
  checks_for Operation.update (some c) old = deduped (update_checks c old)
  checks_for Operation.delete (some c) old = release_checks c.spec.lifecycle.on_release c
  checks_for Operation.delete none (some old) = release_checks old.spec.lifecycle.on_release old
  checks_for _ _ _ = none

pub record Reviewed : Type 0 where
  pub allowed : Bool
  pub denied : Bool

pub data Verdict : Type 0 where
  admitted failed : Verdict
  denial : Check → Verdict

-- `Authorizer.Authorize`; a review that answers none could not be created
unfoldable pub authorize : (Check → Option Reviewed) → List Check → Verdict
authorize review [] = admitted
authorize review (c ∷ checks) = elim (review c) [
  | none ↦ failed
  | some status ↦
      let rest = authorize review checks in
      if not status.allowed || status.denied then denial c else rest
]
