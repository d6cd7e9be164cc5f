-- ===== src/Controller/Events.antt =====
-- internal/controller/helpers.go, contributor_controller.go, tracker_controller.go and index.go: which
-- events wake the controllers, and for which objects. `digest` is the hexadecimal SHA-256.
pub mod Wakes
use patch_operator.Base.{
  ℕ, Bool, true, false, ◌&&◌, ◌||◌, not, Option, none, some, List, [], ◌∷◌, ◌++◌, Text, ◌==◌, eqb,
  if◌then◌else◌,
}
use patch_operator.Api.{TargetMode, TrackerRef, Contributor}
use patch_operator.Api.Status.{PromotionRef, ContributorStatus, TrackerStatus, is_fenced}
use patch_operator.Scope.{TargetKey, key_text, target_key_for, tracker_kind_for, tracker_namespace}
use patch_operator.Scope.Names.{tracker_name}

-- the metadata that the event filters read
pub record Metadata : Type 0 where
  pub generation : ℕ
  pub deleting : Bool
  pub finalizers : ℕ

abbrev pub flips : Bool → Bool → Bool
flips true b = not b
flips false b = b

-- `generationOrFinalizerChanged`, of an update event that has both objects
unfoldable pub generation_or_finalizer_changed : Metadata → Metadata → Bool
generation_or_finalizer_changed old new =
    not (eqb old.generation new.generation)
    || (flips new.deleting old.deleting || not (eqb old.finalizers new.finalizers))

abbrev pub adoption_flips : Option PromotionRef → Option PromotionRef → Bool
adoption_flips (some a) (some b) = flips a.adopted b.adopted
adoption_flips _ _ = false

-- `trackerChanged`, of an update event of a tracker
unfoldable pub tracker_changed : Metadata → TrackerStatus → Metadata → TrackerStatus → Bool
unfolding generation_or_finalizer_changed
tracker_changed old old_status new new_status =
    generation_or_finalizer_changed old new
    || (flips (is_fenced old_status) (is_fenced new_status)
        || (adoption_flips old_status.promoted_to new_status.promoted_to
            || not (eqb old_status.contributor_count new_status.contributor_count)))

-- `types.NamespacedName`
pub record Wanted : Type 0 where
  pub namespace : Text
  pub name : Text

-- `contributorsOfTracker`, for the reconciler of one kind
unfoldable pub contributors_of_tracker : Text → List ContributorStatus → List Wanted
contributors_of_tracker kind [] = []
contributors_of_tracker kind (c ∷ contributors) =
    let rest = contributors_of_tracker kind contributors in
    if c.patch_ref.kind == kind
    then record { namespace = c.patch_ref.namespace; name = c.patch_ref.name } ∷ rest
    else rest

-- the trackers of one kind that a contributor has recorded
unfoldable pub registered_with : Text → List TrackerRef → List Wanted
registered_with kind [] = []
registered_with kind (ref ∷ refs) =
    let rest = registered_with kind refs in
    if ref.kind == kind then record { namespace = ref.namespace; name = ref.name } ∷ rest else rest

abbrev pub is_selector_mode : TargetMode → Bool
is_selector_mode TargetMode.selector = true
is_selector_mode mode = false

-- the tracker that a contributor without a registration is going to have
unfoldable pub first_tracker : (Text → Text) → Text → Contributor → List Wanted
unfolding tracker_name
first_tracker digest kind c =
    let key = target_key_for c in
    if tracker_kind_for key c.cluster_scoped == kind
    then record {
      namespace = tracker_namespace (tracker_kind_for key c.cluster_scoped) key;
      name = tracker_name digest key;
    }
      ∷ []
    else []

abbrev pub or_first : List Wanted → Bool → List Wanted → List Wanted
or_first [] true first = []
or_first [] false first = first
or_first (w ∷ out) selects first = w ∷ out

-- `trackersOfContributor`, for the reconciler of one kind
unfoldable pub trackers_of_contributor : (Text → Text) → Text → Contributor → List Wanted
unfolding first_tracker
trackers_of_contributor digest kind c =
    or_first (registered_with kind c.shared_resource_refs) (is_selector_mode c.spec.target.mode)
      (first_tracker digest kind c)

abbrev pub keys_for_name : Contributor → List Text
keys_for_name c = if c.spec.target.name == [] then [] else key_text (target_key_for c) ∷ []

abbrev pub keys_for_mode : TargetMode → Contributor → List Text
keys_for_mode TargetMode.unset c = keys_for_name c
keys_for_mode TargetMode.single c = keys_for_name c
keys_for_mode mode c = []

-- `targetKeysFor`
unfoldable pub target_keys_for : Contributor → List Text
target_keys_for c = keys_for_mode c.spec.target.mode c
