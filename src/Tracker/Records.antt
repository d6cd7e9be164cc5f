-- ===== src/Tracker/Records.antt =====
-- internal/controller/tracker_controller.go: `recordFor`, `listContributors` and
-- `listSelectorContributors`. The lists of the API server are parameters, none for a request that
-- fails: `indexed` by the target's key, `listed` in all, each of a kind and a namespace, the empty
-- one for no restriction.
pub mod Selected
pub mod Laws
use patch_operator.Base.{
  ℕ, Bool, true, false, ◌&&◌, ◌||◌, not, Option, none, some, List, [], ◌∷◌, ◌++◌, Text, ◌==◌, any,
  if◌then◌else◌,
}
use patch_operator.Api.{ContributorState, TrackerRef, Contributor, ContributorRef}
use patch_operator.Api.Refs.{
  contributor_kind, contributor_ref_of, ref_text, kind_shared_resource,
  kind_cluster_shared_resource,
}
use patch_operator.Api.Status.{TrackerStatus, ContributorStatus, find_contributor}
use patch_operator.Scope.{TargetKey, key_text}
use patch_operator.Scope.Validate.{is_selector}
use patch_operator.Apply.Manager.{field_manager_for}
use patch_operator.Tracker.Order.{sort_contributors}

pub record ContributorRecord : Type 0 where
  pub contributor : Contributor
  pub status : ContributorStatus

-- A tracker of either kind, by what the controller reads of it.
pub record Tracker : Type 0 where
  pub cluster_scoped : Bool
  pub name : Text
  pub namespace : Text
  pub target : TargetKey
  pub status : TrackerStatus

-- `TrackerKind()`
abbrev pub tracker_kind : Tracker → Text
tracker_kind t = if t.cluster_scoped then kind_cluster_shared_resource else kind_shared_resource

abbrev pub own_ref : Tracker → TrackerRef
own_ref t = record { kind = tracker_kind t; name = t.name; namespace = t.namespace }

abbrev pub same_tracker_ref : TrackerRef → TrackerRef → Bool
same_tracker_ref a b = a.kind == b.kind && a.name == b.name && a.namespace == b.namespace

module _ (digest : Text → Text) where
  -- the record of a contributor that the tracker has not met
  abbrev pub fresh_record : Contributor → ContributorStatus
  fresh_record c = record {
    patch_ref = contributor_ref_of c;
    observed_generation = c.generation;
    priority = c.spec.priority;
    field_manager = [];
    state = ContributorState.unset;
    last_applied_hash = [];
    owned_paths = [];
    prior_values = none;
    prior_values_captured = false;
    creation_timestamp = some c.creation_timestamp;
  }

  -- with the bookkeeping of the record before
  abbrev pub carried : ContributorStatus → Option ContributorStatus → ContributorStatus
  carried rec none = rec
  carried rec (some prev) = record rec {
    field_manager = prev.field_manager;
    last_applied_hash = prev.last_applied_hash;
    owned_paths = prev.owned_paths;
    prior_values = prev.prior_values;
    prior_values_captured = prev.prior_values_captured;
    state = prev.state;
  }

  abbrev pub with_manager : Contributor → ContributorStatus → ContributorStatus
  with_manager c rec =
      if rec.field_manager == []
      then record rec {
        field_manager = field_manager_for digest (contributor_kind c) c.namespace c.name;
      }
      else rec

  -- `recordFor`
  unfoldable pub record_for : TrackerStatus → Contributor → ContributorStatus
  record_for existing c =
      with_manager c (carried (fresh_record c) (find_contributor existing (contributor_ref_of c)))

  unfoldable pub records_of : TrackerStatus → List Contributor → List ContributorRecord
  records_of existing [] = []
  records_of existing (c ∷ cs) =
      record { contributor = c; status = record_for existing c } ∷ records_of existing cs

  abbrev pub is_seen : List ContributorRecord → Contributor → Bool
  is_seen already c =
      any (λ r. ref_text r.status.patch_ref == ref_text (contributor_ref_of c)) already

  -- `add` on each contributor of a list
  unfoldable pub registered : Tracker → List ContributorRecord → List Contributor → List Contributor
  registered t already [] = []
  registered t already (c ∷ cs) =
      let rest = registered t already cs in
      if not (is_seen already c)
        && is_selector c.spec.target.mode
        && any (same_tracker_ref (own_ref t)) c.shared_resource_refs
      then c ∷ rest
      else rest

-- the map from reference texts to contributors, in which a later entry replaces an earlier one
unfoldable pub by_key : Text → List ContributorRecord → Option Contributor
by_key key [] = none
by_key key (r ∷ out) = elim (by_key key out) [
  | some c ↦ some c
  | none ↦ if ref_text r.status.patch_ref == key then some r.contributor else none
]

abbrev pub rejoined :
    Option Contributor → ContributorStatus → List ContributorRecord → List ContributorRecord
rejoined none rec rest = rest
rejoined (some c) rec rest = record { contributor = c; status = rec } ∷ rest

-- the loop that puts the sorted records back to their contributors
unfoldable pub rejoin : List ContributorRecord → List ContributorStatus → List ContributorRecord
rejoin out [] = []
rejoin out (rec ∷ records) = rejoined (by_key (ref_text rec.patch_ref) out) rec (rejoin out records)

abbrev pub statuses : List ContributorRecord → List ContributorStatus
statuses [] = []
statuses (r ∷ out) = r.status ∷ statuses out

unfoldable pub sorted_records : List ContributorRecord → List ContributorRecord
sorted_records out = rejoin out (sort_contributors (statuses out))

-- of contributors of either kind; true for the cluster-scoped one
abbrev pub ListContributors : Type 0
ListContributors = Bool → Text → Option (List Contributor)

abbrev pub both {ℓ} : {A : Type ℓ} → Option (List A) → Option (List A) → Option (List A)
both none b = none
both (some a) none = none
both (some a) (some b) = some (a ++ b)

-- the namespaced contributors that a tracker may hold, and the cluster-scoped ones
abbrev pub lists_for : ListContributors → Tracker → Option (List Contributor)
lists_for listed t =
    if t.cluster_scoped then both (listed false []) (listed true []) else listed false t.namespace

module _ (digest : Text → Text) (indexed : Text → ListContributors)
    (listed : ListContributors) where
  abbrev pub with_selected :
      Tracker → List ContributorRecord → Option (List Contributor) → Option (List ContributorRecord)
  with_selected t out none = none
  with_selected t out (some cs) =
      some (sorted_records (out ++ records_of digest t.status (registered digest t out cs)))

  abbrev pub with_indexed : Tracker → Option (List Contributor) → Option (List ContributorRecord)
  with_indexed t none = none
  with_indexed t (some cs) = with_selected t (records_of digest t.status cs) (lists_for listed t)

  -- `listContributors`
  unfoldable pub list_contributors : Tracker → Option (List ContributorRecord)
  list_contributors t = with_indexed t (lists_for (indexed (key_text t.target)) t)
