-- ===== src/Apply/Client/Applier.antt =====
-- internal/apply/csa.go: `Apply`, `create` and `Revert` of the client-side applier, as the applier
-- that a tracker asks. The API server and the library's unstructured objects are the record
-- `Targets`: the calls on a target, the setters of its identity, and what is read off an object.
pub mod Laws
pub mod Captures
use patch_operator.Base.{
  ◌≡◌, ◌≢◌, ◌⊎◌, ◌∙◌, refl, sym, ap, inl, inr, Bool, true, false, Option, none, some, Text,
  Bool-cases, if-then, if-else, if◌then◌else◌,
}
use patch_operator.Json.{Json, obj, Fields, end}
use patch_operator.Render.{Target}
use patch_operator.Tracker.Appliers.{
  Request, RevertRequest, Live, Report, ApplyAnswer, answered, absent, concurrent, failure, Applier,
}
use patch_operator.Apply.{merge_base_and_contribution}
use patch_operator.Apply.Client.{Updated, broken, unchanged, written, update, revert_paths}

pub data Fetched : Type 0 where
  there : Json → Fetched
  missing : Fetched
  unreadable : Text → Fetched

-- a write: the object as it is stored, or AlreadyExists, NotFound, Conflict or another error
pub data Stored : Type 0 where
  stored : Json → Stored
  taken gone clashes : Stored
  fails : Text → Stored

pub record Targets (S : Type 0) : Type 0 where
  pub get : S → Target → Fetched
  pub create : S → Target → Json → S × Stored
  pub update : S → Target → Json → S × Stored
  pub identified : Target → Fields → Fields
  pub live_of : Json → Live
  pub merge_error : Text
  pub update_error : Text

-- `held` is what the server has under a target. A write changes no other target.
pub record LawfulTargets {S : Type 0} (targets : Targets S) (held : S → Target → Option Json)
    : Type 0 where
  pub get-there : {s : S} {t : Target} {d : Json} → targets.get s t ≡ there d → held s t ≡ some d
  pub get-missing : {s : S} {t : Target} → targets.get s t ≡ missing → held s t ≡ none
  pub create-elsewhere :
      (s : S) (t : Target) (d : Json) (u : Target)
      → u ≢ t
      → held (targets.create s t d).0 u ≡ held s u
  pub update-elsewhere :
      (s : S) (t : Target) (d : Json) (u : Target)
      → u ≢ t
      → held (targets.update s t d).0 u ≡ held s u

module _ {S : Type 0} (targets : Targets S) (encode : Json → Text)
    (same_content : Json → Json → Bool) where
  abbrev pub report_of : Request → Bool → Json → Fields → Report
  report_of req created d priors = record {
    created = created;
    live = some (targets.live_of d);
    owned_paths = req.contribution.paths;
    prior_values = priors;
    prior_values_captured = true;
    conflict = none;
  }

  abbrev pub answer_stored : Request → Bool → Fields → Stored → ApplyAnswer
  answer_stored req created priors (stored d) = answered (report_of req created d priors)
  answer_stored req created priors taken = concurrent
  answer_stored req created priors clashes = concurrent
  answer_stored req created priors gone = absent
  answer_stored req created priors (fails message) = failure message

  abbrev pub answer_write : Request → Bool → Fields → S × Stored → S × ApplyAnswer
  answer_write req created priors (s, outcome) = (s, answer_stored req created priors outcome)

  abbrev pub content_of : Request → Option Fields → Option Fields
  content_of req none = some req.contribution.object
  content_of req (some base) = merge_base_and_contribution base req.contribution.object

  abbrev pub create_content : Request → S → Option Fields → S × ApplyAnswer
  create_content req s none = (s, failure targets.merge_error)
  create_content req s (some content) =
      answer_write req true end
        (targets.create s req.target (obj (targets.identified req.target content)))

  -- `create`
  unfoldable pub create_target : Request → S → S × ApplyAnswer
  create_target req s = create_content req s (content_of req req.base)

  abbrev pub write_updated : Request → Json → S → Updated → S × ApplyAnswer
  write_updated req live s broken = (s, failure targets.update_error)
  write_updated req live s (unchanged priors) = (s, answered (report_of req false live priors))
  write_updated req live s (written d priors) =
      answer_write req false priors (targets.update s req.target d)

  abbrev pub apply_fetched : Request → S → Fetched → S × ApplyAnswer
  apply_fetched req s missing = if req.allow_create then create_target req s else (s, absent)
  apply_fetched req s (unreadable message) = (s, failure message)
  apply_fetched req s (there live) = write_updated req live s (
      update encode same_content live (obj req.contribution.object) req.contribution.paths
        req.previous_paths req.prior_values req.prior_values_captured)

  -- `Apply`
  unfoldable pub apply_client : S → Request → S × ApplyAnswer
  unfolding create_target
  apply_client s req = apply_fetched req s (targets.get s req.target)

  abbrev pub is_stored : Stored → Bool
  is_stored (stored d) = true
  is_stored outcome = false

  abbrev pub reverted_by : S × Stored → S × Bool
  reverted_by (s, outcome) = (s, is_stored outcome)

  abbrev pub revert_fetched : RevertRequest → S → Fetched → S × Bool
  revert_fetched req s missing = (s, true)
  revert_fetched req s (unreadable message) = (s, false)
  revert_fetched req s (there live) =
      let desired = revert_paths req.owned_paths req.prior_values live in
      if same_content live desired
      then (s, true)
      else reverted_by (targets.update s req.target desired)

  -- `Revert`
  unfoldable pub revert_client : S → RevertRequest → S × Bool
  revert_client s req = revert_fetched req s (targets.get s req.target)

  -- `ClientSideApplier`
  abbrev pub client_applier : Applier S
  client_applier = record { apply = apply_client; revert = revert_client }
