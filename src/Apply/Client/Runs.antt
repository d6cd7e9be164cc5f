-- ===== src/Apply/Client/Runs.antt =====
-- A run of the client-side applier on a cluster that is a map from targets to objects, and the
-- witnesses on it.
use patch_operator.Base.{
  ap, ◌≡◌, ◌≢◌, refl, inl, inr, Bool, true, false, ◌&&◌, Option, none, some, [], ◌∷◌, Text, codes,
  ◌==◌, eq_iff, Bool-cases, if◌then◌else◌,
}
use patch_operator.Api.{ConflictPolicy}
use patch_operator.FieldPath.{field, to_text}
use patch_operator.Json.{Json, obj, str, Fields, end, entry, lookup, put}
use patch_operator.Access.{get, set}
use patch_operator.Render.{Target, Contribution}
use patch_operator.Tracker.Appliers.{Request, RevertRequest, Report}
use patch_operator.Tracker.Samples.{sample_target, sample_fields}
use patch_operator.Apply.Client.Applier.{
  Fetched, there, missing, stored, Targets, LawfulTargets, report_of, apply_client,
}
use patch_operator.Apply.Client.Applier.Captures.{Captures, apply_client-Captures}
use patch_operator.Apply.Client.{capture, withdraw, set_all, update}

abbrev Cluster : Type 0
Cluster = Target → Option Json

abbrev same_target : Target → Target → Bool
same_target a b =
    a.api_version == b.api_version
    && (a.kind == b.kind && (a.name == b.name && a.namespace == b.namespace))

unfoldable put_target : Target → Json → Cluster → Cluster
put_target t d s u = if same_target u t then some d else s u

abbrev fetched : Option Json → Fetched
fetched none = missing
fetched (some d) = there d

abbrev map_targets : Targets Cluster
map_targets = record {
  get = λ s t. fetched (s t);
  create = λ s t d. (put_target t d s, stored d);
  update = λ s t d. (put_target t d s, stored d);
  identified = λ t m. m;
  live_of = λ d. record { resource_version = codes "1"; uid = codes "t1" };
  merge_error = codes "no object";
  update_error = codes "no path";
}

abbrev held_in : Cluster → Target → Option Json
held_in s t = s t

and_true : (a b : Bool) → (a && b) ≡ true → (a ≡ true) × (b ≡ true)
and_true true b h = (refl, h)
and_true false b h = cc h

same_target-eq : (a b : Target) → same_target a b ≡ true → a ≡ b
same_target-eq a b h =
    let (v, h') = and_true (a.api_version == b.api_version) _ h in
    let (k, h'') = and_true (a.kind == b.kind) _ h' in
    let (n, s) = and_true (a.name == b.name) _ h'' in
    cc (
      (eq_iff a.api_version b.api_version).0 v,
      (eq_iff a.kind b.kind).0 k,
      (eq_iff a.name b.name).0 n,
      (eq_iff a.namespace b.namespace).0 s,
    )

put_target-elsewhere :
    (s : Cluster) (t : Target) (d : Json) (u : Target) → u ≢ t → put_target t d s u ≡ s u
unfolding put_target
put_target-elsewhere s t d u other = elim (Bool-cases (same_target u t)) [
  | inl same ↦ absurd (other (same_target-eq u t same))
  | inr apart ↦ rw apart refl
]

fetched-there : (o : Option Json) (d : Json) → fetched o ≡ there d → o ≡ some d
fetched-there none d e = cc e
fetched-there (some c) d e = cc e

fetched-missing : (o : Option Json) → fetched o ≡ missing → o ≡ none
fetched-missing none e = refl
fetched-missing (some c) e = cc e

map_targets-Lawful : LawfulTargets map_targets held_in
map_targets-Lawful = record {
  get-there = λ {s} {t} {d} e. fetched-there (s t) d e;
  get-missing = λ {s} {t} e. fetched-missing (s t) e;
  create-elsewhere = put_target-elsewhere;
  update-elsewhere = put_target-elsewhere;
}

abbrev sample_contribution : Contribution
sample_contribution = record {
  object = sample_fields;
  paths = (field (codes "a") ∷ []) ∷ [];
  hash = codes "sha256:2";
}

abbrev create_app : Request
create_app = record {
  target = sample_target;
  contribution = sample_contribution;
  field_manager = codes "patch-operator/default/p";
  conflict_policy = ConflictPolicy.fail;
  merge_keys = [];
  previous_paths = [];
  prior_values = end;
  prior_values_captured = false;
  base = none;
  allow_create = true;
}

abbrev revert_app : RevertRequest
revert_app = record {
  target = sample_target;
  field_manager = codes "patch-operator/default/p";
  owned_paths = (field (codes "a") ∷ []) ∷ [];
  prior_values = end;
}

abbrev other_target : Target
other_target = record sample_target { name = codes "other" }

abbrev never_equal : Json → Json → Bool
never_equal a b = false

-- a cluster in which every target holds another value than the contribution wants
abbrev held_fields : Fields
held_fields = entry (codes "a") (str (codes "y")) end

abbrev full_cluster : Cluster
full_cluster t = some (obj held_fields)

-- the text of a value stands for its encoding
abbrev text_encoding : Json → Text
text_encoding (str s) = s
text_encoding v = []

abbrev updated_report : Report
updated_report =
    report_of map_targets text_encoding never_equal create_app false (obj sample_fields) held_fields

apply_client-Captures_example :
    Captures text_encoding never_equal create_app (obj held_fields) updated_report
unfolding apply_client update capture set_all withdraw get set lookup put to_text ◌==◌
apply_client-Captures_example =
    apply_client-Captures text_encoding never_equal map_targets full_cluster create_app
      (obj held_fields) updated_report refl refl refl refl

others : other_target ≢ sample_target
unfolding ◌==◌
others e = cc (ap (λ t. t.name == codes "app") e)
