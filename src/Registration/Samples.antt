-- ===== src/Registration/Samples.antt =====
-- An API server that is a map from keys to trackers, for the tests of the registration.
use patch_operator.Base.{
  ◌≡◌, ◌≢◌, ◌∙◌, refl, ap, inl, inr, Bool, true, false, ◌&&◌, Option, none, some, Text, codes, ◌==◌,
  eq_iff, eq_refl, Bool-cases, Option-cases, if◌then◌else◌,
}
use patch_operator.Scope.{TargetKey, is_cluster_scoped_target}
use patch_operator.Tracker.Samples.{sample_status}
use patch_operator.Registration.Calls.{
  Tracked, ObjectKey, shared_resource, cluster_shared_resource, found, nothing, WriteReply,
  accepted, existing, vanished, ApiServer, Lawful,
}
use patch_operator.Registration.Completes.{Answers, answer_of}

abbrev pub Store : Type 0
Store = ObjectKey → Option Tracked

abbrev pub same_key : ObjectKey → ObjectKey → Bool
same_key (shared_resource ns name) (shared_resource ns' name') = ns == ns' && name == name'
same_key (cluster_shared_resource name) (cluster_shared_resource name') = name == name'
same_key _ _ = false

unfoldable pub store_put : ObjectKey → Tracked → Store → Store
store_put k t s j = if same_key j k then some t else s j

abbrev create_in : Store → ObjectKey → Tracked → Option Tracked → Store × WriteReply
create_in s k t none = (store_put k t s, accepted)
create_in s k t (some u) = (s, existing)

-- the status of an object that is not there cannot be written
abbrev write_in : Store → ObjectKey → Tracked → Option Tracked → Store × WriteReply
write_in s k t none = (s, vanished)
write_in s k t (some u) = (store_put k t s, accepted)

-- It answers every call, and its cache is never stale.
abbrev pub store_server : ApiServer Store
store_server = record {
  read = λ s k. answer_of (s k);
  cached = λ s k. answer_of (s k);
  create = λ s k t. create_in s k t (s k);
  write_status = λ s k t. write_in s k t (s k);
}

abbrev pub stored : Store → ObjectKey → Option Tracked
stored s k = s k

same_key_refl : (k : ObjectKey) → same_key k k ≡ true
same_key_refl (shared_resource ns name) = rw (eq_refl ns, eq_refl name) refl
same_key_refl (cluster_shared_resource name) = eq_refl name

and_both : (a b : Bool) → (a && b) ≡ true → (a ≡ true) × (b ≡ true)
and_both true b h = (refl, h)
and_both false b h = cc h

pub same_key-eq : (j k : ObjectKey) → same_key j k ≡ true → j ≡ k
same_key-eq (shared_resource ns name) (shared_resource ns' name') h =
    let (a, b) = and_both (ns == ns') (name == name') h in
    cc ((eq_iff ns ns').0 a, (eq_iff name name').0 b)
same_key-eq (cluster_shared_resource name) (cluster_shared_resource name') h =
    ap cluster_shared_resource ((eq_iff name name').0 h)
same_key-eq (shared_resource ns name) (cluster_shared_resource name') h = cc h
same_key-eq (cluster_shared_resource name) (shared_resource ns' name') h = cc h

store_put-there : (s : Store) (k : ObjectKey) (t : Tracked) → store_put k t s k ≡ some t
unfolding store_put
store_put-there s k t = rw (same_key_refl k) refl

store_put-elsewhere :
    (s : Store) (k : ObjectKey) (t : Tracked) (j : ObjectKey) → j ≢ k → store_put k t s j ≡ s j
unfolding store_put
store_put-elsewhere s k t j other = elim (Bool-cases (same_key j k)) [
  | inl same ↦ absurd (other (same_key-eq j k same))
  | inr apart ↦ rw apart refl
]

answered-found : (o : Option Tracked) (t : Tracked) → answer_of o ≡ found t → o ≡ some t
answered-found none t e = cc e
answered-found (some u) t e = cc e

answered-nothing : (o : Option Tracked) → answer_of o ≡ nothing → o ≡ none
answered-nothing none e = refl
answered-nothing (some u) e = cc e

pub store_server-Lawful : Lawful store_server stored
store_server-Lawful = record {
  read-found = λ {s} {k} {t} e. answered-found (s k) t e;
  read-nothing = λ {s} {k} e. answered-nothing (s k) e;
  create-elsewhere = λ s k t j other. elim (Option-cases (s k)) [
    | inl blank ↦ rw blank (store_put-elsewhere s k t j other)
    | inr (u, there) ↦ rw there refl
  ];
  create-there = λ s k t. elim (Option-cases (s k)) [
    | inl blank ↦ rw blank (inr (refl, store_put-there s k t))
    | inr (u, there) ↦ inl (ap (λ o. (create_in s k t o).0 k) there)
  ];
  write-elsewhere = λ s k t j other. elim (Option-cases (s k)) [
    | inl blank ↦ rw blank refl
    | inr (u, there) ↦ rw there (store_put-elsewhere s k t j other)
  ];
  write-there = λ s k t. elim (Option-cases (s k)) [
    | inl blank ↦ inl (ap (λ o. (write_in s k t o).0 k) blank)
    | inr (u, there) ↦ rw there (inr (store_put-there s k t))
  ];
  write-accepted = λ s k t. elim (Option-cases (s k)) [
    | inl blank ↦ rw blank (λ e. cc e)
    | inr (u, there) ↦ rw there (λ e. store_put-there s k t)
  ];
  write-vanished = λ s k t. elim (Option-cases (s k)) [
    | inl blank ↦ λ e. ap (λ o. (write_in s k t o).0 k) blank ∙ blank
    | inr (u, there) ↦ rw there (λ e. cc e)
  ];
}

pub store_server-Answers : Answers store_server stored
store_server-Answers = record {
  reads = λ s k. refl;
  writes = λ s k t u there. ap (λ o. (write_in s k t o).1) there;
  creates = λ s k t. elim (Option-cases (s k)) [
    | inl blank ↦ rw blank (inl refl)
    | inr (u, there) ↦ rw there (inr refl)
  ];
  stands_there = λ s k t. elim (Option-cases (s k)) [
    | inl blank ↦ rw blank (t, store_put-there s k t)
    | inr (u, there) ↦ (u, ap (λ o. (create_in s k t o).0 k) there ∙ there)
  ];
  caches = λ s k. elim (Option-cases (s k)) [
    | inl blank ↦ rw blank (inl refl)
    | inr (u, there) ↦ inr (u, (ap answer_of there, (u, there)))
  ];
}

abbrev pub sample_key : TargetKey
sample_key = record {
  api_version = codes "v1";
  kind = codes "ConfigMap";
  namespace = codes "default";
  name = codes "app";
}

pub sample_key-namespaced : is_cluster_scoped_target sample_key ≡ false
unfolding is_cluster_scoped_target ◌==◌
sample_key-namespaced = refl

-- a namespaced tracker with one contributor
abbrev pub sample_tracked : Tracked
sample_tracked = record {
  target = sample_key;
  has_finalizer = true;
  deleting = false;
  status = sample_status;
}

abbrev pub no_trackers : Store
no_trackers k = none

abbrev pub one_tracker : Text → Store
one_tracker name = store_put (shared_resource (codes "default") name) sample_tracked no_trackers

pub one_tracker-there :
    (name : Text) → one_tracker name (shared_resource (codes "default") name) ≡ some sample_tracked
one_tracker-there name =
    store_put-there no_trackers (shared_resource (codes "default") name) sample_tracked

pub one_tracker-alone : (name : Text) → one_tracker name (cluster_shared_resource name) ≡ none
one_tracker-alone name =
    store_put-elsewhere no_trackers (shared_resource (codes "default") name) sample_tracked
      (cluster_shared_resource name) (λ e. cc e)
