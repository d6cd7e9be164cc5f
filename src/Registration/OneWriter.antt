-- ===== src/Registration/OneWriter.antt =====
-- internal/controller/contributor_controller.go: `ensureTracker` and the two trackers of a target.
use patch_operator.Base.{
  ℕ, ◌≡◌, ◌≢◌, ◌∙◌, refl, sym, ap, subst, inl, inr, Bool, true, false, Option, some, some-injective,
  Text, ◌==◌, Bool-cases,
}
use patch_operator.Api.{TrackerRef, Contributor}
use patch_operator.Scope.{TargetKey, is_cluster_scoped_target, tracker_kind_for, tracker_namespace}
use patch_operator.Scope.Names.{tracker_name}
use patch_operator.Registration.Calls.{
  Tracked, ObjectKey, shared_resource, cluster_shared_resource, Read-cases, ApiServer, Lawful,
}
use patch_operator.Registration.Promote.{new_tracker, promote_if_needed}
use patch_operator.Registration.Writes.{WriteReply-cases, create-keeps}
use patch_operator.Registration.Fence.{IsRetired, IsNamed, OneWriter, apart}
use patch_operator.Registration.Promoted.{promote_if_needed-OneWriter, promote_if_needed-elsewhere}
use patch_operator.Registration.{
  object_of, own_tracker, created, register, join_read, after_promotion, ensure_named,
  ensure_tracker,
}

pub object_of-cluster :
    (name : Text) (key : TargetKey)
    → object_of (own_tracker name true key) ≡ some (cluster_shared_resource name)
unfolding object_of own_tracker tracker_kind_for ◌==◌
object_of-cluster name key = elim (Bool-cases (is_cluster_scoped_target key)) [
  | inl e ↦ rw e refl
  | inr e ↦ rw e refl
]

pub object_of-wide :
    (name : Text) (cluster_scoped : Bool) (key : TargetKey)
    → is_cluster_scoped_target key ≡ true
    → object_of (own_tracker name cluster_scoped key) ≡ some (cluster_shared_resource name)
unfolding object_of own_tracker tracker_kind_for ◌==◌
object_of-wide name cluster_scoped key wide = rw wide refl

pub object_of-namespaced :
    (name : Text) (key : TargetKey)
    → is_cluster_scoped_target key ≡ false
    → object_of (own_tracker name false key) ≡ some (shared_resource key.namespace name)
unfolding object_of own_tracker tracker_kind_for tracker_namespace ◌==◌
object_of-namespaced name key within = rw within refl

new_tracker-IsNamed : (name : Text) (key : TargetKey) → IsNamed name (some (new_tracker key))
new_tracker-IsNamed name key t ref e fenced =
    cc (ap (λ x. x.status.promoted_to) (some-injective e), fenced)

module _ {S : Type 0} {api : ApiServer S} {live : S → ObjectKey → Option Tracked}
    (law : Lawful api live) (now : ℕ) (message : ℕ → Text) where
  created-state :
      (ref : TrackerRef) (s : S) (k : ObjectKey) (t : Tracked)
      → (created api now message ref (api.create s k t)).0 ≡ (api.create s k t).0
  created-state ref s k t = elim (WriteReply-cases (api.create s k t).1) [
    | inl (inl e) ↦ rw e refl
    | inl (inr e) ↦ rw e refl
    | inr (inl e) ↦ rw e refl
    | inr (inr e) ↦ rw e refl
  ]

  register-elsewhere :
      (ref : TrackerRef) (key : TargetKey) (s : S) (k j : ObjectKey)
      → object_of ref ≡ some k
      → j ≢ k
      → live (register api now message ref key s).0 j ≡ live s j
  unfolding register
  register-elsewhere ref key s k j known other = elim (Read-cases (api.cached s k)) [
    | inl (t, there) ↦ rw (known, there) refl
    | inr (inl e) ↦
        let made : live (created api now message ref (api.create s k (new_tracker key))).0 j
            ≡ live s j =
          ap (λ x. live x j) (created-state ref s k (new_tracker key))
          ∙ law.create-elsewhere s k (new_tracker key) j other in
        rw (known, e) made
    | inr (inr e) ↦ rw (known, e) refl
  ]

  register-keeps :
      (P : Option Tracked → Type 0) (ref : TrackerRef) (key : TargetKey) (s : S) (k : ObjectKey)
      → object_of ref ≡ some k
      → P (some (new_tracker key))
      → P (live s k)
      → P (live (register api now message ref key s).0 k)
  unfolding register
  register-keeps P ref key s k known new before = elim (Read-cases (api.cached s k)) [
    | inl (t, there) ↦ rw (known, there) before
    | inr (inl e) ↦
        let made : P (live (created api now message ref (api.create s k (new_tracker key))).0 k) =
          subst (λ x. P (live x k)) (sym (created-state ref s k (new_tracker key)))
            (create-keeps law P s k (new_tracker key) before (λ blank. new)) in
        rw (known, e) made
    | inr (inr e) ↦ rw (known, e) before
  ]

  module _ (name : Text) (key : TargetKey) where
    abbrev n : ObjectKey
    n = shared_resource key.namespace name

    abbrev c : ObjectKey
    c = cluster_shared_resource name

    back : n ≢ c
    back e = apart key.namespace name name (sym e)

    after_promotion-OneWriter :
        (x : S × Bool)
        → OneWriter name (live x.0 n) (live x.0 c)
        → (x.1 ≡ true → IsRetired (live x.0 n))
        → OneWriter name
            (live (after_promotion api now message name key x).0 n)
            (live (after_promotion api now message name key x).0 c)
    after_promotion-OneWriter (s, false) one retired = one
    after_promotion-OneWriter (s, true) (named, one) retired =
        let same =
          register-elsewhere (own_tracker name true key) key s c n (object_of-cluster name key)
            back in
        (subst (IsNamed name) (sym same) named, inr (subst IsRetired (sym same) (retired refl)))

    join_read-OneWriter :
        (s : S)
        → is_cluster_scoped_target key ≡ false
        → OneWriter name (live s n) (live s c)
        → OneWriter name
            (live (join_read api now message name key s (api.read s c)).0 n)
            (live (join_read api now message name key s (api.read s c)).0 c)
    join_read-OneWriter s within (named, one) = elim (Read-cases (api.read s c)) [
      | inl (t, there) ↦ rw there (named, one)
      | inr (inr e) ↦ rw e (named, one)
      | inr (inl e) ↦
          let ref = own_tracker name false key in
          let at = object_of-namespaced name key within in
          let whole : OneWriter name (live (register api now message ref key s).0 n)
              (live (register api now message ref key s).0 c) =
            (
              register-keeps (IsNamed name) ref key s n at (new_tracker-IsNamed name key) named,
              inl (
                  register-elsewhere ref key s n c at (apart key.namespace name name)
                  ∙ law.read-nothing e),
            ) in
          rw e whole
    ]

    pub ensure_named-OneWriter :
        (cluster_scoped : Bool) (s : S)
        → is_cluster_scoped_target key ≡ false
        → OneWriter name (live s n) (live s c)
        → OneWriter name
            (live (ensure_named api now message name cluster_scoped key s).0 n)
            (live (ensure_named api now message name cluster_scoped key s).0 c)
    unfolding ensure_named
    ensure_named-OneWriter true s within one =
        let promoted = promote_if_needed-OneWriter law now message name key s one in
        rw within (
          after_promotion-OneWriter (promote_if_needed api now message name key s) promoted.0
            promoted.1)
    ensure_named-OneWriter false s within one = rw within (join_read-OneWriter s within one)

    after_promotion-elsewhere :
        (x : S × Bool) (j : ObjectKey)
        → j ≢ c
        → live (after_promotion api now message name key x).0 j ≡ live x.0 j
    after_promotion-elsewhere (s, false) j away = refl
    after_promotion-elsewhere (s, true) j away =
        register-elsewhere (own_tracker name true key) key s c j (object_of-cluster name key) away

    -- A registration leaves every object but the two trackers of the target as it is.
    pub ensure_named-elsewhere :
        (cluster_scoped : Bool) (s : S) (j : ObjectKey)
        → j ≢ n
        → j ≢ c
        → live (ensure_named api now message name cluster_scoped key s).0 j ≡ live s j
    unfolding ensure_named
    ensure_named-elsewhere cluster_scoped s j other away =
        elim (Bool-cases (is_cluster_scoped_target key)) [
          | inl wide ↦ rw wide (
              register-elsewhere (own_tracker name cluster_scoped key) key s c j
                (object_of-wide name cluster_scoped key wide) away)
          | inr within ↦ elim (Bool-cases cluster_scoped) [
            | inl cluster ↦
                rw (within, cluster)
                  (after_promotion-elsewhere (promote_if_needed api now message name key s) j away
                    ∙ promote_if_needed-elsewhere law now message name key s j other away)
            | inr namespaced ↦ elim (Read-cases (api.read s c)) [
              | inl (t, there) ↦ rw (within, namespaced, there) refl
              | inr (inr e) ↦ rw (within, namespaced, e) refl
              | inr (inl e) ↦
                  rw (within, namespaced, e)
                    (register-elsewhere (own_tracker name false key) key s n j
                      (object_of-namespaced name key within) other)
            ]
          ]
        ]

  -- Of a namespaced target, the registration of a contributor leaves one tracker at most that
  -- writes, whatever the API server replies and whatever its cache holds.
  pub ensure_tracker-OneWriter :
      (digest : Text → Text) (c : Contributor) (key : TargetKey) (s : S)
      → is_cluster_scoped_target key ≡ false
      → OneWriter
          (tracker_name digest key)
          (live s (shared_resource key.namespace (tracker_name digest key)))
          (live s (cluster_shared_resource (tracker_name digest key)))
      → OneWriter
          (tracker_name digest key)
          (live
            (ensure_tracker api now message digest c key s).0
            (shared_resource key.namespace (tracker_name digest key)))
          (live
            (ensure_tracker api now message digest c key s).0
            (cluster_shared_resource (tracker_name digest key)))
  unfolding ensure_tracker
  ensure_tracker-OneWriter digest c key s =
      ensure_named-OneWriter (tracker_name digest key) key c.cluster_scoped s
