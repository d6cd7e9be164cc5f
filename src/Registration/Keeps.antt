-- ===== src/Registration/Keeps.antt =====
-- internal/controller: a contributor that registers, and the one writer of a target.
use patch_operator.Base.{
  ℕ, ◌≡◌, ◌≢◌, ◌∙◌, sym, ap, subst, inl, inr, Bool, false, Option, [], Text, ◌==◌, eq_iff,
  Bool-cases,
}
use patch_operator.Api.{Contributor}
use patch_operator.Scope.{TargetKey, is_cluster_scoped_target}
use patch_operator.Scope.Names.{tracker_name}
use patch_operator.Registration.Calls.{
  Tracked, ObjectKey, shared_resource, cluster_shared_resource, ApiServer, Lawful,
}
use patch_operator.Registration.Fence.{OneWriter}
use patch_operator.Registration.OneWriter.{ensure_named-OneWriter, ensure_named-elsewhere}
use patch_operator.Registration.{ensure_named, ensure_tracker}

-- At most one of the trackers of a target writes.
abbrev pub OneWriterOf :
    {S : Type 0} → (S → ObjectKey → Option Tracked) → (Text → Text) → TargetKey → S → Type 0
OneWriterOf live digest key s =
    OneWriter (tracker_name digest key)
      (live s (shared_resource key.namespace (tracker_name digest key)))
      (live s (cluster_shared_resource (tracker_name digest key)))

within_as :
    (at key : TargetKey)
    → at.namespace ≡ key.namespace
    → is_cluster_scoped_target key ≡ false
    → is_cluster_scoped_target at ≡ false
unfolding is_cluster_scoped_target
within_as at key same within = ap (λ x. x == []) same ∙ within

module _ {S : Type 0} {api : ApiServer S} {live : S → ObjectKey → Option Tracked}
    (law : Lawful api live) (message : ℕ → Text) (digest : Text → Text) (key : TargetKey) where
  abbrev name : Text
  name = tracker_name digest key

  abbrev n : ObjectKey
  n = shared_resource key.namespace (tracker_name digest key)

  abbrev c : ObjectKey
  c = cluster_shared_resource (tracker_name digest key)

  abbrev One : S → Type 0
  One s = OneWriter (tracker_name digest key) (live s n) (live s c)

  One-same : (s s' : S) → live s' n ≡ live s n → live s' c ≡ live s c → One s → One s'
  One-same s s' e f one = rw (e, f) one

  registers-One :
      (now : ℕ) (s : S) (other : Text) (cluster_scoped : Bool) (at : TargetKey)
      → is_cluster_scoped_target key ≡ false
      → (other ≡ name → at.namespace ≡ key.namespace)
      → One s
      → One (ensure_named api now message other cluster_scoped at s).0
  registers-One now s other cluster_scoped at within separate one =
      elim (Bool-cases (other == name)) [
        | inl same ↦
            let e = (eq_iff other name).0 same in
            let ns = separate e in
            let s' = (ensure_named api now message other cluster_scoped at s).0 in
            let before : OneWriter other (live s (shared_resource at.namespace other))
                (live s (cluster_shared_resource other)) =
              subst
                (λ m.
                  OneWriter other (live s (shared_resource m other))
                    (live s (cluster_shared_resource other)))
                (sym ns)
                (subst
                  (λ x.
                    OneWriter x (live s (shared_resource key.namespace x))
                      (live s (cluster_shared_resource x)))
                  (sym e) one) in
            let after : OneWriter other (live s' (shared_resource at.namespace other))
                (live s' (cluster_shared_resource other)) =
              ensure_named-OneWriter law now message other at cluster_scoped s
                (within_as at key ns within) before in
            subst
              (λ x.
                OneWriter x (live s' (shared_resource key.namespace x))
                  (live s' (cluster_shared_resource x)))
              e
              (subst
                (λ m.
                  OneWriter other (live s' (shared_resource m other))
                    (live s' (cluster_shared_resource other)))
                ns after)
        | inr differs ↦
            let keep = ensure_named-elsewhere law now message other at cluster_scoped s in
            let apart_names : other ≢ name = λ e. cc ((eq_iff other name).1 e, differs) in
            One-same s _ (keep n (λ e. apart_names (cc e)) (λ e. cc e))
              (keep c (λ e. cc e) (λ e. apart_names (cc e))) one
      ]

  -- The registration of a contributor with any target keeps the one writer of this target, if the
  -- trackers of that target are named differently or its namespace is the same.
  pub ensure_tracker-keeps :
      (now : ℕ) (contributor : Contributor) (at : TargetKey) (s : S)
      → is_cluster_scoped_target key ≡ false
      → (tracker_name digest at ≡ tracker_name digest key → at.namespace ≡ key.namespace)
      → OneWriterOf live digest key s
      → OneWriterOf live digest key (ensure_tracker api now message digest contributor at s).0
  unfolding ensure_tracker
  ensure_tracker-keeps now contributor at s within separate one =
      registers-One now s (tracker_name digest at) contributor.cluster_scoped at within separate one
