-- ===== src/Apply/Client/Laws.antt =====
-- internal/apply/csa.go: what an update leaves on the target, and the values that it records.
use patch_operator.Base.{
  ◌⊎◌, ◌≢◌, false, Bool-cases, eq_iff, ◌==◌, All, subst, sym, ap, inl, inr, ◌≡◌, ◌∙◌, refl, sym, ap,
  inl, inr, Bool, Option, none, some, some-injective, List, [], ◌∷◌, Text, All, Option-cases,
  Bool-cases,
}
use patch_operator.FieldPath.{FieldPath, to_text}
use patch_operator.Json.{Json, null, Fields, obj, lookup, put}
use patch_operator.Json.Laws.{lookup-put_ne, lookup-put_self}
use patch_operator.Access.{SetError, get, set}
use patch_operator.Access.GetSet.{KeepsKeys, get-set}
use patch_operator.Access.Frame.{Apart, set-frame}
use patch_operator.Apply.Client.{
  Updated, written, already_wanted, record_prior, capture, set_object, set_all, concluded, update,
}

-- No two of the paths overlap.
abbrev pub AllApart : List FieldPath → Type 0
AllApart [] = Unit
AllApart (p ∷ paths) = All (λ q. Apart q p) paths × AllApart paths

-- The value that is written leaves the list elements of its path under their keys.
abbrev pub Keyed : Json → FieldPath → Type 0
Keyed contribution p = (v : Json) → get contribution p ≡ some v → KeepsKeys p v

outcome-inv :
    (o : Json × Option SetError) (e : Json)
    → elim o.1 as (λ _. Option Json) [ none ↦ some o.0 | some x ↦ none ] ≡ some e
    → o ≡ (e, none)
outcome-inv (d, none) e h = ap (λ x. (x, none)) (some-injective h)
outcome-inv (d, some x) e h = cc

set_object-inv :
    (d : Json) (p : FieldPath) (v e : Json)
    → set_object d p v ≡ some e
    → (m : Fields) × (d ≡ obj m) × (set m p v ≡ (e, none))
set_object-inv (obj m) p v e h = (m, refl, outcome-inv (set m p v) e h)
set_object-inv d p v e h = cc

-- what one write leaves
set_object-reads :
    (d e v : Json) (p : FieldPath) → set_object d p v ≡ some e → KeepsKeys p v → get e p ≡ some v
set_object-reads d e v p h keeps =
    let (m, same, at) = set_object-inv d p v e h in get-set m p v e at keeps

set_object-frame :
    (d e v u : Json) (p q : FieldPath)
    → set_object d p v ≡ some e
    → KeepsKeys p v
    → Apart p q
    → get d q ≡ some u
    → get e q ≡ some u
set_object-frame d e v u p q h keeps apart there =
    let (m, same, at) = set_object-inv d p v e h in
    set-frame m p q v e u at keeps apart (rw same at there)

module _ (contribution : Json) where
  set_all-step :
      (p : FieldPath) (paths : List FieldPath) (d r : Json)
      → set_all contribution (p ∷ paths) d ≡ some r
      → (v : Json) × (e : Json) × (get contribution p ≡ some v)
        × (set_object d p v ≡ some e)
        × (set_all contribution paths e ≡ some r)
  unfolding set_all
  set_all-step p paths d r h = elim (Option-cases (get contribution p)) [
    | inl missing ↦ cc (rw (missing, set_all) at h)
    | inr (v, found) ↦ elim (Option-cases (set_object d p v)) [
      | inl bad ↦ cc (rw (found, bad, set_all) at h)
      | inr (e, good) ↦ (v, e, found, good, rw (found, good, set_all) at h)
    ]
  ]

  -- a value that no path of the loop overlaps stays
  set_all-frame :
      (paths : List FieldPath) (q : FieldPath) (d r u : Json)
      → set_all contribution paths d ≡ some r
      → All (Keyed contribution) paths
      → All (λ p. Apart p q) paths
      → get d q ≡ some u
      → get r q ≡ some u
  unfolding set_all
  set_all-frame [] q d r u h keyed apart there = rw (some-injective h) at there
  set_all-frame (p ∷ paths) q d r u h (k, keyed) (a, apart) there =
      let (v, e, found, good, rest) = set_all-step p paths d r h in
      set_all-frame paths q e r u rest keyed apart
        (set_object-frame d e v u p q good (k v found) a there)

  set_all-reads :
      (paths : List FieldPath) (d r : Json)
      → set_all contribution paths d ≡ some r
      → All (Keyed contribution) paths
      → AllApart paths
      → All (λ p. get r p ≡ get contribution p) paths
  set_all-reads [] d r h keyed apart = tt
  set_all-reads (p ∷ paths) d r h (k, keyed) (a, apart) =
      let (v, e, found, good, rest) = set_all-step p paths d r h in
      (
        set_all-frame paths p e r v rest keyed a (set_object-reads d e v p good (k v found))
            ∙ sym found,
        set_all-reads paths e r rest keyed apart,
      )

written_object : Updated → Json
written_object (written d priors) = d
written_object u = null

written-injective : {d e : Json} {a b : Fields} → written d a ≡ written e b → d ≡ e
unfolding written_object
written-injective h = ap written_object h

concluded-written :
    (encode : Json → Text) (same_content : Json → Json → Bool) (live : Json) (priors after : Fields)
    → (o : Option Json) (d : Json) → concluded encode same_content live priors o ≡ written d after
    → o ≡ some d
concluded-written encode same_content live priors after none d h = cc
concluded-written encode same_content live priors after (some e) d h =
    elim (Bool-cases (same_content live e)) [
      | inl same ↦ cc (rw same at h)
      | inr other ↦ ap some (written-injective (rw other at h))
    ]

-- What an update writes to the target holds at every claimed path what the contribution holds
-- there, whatever was withdrawn before: where no two claimed paths overlap, and the claimed values
-- leave the list elements of their paths under their keys.
pub update-reads :
    (encode : Json → Text) (same_content : Json → Json → Bool)
    → (live contribution : Json) (paths previous : List FieldPath) (priors after : Fields)
    → (captured : Bool) (d : Json)
    → update encode same_content live contribution paths previous priors captured ≡ written d after
    → All (Keyed contribution) paths
    → AllApart paths
    → All (λ p. get d p ≡ get contribution p) paths
unfolding update
update-reads encode same_content live contribution paths previous priors after captured d h keyed
      apart =
    set_all-reads contribution paths _ d (concluded-written encode same_content live _ after _ d h)
      keyed apart

module _ (encode : Json → Text) (live contribution : Json) where
  record_prior-keeps :
      (key k : Text) (existing want : Option Json) (priors : Fields) (v : Json)
      → lookup key priors ≡ none
      → lookup k priors ≡ some v
      → lookup k (record_prior encode key existing want priors) ≡ some v
  record_prior-keeps key k none want priors v fresh known = known
  record_prior-keeps key k (some existing) want priors v fresh known =
      elim (Bool-cases (already_wanted encode existing want)) [
        | inl same ↦ rw same known
        | inr other ↦
            rw other (lookup-put_ne key k existing priors (λ e. cc (rw e at fresh, known)) ∙ known)
      ]

  -- A prior that is known is never replaced by what the target holds later, however many paths are
  -- captured.
  pub capture-keeps :
      (paths : List FieldPath) (priors : Fields) (k : Text) (v : Json)
      → lookup k priors ≡ some v
      → lookup k (capture encode live contribution paths priors) ≡ some v
  unfolding capture
  capture-keeps [] priors k v known = known
  capture-keeps (p ∷ paths) priors k v known = elim (Option-cases (lookup (to_text p) priors)) [
    | inl fresh ↦ rw fresh (
        capture-keeps paths _ k v
          (record_prior-keeps (to_text p) k (get live p) (get contribution p) priors v fresh known))
    | inr (w, there) ↦ rw there (capture-keeps paths priors k v known)
  ]

  -- A value is the one of the target at one of some paths, under the text of that path.
  abbrev pub FromLive : Text → Json → List FieldPath → Type 0
  FromLive k w [] = ⊥
  FromLive k w (p ∷ paths) = ((to_text p ≡ k) × (get live p ≡ some w)) ⊎ FromLive k w paths

  record_prior-source :
      (p : FieldPath) (k : Text) (w : Json) (existing want : Option Json) (priors : Fields)
      → get live p ≡ existing
      → lookup k (record_prior encode (to_text p) existing want priors) ≡ some w
      → (lookup k priors ≡ some w) ⊎ ((to_text p ≡ k) × (get live p ≡ some w))
  record_prior-source p k w none want priors held e = inl e
  record_prior-source p k w (some existing) want priors held e =
      elim (Bool-cases (already_wanted encode existing want)) [
        | inl same ↦ inl (rw same at e)
        | inr other ↦ elim (Bool-cases (to_text p == k)) [
          | inl here ↦
              let key = (eq_iff (to_text p) k).0 here in
              let put_there : lookup k (put (to_text p) existing priors) ≡ some existing =
                subst (λ x. lookup x (put (to_text p) existing priors) ≡ some existing) key
                  (lookup-put_self (to_text p) existing priors) in
              inr (key, held ∙ sym put_there ∙ (rw other at e))
          | inr away ↦
              let apart : to_text p ≢ k = λ x. cc (away, (eq_iff (to_text p) k).1 x) in
              inl (sym (lookup-put_ne (to_text p) k existing priors apart) ∙ (rw other at e))
        ]
      ]

  -- A prior is known before, or is a value of the target at one of the paths.
  pub capture-source :
      (paths : List FieldPath) (priors : Fields) (k : Text) (w : Json)
      → lookup k (capture encode live contribution paths priors) ≡ some w
      → (lookup k priors ≡ some w) ⊎ FromLive k w paths
  unfolding capture
  capture-source [] priors k w e = inl e
  capture-source (p ∷ paths) priors k w e = elim (Option-cases (lookup (to_text p) priors)) [
    | inr (x, there) ↦ elim (capture-source paths priors k w (rw there at e)) [
      | inl known ↦ inl known
      | inr new ↦ inr (inr new)
    ]
    | inl fresh ↦
        elim (capture-source paths
          (record_prior encode (to_text p) (get live p) (get contribution p) priors) k w
          (rw fresh at e)) [
            | inr new ↦ inr (inr new)
            | inl known ↦
                elim (record_prior-source p k w (get live p) (get contribution p) priors refl
                  known) [ inl before ↦ inl before | inr here ↦ inr (inl here) ]
          ]
  ]

  record_prior-there :
      (key : Text) (v : Json) (want : Option Json) (priors : Fields)
      → already_wanted encode v want ≡ false
      → lookup key (record_prior encode key (some v) want priors) ≡ some v
  record_prior-there key v want priors other = rw other (lookup-put_self key v priors)

  -- A path is one of some paths.
  abbrev pub Among : FieldPath → List FieldPath → Type 0
  Among q [] = ⊥
  Among q (p ∷ paths) = (p ≡ q) ⊎ Among q paths

  capture-head :
      (p : FieldPath) (paths : List FieldPath) (priors : Fields) (v : Json)
      → get live p ≡ some v
      → already_wanted encode v (get contribution p) ≡ false
      → (w : Json) × (lookup (to_text p) (capture encode live contribution (p ∷ paths) priors)
          ≡ some w)
  unfolding capture
  capture-head p paths priors v held other = elim (Option-cases (lookup (to_text p) priors)) [
    | inr (x, there) ↦ rw there (x, capture-keeps paths priors (to_text p) x there)
    | inl fresh ↦ rw fresh (
      v,
      capture-keeps paths (record_prior encode (to_text p) (get live p) (get contribution p) priors)
          (to_text p) v
          (ap
              (λ o.
                lookup (to_text p) (record_prior encode (to_text p) o (get contribution p) priors))
              held
            ∙ record_prior-there (to_text p) v (get contribution p) priors other),
    )
  ]

  -- Each claimed path at which the target holds another value than the contribution wants has a prior.
  pub capture_complete :
      (paths : List FieldPath) (priors : Fields) (q : FieldPath) (v : Json)
      → Among q paths
      → get live q ≡ some v
      → already_wanted encode v (get contribution q) ≡ false
      → (w : Json) × (lookup (to_text q) (capture encode live contribution paths priors) ≡ some w)
  unfolding capture
  capture_complete [] priors q v h held other = absurd h
  capture_complete (p ∷ paths) priors q v (inl e) held other =
      subst
        (λ x.
          get live x ≡ some v
          → already_wanted encode v (get contribution x) ≡ false
          → (w : Json) × (lookup (to_text x) (capture encode live contribution (p ∷ paths) priors)
              ≡ some w))
        e (capture-head p paths priors v) held other
  capture_complete (p ∷ paths) priors q v (inr h) held other =
      capture_complete paths _ q v h held other
