-- ===== src/Controller/Targets.antt =====
-- internal/controller/contributor_controller.go: the targets that a contributor resolves to, next
-- to the list of all matches.
use patch_operator.Base.{
  ℕ, zero, suc, ℤ, pos, negsuc, ◌+◌, ◌≤◌, ◌<◌, ◌≡◌, ◌≢◌, ◌∙◌, refl, sym, ap, inl, inr, Bool, true,
  false, ◌&&◌, Option, none, some, some-injective, List, [], ◌∷◌, ◌++◌, Text, arith, ltb, is_some,
  length, length-append, append-nil, append_assoc, All, Option-cases, Bool-cases, if◌then◌else◌,
}
use patch_operator.Api.{TargetMode, LabelSelector, TargetRef, Contributor}
use patch_operator.Scope.{TargetKey, target_key_for, resolve_target_namespace}
use patch_operator.Controller.{
  Found, ListObjects, Resolution, resolved, too_many, key_of, cap_of, collect, collect_all,
  selector_namespaces, accepted, resolve_selector, resolve_as, resolve_targets,
}

abbrev keys_of : TargetRef → List Found → List TargetKey
keys_of t [] = []
keys_of t (item ∷ items) = key_of t item ∷ keys_of t items

-- A list of one namespace holds objects of that namespace alone, if the kind is a namespaced one.
abbrev pub Confines : (Text → Text → Bool) → ListObjects → Type 0
Confines has_namespace list_objects =
    (api_version kind : Text) (selector : Option LabelSelector) (ns : Text) (items : List Found)
    → has_namespace api_version kind ≡ true
    → ns ≢ []
    → list_objects api_version kind selector ns ≡ some items
    → All (λ item. item.namespace ≡ ns) items

-- The objects that all namespaces hold, in the order of the lists; none where a list fails.
abbrev pub matches_in : ListObjects → TargetRef → List Text → Option (List TargetKey)
matches_in list_objects t [] = some []
matches_in list_objects t (ns ∷ namespaces) =
    let rest = matches_in list_objects t namespaces in
    elim (list_objects t.api_version t.kind t.selector ns) [
      | none ↦ none
      | some items ↦ elim rest [ none ↦ none | some more ↦ some (keys_of t items ++ more) ]
    ]

keys_of-append :
    (t : TargetRef) (keys : List TargetKey) (item : Found) (items : List Found)
    → (keys ++ key_of t item ∷ []) ++ keys_of t items ≡ keys ++ keys_of t (item ∷ items)
keys_of-append t keys item items = append_assoc keys (key_of t item ∷ []) (keys_of t items)

length-step :
    (t : TargetRef) (keys : List TargetKey) (item : Found)
    → length (keys ++ key_of t item ∷ []) ≡ length keys + 1
length-step t keys item = length-append keys (key_of t item ∷ [])

module _ (t : TargetRef) (most : ℕ) where
  -- Within the limit, the loop adds the keys of the whole list.
  collect-within :
      (keys : List TargetKey) (items : List Found)
      → length (keys ++ keys_of t items) ≤ most
      → collect t most keys items ≡ some (keys ++ keys_of t items)
  unfolding collect
  collect-within keys [] h = ap some (sym (append-nil keys))
  collect-within keys (item ∷ items) h =
      let rest = keys_of-append t keys item items in
      let fits : length (keys ++ key_of t item ∷ []) ≤ most =
        omega (
          arith,
          h,
          ap length rest,
          length-append (keys ++ key_of t item ∷ []) (keys_of t items),
        ) in
      elim (Bool-cases (ltb most (length (keys ++ key_of t item ∷ [])))) [
        | inl over ↦ ground arith
        | inr ok ↦
            rw ok (
              collect-within (keys ++ key_of t item ∷ []) items (rw (sym rest) at h) ∙ ap some rest)
      ]

  collect-beyond :
      (keys : List TargetKey) (items : List Found)
      → length keys ≤ most
      → most < length (keys ++ keys_of t items)
      → collect t most keys items ≡ none
  unfolding collect
  collect-beyond keys [] within h = absurd (omega (arith, within, h, ap length (append-nil keys)))
  collect-beyond keys (item ∷ items) within h =
      let rest = keys_of-append t keys item items in
      elim (Bool-cases (ltb most (length (keys ++ key_of t item ∷ [])))) [
        | inl over ↦ rw over refl
        | inr ok ↦
            let fits : length (keys ++ key_of t item ∷ []) ≤ most = ground arith in
            rw ok (collect-beyond (keys ++ key_of t item ∷ []) items fits (rw (sym rest) at h))
      ]

-- A list of keys put under the limit.
abbrev pub capped : ℕ → List TargetKey → Resolution
capped most keys = if ltb most (length keys) then too_many most else resolved keys

capped-over :
    (most : ℕ) (keys : List TargetKey) → most < length keys → capped most keys ≡ too_many most
capped-over most keys h = ground arith

capped-within :
    (most : ℕ) (keys : List TargetKey) → length keys ≤ most → capped most keys ≡ resolved keys
capped-within most keys h = ground arith

-- The whole loop over the namespaces is the limit put on the list of all matches.
collect_all-matches :
    (list_objects : ListObjects) (t : TargetRef) (most : ℕ) (keys : List TargetKey)
    → (namespaces : List Text) (found : List TargetKey) → length keys ≤ most
    → matches_in list_objects t namespaces ≡ some found
    → collect_all list_objects t most keys namespaces ≡ capped most (keys ++ found)
unfolding collect_all
collect_all-matches list_objects t most keys [] found within e =
    sym (rw (sym (some-injective e), append-nil) (capped-within most keys within))
collect_all-matches list_objects t most keys (ns ∷ namespaces) found within e =
    elim (Option-cases (list_objects t.api_version t.kind t.selector ns)) [
      | inl bad ↦ cc (rw (bad, matches_in) at e)
      | inr (items, at) ↦ elim (Option-cases (matches_in list_objects t namespaces)) [
        | inl bad ↦ cc (rw (at, bad, matches_in) at e)
        | inr (more, rest) ↦
            let split : found ≡ keys_of t items ++ more =
              some-injective (sym (rw (at, rest, matches_in) at e)) in
            let whole = append_assoc keys (keys_of t items) more in
            let total = length-append (keys ++ keys_of t items) more in
            elim (Bool-cases (ltb most (length (keys ++ keys_of t items)))) [
              | inl over ↦
                  let beyond : most < length (keys ++ keys_of t items) = ground arith in
                  rw (at, collect-beyond t most keys items within beyond, split, collect_all)
                    (sym (
                      capped-over most (keys ++ (keys_of t items ++ more))
                        (omega (arith, beyond, total, ap length whole))))
              | inr ok ↦
                  let fits : length (keys ++ keys_of t items) ≤ most = ground arith in
                  rw (at, collect-within t most keys items fits, split, collect_all)
                    (collect_all-matches list_objects t most (keys ++ keys_of t items) namespaces
                        more fits rest
                      ∙ ap (capped most) whole)
            ]
      ]
    ]

resolved_keys : Resolution → List TargetKey
resolved_keys (resolved keys) = keys
resolved_keys _ = []

pub resolved-injective : {a b : List TargetKey} → resolved a ≡ resolved b → a ≡ b
unfolding resolved_keys
resolved-injective e = ap resolved_keys e

cap_of-positive : (n : ℤ) → 1 ≤ cap_of n
cap_of-positive (pos zero) = omega arith
cap_of-positive (pos (suc n)) = omega arith
cap_of-positive (negsuc n) = omega arith

keys_of-namespace :
    (t : TargetRef) (ns : Text) (items : List Found)
    → All (λ item. item.namespace ≡ ns) items
    → All (λ k. k.namespace ≡ ns) (keys_of t items)
keys_of-namespace t ns [] h = tt
keys_of-namespace t ns (item ∷ items) (h, hs) = (h, keys_of-namespace t ns items hs)

collect_one :
    (list_objects : ListObjects) (t : TargetRef) (most : ℕ) (ns : Text) (keys : List TargetKey)
    → collect_all list_objects t most [] (ns ∷ []) ≡ resolved keys
    → (items : List Found) × (list_objects t.api_version t.kind t.selector ns ≡ some items)
      × (keys ≡ keys_of t items)
      × (length keys ≤ most)
unfolding collect_all
collect_one list_objects t most ns keys e =
    elim (Option-cases (list_objects t.api_version t.kind t.selector ns)) [
      | inl bad ↦ cc (rw (bad, collect_all) at e)
      | inr (items, at) ↦ elim (Bool-cases (ltb most (length (keys_of t items)))) [
        | inl over ↦
            let beyond : most < length (keys_of t items) = ground arith in
            cc (rw (at, collect-beyond t most [] items (omega arith) beyond, collect_all) at e)
        | inr ok ↦
            let fits : length (keys_of t items) ≤ most = ground arith in
            let same : keys ≡ keys_of t items =
              resolved-injective
                (sym (rw (at, collect-within t most [] items fits, collect_all) at e)) in
            (items, at, same, rw same fits)
      ]
    ]

target_key_for-namespace :
    (c : Contributor) → c.cluster_scoped ≡ false → (target_key_for c).namespace ≡ c.namespace
unfolding target_key_for resolve_target_namespace
target_key_for-namespace c namespaced = rw namespaced refl

module _ (parse_group : Text → Option Text) (valid_selector : LabelSelector → Bool)
    (list_objects : ListObjects) (list_namespaces : LabelSelector → Option (List Text)) where
  -- Where the apiVersion and the selectors parse and every list succeeds, a Selector-mode
  -- contributor resolves to all the matches of its namespaces, or to an error where they are more
  -- than the cap: the matches are never cut short.
  pub resolve_selector-matches :
      (c : Contributor) (namespaces : List Text) (found : List TargetKey)
      → is_some (parse_group c.spec.target.api_version) ≡ true
      → accepted parse_group valid_selector list_objects list_namespaces c.spec.target.selector
        ≡ true
      → selector_namespaces parse_group valid_selector list_objects list_namespaces c
        ≡ some namespaces
      → matches_in list_objects c.spec.target namespaces ≡ some found
      → resolve_selector parse_group valid_selector list_objects list_namespaces c
        ≡ capped (cap_of c.spec.target.max_targets) found
  unfolding resolve_selector
  resolve_selector-matches c namespaces found parsed valid at all =
      rw (parsed, valid, at)
        (collect_all-matches list_objects c.spec.target (cap_of c.spec.target.max_targets) []
          namespaces found (omega arith) all)

  single-contained :
      (c : Contributor) (keys : List TargetKey)
      → c.cluster_scoped ≡ false
      → resolved (target_key_for c ∷ []) ≡ resolved keys
      → All (λ k. k.namespace ≡ c.namespace) keys × (length keys ≤ cap_of c.spec.target.max_targets)
  single-contained c keys namespaced e =
      let same : keys ≡ target_key_for c ∷ [] = resolved-injective (sym e) in
      rw same
        ((target_key_for-namespace c namespaced, tt), cap_of-positive c.spec.target.max_targets)

  selector-contained :
      (has_namespace : Text → Text → Bool) (c : Contributor) (keys : List TargetKey)
      → c.cluster_scoped ≡ false
      → c.namespace ≢ []
      → Confines has_namespace list_objects
      → has_namespace c.spec.target.api_version c.spec.target.kind ≡ true
      → resolve_selector parse_group valid_selector list_objects list_namespaces c ≡ resolved keys
      → All (λ k. k.namespace ≡ c.namespace) keys × (length keys ≤ cap_of c.spec.target.max_targets)
  unfolding resolve_selector
  selector-contained has_namespace c keys namespaced named confines kinded e =
      elim (Bool-cases (
        is_some (parse_group c.spec.target.api_version)
        && accepted parse_group valid_selector list_objects list_namespaces
            c.spec.target.selector)) [
              | inl good ↦
                  let one =
                    collect_one list_objects c.spec.target (cap_of c.spec.target.max_targets)
                      c.namespace keys (rw (good, namespaced, resolve_selector) at e) in
                  (
                    rw one.2 (
                        keys_of-namespace c.spec.target c.namespace one.0
                          (confines _ _ _ _ one.0 kinded named one.1)),
                    one.3,
                  )
              | inr bad ↦ cc (rw (bad, resolve_selector) at e)
            ]

  as-contained :
      (has_namespace : Text → Text → Bool) (c : Contributor) (keys : List TargetKey)
      (mode : TargetMode)
      → c.cluster_scoped ≡ false
      → c.namespace ≢ []
      → Confines has_namespace list_objects
      → has_namespace c.spec.target.api_version c.spec.target.kind ≡ true
      → resolve_as parse_group valid_selector list_objects list_namespaces c mode ≡ resolved keys
      → All (λ k. k.namespace ≡ c.namespace) keys × (length keys ≤ cap_of c.spec.target.max_targets)
  as-contained has_namespace c keys TargetMode.unset namespaced named confines kinded e =
      single-contained c keys namespaced e
  as-contained has_namespace c keys TargetMode.single namespaced named confines kinded e =
      single-contained c keys namespaced e
  as-contained has_namespace c keys TargetMode.selector namespaced named confines kinded e =
      selector-contained has_namespace c keys namespaced named confines kinded e
  as-contained has_namespace c keys (TargetMode.other m) namespaced named confines kinded e =
      selector-contained has_namespace c keys namespaced named confines kinded e

  -- Where the API server's lists of a namespaced kind in a namespace hold objects of that namespace
  -- alone, whatever a namespaced contributor with a target of a namespaced kind resolves to lies in
  -- its own namespace, which is not empty, in either mode, and is within the cap.
  pub resolve_targets-contained :
      (has_namespace : Text → Text → Bool) (c : Contributor) (keys : List TargetKey)
      → c.cluster_scoped ≡ false
      → c.namespace ≢ []
      → Confines has_namespace list_objects
      → has_namespace c.spec.target.api_version c.spec.target.kind ≡ true
      → resolve_targets parse_group valid_selector list_objects list_namespaces c ≡ resolved keys
      → All (λ k. k.namespace ≡ c.namespace) keys × (length keys ≤ cap_of c.spec.target.max_targets)
  unfolding resolve_targets
  resolve_targets-contained has_namespace c keys namespaced named confines kinded e =
      as-contained has_namespace c keys c.spec.target.mode namespaced named confines kinded e
