-- ===== src/Tracker/Conflicts.antt =====
-- internal/controller/tracker_controller.go: `detectPathConflicts`, `isSupersededOn` and
-- `appendConflict`. A map is the list of its entries, in the order of their first writing; the
-- loops over it take the entries in the order in which they are visited, which Go leaves open.
-- `hash_value` is `HashObject` of a value, null for a path that is not there.
pub mod Contested
pub mod Detect
pub mod Superseded
use patch_operator.Base.{
  ℕ, zero, suc, Bool, true, false, ◌&&◌, ◌||◌, not, Option, none, some, is_some, List, [], ◌∷◌,
  ◌++◌, Text, ◌==◌, eqb, leb, ℤ, length, any, if◌then◌else◌, ltb_ℤ,
}
use patch_operator.Api.{ConflictPolicy, ContributorRef}
use patch_operator.Api.Refs.{same_contributor, ref_text}
use patch_operator.Api.Status.{ConflictStatus}
use patch_operator.FieldPath.{FieldPath, to_text}
use patch_operator.Json.{Json, obj, or_null}
use patch_operator.Access.{get}
use patch_operator.Apply.{is_priority}
use patch_operator.Render.{Contribution}
use patch_operator.Tracker.Records.{ContributorRecord}

-- `claim`
pub record Claim : Type 0 where
  pub idx : ℕ
  pub hash : Text

abbrev pub Claims : Type 0
Claims = List (Text × List Claim)

-- `claims[key] = append(claims[key], c)`
unfoldable pub add_claim : Text → Claim → Claims → Claims
add_claim key c [] = (key, c ∷ []) ∷ []
add_claim key c ((path, cs) ∷ claims) =
    let rest = add_claim key c claims in
    if path == key then (path, cs ++ c ∷ []) ∷ claims else (path, cs) ∷ rest

-- the hashes that differ
abbrev pub distinct : List Claim → List Text
distinct [] = []
distinct (c ∷ cs) =
    let rest = distinct cs in if any (λ h. h == c.hash) rest then rest else c.hash ∷ rest

abbrev pub is_contested : List Claim → Bool
is_contested cs = leb 2 (length cs) && leb 2 (length (distinct cs))

abbrev pub claimant_indices : List Claim → List ℕ
claimant_indices [] = []
claimant_indices (c ∷ cs) = c.idx ∷ claimant_indices cs

-- the entries that are neither claimed once nor redundant
unfoldable pub contested : Claims → List (Text × List ℕ)
contested [] = []
contested ((path, cs) ∷ claims) =
    let rest = contested claims in
    if is_contested cs then (path, claimant_indices cs) ∷ rest else rest

module _ (hash_value : Json → Text) where
  abbrev pub claim_of : ℕ → Contribution → FieldPath → Claim
  claim_of i contribution p = record {
    idx = i;
    hash = hash_value (or_null (get (obj contribution.object) p));
  }

  -- the claims of one contribution
  unfoldable pub claim_paths : ℕ → Contribution → List FieldPath → Claims → Claims
  unfolding add_claim
  claim_paths i contribution [] claims = claims
  claim_paths i contribution (p ∷ paths) claims =
      claim_paths i contribution paths (add_claim (to_text p) (claim_of i contribution p) claims)

  unfoldable pub claim_all : ℕ → List Contribution → Claims → Claims
  unfolding claim_paths
  claim_all i [] claims = claims
  claim_all i (contribution ∷ rendered) claims =
      claim_all (suc i) rendered (claim_paths i contribution contribution.paths claims)

  -- `detectPathConflicts`
  unfoldable pub detect_path_conflicts : List Contribution → List (Text × List ℕ)
  unfolding claim_all contested
  detect_path_conflicts rendered = contested (claim_all zero rendered [])

-- the first record of the same contributor
abbrev pub record_index : ContributorRef → List ContributorRecord → Option ℕ
record_index ref [] = none
record_index ref (r ∷ active) =
    let rest = record_index ref active in
    if same_contributor r.status.patch_ref ref
    then some zero
    else elim rest [ none ↦ none | some i ↦ some (suc i) ]

abbrev pub nth : ℕ → List ContributorRecord → Option ContributorRecord
nth i [] = none
nth zero (r ∷ active) = some r
nth (suc i) (r ∷ active) = nth i active

-- `active[idx]`, if its priority is the higher one
abbrev pub outranking : ℤ → Option ContributorRecord → Option Text
outranking priority none = none
outranking priority (some other) =
    if ltb_ℤ priority other.status.priority then some (ref_text other.status.patch_ref) else none

module _ (active : List ContributorRecord) (mine : ℕ) (priority : ℤ) where
  -- the first other claimant of a higher priority
  unfoldable pub holder_among : List ℕ → Option Text
  holder_among [] = none
  holder_among (idx ∷ claimants) =
      let rest = holder_among claimants in
      if eqb idx mine
      then rest
      else elim (outranking priority (nth idx active)) [ some holder ↦ some holder | none ↦ rest ]

  -- over the paths that are claimed
  unfoldable pub holder_on : List (Text × List ℕ) → Option Text
  unfolding holder_among
  holder_on [] = none
  holder_on ((path, claimants) ∷ claims) =
      let rest = holder_on claims in
      if any (λ idx. eqb idx mine) claimants
      then elim (holder_among claimants) [ some holder ↦ some holder | none ↦ rest ]
      else rest

abbrev pub superseded_at :
    Option ℕ → ContributorRecord → List ContributorRecord → List (Text × List ℕ) → Option Text
superseded_at none c active path_claims = none
superseded_at (some mine) c active path_claims = holder_on active mine c.status.priority path_claims

-- `isSupersededOn`: who holds a path that the contributor loses
unfoldable pub is_superseded_on :
    ContributorRecord → List ContributorRecord → List (Text × List ℕ) → Option Text
unfolding holder_on
is_superseded_on c active path_claims =
    if is_priority c.contributor.spec.apply.conflict_policy
    then superseded_at (record_index c.status.patch_ref active) c active path_claims
    else none

-- `appendConflict`
unfoldable pub append_conflict :
    List ConflictStatus → List (Text × List ℕ) → ContributorRecord → Text → List ConflictStatus
append_conflict conflicts [] c holder = conflicts
append_conflict conflicts ((path, claimants) ∷ path_claims) c holder =
    conflicts
    ++ record {
      field_path = path;
      claimants = ref_text c.status.patch_ref ∷ holder ∷ [];
      holder = holder;
    }
      ∷ []
