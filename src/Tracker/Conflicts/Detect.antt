-- ===== src/Tracker/Conflicts/Detect.antt =====
-- internal/controller/tracker_controller.go: `detectPathConflicts`, path by path.
use patch_operator.Base.{
  ℕ, zero, suc, ◌≡◌, ◌∙◌, refl, sym, ap, inl, inr, ◌⊎◌, Bool, true, false, Option, none, some, List,
  [], ◌∷◌, ◌++◌, append-nil, append_assoc, Text, ◌==◌, eq_iff, eq_sym, Bool-cases, if◌then◌else◌,
}
use patch_operator.Json.{Json}
use patch_operator.FieldPath.{FieldPath, to_text}
use patch_operator.Render.{Contribution}
use patch_operator.Tracker.Conflicts.Contested.{Agreed, Disputed, is_contested-cases}
use patch_operator.Tracker.Conflicts.{
  Claim, Claims, add_claim, is_contested, claimant_indices, contested, claim_of, claim_paths,
  claim_all, detect_path_conflicts,
}

-- the claims on a path that a map holds
abbrev found : Text → Claims → List Claim
found path [] = []
found path ((key, cs) ∷ claims) = if key == path then cs else found path claims

abbrev only : Bool → Claim → List Claim
only true c = c ∷ []
only false c = []

abbrev Unrepeated : Claims → Type 0
Unrepeated [] = Unit {0}
Unrepeated ((key, cs) ∷ claims) = (found key claims ≡ []) × Unrepeated claims

found-add_claim :
    (path key : Text) (c : Claim) (claims : Claims)
    → found path (add_claim key c claims) ≡ found path claims ++ only (key == path) c
unfolding add_claim
found-add_claim path key c [] = elim (Bool-cases (key == path)) [
  | inl same ↦ rw same refl
  | inr other ↦ rw other refl
]
found-add_claim path key c ((k, cs) ∷ claims) = elim (Bool-cases (k == key)) [
  | inl same ↦ elim (Bool-cases (k == path)) [
    | inl here ↦
        let there : (key == path) ≡ true =
          ap (λ x. x == path) (sym ((eq_iff k key).0 same)) ∙ here in
        rw (same, here, there) refl
    | inr other ↦
        let there : (key == path) ≡ false =
          ap (λ x. x == path) (sym ((eq_iff k key).0 same)) ∙ other in
        rw (same, other, there) (sym (append-nil (found path claims)))
  ]
  | inr differs ↦ elim (Bool-cases (k == path)) [
    | inl here ↦
        let there : (key == path) ≡ false =
          ap (λ x. key == x) (sym ((eq_iff k path).0 here)) ∙ eq_sym key k ∙ differs in
        rw (differs, here, there) (sym (append-nil cs))
    | inr other ↦ rw (differs, other) (found-add_claim path key c claims)
  ]
]

add_claim-Unrepeated :
    (key : Text) (c : Claim) (claims : Claims)
    → Unrepeated claims
    → Unrepeated (add_claim key c claims)
unfolding add_claim
add_claim-Unrepeated key c [] h = (refl, tt)
add_claim-Unrepeated key c ((k, cs) ∷ claims) (new, h) = elim (Bool-cases (k == key)) [
  | inl same ↦ rw same (new, h)
  | inr differs ↦ rw differs (
    found-add_claim k key c claims ∙ rw (new, eq_sym key k, differs) refl,
    add_claim-Unrepeated key c claims h,
  )
]

module _ (hash_value : Json → Text) where
  -- the claims of one contribution on a path
  abbrev on_paths : Text → ℕ → Contribution → List FieldPath → List Claim
  on_paths path i contribution [] = []
  on_paths path i contribution (p ∷ paths) =
      only (to_text p == path) (claim_of hash_value i contribution p)
      ++ on_paths path i contribution paths

  -- all claims on a path, by the contributions that make them
  abbrev pub claims_on : Text → ℕ → List Contribution → List Claim
  claims_on path i [] = []
  claims_on path i (contribution ∷ rendered) =
      on_paths path i contribution contribution.paths ++ claims_on path (suc i) rendered

  found-claim_paths :
      (path : Text) (i : ℕ) (contribution : Contribution) (paths : List FieldPath) (claims : Claims)
      → found path (claim_paths hash_value i contribution paths claims)
        ≡ found path claims ++ on_paths path i contribution paths
  unfolding claim_paths
  found-claim_paths path i contribution [] claims = sym (append-nil (found path claims))
  found-claim_paths path i contribution (p ∷ paths) claims =
      let c = claim_of hash_value i contribution p in
      found-claim_paths path i contribution paths (add_claim (to_text p) c claims)
      ∙ ap (λ cs. cs ++ on_paths path i contribution paths)
          (found-add_claim path (to_text p) c claims)
      ∙ append_assoc (found path claims) (only (to_text p == path) c)
          (on_paths path i contribution paths)

  found-claim_all :
      (path : Text) (i : ℕ) (rendered : List Contribution) (claims : Claims)
      → found path (claim_all hash_value i rendered claims)
        ≡ found path claims ++ claims_on path i rendered
  unfolding claim_all
  found-claim_all path i [] claims = sym (append-nil (found path claims))
  found-claim_all path i (r ∷ rendered) claims =
      found-claim_all path (suc i) rendered (claim_paths hash_value i r r.paths claims)
      ∙ ap (λ cs. cs ++ claims_on path (suc i) rendered) (found-claim_paths path i r r.paths claims)
      ∙ append_assoc (found path claims) (on_paths path i r r.paths)
          (claims_on path (suc i) rendered)

  claim_paths-Unrepeated :
      (i : ℕ) (contribution : Contribution) (paths : List FieldPath) (claims : Claims)
      → Unrepeated claims
      → Unrepeated (claim_paths hash_value i contribution paths claims)
  unfolding claim_paths
  claim_paths-Unrepeated i contribution [] claims h = h
  claim_paths-Unrepeated i contribution (p ∷ paths) claims h =
      claim_paths-Unrepeated i contribution paths _
        (add_claim-Unrepeated (to_text p) (claim_of hash_value i contribution p) claims h)

  claim_all-Unrepeated :
      (i : ℕ) (rendered : List Contribution) (claims : Claims)
      → Unrepeated claims
      → Unrepeated (claim_all hash_value i rendered claims)
  unfolding claim_all
  claim_all-Unrepeated i [] claims h = h
  claim_all-Unrepeated i (r ∷ rendered) claims h =
      claim_all-Unrepeated (suc i) rendered _ (claim_paths-Unrepeated i r r.paths claims h)

-- the entry of a path
abbrev pub claimants_at : Text → List (Text × List ℕ) → Option (List ℕ)
claimants_at path [] = none
claimants_at path ((key, claimants) ∷ path_claims) =
    if key == path then some claimants else claimants_at path path_claims

abbrev if_contested : List Claim → Option (List ℕ)
if_contested cs = if is_contested cs then some (claimant_indices cs) else none

if_contested-true :
    (cs : List Claim) → is_contested cs ≡ true → if_contested cs ≡ some (claimant_indices cs)
if_contested-true cs e = rw e refl

if_contested-false : (cs : List Claim) → is_contested cs ≡ false → if_contested cs ≡ none
if_contested-false cs e = rw e refl

claimants_at-contested :
    (path : Text) (claims : Claims)
    → Unrepeated claims
    → claimants_at path (contested claims) ≡ if_contested (found path claims)
unfolding contested
claimants_at-contested path [] h = refl
claimants_at-contested path ((key, cs) ∷ claims) (new, h) =
    let rest = claimants_at-contested path claims h in
    elim (Bool-cases (key == path)) [
      | inl here ↦ elim (Bool-cases (is_contested cs)) [
        | inl disputed ↦ rw (here, disputed, here) refl
        | inr agreed ↦
            let gone : found path claims ≡ [] =
              ap (λ x. found x claims) (sym ((eq_iff key path).0 here)) ∙ new in
            rw (here, agreed) (rest ∙ ap if_contested gone)
      ]
      | inr other ↦ elim (Bool-cases (is_contested cs)) [
        | inl disputed ↦ rw (other, disputed, other) rest
        | inr agreed ↦ rw (other, agreed) rest
      ]
    ]

-- A path is in the result of the detection exactly if two claims on it have different hashes, and
-- its entry then lists the contributions that claim it, in their order.
pub detect_path_conflicts-claimants :
    (hash_value : Json → Text) (rendered : List Contribution) (path : Text)
    → (Disputed (claims_on hash_value path zero rendered)
        × (claimants_at path (detect_path_conflicts hash_value rendered)
            ≡ some (claimant_indices (claims_on hash_value path zero rendered))))
      ⊎ (Agreed (claims_on hash_value path zero rendered)
          × (claimants_at path (detect_path_conflicts hash_value rendered) ≡ none))
unfolding detect_path_conflicts
detect_path_conflicts-claimants hash_value rendered path =
    let claims = claims_on hash_value path zero rendered in
    let entry =
      claimants_at-contested path (claim_all hash_value zero rendered [])
        (claim_all-Unrepeated hash_value zero rendered [] tt)
      ∙ ap if_contested (found-claim_all hash_value path zero rendered []) in
    elim (is_contested-cases claims) [
      | inl (contested_now, disputed) ↦
          inl (disputed, entry ∙ if_contested-true claims contested_now)
      | inr (agreed_now, agreed) ↦ inr (agreed, entry ∙ if_contested-false claims agreed_now)
    ]
