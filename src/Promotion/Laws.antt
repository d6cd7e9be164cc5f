-- ===== src/Promotion/Laws.antt =====
-- internal/controller/promotion.go: what an adoption keeps and carries over.
use patch_operator.Base.{
  ℕ, ◌≡◌, ◌⊎◌, refl, inl, inr, Bool, true, false, ◌||◌, Option, none, some, List, [], ◌∷◌, Text,
  length, Bool-cases,
}
use patch_operator.Api.{ContributorRef}
use patch_operator.Api.Refs.{same_contributor}
use patch_operator.Api.Status.{ContributorStatus, TrackerStatus}
use patch_operator.Tracker.Writes.{first_known}
use patch_operator.Tracker.Pass.Step.{with_condition}
use patch_operator.Promotion.{adopt_record, adopt_records, adopt_status}
use patch_operator.Promotion.Filled.{
  Keeps, Keeps-refl, Keeps-trans, Fed, Fed-Keeps, Fed-more, Fed-self, filled_in-Keeps,
  filled_in-Fed,
}

-- Each record of a list is kept at its place in another list, which may be longer.
abbrev pub Grows : List ContributorStatus → List ContributorStatus → Type 0
Grows [] new = Unit {0}
Grows (r ∷ old) [] = ⊥
Grows (r ∷ old) (s ∷ new) = Keeps r s × Grows old new

-- A record has gone into some record of a list, which held others before.
abbrev pub Has : List ContributorStatus → ContributorStatus → List ContributorStatus → Type 0
Has seen rec [] = ⊥
Has seen rec (r ∷ records) = Fed seen rec r ⊎ Has seen rec records

-- Each record has, one after the other, gone into some record of the list at the end.
abbrev pub AllTaken :
    List ContributorStatus → List ContributorStatus → List ContributorStatus → Type 0
AllTaken seen [] new = Unit {0}
AllTaken seen (rec ∷ recs) new = Has seen rec new × AllTaken (adopt_record rec seen) recs new

Grows-refl : (l : List ContributorStatus) → Grows l l
Grows-refl [] = tt
Grows-refl (r ∷ l) = (Keeps-refl r, Grows-refl l)

Grows-trans : (a b c : List ContributorStatus) → Grows a b → Grows b c → Grows a c
Grows-trans [] b c g h = tt
Grows-trans (x ∷ a) [] c g h = elim g [ ]
Grows-trans (x ∷ a) (y ∷ b) [] g h = elim h [ ]
Grows-trans (x ∷ a) (y ∷ b) (z ∷ c) (k, g) (l, h) = (Keeps-trans x y z k l, Grows-trans a b c g h)

Has-Grows :
    (seen : List ContributorStatus) (rec : ContributorStatus) (a b : List ContributorStatus)
    → Has seen rec a
    → Grows a b
    → Has seen rec b
Has-Grows seen rec [] b h g = elim h [ ]
Has-Grows seen rec (x ∷ a) [] h g = elim g [ ]
Has-Grows seen rec (x ∷ a) (y ∷ b) (inl f) (k, g) = inl (Fed-Keeps seen rec x y f k)
Has-Grows seen rec (x ∷ a) (y ∷ b) (inr h) (k, g) = inr (Has-Grows seen rec a b h g)

Has-more :
    (r : ContributorStatus) (seen : List ContributorStatus) (rec : ContributorStatus)
    (l : List ContributorStatus)
    → Has seen rec l
    → Has (r ∷ seen) rec l
Has-more r seen rec [] h = h
Has-more r seen rec (x ∷ l) (inl f) = inl (Fed-more r seen rec x f)
Has-more r seen rec (x ∷ l) (inr h) = inr (Has-more r seen rec l h)

adopt_record-Grows :
    (rec : ContributorStatus) (l : List ContributorStatus) → Grows l (adopt_record rec l)
unfolding adopt_record
adopt_record-Grows rec [] = tt
adopt_record-Grows rec (r ∷ l) = elim (Bool-cases (same_contributor r.patch_ref rec.patch_ref)) [
  | inl same ↦ rw same (filled_in-Keeps rec r, Grows-refl l)
  | inr other ↦ rw other (Keeps-refl r, adopt_record-Grows rec l)
]

adopt_record-Has :
    (rec : ContributorStatus) (l : List ContributorStatus) → Has l rec (adopt_record rec l)
unfolding adopt_record
adopt_record-Has rec [] = inl (Fed-self [] rec)
adopt_record-Has rec (r ∷ l) = elim (Bool-cases (same_contributor r.patch_ref rec.patch_ref)) [
  | inl same ↦ rw same (inl (filled_in-Fed rec r same l))
  | inr other ↦ rw other (inr (Has-more r l rec (adopt_record rec l) (adopt_record-Has rec l)))
]

adopt_records-Grows : (recs l : List ContributorStatus) → Grows l (adopt_records recs l)
unfolding adopt_records
adopt_records-Grows [] l = Grows-refl l
adopt_records-Grows (rec ∷ recs) l =
    Grows-trans l (adopt_record rec l) (adopt_records recs (adopt_record rec l))
      (adopt_record-Grows rec l) (adopt_records-Grows recs (adopt_record rec l))

adopt_records-Has : (recs l : List ContributorStatus) → AllTaken l recs (adopt_records recs l)
unfolding adopt_records
adopt_records-Has [] l = tt
adopt_records-Has (rec ∷ recs) l = (
  Has-Grows l rec (adopt_record rec l) (adopt_records recs (adopt_record rec l))
      (adopt_record-Has rec l) (adopt_records-Grows recs (adopt_record rec l)),
  adopt_records-Has recs (adopt_record rec l),
)

or_true : (a b : Bool) → b ≡ true → (a || b) ≡ true
or_true true b h = refl
or_true false b h = h

first_of :
    (own given : Option ContributorRef) (c : ContributorRef)
    → given ≡ some c
    → first_known own given ≡ first_known own (some c)
first_of none given c known = known
first_of (some d) given c known = refl

module _ (now : ℕ) (message : ℕ → Text) (dst src : TrackerStatus) where
  pub adopt_status-Grows :
      Grows dst.contributors (adopt_status now message dst src).contributors
      × AllTaken dst.contributors src.contributors (adopt_status now message dst src).contributors
  unfolding adopt_status with_condition
  adopt_status-Grows = (
    adopt_records-Grows src.contributors dst.contributors,
    adopt_records-Has src.contributors dst.contributors,
  )

  -- If the predecessor knew that the operator created the target, and who did, then the successor
  -- knows that the operator did, and names its own creator if it knew one, and otherwise the
  -- predecessor's. It is not fenced, and its count is that of its list.
  pub adopt_status-provenance :
      (c : ContributorRef)
      → src.created_by_operator ≡ true
      → src.creator_patch_ref ≡ some c
      → ((adopt_status now message dst src).created_by_operator ≡ true)
        × (((adopt_status now message dst src).creator_patch_ref
              ≡ first_known dst.creator_patch_ref (some c))
            × (((adopt_status now message dst src).promoted_to ≡ none)
                × ((adopt_status now message dst src).contributor_count
                    ≡ length (adopt_status now message dst src).contributors)))
  unfolding adopt_status with_condition
  adopt_status-provenance c created known = (
    or_true dst.created_by_operator src.created_by_operator created,
    (first_of dst.creator_patch_ref src.creator_patch_ref c known, (refl, refl)),
  )
