-- ===== src/Tracker/Conflicts/Superseded.antt =====
-- internal/controller/tracker_controller.go: to whom `isSupersededOn` lets a contributor lose.
use mathlib.Core.List.{Mem, mem-cons_self, mem-cons_of_mem}
use patch_operator.Base.{
  ℕ, ◌≡◌, ◌∙◌, refl, sym, subst, inl, inr, true, false, Option, none, some, some-injective, List,
  [], ◌∷◌, Text, ℤ, ltb_ℤ, eqb, any, All, Bool-cases, Option-cases,
}
use patch_operator.Api.Refs.{ref_text}
use patch_operator.Apply.{is_priority}
use patch_operator.Tracker.Records.{ContributorRecord}
use patch_operator.Tracker.Conflicts.{
  record_index, nth, outranking, holder_among, holder_on, is_superseded_on,
}

module _ (active : List ContributorRecord) (mine : ℕ) (priority : ℤ) where
  -- An entry holds a claimant of a higher priority, which is the holder.
  pub record Beaten (claimants : List ℕ) (holder : Text) : Type 0 where
    pub idx : ℕ
    pub other : ContributorRecord
    pub claims : Mem idx claimants
    pub differs : eqb idx mine ≡ false
    pub at : nth idx active ≡ some other
    pub higher : ltb_ℤ priority other.status.priority ≡ true
    pub holds : holder ≡ ref_text other.status.patch_ref

  outranking-some :
      (o : Option ContributorRecord) (holder : Text)
      → outranking priority o ≡ some holder
      → (other : ContributorRecord) × (o ≡ some other)
        × ((ltb_ℤ priority other.status.priority ≡ true)
            × (holder ≡ ref_text other.status.patch_ref))
  outranking-some none holder e = cc
  outranking-some (some other) holder e = elim (Bool-cases (ltb_ℤ priority other.status.priority)) [
    | inl higher ↦ (other, refl, (higher, some-injective (sym e ∙ rw higher refl)))
    | inr not_higher ↦ cc (rw not_higher at e)
  ]

  Beaten-later :
      (idx : ℕ) (claimants : List ℕ) (holder : Text)
      → Beaten claimants holder
      → Beaten (idx ∷ claimants) holder
  Beaten-later idx claimants holder b = record {
    idx = b.idx;
    other = b.other;
    claims = mem-cons_of_mem idx b.claims;
    differs = b.differs;
    at = b.at;
    higher = b.higher;
    holds = b.holds;
  }

  holder_among-Beaten :
      (claimants : List ℕ) (holder : Text)
      → holder_among active mine priority claimants ≡ some holder
      → Beaten claimants holder
  unfolding holder_among
  holder_among-Beaten [] holder e = cc
  holder_among-Beaten (idx ∷ claimants) holder e = elim (Bool-cases (eqb idx mine)) [
    | inl own ↦
        Beaten-later idx claimants holder (holder_among-Beaten claimants holder (rw own at e))
    | inr differs ↦ elim (Option-cases (outranking priority (nth idx active))) [
      | inl below ↦
          Beaten-later idx claimants holder
            (holder_among-Beaten claimants holder (rw (differs, below, holder_among) at e))
      | inr (h, beats) ↦
          let (other, at, (higher, holds)) = outranking-some (nth idx active) h beats in
          record {
            idx = idx;
            other = other;
            claims = mem-cons_self;
            differs = differs;
            at = at;
            higher = higher;
            holds = some-injective (sym (rw (differs, beats, holder_among) at e)) ∙ holds;
          }
    ]
  ]

  -- what it takes to lose a path that is claimed
  pub record Outranked (claims : List (Text × List ℕ)) (holder : Text) : Type 0 where
    pub path : Text
    pub claimants : List ℕ
    pub entry : Mem (path, claimants) claims
    pub own : any (λ idx. eqb idx mine) claimants ≡ true
    pub beaten : Beaten claimants holder

  Outranked-later :
      (e : Text × List ℕ) (claims : List (Text × List ℕ)) (holder : Text)
      → Outranked claims holder
      → Outranked (e ∷ claims) holder
  Outranked-later e claims holder o = record {
    path = o.path;
    claimants = o.claimants;
    entry = mem-cons_of_mem e o.entry;
    own = o.own;
    beaten = o.beaten;
  }

  holder_on-Outranked :
      (claims : List (Text × List ℕ)) (holder : Text)
      → holder_on active mine priority claims ≡ some holder
      → Outranked claims holder
  unfolding holder_on
  holder_on-Outranked [] holder e = cc
  holder_on-Outranked ((path, claimants) ∷ claims) holder e =
      elim (Bool-cases (any (λ idx. eqb idx mine) claimants)) [
        | inr foreign ↦
            Outranked-later (path, claimants) claims holder
              (holder_on-Outranked claims holder (rw foreign at e))
        | inl own ↦ elim (Option-cases (holder_among active mine priority claimants)) [
          | inl top ↦
              Outranked-later (path, claimants) claims holder
                (holder_on-Outranked claims holder (rw (own, top, holder_on) at e))
          | inr (h, beats) ↦
              let same : h ≡ holder = some-injective (rw (own, beats, holder_on) at e) in
              record {
                path = path;
                claimants = claimants;
                entry = mem-cons_self;
                own = own;
                beaten = subst (Beaten claimants) same (holder_among-Beaten claimants h beats);
              }
        ]
      ]

  -- No other claimant of an entry has a higher priority.
  abbrev pub Unbeaten : List ℕ → Type 0
  Unbeaten = All (λ idx.
      eqb idx mine ≡ false
      → (other : ContributorRecord) → nth idx active ≡ some other
      → ltb_ℤ priority other.status.priority ≡ false)

  outranking-none :
      (o : Option ContributorRecord) (other : ContributorRecord)
      → outranking priority o ≡ none
      → o ≡ some other
      → ltb_ℤ priority other.status.priority ≡ false
  outranking-none o other e at = elim (Bool-cases (ltb_ℤ priority other.status.priority)) [
    | inr not_higher ↦ not_higher
    | inl higher ↦ cc (rw (at, higher) at e)
  ]

  holder_among-Unbeaten :
      (claimants : List ℕ) → holder_among active mine priority claimants ≡ none → Unbeaten claimants
  unfolding holder_among
  holder_among-Unbeaten [] e = tt
  holder_among-Unbeaten (idx ∷ claimants) e = elim (Bool-cases (eqb idx mine)) [
    | inl own ↦ (λ other. cc, holder_among-Unbeaten claimants (rw own at e))
    | inr differs ↦ elim (Option-cases (outranking priority (nth idx active))) [
      | inl below ↦ (
        λ _ other at. outranking-none (nth idx active) other below at,
        holder_among-Unbeaten claimants (rw (differs, below, holder_among) at e),
      )
      | inr (h, beats) ↦ cc (rw (differs, beats, holder_among) at e)
    ]
  ]

  holder_on-Unbeaten :
      (claims : List (Text × List ℕ))
      → holder_on active mine priority claims ≡ none
      → All (λ e. any (λ idx. eqb idx mine) e.1 ≡ true → Unbeaten e.1) claims
  unfolding holder_on
  holder_on-Unbeaten [] e = tt
  holder_on-Unbeaten ((path, claimants) ∷ claims) e =
      elim (Bool-cases (any (λ idx. eqb idx mine) claimants)) [
        | inr foreign ↦ (λ own. cc, holder_on-Unbeaten claims (rw foreign at e))
        | inl own ↦ elim (Option-cases (holder_among active mine priority claimants)) [
          | inl top ↦ (
            λ _. holder_among-Unbeaten claimants top,
            holder_on-Unbeaten claims (rw (own, top, holder_on) at e),
          )
          | inr (h, beats) ↦ cc (rw (own, beats, holder_on) at e)
        ]
      ]

-- A contributor is superseded only under the policy `Priority`, and only where another claimant of a
-- path that it claims has a higher priority; that claimant is the holder that is named.
pub is_superseded_on-Outranked :
    (c : ContributorRecord) (active : List ContributorRecord) (claims : List (Text × List ℕ))
    (holder : Text)
    → is_superseded_on c active claims ≡ some holder
    → (is_priority c.contributor.spec.apply.conflict_policy ≡ true)
      × ((mine : ℕ) × ((record_index c.status.patch_ref active ≡ some mine)
            × Outranked active mine c.status.priority claims holder))
unfolding is_superseded_on
is_superseded_on-Outranked c active claims holder e =
    elim (Bool-cases (is_priority c.contributor.spec.apply.conflict_policy)) [
      | inr other ↦ cc (rw other at e)
      | inl priority ↦ elim (Option-cases (record_index c.status.patch_ref active)) [
        | inl absent ↦ cc (rw (priority, absent) at e)
        | inr (mine, at) ↦ (
          priority,
          (
            mine,
            (
              at,
              holder_on-Outranked active mine c.status.priority claims holder
                  (rw (priority, at) at e),
            ),
          ),
        )
      ]
    ]

-- An active contributor under the policy `Priority` that is not superseded claims no path of the
-- detected ones that another contributor of a higher priority claims as well.
pub is_superseded_on-Unbeaten :
    (c : ContributorRecord) (active : List ContributorRecord) (claims : List (Text × List ℕ))
    (mine : ℕ)
    → is_priority c.contributor.spec.apply.conflict_policy ≡ true
    → record_index c.status.patch_ref active ≡ some mine
    → is_superseded_on c active claims ≡ none
    → All
        (λ e. any (λ idx. eqb idx mine) e.1 ≡ true → Unbeaten active mine c.status.priority e.1)
        claims
unfolding is_superseded_on
is_superseded_on-Unbeaten c active claims mine priority at e =
    holder_on-Unbeaten active mine c.status.priority claims (rw (priority, at) at e)
