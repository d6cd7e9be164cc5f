-- ===== src/Promotion/Filled.antt =====
-- internal/controller/promotion.go: what becomes of one contributor's record.
use mathlib.Core.List.{Mem, mem-cons_self, mem-cons_of_mem}
use patch_operator.Base.{
  ◌≡◌, ◌≢◌, ◌⊎◌, ◌∙◌, refl, sym, ap, subst, inl, inr, some, true, false, ◌||◌, ◌&&◌, not, is_some,
  List, [], ◌∷◌, Text, ◌==◌, eq_iff, eq_refl, Bool-cases,
}
use patch_operator.Api.{RawExtension, ContributorRef}
use patch_operator.Api.Refs.{same_contributor}
use patch_operator.Api.Status.{ContributorStatus}
use patch_operator.Tracker.Writes.{fill}
use patch_operator.Tracker.Writes.Laws.{fill-known}
use patch_operator.Promotion.{handed_over, or_paths, with_capture, filled_in}

-- What a record knows is still there in another record of the same contributor.
pub record Keeps (old new : ContributorStatus) : Type 0 where
  pub same : new.patch_ref ≡ old.patch_ref
  pub captured : old.prior_values_captured ≡ true → new.prior_values_captured ≡ true
  pub values : old.prior_values_captured ≡ true → new.prior_values ≡ old.prior_values
  pub paths : old.owned_paths ≢ [] → new.owned_paths ≡ old.owned_paths
  pub hash : old.last_applied_hash ≢ [] → new.last_applied_hash ≡ old.last_applied_hash
  pub manager : old.field_manager ≢ [] → new.field_manager ≡ old.field_manager

pub Keeps-refl : (r : ContributorStatus) → Keeps r r
Keeps-refl r = record {
  same = refl;
  captured = λ h. h;
  values = λ h. refl;
  paths = λ h. refl;
  hash = λ h. refl;
  manager = λ h. refl;
}

pub Keeps-trans : (a b c : ContributorStatus) → Keeps a b → Keeps b c → Keeps a c
Keeps-trans a b c k l = record {
  same = l.same ∙ k.same;
  captured = λ h. l.captured (k.captured h);
  values = λ h. l.values (k.captured h) ∙ k.values h;
  paths = λ h. l.paths (λ e. h (sym (k.paths h) ∙ e)) ∙ k.paths h;
  hash = λ h. l.hash (λ e. h (sym (k.hash h) ∙ e)) ∙ k.hash h;
  manager = λ h. l.manager (λ e. h (sym (k.manager h) ∙ e)) ∙ k.manager h;
}

-- A record of the contributor was there already, with a capture of its own, and that is kept.
abbrev pub OwnCapture : List ContributorStatus → ContributorStatus → ContributorStatus → Type 0
OwnCapture seen rec new =
    (old : ContributorStatus) × (Mem old seen)
    × (same_contributor old.patch_ref rec.patch_ref ≡ true)
    × (old.prior_values_captured ≡ true)
    × (new.prior_values ≡ old.prior_values)

-- The predecessor's record has gone into one of the successor's, which were `seen` before: with the
-- prior values that were captured, unless the successor has captured its own.
pub record Fed (seen : List ContributorStatus) (rec new : ContributorStatus) : Type 0 where
  pub same : same_contributor new.patch_ref rec.patch_ref ≡ true
  pub captured : rec.prior_values_captured ≡ true → new.prior_values_captured ≡ true
  pub values :
      rec.prior_values_captured ≡ true
      → (v : RawExtension) → rec.prior_values ≡ some v
      → (new.prior_values ≡ some v) ⊎ OwnCapture seen rec new
  pub paths : rec.owned_paths ≢ [] → new.owned_paths ≢ []
  pub hash : rec.last_applied_hash ≢ [] → new.last_applied_hash ≢ []
  pub manager : rec.field_manager ≢ [] → new.field_manager ≢ []

pub Fed-Keeps :
    (seen : List ContributorStatus) (rec a b : ContributorStatus)
    → Fed seen rec a
    → Keeps a b
    → Fed seen rec b
Fed-Keeps seen rec a b f k = record {
  same = subst (λ r. same_contributor r rec.patch_ref ≡ true) (sym k.same) f.same;
  captured = λ h. k.captured (f.captured h);
  values = λ h v given. elim (f.values h v given) [
    | inl taken ↦ inl (k.values (f.captured h) ∙ taken)
    | inr (old, there, same, own, kept) ↦
        inr (old, there, same, own, k.values (f.captured h) ∙ kept)
  ];
  paths = λ h e. f.paths h (sym (k.paths (f.paths h)) ∙ e);
  hash = λ h e. f.hash h (sym (k.hash (f.hash h)) ∙ e);
  manager = λ h e. f.manager h (sym (k.manager (f.manager h)) ∙ e);
}

same_contributor_refl : (r : ContributorRef) → same_contributor r r ≡ true
unfolding same_contributor
same_contributor_refl r = elim (Bool-cases (r.uid == [])) [
  | inl blank ↦ rw (blank, eq_refl r.kind, eq_refl r.name, eq_refl r.namespace) refl
  | inr known ↦ rw (known, eq_refl r.uid) refl
]

-- A capture goes into any list that has seen more.
pub Fed-more :
    (r : ContributorStatus) (seen : List ContributorStatus) (rec new : ContributorStatus)
    → Fed seen rec new
    → Fed (r ∷ seen) rec new
Fed-more r seen rec new f = record {
  same = f.same;
  captured = f.captured;
  values = λ h v given. elim (f.values h v given) [
    | inl taken ↦ inl taken
    | inr (old, there, same, own, kept) ↦ inr (old, mem-cons_of_mem r there, same, own, kept)
  ];
  paths = f.paths;
  hash = f.hash;
  manager = f.manager;
}

pub Fed-self : (seen : List ContributorStatus) (rec : ContributorStatus) → Fed seen rec rec
Fed-self seen rec = record {
  same = same_contributor_refl rec.patch_ref;
  captured = λ h. h;
  values = λ h v given. inl given;
  paths = λ h. h;
  hash = λ h. h;
  manager = λ h. h;
}

fill-learned : (known learned : Text) → learned ≢ [] → fill known learned ≢ []
fill-learned known learned h = elim (Bool-cases (known == [])) [
  | inl blank ↦ rw blank h
  | inr known_now ↦ rw known_now (λ e. cc (known_now, (eq_iff known []).1 e))
]

or_paths-own : (own paths : List Text) → own ≢ [] → or_paths own paths ≡ own
or_paths-own [] paths h = absurd (h refl)
or_paths-own (p ∷ own) paths h = refl

or_paths-given : (own paths : List Text) → paths ≢ [] → or_paths own paths ≢ []
or_paths-given [] paths h = h
or_paths-given (p ∷ own) paths h = λ e. cc e

-- the capture of the predecessor: the own one is kept, and the predecessor's is not forgotten
with_capture-keeps :
    (rec existing : ContributorStatus)
    → existing.prior_values_captured ≡ true
    → with_capture rec existing ≡ existing
with_capture-keeps rec existing own =
    let passed : (not existing.prior_values_captured
          && (rec.prior_values_captured || is_some rec.prior_values))
        ≡ false =
      ap (λ b. not b && (rec.prior_values_captured || is_some rec.prior_values)) own in
    rw passed refl

with_capture-takes :
    (rec existing : ContributorStatus)
    → rec.prior_values_captured ≡ true
    → (with_capture rec existing).prior_values_captured ≡ true
with_capture-takes rec existing taken = elim (Bool-cases existing.prior_values_captured) [
  | inl own ↦ ap (λ r. r.prior_values_captured) (with_capture-keeps rec existing own) ∙ own
  | inr none_own ↦
      let first : (not existing.prior_values_captured
            && (rec.prior_values_captured || is_some rec.prior_values))
          ≡ true =
        ap (λ b. not b && (rec.prior_values_captured || is_some rec.prior_values)) none_own
        ∙ ap (λ b. b || is_some rec.prior_values) taken in
      rw first refl
]

with_capture-values :
    (rec existing : ContributorStatus) (v : RawExtension)
    → existing.prior_values_captured ≡ false
    → rec.prior_values_captured ≡ true
    → rec.prior_values ≡ some v
    → (with_capture rec existing).prior_values ≡ some v
with_capture-values rec existing v none_own taken given =
    let first : (not existing.prior_values_captured
          && (rec.prior_values_captured || is_some rec.prior_values))
        ≡ true =
      ap (λ b. not b && (rec.prior_values_captured || is_some rec.prior_values)) none_own
      ∙ ap (λ b. b || is_some rec.prior_values) taken in
    rw first (ap (handed_over existing.prior_values) given)

with_capture-ref :
    (rec existing : ContributorStatus) → (with_capture rec existing).patch_ref ≡ existing.patch_ref
with_capture-ref rec existing =
    elim (Bool-cases (
      not existing.prior_values_captured
      && (rec.prior_values_captured || is_some rec.prior_values))) [
        | inl first ↦ rw first refl
        | inr passed ↦ rw passed refl
      ]

pub filled_in-Keeps : (rec existing : ContributorStatus) → Keeps existing (filled_in rec existing)
unfolding filled_in
filled_in-Keeps rec existing = record {
  same = with_capture-ref rec existing;
  captured = λ h. ap (λ r. r.prior_values_captured) (with_capture-keeps rec existing h) ∙ h;
  values = λ h. ap (λ r. r.prior_values) (with_capture-keeps rec existing h);
  paths = or_paths-own existing.owned_paths rec.owned_paths;
  hash = fill-known existing.last_applied_hash rec.last_applied_hash;
  manager = fill-known existing.field_manager rec.field_manager;
}

pub filled_in-Fed :
    (rec existing : ContributorStatus)
    → same_contributor existing.patch_ref rec.patch_ref ≡ true
    → (seen : List ContributorStatus) → Fed (existing ∷ seen) rec (filled_in rec existing)
unfolding filled_in
filled_in-Fed rec existing same seen = record {
  same =
      subst (λ r. same_contributor r rec.patch_ref ≡ true) (sym (with_capture-ref rec existing))
        same;
  captured = with_capture-takes rec existing;
  values = λ h v given. elim (Bool-cases existing.prior_values_captured) [
    | inl own ↦ inr (
      existing,
      mem-cons_self,
      same,
      own,
      ap (λ r. r.prior_values) (with_capture-keeps rec existing own),
    )
    | inr none_own ↦ inl (with_capture-values rec existing v none_own h given)
  ];
  paths = or_paths-given existing.owned_paths rec.owned_paths;
  hash = fill-learned existing.last_applied_hash rec.last_applied_hash;
  manager = fill-learned existing.field_manager rec.field_manager;
}
