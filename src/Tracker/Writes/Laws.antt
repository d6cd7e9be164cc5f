-- ===== src/Tracker/Writes/Laws.antt =====
-- internal/controller/tracker_controller.go: what a status write keeps of the status that it finds.
use patch_operator.Base.{
  ℕ, zero, suc, ◌+◌, ◌≡◌, ◌≢◌, ◌⊎◌, inl, inr, refl, subst, true, Option, none, some, List, [], Text,
  ◌==◌, eqb, eqb_iff, eq_iff, Bool-cases,
}
use patch_operator.Api.{ContributorRef}
use patch_operator.Api.Status.{TrackerStatus, ContributorStatus, ConflictStatus}
use patch_operator.Tracker.Writes.{
  Versioned, Seen, stored, missing, failing, World, Written, landed, gone, conflicted, failed,
  patch_status, write_mutation, write_status, provenance_mutation, record_provenance, fill,
}

-- A version belongs to one status.
abbrev pub IsVersioned : World → Type 0
IsVersioned world =
    (i j : ℕ) (s r : Versioned)
    → world i ≡ stored s
    → world j ≡ stored r
    → s.version ≡ r.version
    → s.status ≡ r.status

pub Seen-cases :
    (seen : Seen) → ((s : Versioned) × (seen ≡ stored s)) ⊎ ((seen ≡ missing) ⊎ (seen ≡ failing))
Seen-cases (stored s) = inl (s, refl)
Seen-cases missing = inr (inl refl)
Seen-cases failing = inr (inr refl)

module _ (world : World) (Keeps : TrackerStatus → TrackerStatus → Type 0) where
  -- The copy in memory keeps what is stored under its version.
  abbrev pub Follows : Versioned → Type 0
  Follows memory =
      (i : ℕ) (s : Versioned)
      → world i ≡ stored s
      → s.version ≡ memory.version
      → Keeps s.status memory.status

  -- A write that lands keeps what it replaces.
  abbrev pub LandsOn : Written → Type 0
  LandsOn (landed t status) = (s : Versioned) × (world t ≡ stored s) × Keeps s.status status
  LandsOn gone = Unit {0}
  LandsOn conflicted = Unit {0}
  LandsOn failed = Unit {0}

  module _ (mutate : TrackerStatus → TrackerStatus) (versions : IsVersioned world)
      (self : (st : TrackerStatus) → Keeps st st)
      (keeps : (old st : TrackerStatus) → Keeps old st → Keeps old (mutate st)) where
    on_fresh :
        (now fresh : Versioned) → now.status ≡ fresh.status → Keeps now.status (mutate fresh.status)
    on_fresh now fresh same =
        keeps now.status fresh.status (subst (Keeps now.status) same (self now.status))

    pub patch_status-LandsOn :
        (attempts t : ℕ) (memory : Versioned)
        → Follows memory
        → LandsOn (patch_status world mutate attempts t memory)
    unfolding patch_status
    patch_status-LandsOn zero t memory follows = tt
    patch_status-LandsOn (suc attempts) t memory follows = elim (Seen-cases (world t)) [
      | inr (inl e) ↦ rw (e, patch_status) tt
      | inr (inr e) ↦ rw (e, patch_status) tt
      | inl (s, e) ↦ elim (Bool-cases (eqb s.version memory.version)) [
        | inl same ↦
            rw (e, same, patch_status)
              (s, e, keeps s.status memory.status (follows t s e ((eqb_iff _ _).0 same)))
        | inr stale ↦ elim (Seen-cases (world (t + 1))) [
          | inr (inl f) ↦ rw (e, stale, f, patch_status) tt
          | inr (inr f) ↦ rw (e, stale, f, patch_status) tt
          | inl (fresh, f) ↦ elim (Seen-cases (world (t + 2))) [
            | inr (inl g) ↦ rw (e, stale, f, g, patch_status) tt
            | inr (inr g) ↦ rw (e, stale, f, g, patch_status) tt
            | inl (now, g) ↦ elim (Bool-cases (eqb now.version fresh.version)) [
              | inl same ↦
                  rw (e, stale, f, g, same, patch_status)
                    (
                      now,
                      g,
                      on_fresh now fresh
                          (versions (t + 2) (t + 1) now fresh g f ((eqb_iff _ _).0 same)),
                    )
              | inr lost ↦
                  rw (e, stale, f, g, lost, patch_status)
                    (patch_status-LandsOn attempts (t + 3)
                      (record memory { status = mutate memory.status })
                      (λ i r at same. keeps r.status memory.status (follows i r at same)))
            ]
          ]
        ]
      ]
    ]

-- What no write of the tracker's controller takes away: the fence of a promotion stays as it is,
-- and of the provenance nothing that is known is forgotten or replaced.
pub record Safe (old new : TrackerStatus) : Type 0 where
  pub fence : new.promoted_to ≡ old.promoted_to
  pub created : old.created_by_operator ≡ true → new.created_by_operator ≡ true
  pub creator :
      (c : ContributorRef) → old.creator_patch_ref ≡ some c → new.creator_patch_ref ≡ some c
  pub base_hash : old.observed_base_hash ≢ [] → new.observed_base_hash ≡ old.observed_base_hash

pub Safe-refl : (st : TrackerStatus) → Safe st st
Safe-refl st = record { fence = refl; created = λ h. h; creator = λ c h. h; base_hash = λ h. refl }

pub fill-known : (known learned : Text) → known ≢ [] → fill known learned ≡ known
fill-known known learned h = elim (Bool-cases (known == [])) [
  | inl blank ↦ absurd (h ((eq_iff known []).0 blank))
  | inr known_now ↦ rw known_now refl
]

write_mutation-Safe :
    (computed : TrackerStatus) (records : Option (List ContributorStatus))
    (conflicts : List ConflictStatus)
    → (old st : TrackerStatus) → Safe old st
    → Safe old (write_mutation computed records conflicts st)
unfolding write_mutation
write_mutation-Safe computed records conflicts old st s = record {
  fence = s.fence;
  created = λ h. rw (s.created h) refl;
  creator = λ c h. rw (s.creator c h) refl;
  base_hash =
      λ h. rw (s.base_hash h) (fill-known old.observed_base_hash computed.observed_base_hash h);
}

provenance_mutation-Safe :
    (creator : ContributorRef) (base_hash : Text) (old st : TrackerStatus)
    → Safe old st
    → Safe old (provenance_mutation creator base_hash st)
unfolding provenance_mutation
provenance_mutation-Safe creator base_hash old st s = record {
  fence = s.fence;
  created = λ h. refl;
  creator = λ c h. rw (s.creator c h) refl;
  base_hash = λ h. rw (s.base_hash h) (fill-known old.observed_base_hash base_hash h);
}

-- A write without records leaves the list of contributors alone.
abbrev pub Accounts : Option (List ContributorStatus) → TrackerStatus → TrackerStatus → Type 0
Accounts none old new = new.contributors ≡ old.contributors
Accounts (some records) old new = Unit {0}

abbrev pub Kept : Option (List ContributorStatus) → TrackerStatus → TrackerStatus → Type 0
Kept records old new = Safe old new × Accounts records old new

Accounts-refl :
    (records : Option (List ContributorStatus)) (st : TrackerStatus) → Accounts records st st
Accounts-refl none st = refl
Accounts-refl (some records) st = tt

write_mutation-Accounts :
    (computed : TrackerStatus) (records : Option (List ContributorStatus))
    (conflicts : List ConflictStatus)
    → (old st : TrackerStatus) → Accounts records old st
    → Accounts records old (write_mutation computed records conflicts st)
unfolding write_mutation
write_mutation-Accounts computed none conflicts old st h = h
write_mutation-Accounts computed (some records) conflicts old st h = tt

-- Whoever else writes the status in between, and however often the write is tried again: a status
-- write that lands leaves the fence of a promotion as it finds it, forgets and replaces nothing
-- that is known of who created the target, and leaves the list of contributors as it finds it if
-- it brings no records. The same is asked of the copy in memory: it must keep all that of each stored
-- status that has its version, as a copy that was read and computed on in memory does; and a version
-- is stored with one status only.
pub write_status-Kept :
    (world : World) (attempts t : ℕ) (memory : Versioned)
    → (records : Option (List ContributorStatus)) (conflicts : List ConflictStatus)
    → IsVersioned world
    → Follows world (Kept records) memory
    → LandsOn world (Kept records) (write_status world attempts t memory records conflicts)
unfolding write_status
write_status-Kept world attempts t memory records conflicts versions follows =
    patch_status-LandsOn world (Kept records) (write_mutation memory.status records conflicts)
      versions (λ st. (Safe-refl st, Accounts-refl records st))
      (λ old st k. (
        write_mutation-Safe memory.status records conflicts old st k.0,
        write_mutation-Accounts memory.status records conflicts old st k.1,
      ))
      attempts t memory follows

-- The same of the write that records who created the target: it takes nothing away, and lists the
-- contributors as before.
pub record_provenance-Kept :
    (world : World) (attempts t : ℕ) (memory : Versioned) (creator : ContributorRef)
    (base_hash : Text)
    → IsVersioned world
    → Follows world (Kept none) memory
    → LandsOn world (Kept none) (record_provenance world attempts t memory creator base_hash)
unfolding record_provenance provenance_mutation
record_provenance-Kept world attempts t memory creator base_hash versions follows =
    patch_status-LandsOn world (Kept none) (provenance_mutation creator base_hash) versions
      (λ st. (Safe-refl st, refl))
      (λ old st k. (provenance_mutation-Safe creator base_hash old st k.0, k.1)) attempts t memory
      follows
