-- ===== src/Tracker/Writes/Landed.antt =====
-- internal/controller/tracker_controller.go: the status that a write leaves when it lands.
use patch_operator.Base.{ℕ, zero, suc, ◌+◌, ◌≡◌, refl, inl, inr, Option, List, eqb, Bool-cases}
use patch_operator.Api.Status.{TrackerStatus, ContributorStatus, ConflictStatus}
use patch_operator.Tracker.Writes.{
  Versioned, World, Written, landed, gone, conflicted, failed, patch_status, write_mutation,
  write_status,
}
use patch_operator.Tracker.Writes.Laws.{Seen-cases}

-- What lands is the mutation of some status.
abbrev pub IsMutated : (TrackerStatus → TrackerStatus) → Written → Type 0
IsMutated mutate (landed t status) = (old : TrackerStatus) × (status ≡ mutate old)
IsMutated mutate gone = Unit {0}
IsMutated mutate conflicted = Unit {0}
IsMutated mutate failed = Unit {0}

module _ (world : World) (mutate : TrackerStatus → TrackerStatus) where
  pub patch_status-IsMutated :
      (attempts t : ℕ) (memory : Versioned)
      → IsMutated mutate (patch_status world mutate attempts t memory)
  unfolding patch_status
  patch_status-IsMutated zero t memory = tt
  patch_status-IsMutated (suc attempts) t memory = elim (Seen-cases (world t)) [
    | inr (inl e) ↦ rw (e, patch_status) tt
    | inr (inr e) ↦ rw (e, patch_status) tt
    | inl (s, e) ↦ elim (Bool-cases (eqb s.version memory.version)) [
      | inl same ↦ rw (e, same, patch_status) (memory.status, refl)
      | inr stale ↦ elim (Seen-cases (world (t + 1))) [
        | inr (inl f) ↦ rw (e, stale, f, patch_status) tt
        | inr (inr f) ↦ rw (e, stale, f, patch_status) tt
        | inl (fresh, f) ↦ elim (Seen-cases (world (t + 2))) [
          | inr (inl g) ↦ rw (e, stale, f, g, patch_status) tt
          | inr (inr g) ↦ rw (e, stale, f, g, patch_status) tt
          | inl (now, g) ↦ elim (Bool-cases (eqb now.version fresh.version)) [
            | inl same ↦ rw (e, stale, f, g, same, patch_status) (fresh.status, refl)
            | inr lost ↦
                rw (e, stale, f, g, lost, patch_status)
                  (patch_status-IsMutated attempts (t + 3)
                    (record memory { status = mutate memory.status }))
          ]
        ]
      ]
    ]
  ]

-- what a status write leaves
pub write_status-IsMutated :
    (world : World) (attempts t : ℕ) (memory : Versioned)
    → (records : Option (List ContributorStatus)) (conflicts : List ConflictStatus)
    → IsMutated
        (write_mutation memory.status records conflicts)
        (write_status world attempts t memory records conflicts)
unfolding write_status
write_status-IsMutated world attempts t memory records conflicts =
    patch_status-IsMutated world (write_mutation memory.status records conflicts) attempts t memory
