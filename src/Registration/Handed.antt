-- ===== src/Registration/Handed.antt =====
-- internal/controller/promotion.go: when an adoption is flagged, the successor has the state.
use patch_operator.Base.{ℕ, ◌≡◌, inl, inr, true, false, Option, some, List, Text}
use patch_operator.Api.Status.{ContributorStatus, TrackerStatus}
use patch_operator.Scope.{TargetKey}
use patch_operator.Promotion.{adopt_status}
use patch_operator.Promotion.Laws.{AllTaken, adopt_status-Grows}
use patch_operator.Registration.Calls.{
  Tracked, ObjectKey, Read-cases, WriteReply, accepted, existing, vanished, unsent, ApiServer,
  Lawful,
}
use patch_operator.Registration.Promote.{
  adopted_flag, new_tracker, copy_status, create_successor, after_create,
}
use patch_operator.Registration.Writes.{WriteReply-cases}

-- A tracker lists each of some contributors, as captured if it was captured, with the prior values of
-- that capture unless the tracker had a capture of its own, and with paths, a hash and a field manager
-- if it had them. What the tracker had seen before is left open.
abbrev pub IsHeir : List ContributorStatus → Option Tracked → Type 0
IsHeir records o =
    (t : Tracked) × ((o ≡ some t)
      × ((seen : List ContributorStatus) × AllTaken seen records t.status.contributors))

-- The adoption of a tracker is not flagged, and its contributors are the given ones.
abbrev Waits : List ContributorStatus → Option Tracked → Type 0
Waits records o =
    (t : Tracked)
    → o ≡ some t
    → (adopted_flag t.status.promoted_to ≡ false) × (t.status.contributors ≡ records)

-- the same of a tracker whose adoption may be flagged, but then there is an heir
abbrev Settles : List ContributorStatus → Option Tracked → Option Tracked → Type 0
Settles records cluster o =
    (t : Tracked) → o ≡ some t → adopted_flag t.status.promoted_to ≡ true → IsHeir records cluster

module _ {S : Type 0} {api : ApiServer S} {live : S → ObjectKey → Option Tracked}
    (law : Lawful api live) (now : ℕ) (message : ℕ → Text) where
  copy_status-IsHeir :
      (c : ObjectKey) (old : TrackerStatus) (s : S)
      → (copy_status api now message c old s).1 ≡ true
      → IsHeir old.contributors (live (copy_status api now message c old s).0 c)
  unfolding copy_status
  copy_status-IsHeir c old s = elim (Read-cases (api.read s c)) [
    | inr (inl e) ↦ rw e (λ ok. cc ok)
    | inr (inr e) ↦ rw e (λ ok. cc ok)
    | inl (t, there) ↦
        let u : Tracked = record t { status = adopt_status now message t.status old } in
        elim (WriteReply-cases (api.write_status s c u).1) [
          | inl (inl e) ↦
              rw (there, e)
                (λ ok. (
                  u,
                  (
                    law.write-accepted s c u e,
                    (t.status.contributors, (adopt_status-Grows now message t.status old).1),
                  ),
                ))
          | inl (inr e) ↦ rw (there, e) (λ ok. cc ok)
          | inr (inl e) ↦ rw (there, e) (λ ok. cc ok)
          | inr (inr e) ↦ rw (there, e) (λ ok. cc ok)
        ]
  ]

  after_create-IsHeir :
      (c : ObjectKey) (old : TrackerStatus) (s : S) (x : WriteReply)
      → (after_create api now message c old (s, x)).1 ≡ true
      → IsHeir old.contributors (live (after_create api now message c old (s, x)).0 c)
  after_create-IsHeir c old s accepted ok = copy_status-IsHeir c old s ok
  after_create-IsHeir c old s existing ok = copy_status-IsHeir c old s ok
  after_create-IsHeir c old s vanished ok = cc ok
  after_create-IsHeir c old s unsent ok = cc ok

  -- `createSuccessor`, of a tracker whose adoption is not flagged, returns no error only with the
  -- contributors in the successor.
  pub create_successor-IsHeir :
      (c : ObjectKey) (key : TargetKey) (old : TrackerStatus) (s : S)
      → adopted_flag old.promoted_to ≡ false
      → (create_successor api now message c key old s).1 ≡ true
      → IsHeir old.contributors (live (create_successor api now message c key old s).0 c)
  unfolding create_successor
  create_successor-IsHeir c key old s waiting = elim (Read-cases (api.cached s c)) [
    | inl (t, there) ↦ rw (waiting, there) (copy_status-IsHeir c old s)
    | inr (inl e) ↦
        let made = api.create s c (new_tracker key) in
        rw (waiting, e) (after_create-IsHeir c old made.0 made.1)
    | inr (inr e) ↦ rw (waiting, e) (λ ok. cc ok)
  ]
