-- ===== src/Registration/Writes.antt =====
-- internal/controller/promotion.go: which objects the steps of `promoteIfNeeded` change, and how.
use patch_operator.Base.{
  ℕ, ◌≡◌, ◌≢◌, ◌⊎◌, ◌∙◌, refl, sym, subst, inl, inr, false, Option, none, some, Text, Bool-cases,
  Option-cases,
}
use patch_operator.Api.Status.{PromotionRef, TrackerStatus, is_fenced}
use patch_operator.Scope.{TargetKey}
use patch_operator.Registration.Calls.{
  Tracked, ObjectKey, Read-cases, WriteReply, accepted, existing, vanished, unsent, ApiServer,
  Lawful,
}
use patch_operator.Registration.Promote.{
  fenced_tracker, fence, adopted_flag, new_tracker, flagged, copy_status, create_successor,
  after_create, flag_adoption,
}

pub WriteReply-cases :
    (x : WriteReply) → ((x ≡ accepted) ⊎ (x ≡ existing)) ⊎ ((x ≡ vanished) ⊎ (x ≡ unsent))
WriteReply-cases accepted = inl (inl refl)
WriteReply-cases existing = inl (inr refl)
WriteReply-cases vanished = inr (inl refl)
WriteReply-cases unsent = inr (inr refl)

module _ {S : Type 0} {api : ApiServer S} {live : S → ObjectKey → Option Tracked}
    (law : Lawful api live) where
  -- What holds of the object before a write and of what is written holds after it.
  pub write-keeps :
      (P : Option Tracked → Type 0) (s : S) (k : ObjectKey) (t : Tracked)
      → P (live s k)
      → P (some t)
      → P (live (api.write_status s k t).0 k)
  write-keeps P s k t before after = elim (law.write-there s k t) [
    | inl same ↦ subst P (sym same) before
    | inr new ↦ subst P (sym new) after
  ]

  pub create-keeps :
      (P : Option Tracked → Type 0) (s : S) (k : ObjectKey) (t : Tracked)
      → P (live s k)
      → (live s k ≡ none → P (some t))
      → P (live (api.create s k t).0 k)
  create-keeps P s k t before after = elim (law.create-there s k t) [
    | inl same ↦ subst P (sym same) before
    | inr (blank, new) ↦ subst P (sym new) (after blank)
  ]

  module _ (now : ℕ) (message : ℕ → Text) where
    pub fence-elsewhere :
        (n : ObjectKey) (name : Text) (s : S) (j : ObjectKey)
        → j ≢ n
        → live (fence api now message n name s).0 j ≡ live s j
    unfolding fence
    fence-elsewhere n name s j other = elim (Read-cases (api.read s n)) [
      | inl (t, there) ↦ elim (Bool-cases (is_fenced t.status)) [
        | inl fenced ↦ rw (there, fenced) refl
        | inr free ↦ rw (there, free) (law.write-elsewhere s n (fenced_tracker now name t) j other)
      ]
      | inr (inl e) ↦ rw e refl
      | inr (inr e) ↦ rw e refl
    ]

    pub fence-keeps :
        (P : Option Tracked → Type 0) (n : ObjectKey) (name : Text) (s : S)
        → ((t : Tracked)
            → live s n ≡ some t
            → is_fenced t.status ≡ false
            → P (some (fenced_tracker now name t)))
        → P (live s n)
        → P (live (fence api now message n name s).0 n)
    unfolding fence
    fence-keeps P n name s after before = elim (Read-cases (api.read s n)) [
      | inl (t, there) ↦ elim (Bool-cases (is_fenced t.status)) [
        | inl fenced ↦ rw (there, fenced) before
        | inr free ↦
            rw (there, free)
              (write-keeps P s n (fenced_tracker now name t) before
                (after t (law.read-found there) free))
      ]
      | inr (inl e) ↦ rw e before
      | inr (inr e) ↦ rw e before
    ]

    pub copy_status-elsewhere :
        (c : ObjectKey) (old : TrackerStatus) (s : S) (j : ObjectKey)
        → j ≢ c
        → live (copy_status api now message c old s).0 j ≡ live s j
    unfolding copy_status
    copy_status-elsewhere c old s j other = elim (Read-cases (api.read s c)) [
      | inl (t, there) ↦ rw there (law.write-elsewhere s c _ j other)
      | inr (inl e) ↦ rw e refl
      | inr (inr e) ↦ rw e refl
    ]

    after_create-elsewhere :
        (c : ObjectKey) (old : TrackerStatus) (s : S) (x : WriteReply) (j : ObjectKey)
        → j ≢ c
        → live (after_create api now message c old (s, x)).0 j ≡ live s j
    after_create-elsewhere c old s accepted j other = copy_status-elsewhere c old s j other
    after_create-elsewhere c old s existing j other = copy_status-elsewhere c old s j other
    after_create-elsewhere c old s vanished j other = refl
    after_create-elsewhere c old s unsent j other = refl

    pub create_successor-elsewhere :
        (c : ObjectKey) (key : TargetKey) (old : TrackerStatus) (s : S) (j : ObjectKey)
        → j ≢ c
        → live (create_successor api now message c key old s).0 j ≡ live s j
    unfolding create_successor
    create_successor-elsewhere c key old s j other =
        elim (Bool-cases (adopted_flag old.promoted_to)) [
          | inl adopted ↦ rw adopted refl
          | inr waiting ↦ elim (Read-cases (api.cached s c)) [
            | inl (t, there) ↦ rw (waiting, there) (copy_status-elsewhere c old s j other)
            | inr (inl e) ↦
                let made = api.create s c (new_tracker key) in
                rw (waiting, e)
                  (after_create-elsewhere c old made.0 made.1 j other
                    ∙ law.create-elsewhere s c (new_tracker key) j other)
            | inr (inr e) ↦ rw (waiting, e) refl
          ]
        ]

    pub flag_adoption-elsewhere :
        (n : ObjectKey) (s : S) (j : ObjectKey)
        → j ≢ n
        → live (flag_adoption api now message n s).0 j ≡ live s j
    unfolding flag_adoption
    flag_adoption-elsewhere n s j other = elim (Read-cases (api.read s n)) [
      | inr (inl e) ↦ rw e refl
      | inr (inr e) ↦ rw e refl
      | inl (t, there) ↦ elim (Option-cases t.status.promoted_to) [
        | inl free ↦ rw (there, free) refl
        | inr (ref, fenced) ↦ elim (Bool-cases ref.adopted) [
          | inl adopted ↦ rw (there, fenced, adopted) refl
          | inr waiting ↦
              rw (there, fenced, waiting) (law.write-elsewhere s n (flagged ref t) j other)
        ]
      ]
    ]

    pub flag_adoption-keeps :
        (P : Option Tracked → Type 0) (n : ObjectKey) (s : S)
        → ((t : Tracked) (ref : PromotionRef)
            → live s n ≡ some t
            → t.status.promoted_to ≡ some ref
            → P (some (flagged ref t)))
        → P (live s n)
        → P (live (flag_adoption api now message n s).0 n)
    unfolding flag_adoption
    flag_adoption-keeps P n s after before = elim (Read-cases (api.read s n)) [
      | inr (inl e) ↦ rw e before
      | inr (inr e) ↦ rw e before
      | inl (t, there) ↦ elim (Option-cases t.status.promoted_to) [
        | inl free ↦ rw (there, free) before
        | inr (ref, fenced) ↦ elim (Bool-cases ref.adopted) [
          | inl adopted ↦ rw (there, fenced, adopted) before
          | inr waiting ↦
              rw (there, fenced, waiting)
                (write-keeps P s n (flagged ref t) before
                  (after t ref (law.read-found there) fenced))
        ]
      ]
    ]
