-- ===== src/Tracker/Pass/Counts.antt =====
-- internal/controller/tracker_controller.go: the contributors that a pass lists in the status, which
-- are the reference count of the target.
use mathlib.Core.List.{map}
use patch_operator.Base.{
  ℕ, zero, suc, ◌≡◌, ◌∙◌, refl, sym, ap, subst, inl, inr, Bool, true, false, none, some,
  some-injective, List, [], ◌∷◌, length, Option-cases, Bool-cases, if-then, if-else, if◌then◌else◌,
}
use patch_operator.Api.{ContributorRef}
use patch_operator.Api.Status.{TrackerStatus, ContributorStatus, ConflictStatus}
use patch_operator.Render.{Target, Contribution, render}
use patch_operator.Tracker.Writes.{
  Versioned, World, Written, landed, gone, conflicted, failed, write_mutation, write_status,
}
use patch_operator.Tracker.Writes.Landed.{IsMutated, write_status-IsMutated}
use patch_operator.Tracker.Records.{ContributorRecord, statuses}
use patch_operator.Tracker.Conflicts.{detect_path_conflicts}
use patch_operator.Tracker.Appliers.{Outside}
use patch_operator.Tracker.Withdraw.{split_releasing}
use patch_operator.Tracker.Pass.Step.{Pass, requeued, broken, apply_failed}
use patch_operator.Tracker.Pass.Covers.{refs, Covers, pass_loop-Covers}
use patch_operator.Tracker.Pass.{
  Loop, completed, stopped, error, requeue_after, Passed, render_all, contributions, pass_loop,
  conclude, unrendered, pass_over, pass_after, reconcile_contributions, settled_status,
  invalid_spec, returned_by, start_pass,
}

-- The records of the contributors that are not being deleted.
abbrev pub staying : List ContributorRecord → List ContributorRecord
staying [] = []
staying (c ∷ cs) = let rest = staying cs in if c.contributor.deleting then rest else c ∷ rest

split_releasing-staying : (cs : List ContributorRecord) → (split_releasing cs).1 ≡ staying cs
unfolding split_releasing
split_releasing-staying [] = refl
split_releasing-staying (c ∷ cs) =
    let (releasing, active) = split_releasing cs in
    let leaves : List ContributorRecord × List ContributorRecord = (c ∷ releasing, active) in
    let stays : List ContributorRecord × List ContributorRecord = (releasing, c ∷ active) in
    elim (Bool-cases c.contributor.deleting) [
      | inl going ↦
          ap (λ x. x.1) (if-then c.contributor.deleting leaves stays going)
          ∙ split_releasing-staying cs
          ∙ sym (if-then c.contributor.deleting (staying cs) (c ∷ staying cs) going)
      | inr remains ↦
          ap (λ x. x.1) (if-else c.contributor.deleting leaves stays remains)
          ∙ ap (λ l. c ∷ l) (split_releasing-staying cs)
          ∙ sym (if-else c.contributor.deleting (staying cs) (c ∷ staying cs) remains)
    ]

render_all-pairs :
    {S W : Type 0} (outside : Outside S W) (target : Target)
    → (active : List ContributorRecord) (rendered : List (ContributorRecord × Contribution))
    → render_all outside target active ≡ some rendered
    → map (λ e. e.0) rendered ≡ active
unfolding render_all
render_all-pairs outside target [] rendered e = ap (map (λ x. x.0)) (sym (some-injective e))
render_all-pairs outside target (c ∷ active) rendered e =
    elim (Option-cases (
      render outside.decode outside.hash_of outside.decode_ops outside.apply_ops
        c.contributor.spec.patch target)) [
          | inl unmade ↦ cc (rw unmade at e)
          | inr (contribution, made) ↦ elim (Option-cases (render_all outside target active)) [
            | inl unmade ↦ cc (rw (made, unmade) at e)
            | inr (rest, all) ↦
                let same : (c, contribution) ∷ rest ≡ rendered =
                  some-injective (rw (made, all) at e) in
                ap (map (λ x. x.0)) (sym same)
                ∙ ap (λ l. c ∷ l) (render_all-pairs outside target active rest all)
          ]
        ]

-- A pass without an error that writes the status lists these contributors there, and counts them.
abbrev Counts : {S : Type 0} → List ContributorRef → Passed S → Type 0
Counts expected passed =
    (t ms : ℕ) (st : TrackerStatus)
    → passed.write ≡ some (landed t st)
    → passed.returned ≡ requeue_after ms
    → (refs st.contributors ≡ expected) × (st.contributor_count ≡ length expected)

length-refs : (records : List ContributorStatus) → length (refs records) ≡ length records
length-refs [] = refl
length-refs (rec ∷ records) = ap suc (length-refs records)

module _ (world : World) (attempts t : ℕ) (memory : Versioned)
    (conflicts : List ConflictStatus) where
  -- a landed write that brings records
  landed-refs :
      (records : List ContributorStatus) (w : Written) (at : ℕ) (st : TrackerStatus)
      → IsMutated (write_mutation memory.status (some records) conflicts) w
      → w ≡ landed at st
      → (st.contributors ≡ records) × (st.contributor_count ≡ length records)
  unfolding write_mutation
  landed-refs records w at st mutated e =
      let (old, same) =
        subst (IsMutated (write_mutation memory.status (some records) conflicts)) e mutated in
      (ap (λ s. s.contributors) same, ap (λ s. s.contributor_count) same)

  landed-counts :
      (records : List ContributorStatus) (expected : List ContributorRef) (at : ℕ)
      (st : TrackerStatus)
      → refs records ≡ expected
      → some (write_status world attempts t memory (some records) conflicts) ≡ some (landed at st)
      → (refs st.contributors ≡ expected) × (st.contributor_count ≡ length expected)
  landed-counts records expected at st same e =
      let (listed, counted) =
        landed-refs records _ at st
          (write_status-IsMutated world attempts t memory (some records) conflicts)
          (some-injective e) in
      (ap refs listed ∙ same, counted ∙ sym (length-refs records) ∙ ap length same)

module _ {S W : Type 0} (outside : Outside S W) (target : Target) (world : World)
    (version_after : ℕ → ℕ) (attempts : ℕ) where
  returned_by-error :
      (w : Written) → returned_by outside target world version_after attempts error w ≡ error
  returned_by-error (landed t st) = refl
  returned_by-error gone = refl
  returned_by-error conflicted = refl
  returned_by-error failed = refl

  conclude-Counts :
      (rendered : List (ContributorRecord × Contribution)) (l : Loop S)
      → Covers rendered l
      → Counts
          (refs (statuses (map (λ e. e.0) rendered)))
          (conclude outside target world version_after attempts l)
  unfolding conclude
  conclude-Counts rendered (completed p records) covers t ms st e r =
      landed-counts world attempts p.instant
        (record p.memory { status = settled_status outside target world version_after attempts p })
        p.conflicts records _ t st covers e
  conclude-Counts rendered (stopped p requeued) covers t ms st e r = cc
  conclude-Counts rendered (stopped p broken) covers t ms st e r = cc
  conclude-Counts rendered (stopped p (apply_failed message)) covers t ms st e r =
      cc (r, returned_by-error _)

  pass_over-Counts :
      (p : Pass S) (active : List ContributorRecord)
      (rendered : List (ContributorRecord × Contribution))
      → render_all outside target active ≡ some rendered
      → Counts
          (refs (statuses active))
          (pass_over outside target world version_after attempts p active (some rendered))
  pass_over-Counts p active rendered made =
      let claims =
        detect_path_conflicts outside.hash_value (contributions outside target rendered) in
      let l = pass_loop outside target world version_after attempts active claims zero rendered p in
      subst
        (λ cs. Counts (refs (statuses cs)) (conclude outside target world version_after attempts l))
        (render_all-pairs outside target active rendered made)
        (conclude-Counts rendered l (
          pass_loop-Covers outside target world version_after attempts active claims zero rendered
            p))

  pass_after-Counts :
      (t : ℕ) (memory : Versioned) (active : List ContributorRecord)
      → (rendered : List (ContributorRecord × Contribution))
      → render_all outside target active ≡ some rendered
      → (o : S × Bool)
      → Counts
          (refs (statuses active))
          (pass_after outside target world version_after attempts t memory active o)
  pass_after-Counts t memory active rendered made (s, true) =
      let p = start_pass outside target world version_after attempts s t memory in
      subst
        (λ r.
          Counts (refs (statuses active))
            (pass_over outside target world version_after attempts p active r))
        (sym made) (pass_over-Counts p active rendered made)
  pass_after-Counts t memory active rendered made (s, false) = λ at ms st e r. cc

  -- If the contribution of each contributor that is not being deleted can be rendered, then a pass that returns no error and whose status
  -- write lands lists exactly the contributors there that are not being deleted, in their order, and
  -- counts them, whatever the appliers answer.
  pub reconcile_contributions-Counts :
      (t : ℕ) (memory : Versioned) (contributors : List ContributorRecord) (s : S)
      → (rendered : List (ContributorRecord × Contribution)) → (at ms : ℕ) (st : TrackerStatus)
      → render_all outside target (staying contributors) ≡ some rendered
      → (reconcile_contributions outside target world version_after attempts t memory contributors
          s).write
        ≡ some (landed at st)
      → (reconcile_contributions outside target world version_after attempts t memory contributors
          s).returned
        ≡ requeue_after ms
      → (refs st.contributors ≡ refs (statuses (staying contributors)))
        × (st.contributor_count ≡ length (refs (statuses (staying contributors))))
  unfolding reconcile_contributions
  reconcile_contributions-Counts t memory contributors s rendered at ms st made =
      rw (sym (split_releasing-staying contributors)) (
        pass_after-Counts t memory (split_releasing contributors).1 rendered
          (ap (render_all outside target) (split_releasing-staying contributors) ∙ made) _ at ms st)

  -- A pass in which some active contribution cannot be rendered, and whose status write lands, leaves
  -- no contributor in the status at all, and the count 0.
  pub reconcile_contributions-unrendered :
      (t : ℕ) (memory : Versioned) (contributors : List ContributorRecord) (s : S)
      → render_all outside target (split_releasing contributors).1 ≡ none
      → (at : ℕ) (st : TrackerStatus)
      → (reconcile_contributions outside target world version_after attempts t memory contributors
          s).write
        ≡ some (landed at st)
      → (st.contributors ≡ []) × (st.contributor_count ≡ 0)
  unfolding reconcile_contributions unrendered
  reconcile_contributions-unrendered t memory contributors s unmade at st =
      lost t memory (split_releasing contributors).1 unmade at st _
    where
      lost :
          (t : ℕ) (memory : Versioned) (active : List ContributorRecord)
          → render_all outside target active ≡ none
          → (at : ℕ) (st : TrackerStatus) (o : S × Bool)
          → (pass_after outside target world version_after attempts t memory active o).write
            ≡ some (landed at st)
          → (st.contributors ≡ []) × (st.contributor_count ≡ 0)
      lost t memory active unmade at st (s, false) e = cc
      lost t memory active unmade at st (s, true) e =
          let p = start_pass outside target world version_after attempts s t memory in
          let m : Versioned = record memory {
            status = invalid_spec outside target world version_after attempts p;
          } in
          landed-refs world attempts t m [] [] (write_status world attempts t m (some []) []) at st
            (write_status-IsMutated world attempts t m (some []) [])
            (some-injective (rw unmade at e))
