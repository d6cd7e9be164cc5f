-- ===== src/Tracker/Lifecycle/Unfenced.antt =====
-- internal/controller/tracker_controller.go: the status that a reconciliation of a tracker that is not
-- fenced leaves.
use patch_operator.Base.{
  ℕ, any, subst, is_some, zero, suc, ◌≡◌, refl, sym, ap, inl, inr, Bool, true, false, ◌&&◌, not,
  Option, none, some, List, [], ◌∷◌, Text, codes, Bool-cases, Option-cases, if-then, if-else,
  if◌then◌else◌,
}
use patch_operator.Api.{no_status}
use patch_operator.Api.Status.{TrackerPhase, TrackerStatus, ContributorStatus, is_fenced}
use patch_operator.Render.{Target, Contribution}
use patch_operator.Tracker.Conflicts.{detect_path_conflicts}
use patch_operator.Tracker.Writes.{Versioned, World, Written, write_status}
use patch_operator.Tracker.Records.{ContributorRecord}
use patch_operator.Tracker.Appliers.{Outside}
use patch_operator.Tracker.Withdraw.{release_all, split_releasing, maybe_delete_target}
use patch_operator.Tracker.Pass.Step.{
  Pass, requeued, broken, apply_failed, Turn, kept, halted, with_condition, turn,
}
use patch_operator.Tracker.Pass.Unfenced.{
  IsFree, WritesFree, ShowsFree, TurnsFree, turn-IsFree, write_status-IsFree,
}
use patch_operator.Tracker.Pass.{
  Loop, completed, stopped, with_record, contributions, loop_on, pass_loop, settled_status,
  conclude, invalid_spec, unrendered, pass_over, start_pass, pass_after, render_all,
  reconcile_contributions,
}
use patch_operator.Tracker.Lifecycle.{
  Act, adds_finalizer, removes_finalizer, writes_status, Reply, done, not_found, refused,
  Reconciled, Object, after_update, status_written, reconcile_empty, with_phase, is_none_listed,
  is_releasing, drop_finalizer, after_effect, reconcile_delete, on_listed, add_finalizer,
  finish_promotion, reconcile,
}

abbrev pub WritesFreeIf : Option Written → Type 0
WritesFreeIf none = Unit {0}
WritesFreeIf (some w) = WritesFree w

abbrev LoopsFree : {S : Type 0} → Loop S → Type 0
LoopsFree (completed p records) = IsFree p.memory.status
LoopsFree (stopped p halt) = IsFree p.memory.status

with_record-IsFree :
    {S : Type 0} (rec : ContributorStatus) (l : Loop S)
    → LoopsFree l
    → LoopsFree (with_record rec l)
with_record-IsFree rec (completed p records) h = h
with_record-IsFree rec (stopped p halt) h = h

module _ {S W : Type 0} (outside : Outside S W) (target : Target) (world : World)
    (shows : ShowsFree world) (version_after : ℕ → ℕ) (attempts : ℕ) where
  loop_on-IsFree :
      (rest : Pass S → Loop S) (t : Turn S)
      → ((p : Pass S) → IsFree p.memory.status → LoopsFree (rest p))
      → TurnsFree t
      → LoopsFree (loop_on outside target world version_after attempts rest t)
  loop_on-IsFree rest (kept p rec) h free = with_record-IsFree rec (rest p) (h p free)
  loop_on-IsFree rest (halted p halt) h free = free

  pass_loop-IsFree :
      (active : List ContributorRecord) (path_claims : List (Text × List ℕ)) (i : ℕ)
      → (rendered : List (ContributorRecord × Contribution)) (p : Pass S) → IsFree p.memory.status
      → LoopsFree
          (pass_loop outside target world version_after attempts active path_claims i rendered p)
  unfolding pass_loop
  pass_loop-IsFree active path_claims i [] p free = free
  pass_loop-IsFree active path_claims i ((c, contribution) ∷ rendered) p free =
      loop_on-IsFree
        (pass_loop outside target world version_after attempts active path_claims (suc i) rendered)
        (turn outside target world version_after attempts i active path_claims c contribution p)
        (λ q h. pass_loop-IsFree active path_claims (suc i) rendered q h)
        (turn-IsFree world shows outside target version_after attempts i active path_claims c
          contribution p free)

  settled_status-IsFree :
      (p : Pass S)
      → IsFree p.memory.status
      → IsFree (settled_status outside target world version_after attempts p)
  unfolding settled_status with_condition
  settled_status-IsFree p free = elim (Bool-cases p.target_exists) [
    | inr missing ↦ rw missing free
    | inl there ↦ elim (Bool-cases p.any_conflict) [
      | inl clash ↦ rw (there, clash) free
      | inr clear ↦ rw (there, clear) free
    ]
  ]

  conclude-WritesFree :
      (l : Loop S)
      → LoopsFree l
      → WritesFreeIf (conclude outside target world version_after attempts l).write
  unfolding conclude with_condition
  conclude-WritesFree (completed p records) free =
      write_status-IsFree world shows attempts p.instant
        (record p.memory { status = settled_status outside target world version_after attempts p })
        (some records) p.conflicts (settled_status-IsFree p free)
  conclude-WritesFree (stopped p requeued) free = tt
  conclude-WritesFree (stopped p broken) free = tt
  conclude-WritesFree (stopped p (apply_failed message)) free =
      write_status-IsFree world shows attempts p.instant
        (record p.memory {
          status =
              with_condition (outside.now p.instant) (codes "Synced") no_status
                (codes "ApplyFailed") message p.memory.status;
        })
        none p.conflicts free

  unrendered-WritesFree :
      (p : Pass S)
      → IsFree p.memory.status
      → WritesFreeIf (unrendered outside target world version_after attempts p).write
  unfolding unrendered invalid_spec with_condition
  unrendered-WritesFree p free =
      write_status-IsFree world shows attempts p.instant
        (record p.memory { status = invalid_spec outside target world version_after attempts p })
        (some []) p.conflicts free

  pass_over-WritesFree :
      (p : Pass S) (active : List ContributorRecord)
      → (rendered : Option (List (ContributorRecord × Contribution))) → IsFree p.memory.status
      → WritesFreeIf (pass_over outside target world version_after attempts p active rendered).write
  pass_over-WritesFree p active none free = unrendered-WritesFree p free
  pass_over-WritesFree p active (some rendered) free = conclude-WritesFree _ (
      pass_loop-IsFree active
        (detect_path_conflicts outside.hash_value (contributions outside target rendered)) zero
        rendered p free)

  pass_after-WritesFree :
      (t : ℕ) (memory : Versioned) (active : List ContributorRecord) (x : S × Bool)
      → IsFree memory.status
      → WritesFreeIf
          (pass_after outside target world version_after attempts t memory active x).write
  pass_after-WritesFree t memory active (s, true) free =
      pass_over-WritesFree (start_pass outside target world version_after attempts s t memory)
        active (render_all outside target active) free
  pass_after-WritesFree t memory active (s, false) free = tt

  reconcile_contributions-WritesFree :
      (t : ℕ) (memory : Versioned) (contributors : List ContributorRecord) (s : S)
      → IsFree memory.status
      → WritesFreeIf
          (reconcile_contributions outside target world version_after attempts t memory contributors
            s).write
  unfolding reconcile_contributions
  reconcile_contributions-WritesFree t memory contributors s free =
      pass_after-WritesFree t memory (split_releasing contributors).1 _ free

-- An act writes the status of the tracker.
abbrev pub is_status_write : Act → Bool
is_status_write (writes_status st) = true
is_status_write act = false

-- No act writes the status, and what the status write leaves points to no successor.
abbrev pub SetsNoFence : {S : Type 0} → Reconciled S → Type 0
SetsNoFence r = (any is_status_write r.acts ≡ false) × WritesFreeIf r.write

unfenced-IsFree : (st : TrackerStatus) → is_fenced st ≡ false → IsFree st
unfenced-IsFree st h = elim (Option-cases st.promoted_to) [
  | inl free ↦ free
  | inr (ref, fenced) ↦ cc (h, ap is_some fenced)
]

module _ {S : Type 0} (reply : Act → Reply) where
  after_update-SetsNoFence : (s : S) (r : Reply) → SetsNoFence (after_update reply s r)
  after_update-SetsNoFence s done = (refl, tt)
  after_update-SetsNoFence s not_found = (refl, tt)
  after_update-SetsNoFence s refused = (refl, tt)

  drop_finalizer-SetsNoFence : (b : Bool) (s : S) → SetsNoFence (drop_finalizer reply b s)
  drop_finalizer-SetsNoFence true s = (refl, tt)
  drop_finalizer-SetsNoFence false s = (refl, tt)

  add_finalizer-SetsNoFence :
      {W : Type 0} (outside : Outside S W) (target : Target) (world : World)
      → (version_after : ℕ → ℕ) (attempts t : ℕ) (successor : Reply) (s : S) (r : Reply)
      → SetsNoFence
          (add_finalizer reply outside target world version_after attempts t successor s r)
  add_finalizer-SetsNoFence outside target world version_after attempts t successor s done =
      (refl, tt)
  add_finalizer-SetsNoFence outside target world version_after attempts t successor s not_found =
      (refl, tt)
  add_finalizer-SetsNoFence outside target world version_after attempts t successor s refused =
      (refl, tt)

  after_effect-SetsNoFence :
      (next : S → Reconciled S) (x : S × Bool)
      → ((s : S) → SetsNoFence (next s))
      → SetsNoFence (after_effect reply next x)
  after_effect-SetsNoFence next (s, true) h = h s
  after_effect-SetsNoFence next (s, false) h = (refl, tt)

  reconcile_empty-SetsNoFence :
      (world : World) (attempts t : ℕ) (memory : Versioned) (s : S)
      → ShowsFree world
      → IsFree memory.status
      → SetsNoFence (reconcile_empty reply world attempts t memory s)
  unfolding reconcile_empty
  reconcile_empty-SetsNoFence world attempts t memory s shows free =
      let going = is_none_listed memory.status && not (is_releasing memory.status.phase) in
      let retires = after_update reply s (reply removes_finalizer) in
      let written =
        write_status world attempts t (with_phase TrackerPhase.releasing memory) none [] in
      let stays = status_written reply s written in
      elim (Bool-cases going) [
        | inl e ↦
            subst SetsNoFence (sym (if-then going retires stays e))
              (after_update-SetsNoFence s (reply removes_finalizer))
        | inr e ↦ subst SetsNoFence (sym (if-else going retires stays e)) (
          refl,
          write_status-IsFree world shows attempts t (with_phase TrackerPhase.releasing memory) none
              [] free,
        )
      ]

  module _ {W : Type 0} (outside : Outside S W) (target : Target) (world : World)
      (shows : ShowsFree world) (version_after : ℕ → ℕ) (attempts t : ℕ) (successor : Reply) where
    reconcile_delete-SetsNoFence :
        (o : Object) (listed : Option (List ContributorRecord)) (s : S)
        → SetsNoFence (reconcile_delete reply outside target o listed s)
    unfolding reconcile_delete
    reconcile_delete-SetsNoFence o none s = (refl, tt)
    reconcile_delete-SetsNoFence o (some contributors) s =
        after_effect-SetsNoFence
          (λ released.
            after_effect reply (drop_finalizer reply o.has_finalizer)
              (maybe_delete_target outside target o.memory.status contributors released))
          (release_all outside target contributors s)
          (λ released.
            after_effect-SetsNoFence (drop_finalizer reply o.has_finalizer)
              (maybe_delete_target outside target o.memory.status contributors released)
              (λ u. drop_finalizer-SetsNoFence o.has_finalizer u))

    on_listed-SetsNoFence :
        (o : Object) (listed : Option (List ContributorRecord)) (s : S)
        → IsFree o.memory.status
        → SetsNoFence
            (on_listed reply outside target world version_after attempts t successor o listed s)
    on_listed-SetsNoFence o none s free = (refl, tt)
    on_listed-SetsNoFence o (some []) s free =
        reconcile_empty-SetsNoFence world attempts t o.memory s shows free
    on_listed-SetsNoFence o (some (c ∷ cs)) s free = (
      refl,
      reconcile_contributions-WritesFree outside target world shows version_after attempts t
          o.memory (c ∷ cs) s free,
    )

    -- A reconciliation of a tracker that is not fenced, while no status of it that the API server
    -- shows is fenced, sets no fence: no act of it writes a status, and what its status write
    -- leaves, if it lands, points to no successor.
    pub reconcile-SetsNoFence :
        (o : Object) (listed : Option (List ContributorRecord)) (s : S)
        → is_fenced o.memory.status ≡ false
        → SetsNoFence
            (reconcile reply outside target world version_after attempts t successor o listed s)
    unfolding reconcile
    reconcile-SetsNoFence o listed s unfenced =
        let free = unfenced-IsFree o.memory.status unfenced in
        let deletes = reconcile_delete reply outside target o listed s in
        let lists =
          on_listed reply outside target world version_after attempts t successor o listed s in
        let adds =
          add_finalizer reply outside target world version_after attempts t successor s
            (reply adds_finalizer) in
        let held = if o.has_finalizer then lists else adds in
        let held_sets : SetsNoFence held = elim (Bool-cases o.has_finalizer) [
          | inl e ↦
              subst SetsNoFence (sym (if-then o.has_finalizer lists adds e))
                (on_listed-SetsNoFence o listed s free)
          | inr e ↦ subst SetsNoFence (sym (if-else o.has_finalizer lists adds e)) (
              add_finalizer-SetsNoFence outside target world version_after attempts t successor s
                (reply adds_finalizer))
        ] in
        let unlocked = if o.deleting then deletes else held in
        let unlocked_sets : SetsNoFence unlocked = elim (Bool-cases o.deleting) [
          | inl e ↦
              subst SetsNoFence (sym (if-then o.deleting deletes held e))
                (reconcile_delete-SetsNoFence o listed s)
          | inr e ↦ subst SetsNoFence (sym (if-else o.deleting deletes held e)) held_sets
        ] in
        subst SetsNoFence
          (sym (
            if-else (is_fenced o.memory.status) (finish_promotion reply o successor s) unlocked
              unfenced))
          unlocked_sets
