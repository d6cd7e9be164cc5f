-- ===== src/Apply/Client/Applier/Laws.antt =====
-- internal/apply/csa.go: what the client-side applier reports, and what it leaves alone.
use patch_operator.Base.{
  ◌≡◌, ◌≢◌, ◌⊎◌, ◌∙◌, refl, sym, ap, inl, inr, Bool, true, false, Option, none, some, Text,
  Bool-cases, if-then, if-else,
}
use patch_operator.Json.{Json, obj, Fields, end}
use patch_operator.Render.{Target}
use patch_operator.Tracker.Appliers.{Request, RevertRequest, Report, ApplyAnswer, answered, absent}
use patch_operator.Apply.Client.{Updated, broken, unchanged, written, revert_paths}
use patch_operator.Apply.Client.Applier.{
  Fetched, there, missing, unreadable, Stored, stored, taken, gone, clashes, fails, Targets,
  LawfulTargets, answer_stored, answer_write, content_of, create_content, create_target,
  write_updated, apply_fetched, apply_client, revert_fetched, revert_client, client_applier,
}

abbrev report_in : Report → ApplyAnswer → Report
report_in other (answered r) = r
report_in other x = other

pub answered-injective : {a b : Report} → answered a ≡ answered b → a ≡ b
answered-injective {a = a} e = ap (report_in a) e

module _ {S : Type 0} (targets : Targets S) (encode : Json → Text)
    (same_content : Json → Json → Bool) where
  module _ {held : S → Target → Option Json} (law : LawfulTargets targets held) where
    -- What a tracker learns from a report: the target was there exactly if it is not reported as
    -- created, which needs the permission to create; the paths are those of the contribution, the
    -- capture of priors is over, without any where the target was created, and there is no conflict.
    pub record Tells (s : S) (req : Request) (r : Report) : Type 0 where
      pub origin :
          ((r.created ≡ true)
            × ((held s req.target ≡ none) × ((req.allow_create ≡ true) × (r.prior_values ≡ end))))
          ⊎ ((r.created ≡ false) × ((d : Json) × (held s req.target ≡ some d)))
      pub paths : r.owned_paths ≡ req.contribution.paths
      pub captured : r.prior_values_captured ≡ true
      pub no_conflict : r.conflict ≡ none

    created-Tells :
        (s : S) (req : Request) (x : Stored) (r : Report)
        → held s req.target ≡ none
        → req.allow_create ≡ true
        → answer_stored targets encode same_content req true end x ≡ answered r
        → Tells s req r
    created-Tells s req (stored d) r blank may e =
        let same = answered-injective e in
        record {
          origin =
              inl (
                ap (λ x. x.created) (sym same),
                (blank, (may, ap (λ x. x.prior_values) (sym same))),
              );
          paths = ap (λ x. x.owned_paths) (sym same);
          captured = ap (λ x. x.prior_values_captured) (sym same);
          no_conflict = ap (λ x. x.conflict) (sym same);
        }
    created-Tells s req taken r blank may e = cc e
    created-Tells s req gone r blank may e = cc e
    created-Tells s req clashes r blank may e = cc e
    created-Tells s req (fails message) r blank may e = cc e

    updated-Tells :
        (s : S) (req : Request) (priors : Fields) (live : Json) (x : Stored) (r : Report)
        → held s req.target ≡ some live
        → answer_stored targets encode same_content req false priors x ≡ answered r
        → Tells s req r
    updated-Tells s req priors live (stored d) r known e =
        let same = answered-injective e in
        record {
          origin = inr (ap (λ x. x.created) (sym same), (live, known));
          paths = ap (λ x. x.owned_paths) (sym same);
          captured = ap (λ x. x.prior_values_captured) (sym same);
          no_conflict = ap (λ x. x.conflict) (sym same);
        }
    updated-Tells s req priors live taken r known e = cc e
    updated-Tells s req priors live gone r known e = cc e
    updated-Tells s req priors live clashes r known e = cc e
    updated-Tells s req priors live (fails message) r known e = cc e

    create_content-Tells :
        (s : S) (req : Request) (content : Option Fields) (r : Report)
        → held s req.target ≡ none
        → req.allow_create ≡ true
        → (create_content targets encode same_content req s content).1 ≡ answered r
        → Tells s req r
    create_content-Tells s req none r blank may e = cc e
    create_content-Tells s req (some content) r blank may e =
        created-Tells s req
          (targets.create s req.target (obj (targets.identified req.target content))).1 r blank may
          e

    write_updated-Tells :
        (s : S) (req : Request) (live : Json) (u : Updated) (r : Report)
        → held s req.target ≡ some live
        → (write_updated targets encode same_content req live s u).1 ≡ answered r
        → Tells s req r
    write_updated-Tells s req live broken r known e = cc e
    write_updated-Tells s req live (unchanged priors) r known e =
        updated-Tells s req priors live (stored live) r known e
    write_updated-Tells s req live (written d priors) r known e =
        updated-Tells s req priors live (targets.update s req.target d).1 r known e

    Fetched-cases :
        (f : Fetched)
        → ((d : Json) × (f ≡ there d)) ⊎ ((f ≡ missing) ⊎ ((m : Text) × (f ≡ unreadable m)))
    Fetched-cases (there d) = inl (d, refl)
    Fetched-cases missing = inr (inl refl)
    Fetched-cases (unreadable m) = inr (inr (m, refl))

    -- The client-side applier, when it answers with a report, reports a target as created only if
    -- it was not there and may be created, and then without priors, and as not created only if it
    -- was there; it owns the paths of the contribution, has captured the priors, and tells of no
    -- conflict.
    pub apply_client-Tells :
        (s : S) (req : Request) (r : Report)
        → (apply_client targets encode same_content s req).1 ≡ answered r
        → Tells s req r
    unfolding apply_client
    apply_client-Tells s req r e = elim (Fetched-cases (targets.get s req.target)) [
      | inl (live, known) ↦ write_updated-Tells s req live _ r (law.get-there known) (rw known at e)
      | inr (inr (m, bad)) ↦ cc (rw bad at e)
      | inr (inl blank) ↦ elim (Bool-cases req.allow_create) [
        | inl may ↦
            create_content-Tells s req (content_of targets encode same_content req req.base) r
              (law.get-missing blank) may
              (sym (
                  ap (λ x. x.1)
                    (ap (apply_fetched targets encode same_content req s) blank
                      ∙ if-then req.allow_create (create_target targets encode same_content req s)
                          (s, absent) may))
                ∙ e)
        | inr may_not ↦ cc (
            sym (
              ap (λ x. x.1)
                (ap (apply_fetched targets encode same_content req s) blank
                  ∙ if-else req.allow_create (create_target targets encode same_content req s)
                      (s, absent) may_not))
            ∙ e)
      ]
    ]

    answer_write-state :
        (req : Request) (created : Bool) (priors : Fields) (x : S × Stored)
        → (answer_write targets encode same_content req created priors x).0 ≡ x.0
    answer_write-state req created priors (s, outcome) = refl

    create_content-elsewhere :
        (s : S) (req : Request) (content : Option Fields) (u : Target)
        → u ≢ req.target
        → held (create_content targets encode same_content req s content).0 u ≡ held s u
    create_content-elsewhere s req none u other = refl
    create_content-elsewhere s req (some content) u other =
        law.create-elsewhere s req.target (obj (targets.identified req.target content)) u other

    write_updated-elsewhere :
        (s : S) (req : Request) (live : Json) (x : Updated) (u : Target)
        → u ≢ req.target
        → held (write_updated targets encode same_content req live s x).0 u ≡ held s u
    write_updated-elsewhere s req live broken u other = refl
    write_updated-elsewhere s req live (unchanged priors) u other = refl
    write_updated-elsewhere s req live (written d priors) u other =
        law.update-elsewhere s req.target d u other

    apply_fetched-elsewhere :
        (s : S) (req : Request) (f : Fetched) (u : Target)
        → u ≢ req.target
        → held (apply_fetched targets encode same_content req s f).0 u ≡ held s u
    unfolding create_target
    apply_fetched-elsewhere s req (there live) u other =
        write_updated-elsewhere s req live _ u other
    apply_fetched-elsewhere s req (unreadable m) u other = refl
    apply_fetched-elsewhere s req missing u other = elim (Bool-cases req.allow_create) [
      | inl may ↦
          ap (λ x. held x.0 u)
            (if-then req.allow_create (create_target targets encode same_content req s) (s, absent)
              may)
          ∙ create_content-elsewhere s req (content_of targets encode same_content req req.base) u
              other
      | inr may_not ↦
          ap (λ x. held x.0 u)
            (if-else req.allow_create (create_target targets encode same_content req s) (s, absent)
              may_not)
    ]

    revert_fetched-elsewhere :
        (s : S) (req : RevertRequest) (f : Fetched) (u : Target)
        → u ≢ req.target
        → held (revert_fetched targets encode same_content req s f).0 u ≡ held s u
    revert_fetched-elsewhere s req missing u other = refl
    revert_fetched-elsewhere s req (unreadable m) u other = refl
    revert_fetched-elsewhere s req (there live) u other =
        let desired = revert_paths req.owned_paths req.prior_values live in
        elim (Bool-cases (same_content live desired)) [
          | inl same ↦ rw same refl
          | inr differs ↦ rw differs (law.update-elsewhere s req.target desired u other)
        ]

    -- Neither an apply nor a revert of the client-side applier changes another target than the one
    -- that it is asked for.
    pub client_applier-elsewhere :
        (s : S) (req : Request) (back : RevertRequest) (u : Target)
        → u ≢ req.target
        → u ≢ back.target
        → (held ((client_applier targets encode same_content).apply s req).0 u ≡ held s u)
          × (held ((client_applier targets encode same_content).revert s back).0 u ≡ held s u)
    unfolding apply_client revert_client
    client_applier-elsewhere s req back u other away = (
      apply_fetched-elsewhere s req (targets.get s req.target) u other,
      revert_fetched-elsewhere s back (targets.get s back.target) u away,
    )
