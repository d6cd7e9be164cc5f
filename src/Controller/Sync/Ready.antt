-- ===== src/Controller/Sync/Ready.antt =====
-- internal/controller/contributor_controller.go: when a contributor is ready.
use patch_operator.Base.{
  ℕ, ◌≤◌, ◌≡◌, ◌≢◌, ◌↔◌, ◌∙◌, refl, sym, ap, inl, inr, Bool, true, false, Option, none, some,
  some-injective, List, [], ◌∷◌, Text, codes, ◌==◌, length, ltb, arith, Bool-cases, Option-cases,
}
use patch_operator.Api.{Condition, ConditionStatus, yes_status, TrackerRef}
use patch_operator.Api.Conditions.{same_status, get_condition}
use patch_operator.Api.Conditions.Laws.{settled, timed, set_condition-get}
use patch_operator.Api.PatchStatus.{PatchStatus, PatchObject}
use patch_operator.Api.Refs.{contributor_ref_of}
use patch_operator.Scope.{TargetKey}
use patch_operator.Registration.Calls.{ApiServer}
use patch_operator.Controller.Sync.{
  set_cond, bool_condition, StateCounts, no_counts, count_all, observe_all, with_ready, sync_status,
}
use patch_operator.Controller.Sync.Tally.{AppliedAll, IsClean, count_all-IsClean, count_all-applied}

abbrev yes_in : Option Condition → Bool
yes_in none = false
yes_in (some c) = same_status c.status yes_status

-- The condition Ready is there and true.
abbrev pub is_ready : PatchStatus → Bool
is_ready status = yes_in (get_condition status.conditions (codes "Ready"))

settled-status : (c : Condition) (old : Option Condition) → (settled c old).status ≡ c.status
settled-status c none = refl
settled-status c (some d) = elim (Bool-cases (same_status d.status c.status)) [
  | inl same ↦ rw same refl
  | inr other ↦ rw other refl
]

timed-status : (now : ℕ) (c : Condition) → (timed now c).status ≡ c.status
timed-status now c = ground arith

set_cond-is_ready :
    (now : ℕ) (cond : ConditionStatus) (reason message : Text) (status : PatchStatus)
    → is_ready (set_cond now (codes "Ready") cond reason message status)
      ≡ same_status cond yes_status
unfolding set_cond ◌==◌
set_cond-is_ready now cond reason message status =
    let c : Condition = record {
      type = codes "Ready";
      status = cond;
      reason = reason;
      message = message;
      last_transition_time = 0;
    } in
    let old = get_condition status.conditions (codes "Ready") in
    rw (set_condition-get now c status.conditions (codes "Ready"))
      (ap (λ x. same_status x yes_status) (settled-status (timed now c) old ∙ timed-status now c))

set_cond-other :
    (now : ℕ) (type : Text) (cond : ConditionStatus) (reason message : Text) (status : PatchStatus)
    → type == codes "Ready" ≡ false
    → is_ready (set_cond now type cond reason message status) ≡ is_ready status
unfolding set_cond
set_cond-other now type cond reason message status other =
    let c : Condition = record {
      type = type;
      status = cond;
      reason = reason;
      message = message;
      last_transition_time = 0;
    } in
    ap yes_in (set_condition-get now c status.conditions (codes "Ready") ∙ rw other refl)

module _ (now : ℕ) (sprintf : Text → List ℕ → Text) {S : Type 0} (api : ApiServer S) where
  -- The switch makes a contributor ready exactly if it has targets, all of them applied.
  with_ready-is_ready :
      (generation total : ℕ) (n : StateCounts) (status : PatchStatus)
      → (is_ready (with_ready api now sprintf generation total n status) ≡ true)
        ↔ ((1 ≤ total) × IsClean n)
  unfolding with_ready set_cond
  with_ready-is_ready generation total n status = elim (Bool-cases (ltb total 1)) [
    | inl few ↦ rw (few, set_cond-is_ready) (ground arith)
    | inr some_there ↦ elim (Bool-cases (ltb 0 n.conflicted)) [
      | inl bad ↦ rw (some_there, bad, set_cond-is_ready) (ground arith)
      | inr ok ↦ elim (Bool-cases (ltb 0 n.superseded)) [
        | inl bad ↦ rw (some_there, ok, bad, set_cond-is_ready) (ground arith)
        | inr ok' ↦ elim (Bool-cases (ltb 0 n.waiting)) [
          | inl bad ↦ rw (some_there, ok, ok', bad, set_cond-is_ready) (ground arith)
          | inr ok'' ↦
              let ready =
                set_cond-is_ready now yes_status (codes "Applied")
                  (sprintf (codes "applied to %d target(s)") (n.applied ∷ [])) status in
              let clean : (1 ≤ total) × IsClean n = ground arith in
              rw (some_there, ok, ok', ok'') (λ h. clean, λ h. ready)
        ]
      ]
    ]
  ]

  no_counts-IsClean : IsClean no_counts
  no_counts-IsClean = (refl, (refl, refl))

  length-some : (keys : List TargetKey) → (1 ≤ length keys) ↔ (keys ≢ [])
  length-some [] = (λ h. absurd (omega (arith, h)), λ h. absurd (h refl))
  length-some (key ∷ keys) = (λ h e. cc e, λ h. omega arith)

  -- `syncStatus`, where it returns no error, leaves a contributor ready exactly if it has targets
  -- and the tracker of each is there and lists it as applied.
  pub sync_status-is_ready :
      (o o' : PatchObject) (keys : List TargetKey) (trackers : List TrackerRef) (s : S)
      → sync_status api now sprintf o keys trackers s ≡ some o'
      → (is_ready o'.status ≡ true)
        ↔ ((keys ≢ []) × AppliedAll api s (contributor_ref_of o.contributor) keys trackers)
  unfolding sync_status ◌==◌
  sync_status-is_ready o o' keys trackers s e =
      let ref = contributor_ref_of o.contributor in
      elim (Option-cases (count_all api s ref keys trackers no_counts)) [
        | inl failed ↦ cc (rw (failed, sync_status) at e)
        | inr (n, counted) ↦
            let base : PatchStatus = record o.status {
              observed_targets = observe_all api s ref keys trackers;
            } in
            let ready = with_ready api now sprintf o.contributor.generation (length keys) n base in
            let conflict : PatchStatus =
              set_cond now (codes "Conflict") (bool_condition (ltb 0 n.conflicted))
                (codes "Conflict") [] ready in
            let status = some-injective (sym (rw (counted, sync_status) at e)) in
            let seen : is_ready o'.status ≡ is_ready ready =
              ap (λ x. is_ready x.status) status
              ∙ set_cond-other now (codes "Synced") yes_status (codes "ReconcileSuccess") []
                  conflict refl
              ∙ set_cond-other now (codes "Conflict") (bool_condition (ltb 0 n.conflicted))
                  (codes "Conflict") [] ready refl in
            let whole = with_ready-is_ready o.contributor.generation (length keys) n base in
            (
              λ h.
                  let (few, clean) = whole.0 (sym seen ∙ h) in
                  (
                    (length-some keys).0 few,
                    (count_all-IsClean api s ref keys trackers no_counts n counted clean).1,
                  ),
              λ h.
                  seen
                  ∙ whole.1 (
                    (length-some keys).1 h.0,
                    count_all-applied api s ref keys trackers no_counts n no_counts-IsClean h.1
                        counted,
                  ),
            )
      ]
