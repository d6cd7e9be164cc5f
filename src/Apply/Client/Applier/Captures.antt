-- ===== src/Apply/Client/Applier/Captures.antt =====
-- internal/apply/csa.go: the prior values in the first report on a target that is there.
use patch_operator.Base.{
  ◌≡◌, ◌≢◌, ◌⊎◌, ◌∙◌, refl, sym, ap, subst, inl, inr, Bool, false, Option, none, some, List, [],
  Text, ◌==◌, eq_iff, Bool-cases,
}
use patch_operator.FieldPath.{FieldPath, to_text}
use patch_operator.Json.{Json, obj, Fields, lookup}
use patch_operator.Access.{get}
use patch_operator.Tracker.Appliers.{Request, Report, answered}
use patch_operator.Apply.Client.{
  Updated, broken, unchanged, written, already_wanted, capture, withdraw, set_all, concluded,
  update,
}
use patch_operator.Apply.Client.Laws.{Among, FromLive, capture_complete, capture-source}
use patch_operator.Apply.Client.Applier.{
  there, Stored, stored, taken, gone, clashes, fails, Targets, answer_stored, write_updated,
  apply_client,
}
use patch_operator.Apply.Client.Applier.Laws.{answered-injective}

-- A value is not the one that the contribution wants, by its encoding.
abbrev pub Differs : (Json → Text) → Json → Option Json → Type 0
Differs encode v none = Unit {0}
Differs encode v (some want) = encode v ≢ encode want

Differs-unwanted :
    (encode : Json → Text) (v : Json) (o : Option Json)
    → Differs encode v o
    → already_wanted encode v o ≡ false
Differs-unwanted encode v none h = refl
Differs-unwanted encode v (some want) h = elim (Bool-cases (encode v == encode want)) [
  | inl same ↦ absurd (h ((eq_iff (encode v) (encode want)).0 same))
  | inr other ↦ other
]

-- An update that comes to something has these prior values.
abbrev Carries : Fields → Updated → Type 0
Carries priors broken = Unit {0}
Carries priors (unchanged own) = own ≡ priors
Carries priors (written d own) = own ≡ priors

module _ (encode : Json → Text) (same_content : Json → Json → Bool) where
  concluded-Carries :
      (live : Json) (priors : Fields) (o : Option Json)
      → Carries priors (concluded encode same_content live priors o)
  concluded-Carries live priors none = tt
  concluded-Carries live priors (some d) = elim (Bool-cases (same_content live d)) [
    | inl same ↦ rw same refl
    | inr differs ↦ rw differs refl
  ]

  update-Carries :
      (live contribution : Json) (paths : List FieldPath) (priors : Fields)
      → Carries
          (capture encode live contribution paths priors)
          (update encode same_content live contribution paths [] priors false)
  unfolding update withdraw
  update-Carries live contribution paths priors =
      concluded-Carries live (capture encode live contribution paths priors)
        (set_all contribution paths live)

  -- What the priors of a report hold, of a target with some content.
  pub record Captures (req : Request) (live : Json) (r : Report) : Type 0 where
    pub complete :
        (q : FieldPath) (v : Json)
        → Among encode live (obj req.contribution.object) q req.contribution.paths
        → get live q ≡ some v
        → Differs encode v (get (obj req.contribution.object) q)
        → (w : Json) × (lookup (to_text q) r.prior_values ≡ some w)
    pub source :
        (k : Text) (w : Json)
        → lookup k r.prior_values ≡ some w
        → (lookup k req.prior_values ≡ some w)
          ⊎ FromLive encode live (obj req.contribution.object) k w req.contribution.paths

  capture-Captures :
      (req : Request) (live : Json) (r : Report)
      → r.prior_values
        ≡ capture encode live (obj req.contribution.object) req.contribution.paths req.prior_values
      → Captures req live r
  capture-Captures req live r same =
      let c = obj req.contribution.object in
      let paths = req.contribution.paths in
      record {
        complete = λ q v claims held differs.
            subst (λ m. (w : Json) × (lookup (to_text q) m ≡ some w)) (sym same)
              (capture_complete encode live c paths req.prior_values q v claims held
                (Differs-unwanted encode v (get c q) differs));
        source = λ k w e.
            capture-source encode live c paths req.prior_values k w (sym (ap (lookup k) same) ∙ e);
      }

  module _ {S : Type 0} (targets : Targets S) where
    answer_stored-priors :
        (req : Request) (priors : Fields) (x : Stored) (r : Report)
        → answer_stored targets encode same_content req false priors x ≡ answered r
        → r.prior_values ≡ priors
    answer_stored-priors req priors (stored d) r e =
        ap (λ x. x.prior_values) (answered-injective (sym e))
    answer_stored-priors req priors taken r e = cc e
    answer_stored-priors req priors gone r e = cc e
    answer_stored-priors req priors clashes r e = cc e
    answer_stored-priors req priors (fails message) r e = cc e

    write_updated-priors :
        (s : S) (req : Request) (live : Json) (u : Updated) (priors : Fields) (r : Report)
        → Carries priors u
        → (write_updated targets encode same_content req live s u).1 ≡ answered r
        → r.prior_values ≡ priors
    write_updated-priors s req live broken priors r c e = cc e
    write_updated-priors s req live (unchanged own) priors r c e =
        answer_stored-priors req own (stored live) r e ∙ c
    write_updated-priors s req live (written d own) priors r c e =
        answer_stored-priors req own (targets.update s req.target d).1 r e ∙ c

    -- When the client-side applier answers its first request for a target that is there, with a
    -- report, then each path of the contribution at which the target holds a value that is encoded
    -- differently from the wanted one has a prior value in the report; and each prior value there was
    -- in the request, or is the target's at a path of the contribution with that text. A first request
    -- has nothing captured before, and no paths of an earlier contribution.
    pub apply_client-Captures :
        (s : S) (req : Request) (live : Json) (r : Report)
        → targets.get s req.target ≡ there live
        → req.prior_values_captured ≡ false
        → req.previous_paths ≡ []
        → (apply_client targets encode same_content s req).1 ≡ answered r
        → Captures req live r
    unfolding apply_client
    apply_client-Captures s req live r known fresh first e =
        let c = obj req.contribution.object in
        let paths = req.contribution.paths in
        let u =
          update encode same_content live c paths req.previous_paths req.prior_values
            req.prior_values_captured in
        let carries : Carries (capture encode live c paths req.prior_values) u =
          subst
            (λ p. Carries (capture encode live c paths req.prior_values) (
              update encode same_content live c paths p req.prior_values req.prior_values_captured))
            (sym first)
            (subst
              (λ b.
                Carries (capture encode live c paths req.prior_values)
                  (update encode same_content live c paths [] req.prior_values b))
              (sym fresh) (update-Carries live c paths req.prior_values)) in
        capture-Captures req live r (
          write_updated-priors s req live u (capture encode live c paths req.prior_values) r carries
            (rw known at e))
