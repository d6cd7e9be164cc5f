-- ===== src/Webhook/Handler.antt =====
-- internal/webhook/validator.go: `ContributorValidator.Handle` and `decode`. `decode` here is the
-- decoder of apimachinery, none for an error; an empty text is an object that the request does not
-- carry.
use patch_operator.Base.{
  ◌≡◌, ◌↔◌, ◌∙◌, refl, sym, ap, inl, inr, Option, none, some, some-injective, List, [], ◌∷◌, Text,
  ◌==◌, Option-cases, if◌then◌else◌,
}
use patch_operator.Api.{Contributor}
use patch_operator.Api.Identity.{UserInfo}
use patch_operator.Scope.Validate.{IsNamespacedKind, FieldError, validate}
use patch_operator.Webhook.{
  Operation, ResourceFor, Check, Reviewed, Verdict, admitted, failed, denial, checks_for, authorize,
}
use patch_operator.Webhook.Admission.{Moved, WritesAllowed, ReadsApart, admitted_update}

-- `admission.Request`, as far as it is read
pub record AdmissionRequest : Type 0 where
  pub operation : Operation
  pub user : UserInfo
  pub object : Text
  pub old_object : Text

pub data Response : Type 0 where
  allowed denied errored : Response

-- the object and the old object
pub record Decoded : Type 0 where
  pub object : Option Contributor
  pub old_object : Option Contributor

module _ (decode : Text → Option Contributor) where
  abbrev pub wrapped : Option Contributor → Option (Option Contributor)
  wrapped none = none
  wrapped (some c) = some (some c)

  -- an object that is decoded_pair is decoded
  abbrev pub decode_raw : Text → Option (Option Contributor)
  decode_raw raw = if raw == [] then some none else wrapped (decode raw)

  abbrev pub decoded_pair :
      Option (Option Contributor) → Option (Option Contributor) → Option Decoded
  decoded_pair none old = none
  decoded_pair (some c) none = none
  decoded_pair (some none) (some none) = none
  decoded_pair (some none) (some (some old)) =
      some (record { object = none; old_object = some old })
  decoded_pair (some (some c)) (some old) = some (record { object = some c; old_object = old })

  -- `decode`; none is an error
  unfoldable pub decode_request : AdmissionRequest → Option Decoded
  decode_request req = decoded_pair (decode_raw req.object) (decode_raw req.old_object)

  module _ (lookup : Option IsNamespacedKind) (parse_group : Text → Option Text)
      (resource_for : Option ResourceFor) (review : UserInfo → Check → Option Reviewed) where
    -- the errors of the spec of an object that is not being deleted
    abbrev pub spec_errors : Operation → Option Contributor → List FieldError
    spec_errors Operation.delete c = []
    spec_errors operation none = []
    spec_errors operation (some c) = validate lookup c

    abbrev pub response_to : Verdict → Response
    response_to admitted = allowed
    response_to failed = errored
    response_to (denial check) = denied

    abbrev pub respond_checks : UserInfo → Option (List Check) → Response
    respond_checks user none = errored
    respond_checks user (some []) = allowed
    respond_checks user (some (c ∷ checks)) = response_to (authorize (review user) (c ∷ checks))

    abbrev pub respond_valid : AdmissionRequest → Decoded → List FieldError → Response
    respond_valid req d (e ∷ errors) = denied
    respond_valid req d [] =
        respond_checks req.user
          (checks_for parse_group resource_for req.operation d.object d.old_object)

    abbrev pub respond_decoded : AdmissionRequest → Option Decoded → Response
    respond_decoded req none = errored
    respond_decoded req (some d) = respond_valid req d (spec_errors req.operation d.object)

    -- `ContributorValidator.Handle`
    unfoldable pub handle : AdmissionRequest → Response
    unfolding decode_request
    handle req = respond_decoded req (decode_request req)

    response_to-allowed : (v : Verdict) → response_to v ≡ allowed → v ≡ admitted
    response_to-allowed admitted e = refl
    response_to-allowed failed e = cc e
    response_to-allowed (denial check) e = cc e

    -- What an admission rests on: the request can be decoded, the spec has no error, there are
    -- checks, and the requester passes them.
    pub record Admits (req : AdmissionRequest) : Type 0 where
      pub decoded : Decoded
      pub checks : List Check
      pub decodes : decode_request req ≡ some decoded
      pub valid : spec_errors req.operation decoded.object ≡ []
      pub implies :
          checks_for parse_group resource_for req.operation decoded.object decoded.old_object
          ≡ some checks
      pub passes : authorize (review req.user) checks ≡ admitted

    checks-admitted :
        (user : UserInfo) (checks : List Check)
        → respond_checks user (some checks) ≡ allowed
        → authorize (review user) checks ≡ admitted
    unfolding authorize
    checks-admitted user [] e = refl
    checks-admitted user (c ∷ checks) e =
        response_to-allowed (authorize (review user) (c ∷ checks)) e

    admitted-checks :
        (user : UserInfo) (checks : List Check)
        → authorize (review user) checks ≡ admitted
        → respond_checks user (some checks) ≡ allowed
    admitted-checks user [] e = refl
    admitted-checks user (c ∷ checks) e = ap response_to e

    respond_valid-allowed :
        (req : AdmissionRequest) (d : Decoded) (errors : List FieldError)
        → respond_valid req d errors ≡ allowed
        → (errors ≡ [])
          × (respond_checks req.user
                (checks_for parse_group resource_for req.operation d.object d.old_object)
              ≡ allowed)
    respond_valid-allowed req d [] e = (refl, e)
    respond_valid-allowed req d (x ∷ errors) e = cc e

    -- A request is allowed exactly if it can be decoded, the spec of an object that is not being
    -- deleted has no error, the writes that it implies are known, and the requester is authorized
    -- for each of them.
    pub handle-Admits : (req : AdmissionRequest) → (handle req ≡ allowed) ↔ Admits req
    unfolding handle
    handle-Admits req = (
      λ e. elim (Option-cases (decode_request req)) [
        | inl bad ↦ cc (rw bad at e)
        | inr (d, known) ↦
            let (valid, answer) =
              respond_valid-allowed req d (spec_errors req.operation d.object) (rw known at e) in
            elim (Option-cases
              (checks_for parse_group resource_for req.operation d.object d.old_object)) [
                | inl unknown ↦ cc (rw unknown at answer)
                | inr (checks, implied) ↦ record {
                  decoded = d;
                  checks = checks;
                  decodes = known;
                  valid = valid;
                  implies = implied;
                  passes = checks-admitted req.user checks (rw implied at answer);
                }
              ]
      ],
      λ h.
          ap (respond_decoded req) h.decodes
          ∙ ap (respond_valid req h.decoded) h.valid
          ∙ ap (respond_checks req.user) h.implies
          ∙ admitted-checks req.user h.checks h.passes,
    )

    -- An update that is allowed is of an object without an error in its spec, and the requester may
    -- do every write that the new spec implies and, where the target has moved, every write that the
    -- old spec implies, if no check of one of the two specs reads like a different check of the other:
    -- the webhook removes duplicates by their texts.
    pub handle-update :
        (req : AdmissionRequest) (c old : Contributor)
        → req.operation ≡ Operation.update
        → ReadsApart parse_group resource_for (review req.user) c old
        → decode_request req ≡ some (record { object = some c; old_object = some old })
        → handle req ≡ allowed
        → (validate lookup c ≡ [])
          × (WritesAllowed parse_group resource_for (review req.user) c
              × (Moved old.spec.target c.spec.target
                  → WritesAllowed parse_group resource_for (review req.user) old))
    handle-update req c old updating apart known e =
        let h = (handle-Admits req).0 e in
        let d : Decoded = record { object = some c; old_object = some old } in
        let same : h.decoded ≡ d = some-injective (sym h.decodes ∙ known) in
        let valid : spec_errors Operation.update (some c) ≡ [] =
          sym (
            ap (λ x. spec_errors req.operation x.object) same
            ∙ ap (λ o. spec_errors o (some c)) updating)
          ∙ h.valid in
        let implied : checks_for parse_group resource_for Operation.update (some c) (some old)
            ≡ some h.checks =
          sym (
            ap (λ x. checks_for parse_group resource_for req.operation x.object x.old_object) same
            ∙ ap (λ o. checks_for parse_group resource_for o (some c) (some old)) updating)
          ∙ h.implies in
        (
          valid,
          admitted_update parse_group resource_for (review req.user) c old h.checks apart implied
              h.passes,
        )
