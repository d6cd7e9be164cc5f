-- ===== src/Webhook/Recorder.antt =====
-- internal/webhook/mutator.go: `PrincipalRecorder.Handle` and `shouldRecord`. Parameters:
-- `decode_object` is the decoder of apimachinery, `encode_identity` and `decode_identity` are
-- `json.Marshal` and `json.Unmarshal` of a `RecordedIdentity`, `marshals` tells whether
-- `json.Marshal` of the object succeeds, `same_spec` is `apiequality.Semantic.DeepEqual`.
use patch_operator.Base.{
  ◌≡◌, ◌≢◌, ◌∙◌, refl, ap, inl, inr, Bool, true, false, ◌&&◌, not, Option, none, some, is_none, [],
  Text, ◌==◌, eq_iff, eq_refl, Bool-cases, if-then, if-else, if◌then◌else◌,
}
use patch_operator.Api.{ResourcePatchSpec}
use patch_operator.Api.Identity.{
  UserInfo, authorized_as_annotation, authorized_identity_annotation, identity_from_annotations,
}
use patch_operator.Api.PatchStatus.{Annotations, PatchObject}
use patch_operator.Webhook.{Operation}
use patch_operator.Webhook.Handler.{AdmissionRequest}

-- `admission.Allowed`, `admission.Errored`, and the patch to an object
pub data Recording : Type 0 where
  unpatched refused : Recording
  patched : PatchObject → Recording

abbrev pub set_annotation : Text → Text → Annotations → Annotations
set_annotation key value annotations k = if k == key then value else annotations k

eq_false : (s t : Text) → s ≢ t → s == t ≡ false
eq_false s t differ = elim (Bool-cases (s == t)) [
  | inl same ↦ absurd (differ ((eq_iff s t).0 same))
  | inr other ↦ other
]

and_second : (a b : Bool) → (a && b) ≡ true → b ≡ true
and_second true b h = h
and_second false b h = cc h

module _ (decode_object : Text → Option PatchObject) (encode_identity : UserInfo → Text)
    (decode_identity : Text → Option UserInfo) (marshals : PatchObject → Bool)
    (same_spec : ResourcePatchSpec → ResourcePatchSpec → Bool) where
  abbrev pub spec_moved : PatchObject → Option PatchObject → Bool
  spec_moved obj none = true
  spec_moved obj (some old) = not (same_spec old.contributor.spec obj.contributor.spec)

  abbrev pub should_record_update : AdmissionRequest → PatchObject → Bool
  should_record_update req obj =
      if is_none (identity_from_annotations decode_identity obj.annotations)
      then true
      else if req.old_object == []
      then true
      else spec_moved obj (decode_object req.old_object)

  -- `shouldRecord`
  unfoldable pub should_record : Operation → AdmissionRequest → PatchObject → Bool
  unfolding identity_from_annotations
  should_record Operation.create req obj = true
  should_record operation req obj = should_record_update req obj

  -- the annotations with the requester
  unfoldable pub recorded_as : UserInfo → PatchObject → PatchObject
  recorded_as user obj = record obj {
    annotations =
        set_annotation authorized_identity_annotation (encode_identity user)
          (set_annotation authorized_as_annotation user.username obj.annotations);
  }

  abbrev pub is_recorded_as : UserInfo → PatchObject → Bool
  is_recorded_as user obj =
      obj.annotations authorized_as_annotation == user.username
      && obj.annotations authorized_identity_annotation == encode_identity user

  abbrev pub record_on : AdmissionRequest → PatchObject → Recording
  record_on req obj =
      if not (should_record req.operation req obj)
      then unpatched
      else if is_recorded_as req.user obj
      then unpatched
      else if marshals (recorded_as req.user obj)
      then patched (recorded_as req.user obj)
      else refused

  abbrev pub record_decoded : AdmissionRequest → Option PatchObject → Recording
  record_decoded req none = refused
  record_decoded req (some obj) = record_on req obj

  abbrev pub record_raw : AdmissionRequest → Recording
  record_raw req =
      if req.object == [] then unpatched else record_decoded req (decode_object req.object)

  abbrev pub record_operation : Operation → AdmissionRequest → Recording
  record_operation Operation.create req = record_raw req
  record_operation Operation.update req = record_raw req
  record_operation _ req = unpatched

  -- `PrincipalRecorder.Handle`
  unfoldable pub record_principal : AdmissionRequest → Recording
  unfolding should_record recorded_as
  record_principal req = record_operation req.operation req

  -- the annotations of the object after the recording
  abbrev pub annotations_after : PatchObject → Recording → Annotations
  annotations_after obj (patched o) = o.annotations
  annotations_after obj r = obj.annotations

  -- a creation or an update
  abbrev pub is_write : Operation → Bool
  is_write Operation.create = true
  is_write Operation.update = true
  is_write operation = false

  -- The annotations carry the identity of a user as it is encoded.
  CarriesIdentity : UserInfo → Annotations → Type 0
  CarriesIdentity user annotations =
      annotations authorized_identity_annotation ≡ encode_identity user

  identity-read :
      (user : UserInfo) (annotations : Annotations)
      → user.username ≢ []
      → encode_identity user ≢ []
      → decode_identity (encode_identity user) ≡ some user
      → CarriesIdentity user annotations
      → identity_from_annotations decode_identity annotations ≡ some user
  unfolding identity_from_annotations CarriesIdentity
  identity-read user annotations named filled round e =
      let present : encode_identity user == [] ≡ false =
        eq_false (encode_identity user) [] filled in
      let known : user.username == [] ≡ false = eq_false user.username [] named in
      rw (e, present, round, known) refl

  record_operation-raw :
      (operation : Operation) (req : AdmissionRequest)
      → is_write operation ≡ true
      → record_operation operation req ≡ record_raw req
  record_operation-raw Operation.create req h = refl
  record_operation-raw Operation.update req h = refl
  record_operation-raw Operation.delete req h = cc h
  record_operation-raw (Operation.other t) req h = cc h

  record_on-carries :
      (req : AdmissionRequest) (obj : PatchObject)
      → should_record req.operation req obj ≡ true
      → record_on req obj ≢ refused
      → CarriesIdentity req.user (annotations_after obj (record_on req obj))
  unfolding CarriesIdentity recorded_as
  record_on-carries req obj due =
      let o = recorded_as req.user obj in
      let rest = if marshals o then patched o else refused in
      let inner = if is_recorded_as req.user obj then unpatched else rest in
      let first =
        if-else (not (should_record req.operation req obj)) unpatched inner (ap not due) in
      elim (Bool-cases (is_recorded_as req.user obj)) [
        | inl same ↦
            let e : record_on req obj ≡ unpatched =
              first ∙ if-then (is_recorded_as req.user obj) unpatched rest same in
            rw e (λ well.
              (eq_iff (obj.annotations authorized_identity_annotation) (encode_identity req.user)).0
                (and_second (obj.annotations authorized_as_annotation == req.user.username) _ same))
        | inr other ↦
            let e : record_on req obj ≡ rest =
              first ∙ if-else (is_recorded_as req.user obj) unpatched rest other in
            elim (Bool-cases (marshals o)) [
              | inl ok ↦
                  let f : record_on req obj ≡ patched o =
                    e ∙ if-then (marshals o) (patched o) refused ok in
                  rw f (λ well. rw (eq_refl authorized_identity_annotation) refl)
              | inr bad ↦
                  let f : record_on req obj ≡ refused =
                    e ∙ if-else (marshals o) (patched o) refused bad in
                  rw f (λ well. absurd (well refl))
            ]
      ]

  -- After the recorder has handled a creation, or an update that is to be recorded, without an
  -- error, the identity that is read from the annotations of the object is the requester's, if the
  -- requester has a user name, and the encoding of that identity is not empty and reads back.
  pub record_principal-identity :
      (req : AdmissionRequest) (obj : PatchObject)
      → is_write req.operation ≡ true
      → req.object ≢ []
      → decode_object req.object ≡ some obj
      → should_record req.operation req obj ≡ true
      → req.user.username ≢ []
      → encode_identity req.user ≢ []
      → decode_identity (encode_identity req.user) ≡ some req.user
      → record_principal req ≢ refused
      → identity_from_annotations decode_identity (annotations_after obj (record_principal req))
        ≡ some req.user
  unfolding record_principal
  record_principal-identity req obj writes decoded_pair decoded due named filled round well =
      let r = record_on req obj in
      let whole : record_principal req ≡ r =
        record_operation-raw req.operation req writes
        ∙ if-else (req.object == []) unpatched (record_decoded req (decode_object req.object))
            (eq_false req.object [] decoded_pair)
        ∙ ap (record_decoded req) decoded in
      rw whole (
        identity-read req.user (annotations_after obj r) named filled round
          (record_on-carries req obj due (λ e. well (whole ∙ e))))
