-- ===== src/Api/Identity.antt =====
-- api/v1alpha1/identity.go: the identity of the principal that a contributor was admitted for.
-- `decode_identity` is `json.Unmarshal` into a `RecordedIdentity`, none for an error.
use patch_operator.Base.{Option, none, some, List, [], Text, codes, ◌==◌, if◌then◌else◌}
use patch_operator.Api.PatchStatus.{Annotations}

-- `RecordedIdentity`, and `authenticationv1.UserInfo`, which has the same fields
pub record UserInfo : Type 0 where
  pub username : Text
  pub uid : Text
  pub groups : List Text
  pub extra : List (Text × List Text)

-- `AuthorizedAsAnnotation`
abbrev pub authorized_as_annotation : Text
authorized_as_annotation = codes "terasky.com/authorized-as"

-- `AuthorizedIdentityAnnotation`
abbrev pub authorized_identity_annotation : Text
authorized_identity_annotation = codes "terasky.com/authorized-identity"

-- a principal of which only the name is known
abbrev pub named_user : Text → UserInfo
named_user name = record { username = name; uid = []; groups = []; extra = [] }

abbrev pub named_by : Text → Option UserInfo
named_by username = if username == [] then none else some (named_user username)

abbrev pub or_named : Text → Option UserInfo → Option UserInfo
or_named username none = named_by username
or_named username (some stored) = if stored.username == [] then named_by username else some stored

-- `IdentityFromAnnotations`; none is that nothing was recorded
unfoldable pub identity_from_annotations : (Text → Option UserInfo) → Annotations → Option UserInfo
identity_from_annotations decode_identity annotations =
    if annotations authorized_identity_annotation == []
    then named_by (annotations authorized_as_annotation)
    else or_named (annotations authorized_as_annotation)
        (decode_identity (annotations authorized_identity_annotation))
