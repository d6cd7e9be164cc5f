-- ===== src/Controller/Reauthorize.antt =====
-- internal/controller/contributor_controller.go: `reauthorize`. The `Authorizer` is a parameter: it
-- answers with whether the identity is allowed and a reason, or fails. Durations and times are in
-- milliseconds.
use patch_operator.Base.{
  ℕ, ◌+◌, ◌-◌, Bool, false, Option, none, some, [], Text, codes, ltb, eqb, if◌then◌else◌,
}
use patch_operator.Api.{yes_status, no_status, Contributor}
use patch_operator.Api.Identity.{UserInfo, identity_from_annotations}
use patch_operator.Api.PatchStatus.{PatchObject}
use patch_operator.Controller.Sync.{set_cond}

pub record Permission : Type 0 where
  pub allowed : Bool
  pub reason : Text

abbrev pub Reauthorizer : Type 0
Reauthorizer = UserInfo → Contributor → Option Permission

-- What `reauthorize` comes to before its write: the time to come back and nothing to write, an
-- error, or the time and the object to write.
pub data Reauthorized : Type 0 where
  unchanged : ℕ → Reauthorized
  failed : Reauthorized
  rewritten : ℕ → PatchObject → Reauthorized

-- the verdict, in the status
unfoldable pub with_permission : ℕ → Text → Permission → PatchObject → PatchObject
unfolding set_cond
with_permission now principal p o = record o {
  status =
      if p.allowed
      then set_cond now (codes "Authorized") yes_status (codes "Authorized") []
          (record o.status { authorized_as = principal; last_authorized_time = some now })
      else set_cond now (codes "Authorized") no_status (codes "Unauthorized") p.reason
          (record o.status { authorized_as = principal });
}

module _ (decode_identity : Text → Option UserInfo) (after now : ℕ) where
  abbrev pub asked : UserInfo → PatchObject → Option Permission → Reauthorized
  asked user o none = failed
  asked user o (some p) = rewritten after (with_permission now user.username p o)

  -- the last success is recent
  abbrev pub is_recent : Option ℕ → Bool
  is_recent none = false
  is_recent (some t) = ltb now (t + after)

  abbrev pub time_left : Option ℕ → ℕ
  time_left none = after
  time_left (some t) = t + after - now

  abbrev pub reauthorize_as : Reauthorizer → PatchObject → Option UserInfo → Reauthorized
  reauthorize_as authorizer o none = unchanged after
  reauthorize_as authorizer o (some user) =
      if is_recent o.status.last_authorized_time
      then unchanged (time_left o.status.last_authorized_time)
      else asked user o (authorizer user o.contributor)

  -- `reauthorize`, up to its write
  unfoldable pub reauthorize : Option Reauthorizer → PatchObject → Reauthorized
  unfolding identity_from_annotations with_permission
  reauthorize none o = unchanged 0
  reauthorize (some authorizer) o =
      if eqb after 0
      then unchanged 0
      else reauthorize_as authorizer o (identity_from_annotations decode_identity o.annotations)
