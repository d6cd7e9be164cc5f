-- ===== src/Scope/Names/Tests.antt =====
-- A tracker's name, and the witness on it.
use patch_operator.Base.{◌≡◌, ◌≤◌, refl, [], Text, codes, ◌==◌, to_lower, All, length}
use patch_operator.Scope.{TargetKey}
use patch_operator.Scope.Names.{tracker_name, emitted, sanitize_from}
use patch_operator.Scope.Names.Laws.{IsName, IsNameByte, tracker_name-IsName}

abbrev role : TargetKey
role = record {
  api_version = codes "rbac.authorization.k8s.io/v1";
  kind = codes "ClusterRole";
  namespace = [];
  name = codes "system:basic-user";
}

-- a digest of one digit
abbrev digit_digest : Text → Text
digit_digest s = codes "a"

role_name :
    tracker_name digit_digest role
    ≡ codes "clusterrole.rbac.authorization.k8s.io-system-basic-user-a"
unfolding tracker_name sanitize_from emitted ◌==◌ to_lower
role_name = refl

digits : (s : Text) → All IsNameByte (digit_digest s)
digits s = (refl, tt)

tracker_name-IsName_example :
    IsName (tracker_name digit_digest role) × (length (tracker_name digit_digest role) ≤ 253)
tracker_name-IsName_example = tracker_name-IsName digit_digest role digits
