-- ===== src/Apply/Tests.antt =====
-- Runs of the server-side applier, and the witnesses.
use patch_operator.Base.{
  true, ◌≤◌, length, ◌≡◌, refl, false, some, [], ◌∷◌, Text, codes, ◌==◌, has_prefix, if◌then◌else◌,
}
use patch_operator.Api.{ConflictPolicy}
use patch_operator.Json.{str, obj, Fields, end, entry, lookup}
use patch_operator.Apply.{
  done, field_conflict, Server, applied, conflicted, all_ours, is_our_manager, patch,
}
use patch_operator.Apply.Manager.{
  field_manager_for, field_manager_for-known, max_field_manager_length,
}
use patch_operator.Apply.Policy.{Allows, patch-Allows}
use patch_operator.Apply.Merge.{reach, Distinct}

-- A server on which one manager holds a field until it is forced out.
abbrev held_by : Text → Server
held_by manager before r = if r.forced then done else field_conflict (manager ∷ [])

abbrev one_field : Fields
one_field = entry (codes "a") (obj (entry (codes "b") (str (codes "x")) end)) end

abbrev other_fields : Fields
other_fields =
    entry (codes "a")
      (obj (entry (codes "b") (str (codes "y")) (entry (codes "c") (str (codes "z")) end))) end

forces_ours :
    (patch (held_by (codes "patch-operator/x")) one_field ConflictPolicy.priority).1 ≡ applied
unfolding patch all_ours is_our_manager has_prefix
forces_ours = refl

reports_foreign :
    (patch (held_by (codes "kubectl")) one_field ConflictPolicy.priority).1
    ≡ conflicted (record { managers = codes "kubectl" ∷ []; all_ours = false })
unfolding patch all_ours is_our_manager has_prefix
reports_foreign = refl

patch-Allows_example :
    Allows
      (held_by (codes "patch-operator/x"))
      ConflictPolicy.priority
      one_field
      (patch (held_by (codes "patch-operator/x")) one_field ConflictPolicy.priority).0
patch-Allows_example =
    patch-Allows (held_by (codes "patch-operator/x")) one_field ConflictPolicy.priority

b_path : reach (codes "a" ∷ codes "b" ∷ []) (some (obj one_field)) ≡ some (str (codes "x"))
unfolding lookup ◌==◌
b_path = refl

one_field-Distinct : Distinct one_field
unfolding lookup
one_field-Distinct = (refl, ((refl, (tt, tt)), tt))

abbrev ten_digits : Text → Text
ten_digits s = codes "0123456789"

field_manager_for-known_example :
    (is_our_manager
        (field_manager_for ten_digits (codes "ResourcePatch") (codes "default") (codes "p"))
      ≡ true)
    × (length (field_manager_for ten_digits (codes "ResourcePatch") (codes "default") (codes "p"))
        ≤ max_field_manager_length)
field_manager_for-known_example =
    field_manager_for-known ten_digits (codes "ResourcePatch") (codes "default") (codes "p")
