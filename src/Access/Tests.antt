-- ===== src/Access/Tests.antt =====
-- Runs of `Get`, `Set` and `Delete`.
use patch_operator.Base.{◌≡◌, ◌≢◌, refl, ap, false, Text, eq_iff, none, some, [], ◌∷◌, codes, ◌==◌}
use patch_operator.FieldPath.{Segment, field, key_match, FieldPath}
use patch_operator.Json.{
  Json, str, arr, obj, nil, cons, Fields, end, entry, lookup, item, put, set_item, find_by_key,
}
use patch_operator.Access.{get, set}
use patch_operator.Access.GetSet.{get-set}
use patch_operator.Access.Frame.{named_field, fields, here, below, set-frame}

abbrev ingress : Fields
ingress = entry (codes "spec") (obj (entry (codes "tls") (str (codes "on")) end)) end

abbrev rule_path : FieldPath
rule_path =
    field (codes "spec")
    ∷ field (codes "rules")
    ∷ key_match (codes "host") (codes "a")
    ∷ field (codes "http")
    ∷ []

abbrev with_rule : Json
with_rule = obj (
    entry (codes "spec")
      (obj (
        entry (codes "tls") (str (codes "on")) (
          entry (codes "rules")
            (arr (
              cons
                (obj (
                  entry (codes "host") (str (codes "a"))
                    (entry (codes "http") (str (codes "v")) end)))
                nil))
            end)))
      end)

set_rule : set ingress rule_path (str (codes "v")) ≡ (with_rule, none)
unfolding set lookup item put set_item find_by_key ◌==◌
set_rule = refl

differs : (a b : Text) → a == b ≡ false → a ≢ b
differs a b h e = cc (h, (eq_iff a b).1 e)

name_of : Segment → Text
name_of (field name) = name
name_of s = []

other_field : field (codes "http") ≢ field (codes "host")
unfolding ◌==◌ name_of
other_field e = differs (codes "http") (codes "host") refl (ap name_of e)

other_child : codes "rules" ≢ codes "tls"
unfolding ◌==◌
other_child = differs (codes "rules") (codes "tls") refl

get-set_example : get with_rule rule_path ≡ some (str (codes "v"))
get-set_example = get-set ingress rule_path (str (codes "v")) with_rule set_rule (other_field, tt)

abbrev tls_path : FieldPath
tls_path = field (codes "spec") ∷ field (codes "tls") ∷ []

tls_before : get (obj ingress) tls_path ≡ some (str (codes "on"))
unfolding get lookup ◌==◌
tls_before = refl

set-frame_example : get with_rule tls_path ≡ some (str (codes "on"))
set-frame_example =
    set-frame ingress rule_path tls_path (str (codes "v")) with_rule (str (codes "on")) set_rule
      (other_field, tt) (below (named_field _ _) (here (fields other_child) (named_field _ _)))
      tls_before
