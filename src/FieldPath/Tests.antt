-- ===== src/FieldPath/Tests.antt =====
-- Runs of the parser and the printer, and the witnesses.
use patch_operator.Base.{◌≡◌, ◌≢◌, ◌↔◌, refl, arith, [], ◌∷◌, codes}
use patch_operator.FieldPath.{
  field, index, key_match, FieldPath, to_text, ok, err, negative_index, trailing_dot, out_of_fuel,
  parse, itoa, atoi, number,
}
use patch_operator.FieldPath.Numbers.{atoi-itoa}
use patch_operator.FieldPath.RoundTrip.{IsPrintable}
use patch_operator.FieldPath.RoundTrip.Image.{parse-ne-out_of_fuel, round_trip_iff}

abbrev host_rule : FieldPath
host_rule =
    field (codes "spec")
    ∷ field (codes "rules")
    ∷ key_match (codes "host") (codes "a.example.com")
    ∷ index 12
    ∷ field (codes "http")
    ∷ []

print_test : to_text host_rule ≡ codes "spec.rules[host=a.example.com][12].http"
unfolding to_text
print_test = refl

parse_test : parse (codes "spec.rules[host=a.example.com][12].http") ≡ ok host_rule
unfolding parse
parse_test = refl

parse_errors :
    (parse (codes "a[-1]") ≡ err negative_index) × (parse (codes "a.") ≡ err trailing_dot)
unfolding parse
parse_errors = (refl, refl)

parse-ne-out_of_fuel_example : parse (codes "a[b=c].d") ≢ err out_of_fuel
parse-ne-out_of_fuel_example = parse-ne-out_of_fuel (codes "a[b=c].d")

round_trip_iff_example : (parse (to_text host_rule) ≡ ok host_rule) ↔ IsPrintable host_rule
round_trip_iff_example = round_trip_iff host_rule

atoi_test : atoi (itoa 120) ≡ number 120
atoi_test = atoi-itoa 120 (omega arith)
