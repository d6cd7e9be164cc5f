-- ===== src/Apply/Client/Tests.antt =====
-- A run of the client-side update, and the witnesses.
use patch_operator.Base.{◌≡◌, refl, true, false, Bool, some, [], ◌∷◌, Text, codes, All, ◌==◌}
use patch_operator.FieldPath.{field, FieldPath}
use patch_operator.Json.{Json, str, obj, Fields, end, entry, lookup, put}
use patch_operator.Access.{get, set}
use patch_operator.Apply.Client.{written, withdraw, set_all, update}
use patch_operator.Apply.Client.Laws.{update-reads}

abbrev holding : Text → Json
holding s = obj (entry (codes "a") (obj (entry (codes "b") (str s) end)) end)

abbrev b_path : FieldPath
b_path = field (codes "a") ∷ field (codes "b") ∷ []

abbrev no_encoding : Json → Text
no_encoding v = []

abbrev never_same : Json → Json → Bool
never_same a b = false

abbrev known_priors : Fields
known_priors = entry (codes "a.b") (str (codes "first")) end

overwrites :
    update no_encoding never_same
      (holding (codes "y"))
      (holding (codes "x"))
      (b_path ∷ [])
      []
      end
      true
    ≡ written (holding (codes "x")) end
unfolding update withdraw set_all get set lookup put ◌==◌
overwrites = refl

update-reads_example :
    All (λ p. get (holding (codes "x")) p ≡ get (holding (codes "x")) p) (b_path ∷ [])
update-reads_example =
    update-reads no_encoding never_same (holding (codes "y")) (holding (codes "x")) (b_path ∷ []) []
      end end true (holding (codes "x")) overwrites ((λ v e. tt), tt) (tt, tt)

prior_known : lookup (codes "a.b") known_priors ≡ some (str (codes "first"))
unfolding lookup ◌==◌
prior_known = refl
