-- ===== src/Render/Tests.antt =====
-- The witnesses on leaf paths and JSON pointers.
use patch_operator.Base.{◌≢◌, refl, List, [], ◌∷◌, Text, codes, All, ◌==◌}
use patch_operator.Json.{str, obj, arr, cons, nil, Fields, end, entry, lookup}
use patch_operator.Render.Leaves.{leaf_paths}
use patch_operator.Render.Readable.{NamedFields, Readable, leaf_paths-Readable}

-- a list whose element has a name, and a text
abbrev container : Fields
container = entry (codes "name") (str (codes "a")) (entry (codes "image") (str (codes "b")) end)

abbrev deployment : Fields
deployment =
    entry (codes "containers") (arr (cons (obj container) nil))
      (entry (codes "x") (str (codes "y")) end)

deployment-Named : NamedFields deployment
unfolding lookup ◌==◌
deployment-Named = (
  (λ e. cc e),
  (
    refl,
    (
      (((λ e. cc e), (refl, (tt, ((λ e. cc e), (refl, (tt, tt)))))), tt),
      ((λ e. cc e), (refl, (tt, tt))),
    ),
  ),
)

leaf_paths-Readable_example :
    All
      (Readable (obj deployment))
      (leaf_paths deployment (record { path = codes "containers"; key = codes "name" } ∷ []))
leaf_paths-Readable_example =
    leaf_paths-Readable deployment (record { path = codes "containers"; key = codes "name" } ∷ [])
      deployment-Named

abbrev annotation : List Text
annotation = codes "annotations" ∷ codes "a/b~c" ∷ []

annotation-ne : annotation ≢ [] ∷ []
annotation-ne e = cc e
