-- ===== src/Json/Tests.antt =====
-- What `%v` prints of a map.
use patch_operator.Base.{◌≡◌, refl, codes}
use patch_operator.Json.{str, obj, end, entry, print}

print_test :
    print (obj (entry (codes "b") (str (codes "x")) (entry (codes "a") (obj end) end)))
    ≡ codes "map[a:map[] b:x]"
unfolding print
print_test = refl
