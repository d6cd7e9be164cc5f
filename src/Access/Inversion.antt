-- ===== src/Access/Inversion.antt =====
-- internal/render/fieldpath.go: what a successful `Set` has done at each step of its walk.
use patch_operator.Base.{
  ◌≡◌, refl, sym, ap, Option, none, some, [], ◌∷◌, Text, inl, inr, Option-cases,
}
use patch_operator.FieldPath.{Segment, field, FieldPath}
use patch_operator.Json.{Json, obj, Fields, put}
use patch_operator.Access.{SetError, refuse, write_back, start, leave, rebuild, set_in}
use patch_operator.Access.Steps.{Admits, map_field, refuse-Admits}

-- the two ways in which a step ends
not_refused :
    (c r : Json) (x : SetError) → ◌≡◌ {A = Json × Option SetError} (c, some x) (r, none) → ⊥
not_refused c r x e = some_not_none (ap (λ t. t.1) e)
  where
    some_not_none : ◌≡◌ {A = Option SetError} (some x) none → ⊥
    some_not_none q = cc

pub set_in-last :
    (c v r : Json) (s : Segment)
    → set_in c (s ∷ []) v ≡ (r, none)
    → Admits c s × (r ≡ write_back c s v)
unfolding set_in
set_in-last c v r s e = elim (Option-cases (refuse c s)) [
  | inl good ↦ (refuse-Admits c s good, sym (ap (λ t. t.0) (rw (good, set_in) at e)))
  | inr (x, bad) ↦ absurd (not_refused c r x (rw (bad, set_in) at e))
]

rebuild-none :
    (c r : Json) (s : Segment) (o : Json × Option SetError)
    → rebuild c s o ≡ (r, none)
    → (w : Json) × (o ≡ (w, none)) × (r ≡ write_back c s w)
rebuild-none c r s (w, none) e = (w, refl, sym (ap (λ t. t.0) e))
rebuild-none c r s (w, some x) e = absurd (not_refused (leave c s w) r x e)

pub set_in-next :
    (c v r : Json) (s next : Segment) (p : FieldPath)
    → set_in c (s ∷ next ∷ p) v ≡ (r, none)
    → Admits c s
      × ((w : Json) × (set_in (start c s next) (next ∷ p) v ≡ (w, none)) × (r ≡ write_back c s w))
unfolding set_in
set_in-next c v r s next p e = elim (Option-cases (refuse c s)) [
  | inl good ↦ (
    refuse-Admits c s good,
    rebuild-none c r s (set_in (start c s next) (next ∷ p) v) (rw (good, set_in) at e),
  )
  | inr (x, bad) ↦ absurd (not_refused c r x (rw (bad, set_in) at e))
]

write_back-obj :
    {m : Fields} {s : Segment} (w r : Json)
    → Admits (obj m) s
    → r ≡ write_back (obj m) s w
    → (k : Text) × (w : Json) × (s ≡ field k) × (r ≡ obj (put k w m))
unfolding write_back
write_back-obj w r (map_field m a name) e = (a ∷ name, w, refl, e)

-- A write into a map sets one of its keys, the one that the path begins with.
pub set_in-obj :
    (m : Fields) (v r : Json) (s : Segment) (p : FieldPath)
    → set_in (obj m) (s ∷ p) v ≡ (r, none)
    → (k : Text) × (w : Json) × (s ≡ field k) × (r ≡ obj (put k w m))
set_in-obj m v r s [] e = let (a, same) = set_in-last (obj m) v r s e in write_back-obj v r a same
set_in-obj m v r s (next ∷ p) e =
    let (a, (w, _, same)) = set_in-next (obj m) v r s next p e in write_back-obj w r a same
