-- ===== src/Access/GetSet.antt =====
-- internal/render/fieldpath.go: `Get` after `Set` on the same path.
use patch_operator.Base.{◌≡◌, ◌≢◌, refl, ◌∙◌, ap, true, none, some, [], ◌∷◌, Text}
use patch_operator.FieldPath.{Segment, field, index, key_match, FieldPath}
use patch_operator.Json.{Json, obj, Fields, put, matches}
use patch_operator.Json.Laws.{lookup-put_ne}
use patch_operator.Access.{get, write_back, start, set_in, set}
use patch_operator.Access.Steps.{Fits, Admits, child-Admits, get-step, child-write_back, start-Fits}
use patch_operator.Access.Inversion.{set_in-last, set_in-next, set_in-obj}

-- The write leaves each list element that the path selects by a key under that key: the path does
-- not go on to the key itself, and a value that replaces a whole element carries the key.
abbrev pub KeepsKeys : FieldPath → Json → Type 0
KeepsKeys [] v = Unit
KeepsKeys (key_match k x ∷ []) v = matches k x v ≡ true
KeepsKeys (key_match k x ∷ next ∷ p) v = (next ≢ field k) × KeepsKeys (next ∷ p) v
KeepsKeys (field name ∷ p) v = KeepsKeys p v
KeepsKeys (index i ∷ p) v = KeepsKeys p v

pub KeepsKeys-Fits : (s : Segment) (v : Json) → KeepsKeys (s ∷ []) v → Fits s v
KeepsKeys-Fits (field name) v h = tt
KeepsKeys-Fits (index i) v h = tt
KeepsKeys-Fits (key_match k x) v h = h

pub KeepsKeys-tail :
    (s next : Segment) (p : FieldPath) (v : Json)
    → KeepsKeys (s ∷ next ∷ p) v
    → KeepsKeys (next ∷ p) v
KeepsKeys-tail (field name) next p v h = h
KeepsKeys-tail (index i) next p v h = h
KeepsKeys-tail (key_match k x) next p v h = h.1

-- A map that matches a key still does after a write to another.
matches-put :
    (k x j : Text) (w : Json) (m : Fields)
    → j ≢ k
    → matches k x (obj (put j w m)) ≡ matches k x (obj m)
unfolding matches
matches-put k x j w m ne = rw (lookup-put_ne j k w m ne)

-- An element that the walk has gone through still matches.
walked-matches :
    (k x : Text) (c w v : Json) (next : Segment) (p : FieldPath)
    → matches k x c ≡ true
    → next ≢ field k
    → set_in c (next ∷ p) v ≡ (w, none)
    → matches k x w ≡ true
unfolding matches
walked-matches k x (obj m) w v next p h ne e =
    let (j, u, s, r) = set_in-obj m v w next p e in
    rw r (matches-put k x j u m (λ q. ne (s ∙ ap field q)) ∙ h)
walked-matches k x _ w v next p h ne e = cc

pub walked-Fits :
    {c : Json} (s next : Segment) (w v : Json) (p : FieldPath)
    → Admits c s
    → KeepsKeys (s ∷ next ∷ p) v
    → set_in (start c s next) (next ∷ p) v ≡ (w, none)
    → Fits s w
walked-Fits (field name) next w v p a h e = tt
walked-Fits (index i) next w v p a h e = tt
walked-Fits {c} (key_match k x) next w v p a h e =
    walked-matches k x (start c (key_match k x) next) w v next p (start-Fits next a) h.0 e

pub get-write_back :
    {c : Json} {s : Segment} (w r : Json) (p : FieldPath)
    → Admits c s
    → Fits s w
    → r ≡ write_back c s w
    → get r (s ∷ p) ≡ get w p
get-write_back {s} w r p a f e =
    let there = child-write_back w a f in rw e (get-step w p (child-Admits _ w s there) there)

get-nil : (v : Json) → get v [] ≡ some v
unfolding get
get-nil v = refl

get-set_in :
    (c v r : Json) (s : Segment) (p : FieldPath)
    → set_in c (s ∷ p) v ≡ (r, none)
    → KeepsKeys (s ∷ p) v
    → get r (s ∷ p) ≡ some v
get-set_in c v r s [] e h =
    let (a, same) = set_in-last c v r s e in
    get-write_back v r [] a (KeepsKeys-Fits s v h) same ∙ get-nil v
get-set_in c v r s (next ∷ p) e h =
    let (a, (w, deeper, same)) = set_in-next c v r s next p e in
    get-write_back w r (next ∷ p) a (walked-Fits s next w v p a h deeper) same
    ∙ get-set_in (start c s next) v w next p deeper (KeepsKeys-tail s next p v h)

-- After a `Set` that succeeds, `Get` on the same path returns the value that was set, if the write
-- leaves every list element that the path selects by a key under that key.
pub get-set :
    (m : Fields) (p : FieldPath) (v r : Json)
    → set m p v ≡ (r, none)
    → KeepsKeys p v
    → get r p ≡ some v
unfolding set
get-set m [] v r e h = cc
get-set m (field [] ∷ p) v r e h = cc
get-set m (field (a ∷ name) ∷ p) v r e h = get-set_in (obj m) v r (field (a ∷ name)) p e h
get-set m (index i ∷ p) v r e h = cc
get-set m (key_match k x ∷ p) v r e h = cc
