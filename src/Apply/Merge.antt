-- ===== src/Apply/Merge.antt =====
-- internal/apply/ssa.go: `deepMerge`, a contribution on top of a base.
use patch_operator.Base.{
  ◌≡◌, ◌∙◌, refl, sym, ap, subst, Option, none, some, some-injective, List, [], ◌∷◌, Text, inl, inr,
  Bool-cases, ◌==◌, eq_iff,
}
use patch_operator.Json.{Json, null, bool, num, str, arr, obj, Fields, end, entry, lookup, put}
use patch_operator.Json.Laws.{lookup-put_self, lookup-put_ne}
use patch_operator.Apply.{deep_merge, overlay}

-- The keys of a map are different, and so are those of the maps below it.
abbrev mutual
  pub Distinct : Fields → Type 0
  Distinct end = Unit {0}
  Distinct (entry k v m) = (lookup k m ≡ none) × (DistinctBelow v × Distinct m)

  pub DistinctBelow : Json → Type 0
  DistinctBelow (obj m) = Distinct m
  DistinctBelow v = Unit {0}

-- A value that is no map.
abbrev pub IsLeaf : Json → Type 0
IsLeaf (obj m) = ⊥
IsLeaf v = Unit {0}

-- the value of a key, in a value that may be a map
abbrev pub inside : Text → Option Json → Option Json
inside k (some (obj m)) = lookup k m
inside k v = none

-- the value at a chain of keys
abbrev pub reach : List Text → Option Json → Option Json
reach [] v = v
reach (k ∷ ks) v = reach ks (inside k v)

abbrev DistinctIn : Option Json → Type 0
DistinctIn none = Unit {0}
DistinctIn (some v) = DistinctBelow v

-- what a key holds after a merge
abbrev merged : Option Json → Option Json → Option Json
merged old none = old
merged old (some v) = some (overlay old v)

lookup-deep_merge :
    (k : Text) (dst src : Fields)
    → Distinct src
    → lookup k (deep_merge dst src) ≡ merged (lookup k dst) (lookup k src)
unfolding deep_merge lookup
lookup-deep_merge k dst end h = refl
lookup-deep_merge k dst (entry j v src) (fresh, (below, h)) = elim (Bool-cases (j == k)) [
  | inl same ↦
      let j_k = (eq_iff j k).0 same in
      let start = lookup-deep_merge k (put j (overlay (lookup j dst) v) dst) src h in
      let written : lookup k (put j (overlay (lookup j dst) v) dst)
          ≡ some (overlay (lookup k dst) v) =
        rw j_k (lookup-put_self k (overlay (lookup k dst) v) dst) in
      start ∙ rw (written, rw j_k at fresh, same) refl
  | inr other ↦
      let kept =
        lookup-put_ne j k (overlay (lookup j dst) v) dst (λ e. cc (other, (eq_iff j k).1 e)) in
      lookup-deep_merge k (put j (overlay (lookup j dst) v) dst) src h ∙ rw (kept, other) refl
]

overlay-leaf : (old : Option Json) (v : Json) → IsLeaf v → overlay old v ≡ v
unfolding overlay
overlay-leaf none v h = refl
overlay-leaf (some (obj m)) (obj n) h = absurd h
overlay-leaf (some (obj m)) null h = refl
overlay-leaf (some (obj m)) (bool b) h = refl
overlay-leaf (some (obj m)) (num n) h = refl
overlay-leaf (some (obj m)) (str s) h = refl
overlay-leaf (some (obj m)) (arr l) h = refl
overlay-leaf (some null) v h = refl
overlay-leaf (some (bool b)) v h = refl
overlay-leaf (some (num n)) v h = refl
overlay-leaf (some (str s)) v h = refl
overlay-leaf (some (arr l)) v h = refl

DistinctIn-lookup : (k : Text) (m : Fields) → Distinct m → DistinctIn (lookup k m)
unfolding lookup
DistinctIn-lookup k end h = tt
DistinctIn-lookup k (entry j w m) (fresh, (below, h)) = elim (Bool-cases (j == k)) [
  | inl same ↦ rw same below
  | inr other ↦ rw other (DistinctIn-lookup k m h)
]

reach-none : (ks : List Text) → reach ks none ≡ none
reach-none [] = refl
reach-none (k ∷ ks) = reach-none ks

no_reach : (ks : List Text) (v : Json) → reach ks none ≡ some v → ⊥
no_reach ks v e = cc (reach-none ks, e)

merged-wins :
    (ks : List Text) (old new : Option Json) (v : Json)
    → DistinctIn new
    → IsLeaf v
    → reach ks new ≡ some v
    → reach ks (merged old new) ≡ some v
unfolding overlay
merged-wins ks old none v h leaf e = absurd (no_reach ks v e)
merged-wins [] old (some w) v h leaf e =
    ap some (overlay-leaf old w (subst IsLeaf (some-injective (sym e)) leaf)) ∙ e
merged-wins (k ∷ ks) (some (obj m)) (some (obj n)) v h leaf e =
    rw (lookup-deep_merge k m n h)
      (merged-wins ks (lookup k m) (lookup k n) v (DistinctIn-lookup k n h) leaf e)
merged-wins (k ∷ ks) none (some (obj n)) v h leaf e = e
merged-wins (k ∷ ks) (some null) (some (obj n)) v h leaf e = e
merged-wins (k ∷ ks) (some (bool b)) (some (obj n)) v h leaf e = e
merged-wins (k ∷ ks) (some (num b)) (some (obj n)) v h leaf e = e
merged-wins (k ∷ ks) (some (str b)) (some (obj n)) v h leaf e = e
merged-wins (k ∷ ks) (some (arr b)) (some (obj n)) v h leaf e = e
merged-wins (k ∷ ks) old (some null) v h leaf e = absurd (no_reach ks v e)
merged-wins (k ∷ ks) old (some (bool b)) v h leaf e = absurd (no_reach ks v e)
merged-wins (k ∷ ks) old (some (num b)) v h leaf e = absurd (no_reach ks v e)
merged-wins (k ∷ ks) old (some (str b)) v h leaf e = absurd (no_reach ks v e)
merged-wins (k ∷ ks) old (some (arr b)) v h leaf e = absurd (no_reach ks v e)

-- What a contribution holds at a chain of keys, where that is no map, the merge holds there too,
-- whatever the base holds. The keys of each map of the contribution are different.
pub deep_merge-wins :
    (ks : List Text) (base contribution : Fields) (v : Json)
    → Distinct contribution
    → IsLeaf v
    → reach ks (some (obj contribution)) ≡ some v
    → reach ks (some (obj (deep_merge base contribution))) ≡ some v
unfolding overlay
deep_merge-wins ks base contribution v h leaf e =
    merged-wins ks (some (obj base)) (some (obj contribution)) v h leaf e
