-- ===== src/Sort/Laws.antt =====
-- A sorted list is a permutation in order, and the only one where the order tells elements apart.
use mathlib.Core.Path.{ap₂}
use mathlib.Core.List.{
  Mem, Perm, Pairwise, Pairwise-singleton, mem-cons_self, mem-cons_of_mem, forall_mem-cons,
}
use mathlib.Core.List.Pairwise
use mathlib.Core.List.Perm
use patch_operator.Base.{
  ◌≡◌, refl, inl, inr, sym, Bool, true, false, List, [], ◌∷◌, All, Bool-cases,
}
use patch_operator.Sort.{insert, stable_sort}

module _ {ℓ} {A : Type ℓ} (before : A → A → Bool) where
  -- `b` does not come before `a`
  abbrev pub InOrder : A → A → Type 0
  InOrder a b = before b a ≡ false

  InOrder-prop : (a b : A) → IsProp (InOrder a b)
  InOrder-prop a b = hlevel

  abbrev pub IsSorted : List A → Type ℓ
  IsSorted = Pairwise InOrder

  pub insert-perm : (x : A) (l : List A) → Perm (insert before x l) (x ∷ l)
  unfolding insert
  insert-perm x [] = Perm.rfl
  insert-perm x (y ∷ l) = elim (Bool-cases (before y x)) [
    | inl later ↦ rw (later, insert) (Perm.trans (Perm.cons y (insert-perm x l)) (Perm.swap x y l))
    | inr here ↦ rw (here, insert) Perm.rfl
  ]

  pub stable_sort-perm : (l : List A) → Perm (stable_sort before l) l
  unfolding stable_sort
  stable_sort-perm [] = Perm.rfl
  stable_sort-perm (x ∷ l) =
      Perm.trans (insert-perm x (stable_sort before l)) (Perm.cons x (stable_sort-perm l))

  -- One order of the elements, as `sort` wants it: a strict weak order.
  pub record IsOrder : Type ℓ where
    pub asym : (a b : A) → before a b ≡ true → before b a ≡ false
    pub split : (a b c : A) → before a b ≡ false → before b c ≡ false → before a c ≡ false

  module _ (o : IsOrder) where
    insert-IsSorted : (x : A) (l : List A) → IsSorted l → IsSorted (insert before x l)
    unfolding insert
    insert-IsSorted x [] s = Pairwise-singleton _ x
    insert-IsSorted x (y ∷ l) (Pairwise.cons h s) = elim (Bool-cases (before y x)) [
      | inl later ↦
          rw (later, insert)
            (Pairwise.cons
              (λ z m.
                (forall_mem-cons (InOrder-prop y)).1 (o.asym y x later, h) z
                  ((Perm.mem_iff (insert-perm x l)).0 m))
              (insert-IsSorted x l s))
      | inr here ↦
          rw (here, insert)
            (Pairwise.cons
              ((forall_mem-cons (InOrder-prop x)).1 (here, λ z m. o.split z y x (h z m) here))
              (Pairwise.cons h s))
    ]

    pub stable_sort-IsSorted : (l : List A) → IsSorted (stable_sort before l)
    unfolding stable_sort
    stable_sort-IsSorted [] = Pairwise.nil
    stable_sort-IsSorted (x ∷ l) = insert-IsSorted x (stable_sort before l) (stable_sort-IsSorted l)

  -- Elements of the list that the order does not tell apart are the same.
  abbrev pub Tells : List A → Type ℓ
  Tells l = (a b : A) → Mem a l → Mem b l → InOrder a b → InOrder b a → a ≡ b

  InOrder-head :
      (x y : A) (l : List A) → IsSorted (x ∷ l) → Mem y (x ∷ l) → InOrder x x → InOrder x y
  InOrder-head x y l (Pairwise.cons h _) m self = (forall_mem-cons (InOrder-prop x)).1 (self, h) y m

  -- A list has one arrangement in order, if the order tells its elements apart.
  pub IsSorted-unique :
      ((a : A) → InOrder a a)
      → (l r : List A) → IsSorted l
      → IsSorted r
      → Perm l r
      → Tells l
      → l ≡ r
  IsSorted-unique self [] r _ _ p tells = Perm.nil-eq p
  IsSorted-unique self (x ∷ l) [] _ _ p tells = Perm.eq-nil p
  IsSorted-unique self (x ∷ l) (y ∷ r) sl sr p tells =
      let y_in : Mem y (x ∷ l) = (Perm.mem_iff p).1 mem-cons_self in
      let x_in : Mem x (y ∷ r) = (Perm.mem_iff p).0 mem-cons_self in
      let same : x ≡ y =
        tells x y mem-cons_self y_in (InOrder-head x y l sl y_in (self x))
          (InOrder-head y x r sr x_in (self y)) in
      let rest : Perm l r = Perm.cons_inv (Perm.trans p (Perm.cons' (sym same) Perm.rfl)) in
      ap₂ ◌∷◌ same (
        IsSorted-unique self l r (Pairwise.of_cons sl) (Pairwise.of_cons sr) rest
          (λ a b m n. tells a b (mem-cons_of_mem x m) (mem-cons_of_mem x n)))

  -- The sort of a list does not depend on how the list is arranged.
  pub stable_sort-perm_eq :
      IsOrder → (l r : List A) → Perm l r → Tells l → stable_sort before l ≡ stable_sort before r
  stable_sort-perm_eq o l r p tells =
      let sorted = stable_sort-perm l in
      IsSorted-unique (λ a. self o a (before a a) refl) (stable_sort before l)
        (stable_sort before r) (stable_sort-IsSorted o l) (stable_sort-IsSorted o r)
        (Perm.trans sorted (Perm.trans p (Perm.symm (stable_sort-perm r))))
        (λ a b m n. tells a b ((Perm.mem_iff sorted).0 m) ((Perm.mem_iff sorted).0 n))
    where
      self : IsOrder → (a : A) (b : Bool) → before a a ≡ b → InOrder a a
      self o a true e = o.asym a a e
      self o a false e = e

module _ {ℓ κ} {A : Type ℓ} (before : A → A → Bool) (P : A → Type κ) where
  All-insert : (x : A) (l : List A) → P x → All P l → All P (insert before x l)
  unfolding insert
  All-insert x [] p h = (p, tt)
  All-insert x (y ∷ l) p (q, h) = elim (Bool-cases (before y x)) [
    | inl later ↦ rw (later, insert) (q, All-insert x l p h)
    | inr here ↦ rw (here, insert) (p, (q, h))
  ]

  -- What holds of every element holds of every element once they are sorted.
  pub All-stable_sort : (l : List A) → All P l → All P (stable_sort before l)
  unfolding stable_sort
  All-stable_sort [] h = tt
  All-stable_sort (x ∷ l) (p, h) = All-insert x (stable_sort before l) p (All-stable_sort l h)
