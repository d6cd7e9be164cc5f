-- ===== src/Tracker/Order/Laws.antt =====
-- internal/controller/helpers.go: the order that `sortContributors` puts the records in.
use mathlib.Core.List.{Mem, Perm}
use patch_operator.Base.{◌≡◌, false, List, Text, text_lt, ◌==◌, arith}
use patch_operator.Api.Status.{ContributorStatus}
use patch_operator.Sort.Laws.{
  IsOrder, IsSorted, Tells, stable_sort-perm, stable_sort-IsSorted, stable_sort-perm_eq,
}
use patch_operator.Sort.Lexicographic.{
  IsKey, lex-asym, lex-split, lex-same, same_ℤ, after_ℤ, after_ℤ-IsKey, same_time, time_before,
  time_before-IsKey, text_lt-IsKey,
}
use patch_operator.Tracker.Order.{comes_before, sort_contributors}

uid_split : (s t u : Text) → text_lt s t ≡ false → text_lt t u ≡ false → text_lt s u ≡ false
uid_split s t u h g = ground (
  arith,
  k.total s t,
  k.total t u,
  k.trans u t s,
  k.asym u s,
  k.same_iff s t,
  k.same_iff t u,
  k.asym s u,
)
  where
    k : IsKey ◌==◌ text_lt
    k = text_lt-IsKey

comes_before-IsOrder : IsOrder comes_before
comes_before-IsOrder = record {
  asym = λ a b h.
      lex-asym same_ℤ after_ℤ after_ℤ-IsKey a.priority b.priority _ _
        (lex-asym same_time time_before time_before-IsKey a.creation_timestamp b.creation_timestamp
          _ _ (text_lt-IsKey.asym a.patch_ref.uid b.patch_ref.uid))
        h;
  split = λ a b c h g.
      lex-split same_ℤ after_ℤ after_ℤ-IsKey a.priority b.priority c.priority _ _ _
        (lex-split same_time time_before time_before-IsKey a.creation_timestamp b.creation_timestamp
          c.creation_timestamp _ _ _ (uid_split a.patch_ref.uid b.patch_ref.uid c.patch_ref.uid))
        h g;
}

same_uid : (s t : Text) → text_lt s t ≡ false → text_lt t s ≡ false → s ≡ t
same_uid s t h g = ground (arith, text_lt-IsKey.same_iff s t, text_lt-IsKey.total s t)

undecided-same_uid :
    (a b : ContributorStatus)
    → comes_before a b ≡ false
    → comes_before b a ≡ false
    → a.patch_ref.uid ≡ b.patch_ref.uid
undecided-same_uid a b h g =
    let priorities = lex-same same_ℤ after_ℤ after_ℤ-IsKey a.priority b.priority _ _ h g in
    let times =
      lex-same same_time time_before time_before-IsKey a.creation_timestamp b.creation_timestamp _ _
        priorities.1 priorities.2 in
    same_uid a.patch_ref.uid b.patch_ref.uid times.1 times.2

-- A UID belongs to one record of the list.
abbrev pub OwnUids : List ContributorStatus → Type 0
OwnUids l =
    (a b : ContributorStatus) → Mem a l → Mem b l → a.patch_ref.uid ≡ b.patch_ref.uid → a ≡ b

OwnUids-Tells : (l : List ContributorStatus) → OwnUids l → Tells comes_before l
OwnUids-Tells l own a b m n h g = own a b m n (undecided-same_uid a b g h)

-- Sorting keeps every record, no more and no fewer times than it was there, and puts no record
-- behind one that it comes before, by priority, then creation time, then UID.
pub sort_contributors-IsSorted :
    (l : List ContributorStatus)
    → Perm (sort_contributors l) l × IsSorted comes_before (sort_contributors l)
unfolding sort_contributors
sort_contributors-IsSorted l =
    (stable_sort-perm comes_before l, stable_sort-IsSorted comes_before comes_before-IsOrder l)

-- However the same records are listed, they are sorted into the same list, if each has a UID of its
-- own.
pub sort_contributors-perm :
    (l r : List ContributorStatus)
    → Perm l r
    → OwnUids l
    → sort_contributors l ≡ sort_contributors r
unfolding sort_contributors
sort_contributors-perm l r p own =
    stable_sort-perm_eq comes_before comes_before-IsOrder l r p (OwnUids-Tells l own)
