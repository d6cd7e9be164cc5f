-- ===== src/Tracker/Records/Laws.antt =====
-- internal/controller/tracker_controller.go: the records that `listContributors` returns.
use mathlib.Core.List.{
  Mem, Perm, mem-append_left, mem-append_right, mem-cons_self, mem-cons_of_mem, forall_mem-cons,
  not-mem-nil,
}
use mathlib.Core.List.Perm
use patch_operator.Base.{
  ◌≡◌, ◌≢◌, ◌⊎◌, ◌∙◌, refl, ap, sym, subst, inl, inr, none, some, some-injective, List, [], ◌∷◌,
  ◌++◌, Text, eq_refl, All, Option-cases,
}
use patch_operator.Api.{Contributor}
use patch_operator.Api.Refs.{ref_text}
use patch_operator.Api.Status.{ContributorStatus}
use patch_operator.Scope.{key_text}
use patch_operator.Sort.Laws.{IsSorted}
use patch_operator.Tracker.Order.{comes_before, sort_contributors}
use patch_operator.Tracker.Order.Laws.{sort_contributors-IsSorted}
use patch_operator.Tracker.Records.{
  ContributorRecord, Tracker, records_of, registered, by_key, rejoin, statuses, sorted_records,
  ListContributors, lists_for, list_contributors, record_for,
}
use patch_operator.Tracker.Records.Selected.{
  Lists, Selects, IsNamed, lists_for-Lists, records_of-Mem, registered-Mem, registered-Selects,
}

abbrev Known : List ContributorRecord → ContributorStatus → Type 0
Known out s = by_key (ref_text s.patch_ref) out ≢ none

Known-prop : (out : List ContributorRecord) (s : ContributorStatus) → IsProp (Known out s)
Known-prop out s = hlevel

by_key_self : (r : ContributorRecord) (out : List ContributorRecord) → Known (r ∷ out) r.status
unfolding by_key
by_key_self r out e = elim (Option-cases (by_key (ref_text r.status.patch_ref) out)) [
  | inl new ↦ cc (rw (new, by_key, eq_refl (ref_text r.status.patch_ref)) at e)
  | inr (c, at) ↦ cc (rw (at, by_key) at e)
]

by_key-later :
    (r : ContributorRecord) (out : List ContributorRecord) (s : ContributorStatus)
    → Known out s
    → Known (r ∷ out) s
unfolding by_key
by_key-later r out s known e = elim (Option-cases (by_key (ref_text s.patch_ref) out)) [
  | inl new ↦ known new
  | inr (c, at) ↦ cc (rw (at, by_key) at e)
]

statuses-Known :
    (out : List ContributorRecord) (s : ContributorStatus) → Mem s (statuses out) → Known out s
statuses-Known [] s m = absurd (not-mem-nil m)
statuses-Known (r ∷ out) s m =
    (forall_mem-cons (Known-prop (r ∷ out))).1
      (by_key_self r out, λ x n. by_key-later r out x (statuses-Known out x n)) s m

statuses-rejoin :
    (out : List ContributorRecord) (records : List ContributorStatus)
    → ((s : ContributorStatus) → Mem s records → Known out s)
    → statuses (rejoin out records) ≡ records
unfolding rejoin
statuses-rejoin out [] known = refl
statuses-rejoin out (rec ∷ records) known =
    elim (Option-cases (by_key (ref_text rec.patch_ref) out)) [
      | inl lost ↦ absurd (known rec mem-cons_self lost)
      | inr (c, at) ↦
          rw at (
            ap (λ l. rec ∷ l)
              (statuses-rejoin out records (λ s m. known s (mem-cons_of_mem rec m))))
    ]

statuses-sorted_records :
    (out : List ContributorRecord)
    → statuses (sorted_records out) ≡ sort_contributors (statuses out)
unfolding sorted_records
statuses-sorted_records out =
    let sorted = (sort_contributors-IsSorted (statuses out)).0 in
    statuses-rejoin out (sort_contributors (statuses out))
      (λ s m. statuses-Known out s ((Perm.mem_iff sorted).0 m))

statuses-append : (a b : List ContributorRecord) → statuses (a ++ b) ≡ statuses a ++ statuses b
statuses-append [] b = refl
statuses-append (r ∷ a) b = ap (λ l. r.status ∷ l) (statuses-append a b)

statuses-left :
    (a b : List ContributorRecord) (s : ContributorStatus)
    → Mem s (statuses a)
    → Mem s (statuses (a ++ b))
statuses-left a b s m = subst (Mem s) (sym (statuses-append a b)) (mem-append_left (statuses b) m)

statuses-right :
    (a b : List ContributorRecord) (s : ContributorStatus)
    → Mem s (statuses b)
    → Mem s (statuses (a ++ b))
statuses-right a b s m = subst (Mem s) (sym (statuses-append a b)) (mem-append_right (statuses a) m)

-- Where the lists of the API server succeed, each contributor of the list by the target's key has its
-- record, and each contributor with a selector that is registered with the tracker has its own, or
-- that of a contributor by the target that has its reference text; there are no records but of
-- contributors by the target and of such registered ones; and they are in order.
pub list_contributors_complete :
    (digest : Text → Text) (indexed : Text → ListContributors) (listed : ListContributors)
    → (t : Tracker) (out : List ContributorRecord)
    → list_contributors digest indexed listed t ≡ some out
    → (by_target : List Contributor) × (by_kind : List Contributor) × Lists
        (indexed (key_text t.target))
        t
        by_target
      × Lists listed t by_kind
      × All (λ c. Mem (record_for digest t.status c) (statuses out)) by_target
      × All
          (λ c.
            Selects t c → IsNamed by_target c ⊎ Mem (record_for digest t.status c) (statuses out))
          by_kind
      × ((more : List Contributor) × (All (Selects t) more
            × Perm (statuses out) (
                statuses
                  (records_of digest t.status by_target ++ records_of digest t.status more))))
      × IsSorted comes_before (statuses out)
unfolding list_contributors
list_contributors_complete digest indexed listed t out e =
    elim (Option-cases (lists_for (indexed (key_text t.target)) t)) [
      | inl bad ↦ cc (rw (bad, list_contributors) at e)
      | inr (cs, at) ↦ elim (Option-cases (lists_for listed t)) [
        | inl bad ↦ cc (rw (at, bad, list_contributors) at e)
        | inr (ds, there) ↦
            let found : List ContributorRecord =
              records_of digest t.status cs
              ++ records_of digest t.status
                  (registered digest t (records_of digest t.status cs) ds) in
            let same : sorted_records found ≡ out =
              some-injective (rw (at, there, list_contributors) at e) in
            let order = sort_contributors-IsSorted (statuses found) in
            let listed_so : sort_contributors (statuses found) ≡ statuses out =
              sym (statuses-sorted_records found) ∙ ap statuses same in
            let perm : Perm (statuses out) (statuses found) =
              subst (λ l. Perm l (statuses found)) listed_so order.0 in
            let more = registered digest t (records_of digest t.status cs) ds in
            let into : (s : ContributorStatus) → Mem s (statuses found) → Mem s (statuses out) =
              λ s m. (Perm.mem_iff perm).1 m in
            let P : ContributorStatus → Type 0 = λ s. Mem s (statuses out) in
            (
              cs,
              ds,
              lists_for-Lists (indexed (key_text t.target)) t cs at,
              lists_for-Lists listed t ds there,
              records_of-Mem digest t P cs
                  (λ s m. into s (statuses-left (records_of digest t.status cs) _ s m)),
              registered-Mem digest t P cs ds
                  (λ s m. into s (statuses-right (records_of digest t.status cs) _ s m)),
              (more, (registered-Selects digest t cs ds, perm)),
              subst (IsSorted comes_before) listed_so order.1,
            )
      ]
    ]
