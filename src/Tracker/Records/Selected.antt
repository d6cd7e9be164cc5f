-- ===== src/Tracker/Records/Selected.antt =====
-- internal/controller/tracker_controller.go: which contributors `listContributors` takes, described on
-- their fields.
use mathlib.Core.List.{Mem, mem-cons_self, mem-cons_of_mem}
use patch_operator.Base.{
  ◌≡◌, ◌⊎◌, ◌∙◌, refl, ap, sym, subst, inl, inr, true, false, ◌&&◌, ◌||◌, Bool, not, Option, none,
  some, some-injective, List, [], ◌∷◌, ◌++◌, Text, codes, ◌==◌, eq_refl, eq_iff, any, All, arith,
  Bool-cases, if-then, if-else, if◌then◌else◌,
}
use patch_operator.Api.{TargetMode, TrackerRef, Contributor}
use patch_operator.Api.Refs.{contributor_ref_of, contributor_kind, ref_text}
use patch_operator.Api.Status.{TrackerStatus, ContributorStatus, find_contributor}
use patch_operator.Apply.Manager.{field_manager_for}
use patch_operator.Scope.Validate.{is_selector}
use patch_operator.Tracker.Records.{
  ContributorRecord, Tracker, records_of, registered, statuses, ListContributors, lists_for, both,
  is_seen, record_for, own_ref, tracker_kind, same_tracker_ref, with_manager, carried, fresh_record,
}

-- What a list of the API server holds for a tracker: for a SharedResource the ResourcePatches of its
-- namespace, for a ClusterSharedResource all contributors of both kinds.
abbrev pub Lists : ListContributors → Tracker → List Contributor → Type 0
Lists f t l =
    ((t.cluster_scoped ≡ false) × (f false t.namespace ≡ some l))
    ⊎ ((a : List Contributor) × ((b : List Contributor) × ((t.cluster_scoped ≡ true)
            × ((f false [] ≡ some a) × ((f true [] ≡ some b) × (l ≡ a ++ b))))))

-- A reference of a contributor to a tracker.
abbrev pub RefersTo : Tracker → List TrackerRef → Type 0
RefersTo t [] = ⊥
RefersTo t (ref ∷ refs) =
    ((ref.kind
        ≡ (if t.cluster_scoped then codes "ClusterSharedResource" else codes "SharedResource"))
      × ((ref.name ≡ t.name) × (ref.namespace ≡ t.namespace)))
    ⊎ RefersTo t refs

-- A contributor that selects its targets, and is registered with the tracker.
abbrev pub Selects : Tracker → Contributor → Type 0
Selects t c = (c.spec.target.mode ≡ TargetMode.selector) × RefersTo t c.shared_resource_refs

-- A contributor has the reference text of one of a list.
abbrev pub IsNamed : List Contributor → Contributor → Type 0
IsNamed cs c =
    any (λ d. ref_text (contributor_ref_of d) == ref_text (contributor_ref_of c)) cs ≡ true

both-Lists :
    (o p : Option (List Contributor)) (l : List Contributor)
    → both o p ≡ some l
    → (a : List Contributor) × ((b : List Contributor) × ((o ≡ some a)
          × ((p ≡ some b) × (l ≡ a ++ b))))
both-Lists none p l e = cc e
both-Lists (some a) none l e = cc e
both-Lists (some a) (some b) l e = (a, (b, (refl, (refl, some-injective (sym e)))))

pub lists_for-Lists :
    (f : ListContributors) (t : Tracker) (l : List Contributor)
    → lists_for f t ≡ some l
    → Lists f t l
lists_for-Lists f t l e = elim (Bool-cases t.cluster_scoped) [
  | inr namespaced ↦ inl (
    namespaced,
    sym (if-else t.cluster_scoped (both (f false []) (f true [])) (f false t.namespace) namespaced)
        ∙ e,
  )
  | inl cluster ↦
      let (a, (b, (first, (second, same)))) = both-Lists (f false []) (f true []) l (
        sym (if-then t.cluster_scoped (both (f false []) (f true [])) (f false t.namespace) cluster)
        ∙ e) in
      inr (a, (b, (cluster, (first, (second, same)))))
]

same_tracker_ref-refers :
    (t : Tracker) (refs : List TrackerRef)
    → RefersTo t refs
    → any (same_tracker_ref (own_ref t)) refs ≡ true
same_tracker_ref-refers t [] h = absurd h
same_tracker_ref-refers t (ref ∷ refs) (inl (kind, (name, namespace))) =
    rw (kind, name, namespace, eq_refl (tracker_kind t), eq_refl t.name, eq_refl t.namespace) refl
same_tracker_ref-refers t (ref ∷ refs) (inr h) = ground (arith, same_tracker_ref-refers t refs h)

and_first : (a b : Bool) → (a && b) ≡ true → a ≡ true
and_first true b h = refl
and_first false b h = cc h

and_second : (a b : Bool) → (a && b) ≡ true → b ≡ true
and_second true b h = h
and_second false b h = cc h

is_selector-mode : (m : TargetMode) → is_selector m ≡ true → m ≡ TargetMode.selector
is_selector-mode TargetMode.selector h = refl
is_selector-mode TargetMode.single h = cc h
is_selector-mode TargetMode.unset h = cc h
is_selector-mode (TargetMode.other m) h = cc h

refers-same_tracker_ref :
    (t : Tracker) (refs : List TrackerRef)
    → any (same_tracker_ref (own_ref t)) refs ≡ true
    → RefersTo t refs
refers-same_tracker_ref t [] h = cc h
refers-same_tracker_ref t (ref ∷ refs) h = ground (
  arith,
  eq_iff (tracker_kind t) ref.kind,
  eq_iff t.name ref.name,
  eq_iff t.namespace ref.namespace,
  refers-same_tracker_ref t refs,
)

carried-ref :
    (digest : Text → Text) (rec : ContributorStatus) (o : Option ContributorStatus)
    → (carried digest rec o).patch_ref ≡ rec.patch_ref
carried-ref digest rec none = refl
carried-ref digest rec (some prev) = refl

with_manager-ref :
    (digest : Text → Text) (c : Contributor) (rec : ContributorStatus)
    → (with_manager digest c rec).patch_ref ≡ rec.patch_ref
with_manager-ref digest c rec =
    let named : ContributorStatus = record rec {
      field_manager = field_manager_for digest (contributor_kind c) c.namespace c.name;
    } in
    elim (Bool-cases (rec.field_manager == [])) [
      | inl blank ↦ ap (λ r. r.patch_ref) (if-then (rec.field_manager == []) named rec blank)
      | inr known ↦ ap (λ r. r.patch_ref) (if-else (rec.field_manager == []) named rec known)
    ]

record_for-ref :
    (digest : Text → Text) (st : TrackerStatus) (c : Contributor)
    → (record_for digest st c).patch_ref ≡ contributor_ref_of c
unfolding record_for
record_for-ref digest st c =
    let rec = carried digest (fresh_record digest c) (find_contributor st (contributor_ref_of c)) in
    with_manager-ref digest c rec
    ∙ carried-ref digest (fresh_record digest c) (find_contributor st (contributor_ref_of c))

module _ (digest : Text → Text) (t : Tracker) where
  abbrev made : List Contributor → List ContributorRecord
  made = records_of digest t.status

  is_seen-made :
      (cs : List Contributor) (c : Contributor)
      → is_seen digest (made cs) c
        ≡ any (λ d. ref_text (contributor_ref_of d) == ref_text (contributor_ref_of c)) cs
  unfolding records_of
  is_seen-made [] c = refl
  is_seen-made (d ∷ cs) c =
      ap (λ r. (ref_text r == ref_text (contributor_ref_of c)) || is_seen digest (made cs) c)
        (record_for-ref digest t.status d)
      ∙ ap (λ b. (ref_text (contributor_ref_of d) == ref_text (contributor_ref_of c)) || b)
          (is_seen-made cs c)

  pub records_of-Mem :
      (P : ContributorStatus → Type 0) (cs : List Contributor)
      → ((s : ContributorStatus) → Mem s (statuses (made cs)) → P s)
      → All (λ c. P (record_for digest t.status c)) cs
  unfolding records_of
  records_of-Mem P [] h = tt
  records_of-Mem P (c ∷ cs) h = (
    h (record_for digest t.status c) mem-cons_self,
    records_of-Mem P cs (λ s m. h s (mem-cons_of_mem _ m)),
  )

  pub registered-Mem :
      (P : ContributorStatus → Type 0) (by_target cs : List Contributor)
      → ((s : ContributorStatus)
          → Mem s (statuses (made (registered digest t (made by_target) cs)))
          → P s)
      → All (λ c. Selects t c → IsNamed by_target c ⊎ P (record_for digest t.status c)) cs
  unfolding records_of registered
  registered-Mem P by_target [] h = tt
  registered-Mem P by_target (c ∷ cs) h =
      let rest = registered digest t (made by_target) cs in
      let test =
        not (is_seen digest (made by_target) c)
        && is_selector c.spec.target.mode
        && any (same_tracker_ref (own_ref t)) c.shared_resource_refs in
      elim (Bool-cases test) [
        | inl taken ↦
            let h' : (s : ContributorStatus) → Mem s (statuses (made (c ∷ rest))) → P s =
              subst (λ l. (s : ContributorStatus) → Mem s (statuses (made l)) → P s)
                (if-then test (c ∷ rest) rest taken) h in
            (
              λ selects. inr (h' (record_for digest t.status c) mem-cons_self),
              registered-Mem P by_target cs (λ s m. h' s (mem-cons_of_mem _ m)),
            )
        | inr passed ↦
            let h' : (s : ContributorStatus) → Mem s (statuses (made rest)) → P s =
              subst (λ l. (s : ContributorStatus) → Mem s (statuses (made l)) → P s)
                (if-else test (c ∷ rest) rest passed) h in
            (
              λ selects. elim (Bool-cases (is_seen digest (made by_target) c)) [
                | inl seen ↦ inl (sym (is_seen-made by_target c) ∙ seen)
                | inr new ↦ cc (
                    sym passed
                    ∙ ap
                        (λ b.
                          not b
                          && is_selector c.spec.target.mode
                          && any (same_tracker_ref (own_ref t)) c.shared_resource_refs)
                        new
                    ∙ ap
                        (λ m.
                          is_selector m
                          && any (same_tracker_ref (own_ref t)) c.shared_resource_refs)
                        selects.0
                    ∙ same_tracker_ref-refers t c.shared_resource_refs selects.1)
              ],
              registered-Mem P by_target cs h',
            )
      ]

  pub registered-Selects :
      (by_target cs : List Contributor) → All (Selects t) (registered digest t (made by_target) cs)
  unfolding registered
  registered-Selects by_target [] = tt
  registered-Selects by_target (c ∷ cs) =
      let rest = registered digest t (made by_target) cs in
      let fresh = not (is_seen digest (made by_target) c) in
      let selecting = is_selector c.spec.target.mode in
      let refers = any (same_tracker_ref (own_ref t)) c.shared_resource_refs in
      let test = fresh && selecting && refers in
      elim (Bool-cases test) [
        | inl taken ↦
            let first = and_first (fresh && selecting) refers taken in
            subst (All (Selects t)) (sym (if-then test (c ∷ rest) rest taken)) (
              (
                is_selector-mode c.spec.target.mode (and_second fresh selecting first),
                refers-same_tracker_ref t c.shared_resource_refs
                    (and_second (fresh && selecting) refers taken),
              ),
              registered-Selects by_target cs,
            )
        | inr passed ↦
            subst (All (Selects t)) (sym (if-else test (c ∷ rest) rest passed))
              (registered-Selects by_target cs)
      ]
