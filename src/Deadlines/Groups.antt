-- ===== src/Deadlines/Groups.antt =====
-- What `BuildScoringGroups` leaves behind: every assignment resolves, and no pointer is nil.
use notmanytuples.Prelude.{
  ℕ, zero, suc, ◌+◌, String, ◌≡◌, refl, sym, ◌∙◌, ◌≢◌, ◌⊎◌, inl, inr, false, some, List, [], ◌∷◌,
  arith, if◌then◌else◌, ◌==◌, string_eq, Bool-cases, Option-cases, eq_iff,
}
use mathlib.Core.Path.{subst}
use notmanytuples.Prelude.Int.{ℤ, pos, int_eq}
use notmanytuples.Prelude.Lists.{get_elem?, All, All-map}
use notmanytuples.Prelude.Dict.{Dict, lookup, insert, lookup-insert}
use notmanytuples.Result.{Result, ok, err, ◌>>=◌, >>=-eq-ok}
use notmanytuples.Deadlines.{
  ScoringGroup, TaskGroup, Deadlines, BuildError, nil_dereference, get_scoring_group, index_groups,
  sum_scores, plus_score, add_score, collect_max_scores, set_max_score, store_max_scores,
  index_scoring, build_scoring_groups,
}

module _ {F : Type 0} where
  -- `k` is a name of the group that `groups[k]` points to.
  abbrev Points : List (ScoringGroup F) → ℕ → String → Type 0
  Points gs i k = (g : ScoringGroup F) × (get_elem? gs i ≡ some g) × (g.name ≡ k)

  abbrev pub IsIndexed : Deadlines F → Type 0
  IsIndexed d = (k : String) (i : ℕ) → lookup k d.groups ≡ some i → Points d.scoring.groups i k

  lookup-index_groups :
      (i : ℕ) (m : Dict String ℕ) (gs : List (ScoringGroup F)) (k : String) (j : ℕ)
      → lookup k (index_groups i m gs) ≡ some j
      → (lookup k m ≡ some j) ⊎ ((p : ℕ) × (j ≡ i + p) × Points gs p k)
  unfolding index_groups
  lookup-index_groups i m [] k j h = inl h
  lookup-index_groups i m (g ∷ gs) k j h =
      elim (lookup-index_groups (suc i) (insert g.name i m) gs k j h) [
        | inr (p, e, there) ↦ inr (suc p, omega arith, there)
        | inl old ↦ elim (Bool-cases (g.name == k)) [
          | inl same ↦
              inr
                (0, ground (arith, lookup-insert g.name k i m), (g, refl, (eq_iff g.name k).0 same))
          | inr other ↦ inl (ground (arith, lookup-insert g.name k i m))
        ]
      ]

  index_scoring-IsIndexed : (d : Deadlines F) → IsIndexed (index_scoring d)
  unfolding index_scoring lookup
  index_scoring-IsIndexed d k i h = elim (lookup-index_groups 0 [] d.scoring.groups k i h) [
    | inl old ↦ absurd (ground arith)
    | inr (p, e, there) ↦ let e' : i ≡ p = omega arith in rw e' there
  ]

  -- The name of a group that an assignment resolves to is a key of the map.
  get_scoring_group_named :
      (d : Deadlines F) (a : TaskGroup F) (g : ScoringGroup F)
      → IsIndexed d
      → get_scoring_group d a ≡ some g
      → (i : ℕ) × (lookup g.name d.groups ≡ some i)
  unfolding get_scoring_group
  get_scoring_group_named d a g w h =
      let k = if a.group == "" then d.scoring.default_group else a.group in
      elim (Option-cases (lookup k d.groups)) [
        | inl e ↦ absurd (ground arith)
        | inr (i, e) ↦
            let (g', at, named) = w k i e in
            let same : g ≡ g' = ground arith in (i, rw (same, named) e)
      ]

  abbrev HasKeys : Deadlines F → Dict String ℤ → Type 0
  HasKeys d m = All (λ e. (i : ℕ) × (lookup e.0 d.groups ≡ some i)) m

  insert-HasKeys :
      (d : Deadlines F) (k : String) (v : ℤ) (m : Dict String ℤ) (i : ℕ)
      → lookup k d.groups ≡ some i
      → HasKeys d m
      → HasKeys d (insert k v m)
  unfolding insert
  insert-HasKeys d k v [] i h all = ((i, h), tt)
  insert-HasKeys d k v ((j, w) ∷ m) i h all = elim (Bool-cases (j == k)) [
    | inl e ↦ rw e ((i, h), all.1)
    | inr e ↦ rw e (all.0, insert-HasKeys d k v m i h all.1)
  ]

  collect_max_scores-HasKeys :
      (d : Deadlines F) (i : ℕ) (m : Dict String ℤ) (as' : List (TaskGroup F)) (r : Dict String ℤ)
      → IsIndexed d
      → HasKeys d m
      → collect_max_scores d i m as' ≡ ok r
      → HasKeys d r
  unfolding collect_max_scores add_score
  collect_max_scores-HasKeys d i m [] r w all h =
      let e : m ≡ r = ground arith in subst (HasKeys d) e all
  collect_max_scores-HasKeys d i m (a ∷ as') r w all h = elim (Bool-cases (a.title == "")) [
    | inl e ↦ absurd (ground arith)
    | inr titled ↦ elim (Option-cases (get_scoring_group d a)) [
      | inl e ↦ absurd (ground arith)
      | inr (g, found) ↦
          let total = sum_scores (pos 0) a.tasks in
          let m' = if int_eq g.max_score (pos 0) then add_score g.name total m else m in
          let (j, named) = get_scoring_group_named d a g w found in
          collect_max_scores-HasKeys d (suc i) m' as' r w
            (elim (Bool-cases (int_eq g.max_score (pos 0))) [
              | inl z ↦
                  rw z (insert-HasKeys d g.name (plus_score (lookup g.name m) total) m j named all)
              | inr z ↦ rw z all
            ])
            (ground arith)
    ]
  ]

  get_elem?-set_max_score :
      (gs : List (ScoringGroup F)) (i j : ℕ) (v : ℤ) (g : ScoringGroup F)
      → get_elem? gs j ≡ some g
      → (g' : ScoringGroup F) × (get_elem? (set_max_score gs i v) j ≡ some g') × (g'.name ≡ g.name)
  unfolding set_max_score
  get_elem?-set_max_score [] i j v g h = absurd (ground arith)
  get_elem?-set_max_score (x ∷ gs) zero zero v g h =
      (record x { max_score = v }, refl, ground arith)
  get_elem?-set_max_score (x ∷ gs) zero (suc j) v g h = (g, h, refl)
  get_elem?-set_max_score (x ∷ gs) (suc i) zero v g h = (g, h, refl)
  get_elem?-set_max_score (x ∷ gs) (suc i) (suc j) v g h = get_elem?-set_max_score gs i j v g h

  -- The same groups under the same names, and the same assignments, but for the maxima.
  record SameShape (d d' : Deadlines F) : Type 0 where
    assignments : d'.assignments ≡ d.assignments
    keys : d'.groups ≡ d.groups
    default_group : d'.scoring.default_group ≡ d.scoring.default_group
    pointees :
        (j : ℕ) (g : ScoringGroup F)
        → get_elem? d.scoring.groups j ≡ some g
        → (g' : ScoringGroup F) × (get_elem? d'.scoring.groups j ≡ some g') × (g'.name ≡ g.name)

  -- Where every key has a group, no write goes through a nil pointer.
  store_max_scores-SameShape :
      (d : Deadlines F) (m : Dict String ℤ)
      → HasKeys d m
      → (d' : Deadlines F) × (store_max_scores d m ≡ ok d') × SameShape d d'
  unfolding store_max_scores
  store_max_scores-SameShape d [] all = (
    d,
    refl,
    record {
      assignments = refl;
      keys = refl;
      default_group = refl;
      pointees = λ j g h. (g, h, refl);
    },
  )
  store_max_scores-SameShape d ((k, v) ∷ m) all =
      let (i, there) = all.0 in
      let d1 = record d {
        scoring = record d.scoring { groups = set_max_score d.scoring.groups i v };
      } in
      let (d', stored, same) = store_max_scores-SameShape d1 m all.1 in
      (
        d',
        rw (there, store_max_scores) stored,
        record {
          assignments = same.assignments;
          keys = same.keys;
          default_group = same.default_group;
          pointees = λ j g h.
              let (g1, at1, named1) = get_elem?-set_max_score d.scoring.groups i j v g h in
              let (g2, at2, named2) = same.pointees j g1 at1 in (g2, at2, named2 ∙ named1);
        },
      )

  -- The assignment has a title and resolves to a scoring group.
  abbrev pub Resolves : Deadlines F → TaskGroup F → Type 0
  Resolves d a =
      ((a.title == "") ≡ false) × ((g : ScoringGroup F) × (get_scoring_group d a ≡ some g))

  abbrev pub IsResolved : Deadlines F → Type 0
  IsResolved d = All (Resolves d) d.assignments

  collect_max_scores-Resolves :
      (d : Deadlines F) (i : ℕ) (m : Dict String ℤ) (as' : List (TaskGroup F)) (r : Dict String ℤ)
      → collect_max_scores d i m as' ≡ ok r
      → All (Resolves d) as'
  unfolding collect_max_scores
  collect_max_scores-Resolves d i m [] r h = tt
  collect_max_scores-Resolves d i m (a ∷ as') r h = elim (Bool-cases (a.title == "")) [
    | inl e ↦ absurd (ground arith)
    | inr titled ↦ elim (Option-cases (get_scoring_group d a)) [
      | inl e ↦ absurd (ground arith)
      | inr (g, found) ↦
          let total = sum_scores (pos 0) a.tasks in
          let m' = if int_eq g.max_score (pos 0) then add_score g.name total m else m in
          ((titled, (g, found)), collect_max_scores-Resolves d (suc i) m' as' r (ground arith))
    ]
  ]

  SameShape-get_scoring_group :
      (d d' : Deadlines F) (a : TaskGroup F) (g : ScoringGroup F)
      → SameShape d d'
      → get_scoring_group d a ≡ some g
      → (g' : ScoringGroup F) × (get_scoring_group d' a ≡ some g') × (g'.name ≡ g.name)
  unfolding get_scoring_group
  SameShape-get_scoring_group d d' a g same h =
      let k = if a.group == "" then d.scoring.default_group else a.group in
      elim (Option-cases (lookup k d.groups)) [
        | inl e ↦ absurd (ground arith)
        | inr (i, e) ↦
            let (g', at, named) = same.pointees i g (ground arith) in
            (g', ground (arith, same.default_group, same.keys), named)
      ]

  collect_max_scores_error :
      (d : Deadlines F) (i : ℕ) (m : Dict String ℤ) (as' : List (TaskGroup F))
      → collect_max_scores d i m as' ≢ err nil_dereference
  unfolding collect_max_scores
  collect_max_scores_error d i m [] h = absurd (ground arith)
  collect_max_scores_error d i m (a ∷ as') h = elim (Bool-cases (a.title == "")) [
    | inl e ↦ absurd (ground arith)
    | inr titled ↦ elim (Option-cases (get_scoring_group d a)) [
      | inl e ↦ absurd (ground arith)
      | inr (g, found) ↦
          let total = sum_scores (pos 0) a.tasks in
          let m' = if int_eq g.max_score (pos 0) then add_score g.name total m else m in
          collect_max_scores_error d (suc i) m' as' (ground arith)
    ]
  ]

  collect_max_scores_total :
      (d : Deadlines F) (i : ℕ) (m : Dict String ℤ) (as' : List (TaskGroup F))
      → All (Resolves d) as'
      → (r : Dict String ℤ) × (collect_max_scores d i m as' ≡ ok r)
  unfolding collect_max_scores
  collect_max_scores_total d i m [] all = (m, refl)
  collect_max_scores_total d i m (a ∷ as') all =
      let (titled, found) = all.0 in
      let (g, there) = found in
      let total = sum_scores (pos 0) a.tasks in
      let m' = if int_eq g.max_score (pos 0) then add_score g.name total m else m in
      let (r, h) = collect_max_scores_total d (suc i) m' as' all.1 in (r, ground arith)

  -- What follows a successful first pass always succeeds and keeps the shape.
  store_after_collect :
      (d : Deadlines F) (r : Dict String ℤ)
      → collect_max_scores (index_scoring d) 0 [] d.assignments ≡ ok r
      → (d' : Deadlines F) × (store_max_scores (index_scoring d) r ≡ ok d')
        × SameShape (index_scoring d) d'
  store_after_collect d r h = store_max_scores-SameShape (index_scoring d) r (
      collect_max_scores-HasKeys (index_scoring d) 0 [] d.assignments r (index_scoring-IsIndexed d)
        tt h)

  collect-cases :
      (d : Deadlines F) (r : Result BuildError (Dict String ℤ))
      → r ≢ err nil_dereference
      → ((m : Dict String ℤ)
          → r ≡ ok m
          → store_max_scores (index_scoring d) m ≢ err nil_dereference)
      → (r >>= λ m. store_max_scores (index_scoring d) m) ≢ err nil_dereference
  collect-cases d (ok m) h k = k m refl
  collect-cases d (err e) h k = λ q. h (ground arith)

  -- `BuildScoringGroups` never writes through a nil pointer, whatever the deadlines file holds:
  -- duplicate names, unknown groups and groups with or without a maximum of their own.
  pub build_scoring_groups_no_panic :
      (d : Deadlines F) → build_scoring_groups d ≢ err nil_dereference
  unfolding build_scoring_groups
  build_scoring_groups_no_panic d =
      let r = collect_max_scores (index_scoring d) 0 [] d.assignments in
      collect-cases d r (collect_max_scores_error (index_scoring d) 0 [] d.assignments)
        (λ m h q. let (d', stored, same) = store_after_collect d m h in absurd (ground arith))

  -- If `BuildScoringGroups` succeeds, the assignments are those of the file, each has a title, and
  -- each resolves to a scoring group.
  pub build_scoring_groups-IsResolved :
      (d d' : Deadlines F)
      → build_scoring_groups d ≡ ok d'
      → IsResolved d' × (d'.assignments ≡ d.assignments)
  unfolding build_scoring_groups
  build_scoring_groups-IsResolved d d' h =
      let (m, collected, stored) =
        >>=-eq-ok (collect_max_scores (index_scoring d) 0 [] d.assignments)
          (store_max_scores (index_scoring d)) h in
      let (d1, stored1, same) = store_after_collect d m collected in
      let eq : d1 ≡ d' = ground arith in
      let resolved : All (Resolves (index_scoring d)) d.assignments =
        collect_max_scores-Resolves (index_scoring d) 0 [] d.assignments m collected in
      let kept : All (Resolves d1) d.assignments =
        All-map d.assignments
          (λ a q.
            let (titled, found) = q in
            let (g, there) = found in
            let (g', there', named) =
              SameShape-get_scoring_group (index_scoring d) d1 a g same there in
            (titled, (g', there')))
          resolved in
      let from : d1.assignments ≡ d.assignments = unfold index_scoring in same.assignments in
      subst (λ x. IsResolved x × (x.assignments ≡ d.assignments)) eq
        (subst (All (Resolves d1)) (sym from) kept, from)

  -- `BuildScoringGroups` succeeds on every file whose assignments have titles and name groups that
  -- are listed.
  pub build_scoring_groups_total :
      (d : Deadlines F)
      → All (Resolves (index_scoring d)) d.assignments
      → (d' : Deadlines F) × (build_scoring_groups d ≡ ok d')
  unfolding build_scoring_groups
  build_scoring_groups_total d all =
      let (m, collected) = collect_max_scores_total (index_scoring d) 0 [] d.assignments all in
      let (d', stored, same) = store_after_collect d m collected in (d', rw collected stored)
