-- ===== src/Render/Out/Safe.antt =====
-- What `Render` never publishes.
use notmanytuples.Prelude.{
  String, ◌≡◌, ◌⊎◌, refl, sym, inl, inr, ◌∙◌, ap, true, false, some, List, [], ◌∷◌, ◌++◌, ◌==◌,
  string_eq, Bool-cases, arith, eq_iff,
}
use mathlib.Core.Path.{subst}
use notmanytuples.Prelude.Lists.{In, any_of, any_of_iff_In}
use notmanytuples.Prelude.Text.{◌<>◌}
use notmanytuples.Prelude.Paths.{split_slash, split_slash-join, contains}
use notmanytuples.Result.{ok, err, Result-cases}
use notmanytuples.Scorer.Errors.{wrap}
use notmanytuples.Render.{Source, Globs, Manifest, plan, load_manifest, is_private_dir}
use notmanytuples.Render.Out.{
  Disk, Summary, check_needles, check_files, check_leaks, read_source, render,
}
use notmanytuples.Render.Plan.{plan-In, exported-In}
use notmanytuples.Render.Out.Exact.{IsLawful, IsWalked, public_view, render_refines}

In-append_right : {A : Type 0} (a : A) (xs ys : List A) → In a ys → In a (xs ++ ys)
In-append_right a [] ys m = m
In-append_right a (x ∷ xs) ys m = inr (In-append_right a xs ys m)

In-append_left : {A : Type 0} (a : A) (xs ys : List A) → In a xs → In a (xs ++ ys)
In-append_left a [] ys m = absurd m
In-append_left a (x ∷ xs) ys (inl e) = inl e
In-append_left a (x ∷ xs) ys (inr m) = inr (In-append_left a xs ys m)

-- A path below a directory that is named `private` or `solution`, at the root or deeper.
abbrev pub IsHidden : String → Type 0
IsHidden q =
    (segment : String) × (above : String) × (below : String) × (is_private_dir segment ≡ true)
    × ((q ≡ segment <> "/" <> below) ⊎ (q ≡ above <> "/" <> segment <> "/" <> below))

private_split :
    (segment : String) → is_private_dir segment ≡ true → In segment (split_slash segment)
unfolding split_slash
private_split segment private_dir = elim (Bool-cases (segment == "private")) [
  | inl e ↦ rw ((eq_iff segment "private").0 e) (inl refl)
  | inr other ↦ elim (Bool-cases (segment == "solution")) [
    | inl e ↦ rw ((eq_iff segment "solution").0 e) (inl refl)
    | inr neither ↦ absurd (ground (arith, other, neither))
  ]
]

view-eq-some :
    {F : Type 0} (source : Source F) (files : List String) (q body : String)
    → public_view source files q ≡ some body
    → In q files × (source.read_file q ≡ ok body)
unfolding public_view
view-eq-some source files q body h = elim (Bool-cases (any_of (λ f. f == q) files)) [
  | inr apart ↦ absurd (ground (arith, apart))
  | inl among ↦
      let (a, there, same) = any_of_iff_In (λ f. f == q) files among in
      elim (Result-cases (source.read_file q)) [
        | inr (e, bad) ↦ absurd (ground (arith, among, bad))
        | inl (held, good) ↦ (
          subst (λ x. In x files) ((eq_iff a q).0 same) there,
          rw good (ground (arith, among, good)),
        )
      ]
]

IsHidden-In :
    (q : String)
    → IsHidden q
    → (segment : String) × (is_private_dir segment ≡ true) × In segment (split_slash q)
IsHidden-In q (segment, above, below, private_dir, place) = (
  segment,
  private_dir,
  elim place [
    | inl e ↦
        rw (e, split_slash-join segment below)
          (In-append_left segment (split_slash segment) (split_slash below)
            (private_split segment private_dir))
    | inr e ↦
        rw (e, split_slash-join above (segment <> "/" <> below), split_slash-join segment below)
          (In-append_right segment (split_slash above) _ (
            In-append_left segment (split_slash segment) (split_slash below)
              (private_split segment private_dir)))
  ],
)

module _ {F : Type 0} (source : Source F) where
  check_needles-In :
      (rel body needle : String) (forbid : List String)
      → check_needles source rel body forbid ≡ ok tt
      → In needle forbid
      → contains body needle ≡ false
  unfolding check_needles
  check_needles-In rel body needle [] h m = absurd m
  check_needles-In rel body needle (x ∷ forbid) h m = elim (Bool-cases (contains body x)) [
    | inl leak ↦ absurd (ground (arith, leak))
    | inr clean ↦ elim m [
      | inl e ↦ rw e clean
      | inr later ↦
          check_needles-In rel body needle forbid (sym (rw (check_needles, clean) refl) ∙ h) later
    ]
  ]

  check_files-In :
      (forbid files : List String) (q body needle : String)
      → check_files source forbid files ≡ ok tt
      → In q files
      → source.read_file q ≡ ok body
      → In needle forbid
      → contains body needle ≡ false
  unfolding check_files
  check_files-In forbid [] q body needle h m read n = absurd m
  check_files-In forbid (rel ∷ files) q body needle h m read n =
      elim (Result-cases (source.read_file rel)) [
        | inr (e, bad) ↦ absurd (ground (arith, bad))
        | inl (held, good) ↦ elim (Result-cases (check_needles source rel held forbid)) [
          | inr (e, bad) ↦ absurd (ground (arith, good, bad))
          | inl (_, clean) ↦ elim m [
            | inl e ↦
                let same : held ≡ body = ground (arith, good, read, e) in
                subst (λ x. contains x needle ≡ false) same
                  (check_needles-In rel held needle forbid clean n)
            | inr later ↦
                check_files-In forbid files q body needle
                  (sym (rw (check_files, good, clean) refl) ∙ h) later read n
          ]
        ]
      ]

  check_leaks-In :
      (forbid files : List String) (q body needle : String)
      → check_leaks source files forbid ≡ ok tt
      → In q files
      → source.read_file q ≡ ok body
      → In needle forbid
      → contains body needle ≡ false
  unfolding check_leaks
  check_leaks-In [] files q body needle h m read n = absurd n
  check_leaks-In (x ∷ forbid) files q body needle h m read n =
      check_files-In (x ∷ forbid) files q body needle h m read n

module _ {F S : Type 0} (globs : Globs) (source : Source F) (disk : Disk S) where
  -- What a source that is read well has gone through.
  read_source-parts :
      (tasks files : List String)
      → read_source globs source disk ≡ ok (tasks, files)
      → (m : Manifest) × (load_manifest source ≡ ok m)
        × (plan globs source m ≡ ok (tasks, files))
        × (check_leaks source files m.forbid ≡ ok tt)
  unfolding read_source wrap
  read_source-parts tasks files h = elim (Result-cases (load_manifest source)) [
    | inr (e, bad) ↦ absurd (ground (arith, bad))
    | inl (m, loaded) ↦ elim (Result-cases (plan globs source m)) [
      | inr (e, bad) ↦ absurd (ground (arith, loaded, bad))
      | inl (planned, good) ↦ elim (Result-cases (check_leaks source planned.1 m.forbid)) [
        | inr (e, bad) ↦ absurd (ground (arith, loaded, good, bad))
        | inl (_, clean) ↦
            let end_of : read_source globs source disk ≡ ok planned =
              rw (read_source, loaded, good, clean, wrap) refl in
            let same : planned ≡ (tasks, files) =
              ap (λ x. elim x [ ok y ↦ y | err _ ↦ planned ]) (sym end_of ∙ h) in
            (
              m,
              loaded,
              rw good (ap ok same),
              subst (λ x. check_leaks source x.1 m.forbid ≡ ok tt) same clean,
            )
      ]
    ]
  ]

  -- Where `Render` succeeds, the public tree has no file below a directory named `private` or
  -- `solution`, and none with a text that the manifest forbids, at the paths that a walk over the
  -- output comes to where there is a file.
  pub render_safe :
      (lawful : IsLawful disk)
      → (s t : S) (summary : Summary) (q body : String)
      → render globs source disk s ≡ (t, ok summary)
      → IsWalked disk q
      → disk.read_file t q ≡ some body
      → ¬ IsHidden q
        × ((m : Manifest) (needle : String)
            → load_manifest source ≡ ok m
            → In needle m.forbid
            → contains body needle ≡ false)
  unfolding render
  render_safe lawful s t summary q body h walked held =
      elim (Result-cases (read_source globs source disk)) [
        | inr (e, bad) ↦ absurd (ground (arith, bad))
        | inl (planned, good) ↦
            let refined =
              render_refines globs source disk lawful s t summary planned.0 planned.1 q good h
                walked in
            let (there, read) = view-eq-some source planned.1 q body (sym refined ∙ held) in
            let (m, loaded, listed, clean) = read_source-parts planned.0 planned.1 good in
            (
              λ hidden.
                  let (r, passed) = plan-In globs source m planned.0 planned.1 q listed there in
                  let (segment, private_dir, part) = IsHidden-In q hidden in
                  absurd (ground (arith, exported-In globs source r q segment passed part)),
              λ m' needle loaded' forbidden.
                  let same : m ≡ m' =
                    ap (λ x. elim x [ ok y ↦ y | err _ ↦ m ]) (sym loaded ∙ loaded') in
                  check_leaks-In source m.forbid planned.1 q body needle clean there read
                    (subst (λ x. In needle x.forbid) (sym same) forbidden),
            )
      ]
