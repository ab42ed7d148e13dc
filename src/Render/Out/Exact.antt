-- ===== src/Render/Out/Exact.antt =====
-- What the output directory holds after `Render`.
use notmanytuples.Prelude.{
  ℕ, suc, ◌++◌, String, ◌≡◌, ◌≢◌, refl, sym, inl, inr, ◌∙◌, ap, true, false, not, Option, none,
  some, List, [], ◌∷◌, map, if◌then◌else◌, ◌==◌, string_eq, eqb, Bool-cases, Option-cases, arith,
  eq_iff, ==_refl,
}
use notmanytuples.Prelude.Lists.{In, any_of, In-keep_of, any_of_iff_In, any_of-In, In-keep}
use notmanytuples.Result.{ok, err, and_then, and_then-eq-ok, Result-cases}
use notmanytuples.Scorer.Errors.{wrap}
use notmanytuples.Render.{Source, Globs, Entries, walk_entries}
use notmanytuples.Render.Out.{
  Disk, Summary, copy_body, copy_file, copy_files, stale_files, remove_files, remove_dirs,
  remove_empty_dirs, deepest_first, stale_of, clean_output, write_output, read_source, render,
  write_new,
}

-- What the calls of the package os promise where they succeed.
pub record IsLawful {S : Type 0} (disk : Disk S) : Type 0 where
  pub read-mkdir_parents :
      (s : S) (p q : String) → disk.read_file (disk.mkdir_parents s p).0 q ≡ disk.read_file s q
  pub read-write_file :
      (s t : S) (p q body : String) (mode : ℕ)
      → disk.write_file s p body mode ≡ (t, ok tt)
      → disk.read_file t q ≡ (if p == q then some body else disk.read_file s q)
  pub read-remove :
      (s t : S) (p q : String)
      → disk.remove s p ≡ (t, ok tt)
      → disk.read_file t q ≡ (if p == q then none else disk.read_file s q)
  -- A directory is not a file.
  pub read-read_dir :
      (s : S) (p : String) (entries : ℕ)
      → disk.read_dir s p ≡ ok entries
      → disk.read_file s p ≡ none

stale_of_wanted :
    (files : List String) (root : Entries) (q : String)
    → any_of (λ f. f == q) files ≡ true
    → any_of (λ f. f == q) (stale_of files root) ≡ false
unfolding stale_of
stale_of_wanted files root q e = elim (Bool-cases (any_of (λ f. f == q) (stale_of files root))) [
  | inr apart ↦ apart
  | inl among ↦
      let (a, there, same) = any_of_iff_In (λ f. f == q) (stale_of files root) among in
      let (walked, unwanted) = In-keep (λ rel. not (any_of (λ f. f == rel) files)) a _ there in
      let at_q : not (any_of (λ f. f == q) files) ≡ true =
        ap (λ x. not (any_of (λ f. f == x) files)) (sym ((eq_iff a q).0 same)) ∙ unwanted in
      absurd (ground arith)
]

stale_of_unwanted :
    (files : List String) (root : Entries) (q : String)
    → any_of (λ f. f == q) files ≡ false
    → In q (map (λ (rel, _). rel) (walk_entries "" root))
    → any_of (λ f. f == q) (stale_of files root) ≡ true
unfolding stale_of
stale_of_unwanted files root q e walked =
    any_of-In (λ f. f == q) q (stale_of files root)
      (In-keep_of (λ rel. not (any_of (λ f. f == rel) files)) q _ walked (rw e refl)) (==_refl q)

-- The abstract view of the public tree: the files of the plan, as the source has them.
unfoldable pub public_view : {F : Type 0} → Source F → List String → String → Option String
public_view source files q =
    if any_of (λ f. f == q) files
    then elim (source.read_file q) [ ok body ↦ some body | err _ ↦ none ]
    else none

-- The walk over the output comes to a path in whatever state there is a file at it.
abbrev pub IsWalked : {S : Type 0} → Disk S → String → Type 0
IsWalked {S} disk q =
    (s : S) (root : Entries)
    → disk.tree s ≡ ok root
    → disk.read_file s q ≢ none
    → In q (map (λ (rel, _). rel) (walk_entries "" root))

module _ {F S : Type 0} (globs : Globs) (source : Source F) (disk : Disk S)
    (lawful : IsLawful disk) where
  write_new-read_file :
      (s t : S) (rel body q : String) (mode : ℕ) (summary done : Summary)
      → write_new globs source disk s rel body mode summary ≡ (t, ok done)
      → disk.read_file t q ≡ (if rel == q then some body else disk.read_file s q)
  unfolding write_new
  write_new-read_file s t rel body q mode summary done h =
      let (s₁, x, made, h₁) = and_then-eq-ok (disk.mkdir_parents s rel) _ h in
      let (s₂, y, written, h₂) = and_then-eq-ok (disk.write_file s₁ rel body mode) _ h₁ in
      let same : s₂ ≡ t = ap (λ r. r.0) h₂ in
      rw
        (
          sym same,
          lawful.read-write_file s₁ s₂ rel q body mode written,
          sym (ap (λ r. disk.read_file r.0 q) made),
          lawful.read-mkdir_parents s rel q,
        )
        refl

  copy_body-read_file :
      (s t : S) (rel body q : String) (mode : ℕ) (summary done : Summary) (held : Option String)
      → disk.read_file s rel ≡ held
      → copy_body globs source disk s rel body mode summary held ≡ (t, ok done)
      → disk.read_file t q ≡ (if rel == q then some body else disk.read_file s q)
  unfolding copy_body
  copy_body-read_file s t rel body q mode summary done none held h =
      write_new-read_file s t rel body q mode _ done h
  copy_body-read_file s t rel body q mode summary done (some existing) held h =
      elim (Bool-cases (existing == body)) [
        | inl same ↦
            let step : copy_body globs source disk s rel body mode summary (some existing)
                ≡ (s, ok (record summary { unchanged = suc summary.unchanged })) =
              rw (copy_body, same) refl in
            let stays : s ≡ t = ap (λ r. r.0) (sym step ∙ h) in
            rw (sym stays) (ground (arith, held, eq_iff existing body, eq_iff rel q))
        | inr other ↦
            write_new-read_file s t rel body q mode
              (record summary { updated = summary.updated ++ rel ∷ [] }) done
              (sym (rw (copy_body, other) refl) ∙ h)
      ]

  copy_file-read_file :
      (s t : S) (rel q : String) (summary done : Summary)
      → copy_file globs source disk s summary rel ≡ (t, ok done)
      → (body : String) × (source.read_file rel ≡ ok body)
        × (disk.read_file t q ≡ (if rel == q then some body else disk.read_file s q))
  unfolding copy_file copy_body
  copy_file-read_file s t rel q summary done h = elim (Result-cases (source.read_file rel)) [
    | inr (e, bad) ↦ absurd (ground (arith, bad))
    | inl (body, good) ↦ elim (Result-cases (source.file_mode rel)) [
      | inr (e, bad) ↦ absurd (ground (arith, good, bad))
      | inl (mode, moded) ↦ (
        body,
        good,
        copy_body-read_file s t rel body q mode summary done _ refl
            (sym (rw (copy_file, good, moded) refl) ∙ h),
      )
    ]
  ]

  -- A loop over the files that ends well has put each of them as the source has it.
  abbrev Copied : String → S → S → Type 0
  Copied q s t = (body : String) × (source.read_file q ≡ ok body) × (disk.read_file t q ≡ some body)

  copy_files-read_file :
      (files : List String) (s t : S) (q : String) (summary done : Summary)
      → copy_files globs source disk files s summary ≡ (t, ok done)
      → (any_of (λ f. f == q) files ≡ true → Copied q s t)
        × (any_of (λ f. f == q) files ≡ false → disk.read_file t q ≡ disk.read_file s q)
  unfolding copy_files
  copy_files-read_file [] s t q summary done h =
      (λ e. absurd (ground arith), λ e. rw (sym (ap (λ r. r.0) h)) refl)
  copy_files-read_file (rel ∷ files) s t q summary done h =
      let (u, next, copied, rest) =
        and_then-eq-ok (copy_file globs source disk s summary rel) _ h in
      let (body, read, put) = copy_file-read_file s u rel q summary next copied in
      let (later, other) = copy_files-read_file files u t q next done rest in
      elim (Bool-cases (any_of (λ f. f == q) files)) [
        | inl among ↦ (λ e. later among, λ e. absurd (ground arith))
        | inr apart ↦ (
          λ e.
              let here : (rel == q) ≡ true = ground arith in
              (
                body,
                ap source.read_file (sym ((eq_iff rel q).0 here)) ∙ read,
                rw (other apart, put, here) refl,
              ),
          λ e. let away : (rel == q) ≡ false = ground arith in rw (other apart, put, away) refl,
        )
      ]

  remove_files-read_file :
      (stale : List String) (s t : S) (q : String) (summary done : Summary)
      → remove_files globs source disk stale s summary ≡ (t, ok done)
      → disk.read_file t q ≡ (if any_of (λ f. f == q) stale then none else disk.read_file s q)
  unfolding remove_files
  remove_files-read_file [] s t q summary done h = rw (sym (ap (λ r. r.0) h)) refl
  remove_files-read_file (rel ∷ stale) s t q summary done h =
      let (u, x, removed, rest) = and_then-eq-ok (disk.remove s rel) _ h in
      ground (
        arith,
        lawful.read-remove s u rel q removed,
        remove_files-read_file stale u t q _ done rest,
      )

  remove_dirs-read_file :
      (dirs : List String) (s t : S) (q : String)
      → remove_dirs globs source disk dirs s ≡ (t, ok tt)
      → disk.read_file t q ≡ disk.read_file s q
  unfolding remove_dirs
  remove_dirs-read_file [] s t q h = rw (sym (ap (λ r. r.0) h)) refl
  remove_dirs-read_file (name ∷ dirs) s t q h = elim (Result-cases (disk.read_dir s name)) [
    | inr (e, bad) ↦ absurd (ground (arith, bad))
    | inl (entries, listed) ↦ elim (Bool-cases (eqb entries 0)) [
      | inr full ↦ remove_dirs-read_file dirs s t q (sym (rw (remove_dirs, listed, full) refl) ∙ h)
      | inl empty ↦
          let (u, x, removed, rest) =
            and_then-eq-ok (disk.remove s name) (λ u x. remove_dirs globs source disk dirs u)
              (sym (rw (remove_dirs, listed, empty) refl) ∙ h) in
          ground (
            arith,
            lawful.read-remove s u name q removed,
            remove_dirs-read_file dirs u t q rest,
            lawful.read-read_dir s name entries listed,
            eq_iff name q,
          )
    ]
  ]

  remove_empty_dirs-read_file :
      (s t : S) (q : String)
      → remove_empty_dirs globs source disk s ≡ (t, ok tt)
      → disk.read_file t q ≡ disk.read_file s q
  unfolding remove_empty_dirs
  remove_empty_dirs-read_file s t q h = elim (Result-cases (disk.tree s)) [
    | inr (e, bad) ↦ absurd (ground (arith, bad))
    | inl (root, good) ↦
        remove_dirs-read_file (deepest_first root) s t q
          (sym (rw (remove_empty_dirs, good) refl) ∙ h)
  ]

  clean_output-read_file :
      (files : List String) (s t : S) (q : String) (summary done : Summary)
      → clean_output globs source disk files s summary ≡ (t, ok done)
      → (any_of (λ f. f == q) files ≡ true → disk.read_file t q ≡ disk.read_file s q)
        × (any_of (λ f. f == q) files ≡ false → IsWalked disk q → disk.read_file t q ≡ none)
  unfolding clean_output stale_files wrap
  clean_output-read_file files s t q summary done h = elim (Result-cases (disk.tree s)) [
    | inr (e, bad) ↦ absurd (ground (arith, bad))
    | inl (root, good) ↦
        let (u, swept, removed, rest) =
          and_then-eq-ok (remove_files globs source disk (stale_of files root) s summary)
            (λ v x. and_then (remove_empty_dirs globs source disk v) (λ w _. (w, ok x)))
            (sym (rw (clean_output, stale_files, good, wrap) refl) ∙ h) in
        let (v, x, emptied, last) =
          and_then-eq-ok (remove_empty_dirs globs source disk u) (λ w _. (w, ok swept)) rest in
        let same : disk.read_file t q ≡ disk.read_file u q =
          rw (sym (ap (λ r. r.0) last)) (remove_empty_dirs-read_file u v q emptied) in
        let gone = remove_files-read_file (stale_of files root) s u q summary swept removed in
        (
          λ e. rw (same, gone, stale_of_wanted files root q e) refl,
          λ e walked. elim (Option-cases (disk.read_file s q)) [
            | inl missing ↦ rw (same, gone) (ground (arith, missing))
            | inr (held, there) ↦
                rw
                  (
                    same,
                    gone,
                    stale_of_unwanted files root q e
                        (walked s root good (λ n. absurd (ground arith))),
                  )
                  refl
          ],
        )
  ]

  pub render_exact :
      (s t : S) (summary : Summary) (tasks files : List String) (q : String)
      → read_source globs source disk ≡ ok (tasks, files)
      → render globs source disk s ≡ (t, ok summary)
      → (any_of (λ f. f == q) files ≡ true
          → (body : String) × (source.read_file q ≡ ok body) × (disk.read_file t q ≡ some body))
        × (any_of (λ f. f == q) files ≡ false → IsWalked disk q → disk.read_file t q ≡ none)
  unfolding render write_output
  render_exact s t summary tasks files q planned h =
      let start : Summary = record {
        tasks = tasks;
        added = [];
        updated = [];
        deleted = [];
        unchanged = 0;
      } in
      let (u, copied, copies, rest) =
        and_then-eq-ok (copy_files globs source disk files s start)
          (λ v x. clean_output globs source disk files v x)
          (sym (rw (render, planned, write_output) refl) ∙ h) in
      let (put, other) = copy_files-read_file files s u q start copied copies in
      let (stays, gone) = clean_output-read_file files u t q copied summary rest in
      (λ e. let (body, read, held) = put e in (body, read, stays e ∙ held), gone)

  -- Where `Render` succeeds, reading the output gives what the public view of the source gives, at
  -- every path that a walk over the output comes to where there is a file: a planned file has the
  -- bytes of the source, and nothing else is left.
  pub render_refines :
      (s t : S) (summary : Summary) (tasks files : List String) (q : String)
      → read_source globs source disk ≡ ok (tasks, files)
      → render globs source disk s ≡ (t, ok summary)
      → IsWalked disk q
      → disk.read_file t q ≡ public_view source files q
  unfolding public_view
  render_refines s t summary tasks files q planned h walked =
      let (put, gone) = render_exact s t summary tasks files q planned h in
      elim (Bool-cases (any_of (λ f. f == q) files)) [
        | inl among ↦ let (body, read, held) = put among in rw (held, among, read) refl
        | inr apart ↦ rw (gone apart walked, apart) refl
      ]
