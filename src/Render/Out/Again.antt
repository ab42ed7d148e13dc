-- ===== src/Render/Out/Again.antt =====
-- A second run of `Render` on an unchanged source.
use notmanytuples.Prelude.{
  ℕ, suc, ◌+◌, String, ◌≡◌, ◌≢◌, refl, sym, inl, inr, ◌∙◌, ap, true, not, none, some, List, [], ◌∷◌,
  map, ◌==◌, string_eq, Bool-cases, arith, ==_refl,
}
use notmanytuples.Prelude.Lists.{In, All, All-In, All-intro, length, keep_none, any_of, any_of-In}
use notmanytuples.Result.{Result, ok, err, and_then-eq-ok, Result-cases}
use notmanytuples.Scorer.Errors.{Error, wrap}
use notmanytuples.Render.{Source, Globs, Entries, walk_entries}
use notmanytuples.Render.Out.{
  Disk, Summary, copy_body, copy_file, copy_files, stale_of, stale_files, remove_files,
  remove_empty_dirs, clean_output, write_output, read_source, render,
}
use notmanytuples.Render.Out.Exact.{IsLawful, IsWalked, render_exact}

ok_eq : {A : Type 0} {a b : A} → ◌≡◌ {A = Result Error A} (ok a) (ok b) → a ≡ b
ok_eq {a} h = ap (λ x. elim x [ ok y ↦ y | err _ ↦ a ]) h

module _ {F S : Type 0} (globs : Globs) (source : Source F) (disk : Disk S) where
  abbrev IsReadable : String → Type 0
  IsReadable rel =
      (body : String) × (mode : ℕ) × (source.read_file rel ≡ ok body)
      × (source.file_mode rel ≡ ok mode)

  copy_file-IsReadable :
      (s t : S) (rel : String) (summary done : Summary)
      → copy_file globs source disk s summary rel ≡ (t, ok done)
      → IsReadable rel
  unfolding copy_file
  copy_file-IsReadable s t rel summary done h = elim (Result-cases (source.read_file rel)) [
    | inr (e, bad) ↦ absurd (ground (arith, bad))
    | inl (body, read) ↦ elim (Result-cases (source.file_mode rel)) [
      | inr (e, bad) ↦ absurd (ground (arith, read, bad))
      | inl (mode, moded) ↦ (body, mode, read, moded)
    ]
  ]

  copy_files-IsReadable :
      (files : List String) (s t : S) (summary done : Summary)
      → copy_files globs source disk files s summary ≡ (t, ok done)
      → All IsReadable files
  unfolding copy_files
  copy_files-IsReadable [] s t summary done h = tt
  copy_files-IsReadable (rel ∷ files) s t summary done h =
      let (u, next, copied, rest) =
        and_then-eq-ok (copy_file globs source disk s summary rel)
          (λ t next. copy_files globs source disk files t next) h in
      (
        copy_file-IsReadable s u rel summary next copied,
        copy_files-IsReadable files u t next done rest,
      )

  -- A file that the output has as the source has it.
  abbrev IsCopied : S → String → Type 0
  IsCopied t rel =
      (body : String) × (mode : ℕ) × (source.read_file rel ≡ ok body)
      × (source.file_mode rel ≡ ok mode)
      × (disk.read_file t rel ≡ some body)

  copy_file_again :
      (t : S) (rel : String) (summary : Summary)
      → IsCopied t rel
      → copy_file globs source disk t summary rel
        ≡ (t, ok (record summary { unchanged = suc summary.unchanged }))
  unfolding copy_file copy_body
  copy_file_again t rel summary (body, mode, read, moded, held) =
      rw (copy_file, read, moded, held, copy_body) (rw (==_refl body) refl)

  copy_files_again :
      (files : List String) (t : S) (summary : Summary)
      → All (IsCopied t) files
      → copy_files globs source disk files t summary
        ≡ (t, ok (record summary { unchanged = length files + summary.unchanged }))
  unfolding copy_files
  copy_files_again [] t summary h =
      ap (λ n. (t, ok (record summary { unchanged = n }))) (ground arith)
  copy_files_again (rel ∷ files) t summary (here, later) =
      rw (copy_files, copy_file_again t rel summary here)
        (copy_files_again files t (record summary { unchanged = suc summary.unchanged }) later
          ∙ ap (λ n. (t, ok (record summary { unchanged = n }))) (ground arith))

  no_stale :
      (files : List String) (t : S) (root : Entries)
      → disk.tree t ≡ ok root
      → ((q : String)
          → In q (map (λ (rel, _). rel) (walk_entries "" root))
          → any_of (λ f. f == q) files ≡ true)
      → stale_files globs source disk files t ≡ ok []
  unfolding stale_files stale_of wrap
  no_stale files t root walked all_wanted =
      rw (stale_files, walked, wrap, stale_of)
        (ap ok (
          keep_none (λ rel. not (any_of (λ f. f == rel) files)) _
            (λ q m. rw (all_wanted q m) refl)))

  -- Where `Render` succeeds, the output can be walked and its empty directories removed, a second
  -- run on the same source succeeds, finds every file unchanged, and adds, updates and deletes
  -- none. Of the walk this takes that it comes only to files that can be read, and that whether
  -- it comes to a path hangs on the path alone.
  pub render_again :
      IsLawful disk
      → ((s : S) (root : Entries) (q : String)
          → disk.tree s ≡ ok root
          → In q (map (λ (rel, _). rel) (walk_entries "" root))
          → (disk.read_file s q ≢ none) × IsWalked disk q)
      → (s t u : S) (summary : Summary) (tasks files : List String) (root : Entries)
      → read_source globs source disk ≡ ok (tasks, files)
      → render globs source disk s ≡ (t, ok summary)
      → disk.tree t ≡ ok root
      → remove_empty_dirs globs source disk t ≡ (u, ok tt)
      → render globs source disk t ≡ (
        u,
        ok (record {
          tasks = tasks;
          added = [];
          updated = [];
          deleted = [];
          unchanged = length files;
        }),
      )
  unfolding render write_output clean_output remove_files
  render_again lawful walk s t u summary tasks files root planned h walked emptied =
      let start : Summary = record {
        tasks = tasks;
        added = [];
        updated = [];
        deleted = [];
        unchanged = 0;
      } in
      let done : Summary = record {
        tasks = tasks;
        added = [];
        updated = [];
        deleted = [];
        unchanged = length files;
      } in
      let (_, _, copies, _) =
        and_then-eq-ok (copy_files globs source disk files s start)
          (λ v x. clean_output globs source disk files v x)
          (sym (rw (render, planned, write_output) refl) ∙ h) in
      let readable = copy_files-IsReadable files s _ start _ copies in
      let copied : All (IsCopied t) files = All-intro (IsCopied t) files (λ q m.
        let (body, mode, read, moded) = All-In IsReadable q files readable m in
        let (body', read', held) =
          (render_exact globs source disk lawful s t summary tasks files q planned h).0
            (any_of-In (λ f. f == q) q files m (==_refl q)) in
        (body, mode, read, moded, held ∙ ap some (ok_eq (sym read' ∙ read)))) in
      let wanted : (q : String)
          → In q (map (λ (rel, _). rel) (walk_entries "" root))
          → any_of (λ f. f == q) files ≡ true =
        λ q m. elim (Bool-cases (any_of (λ f. f == q) files)) [
          | inl among ↦ among
          | inr apart ↦
              let (there, found) = walk t root q walked m in
              absurd (
                there (
                  (render_exact globs source disk lawful s t summary tasks files q planned h).1
                    apart found))
        ] in
      let all_copied : copy_files globs source disk files t start ≡ (t, ok done) =
        copy_files_again files t start copied
        ∙ ap (λ n. (t, ok (record start { unchanged = n }))) (ground arith) in
      rw
        (
          render,
          planned,
          write_output,
          all_copied,
          clean_output,
          no_stale files t root walked wanted,
          remove_files,
          emptied,
        )
        refl
