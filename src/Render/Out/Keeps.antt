-- ===== src/Render/Out/Keeps.antt =====
-- What `Render` does not touch: whatever the calls of the package os on the output leave alone.
use notmanytuples.Prelude.{
  ℕ, String, ◌≡◌, ◌∙◌, inl, inr, Option, none, some, List, [], ◌∷◌, ◌==◌, string_eq, eqb,
  Bool-cases,
}
use notmanytuples.Result.{Result, ok, err, and_then, Result-cases}
use notmanytuples.Scorer.Errors.{Error}
use notmanytuples.Render.{Source, Globs}
use notmanytuples.Render.Out.{
  Disk, Summary, write_new, copy_body, copy_file, copy_files, stale_files, remove_files,
  remove_dirs, remove_empty_dirs, deepest_first, clean_output, write_output, read_source, render,
}

-- A part of the state that the calls which write to the output keep.
pub record Keeps {S R : Type 0} (disk : Disk S) (target : S → R) : Type 0 where
  pub mkdir_parents : (s : S) (p : String) → target (disk.mkdir_parents s p).0 ≡ target s
  pub write_file :
      (s : S) (p body : String) (mode : ℕ) → target (disk.write_file s p body mode).0 ≡ target s
  pub remove : (s : S) (p : String) → target (disk.remove s p).0 ≡ target s

module _ {S R A B : Type 0} (target : S → R) (held : R) where
  -- A property of the end of two steps: the first step keeps the target, and an error ends them.
  pub and_then-elim :
      (P : S × Result Error B → Type 0)
      → (first : S × Result Error A) (next : S → A → S × Result Error B) → target first.0 ≡ held
      → ((t : S) (e : Error) → target t ≡ held → P (t, err e))
      → ((t : S) (a : A) → target t ≡ held → P (next t a))
      → P (and_then first next)
  and_then-elim P (t, ok a) next keeps failed done = done t a keeps
  and_then-elim P (t, err e) next keeps failed done = failed t e keeps

  pub and_then-keeps :
      (first : S × Result Error A) (next : S → A → S × Result Error B)
      → target first.0 ≡ held
      → ((t : S) (a : A) → target t ≡ held → target (next t a).0 ≡ held)
      → target (and_then first next).0 ≡ held
  and_then-keeps first next keeps done =
      and_then-elim (λ r. target r.0 ≡ held) first next keeps (λ t e same. same) done

module _ {F S R : Type 0} (globs : Globs) (source : Source F) (disk : Disk S) (target : S → R)
    (keeps : Keeps disk target) (held : R) where
  write_new-keeps :
      (s : S) (rel body : String) (mode : ℕ) (summary : Summary)
      → target s ≡ held
      → target (write_new globs source disk s rel body mode summary).0 ≡ held
  unfolding write_new
  write_new-keeps s rel body mode summary h =
      and_then-keeps target held (disk.mkdir_parents s rel) _ (keeps.mkdir_parents s rel ∙ h)
        (λ t _ same.
          and_then-keeps target held (disk.write_file t rel body mode) _
            (keeps.write_file t rel body mode ∙ same) (λ u _ last. last))

  copy_body-keeps :
      (s : S) (rel body : String) (mode : ℕ) (summary : Summary) (existing : Option String)
      → target s ≡ held
      → target (copy_body globs source disk s rel body mode summary existing).0 ≡ held
  unfolding copy_body
  copy_body-keeps s rel body mode summary none h = write_new-keeps s rel body mode _ h
  copy_body-keeps s rel body mode summary (some existing) h = elim (Bool-cases (existing == body)) [
    | inl same ↦ rw (copy_body, same) h
    | inr other ↦ rw (copy_body, other) (write_new-keeps s rel body mode _ h)
  ]

  copy_file-keeps :
      (s : S) (summary : Summary) (rel : String)
      → target s ≡ held
      → target (copy_file globs source disk s summary rel).0 ≡ held
  unfolding copy_file
  copy_file-keeps s summary rel h = elim (Result-cases (source.read_file rel)) [
    | inr (e, bad) ↦ rw (copy_file, bad) h
    | inl (body, good) ↦ elim (Result-cases (source.file_mode rel)) [
      | inr (e, bad) ↦ rw (copy_file, good, bad) h
      | inl (mode, moded) ↦
          rw (copy_file, good, moded)
            (copy_body-keeps s rel body mode summary (disk.read_file s rel) h)
    ]
  ]

  copy_files-keeps :
      (files : List String) (s : S) (summary : Summary)
      → target s ≡ held
      → target (copy_files globs source disk files s summary).0 ≡ held
  unfolding copy_files
  copy_files-keeps [] s summary h = h
  copy_files-keeps (rel ∷ files) s summary h =
      and_then-keeps target held (copy_file globs source disk s summary rel) _
        (copy_file-keeps s summary rel h) (λ t next same. copy_files-keeps files t next same)

  remove_files-keeps :
      (stale : List String) (s : S) (summary : Summary)
      → target s ≡ held
      → target (remove_files globs source disk stale s summary).0 ≡ held
  unfolding remove_files
  remove_files-keeps [] s summary h = h
  remove_files-keeps (rel ∷ stale) s summary h =
      and_then-keeps target held (disk.remove s rel) _ (keeps.remove s rel ∙ h)
        (λ t _ same. remove_files-keeps stale t _ same)

  remove_dirs-keeps :
      (dirs : List String) (s : S)
      → target s ≡ held
      → target (remove_dirs globs source disk dirs s).0 ≡ held
  unfolding remove_dirs
  remove_dirs-keeps [] s h = h
  remove_dirs-keeps (name ∷ dirs) s h = elim (Result-cases (disk.read_dir s name)) [
    | inr (e, bad) ↦ rw (remove_dirs, bad) h
    | inl (entries, listed) ↦ elim (Bool-cases (eqb entries 0)) [
      | inr full ↦ rw (remove_dirs, listed, full) (remove_dirs-keeps dirs s h)
      | inl empty ↦
          rw (remove_dirs, listed, empty)
            (and_then-keeps target held (disk.remove s name) _ (keeps.remove s name ∙ h)
              (λ t _ same. remove_dirs-keeps dirs t same))
    ]
  ]

  remove_empty_dirs-keeps :
      (s : S) → target s ≡ held → target (remove_empty_dirs globs source disk s).0 ≡ held
  unfolding remove_empty_dirs
  remove_empty_dirs-keeps s h = elim (Result-cases (disk.tree s)) [
    | inr (e, bad) ↦ rw (remove_empty_dirs, bad) h
    | inl (root, good) ↦ rw (remove_empty_dirs, good) (remove_dirs-keeps (deepest_first root) s h)
  ]

  clean_output-keeps :
      (files : List String) (s : S) (summary : Summary)
      → target s ≡ held
      → target (clean_output globs source disk files s summary).0 ≡ held
  unfolding clean_output
  clean_output-keeps files s summary h =
      elim (Result-cases (stale_files globs source disk files s)) [
        | inr (e, bad) ↦ rw (clean_output, bad) h
        | inl (stale, good) ↦
            rw (clean_output, good)
              (and_then-keeps target held (remove_files globs source disk stale s summary) _
                (remove_files-keeps stale s summary h)
                (λ t _ same.
                  and_then-keeps target held (remove_empty_dirs globs source disk t) _
                    (remove_empty_dirs-keeps t same) (λ u _ last. last)))
      ]

  pub render-keeps : (s : S) → target s ≡ held → target (render globs source disk s).0 ≡ held
  unfolding render write_output
  render-keeps s h = elim (Result-cases (read_source globs source disk)) [
    | inr (e, bad) ↦ rw (render, bad) h
    | inl (planned, good) ↦
        rw (render, good, write_output)
          (and_then-keeps target held
            (copy_files globs source disk planned.1 s
              (record { tasks = planned.0; added = []; updated = []; deleted = []; unchanged = 0 }))
            _ (copy_files-keeps planned.1 s _ h)
            (λ t summary same. clean_output-keeps planned.1 t summary same))
  ]
