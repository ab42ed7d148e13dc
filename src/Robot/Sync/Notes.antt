-- ===== src/Robot/Sync/Notes.antt =====
-- `getNotesInfo`: the early return and the pages lose nothing.
use notmanytuples.Prelude.{
  ℕ, ◌+◌, suc, ◌≡◌, refl, ◌∙◌, Bool, true, false, not, ◌&&◌, Option, none, some, List, [], ◌∷◌,
  ◌++◌, arith, if◌then◌else◌, Bool-cases, inl, inr,
}
use notmanytuples.Prelude.Int.{ℤ, pos, int_lt}
use notmanytuples.Prelude.Lists.{In, any_of}
use notmanytuples.Prelude.Time.{Time, is_zero, zero_time}
use notmanytuples.Result.{Result, ok}
use notmanytuples.Scorer.Errors.{Error}
use notmanytuples.Robot.Sync.{
  Note, NotesPage, NotesInfo, no_notes, see_note, scan_notes, get_notes_pages, get_notes_info,
}

-- The pages that GitLab lists from a page on, as one list of notes.
pub data IsListing (list_notes : ℤ → Result Error NotesPage) : ℤ → List Note → Type 0 where
  last_page :
      (page : ℤ) (answer : NotesPage)
      → list_notes page ≡ ok answer
      → int_lt answer.current_page answer.total_pages ≡ false
      → IsListing list_notes page answer.notes
  more_pages :
      (page : ℤ) (answer : NotesPage) (rest : List Note)
      → list_notes page ≡ ok answer
      → int_lt answer.current_page answer.total_pages ≡ true
      → IsListing list_notes answer.next_page rest
      → IsListing list_notes page (answer.notes ++ rest)

-- A scan of a page, and then of the rest, unless the page returned.
scan_notes-append :
    (info : NotesInfo) (xs ys : List Note)
    → scan_notes info (xs ++ ys) ≡ (
        if (scan_notes info xs).0 then scan_notes info xs else scan_notes (scan_notes info xs).1 ys)
unfolding scan_notes
scan_notes-append info [] ys = refl
scan_notes-append info (x ∷ xs) ys = elim (Bool-cases x.resolvable) [
  | inr e ↦ rw e (scan_notes-append info xs ys)
  | inl e ↦ elim (Bool-cases x.resolved) [
    | inr f ↦ rw (e, f) refl
    | inl f ↦ rw (e, f) (scan_notes-append (see_note info x.created_at) xs ys)
  ]
]

abbrev pub is_unresolved : Note → Bool
is_unresolved note = note.resolvable && not note.resolved

see_note_keeps :
    (info : NotesInfo) (o : Option Time)
    → info.has_unresolved_notes ≡ false
    → (see_note info o).has_unresolved_notes ≡ false
unfolding see_note
see_note_keeps info none h = h
see_note_keeps info (some t) h = ground arith

scan_notes-unresolved :
    (info : NotesInfo) (notes : List Note)
    → info.has_unresolved_notes ≡ false
    → (scan_notes info notes).1.has_unresolved_notes ≡ any_of is_unresolved notes
unfolding scan_notes
scan_notes-unresolved info [] h = h
scan_notes-unresolved info (x ∷ xs) h = elim (Bool-cases x.resolvable) [
  | inr e ↦ ground (arith, scan_notes-unresolved info xs h)
  | inl e ↦ elim (Bool-cases x.resolved) [
    | inr f ↦ ground arith
    | inl f ↦ ground (
      arith,
      scan_notes-unresolved (see_note info x.created_at) xs (see_note_keeps info x.created_at h),
    )
  ]
]

-- The time of the first review note.
abbrev pub first_time : List Note → Time
first_time [] = zero_time
first_time (x ∷ xs) =
    let rest = first_time xs in
    if x.resolvable then elim x.created_at [ none ↦ zero_time | some t ↦ t ] else rest

-- Every review note says when it was made.
pub IsDated : Note → Type 0
IsDated x = x.resolvable ≡ true → (t : Time) × (x.created_at ≡ some t) × (is_zero t ≡ false)

see_note_set :
    (info : NotesInfo) (o : Option Time)
    → is_zero info.last_note_created_at ≡ false
    → (see_note info o).last_note_created_at ≡ info.last_note_created_at
unfolding see_note
see_note_set info none h = refl
see_note_set info (some t) h = rw h refl

scan_notes-set :
    (info : NotesInfo) (notes : List Note)
    → is_zero info.last_note_created_at ≡ false
    → (scan_notes info notes).1.last_note_created_at ≡ info.last_note_created_at
unfolding scan_notes
scan_notes-set info [] h = refl
scan_notes-set info (x ∷ xs) h =
    let same = see_note_set info x.created_at h in
    let seen : is_zero (see_note info x.created_at).last_note_created_at ≡ false = rw same h in
    elim (Bool-cases x.resolvable) [
      | inr e ↦ rw e (scan_notes-set info xs h)
      | inl e ↦ elim (Bool-cases x.resolved) [
        | inr f ↦ rw (e, f) same
        | inl f ↦ rw (e, f) (scan_notes-set (see_note info x.created_at) xs seen ∙ same)
      ]
    ]

scan_notes-first :
    (notes : List Note)
    → ((x : Note) → In x notes → IsDated x)
    → (scan_notes no_notes notes).1.last_note_created_at ≡ first_time notes
unfolding scan_notes IsDated no_notes see_note
scan_notes-first [] h = refl
scan_notes-first (x ∷ xs) h = elim (Bool-cases x.resolvable) [
  | inr e ↦ rw e (scan_notes-first xs (λ y m. h y (inr m)))
  | inl e ↦
      let (t, made, set) = h x (inl refl) e in
      elim (Bool-cases x.resolved) [
        | inr f ↦ rw (e, f, made) refl
        | inl f ↦
            rw (e, f, made) (scan_notes-set (record no_notes { last_note_created_at = t }) xs set)
      ]
]

suc_add : (n m : ℕ) → suc n + m ≡ suc (n + m)
suc_add n m = omega arith

-- One round of the loop over the pages, by what the page holds.
get_notes_pages-last :
    (list_notes : ℤ → Result Error NotesPage) (m : ℕ) (page : ℤ) (info : NotesInfo)
    (answer : NotesPage)
    → list_notes page ≡ ok answer
    → int_lt answer.current_page answer.total_pages ≡ false
    → get_notes_pages list_notes (suc m) page info ≡ some (ok (scan_notes info answer.notes).1)
unfolding get_notes_pages
get_notes_pages-last list_notes m page info answer h k =
    elim (Bool-cases (scan_notes info answer.notes).0) [
      | inl e ↦ rw (h, get_notes_pages, e) refl
      | inr e ↦ rw (h, get_notes_pages, e, k) refl
    ]

get_notes_pages-more :
    (list_notes : ℤ → Result Error NotesPage) (m : ℕ) (page : ℤ) (info : NotesInfo)
    (answer : NotesPage) (rest : List Note)
    → list_notes page ≡ ok answer
    → int_lt answer.current_page answer.total_pages ≡ true
    → ((seen : NotesInfo)
        → get_notes_pages list_notes m answer.next_page seen ≡ some (ok (scan_notes seen rest).1))
    → get_notes_pages list_notes (suc m) page info
      ≡ some (ok (scan_notes info (answer.notes ++ rest)).1)
unfolding get_notes_pages
get_notes_pages-more list_notes m page info answer rest h k ih =
    let split = scan_notes-append info answer.notes rest in
    elim (Bool-cases (scan_notes info answer.notes).0) [
      | inl e ↦ rw (h, get_notes_pages, split, e) refl
      | inr e ↦ rw (h, get_notes_pages, split, e, k) (ih (scan_notes info answer.notes).1)
    ]

get_notes_pages_lem :
    (list_notes : ℤ → Result Error NotesPage) (page : ℤ) (notes : List Note)
    → IsListing list_notes page notes
    → (n : ℕ) × ((m : ℕ) (info : NotesInfo)
        → get_notes_pages list_notes (n + m) page info ≡ some (ok (scan_notes info notes).1))
get_notes_pages_lem list_notes _ _ (last_page page answer h k) =
    (1, λ m info. rw (suc_add 0 m) (get_notes_pages-last list_notes (0 + m) page info answer h k))
get_notes_pages_lem list_notes _ _ (more_pages page answer rest h k later) =
    let (n, ih) = get_notes_pages_lem list_notes answer.next_page rest later in
    (
      suc n,
      λ m info.
          rw (suc_add n m)
            (get_notes_pages-more list_notes (n + m) page info answer rest h k (ih m)),
    )

-- Where GitLab's pages end, `getNotesInfo` ends, with any fuel from some number on. It reports that
-- a review note is unresolved exactly if one of any page is; and where every review note says when
-- it was made, it reports the time of the first of them, the newest as GitLab lists them.
pub get_notes_info_total :
    (list_notes : ℤ → Result Error NotesPage) (notes : List Note)
    → IsListing list_notes (pos 0) notes
    → (info : NotesInfo) × ((n : ℕ) × ((m : ℕ)
          → get_notes_info list_notes (n + m) ≡ some (ok info)))
      × (info.has_unresolved_notes ≡ any_of is_unresolved notes)
      × (((note : Note) → In note notes → IsDated note)
          → info.last_note_created_at ≡ first_time notes)
unfolding get_notes_info
get_notes_info_total list_notes notes listing =
    let (n, enough) = get_notes_pages_lem list_notes (pos 0) notes listing in
    (
      (scan_notes no_notes notes).1,
      (n, λ m. enough m no_notes),
      scan_notes-unresolved no_notes notes (unfold no_notes in refl),
      scan_notes-first notes,
    )
