-- ===== src/Projects/Pages.antt =====
-- The loop over the pages of a project's members ends, and misses no member.
use notmanytuples.Prelude.{
  ℕ, zero, suc, ◌<◌, ◌≡◌, refl, sym, inl, inr, Bool, true, false, ◌||◌, some, List, [], ◌∷◌, ltb,
  Bool-cases, arith,
}
use notmanytuples.Prelude.Int.{ℤ, int_eq}
use notmanytuples.Prelude.Lists.{any_of}
use notmanytuples.Prelude.Pages.{page_count}
use notmanytuples.Result.{ok}
use notmanytuples.Projects.{Api, MembersPage, find_member}

-- GitLab's pages: from page `page` on there are the members `pages`, page by page, and the last
-- page says so.
abbrev pub Answers : {S : Type 0} → Api S → S → ℤ → List ℤ → List (List ℤ) → ℕ → Type 0
Answers api s project first [] page =
    (answer : MembersPage) × (api.list_members s project page ≡ ok answer)
    × (answer.members ≡ first)
    × (ltb answer.current_page answer.total_pages ≡ false)
Answers api s project first (next ∷ pages) page =
    (answer : MembersPage) × (api.list_members s project page ≡ ok answer)
    × (answer.members ≡ first)
    × (ltb answer.current_page answer.total_pages ≡ true)
    × Answers api s project next pages answer.next_page

-- Whether the user is among the members of any page.
abbrev pub is_member : ℤ → List ℤ → List (List ℤ) → Bool
is_member user first [] = any_of (λ m. int_eq m user) first
is_member user first (next ∷ pages) = any_of (λ m. int_eq m user) first || is_member user next pages

module _ {S : Type 0} (api : Api S) (conf : _) where
  -- Where GitLab's pages of members end, the loop over them ends within one round for each page,
  -- and tells whether the user is on any of the pages.
  pub find_member_total :
      (pages : List (List ℤ)) (first : List ℤ) (fuel : ℕ) (s : S) (project user : ℤ) (page : ℕ)
      → Answers api s project first pages page
      → page_count pages < fuel
      → find_member api conf fuel s project user page ≡ some (ok (is_member user first pages))
  unfolding find_member
  find_member_total pages first zero s project user page answers enough = absurd (omega arith)
  find_member_total [] first (suc fuel) s project user page (answer, listed, same, last) enough =
      elim (Bool-cases (any_of (λ m. int_eq m user) answer.members)) [
        | inl yes_member ↦ rw (find_member, listed, yes_member, sym same, yes_member) refl
        | inr other ↦ rw (find_member, listed, other, last, sym same, other) refl
      ]
  find_member_total (next ∷ pages) first (suc fuel) s project user page
        (answer, listed, same, more, rest) enough =
      let later =
        find_member_total pages next fuel s project user answer.next_page rest (omega arith) in
      elim (Bool-cases (any_of (λ m. int_eq m user) answer.members)) [
        | inl yes_member ↦ rw (find_member, listed, yes_member, sym same, yes_member) refl
        | inr other ↦ rw (find_member, listed, other, more, later, sym same, other) refl
      ]
