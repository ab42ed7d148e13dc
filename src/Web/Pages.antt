-- ===== src/Web/Pages.antt =====
-- internal/database/admin_submissions.go: the pages of the table of submissions.
use native.Mathlib.Nat.{div-mul-le_self, mul-le-mul_right, lt_of_le_of_lt}
use notmanytuples.Prelude.{
  ℕ, zero, suc, ap, inl, inr, Bool-cases, ◌+◌, ◌-◌, ◌*◌, ◌/◌, ◌≤◌, ◌<◌, ◌≡◌, if◌then◌else◌, eqb,
  arith,
}
use notmanytuples.Prelude.Int.{ℤ, pos, int_lt, ◌≤ℤ◌, pos_part}

abbrev pub default_page_size : ℤ
default_page_size = pos 50

abbrev pub max_page_size : ℤ
max_page_size = pos 100

unfoldable pub normalize_admin_pagination : ℤ → ℤ → ℤ × ℤ
normalize_admin_pagination page page_size =
    let size = if int_lt page_size (pos 1) then default_page_size else page_size in
    (
      if int_lt page (pos 1) then pos 1 else page,
      if int_lt max_page_size size then max_page_size else size,
    )

-- `totalPages`, and the page that is shown, for rows counted as `total`; a count is not negative.
unfoldable pub page_count : ℕ → ℕ → ℕ
page_count total page_size =
    let pages = (total + page_size - 1) / page_size in if eqb pages 0 then 1 else pages

unfoldable pub shown_page : ℤ → ℕ → ℤ
shown_page page total_pages = if int_lt (pos total_pages) page then pos total_pages else page

-- `(page - 1) * pageSize`, the offset of the page.
unfoldable pub page_offset : ℤ → ℕ → ℕ
page_offset page page_size = (pos_part page - 1) * page_size

-- No row stands before the first page.
none_before : (total n : ℕ) → 1 ≤ total → 0 * n < total
none_before total n q = grind arith

-- A number of pages that is not more than the rows need.
last_page_starts : (total n k : ℕ) → k * n ≤ total + n - 1 → 1 ≤ n → 1 ≤ total → (k - 1) * n < total
last_page_starts total n zero h p q = none_before total n q
last_page_starts total n (suc k) h p q =
    let all : suc k * n ≡ k * n + n = grind arith in
    let before : (suc k - 1) * n ≡ k * n = ap (λ j. j * n) (omega arith) in
    rw before (omega (arith, all, h, p, q))

sizes :
    (page page_size : ℤ)
    → let size = (normalize_admin_pagination page page_size).1 in
      (size ≡ pos (pos_part size))
      × (1 ≤ pos_part size)
      × (pos_part size ≤ 100)
      × (pos 1 ≤ℤ (normalize_admin_pagination page page_size).0)
unfolding normalize_admin_pagination
sizes page page_size = (ground arith, ground arith, ground arith, ground arith)

shown :
    (page : ℤ) (pages : ℕ)
    → pos 1 ≤ℤ page
    → 1 ≤ pages
    → (pos 1 ≤ℤ shown_page page pages) × (pos_part (shown_page page pages) ≤ pages)
unfolding shown_page
shown page pages h p = (ground arith, ground arith)

page_count_positive : (total n : ℕ) → 1 ≤ page_count total n
unfolding page_count
page_count_positive total n = at_least_one ((total + n - 1) / n)
  where
    at_least_one : (q : ℕ) → 1 ≤ (if eqb q 0 then 1 else q)
    at_least_one q = ground arith

page_count_starts : (total n : ℕ) → 1 ≤ n → 1 ≤ total → (page_count total n - 1) * n < total
unfolding page_count
page_count_starts total n p q =
    of_quotient ((total + n - 1) / n) (div-mul-le_self (total + n - 1) n)
  where
    of_quotient : (k : ℕ) → k * n ≤ total + n - 1 → ((if eqb k 0 then 1 else k) - 1) * n < total
    of_quotient k h = elim (Bool-cases (eqb k 0)) [
      | inl e ↦ rw e (none_before total n q)
      | inr e ↦ rw e (last_page_starts total n k h p q)
    ]

-- Whatever page and size are asked for, the size is from 1 to 100, the page that is shown is from 1
-- to the number of pages, and where there are rows it begins at one of them.
pub shown_page_bounds :
    (page page_size : ℤ) (total : ℕ)
    → (n : ℕ) × ((normalize_admin_pagination page page_size).1 ≡ pos n)
      × (1 ≤ n)
      × (n ≤ 100)
      × (pos 1 ≤ℤ shown_page (normalize_admin_pagination page page_size).0 (page_count total n))
      × (pos_part (shown_page (normalize_admin_pagination page page_size).0 (page_count total n))
          ≤ page_count total n)
      × (1 ≤ total
          → page_offset
              (shown_page (normalize_admin_pagination page page_size).0 (page_count total n))
              n
            < total)
unfolding page_offset
shown_page_bounds page page_size total =
    let (size, least, most, first) = sizes page page_size in
    let n = pos_part (normalize_admin_pagination page page_size).1 in
    let (from, to) =
      shown (normalize_admin_pagination page page_size).0 (page_count total n) first
        (page_count_positive total n) in
    (
      n,
      size,
      least,
      most,
      from,
      to,
      λ q.
          lt_of_le_of_lt (mul-le-mul_right n (omega (arith, to)))
            (page_count_starts total n least q),
    )
