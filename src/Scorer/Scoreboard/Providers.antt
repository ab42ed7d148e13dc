-- ===== src/Scorer/Scoreboard/Providers.antt =====
-- The providers of the scoreboard read from memory what the tables would list.
use notmanytuples.Prelude.{
  String, ◌≡◌, refl, sym, ap, ◌∙◌, inl, inr, Bool, false, Option, none, some, List, [], ◌∷◌, ◌++◌,
  map, ◌==◌, string_eq, Bool-cases, arith,
}
use mathlib.Core.List.{append-nil, append_assoc}
use notmanytuples.Prelude.Dict.{lookup}
use notmanytuples.Prelude.Lists.{All, keep}
use notmanytuples.Prelude.Best.{merge_all, lookup-merge_by}
use notmanytuples.Config.{MergeRequestsConfig}
use notmanytuples.Models.{Pipeline, Flag, MergeRequest}
use notmanytuples.Result.{Result, ok}
use notmanytuples.Scorer.Errors.{Error, deref}
use notmanytuples.Scorer.Scoreboard.{
  append_row, cached_provider, flag_logins, make_cached_pipelines_provider,
  make_cached_flags_provider, make_cached_merge_requests_provider,
}
use notmanytuples.Scorer.Users.{Provider}

module _ {A B : Type 0} (value : A → B) where
  merge_all-append_row :
      (ys : List B) (xs : List A)
      → merge_all (append_row value) (some ys) xs ≡ some (ys ++ map value xs)
  unfolding merge_all
  merge_all-append_row ys [] = ap some (sym (append-nil ys))
  merge_all-append_row ys (x ∷ xs) =
      merge_all-append_row (ys ++ value x ∷ []) xs
      ∙ ap some (append_assoc ys (value x ∷ []) (map value xs))

  found_rows : Option (List B) → Result Error (List B)
  found_rows none = ok []
  found_rows (some xs) = ok xs

  found_rows-merge_all :
      (xs : List A) → found_rows (merge_all (append_row value) none xs) ≡ ok (map value xs)
  unfolding merge_all found_rows
  found_rows-merge_all [] = refl
  found_rows-merge_all (x ∷ xs) = ap found_rows (merge_all-append_row (value x ∷ []) xs)

  -- A provider that reads from memory never fails: for a key it gives the values of the rows with
  -- that key, in the order of the table, and no rows for a key that no row has.
  cached_provider_lem :
      (key : A → String) (rows : List A) (name : String)
      → cached_provider key value rows name ≡ ok (map value (keep (λ x. key x == name) rows))
  unfolding cached_provider lookup found_rows
  cached_provider_lem key rows name =
      ap found_rows (lookup-merge_by key (append_row value) name [] rows)
      ∙ found_rows-merge_all (keep (λ x. key x == name) rows)

map-id : {A : Type 0} (xs : List A) → map (λ x. x) xs ≡ xs
map-id [] = refl
map-id (x ∷ xs) = ap (λ ys. x ∷ ys) (map-id xs)

rows_of :
    {A : Type 0} (key : A → String) (rows : List A) (name : String)
    → cached_provider key (λ x. x) rows name ≡ ok (keep (λ x. key x == name) rows)
rows_of key rows name =
    cached_provider_lem (λ x. x) key rows name ∙ ap ok (map-id (keep (λ x. key x == name) rows))

-- The flag was submitted under the login.
abbrev pub is_by : String → Flag → Bool
is_by login f = elim f.gitlab_login [ none ↦ false | some l ↦ l == login ]

abbrev pub HasLogin : Flag → Type 0
HasLogin f = (login : String) × (f.gitlab_login ≡ some login)

abbrev values_of : String → List (String × Flag) → List Flag
values_of login rows = map (λ (row : String × Flag). row.1) (keep (λ row. row.0 == login) rows)

flag_logins_total :
    (flags : List Flag)
    → All HasLogin flags
    → (rows : List (String × Flag)) × (flag_logins flags ≡ ok rows)
      × ((login : String) → values_of login rows ≡ keep (is_by login) flags)
unfolding flag_logins deref
flag_logins_total [] h = ([], refl, λ login. refl)
flag_logins_total (f ∷ flags) h =
    let (name, named) = h.0 in
    let (rows, listed, same) = flag_logins_total flags h.1 in
    (
      (name, f) ∷ rows,
      rw (flag_logins, named, listed) refl,
      λ login. elim (Bool-cases (name == login)) [
        | inl own ↦ ground (arith, own, named, same login)
        | inr other ↦ ground (arith, other, named, same login)
      ],
    )

-- The three providers of the scoreboard, made from the tables of pipelines, of flags and of merge
-- requests, of which every flag has a login: the first and the last give for a project the rows of
-- that project, the second gives for a login the flags submitted under it, each in the order of
-- its table.
pub make_cached_providers_lem :
    (conf : MergeRequestsConfig) (pipelines : List Pipeline) (flags : List Flag)
    (requests : List MergeRequest)
    → All HasLogin flags
    → ((of_project : Provider Pipeline) × (make_cached_pipelines_provider (ok pipelines)
          ≡ ok of_project)
        × ((project : String)
            → of_project project ≡ ok (keep (λ p. p.project == project) pipelines)))
      × ((of_login : Provider Flag) × (make_cached_flags_provider (ok flags) ≡ ok of_login)
          × ((login : String) → of_login login ≡ ok (keep (is_by login) flags)))
      × ((of_project : Provider MergeRequest) × (make_cached_merge_requests_provider
              (some conf)
              (ok requests)
            ≡ ok (some (conf, of_project)))
          × ((project : String)
              → of_project project ≡ ok (keep (λ mr. mr.project == project) requests)))
unfolding make_cached_pipelines_provider make_cached_flags_provider
    make_cached_merge_requests_provider
make_cached_providers_lem conf pipelines flags requests named =
    let (rows, listed, same) = flag_logins_total flags named in
    (
      (
        cached_provider (λ p. p.project) (λ p. p) pipelines,
        refl,
        rows_of (λ p. p.project) pipelines,
      ),
      (
        cached_provider (λ row. row.0) (λ row. row.1) rows,
        rw (make_cached_flags_provider, listed) refl,
        λ login. cached_provider_lem (λ row. row.1) (λ row. row.0) rows login ∙ ap ok (same login),
      ),
      (
        cached_provider (λ mr. mr.project) (λ mr. mr) requests,
        refl,
        rows_of (λ mr. mr.project) requests,
      ),
    )
