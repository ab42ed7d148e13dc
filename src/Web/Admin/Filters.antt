-- ===== src/Web/Admin/Filters.antt =====
-- internal/web/admin.go: the filters of the table of submissions, and the address of a page of it.
use notmanytuples.Prelude.{String, Bool, not, ◌&&◌, none, some, [], if◌then◌else◌, ◌==◌, string_eq}
use notmanytuples.Prelude.Int.{ℤ, pos, int_lt, ◌-ℤ◌, ◌+int◌}
use notmanytuples.Prelude.Dict.{Dict, lookup, insert}
use notmanytuples.Prelude.Text.{◌<>◌}
use notmanytuples.Result.{Result, ok, err}

pub record AdminFilters : Type 0 where
  pub kind : String
  pub group : String
  pub task : String
  pub login : String
  pub state : String
  pub page : ℤ

pub record AdminPagination : Type 0 where
  pub page : ℤ
  pub has_previous : Bool
  pub previous_url : String
  pub has_next : Bool
  pub next_url : String

-- The packages strconv and strings, and `url.Values.Encode`.
pub record Codec : Type 0 where
  pub atoi : String → Result String ℤ
  pub itoa : ℤ → String
  pub trim_space : String → String
  pub encode : Dict String String → String

-- `c.Query(key)` and `c.DefaultQuery(key, default)`.
default_query : Dict String String → String → String → String
unfolding lookup
default_query query key default = elim (lookup key query) [ none ↦ default | some value ↦ value ]

module _ (codec : Codec) where
  page_of : String → ℤ
  page_of text = elim (codec.atoi text) [
    | err e ↦ pos 1
    | ok page ↦ if int_lt (pos 0) page then page else pos 1
  ]

  unfoldable pub normalize_admin_filters : Dict String String → AdminFilters
  unfolding default_query page_of
  normalize_admin_filters query =
      let kind = default_query query "kind" "all" in
      let state = default_query query "state" "all" in
      record {
        kind = if not (kind == "regular") && not (kind == "leaderboard") then "all" else kind;
        group = default_query query "group" "";
        task = default_query query "task" "";
        login = codec.trim_space (default_query query "login" "");
        state = if not (state == "active") && not (state == "banned") then "all" else state;
        page = page_of (default_query query "page" "");
      }

  set_unless_empty : String → String → Dict String String → Dict String String
  unfolding insert
  set_unless_empty key value query = if value == "" then query else insert key value query

  -- The values of the address.
  unfoldable pub admin_query : AdminFilters → ℤ → Dict String String
  unfolding set_unless_empty insert
  admin_query filters page =
      let values = insert "state" filters.state (
        set_unless_empty "login" filters.login (
          set_unless_empty "task" filters.task
            (set_unless_empty "group" filters.group (insert "kind" filters.kind [])))) in
      if int_lt (pos 1) page then insert "page" (codec.itoa page) values else values

  unfoldable pub admin_submissions_url : AdminFilters → ℤ → String
  unfolding admin_query
  admin_submissions_url filters page =
      "/admin/submissions?" <> codec.encode (admin_query filters page)

  -- The links to the neighbours of a page, of so many.
  unfoldable pub admin_pagination : AdminFilters → ℤ → ℤ → AdminPagination
  unfolding admin_submissions_url
  admin_pagination filters page total_pages =
      let has_previous = int_lt (pos 1) page in
      let has_next = int_lt page total_pages in
      record {
        page = page;
        has_previous = has_previous;
        previous_url = if has_previous then admin_submissions_url filters (page -ℤ pos 1) else "";
        has_next = has_next;
        next_url = if has_next then admin_submissions_url filters (page +int pos 1) else "";
      }
