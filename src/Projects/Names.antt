-- ===== src/Projects/Names.antt =====
-- internal/gitlab/gitlab.go: the names of projects and the addresses of their pages.
use Prim.Native.Char.{code}
use Prim.Native.String.{String, [], ◌∷◌}
use notmanytuples.Prelude.{◌||◌, if◌then◌else◌, eqb}
use notmanytuples.Prelude.Int.{ℤ}
use notmanytuples.Prelude.Text.{◌<>◌}
use notmanytuples.Models.{User, Pipeline, MergeRequest, get_project_name}

-- The settings of GitLab that are read here.
pub record GitlabConfig : Type 0 where
  pub base_url : String
  pub group_name : String
  pub template_project : String
  pub ci_config_path : String
  pub default_readme : String
  pub task_url_prefix : String

-- The package transliterator, `strings.ReplaceAll` of two underscores by nothing, and the decimal
-- text of a number.
pub record Cleanup : Type 0 where
  pub transliterate : String → String
  pub drop_double_underscores : String → String
  pub show : ℤ → String

-- `strings.Map`, with the two characters that are dropped.
drop_marks : String → String
drop_marks [] = []
drop_marks (c ∷ s) =
    let rest = drop_marks s in if eqb (code c) b'-' || eqb (code c) 39 then rest else c ∷ rest

unfoldable pub cleanup_name : Cleanup → String → String
unfolding drop_marks
cleanup_name cleanup name = drop_marks (cleanup.transliterate name)

unfoldable pub cleanup_login : Cleanup → String → String
cleanup_login cleanup login = cleanup.drop_double_underscores login

-- `login` is what the pointer of the user points to.
unfoldable pub make_project_name : Cleanup → User → String → String
unfolding cleanup_name cleanup_login
make_project_name cleanup user login =
    user.group_name
    <> "-"
    <> cleanup_name cleanup user.first_name
    <> "-"
    <> cleanup_name cleanup user.last_name
    <> "-"
    <> cleanup_login cleanup login

module _ (conf : GitlabConfig) where
  unfoldable pub make_project_url : String → String
  make_project_url name = conf.base_url <> "/" <> conf.group_name <> "/" <> name

  unfoldable pub make_user_project_url : User → String
  unfolding make_project_url get_project_name
  make_user_project_url user = make_project_url (get_project_name user)

  unfoldable pub make_project_submits_url : User → String
  unfolding make_user_project_url
  make_project_submits_url user = make_user_project_url user <> "/-/jobs"

  unfoldable pub make_project_with_namespace : String → String
  make_project_with_namespace name = conf.group_name <> "/" <> name

  unfoldable pub make_project_pipeline_url : Cleanup → String → ℤ → String
  unfolding make_project_url
  make_project_pipeline_url cleanup name id =
      make_project_url name <> "/-/pipelines/" <> cleanup.show id

  unfoldable pub make_pipeline_url : Cleanup → User → Pipeline → String
  unfolding make_project_pipeline_url get_project_name
  make_pipeline_url cleanup user pipeline =
      make_project_pipeline_url cleanup (get_project_name user) pipeline.id

  unfoldable pub make_branch_url : User → Pipeline → String
  unfolding make_user_project_url
  make_branch_url user pipeline = make_user_project_url user <> "/-/tree/submits/" <> pipeline.task

  unfoldable pub make_merge_request_url : Cleanup → User → MergeRequest → String
  unfolding make_user_project_url
  make_merge_request_url cleanup user request =
      make_user_project_url user <> "/-/merge_requests/" <> cleanup.show request.iid

  unfoldable pub make_task_url : String → String
  make_task_url task = conf.task_url_prefix <> "/" <> task
