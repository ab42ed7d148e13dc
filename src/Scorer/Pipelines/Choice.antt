-- ===== src/Scorer/Pipelines/Choice.antt =====
-- Which pipeline, and which flag, represents a task.
use notmanytuples.Prelude.{
  String, ◌≡◌, refl, inl, inr, not, none, some, List, [], ◌∷◌, arith, eqb, ◌==◌, string_eq,
  Bool-cases, eq_iff,
}
use notmanytuples.Prelude.Int.{int_Eq}
use notmanytuples.Prelude.Lists.{keep}
use notmanytuples.Prelude.Dict.{Dict, lookup, insert}
use notmanytuples.Prelude.Best.{
  IsStrict, challenge, best, Represents, Represents-of_best, merge_by, lookup-merge_by,
}
use notmanytuples.Models.{User, Pipeline, Flag, get_project_name, pipeline_status_success}
use notmanytuples.Result.{Result, ok}
use notmanytuples.Scorer.Errors.{Error, wrap, deref}
use notmanytuples.Scorer.Pipelines.{
  classify_pipeline_status, pipeline_less, SubmissionBans, is_banned, pick_pipelines, flag_less,
  pick_flags, task_status_success, load_user_pipelines, load_user_flags,
}

-- The highest class is that of green pipelines alone.
classify_success :
    (status : String)
    → (status == pipeline_status_success)
      ≡ eqb (classify_pipeline_status status) task_status_success
unfolding classify_pipeline_status
classify_success status = elim (Bool-cases (status == pipeline_status_success)) [
  | inl h ↦ rw ((eq_iff status pipeline_status_success).0 h)
  | inr h ↦ ground arith
]

-- `pipelineLess` is a strict order on pipelines.
pub pipeline_less-IsStrict : IsStrict pipeline_less
unfolding pipeline_less
pipeline_less-IsStrict = record {
  irrefl = λ a. ground arith;
  trans = λ a b c h k.
      ground
        (arith, classify_success a.status, classify_success b.status, classify_success c.status);
}

-- The pipelines that count for a task: those that are not banned.
abbrev pub eligible : SubmissionBans → String → List Pipeline → List Pipeline
eligible bans task ps = keep (λ p. p.task == task) (keep (λ p. not (is_banned bans p.id)) ps)

pick_pipelines-merge_by :
    (bans : SubmissionBans) (m : Dict String Pipeline) (ps : List Pipeline)
    → pick_pipelines bans m ps
      ≡ merge_by
          (λ p. p.task)
          (challenge pipeline_less)
          m
          (keep (λ p. not (is_banned bans p.id)) ps)
unfolding pick_pipelines merge_by
pick_pipelines-merge_by bans m [] = refl
pick_pipelines-merge_by bans m (p ∷ ps) =
    let m' = insert p.task (challenge pipeline_less (lookup p.task m) p) m in
    elim (Bool-cases (is_banned bans p.id)) [
      | inl h ↦ rw (h, pick_pipelines) (pick_pipelines-merge_by bans m ps)
      | inr h ↦ rw (h, pick_pipelines) (pick_pipelines-merge_by bans m' ps)
    ]

lookup-pick_pipelines :
    (bans : SubmissionBans) (ps : List Pipeline) (task : String)
    → lookup task (pick_pipelines bans [] ps) ≡ best pipeline_less none (eligible bans task ps)
unfolding lookup
lookup-pick_pipelines bans ps task = rw (pick_pipelines-merge_by bans [] ps) (
    lookup-merge_by (λ p. p.task) (challenge pipeline_less) task []
      (keep (λ p. not (is_banned bans p.id)) ps))

-- Where the provider answers, `loadUserPipelines` succeeds, and the pipeline it picks for a task is
-- one of the task that is not banned and that no other such pipeline precedes by `pipelineLess`; a
-- task has none only if it has no pipeline that counts.
pub load_user_pipelines-Represents :
    (user : User) (provider : String → Result Error (List Pipeline)) (bans : SubmissionBans)
    (ps : List Pipeline)
    → provider (get_project_name user) ≡ ok ps
    → (m : Dict String Pipeline) × (load_user_pipelines user provider bans ≡ ok m)
      × Represents pipeline_less (λ task. eligible bans task ps) m
unfolding load_user_pipelines wrap
load_user_pipelines-Represents user provider bans ps h = (
  pick_pipelines bans [] ps,
  ground arith,
  Represents-of_best pipeline_less pipeline_less-IsStrict (λ task. eligible bans task ps)
      (pick_pipelines bans [] ps) (lookup-pick_pipelines bans ps),
)

flag_less-IsStrict : IsStrict flag_less
flag_less-IsStrict = record { irrefl = λ a. ground arith; trans = λ a b c h k. ground arith }

pick_flags-merge_by :
    (m : Dict String Flag) (fs : List Flag)
    → pick_flags m fs ≡ merge_by (λ f. f.task) (challenge flag_less) m fs
unfolding pick_flags merge_by
pick_flags-merge_by m [] = refl
pick_flags-merge_by m (f ∷ fs) =
    pick_flags-merge_by (insert f.task (challenge flag_less (lookup f.task m) f) m) fs

-- Where the user has a login and the provider answers, `loadUserFlags` succeeds, and the flag of a
-- task is one of the task with the earliest creation time; a task has none only if the user
-- submitted none.
pub load_user_flags-Represents :
    (user : User) (provider : String → Result Error (List Flag)) (login : String) (fs : List Flag)
    → user.gitlab_login ≡ some login
    → provider login ≡ ok fs
    → (m : Dict String Flag) × (load_user_flags user provider ≡ ok m)
      × Represents flag_less (λ task. keep (λ f. f.task == task) fs) m
unfolding load_user_flags wrap deref lookup
load_user_flags-Represents user provider login fs h k = (
  pick_flags [] fs,
  ground arith,
  Represents-of_best flag_less flag_less-IsStrict (λ task. keep (λ f. f.task == task) fs)
      (pick_flags [] fs)
      (λ task.
        rw (pick_flags-merge_by [] fs)
          (lookup-merge_by (λ (f : Flag). f.task) (challenge flag_less) task [] fs)),
)
