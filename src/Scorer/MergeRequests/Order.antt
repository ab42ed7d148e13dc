-- ===== src/Scorer/MergeRequests/Order.antt =====
-- Which merge request represents a task.
use notmanytuples.Prelude.{
  String, ◌≡◌, refl, sym, ◌∙◌, inl, inr, true, not, none, some, List, [], ◌∷◌, arith, if◌then◌else◌,
  ◌==◌, string_eq, Bool-cases,
}
use mathlib.Core.Path.{subst}
use notmanytuples.Prelude.Int.{int_Eq}
use notmanytuples.Prelude.Lists.{keep, any_of}
use notmanytuples.Prelude.Dict.{Dict, lookup, insert}
use notmanytuples.Prelude.Best.{
  IsStrict, IsBest, best, best-IsBest, merge_all-none, merge_by, merge_all, lookup-merge_by,
}
use notmanytuples.Models.{User, MergeRequest, get_project_name}
use notmanytuples.Result.{Result, ok}
use notmanytuples.Scorer.Errors.{Error, wrap}
use notmanytuples.Scorer.Pipelines.{SubmissionBans, is_banned}
use notmanytuples.Scorer.MergeRequests.{
  has_notes, merge_request_better, MergeRequestInfo, update_info, pick_merge_requests,
  load_user_merge_requests,
}

-- `mergeRequestBetter` is a strict order on merge requests.
pub merge_request_better-IsStrict : IsStrict merge_request_better
unfolding merge_request_better
merge_request_better-IsStrict = record {
  irrefl = λ a. ground arith;
  trans = λ a b c h k. ground arith;
}

-- The requests that count for a task: those whose last pipeline is not banned.
abbrev pub counted : SubmissionBans → String → List MergeRequest → List MergeRequest
counted bans task mrs =
    keep (λ mr. mr.task == task) (keep (λ mr. not (is_banned bans mr.last_pipeline_id)) mrs)

pick_merge_requests-merge_by :
    (bans : SubmissionBans) (m : Dict String MergeRequestInfo) (mrs : List MergeRequest)
    → pick_merge_requests bans m mrs
      ≡ merge_by
          (λ mr. mr.task)
          update_info
          m
          (keep (λ mr. not (is_banned bans mr.last_pipeline_id)) mrs)
unfolding pick_merge_requests merge_by
pick_merge_requests-merge_by bans m [] = refl
pick_merge_requests-merge_by bans m (mr ∷ mrs) =
    let m' = insert mr.task (update_info (lookup mr.task m) mr) m in
    elim (Bool-cases (is_banned bans mr.last_pipeline_id)) [
      | inl h ↦ rw (h, pick_merge_requests) (pick_merge_requests-merge_by bans m mrs)
      | inr h ↦ rw (h, pick_merge_requests) (pick_merge_requests-merge_by bans m' mrs)
    ]

-- The loop over the requests of one task, by the two fields of the info.
merge_all-update_info :
    (i : MergeRequestInfo) (mrs : List MergeRequest)
    → (j : MergeRequestInfo) × (merge_all update_info (some i) mrs ≡ some j)
      × (best merge_request_better (some i.merge_request) mrs ≡ some j.merge_request)
      × (j.has_user_notes ≡ (if i.has_user_notes then true else any_of has_notes mrs))
unfolding merge_all update_info
merge_all-update_info i [] = (i, refl, refl, ground arith)
merge_all-update_info i (mr ∷ mrs) =
    let (j, all, chosen, notes) = merge_all-update_info (update_info (some i) mr) mrs in
    (j, all, chosen, ground arith)

lookup_info :
    (bans : SubmissionBans) (mrs : List MergeRequest) (task : String)
    → lookup task (pick_merge_requests bans [] mrs)
      ≡ merge_all update_info none (counted bans task mrs)
unfolding lookup
lookup_info bans mrs task = rw (pick_merge_requests-merge_by bans [] mrs) (
    lookup-merge_by (λ (mr : MergeRequest). mr.task) update_info task []
      (keep (λ mr. not (is_banned bans mr.last_pipeline_id)) mrs))

merge_infos :
    (mrs : List MergeRequest) (j : MergeRequestInfo)
    → merge_all update_info none mrs ≡ some j
    → IsBest merge_request_better j.merge_request mrs × (j.has_user_notes ≡ any_of has_notes mrs)
unfolding merge_all
merge_infos [] j h = absurd (ground arith)
merge_infos (mr ∷ mrs) j h =
    let first = update_info none mr in
    let (i, all, chosen, notes) = merge_all-update_info first mrs in
    let same : i ≡ j = ground arith in
    subst
      (λ x.
        IsBest merge_request_better x.merge_request (mr ∷ mrs)
        × (x.has_user_notes ≡ any_of has_notes (mr ∷ mrs)))
      same
      (
        best-IsBest merge_request_better merge_request_better-IsStrict (mr ∷ mrs) i.merge_request
            (unfold merge_all update_info in chosen),
        notes ∙ (unfold update_info in ground arith),
      )

-- Where the provider answers, `loadUserMergeRequests` succeeds; the request it picks for a task is
-- one of the task whose last pipeline is not banned and that no other such request beats by
-- `mergeRequestBetter`, and the mark of notes says whether any such request has notes. A task has
-- no request only if none counts.
pub load_user_merge_requests_represents :
    (user : User) (provider : String → Result Error (List MergeRequest)) (bans : SubmissionBans)
    (mrs : List MergeRequest)
    → provider (get_project_name user) ≡ ok mrs
    → (m : Dict String MergeRequestInfo) × (load_user_merge_requests user provider bans ≡ ok m)
      × ((task : String) (i : MergeRequestInfo)
          → lookup task m ≡ some i
          → IsBest merge_request_better i.merge_request (counted bans task mrs)
            × (i.has_user_notes ≡ any_of has_notes (counted bans task mrs)))
      × ((task : String) → lookup task m ≡ none → counted bans task mrs ≡ [])
unfolding load_user_merge_requests wrap
load_user_merge_requests_represents user provider bans mrs h = (
  pick_merge_requests bans [] mrs,
  ground arith,
  λ task i found. merge_infos (counted bans task mrs) i (sym (lookup_info bans mrs task) ∙ found),
  λ task missing.
      merge_all-none update_info (counted bans task mrs)
        (sym (lookup_info bans mrs task) ∙ missing),
)
