-- ===== src/Robot/Requests/Newest.antt =====
-- The requests of a branch: the newest open and merged ones, and the notes of all of them.
use notmanytuples.Prelude.{
  String, ◌≡◌, refl, sym, ◌∙◌, inl, inr, Bool, true, false, none, some, List, [], ◌∷◌, arith, ◌==◌,
  string_eq, if◌then◌else◌, eq_iff,
}
use notmanytuples.Prelude.Lists.{In, keep, any_of}
use notmanytuples.Prelude.Best.{
  IsStrict, IsBest, challenge, best, merge_all, best-IsBest, merge_all-none,
}
use notmanytuples.Prelude.Time.{after}
use notmanytuples.Models.{MergeRequest, merge_request_state_opened, merge_request_state_merged}
use notmanytuples.Robot.Requests.{
  BranchMergeRequests, newer, add_request, add_requests, collect_requests,
}

pub newer-IsStrict : IsStrict newer
newer-IsStrict = record { irrefl = λ a. ground arith; trans = λ a b c h k. ground arith }

abbrev pub is_opened : MergeRequest → Bool
is_opened mr = mr.state == merge_request_state_opened

abbrev pub is_merged : MergeRequest → Bool
is_merged mr = mr.state == merge_request_state_merged

add_requests-opened :
    (r : BranchMergeRequests) (mrs : List MergeRequest)
    → (add_requests r mrs).opened ≡ best newer r.opened (keep is_opened mrs)
unfolding add_requests add_request merge_all
add_requests-opened r [] = refl
add_requests-opened r (mr ∷ mrs) = ground (arith, add_requests-opened (add_request r mr) mrs)

opened_not_merged :
    (state : String)
    → (state == merge_request_state_opened) ≡ true
    → (state == merge_request_state_merged) ≡ false
opened_not_merged state h = rw ((eq_iff state merge_request_state_opened).0 h) refl

add_requests-merged :
    (r : BranchMergeRequests) (mrs : List MergeRequest)
    → (add_requests r mrs).merged ≡ best newer r.merged (keep is_merged mrs)
unfolding add_requests add_request merge_all
add_requests-merged r [] = refl
add_requests-merged r (mr ∷ mrs) =
    ground (arith, add_requests-merged (add_request r mr) mrs, opened_not_merged mr.state)

add_requests-unresolved :
    (r : BranchMergeRequests) (mrs : List MergeRequest)
    → (add_requests r mrs).has_unresolved_notes
      ≡ (if r.has_unresolved_notes then true else any_of (λ mr. mr.has_unresolved_notes) mrs)
unfolding add_requests add_request
add_requests-unresolved r [] = ground arith
add_requests-unresolved r (mr ∷ mrs) =
    ground (arith, add_requests-unresolved (add_request r mr) mrs)

add_requests-last_note :
    (r : BranchMergeRequests) (mrs : List MergeRequest)
    → (after r.last_note_created_at (add_requests r mrs).last_note_created_at ≡ false)
      × ((mr : MergeRequest)
          → In mr mrs
          → after mr.last_note_created_at (add_requests r mrs).last_note_created_at ≡ false)
unfolding add_requests add_request
add_requests-last_note r [] = (ground arith, λ mr m. absurd m)
add_requests-last_note r (mr ∷ mrs) =
    let (older, rest) = add_requests-last_note (add_request r mr) mrs in
    (ground arith, λ x m. elim m [ inl e ↦ rw e (ground arith) | inr later ↦ rest x later ])

-- Of a branch's requests the robot keeps the open one and the merged one that no other such request
-- follows, none only if there is none; whether any request has unresolved notes; and a time that no
-- last note of a request follows.
pub collect_requests_lem :
    (mrs : List MergeRequest)
    → ((b : MergeRequest)
        → (collect_requests mrs).opened ≡ some b
        → IsBest newer b (keep is_opened mrs))
      × ((collect_requests mrs).opened ≡ none → keep is_opened mrs ≡ [])
      × ((b : MergeRequest)
          → (collect_requests mrs).merged ≡ some b
          → IsBest newer b (keep is_merged mrs))
      × ((collect_requests mrs).merged ≡ none → keep is_merged mrs ≡ [])
      × ((collect_requests mrs).has_unresolved_notes ≡ any_of (λ mr. mr.has_unresolved_notes) mrs)
      × ((mr : MergeRequest)
          → In mr mrs
          → after mr.last_note_created_at (collect_requests mrs).last_note_created_at ≡ false)
unfolding collect_requests
collect_requests_lem mrs = (
  λ b h. best-IsBest newer newer-IsStrict _ b (sym (add_requests-opened _ mrs) ∙ h),
  λ h. merge_all-none (challenge newer) _ (sym (add_requests-opened _ mrs) ∙ h),
  λ b h. best-IsBest newer newer-IsStrict _ b (sym (add_requests-merged _ mrs) ∙ h),
  λ h. merge_all-none (challenge newer) _ (sym (add_requests-merged _ mrs) ∙ h),
  add_requests-unresolved _ mrs,
  (add_requests-last_note _ mrs).1,
)
