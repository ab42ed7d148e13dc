-- ===== src/Lib.antt =====
-- The core of notmanytask, a checker for programming courses: which submissions of a student count,
-- what they score, how benchmark tasks are ranked, and how the merge request robot acts.
--
-- The parts, and where they are modelled:
-- - Models: the rows of internal/models.
-- - Config: internal/config/config.go: groups and their secrets, the merge request workflow, and
--   `Validate`. Config/Secrets is about `FindBySecret`.
-- - Deadlines: internal/deadlines/deadlines.go and scoring.go. The pointers of the map of scoring
--   groups are indices into the list of groups, so that a write through one is seen in the list.
--   Deadlines/Groups is about `BuildScoringGroups`; Deadlines/Fetcher is the snapshot of
--   internal/deadlines/fetcher.go.
-- - Scorer: internal/scorer. Pipelines, MergeRequests and Leaderboard choose what represents a task
--   (`loadUserPipelines`, `loadUserFlags`, `loadUserMergeRequests`, `CalcLeaderboards`); Scoring gives
--   the score of a pipeline and of a merge request (`scorePipeline`, `scoreMergeRequest`); Scores and
--   Users are the loops of `calcUserScoresImpl`; Scoreboard is `CalcScoreboardWithFilter` and
--   `CalcUserScores`. The children of these modules hold the proofs.
-- - Robot: internal/gitlab/branch.go and merge_requests.go. Sync turns a request of GitLab into rows
--   (`syncMergeRequest`), Project is the loop of `syncProject`, with the proofs in Project/Pages and
--   Project/References, Requests reads the rows of a branch (`loadBranchMergeRequests`), Update
--   creates and merges (`updateProject`). Robot/Update/Credit is about the robot and the scorer.
-- - Robot/Fresh: the queue of fresh pipelines of internal/gitlab/pipelines.go. Robot/Refresh is the
--   round of `fetchAllPipelines` over all projects, with `forEachProject` of internal/gitlab/gitlab.go.
-- - Render: internal/render. The walks go over trees of directories, Out is `Render` on a disk given
--   by its calls, Publish is `Publish` with git as a parameter. Out/Exact, Out/Safe, Out/Again and
--   Publish/Target hold the proofs.
-- - Projects: internal/gitlab/gitlab.go and projects.go. Names are the names and addresses of projects,
--   Projects is `InitializeProject`, Maker the worker; Pages, Secured, Found, Access and
--   Maker/Retry hold the proofs.
-- - Web: Api is internal/web/api.go but for `moderate`; Api/Tokens and Api/Justified are about what it
--   may change. Session and Login are internal/web/login.go, with the proofs in Login/Admitted,
--   Login/Signup and Login/Oauth; Admin is the part of internal/web/admin.go that changes something,
--   with its filters in Admin/Filters and the proofs in Admin/Guard. Moderation is `moderate` of
--   internal/web/api.go, Pages the pages of internal/database/admin_submissions.go.
-- - Crashme: cmd/crashme/main.go: what a connection writes and what it is answered, with the system
--   around the server as a parameter, and the rounds of the loop that accepts connections. A byte is a
--   character. Crashme/Flags is about who gets a flag.
-- - Tests: runs and the theorems at concrete rows.
--
-- How the code is modelled:
-- - A `(value, error)` pair is a `Result`; a nil pointer that the code follows is the error
--   `nil_pointer`, or `nil_dereference` in Deadlines.
-- - A Go map is an association list with at most one entry for each key. The loops over maps whose
--   order Go leaves open run in the order of the list.
-- - `int` is `ℤ` with the wrap of 64 bits at every addition (`+int`). A time is the nanoseconds since
--   Go's zero time, a duration its nanoseconds, and a difference of times is cut off as Go does.
-- - `float64` is a parameter: the record `Float` of its operations, with laws (`FloatOrder`) where a
--   theorem needs the order of numbers.
-- - `sort.Slice` is insertion: Go leaves the order of equal elements open, and no theorem about it
--   depends on that order.
-- - The database, GitLab and the clock are parameters: functions that answer or fail, and for the
--   writes a state `S` with its answer to each call.
-- - The loops over pages take fuel, over those of notes, requests, members, projects and pipelines,
--   since GitLab decides when the pages end; `none` is a loop that has not ended. Fuel is a
--   bound on the pages, so enough of it is one more than the pages after the first.
--
-- Not modelled: SQL and HTTP, YAML and the text forms of dates, timers, logging, the templates and
-- the pages of students in the web server, and of the programs under cmd/ all but the server of
-- crashme; there, the pipes to its processes.
pub mod Prelude
pub mod Result
pub mod Models
pub mod Config
pub mod Deadlines
pub mod Scorer
pub mod Robot
pub mod Render
pub mod Projects
pub mod Crashme
pub mod Web
mod Tests
