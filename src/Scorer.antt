-- ===== src/Scorer.antt =====
-- internal/scorer: from the rows of the database to the scores of users and the standings.
pub mod Errors
pub mod Results
pub mod Pipelines
pub mod MergeRequests
pub mod Leaderboard
pub mod Environment
pub mod Titles
pub mod Scoring
pub mod Scores
pub mod Users
pub mod Scoreboard
