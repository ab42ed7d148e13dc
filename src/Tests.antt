-- ===== src/Tests.antt =====
-- Runs on concrete rows, and the theorems at them.
mod Data
mod Config
mod Groups
mod Scores
mod Boards
mod Robot
mod Sync
mod Refresh
mod Web
mod Render
mod Api
mod Projects
mod Login
mod Admin
mod Crashme
