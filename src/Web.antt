-- ===== src/Web.antt =====
-- internal/web and the queries behind its admin pages.
pub mod Moderation
pub mod Pages
pub mod Api
pub mod Session
pub mod Login
pub mod Admin
