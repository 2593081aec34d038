-- ===== src/Appserver.antt =====
-- internal/appserver: the app-server workers of the Codex sessions.
pub mod Workers
