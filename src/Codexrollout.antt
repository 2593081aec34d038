-- ===== src/Codexrollout.antt =====
-- internal/codexrollout: the rollout files of Codex.
pub mod Fork
