-- ===== src/Pi.antt =====
-- internal/pi: the pi backend.
pub mod Fork
