-- ===== src/Sender.antt =====
-- internal/sender: the relaying of a turn from the log of its session.
pub mod Tail
