-- ===== src/Router.antt =====
-- internal/router: the turns of the sessions, those of usher and those of others.
pub mod Queue
pub mod Foreign
pub mod Search
