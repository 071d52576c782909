-- ===== src/Session.antt =====
-- packages/runner/src/session: a session's files, and its resumption after a restart.
pub mod Resume
pub mod Disk
pub mod Persist
