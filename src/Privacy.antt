-- ===== src/Privacy.antt =====
-- packages/runner/src/privacy: the residency guard.
pub mod Residency
