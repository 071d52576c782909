-- ===== src/Attestation.antt =====
-- packages/runner/src/attestation: handler keys, signed permission decisions and escalation.
pub mod HandlerKey
pub mod Pda
pub mod Escalation
