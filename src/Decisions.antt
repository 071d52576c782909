-- ===== src/Decisions.antt =====
-- packages/runner/src/permission/decisions-route.ts: POST /permissions/decisions, the handler that
-- composes the session store, the tool registry, the sink, the residency guard, the budget, the
-- hooks, the resolver, signed decisions, the audit chain and the event stream.
pub mod Limiter
pub mod Types
pub mod Checks
pub mod Bracket
pub mod Verdict
pub mod Guards
pub mod Recording
pub mod Handler
pub mod Rows
pub mod Stages
pub mod Answers
pub mod Kept
pub mod Replay
pub mod Retries
pub mod Endings
mod Tests
