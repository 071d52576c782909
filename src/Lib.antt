-- ===== src/Lib.antt =====
-- The runner of the SOA harness (packages/runner/src): the parts of it that decide, record and
-- recover. A tool invocation is looked up in the tool registry, decided by the permission resolver
-- under the agent card's requirements, guarded by hook processes, charged to the session's budget,
-- and recorded in the audit chain, the event stream and the system log; a dispatch to a model
-- provider does the same for its turn; and a session that was interrupted is resumed from its file.
--
-- Files and what they model:
-- - Base and its children: names of the libraries, tests, lists, insertion-ordered maps (Dict, for
--   JavaScript's Map), results with errors, and bounded buffers per session (Base.Rings).
-- - Registry: registry/types.ts and registry/registry.ts. Registry.Laws is about construction and
--   dynamic adds, Registry.Loading about the tools file and the deny-list of AGENTS.md.
-- - Permission: permission/types.ts, resolver.ts and resolve-for-query.ts. Permission.Laws is about
--   the resolver, Permission.Agreement about the query and the resolver.
-- - Card: card/precedence-guard.ts. Card.Precedence connects the guard to the resolver.
-- - Budget: budget/tracker.ts. Budget.Windows, Budget.Percentile and Budget.Projection.
-- - Audit: the values of a record. Audit.Chain: audit/chain.ts, over the interface Crypto of a hash
--   and a canonical serialization; Audit.Chain.Integrity and Audit.Chain.Tampering.
--   Audit.Sink: audit/sink.ts; Audit.Sink.States and Audit.Sink.Recovery.
-- - Stream: stream/emitter.ts; Stream.Sequences. SystemLog: system-log/buffer.ts;
--   SystemLog.Retention.
-- - Hook: hook/types.ts and hook/runner.ts, as a fold over the events of a child process;
--   Hook.Outcomes and Hook.Completion. Hook.Reentrancy: hook/reentrancy.ts.
-- - Crl: crl/types.ts and crl/cache.ts; Crl.Freshness and Crl.Revocation.
-- - Session.Resume: session/resume.ts and session/migrate.ts, over the interface SessionFiles;
--   Session.Resume.Effects and Session.Resume.Idempotence. Session.Persist: session/persist.ts, a write
--   as a list of file operations; with its children Safety, Stages, Crashes and Reading. Session.Disk: files and
--   directories, what synchronizing them keeps, and what a crash leaves.
-- - Dispatch: dispatch/dispatcher.ts, with dispatch/types.ts and dispatch/errors.ts in Dispatch.Types;
--   Dispatch.Retries, Dispatch.Recovery and Dispatch.Rows.
-- - Permission.SessionStore: permission/session-store.ts; its child Refinement compares it with a map
--   from sessions to bearers.
-- - Privacy.Residency: privacy/residency-guard.ts; its child Layers.
-- - Attestation.HandlerKey: attestation/handler-key.ts, with Lifecycle; Attestation.Pda:
--   attestation/verify-pda.ts, with Soundness; Attestation.Escalation: attestation/escalation.ts, as
--   a fold over the ticks and the timer, with Responses.
-- - Decisions: permission/decisions-route.ts, the handler that composes the components above.
--   Decisions.Limiter is its rate limiter; Types has the request, the state and the answers; Checks
--   the tests that change nothing, and the two ways to end a session; Guards the residency row, the
--   budget's refusal and the PreToolUse hook; Bracket the side effect in the session's file; Verdict
--   the signed decision; Recording the audit row, the charge and the events; Handler the PostToolUse
--   hook and the whole. Stages and Kept are about the ends of the stages and about what they leave
--   alone; Rows, Answers, Replay, Retries and Endings are about the handler.
-- Each component has a module Tests with runs and inputs at which its theorems apply. A function of
-- the source keeps its name, in snake case; a method takes its object first and returns it changed.
--
-- Conventions. Numbers are natural numbers, times are instants in milliseconds, and a missing
-- optional value is none. Random ids, clocks and answers of other processes are arguments. The
-- dispatcher's loop is recursion on the turns that are left: the source's bound of one call and three
-- retries is the start value, and the case of no turns left is the code after the loop. The
-- percentile of the budget is exact, in thousandths of a token; the source computes it in floating
-- point.
--
-- The decision handler is a function of the state and of the request, which carries what the handler
-- learns from outside while it answers: the parsed headers, the outcome of the hooks and of the
-- escalation, an instant for each reading of the clock and a text for each random draw. One request
-- is answered without another in between, so that two requests that overlap at an await are not
-- modelled.
--
-- Assumed of code outside: that the hash of the audit chain has no collisions (the laws of Crypto),
-- that a crash keeps what was synchronized (Session.Disk), and that a session file reads back as it was written (the laws of
-- SessionFiles and BracketFiles) and that its writing does not fail. The validators of JSON schemas, date parsing and JSON.parse are arguments without
-- laws.
--
-- Not modelled: message texts of errors and traces, the other HTTP routes, the A2A protocol, the
-- routes of attestation and privacy, the memory client, trust-anchor bootstrap, the boot orchestrator, the session persister's
-- batched activation, its lock and its failing operations, streaming dispatch, observability and the assembly of the server; and the other
-- packages of the repository.
pub mod Base
pub mod Registry
pub mod Permission
pub mod Card
pub mod Budget
pub mod Audit
pub mod Stream
pub mod SystemLog
pub mod Hook
pub mod Crl
pub mod Session
pub mod Privacy
pub mod Attestation
pub mod Decisions
pub mod Dispatch
