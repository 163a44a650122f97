-- ===== src/Lib.antt =====
-- gobot: an assistant that talks to language models, runs their tool calls under a policy, keeps
-- its conversations and workflows on disk, and runs scheduled jobs.
--
-- The parts and their files. Each definition keeps the name of the Go function, type or field in
-- this library's spelling (`CompactMessages` of internal/agent/compaction.go is `compact_messages`).
--   Prelude: the names shared by all files; lists and integers over the native numbers. An int64 is
--     an integer, and `add64` wraps as the machine does.
--   Agent.Message: internal/context/schema.go, the entries of a conversation.
--   Agent.Compaction, Agent.Pruning: internal/agent/compaction.go. A history is a list of messages,
--     and the array `keep` a list of Booleans; a loop over indices is recursion on the list.
--   Agent.Policy: internal/agent/policy.go, with the YAML nodes as a data type.
--   Agent.SessionLock: internal/agent/lock_metrics.go. The goroutines of one session key are a list
--     of phases, and a step relation moves one of them at a time.
--   Agent.Approval: internal/agent/hitl.go and SaveHITLApproval of internal/context/manager.go. The
--     goroutines of requests and callbacks are a function from numbers to phases, with a step
--     relation as for the session lock; the hook stands before it, with the lifecycle as a parameter.
--   Agent.Hooks: internal/agent/hooks.go, the chains of hooks as lists of functions.
--   Agent.Session: internal/agent/session_history.go and the dispatch of agent.go. The checkpoint
--     store is a record of operations on a state, with the contract in Laws.antt; Durable.antt is the
--     checkpoint database as such a store. What the logs say is left out; what goes to the
--     consolidator, the journal and the session log is a list of effects.
--   Context: internal/context/manager.go, the tables of threads and checkpoints. A database is a
--     value, each query is written out, and which queries fail is an input.
--     Context.Idempotency is idempotency.go, keys of tool calls with their results, and
--     Context.Pairing is pairing.go, the chats that may talk to the bot and their codes.
--   State: internal/state. A disk gives for each workflow its checkpoint, its journal and its
--     archive; the failures of the operating system are inputs of the operations. State.Lock is
--     lock.go: the processes that want one lock file are phases, and a step is one system call.
--   Cron: internal/cron, schedules, the job part of the poll, and the merge of modular jobs.
--   Dashboard: internal/dashboard/hub.go. Channels lie on a heap; a panic is `none`.
--   Resilience: internal/resilience/retry.go. What the retried function and the sleeps return is
--     given by the attempt's number.
--   Observability: internal/observability/latency.go, the windows of latency samples.
--   Memory: applyMMR of internal/memory/vector/hybrid.go, on any floating-point operations.
--   Provider: internal/provider/registry.go and routing.go. A turn is its result and the calls that
--     were made for it, in order; a provider is a function of the call's number and the request.
--   Audit: internal/audit, the ledger as a list of records and the redaction of log records.
--   Tests: runs on concrete inputs.
--
-- How the parts interact: the session lock serialises the dispatches of a session, each of which
-- loads a history and may compact or prune it; the policy hook stands before each tool call of a
-- dispatch; scheduled jobs dispatch through the same sessions; saves and archives of workflows use
-- the atomic write, and their loading the journal. The session manager uses the checkpoint database
-- through the contract of Agent.Session.Laws alone.
--
-- All loops but two are structural recursion, so that no fuel is needed: the retry loop recurses on
-- the attempts that are left, which the configuration bounds. The loop of AcquireLock has fuel for
-- its rounds; any fuel above a round in which the clock has reached the deadline is enough. The
-- selection of applyMMR has fuel for its rounds; any fuel above the number of results is enough.
--
-- Not modelled: what SQLite, the network, the operating system and a language model do, beside the
-- queries and calls that are written out; the encoders of encoding/json and gopkg.in/yaml.v3, time
-- parsing, the cron expression library, regular expressions, digests and floating-point numbers,
-- which are parameters; the texts sent for an approval; the tracer around a dispatch; the reloads of
-- the scheduler; the clients of the model providers; and the packages for configuration, tools,
-- the rest of memory and chat networks.
pub mod Audit
pub mod Context
pub mod Observability
pub mod Memory
pub mod Prelude
pub mod Provider
pub mod Agent
pub mod State
pub mod Cron
pub mod Dashboard
pub mod Resilience
pub mod Tests
