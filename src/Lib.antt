-- ===== src/Lib.antt =====
-- Hearsay coordinates agents that work on the same resources: an agent claims a resource with an
-- operation and a time to live, the claim is refused while a claim of another agent conflicts with
-- it, and heartbeats, releases and transfers end or prolong it. All of this is an append-only log of
-- messages in a provider. An A2A server, HTTP middleware and an audit log stand around it.
--
-- Where the parts are modelled, by files of this directory and of the repository:
--   Base          bytes, lists, 64-bit integers and instants; no code of the repository
--   Claims        pkg/hearsay/claims.go: the tables of operations, the matching of resources, and
--                 `CheckConflict`
--   Provider      pkg/hearsay/provider.go, mailbox.go and audit.go: data, and the part of the
--                 interface `Provider` that the client calls, as a record of functions
--   Active        pkg/hearsay/activeclaims.go: `IsClaimActive`, and the two passes of
--                 `FilterActiveClaims`
--   Client        pkg/hearsay/client.go: every method, over any provider. Client/Laws is the contract
--                 that the client relies on, Memory/LogLaws the in-memory provider under it
--   Memory        internal/memory/memory.go: namespaces, log, tasks, mailboxes, streams, audit events
--   Sql           what the statements of the SQL providers mean on tables; no code of the repository
--   Sqlite        internal/sqlite/sqlite.go: every method. Sqlite/Refining relates its tables to the
--                 log of the in-memory provider
--   Postgres      internal/postgres/postgres.go: every method; statements that are those of SQLite
--                 are handed on to Sqlite, and offsets come from a sequence
--   A2a           internal/a2a: task.go, mapper.go, handler_skills.go, handler_tasks.go, auth.go;
--                 A2a/Streaming is task_executor.go and sse.go, A2a/Dispatch server.go
--   Server        internal/server: ratelimit.go, audit.go (with pkg/hearsay/audit.go), middleware.go;
--                 Server/Http has the handlers of server.go, mailbox_handlers.go and sse.go, over a
--                 record of the provider's operations that Server/Http/OverMemory fills
--   Mail          internal/mailbox/mailbox.go and pkg/hearsay/validation.go
--   Watcher       internal/watcher/watcher.go: the filters, and the claims that notifications make
--   Tests         concrete runs, and the theorems at concrete inputs
-- A Go function `fooBar` is `foo_bar` here. A definition named for a loop, a test or a literal inside
-- a Go function says so in its comment.
--
-- How they are modelled. A Go string is a list of bytes, a map a function with the zero value or
-- `none` at a missing key, an error a constructor. A method takes its state and the reading of the
-- clock and returns its result with the new state; every method of the in-memory provider and of
-- the limiter holds its mutex from its first access to its last, so that a call is one step; so is a
-- call of the cache of keys, which tests again under its second lock. `Claim` asks for the active
-- claims and then appends in a second call: the model is one call after the other, without another
-- client in between.
-- `int`, `int64` and durations are integers that wrap at 64 bits where the source adds or multiplies;
-- instants are unbounded numbers of nanoseconds. The clock is read once in a call,
-- but for the mailbox service, which takes two readings. Loops are
-- recursions on lists: no definition has fuel. A stream is a run over the logs that it finds at its
-- start and at each round, with the number of sends that succeed before it is cancelled. A call on
-- a database is a sequence of statements: `refuses n` says that the engine refuses the statement number
-- n of the call, and a transaction that does not commit leaves the tables as they were. A task that
-- is streamed is the list of the events that its executor sends, then the handler's run over them.
--
-- What is a parameter: encoding/json (records `Json` and `A2aJson`), `path.Match`, `sort.Slice`, the
-- printing and parsing of integers, the choice of an HTTP pattern, package jwt, base64 and the
-- answers of HTTP servers. The tests instantiate them with concrete functions.
--
-- What is not modelled: the D1 and managed providers, which need a JavaScript runtime or another
-- hearsay server; the walk of the watcher over directories; configuration and the command line; and
-- the headers and texts of replies.
pub mod Base
pub mod Claims
pub mod Provider
pub mod Active
pub mod Memory
pub mod Client
pub mod A2a
pub mod Server
pub mod Mail
pub mod Sql
pub mod Sqlite
pub mod Postgres
pub mod Watcher
mod Tests
