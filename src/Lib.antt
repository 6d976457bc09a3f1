-- ===== src/Lib.antt =====
-- A model of the task coordinator: a store of tasks that agents claim under leases, with a
-- dependency graph, an allocation queue and an event history.
--
-- The parts, and the files that model them:
--   Base: what Go's built-ins give: maps, byte strings, decimal numbers, durations.
--   Store: store/store.go. `Store` has the records, `Store/Ops` the operations in memory,
--     `Store/Migration` the upgrades, `Store/Transaction` load, write and `Update`; the other files
--     have the proofs.
--   Dag: dag/dag.go. `Dag/Uri` has the references (with `canonicalDependency` of
--     internal/cli/coordination_ops.go), `Dag/Build` the graph, `Dag/Search` the cycle search,
--     `Dag/Ready` the ready and blocked tasks.
--   Errors, Limits: internal/cli/errors.go, coordination_errors.go and input_limits.go.
--   Lifecycle: internal/cli/coordination_ops.go, lease.go and handoff.go. `Lifecycle/Guards`,
--     `Leases`, `Decompose`, `Create` (of serve.go and cmd_add.go), `Update` and `Prune` have the
--     operations, the other files the proofs.
--   Allocation: internal/cli/allocation.go, `matchesCapabilities` of cmd_next.go and
--     `computeAgentLoad` of agents.go: ranking, diagnosis and acquire requests.
--   Compaction: `compactTaskStore` of internal/cli/cmd_compact.go and the summaries of
--     mutation_receipt.go.
--   Protocol, EventPage: internal/cli/protocol.go, and the pages of internal/cli/event_protocol.go
--     with their cursors; `EventPage/Follow` has the client that follows them.
--   Queries: internal/cli/cmd_whatif.go, cmd_dependents.go and, in `Queries/Lineage`, cmd_lineage.go.
--   Serve: internal/cli/serve.go. `Serve` has the error codes and what surrounds the server,
--     `Serve/Receipt` the receipts of mutation_receipt.go, `Serve/Handlers` the handlers of the seven
--     requests that move one task (their parameters in `Serve/Params`), `Serve/Done` `handleDone`,
--     `Serve/Adding` `handleAdd` and `handleDecompose`, `Serve/Editing` `handleUpdate`, `handlePrune`
--     and `handleCompact`, `Serve/Acquiring` `handleAcquire` with `newAcquirePlan` of
--     coordination_ops.go, `Serve/Views` the requests that read (`Serve/ViewParams`), and
--     `Serve/Server` `handleInit` and the dispatch, `Serve/Backup` `handleBackup` and `handleRestore`;
--     the other files have the proofs. A handler takes the tasks file and returns it with the answer.
--   Doctor: the checks of a store in internal/cli/cmd_doctor.go.
--   Tests: concrete stores, and runs of the operations on them.
-- A Go function `claimTask` is `claim_task`, and so on. An operation takes the store and returns the
-- store with its result; the lifecycle runs as the mutation of a transaction (`update`), which first
-- reclaims expired leases. The lifecycle asks the graph for cycles and for complete dependencies, and
-- acquire requests ask the ranking for a task. Queries, event pages and the doctor read the store that
-- the lifecycle leaves.
--
-- How Go is read: a map is an association list in any order, and iteration follows the list; a nil
-- slice or map is an empty one; a task pointer is the task's key in the map. `uint64` and `uint32`
-- arithmetic wraps, written out as a remainder. A `float32` priority is its bit pattern. An error is
-- its chain of sentinels, without its text. The clock is read once for each operation, as a count
-- of milliseconds below 2^63. `sort.Slice` is an insertion sort, and `sort.Search` the first
-- index that passes.
--
-- Parameters: the encoding of the store (`Codec`, of the msgpack package: what was marshalled
-- unmarshals to the same), a fault of one file write (`Fault`), and the live resolver of references
-- to other repositories. The server also has the configuration and the agents' registry as they are
-- read (or that they are not), `time.ParseDuration`, `strings.ToLower`, the SHA-256 digest of an
-- acquire request, and how the write of the agents' file, the making of the directory and the opening
-- of the lock beside a backup end.
--
-- Fuel: the cycle search runs on one unit more than the graph has nodes; a call enters a node that
-- was not visited, so that is enough. Migrations run for the versions left. The client of the event
-- pages runs on one unit more than there are newer events; each page but the last has one of them.
-- The walk over the lineage runs on one unit more than there are tasks, each of which it enters once.
--
-- Not modelled: locks and durable files (system calls), the command line and its printing, the
-- transport and JSON of the servers, their requests on other files (the configuration, links, agents'
-- cards, the status of all repositories, the bootstrap, the doctor) and ping, MCP, the JSON of
-- the views, the percentage of a progress (a float), the digest itself, and the conformance runner.
-- A panic of the process is not modelled either: where a task whose lease has expired stands in the
-- map under another key than its ID, the source's reclaim dereferences a nil task (store/store.go:293)
-- and the model's leaves that ID alone. A well-formed store has each task under its ID, and each
-- statement on a file or on a reclaim is about such stores.
pub mod Base
pub mod Store
pub mod Dag
pub mod Errors
pub mod Limits
pub mod Lifecycle
pub mod Allocation
pub mod Compaction
pub mod Protocol
pub mod EventPage
pub mod Queries
pub mod Doctor
pub mod Serve
pub mod Tests
