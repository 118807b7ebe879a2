-- ===== src/Lib.antt =====
-- A verification library for unified-personal-mcp, a host that lets several clients use the tools of
-- one personal computer. A client begins a workflow on a project directory and receives a token; each
-- tool call names the workflow by its token, passes the registry's admission and the operation
-- journal, and runs a callback. The registry's list of closed workflows is what the journal reclaims
-- at capacity.
--
-- What models what:
-- * Prelude, Table: numbers, lists, and the SQL statements SELECT, UPDATE, DELETE over a list of rows,
--   as sqlite3 runs them. A transaction is one function; one that raises leaves its table.
-- * Workflows (personal_mcp/workflows.py): WorkflowRegistry. State has the tables, _metadata, _row and
--   _state; Begin, Activate, Use, Resume, Idle, End and Host have the methods, and Views has list and
--   snapshot; World has the schedules and restarts. activate, use and _end come in parts there, cut where
--   the source releases its lock, and the parts of several calls interleave. begin, resume, release_idle,
--   expire, close and recover are one step each, with the _end calls in them, though the source releases its lock
--   between those. expire and resume read the clock again for the cache and the replies, so Mirror says how
--   far _metadata may differ from the table. The other modules are proofs.
-- * Operations (personal_mcp/operations.py): OperationJournal. Journal has the table, _prune, status,
--   _unknown, _complete and _finished; Run has run, cut at the end of its transaction, since the
--   callback runs outside of it; Events has the sequences of events.
-- * Tunnel (personal_mcp/tunnel_supervisor.py): TunnelSupervisor. Supervisor has the fields, start,
--   retry, _run, _dispose, _failed and close; Observe has _observe, cut after it has taken the wish
--   to refresh, after it has started the runner, after its second stop test and before its finally, where
--   calls of other threads come between, with the answers of the runner as a parameter; Events has the sequences of events.
-- * Policy (personal_mcp/tool_policy.py): Tools has the sets of tools, reviewed_effects and
--   requires_workflow_write, which is asked for the tools that host.py does not route by itself before.
-- * Browser (bf_automation/browser/operation_store.py): OperationStore. Store has its operations, Events
--   the sequences of calls.
-- * Desktop (bf_automation/lease.py): DesktopLease, with the callers that are inside a block beside it.
-- * Transfers (personal_mcp/file_transfer.py): FileTransferManager. State has its fields, Neighbours the
--   caches of other processes, Cache the private cache, Upload, Download and Handle the actions and
--   closing; Spec is what each aim of a call allows, without the cache and the checks, Aims which aim a call
--   has, and Calls has the sequences of calls. A World is what one call meets outside: clocks, digests, base64, looks at paths, failures of the disk.
-- * Tasks (bf_automation/task_store.py): TaskStore. Store has begin, require, the owned processes and
--   the windows, End has end, cut where the state lock is released and again at its transaction and at
--   the write of task.json, and recover_context, Claims has claim_window, cut before its transaction, which
--   does not wait for the state lock; Spec is what they do without their checks, and Events has
--   the sequences of calls. recover_context, which runs at the start only, is one step.
-- * Search (personal_mcp/search.py): Sessions has a session, the part of start under the lock, a round of
--   _collect and its end, read and _stop; Paging has a client that reads page after page.
--
-- Times are natural numbers in one unit; the source's are floats (in Tunnel
-- milliseconds, and the jitter is in thousandths). Paths are lists of names, already
-- resolved. The hash, the random token, JSON encoding, the vault of encrypted replies and the
-- surroundings of a clean-up are parameters. Recursion is structural, but for the two loops that read a
-- file in blocks, Transfers.Upload.Commit.copy and Transfers.Download.snapshot: their fuel is one more than the
-- number of bytes, which is enough, as each round but the last reads a byte (Transfers.Blocks).
-- The clients' loops in Transfers.Fetching, Transfers.Sending and Search.Paging are not code of the
-- repository: they say what the calls come to, with as many calls as the theorems name.
--
-- Not modelled: the migration of old database schemas, the text of error messages, what the SQLite
-- library does when the disk fails, the vendored coding_tools_mcp, user interfaces and I/O; of Search, the list of
-- sessions but for start and read.
mod Prelude
pub mod Table
pub mod Workflows
pub mod Operations
pub mod Tunnel
pub mod Policy
pub mod Browser
pub mod Desktop
pub mod Transfers
pub mod Tasks
pub mod Search
