-- ===== src/Lib.antt =====
-- S3 MCP Relay: a controller operates isolated hosts through an S3 bucket. The controller puts
-- sealed commands under the mailbox of an agent; the agent polls its mailbox, claims the commands,
-- runs them and puts sealed responses; heartbeats, logs, bulk transfers, shares and updates go the
-- same way. Both ends link crates/common, whose transport, cryptography and protocol are the core
-- of the program.
--
-- The parts, the files that model them and the code they are translated from:
--
--   Protocol.Types, Names, Checks    crates/common/src/protocol.rs: the wire types; the checks on
--                                    names; `Command::new`, `validate_for_agent`,
--                                    `validate_routing_for`, `Response::ok`, `err`,
--                                    `validate_for`, `Heartbeat::is_stale`
--   Crypto                           crates/common/src/crypto.rs: `Crypto::from_base64`, `seal`,
--                                    `open` (here `open_object`), `seal_bytes`, `open_bytes`, `aad`
--   Transport.Keys, Objects          crates/common/src/transport.rs: the keys, `get_raw`,
--                                    `put_encrypted`, `take_encrypted`, `list_keys`, `delete_key`
--   Transport.Mailbox                the same file: `send_command`, `drain_commands`,
--                                    `await_response`, `send_response` and the doorbell
--   Transport.Bulk, Liveness         the same file: chunks and manifests of transfers, releases
--                                    and shares; heartbeats and log chunks
--   Agent.Presence                   crates/agent/src/main.rs: `Presence`, two processes that share
--                                    an identity
--   Agent.Events                     crates/agent/src/events.rs: `EventLog`, the ring of recent
--                                    problems
--   Blob                             crates/common/src/blob.rs: `upload_chunks`, `fill`, `stage_file`,
--                                    `assemble_file`, `upload_concurrency`, `chunk_count`
--   Agent.Jobs                       crates/agent/src/jobs.rs: `JobManager` (`start`, its supervisor's
--                                    last block as `finish`, `cancel`, `list`, `recently_finished`),
--                                    `prune`, `tail`
--   Agent.Policy                     crates/agent/src/executor.rs: `Policy` and its checks on paths and
--                                    programs
--   Agent.Executor                   the same file: `execute`, `run` and the handlers of all commands
--   Agent.Pace, Agent.Loop           crates/agent/src/main.rs: `PollPolicy`, `run_loop`,
--                                    `send_response_with_retry`, `heartbeat_loop`
--   Logs.Shipper, Logs.Store         crates/agent/src/log_shipper.rs, and `LogStore::ingest` of
--                                    crates/controller/src/log_store.rs
--   Update                           crates/common/src/update.rs: `check_and_apply`, `install`, `download`
--   Platform                         what the code calls and does not implement
--   Base, Failure, Effect            lists, bytes, integers, results and effects
--   Tests                            a bucket in memory, and every theorem on it at a concrete input
--
-- Platform holds the libraries as parameters: the S3 client, the AEAD, base64, serde_json, UUIDs,
-- random bytes and the clock. Platform.Laws names what theorems ask of them: that base64, serde and
-- the AEAD are inverses (IsSound), that the AEAD binds its associated data (IsBinding), and that a
-- bucket answers by key (IsStore). Tests.Memory has a host for which all of these are proved.
-- Code with effects takes the state of the world and gives a result and the state after it; an error
-- leaves in place the effects that came before it.
--
-- A text is the list of its UTF-8 bytes. An i64 is an integer with the saturating operations that
-- the source uses; u32, u64 and usize are natural numbers, on which the modelled code adds only
-- with saturation or a check. The tests of errors keep their order, and each `bail!` has its own
-- constructor of `Failure.Error`; a failure of a library is `service`.
--
-- Loops that a listing, a clock or a file ends take fuel. `list_keys` has 10,001 rounds: the code
-- gives up after 10,000 keys, so that these are enough when every page that announces another one
-- shows a key. `await_response` takes its number of polls as an argument. `upload_chunks` has a round
-- for each chunk: as many rounds as the source has bytes, and one more, are enough. The search for
-- an ancestor that exists has a round for each byte of the path, and one more. `run_loop` takes
-- what its `select!` gives in each round, and is the list of its rounds.
--
-- The file system, `std::path`, the processes of the machine, the database of the logs and the
-- running binary are parameters too (Files, Paths, Machine, LogDir, LogDisk, Installer). Records
-- beside the theorems name what these ask of them: IsPaths and IsTracked for paths and for what
-- each call on a path changes, IsTrackedMachine, IsQuiet for calls that leave an invariant alone,
-- IsNamed, IsLogDisk and IsInstaller. Tests has an instance of each, with its proof. The file system is that
-- of one process: nothing else puts links between a check and the call that follows it.
--
-- Not modelled: log lines, the texts of error contexts, poisoned locks (no holder of a lock
-- panics), building the S3 client, reading the environment, the programs' main functions, the MCP
-- server's descriptions of its tools, and the deployment scripts.
mod Base
mod Tests
mod Failure
pub mod Protocol
mod Effect
pub mod Platform
pub mod Crypto
pub mod Transport
pub mod Agent
pub mod Logs
pub mod Blob
pub mod Update
