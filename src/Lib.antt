-- ===== src/Lib.antt =====
-- sepp is a job queue server: producers enqueue jobs, workers reserve them under a lease and then ack,
-- nack or extend it, and a committer applies every change, one operation after the other, to an embedded
-- key-value store and to the indexes in memory that mirror it.
--
-- The parts, and where they are modelled:
--
-- - Keys, Keys/Writer, Keys/Reader: src/keys.rs, the bytes of every key and value.
--   Keys/RoundTrip and Keys/Order are about them.
-- - Proto: the messages of proto/sepp/v1/queue.proto and proto/sepp/storage/v1/op.proto that the storage
--   layer reads and writes, and the conversions of timestamps and durations of src/pb.rs. The record `Prost` is what is taken as
--   given of the crates prost and prost_types: each message decodes from its encoding.
-- - Index: `ReadyIndex`, `TimerIndex` and `Indexes` of src/storage.rs, with Index/Counters, Index/Ready,
--   Index/Timer and Index/Serve about them.
-- - Fjall: what is taken as given of the storage engine inside one write transaction. A read may fail.
-- - Op: `Op`, `PreparedJob`, `JobLimits` and `Op::stamp` of src/op.rs. Op/Record is the form of an operation
--   in a record, `to_proto` and `from_proto`; Op/Limits is about `JobLimits::resolve`.
-- - Config, Config/Default, Config/Validation: src/config.rs, the sections of the configuration, their
--   defaults and `Config::validate`; Config/Accepts is about what passes it.
-- - Queues: src/queues.rs, the registry of the limits in force for each queue; Queues/Effective is about its
--   cheap readers.
-- - Validate: src/validate.rs, the checks of a request; Validate/Accepts is about what passes them.
-- - Storage: the state that the apply functions of src/storage.rs work on (the transaction's keyspaces, the
--   indexes, and the cycle with its dirty flag, woken queues and metrics of src/metrics.rs), and the single
--   calls that they make. The functions are actions, `Exec State A`: a state goes to a result or a status,
--   with the state that is left, since what was written before an error stays written.
--   Storage/Enqueue is `apply_enqueue`, `apply_enqueue_atomic`, `check_dedup` and `insert_job`;
--   Storage/Reserve `apply_reserve`; Storage/Lease `apply_ack`, `apply_nack` and `apply_extend`;
--   Storage/DeadLetter `maybe_store_dead_letter`; Storage/Admin `apply_drain`,
--   `apply_requeue_dead_letters`, `apply_dead_letter_jobs` and `apply_delete_dead_letters`; Storage/Queue
--   `apply_close_queue`, `apply_open_queue`, `apply_purge_queue_chunk` and `apply_audit_append`;
--   Storage/Sweep `apply_sweep`; Storage/Apply `apply_op` and `apply_command`.
-- - Peek: `peek_keys` of src/storage.rs, the pages of keys that the admin interface reads from the indexes.
--   Peek/Ready, Peek/Pages and Peek/Covers are about them.
-- - Retry: `policy_retry_delay_ms`, `resolve_retry_delay`, `resolve_extend_lease` and
--   `queue_of_inflight_job` of src/storage.rs. The hash of the jitter is a parameter.
-- - Handle: the methods of `Storage` in src/storage.rs, which wrap an operation and unwrap its outcome. A call
--   is modelled from the moment the committer takes its operation, as a step of its own. The identifiers of
--   jobs and the clock are arguments.
-- - Server, Server/Handlers, Server/Jobs, Server/Polling: src/queue_server.rs, the admission of a job, the two
--   batch handlers, the handlers of `ack`, `nack`, `extend` and `drain_dead_letters`, and the clamps and
--   the long poll of `reserve`. A round of the poll carries what the rest of
--   the program did before it and which branch of the `select!` ended it, so that a list of rounds is one
--   interleaving.
-- - Storage/Mirror: the relation between the indexes and the keyspaces, and the rules for the steps that
--   change both. The modules called Keep apply them to each function. A key that is popped and not yet
--   removed is in Storage/Mirror/Pop, and a key whose row is missing in Storage/Mirror/Stale.
-- - Std: byte strings, big-endian numbers, UTF-8, ordered maps and hash maps, as std of Rust has them.
-- - Prelude: checks (Check), results and actions, what they maintain (Maintains), leave alone (Atomic) and return (Yields).
-- - Examples: an in-memory keyspace, a codec for the messages, and small runs.
--
-- Conventions and bounds. A string is its UTF-8 bytes. Numbers are natural numbers or integers; a
-- conversion to `u16`, `u32`, `i64` or `u64` bytes wraps as the code's does, and additions of times
-- saturate. A counter of a queue, of the metrics or of an outcome does not wrap: it counts what is in
-- memory. The next attempt, `attempt + 1`, is only formed below `max_attempts`. The inner loop of a
-- reservation runs on fuel, as many rounds as the ready index has keys and one more: each round takes a
-- key out of the index and none puts one in, see Storage/Reserve/Fuel.
-- The other loops are recursion on a list or on what is left of a budget.
--
-- Not modelled: the command loop with its group commit, rollback and reply channels, the notifiers, the
-- snapshot reads of the read handle, and rebuilding the indexes when the server starts; of the gRPC
-- service `get_server_info`; reading the configuration file, authentication, the admin interface,
-- telemetry and logging. Spans, metrics of the handlers and log lines in the functions that are
-- modelled are left out, having no effect on the state. With telemetry off, as here, `reserve` hands out the
-- trace contexts that are stored; with it on, the source replaces them.
-- Simplifications. The admission of a batch reads the clock once, the source once for each job. A call of
-- the storage handle is the application of its operation, without the channel and without a commit that
-- fails. A job id that is not UTF-8 is reported as it is, the source replaces what is not. `clamp` panics
-- if its bounds are crossed, which a configuration that passes its checks excludes.
-- The texts of error messages that format a value are constructors with that value (`Complaint`,
-- `ConfigError`, `Refusal`). The order in which the entries of a hash map are visited is that of its list.
pub mod Prelude
pub mod Std
pub mod Proto
pub mod Keys
pub mod Index
pub mod Fjall
pub mod Op
pub mod Config
pub mod Validate
pub mod Queues
pub mod Retry
pub mod Peek
pub mod Handle
pub mod Server
pub mod Storage
pub mod Examples
