-- ===== src/Op.antt =====
-- src/op.rs: the mutating operations of the committer.
pub mod Limits
pub mod Record
use sepp.Queues.{QueueRegistry, effective, dedup_window_ms}
use sepp.Prelude.{min, unwrap_or, ℕ, Bool, List, Option}
use sepp.Prelude.Int.{ℤ}
use sepp.Std.Bytes.{Bytes, Text}
use sepp.Proto.{EnqueueRequest, NackRequest, ExtendRequest, AuditRecord}

-- `PeekState` of src/storage.rs.
pub data PeekState : Type 0 where
  ready scheduled inflight dead_letter : PeekState

pub record JobLimits : Type 0 where
  pub priority : ℕ
  pub max_attempts : ℕ
  pub dedup_window_ms : ℤ
  pub max_queue_depth : Option ℕ

-- `JobLimits::resolve`: the deduplication window is that of the registry at boot.
unfoldable pub resolve : EnqueueRequest → QueueRegistry → QueueRegistry → JobLimits
resolve req live boot =
    let eff = effective live req.queue in
    record {
      priority = unwrap_or req.priority eff.default_priority;
      max_attempts =
          min (unwrap_or req.max_attempts eff.default_max_attempts) eff.max_attempts_ceiling;
      dedup_window_ms = dedup_window_ms boot req.queue;
      max_queue_depth = eff.max_queue_depth;
    }

pub record PreparedJob : Type 0 where
  pub id : Text
  pub req : EnqueueRequest
  pub limits : JobLimits

pub data Op : Type 0 where
  enqueue : List PreparedJob → (now_ms : ℤ) → Op
  enqueue_atomic : List PreparedJob → (now_ms : ℤ) → Op
  reserve : (queues : List Text) (lease_ms max_jobs : ℕ) (now_ms : ℤ) → Op
  ack : (job_id : Text) (attempt : ℕ) → Op
  nack : NackRequest → (retry_delay_ms : ℕ) (dead_letter_enabled : Bool) (now_ms : ℤ) → Op
  extend : ExtendRequest → (lease_ms : ℕ) (now_ms : ℤ) → Op
  drain_dead_letters : (queue : Option Text) (max scan_cap : ℕ) → Op
  close_queue : (queue : Text) (now_ms grace_ms : ℤ) → Op
  open_queue : (queue : Text) → Op
  requeue_dead_letters : (queue : Text) (keys : List Bytes) (now_ms : ℤ) → Op
  dead_letter_jobs :
      (queue : Text) (state : PeekState) (keys : List Bytes) (reason : Option Text)
      (dead_letter_enabled : Bool) (now_ms : ℤ)
      → Op
  delete_dead_letters : (queue : Text) (keys : List Bytes) → Op
  purge_queue_chunk : (queue : Text) (max : ℕ) → Op
  sweep :
      (now_ms : ℤ) (budget : ℕ) (retention_cutoff_ms : Option ℤ) (dead_letter_enabled : Bool) → Op
  audit_append : AuditRecord → (now_ms : ℤ) → Op

-- The committer stamps every operation that reads the time.
unfoldable pub stamp : Op → ℤ → Op
stamp (enqueue jobs _) now = enqueue jobs now
stamp (enqueue_atomic jobs _) now = enqueue_atomic jobs now
stamp (reserve queues lease_ms max_jobs _) now = reserve queues lease_ms max_jobs now
stamp (ack job_id attempt) now = ack job_id attempt
stamp (nack req delay dead _) now = nack req delay dead now
stamp (extend req lease_ms _) now = extend req lease_ms now
stamp (drain_dead_letters queue max scan_cap) now = drain_dead_letters queue max scan_cap
stamp (close_queue queue _ grace_ms) now = close_queue queue now grace_ms
stamp (open_queue queue) now = open_queue queue
stamp (requeue_dead_letters queue keys _) now = requeue_dead_letters queue keys now
stamp (dead_letter_jobs queue state keys reason dead _) now =
    dead_letter_jobs queue state keys reason dead now
stamp (delete_dead_letters queue keys) now = delete_dead_letters queue keys
stamp (purge_queue_chunk queue max) now = purge_queue_chunk queue max
stamp (sweep _ budget cutoff dead) now = sweep now budget cutoff dead
stamp (audit_append r _) now = audit_append r now
