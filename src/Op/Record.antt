-- ===== src/Op/Record.antt =====
-- The conversions of src/op.rs between an operation and its message in proto/sepp/storage/v1/op.proto.
use sepp.Prelude.{ℕ, zero, suc, ◌≡◌, refl, Bool, List, [], ◌∷◌, Option, some, map, String}
use Prim.Native.String
use sepp.Prelude.Int.{ℤ, pos}
use sepp.Prelude.Result.{Result, ok, err, Status, internal_status, ok_or}
use sepp.Std.Bytes.{Bytes, Text}
use sepp.Proto.{EnqueueRequest, NackRequest, ExtendRequest, AuditRecord}
use sepp.Op.{
  Op, JobLimits, PreparedJob, PeekState, enqueue, enqueue_atomic, reserve, ack, nack, extend,
  drain_dead_letters, close_queue, open_queue, requeue_dead_letters, dead_letter_jobs,
  delete_dead_letters, purge_queue_chunk, sweep, audit_append, ready, scheduled, inflight,
  dead_letter,
}

-- The messages. A message field may be missing, and an enum field is the number read.
pub record JobLimitsMessage : Type 0 where
  pub priority : ℕ
  pub max_attempts : ℕ
  pub dedup_window_ms : ℤ
  pub max_queue_depth : Option ℕ

pub record PreparedJobMessage : Type 0 where
  pub request : Option EnqueueRequest
  pub job_id : Text
  pub limits : Option JobLimitsMessage

pub data OpMessage : Type 0 where
  p_enqueue p_enqueue_atomic : List PreparedJobMessage → (now_ms : ℤ) → OpMessage
  p_reserve : (queues : List Text) (lease_ms max_jobs : ℕ) (now_ms : ℤ) → OpMessage
  p_ack : (job_id : Text) (attempt : ℕ) → OpMessage
  p_nack :
      Option NackRequest
      → (now_ms : ℤ) (retry_delay_ms : ℕ) (dead_letter_enabled : Bool) → OpMessage
  p_extend : Option ExtendRequest → (now_ms : ℤ) (lease_ms : ℕ) → OpMessage
  p_drain_dead_letters : (queue : Option Text) (max scan_cap : ℕ) → OpMessage
  p_close_queue : (queue : Text) (now_ms grace_ms : ℤ) → OpMessage
  p_open_queue : (queue : Text) → OpMessage
  p_requeue_dead_letters : (queue : Text) (keys : List Bytes) (now_ms : ℤ) → OpMessage
  p_dead_letter_jobs :
      (queue : Text) (state : ℤ) (keys : List Bytes) (reason : Option Text) (now_ms : ℤ)
      (dead_letter_enabled : Bool)
      → OpMessage
  p_delete_dead_letters : (queue : Text) (keys : List Bytes) → OpMessage
  p_purge_queue_chunk : (queue : Text) (max : ℕ) → OpMessage
  p_sweep :
      (now_ms : ℤ) (budget : ℕ) (retention_cutoff_ms : Option ℤ) (dead_letter_enabled : Bool)
      → OpMessage
  p_audit_append : Option AuditRecord → (now_ms : ℤ) → OpMessage

pub record OpRecord : Type 0 where
  pub op : Option OpMessage

unfoldable pub limits_to_proto : JobLimits → JobLimitsMessage
limits_to_proto self = record {
  priority = self.priority;
  max_attempts = self.max_attempts;
  dedup_window_ms = self.dedup_window_ms;
  max_queue_depth = self.max_queue_depth;
}

unfoldable pub limits_from_proto : JobLimitsMessage → JobLimits
limits_from_proto msg = record {
  priority = msg.priority;
  max_attempts = msg.max_attempts;
  dedup_window_ms = msg.dedup_window_ms;
  max_queue_depth = msg.max_queue_depth;
}

unfoldable pub job_to_proto : PreparedJob → PreparedJobMessage
job_to_proto self = record {
  request = some self.req;
  job_id = self.id;
  limits = some (limits_to_proto self.limits);
}

unfoldable pub corrupt : String → Status
corrupt what = internal_status (String.◌++◌ "corrupt op record: " what)

infixl 10 ◌&>◌
-- The operator `?`.
abbrev ◌&>◌ : {A B : Type 0} → Result A → (A → Result B) → Result B
(ok a) &> f = f a
(err e) &> f = err e

unfoldable pub job_from_proto : PreparedJobMessage → Result PreparedJob
job_from_proto msg = ok_or (corrupt "job without request") msg.request &> λ req.
    ok_or (corrupt "job without limits") msg.limits &> λ limits.
    ok (record { id = msg.job_id; req = req; limits = limits_from_proto limits })

-- `collect::<Result<Vec<_>, _>>()`.
unfoldable pub jobs_from_proto : List PreparedJobMessage → Result (List PreparedJob)
jobs_from_proto [] = ok []
jobs_from_proto (m ∷ ms) =
    let rest = jobs_from_proto ms in job_from_proto m &> λ job. rest &> λ jobs. ok (job ∷ jobs)

-- The numbers of the enum `JobState`; 0 is `JOB_STATE_UNSPECIFIED`.
unfoldable pub state_to_proto : PeekState → ℤ
state_to_proto ready = pos 1
state_to_proto scheduled = pos 2
state_to_proto inflight = pos 3
state_to_proto dead_letter = pos 4

unfoldable pub state_from_proto : ℤ → Result PeekState
state_from_proto (pos (suc zero)) = ok ready
state_from_proto (pos (suc (suc zero))) = ok scheduled
state_from_proto (pos (suc (suc (suc zero)))) = ok inflight
state_from_proto (pos (suc (suc (suc (suc zero))))) = ok dead_letter
state_from_proto _ = err (corrupt "unknown job state")

-- A `usize` is a `u64`.
unfoldable pub message_of : Op → OpMessage
message_of (enqueue jobs now) = p_enqueue (map job_to_proto jobs) now
message_of (enqueue_atomic jobs now) = p_enqueue_atomic (map job_to_proto jobs) now
message_of (reserve queues lease_ms max_jobs now) = p_reserve queues lease_ms max_jobs now
message_of (ack job_id attempt) = p_ack job_id attempt
message_of (nack req delay dead now) = p_nack (some req) now delay dead
message_of (extend req lease_ms now) = p_extend (some req) now lease_ms
message_of (drain_dead_letters queue max scan_cap) = p_drain_dead_letters queue max scan_cap
message_of (close_queue queue now grace_ms) = p_close_queue queue now grace_ms
message_of (open_queue queue) = p_open_queue queue
message_of (requeue_dead_letters queue keys now) = p_requeue_dead_letters queue keys now
message_of (dead_letter_jobs queue state keys reason dead now) =
    p_dead_letter_jobs queue (state_to_proto state) keys reason now dead
message_of (delete_dead_letters queue keys) = p_delete_dead_letters queue keys
message_of (purge_queue_chunk queue max) = p_purge_queue_chunk queue max
message_of (sweep now budget cutoff dead) = p_sweep now budget cutoff dead
message_of (audit_append r now) = p_audit_append (some r) now

unfoldable pub to_proto : Op → OpRecord
to_proto self = record { op = some (message_of self) }

unfoldable pub of_message : OpMessage → Result Op
of_message (p_enqueue js now) = jobs_from_proto js &> λ jobs. ok (enqueue jobs now)
of_message (p_enqueue_atomic js now) = jobs_from_proto js &> λ jobs. ok (enqueue_atomic jobs now)
of_message (p_reserve queues lease_ms max_jobs now) = ok (reserve queues lease_ms max_jobs now)
of_message (p_ack job_id attempt) = ok (ack job_id attempt)
of_message (p_nack request now delay dead) =
    ok_or (corrupt "nack without request") request &> λ req. ok (nack req delay dead now)
of_message (p_extend request now lease_ms) =
    ok_or (corrupt "extend without request") request &> λ req. ok (extend req lease_ms now)
of_message (p_drain_dead_letters queue max scan_cap) = ok (drain_dead_letters queue max scan_cap)
of_message (p_close_queue queue now grace_ms) = ok (close_queue queue now grace_ms)
of_message (p_open_queue queue) = ok (open_queue queue)
of_message (p_requeue_dead_letters queue keys now) = ok (requeue_dead_letters queue keys now)
of_message (p_dead_letter_jobs queue state keys reason now dead) =
    state_from_proto state &> λ s. ok (dead_letter_jobs queue s keys reason dead now)
of_message (p_delete_dead_letters queue keys) = ok (delete_dead_letters queue keys)
of_message (p_purge_queue_chunk queue max) = ok (purge_queue_chunk queue max)
of_message (p_sweep now budget cutoff dead) = ok (sweep now budget cutoff dead)
of_message (p_audit_append rec now) =
    ok_or (corrupt "audit append without record") rec &> λ r. ok (audit_append r now)

unfoldable pub from_proto : OpRecord → Result Op
from_proto msg = ok_or (corrupt "empty oneof") msg.op &> of_message

jobs_from_proto-map : (jobs : List PreparedJob) → jobs_from_proto (map job_to_proto jobs) ≡ ok jobs
unfolding jobs_from_proto job_from_proto job_to_proto limits_from_proto limits_to_proto
jobs_from_proto-map [] = refl
jobs_from_proto-map (j ∷ js) = rw (jobs_from_proto-map js) refl

-- Every operation is read back from the record that it is written to.
pub from_proto-to_proto : (op : Op) → from_proto (to_proto op) ≡ ok op
unfolding from_proto to_proto message_of of_message state_from_proto state_to_proto
from_proto-to_proto (enqueue jobs now) = rw (jobs_from_proto-map jobs) refl
from_proto-to_proto (enqueue_atomic jobs now) = rw (jobs_from_proto-map jobs) refl
from_proto-to_proto (reserve queues lease_ms max_jobs now) = refl
from_proto-to_proto (ack job_id attempt) = refl
from_proto-to_proto (nack req delay dead now) = refl
from_proto-to_proto (extend req lease_ms now) = refl
from_proto-to_proto (drain_dead_letters queue max scan_cap) = refl
from_proto-to_proto (close_queue queue now grace_ms) = refl
from_proto-to_proto (open_queue queue) = refl
from_proto-to_proto (requeue_dead_letters queue keys now) = refl
from_proto-to_proto (dead_letter_jobs queue ready keys reason dead now) = refl
from_proto-to_proto (dead_letter_jobs queue scheduled keys reason dead now) = refl
from_proto-to_proto (dead_letter_jobs queue inflight keys reason dead now) = refl
from_proto-to_proto (dead_letter_jobs queue dead_letter keys reason dead now) = refl
from_proto-to_proto (delete_dead_letters queue keys) = refl
from_proto-to_proto (purge_queue_chunk queue max) = refl
from_proto-to_proto (sweep now budget cutoff dead) = refl
from_proto-to_proto (audit_append r now) = refl
