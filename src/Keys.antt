-- ===== src/Keys.antt =====
-- src/keys.rs: the byte layout of every key and value of the store.
pub mod Writer
pub mod Reader
pub mod RoundTrip
pub mod Order
use sepp.Prelude.{
  ℕ, ◌+◌, ◌-◌, ◌<◌, ◌^◌, ◌≡◌, Bool, true, false, List, [], ◌∷◌, ◌++◌, Option, none, some, min,
  String, if◌then◌else◌, unwrap_or, and_then,
}
use sepp.Prelude.Int.{ℤ, pos}
use sepp.Prelude.Result.{Result, ok_or, internal_status}
use sepp.Std.Bytes.{Bytes, Text, starts_with}
use sepp.Std.Utf8.{from_utf8}
use sepp.Proto.{Prost, Job, TraceContext, AuditRecord}
use Writer.{u8, u32, i64, prefixed}
use Reader
use Reader.{Read, ◌>>=◌, ◌>>◌, return, tail, tail_str, run}

unfoldable pub queue_prefix : Text → Bytes
queue_prefix queue = prefixed queue

unfoldable pub read_queue : Bytes → Option Text
read_queue bytes = run Reader.prefixed_str bytes

unfoldable pub deadline_of : Bytes → ℤ
deadline_of key = unwrap_or (run Reader.i64 key) (pos 0)

-- `queue | inverted_priority | enqueued_at | job_id`.
pub record ReadyKey : Type 0 where
  pub queue : Text
  pub priority : ℕ
  pub enqueued_at : ℤ
  pub job_id : Text

unfoldable pub encode_ready : ReadyKey → Bytes
encode_ready k = prefixed k.queue ++ (u8 (9 - min k.priority 9) ++ (i64 k.enqueued_at ++ k.job_id))

unfoldable pub decode_ready : Bytes → Option ReadyKey
decode_ready = run do
  queue ← Reader.prefixed_str
  inverted ← Reader.u8
  enqueued_at ← Reader.i64
  job_id ← tail_str
  return (record {
    queue = queue;
    priority = 9 - inverted;
    enqueued_at = enqueued_at;
    job_id = job_id;
  })

-- `deadline | job_id`.
pub record TimerKey : Type 0 where
  pub deadline : ℤ
  pub job_id : Text

unfoldable pub encode_timer : TimerKey → Bytes
encode_timer k = i64 k.deadline ++ k.job_id

unfoldable pub timer_job_id : Bytes → Option Bytes
timer_job_id = run do Reader.i64; tail

-- `"closing/" | queue`, with the bytes of the text written out.
abbrev pub closing_prefix : Bytes
closing_prefix = b'c' ∷ b'l' ∷ b'o' ∷ b's' ∷ b'i' ∷ b'n' ∷ b'g' ∷ b'/' ∷ []

unfoldable pub closing_key : Text → Bytes
closing_key queue = closing_prefix ++ queue

unfoldable pub closing_queue : Bytes → Option Text
closing_queue key =
    if starts_with key closing_prefix then from_utf8 (sepp.Prelude.drop 8 key) else none

abbrev pub audit_seq_key : Bytes
audit_seq_key = b'a' ∷ b'u' ∷ b'd' ∷ b'i' ∷ b't' ∷ b'_' ∷ b's' ∷ b'e' ∷ b'q' ∷ []

-- `queue | idempotency_key`.
pub record DedupKey : Type 0 where
  pub queue : Text
  pub idempotency_key : Text

unfoldable pub encode_dedup : DedupKey → Bytes
encode_dedup k = prefixed k.queue ++ k.idempotency_key

-- `enqueued_at | deadline | job_id`.
pub record DedupValue : Type 0 where
  pub enqueued_at : ℤ
  pub deadline : ℤ
  pub job_id : Text

unfoldable pub encode_dedup_value : DedupValue → Bytes
encode_dedup_value v = i64 v.enqueued_at ++ (i64 v.deadline ++ v.job_id)

unfoldable pub decode_dedup_value : Bytes → Option DedupValue
decode_dedup_value = run do
  enqueued_at ← Reader.i64
  deadline ← Reader.i64
  job_id ← tail_str
  return (record { enqueued_at = enqueued_at; deadline = deadline; job_id = job_id })

-- `deadline | dedup_key`.
pub record DedupTimerKey : Type 0 where
  pub deadline : ℤ
  pub dedup_key : Bytes

unfoldable pub encode_dedup_timer : DedupTimerKey → Bytes
encode_dedup_timer k = i64 k.deadline ++ k.dedup_key

unfoldable pub dedup_timer_key : Bytes → Option Bytes
dedup_timer_key = run do Reader.i64; tail

unfoldable pub dedup_timer_queue : Bytes → Option Text
dedup_timer_queue key = and_then (dedup_timer_key key) read_queue

-- `failed_at | queue | job_id`.
pub record DeadLetterKey : Type 0 where
  pub failed_at : ℤ
  pub queue : Text
  pub job_id : Bytes

unfoldable pub encode_dead_letter_key : DeadLetterKey → Bytes
encode_dead_letter_key k = i64 k.failed_at ++ (prefixed k.queue ++ k.job_id)

unfoldable pub dead_letter_queue : Bytes → Option Text
dead_letter_queue = run do Reader.i64; Reader.prefixed_str

unfoldable pub dead_letter_job_id : Bytes → Option Text
dead_letter_job_id = run do Reader.i64; Reader.prefixed_str; tail_str

pub record Inflight : Type 0 where
  pub attempt : ℕ
  pub lease_expires_at : ℤ
  pub enqueued_at : ℤ
  pub priority : ℕ
  pub max_attempts : ℕ
  pub queue : Text
  pub trace_context : Option TraceContext

module _ ⦃prost : Prost⦄ where
  -- `queue | protobuf(job)`.
  unfoldable pub encode_job_value : Text → Job → Bytes
  encode_job_value queue job = queue_prefix queue ++ prost.encode_job job

  read_job : Read (Text × Job)
  read_job = do
    queue ← Reader.prefixed_str
    job ← Reader.message prost.decode_job
    return (queue, job)

  unfoldable pub decode_job_value : Bytes → Result (Text × Job)
  unfolding read_job
  decode_job_value bytes = ok_or (internal_status "corrupt job record") (run read_job bytes)

  unfoldable pub encode_audit_value : ℤ → AuditRecord → Bytes
  encode_audit_value ts_ms r = i64 ts_ms ++ prost.encode_audit r

  unfoldable pub decode_audit_value : Bytes → Option (ℤ × AuditRecord)
  decode_audit_value =
      run do ts_ms ← Reader.i64; r ← Reader.message prost.decode_audit; return (ts_ms, r)

  -- An absent context is written as no bytes, and no bytes are read as an absent context.
  trace_bytes : Option TraceContext → Bytes
  trace_bytes none = []
  trace_bytes (some t) = prost.encode_trace_context t

  read_trace : Bytes → Option (Option TraceContext)
  read_trace [] = some none
  read_trace (b ∷ bs) = and_then (prost.decode_trace_context (b ∷ bs)) (λ t. some (some t))

  unfoldable pub encode_inflight : Inflight → Bytes
  unfolding trace_bytes
  encode_inflight i =
      u32 i.attempt
      ++ (i64 i.lease_expires_at
          ++ (i64 i.enqueued_at
              ++ (u32 i.priority
                  ++ (u32 i.max_attempts ++ (prefixed i.queue ++ trace_bytes i.trace_context)))))

  read_inflight : Read Inflight
  unfolding read_trace
  read_inflight = do
    attempt ← Reader.u32
    lease_expires_at ← Reader.i64
    enqueued_at ← Reader.i64
    priority ← Reader.u32
    max_attempts ← Reader.u32
    queue ← Reader.prefixed_str
    trace_context ← Reader.message read_trace
    return (record {
      attempt = attempt;
      lease_expires_at = lease_expires_at;
      enqueued_at = enqueued_at;
      priority = priority;
      max_attempts = max_attempts;
      queue = queue;
      trace_context = trace_context;
    })

  unfoldable pub decode_inflight : Bytes → Result Inflight
  unfolding read_inflight
  decode_inflight bytes =
      ok_or (internal_status "corrupt inflight record") (run read_inflight bytes)
