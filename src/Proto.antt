-- ===== src/Proto.antt =====
-- The messages of proto/sepp/v1/queue.proto and proto/sepp/storage/v1/op.proto that the storage
-- layer reads and writes, the conversions of src/pb.rs, and what the development takes as given of
-- the third-party crates prost and prost_types.
pub mod Time
use sepp.Prelude.{
  ℕ, ◌+◌, ◌-◌, ◌*◌, ◌/◌, ◌%◌, ◌<◌, ◌≡◌, Bool, Option, some, if◌then◌else◌, leb, List, String,
}
use sepp.Prelude.Int.{
  ℤ, pos, negsuc, saturate, saturating_add, pos_part, saturating_add_u64, saturating_mul_u64,
}
use sepp.Std.Bytes.{Bytes, Text}
use sepp.Std.HashMap.{HashMap}

-- `double_value` holds the bits of the double.
pub data PrimitiveKind : Type 0 where
  string_value : Text → PrimitiveKind
  double_value : ℕ → PrimitiveKind
  int_value : ℤ → PrimitiveKind
  bool_value : Bool → PrimitiveKind

pub record PrimitiveValue : Type 0 where
  pub value : Option PrimitiveKind

pub record TraceContext : Type 0 where
  pub traceparent : Text
  pub tracestate : Option Text

pub record Payload : Type 0 where
  pub bytes : Bytes
  pub encoding : Text

-- `prost_types::Timestamp` and `prost_types::Duration`.
pub record Timestamp : Type 0 where
  pub seconds : ℤ
  pub nanos : ℤ

pub record Duration : Type 0 where
  pub seconds : ℤ
  pub nanos : ℤ

pub record Job : Type 0 where
  pub id : Text
  pub job_type : Text
  pub payload : Option Payload
  pub priority : ℕ
  pub trace_context : Option TraceContext
  pub enqueued_at : Option Timestamp
  pub attempt : ℕ
  pub max_attempts : ℕ
  pub lease_expires_at : Option Timestamp
  pub custom : HashMap Text PrimitiveValue
  pub scheduled_at : Option Timestamp
  pub queue : Text

pub record EnqueueRequest : Type 0 where
  pub queue : Text
  pub job_type : Text
  pub payload : Option Payload
  pub idempotency_key : Option Text
  pub priority : Option ℕ
  pub max_attempts : Option ℕ
  pub trace_context : Option TraceContext
  pub custom : HashMap Text PrimitiveValue
  pub scheduled_at : Option Timestamp

pub record EnqueueResponse : Type 0 where
  pub job_id : Text
  pub deduplicated : Bool

-- The messages of the checks of src/validate.rs; each constructor is one text of the source with the
-- parts that it formats.
pub data Complaint : Type 0 where
  must_not_be_empty : (field : String) → Complaint
  must_contain_an_item : (field : String) → Complaint
  is_required : (field : String) → Complaint
  must_be_le must_be_ge : (field : String) (bound : ℕ) → Complaint
  must_not_be_negative must_be_positive : (field : String) → Complaint
  must_set_a_value : (key : Text) → Complaint
  must_be_a_uuid : (field : String) → Complaint
  bad_queue_name : (field why : String) → Complaint

-- `JobRejection`, by its reason.
pub data JobRejection : Type 0 where
  queue_full : Text → ℕ → JobRejection
  queue_closing : Text → JobRejection
  unknown_queue : Text → JobRejection
  payload_too_large queue_name_too_long job_type_name_too_long : (limit actual : ℕ) → JobRejection
  idempotency_key_too_long custom_map_too_large : (limit actual : ℕ) → JobRejection
  custom_entries_too_many : (limit actual : ℕ) → JobRejection
  encoding_not_allowed job_type_not_allowed : Text → (allowed : List Text) → JobRejection
  custom_key_too_long : (key : Text) (limit actual : ℕ) → JobRejection
  scheduled_too_far : (horizon : Duration) (actual : Timestamp) → JobRejection
  invalid_request : Complaint → JobRejection

pub data RetryStrategy : Type 0 where
  default dead_letter : RetryStrategy
  delay : Duration → RetryStrategy

pub record NackRetry : Type 0 where
  pub strategy : Option RetryStrategy

pub record ReserveRequest : Type 0 where
  pub queues : List Text
  pub wait_timeout : Option Duration
  pub lease_duration : Option Duration
  pub worker_id : Option Text
  pub max_jobs : Option ℕ

pub record AckRequest : Type 0 where
  pub job_id : Text
  pub attempt : ℕ
  pub worker_id : Option Text

pub record DrainDeadLettersRequest : Type 0 where
  pub queue : Option Text
  pub max : Option ℕ

pub record NackRequest : Type 0 where
  pub job_id : Text
  pub attempt : ℕ
  pub reason : Option Text
  pub retry : Option NackRetry
  pub worker_id : Option Text

pub record ExtendRequest : Type 0 where
  pub job_id : Text
  pub attempt : ℕ
  pub lease_duration : Option Duration
  pub worker_id : Option Text

pub data DeadLetterCause : Type 0 where
  unspecified attempts_exhausted rejected lease_expired admin : DeadLetterCause

pub record DeadLetterRecord : Type 0 where
  pub job : Option Job
  pub cause : DeadLetterCause
  pub failed_at : Option Timestamp
  pub final_attempt : ℕ
  pub last_reason : Option Text

pub record AuditRecord : Type 0 where
  pub actor : Text
  pub role : Text
  pub action : Text
  pub details_json : Text

-- What the program relies on of prost and prost_types: a decoded encoding is the message, and
-- normalising changes no timestamp, and no duration that is not negative, whose nanoseconds
-- are in range.
pub record Prost : Type 0 where
  pub encode_job : Job → Bytes
  pub decode_job : Bytes → Option Job
  pub decode_job-encode_job : (j : Job) → decode_job (encode_job j) ≡ some j
  pub encode_payload : Payload → Bytes
  pub decode_payload : Bytes → Option Payload
  pub decode_payload-encode_payload : (p : Payload) → decode_payload (encode_payload p) ≡ some p
  pub encode_trace_context : TraceContext → Bytes
  pub decode_trace_context : Bytes → Option TraceContext
  pub decode_trace_context-encode_trace_context :
      (t : TraceContext) → decode_trace_context (encode_trace_context t) ≡ some t
  pub encode_dead_letter : DeadLetterRecord → Bytes
  pub decode_dead_letter : Bytes → Option DeadLetterRecord
  pub decode_dead_letter-encode_dead_letter :
      (r : DeadLetterRecord) → decode_dead_letter (encode_dead_letter r) ≡ some r
  pub encode_audit : AuditRecord → Bytes
  pub decode_audit : Bytes → Option AuditRecord
  pub decode_audit-encode_audit : (r : AuditRecord) → decode_audit (encode_audit r) ≡ some r
  pub normalized : Timestamp → Timestamp
  pub normalized_lem :
      (s : ℤ) (n : ℕ)
      → n < 1000000000
      → normalized (record { seconds = s; nanos = pos n }) ≡ record { seconds = s; nanos = pos n }
  pub normalized_duration : Duration → Duration
  pub normalized_duration_lem :
      (s n : ℕ)
      → n < 1000000000
      → normalized_duration (record { seconds = pos s; nanos = pos n })
        ≡ record { seconds = pos s; nanos = pos n }

-- `ms.div_euclid(1000)` and `ms.rem_euclid(1000)`.
abbrev div_euclid_1000 : ℤ → ℤ
div_euclid_1000 (pos n) = pos (n / 1000)
div_euclid_1000 (negsuc n) = negsuc (n / 1000)

abbrev rem_euclid_1000 : ℤ → ℕ
rem_euclid_1000 (pos n) = n % 1000
rem_euclid_1000 (negsuc n) = 999 - n % 1000

-- `s.saturating_mul(1000)`, and `n / 1_000_000`, which truncates towards zero.
abbrev saturating_mul_1000 : ℤ → ℤ
saturating_mul_1000 (pos n) = saturate (pos (n * 1000))
saturating_mul_1000 (negsuc n) = saturate (negsuc (n * 1000 + 999))

abbrev millis_of_nanos : ℤ → ℤ
millis_of_nanos (pos n) = pos (n / 1000000)
millis_of_nanos (negsuc n) = if leb 999999 n then negsuc ((n + 1) / 1000000 - 1) else pos 0

-- `millis_to_duration`: the seconds of a `u64` of milliseconds fit in an `i64`.
unfoldable pub millis_to_duration : ℕ → Duration
millis_to_duration ms = record { seconds = pos (ms / 1000); nanos = pos (ms % 1000 * 1000000) }

module _ ⦃prost : Prost⦄ where
  unfoldable pub duration_to_millis : Duration → ℕ
  duration_to_millis d =
      let norm = prost.normalized_duration d in
      saturating_add_u64 (saturating_mul_u64 (pos_part norm.seconds) 1000)
        (pos_part norm.nanos / 1000000)

  unfoldable pub millis_to_timestamp : ℤ → Timestamp
  millis_to_timestamp ms =
      prost.normalized
        (record { seconds = div_euclid_1000 ms; nanos = pos (rem_euclid_1000 ms * 1000000) })

  unfoldable pub timestamp_to_millis : Timestamp → ℤ
  timestamp_to_millis ts =
      let norm = prost.normalized ts in
      saturating_add (saturating_mul_1000 norm.seconds) (millis_of_nanos norm.nanos)
