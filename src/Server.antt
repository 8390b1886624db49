-- ===== src/Server.antt =====
-- src/queue_server.rs: the admission of a job, before the storage layer sees it.
pub mod Handlers
pub mod Admitted
pub mod Jobs
pub mod Polling
use sepp.Prelude.{
  ℕ, ◌+◌, ◌%◌, ◌^◌, Bool, true, false, not, ◌&&◌, ◌||◌, List, [], ◌∷◌, Option, none, some, ltb,
  length, if◌then◌else◌, String,
}
use sepp.Prelude.Int.{ℤ, saturating_add, ltb_ℤ}
use sepp.Prelude.Check.{map_fail, Check, pass, fail, ◌then◌, fail_if, if_some}
use sepp.Std.Bytes.{Bytes, Text, ◌=ᵇ◌}
use sepp.Std.BigEndian.{i64_of_bits}
use sepp.Std.HashMap.{HashMap}
use sepp.Proto.{
  Prost, EnqueueRequest, JobRejection, PrimitiveValue, PrimitiveKind, string_value, double_value,
  int_value, bool_value, Complaint, timestamp_to_millis, millis_to_duration,
}
use sepp.Config.{Config, EffectiveLimits}
use sepp.Queues.{QueueRegistry, effective, is_declared}
use sepp.Validate.{enqueue_request}

pub record ServerLimits : Type 0 where
  pub max_reserve_batch : ℕ
  pub max_reserve_queues : ℕ
  pub max_wait_timeout_ms : ℕ
  pub max_enqueue_batch : ℕ
  pub max_queue_name_bytes : ℕ
  pub max_job_type_bytes : ℕ
  pub max_idempotency_key_bytes : ℕ

unfoldable pub server_limits : Config → ServerLimits
server_limits c = record {
  max_reserve_batch = c.limits.max_reserve_batch;
  max_reserve_queues = c.limits.max_reserve_queues;
  max_wait_timeout_ms = c.limits.max_wait_timeout_ms;
  max_enqueue_batch = c.limits.max_enqueue_batch;
  max_queue_name_bytes = c.limits.max_queue_name_bytes;
  max_job_type_bytes = c.limits.max_job_type_bytes;
  max_idempotency_key_bytes = c.limits.max_idempotency_key_bytes;
}

unfoldable pub primitive_value_bytes : PrimitiveValue → ℕ
primitive_value_bytes value = elim value.value [
  | some (string_value s) ↦ length s
  | some (double_value d) ↦ 8
  | some (int_value n) ↦ 8
  | some (bool_value b) ↦ 1
  | none ↦ 0
]

-- `allowed.iter().any(|t| t == x)`.
unfoldable pub allows : List Text → Text → Bool
allows [] x = false
allows (t ∷ ts) x = t =ᵇ x || allows ts x

-- The loop over the custom map, with the bytes counted so far, and the test after it.
unfoldable pub check_custom :
    (max_key max_total : ℕ) → ℕ → HashMap Text PrimitiveValue → Check JobRejection
check_custom max_key max_total custom_bytes [] =
    fail_if (ltb max_total custom_bytes) (JobRejection.custom_map_too_large max_total custom_bytes)
check_custom max_key max_total custom_bytes ((key, value) ∷ rest) =
    fail_if (ltb max_key (length key)) (JobRejection.custom_key_too_long key max_key (length key))
    then check_custom max_key max_total (custom_bytes + (length key + primitive_value_bytes value))
        rest

module _ ⦃prost : Prost⦄ where
  -- `max_schedule_horizon_ms as i64` keeps the bits of the `u64`.
  unfoldable pub check_schedule : EnqueueRequest → EffectiveLimits → ℤ → Check JobRejection
  check_schedule job limits now_ms = if_some job.scheduled_at λ at.
      fail_if
        (ltb_ℤ (saturating_add now_ms (i64_of_bits limits.max_schedule_horizon_ms))
          (timestamp_to_millis at))
        (JobRejection.scheduled_too_far (millis_to_duration limits.max_schedule_horizon_ms) at)

  unfoldable pub check_enqueue_limits :
      EnqueueRequest → EffectiveLimits → ServerLimits → ℤ → Check JobRejection
  check_enqueue_limits job limits s now_ms =
      fail_if (ltb s.max_queue_name_bytes (length job.queue))
        (JobRejection.queue_name_too_long s.max_queue_name_bytes (length job.queue))
      then fail_if (ltb s.max_job_type_bytes (length job.job_type))
          (JobRejection.job_type_name_too_long s.max_job_type_bytes (length job.job_type))
      then if_some limits.allowed_job_types (λ allowed.
        fail_if (not (allows allowed job.job_type))
          (JobRejection.job_type_not_allowed job.job_type allowed))
      then if_some job.idempotency_key (λ key.
        fail_if (ltb s.max_idempotency_key_bytes (length key))
          (JobRejection.idempotency_key_too_long s.max_idempotency_key_bytes (length key)))
      then if_some job.payload (λ p.
        fail_if (ltb limits.max_payload_bytes (length p.bytes))
          (JobRejection.payload_too_large limits.max_payload_bytes (length p.bytes)))
      then if_some job.payload (λ p. if_some limits.allowed_encodings λ allowed.
        fail_if (not (allows allowed p.encoding))
          (JobRejection.encoding_not_allowed p.encoding allowed))
      then fail_if (ltb limits.max_custom_entries (length job.custom)) (
          JobRejection.custom_entries_too_many limits.max_custom_entries
            (length job.custom % 2 ^ 32))
      then check_custom limits.max_custom_key_bytes limits.max_custom_total_bytes 0 job.custom
      then check_schedule job limits now_ms

  unfoldable pub classify_enqueue :
      EnqueueRequest → QueueRegistry → Bool → ServerLimits → ℤ → Check JobRejection
  classify_enqueue job registry strict_queues server now_ms =
      map_fail JobRejection.invalid_request (enqueue_request job)
      then fail_if (strict_queues && not (is_declared registry job.queue))
          (JobRejection.unknown_queue job.queue)
      then check_enqueue_limits job (effective registry job.queue) server now_ms

-- The label of a rejection, for metrics.
unfoldable pub rejection_label : JobRejection → String
rejection_label (JobRejection.unknown_queue queue) = "unknown_queue"
rejection_label (JobRejection.payload_too_large limit actual) = "payload_too_large"
rejection_label (JobRejection.encoding_not_allowed encoding allowed) = "encoding_not_allowed"
rejection_label (JobRejection.job_type_not_allowed job_type allowed) = "job_type_not_allowed"
rejection_label (JobRejection.custom_entries_too_many limit actual) = "custom_entries_too_many"
rejection_label (JobRejection.custom_map_too_large limit actual) = "custom_map_too_large"
rejection_label (JobRejection.custom_key_too_long key limit actual) = "custom_key_too_long"
rejection_label (JobRejection.queue_name_too_long limit actual) = "queue_name_too_long"
rejection_label (JobRejection.job_type_name_too_long limit actual) = "job_type_name_too_long"
rejection_label (JobRejection.idempotency_key_too_long limit actual) = "idempotency_key_too_long"
rejection_label (JobRejection.scheduled_too_far horizon actual) = "scheduled_too_far"
rejection_label (JobRejection.invalid_request message) = "invalid_request"
rejection_label (JobRejection.queue_full queue limit) = "queue_full"
rejection_label (JobRejection.queue_closing queue) = "queue_closing"
