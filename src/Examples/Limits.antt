-- ===== src/Examples/Limits.antt =====
-- The theorems on configurations, requests and the server, at concrete inputs.

use sepp.Prelude.{◌≡◌, ◌≤◌, ◌+◌, ◌*◌, refl, false, [], ◌∷◌, none, some, length, arith, min}
use sepp.Prelude.Int.{pos}
use sepp.Prelude.Result.{ok}
use sepp.Prelude.Check.{Passes}
use sepp.Std.Bytes.{Bytes, Text}
use sepp.Std.Utf8.{IsUtf8}
use sepp.Proto.{EnqueueRequest, ReserveRequest, NackRequest, ExtendRequest}
use sepp.Config.{Config, QueueConfig, RetryBackoff}
use sepp.Config.Default.{default_config}
use sepp.Config.Validation.{validate_config}
use sepp.Config.Accepts.{InRange, validate_config-InRange}
use sepp.Queues.{from_config, effective, RetryPolicy}
use sepp.Op.{Op, resolve}
use sepp.Op.Record.{to_proto, from_proto, from_proto-to_proto}
use sepp.Retry.{
  JitterHash, capped, grown, policy_retry_delay_ms, delay_under, resolve_retry_delay,
  resolve_extend_lease, requested_lease,
}
use sepp.Retry.Bounds.{policy_retry_delay_ms-capped}
use sepp.Retry.Shortcut.{IsInflight, resolve_extend_lease-min, resolve_retry_delay-policy}
use sepp.Queues.Effective.{policy_of}
use sepp.Server.{server_limits, classify_enqueue}
use sepp.Server.Admitted.{
  IsAdmitted, classify_enqueue-IsAdmitted, ready_key, classify_enqueue-ready_key,
}
use sepp.Server.Polling.Clamped.{IsClamped, lease_of-IsClamped}
use sepp.Keys.{encode_ready, decode_ready}
use sepp.Examples.Codec.{memory, codec}
use sepp.Examples.Runs.{held, queue_q, lease_j}

instance abbrev pub jitter : JitterHash
jitter = record { hash = λ id attempt. length id + attempt }

-- A queue with a lease, a delay and a backoff of its own.
abbrev queue_c : QueueConfig
queue_c = record {
  name = queue_q;
  max_lease_duration_ms = some 1000;
  default_max_attempts = none;
  max_attempts_ceiling = some 5;
  default_priority = some 7;
  retry_delay_ms = some 100;
  retry_backoff = some RetryBackoff.exponential;
  retry_delay_max_ms = none;
  max_payload_bytes = none;
  allowed_encodings = none;
  allowed_job_types = none;
  max_schedule_horizon_ms = none;
  max_custom_entries = none;
  max_custom_total_bytes = none;
  max_custom_key_bytes = none;
  dedup_window_ms = none;
  max_queue_depth = none;
}

abbrev pub config_c : Config
config_c = record default_config { queues = queue_c ∷ [] }

config_ok : Passes (validate_config config_c)
unfolding sepp.Config.Validation.validate_config sepp.Config.Validation.validate_server
    sepp.Config.Validation.validate_limits sepp.Config.Validation.validate_storage
    sepp.Config.Validation.validate_tls sepp.Config.Validation.validate_tracing
    sepp.Config.Validation.validate_metrics sepp.Config.Validation.validate_admin
    sepp.Config.Validation.is_loopback sepp.Config.Validation.validate
    sepp.Config.Validation.validate_with sepp.Config.Validation.is_visible_ascii
    sepp.Config.Validation.payload_within_message_limit sepp.Config.Validation.validate_admin_keys
    sepp.Config.Validation.validate_api_keys sepp.Config.Validation.validate_queues
    sepp.Config.Validation.validate_queues_from sepp.Config.from_globals sepp.Config.merged_with
    sepp.Std.Bytes.cmp sepp.Std.Bytes.◌=ᵇ◌ sepp.Validate.contains sepp.Validate.has_control
    sepp.Validate.queue_name_error
config_ok = refl

abbrev pub request_q : EnqueueRequest
request_q = record {
  queue = queue_q;
  job_type = 116 ∷ [];
  payload = some (record { bytes = 1 ∷ []; encoding = 106 ∷ [] });
  idempotency_key = none;
  priority = none;
  max_attempts = some 9;
  trace_context = none;
  custom = [];
  scheduled_at = none;
}

classify_ok :
    Passes
      (classify_enqueue request_q (from_config config_c) false (server_limits config_c) (pos 7))
unfolding sepp.Server.classify_enqueue sepp.Server.check_enqueue_limits sepp.Server.server_limits
    sepp.Server.check_custom sepp.Server.check_schedule sepp.Server.allows
    sepp.Server.primitive_value_bytes sepp.Validate.enqueue_request sepp.Validate.queue_name
    sepp.Validate.queue_name_error sepp.Validate.contains sepp.Validate.has_control
    sepp.Validate.min_len sepp.Validate.payload sepp.Validate.gte sepp.Validate.lte
    sepp.Validate.primitive_value sepp.Validate.trace_context sepp.Queues.effective
    sepp.Queues.from_config sepp.Queues.any_delay sepp.Queues.collect sepp.Queues.is_declared
    sepp.Queues.min_lease sepp.Std.HashMap.get sepp.Std.HashMap.insert sepp.Config.from_globals
    sepp.Config.merged_with sepp.Std.Bytes.cmp sepp.Std.Bytes.◌=ᵇ◌
classify_ok = refl

validate_config-InRange_example :
    InRange config_c.limits.max_message_bytes (effective (from_config config_c) queue_q)
validate_config-InRange_example = validate_config-InRange config_c queue_q config_ok

classify_enqueue-IsAdmitted_example :
    IsAdmitted request_q (effective (from_config config_c) queue_q) (server_limits config_c)
classify_enqueue-IsAdmitted_example =
    classify_enqueue-IsAdmitted request_q (from_config config_c) false (server_limits config_c)
      (pos 7) classify_ok

IsUtf8-q : IsUtf8 queue_q
unfolding sepp.Std.Utf8.is_utf8
IsUtf8-q = refl

classify_enqueue-ready_key_example :
    decode_ready (
      encode_ready (
        ready_key request_q
          (resolve request_q (from_config config_c) (from_config config_c))
          (pos 7)
          queue_q))
    ≡ some (
        ready_key request_q
          (resolve request_q (from_config config_c) (from_config config_c))
          (pos 7)
          queue_q)
classify_enqueue-ready_key_example =
    classify_enqueue-ready_key config_c config_c request_q (pos 7) queue_q config_ok config_ok
      classify_ok IsUtf8-q IsUtf8-q (omega arith)

abbrev reserve_q : ReserveRequest
reserve_q = record {
  queues = queue_q ∷ [];
  wait_timeout = none;
  lease_duration = some (record { seconds = pos 60; nanos = pos 0 });
  worker_id = none;
  max_jobs = some 1000;
}

lease_of-IsClamped_example : IsClamped ⦃prost = codec⦄ config_c reserve_q
lease_of-IsClamped_example = lease_of-IsClamped codec config_c reserve_q config_ok

-- The third attempt under an exponential backoff from 100 ms.
abbrev policy_c : RetryPolicy
policy_c = record {
  retry_delay_ms = 100;
  retry_backoff = RetryBackoff.exponential;
  retry_delay_max_ms = 300;
  max_schedule_horizon_ms = 1000;
}

policy_retry_delay_ms-capped_example :
    (policy_retry_delay_ms policy_c 3 queue_q ≤ 300)
    × (policy_retry_delay_ms policy_c 3 queue_q ≤ 1000)
    × (policy_retry_delay_ms policy_c 3 queue_q ≤ grown policy_c 3)
    × (3 * capped policy_c 3 ≤ 4 * policy_retry_delay_ms policy_c 3 queue_q)
policy_retry_delay_ms-capped_example =
    policy_retry_delay_ms-capped jitter policy_c 3 queue_q (omega arith)

-- The job of `held` is in flight.
held_row :
    sepp.Std.BTreeMap.get held.tx.inflight (106 ∷ []) ≡ some (sepp.Keys.encode_inflight lease_j)
unfolding sepp.Std.BTreeMap.get sepp.Std.Bytes.◌=ᵇ◌ sepp.Std.Bytes.cmp
held_row = refl

held_decoded : sepp.Keys.decode_inflight (sepp.Keys.encode_inflight lease_j) ≡ ok lease_j
unfolding sepp.Keys.decode_inflight sepp.Keys.Reader.◌>>=◌ sepp.Keys.Reader.u32
    sepp.Keys.Reader.take sepp.Keys.encode_inflight sepp.Keys.Writer.u32 sepp.Std.BigEndian.to_be
    sepp.Keys.Writer.i64 sepp.Keys.Writer.prefixed sepp.Keys.Reader.i64
    sepp.Keys.Reader.prefixed_str sepp.Keys.Reader.prefixed sepp.Keys.Reader.message
    sepp.Std.BigEndian.from_be sepp.Std.BigEndian.i64_bits sepp.Std.BigEndian.i64_of_bits
    sepp.Std.Utf8.from_utf8 sepp.Std.Utf8.is_utf8
held_decoded = refl

held-IsInflight : IsInflight held.tx (106 ∷ []) queue_q
held-IsInflight = record {
  bytes = sepp.Keys.encode_inflight lease_j;
  inflight = lease_j;
  readable = refl;
  row = held_row;
  decoded = held_decoded;
  of_queue = refl;
}

abbrev extend_h : ExtendRequest
extend_h = record {
  job_id = 106 ∷ [];
  attempt = 1;
  lease_duration = some (record { seconds = pos 60; nanos = pos 0 });
  worker_id = none;
}

resolve_extend_lease-min_example :
    resolve_extend_lease (from_config config_c) held.tx extend_h
    ≡ ok (
        min
          (requested_lease extend_h)
          (effective (from_config config_c) queue_q).max_lease_duration_ms)
resolve_extend_lease-min_example =
    resolve_extend_lease-min config_c held.tx extend_h queue_q held-IsInflight

abbrev nack_h : NackRequest
nack_h = record { job_id = 106 ∷ []; attempt = 1; reason = none; retry = none; worker_id = none }

resolve_retry_delay-policy_example :
    resolve_retry_delay (from_config config_c) (from_config config_c) held.tx nack_h
    ≡ ok (delay_under (policy_of (effective (from_config config_c) queue_q)) nack_h)
resolve_retry_delay-policy_example =
    resolve_retry_delay-policy config_c held.tx nack_h queue_q held-IsInflight

from_proto-to_proto_example : from_proto (to_proto (Op.ack queue_q 2)) ≡ ok (Op.ack queue_q 2)
from_proto-to_proto_example = from_proto-to_proto (Op.ack queue_q 2)
