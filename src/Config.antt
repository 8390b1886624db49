-- ===== src/Config.antt =====
-- src/config.rs: the configuration file, and the limits that a queue overrides.
pub mod Validation
pub mod Default
pub mod Accepts
use sepp.Prelude.{
  ℕ, ◌≤◌, ◌≡◌, Bool, true, false, not, ◌&&◌, ◌||◌, ◌*◌, String, List, [], ◌∷◌, Option, none, some,
  leb, ltb, ◌==◌, length, if◌then◌else◌, unwrap_or, arith,
}
use sepp.Prelude.Int.{ℤ, pos, leb_ℤ}
use sepp.Std.Bytes.{Bytes, Text, ◌=ᵇ◌}
use sepp.Std.HashMap.{HashMap, get, insert}

pub data RetryBackoff : Type 0 where
  constant exponential : RetryBackoff

pub record QueueConfig : Type 0 where
  pub name : Text
  pub max_lease_duration_ms : Option ℕ
  pub default_max_attempts : Option ℕ
  pub max_attempts_ceiling : Option ℕ
  pub default_priority : Option ℕ
  pub retry_delay_ms : Option ℕ
  pub retry_backoff : Option RetryBackoff
  pub retry_delay_max_ms : Option ℕ
  pub max_payload_bytes : Option ℕ
  pub allowed_encodings : Option (List Text)
  pub allowed_job_types : Option (List Text)
  pub max_schedule_horizon_ms : Option ℕ
  pub max_custom_entries : Option ℕ
  pub max_custom_total_bytes : Option ℕ
  pub max_custom_key_bytes : Option ℕ
  pub dedup_window_ms : Option ℤ
  pub max_queue_depth : Option ℕ

pub record EffectiveLimits : Type 0 where
  pub max_lease_duration_ms : ℕ
  pub default_max_attempts : ℕ
  pub max_attempts_ceiling : ℕ
  pub default_priority : ℕ
  pub retry_delay_ms : ℕ
  pub retry_backoff : RetryBackoff
  pub retry_delay_max_ms : ℕ
  pub max_payload_bytes : ℕ
  pub allowed_encodings : Option (List Text)
  pub allowed_job_types : Option (List Text)
  pub max_schedule_horizon_ms : ℕ
  pub max_custom_entries : ℕ
  pub max_custom_total_bytes : ℕ
  pub max_custom_key_bytes : ℕ
  pub dedup_window_ms : ℤ
  pub max_queue_depth : Option ℕ

pub record LimitsConfig : Type 0 where
  pub max_lease_duration_ms : ℕ
  pub default_max_attempts : ℕ
  pub max_attempts_ceiling : ℕ
  pub default_priority : ℕ
  pub retry_delay_ms : ℕ
  pub retry_backoff : RetryBackoff
  pub retry_delay_max_ms : ℕ
  pub max_reserve_batch : ℕ
  pub max_reserve_queues : ℕ
  pub max_wait_timeout_ms : ℕ
  pub max_enqueue_batch : ℕ
  pub max_queue_depth : Option ℕ
  pub max_payload_bytes : ℕ
  pub max_message_bytes : ℕ
  pub max_custom_entries : ℕ
  pub max_custom_total_bytes : ℕ
  pub max_custom_key_bytes : ℕ
  pub max_queue_name_bytes : ℕ
  pub max_job_type_bytes : ℕ
  pub max_idempotency_key_bytes : ℕ
  pub max_schedule_horizon_ms : ℕ
  pub allowed_encodings : Option (List Text)

pub data PersistMode : Type 0 where
  sync_all sync_data buffer : PersistMode

pub record StorageConfig : Type 0 where
  pub persist_mode : PersistMode
  pub sweep_interval_ms : ℕ
  pub sweep_limit : ℕ
  pub dedup_window_ms : ℤ
  pub dead_letter_retention_ms : ℕ
  pub command_queue_capacity : ℕ
  pub cache_size_bytes : Option ℕ
  pub max_journaling_size_bytes : Option ℕ
  pub max_cached_files : Option ℕ
  pub worker_threads : Option ℕ

-- `SocketAddr`, with the four bytes or the eight segments of its address.
pub data IpAddr : Type 0 where
  v4 : (a b c d : ℕ) → IpAddr
  v6 : List ℕ → IpAddr

pub record SocketAddr : Type 0 where
  pub ip : IpAddr
  pub port : ℕ

pub record ServerConfig : Type 0 where
  pub listen_addr : SocketAddr
  pub db_path : Text
  pub tls_cert_path : Option Text
  pub tls_key_path : Option Text
  pub strict_queues : Bool

pub record ApiKeyEntry : Type 0 where
  pub name : Text
  pub key : Text

pub record AuthConfig : Type 0 where
  pub api_keys : Option (List ApiKeyEntry)

-- `sample_ratio` holds the bits of the double.
pub record TracingConfig : Type 0 where
  pub enabled : Bool
  pub otlp_endpoint : Text
  pub service_name : Text
  pub sample_ratio : ℕ

pub record MetricsConfig : Type 0 where
  pub enabled : Bool
  pub otlp_endpoint : Text
  pub export_interval_ms : ℕ
  pub prometheus_enabled : Bool
  pub prometheus_listen_addr : SocketAddr

-- In the order of the source, which is that of the privileges.
pub data Role : Type 0 where
  viewer operator admin : Role

pub record AdminKey : Type 0 where
  pub name : Text
  pub key : Text
  pub role : Role

pub record AdminConfig : Type 0 where
  pub enabled : Bool
  pub listen_addr : SocketAddr
  pub tls_cert_path : Option Text
  pub tls_key_path : Option Text
  pub keys : Option (List AdminKey)
  pub session_ttl_ms : ℕ
  pub stats_history_ms : ℕ

pub data LogFormat : Type 0 where
  text json : LogFormat

pub record LoggingConfig : Type 0 where
  pub level : Text
  pub format : LogFormat

pub record Config : Type 0 where
  pub server : ServerConfig
  pub auth : AuthConfig
  pub limits : LimitsConfig
  pub storage : StorageConfig
  pub logging : LoggingConfig
  pub tracing : TracingConfig
  pub metrics : MetricsConfig
  pub admin : AdminConfig
  pub queues : List QueueConfig

unfoldable pub from_globals : LimitsConfig → StorageConfig → EffectiveLimits
from_globals limits storage = record {
  max_lease_duration_ms = limits.max_lease_duration_ms;
  default_max_attempts = limits.default_max_attempts;
  max_attempts_ceiling = limits.max_attempts_ceiling;
  default_priority = limits.default_priority;
  retry_delay_ms = limits.retry_delay_ms;
  retry_backoff = limits.retry_backoff;
  retry_delay_max_ms = limits.retry_delay_max_ms;
  max_payload_bytes = limits.max_payload_bytes;
  allowed_encodings = limits.allowed_encodings;
  allowed_job_types = none;
  max_schedule_horizon_ms = limits.max_schedule_horizon_ms;
  max_custom_entries = limits.max_custom_entries;
  max_custom_total_bytes = limits.max_custom_total_bytes;
  max_custom_key_bytes = limits.max_custom_key_bytes;
  dedup_window_ms = storage.dedup_window_ms;
  max_queue_depth = limits.max_queue_depth;
}

-- `opt.or(d)`.
abbrev or_option {ℓ} : {A : Type ℓ} → Option A → Option A → Option A
or_option none d = d
or_option (some a) d = some a

unfoldable pub merged_with : EffectiveLimits → QueueConfig → EffectiveLimits
merged_with self q = record {
  max_lease_duration_ms = unwrap_or q.max_lease_duration_ms self.max_lease_duration_ms;
  default_max_attempts = unwrap_or q.default_max_attempts self.default_max_attempts;
  max_attempts_ceiling = unwrap_or q.max_attempts_ceiling self.max_attempts_ceiling;
  default_priority = unwrap_or q.default_priority self.default_priority;
  retry_delay_ms = unwrap_or q.retry_delay_ms self.retry_delay_ms;
  retry_backoff = unwrap_or q.retry_backoff self.retry_backoff;
  retry_delay_max_ms = unwrap_or q.retry_delay_max_ms self.retry_delay_max_ms;
  max_payload_bytes = unwrap_or q.max_payload_bytes self.max_payload_bytes;
  allowed_encodings = or_option q.allowed_encodings self.allowed_encodings;
  allowed_job_types = q.allowed_job_types;
  max_schedule_horizon_ms = unwrap_or q.max_schedule_horizon_ms self.max_schedule_horizon_ms;
  max_custom_entries = unwrap_or q.max_custom_entries self.max_custom_entries;
  max_custom_total_bytes = unwrap_or q.max_custom_total_bytes self.max_custom_total_bytes;
  max_custom_key_bytes = unwrap_or q.max_custom_key_bytes self.max_custom_key_bytes;
  dedup_window_ms = unwrap_or q.dedup_window_ms self.dedup_window_ms;
  max_queue_depth = or_option q.max_queue_depth self.max_queue_depth;
}
