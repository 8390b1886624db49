-- ===== src/Config/Default.antt =====
-- The `Default` implementations of src/config.rs.
use sepp.Prelude.{◌*◌, ◌^◌, true, false, [], ◌∷◌, none}
use sepp.Prelude.Int.{pos}
use sepp.Std.Bytes.{Text}
use sepp.Config.{
  LimitsConfig, StorageConfig, ServerConfig, LoggingConfig, TracingConfig, MetricsConfig,
  AdminConfig, Config, RetryBackoff, PersistMode, LogFormat, v4,
}

-- "http://localhost:4317".
abbrev local_endpoint : Text
local_endpoint =
    104 ∷ 116 ∷ 116 ∷ 112 ∷ 58 ∷ 47 ∷ 47 ∷ 108 ∷ 111 ∷ 99 ∷ 97 ∷ 108 ∷ 104 ∷ 111 ∷ 115 ∷ 116 ∷ 58
    ∷ 52 ∷ 51 ∷ 49 ∷ 55 ∷ []

-- `listen_addr` is 0.0.0.0:50051, and `db_path` is "./sepp-data".
abbrev pub default_server : ServerConfig
default_server = record {
  listen_addr = record { ip = v4 0 0 0 0; port = 50051 };
  db_path = 46 ∷ 47 ∷ 115 ∷ 101 ∷ 112 ∷ 112 ∷ 45 ∷ 100 ∷ 97 ∷ 116 ∷ 97 ∷ [];
  tls_cert_path = none;
  tls_key_path = none;
  strict_queues = false;
}

abbrev pub default_limits : LimitsConfig
default_limits = record {
  max_lease_duration_ms = 5 * 60 * 1000;
  default_max_attempts = 3;
  max_attempts_ceiling = 100;
  default_priority = 0;
  retry_delay_ms = 0;
  retry_backoff = RetryBackoff.constant;
  retry_delay_max_ms = 60 * 60 * 1000;
  max_reserve_batch = 256;
  max_reserve_queues = 32;
  max_wait_timeout_ms = 5 * 60 * 1000;
  max_enqueue_batch = 256;
  max_queue_depth = none;
  max_payload_bytes = 2 ^ 20;
  max_message_bytes = 16 * 2 ^ 20;
  max_custom_entries = 64;
  max_custom_total_bytes = 16 * 2 ^ 10;
  max_custom_key_bytes = 256;
  max_queue_name_bytes = 512;
  max_job_type_bytes = 256;
  max_idempotency_key_bytes = 256;
  max_schedule_horizon_ms = 30 * 24 * 60 * 60 * 1000;
  allowed_encodings = none;
}

abbrev pub default_storage : StorageConfig
default_storage = record {
  persist_mode = PersistMode.sync_all;
  sweep_interval_ms = 1000;
  sweep_limit = 10000;
  dedup_window_ms = pos (24 * 60 * 60 * 1000);
  dead_letter_retention_ms = 0;
  command_queue_capacity = 4096;
  cache_size_bytes = none;
  max_journaling_size_bytes = none;
  max_cached_files = none;
  worker_threads = none;
}

-- "info,lsm_tree=warn,fjall=warn".
abbrev pub default_logging : LoggingConfig
default_logging = record {
  level =
      105 ∷ 110 ∷ 102 ∷ 111 ∷ 44 ∷ 108 ∷ 115 ∷ 109 ∷ 95 ∷ 116 ∷ 114 ∷ 101 ∷ 101 ∷ 61 ∷ 119 ∷ 97
      ∷ 114 ∷ 110 ∷ 44 ∷ 102 ∷ 106 ∷ 97 ∷ 108 ∷ 108 ∷ 61 ∷ 119 ∷ 97 ∷ 114 ∷ 110 ∷ [];
  format = LogFormat.text;
}

-- The service is "sepp", and the ratio 1.0.
abbrev pub default_tracing : TracingConfig
default_tracing = record {
  enabled = false;
  otlp_endpoint = local_endpoint;
  service_name = 115 ∷ 101 ∷ 112 ∷ 112 ∷ [];
  sample_ratio = 0x3ff0000000000000;
}

abbrev pub default_metrics : MetricsConfig
default_metrics = record {
  enabled = false;
  otlp_endpoint = local_endpoint;
  export_interval_ms = 5000;
  prometheus_enabled = false;
  prometheus_listen_addr = record { ip = v4 0 0 0 0; port = 9464 };
}

abbrev pub default_admin : AdminConfig
default_admin = record {
  enabled = true;
  listen_addr = record { ip = v4 127 0 0 1; port = 9465 };
  tls_cert_path = none;
  tls_key_path = none;
  keys = none;
  session_ttl_ms = 12 * 60 * 60 * 1000;
  stats_history_ms = 60 * 60 * 1000;
}

abbrev pub default_config : Config
default_config = record {
  server = default_server;
  auth = record { api_keys = none };
  limits = default_limits;
  storage = default_storage;
  logging = default_logging;
  tracing = default_tracing;
  metrics = default_metrics;
  admin = default_admin;
  queues = [];
}
