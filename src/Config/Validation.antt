-- ===== src/Config/Validation.antt =====
-- `Config::validate` and `EffectiveLimits::validate` of src/config.rs. A derived check of `garde`
-- passes if the fields are in the ranges of their attributes.
use sepp.Prelude.{
  ℕ, ◌*◌, Bool, true, false, not, ◌&&◌, ◌||◌, List, [], ◌∷◌, Option, none, some, leb, ltb, ◌==◌,
  ◌%◌, ◌^◌, length, if◌then◌else◌, String,
}
use sepp.Prelude.Int.{pos, leb_ℤ}
use sepp.Prelude.Check.{Check, pass, fail, ◌then◌, fail_if, if_some}
use sepp.Std.Bytes.{Text, ◌=ᵇ◌}
use sepp.Validate.{queue_name_error}
use sepp.Config.{
  QueueConfig, EffectiveLimits, LimitsConfig, StorageConfig, ServerConfig, TracingConfig,
  MetricsConfig, AdminConfig, AdminKey, ApiKeyEntry, IpAddr, v4, v6, Config, from_globals,
  merged_with,
}

pub data Scope : Type 0 where
  section : String → Scope
  queue : Text → Scope

-- The errors; each constructor is one text of the source with the parts that it formats.
pub data ConfigError : Type 0 where
  out_of_range : Scope → ConfigError
  attempts_over_ceiling delay_over_max : Scope → ConfigError
  one_sided_tls : (part : String) → ConfigError
  must_not_be_empty : (field : String) → ConfigError
  must_be_positive : (field : String) → ConfigError
  non_loopback_without_keys : ConfigError
  empty_key bad_ascii shared_key : (part : String) (name : Text) → ConfigError
  not_between : (field : String) (lo hi : ℕ) → ConfigError
  bad_name : (name : Text) (why : String) → ConfigError
  name_too_long : (name : Text) (max : ℕ) → ConfigError
  duplicate_name : (part : String) (name : Text) → ConfigError

-- `garde` reports the value.
unfoldable pub payload_within_message_limit : ℕ → ℕ → Bool
payload_within_message_limit value max = not (ltb max value)

abbrev is_nonempty : {A : Type 0} → List A → Bool
is_nonempty [] = false
is_nonempty (x ∷ xs) = true

abbrev all_nonempty : List Text → Bool
all_nonempty [] = true
all_nonempty (x ∷ xs) = is_nonempty x && all_nonempty xs

-- The ranges of the `garde` attributes.
unfoldable pub validate_with : EffectiveLimits → ℕ → Bool
validate_with self max_message_bytes =
    leb 1 self.max_lease_duration_ms
    && leb 1 self.default_max_attempts
    && leb 1 self.max_attempts_ceiling
    && leb self.default_priority 9
    && leb 1 self.retry_delay_max_ms
    && leb 1 self.max_payload_bytes
    && payload_within_message_limit self.max_payload_bytes max_message_bytes
    && elim self.allowed_encodings [ none ↦ true | some es ↦ all_nonempty es ]
    && elim self.allowed_job_types [ none ↦ true | some ts ↦ is_nonempty ts && all_nonempty ts ]
    && leb 1 self.max_schedule_horizon_ms
    && leb 1 self.max_custom_entries
    && leb 1 self.max_custom_total_bytes
    && leb 1 self.max_custom_key_bytes
    && leb_ℤ (pos 1) self.dedup_window_ms

unfoldable pub validate : EffectiveLimits → ℕ → Scope → Check ConfigError
validate self max_message_bytes scope =
    fail_if (not (validate_with self max_message_bytes)) (out_of_range scope)
    then fail_if (ltb self.max_attempts_ceiling self.default_max_attempts)
        (attempts_over_ceiling scope)
    then fail_if (ltb self.retry_delay_max_ms self.retry_delay_ms) (delay_over_max scope)

abbrev pub member : Text → List Text → Bool
member x [] = false
member x (y ∷ ys) = x =ᵇ y || member x ys

abbrev pub valid_name : Text → Check ConfigError
valid_name name = elim (queue_name_error name) [ none ↦ pass | some why ↦ fail (bad_name name why) ]

-- The queues that are left, with the names seen.
unfoldable pub validate_queues_from :
    LimitsConfig → EffectiveLimits → List Text → List QueueConfig → Check ConfigError
validate_queues_from limits defaults seen [] = pass
validate_queues_from limits defaults seen (q ∷ qs) =
    valid_name q.name
    then fail_if (ltb limits.max_queue_name_bytes (length q.name))
        (name_too_long q.name limits.max_queue_name_bytes)
    then fail_if (member q.name seen) (duplicate_name "queues" q.name)
    then validate (merged_with defaults q) limits.max_message_bytes (queue q.name)
    then validate_queues_from limits defaults (q.name ∷ seen) qs

unfoldable pub validate_queues : Config → EffectiveLimits → Check ConfigError
validate_queues self defaults = validate_queues_from self.limits defaults [] self.queues

abbrev is_none : {A : Type 0} → Option A → Bool
is_none none = true
is_none (some a) = false

-- The ranges of the attributes of `LimitsConfig`.
unfoldable pub validate_limits : LimitsConfig → Bool
validate_limits limits =
    leb 1 limits.max_reserve_batch
    && leb 1 limits.max_reserve_queues
    && leb 1 limits.max_wait_timeout_ms
    && leb 1 limits.max_enqueue_batch
    && leb 1 limits.max_message_bytes
    && leb 1 limits.max_queue_name_bytes
    && leb limits.max_queue_name_bytes 65535
    && leb 1 limits.max_job_type_bytes
    && leb 1 limits.max_idempotency_key_bytes

abbrev at_least : ℕ → Option ℕ → Bool
at_least n none = true
at_least n (some m) = leb n m

-- Those of `StorageConfig`.
unfoldable pub validate_storage : StorageConfig → Bool
validate_storage storage =
    leb 1 storage.sweep_interval_ms
    && leb 1 storage.sweep_limit
    && leb 1 storage.command_queue_capacity
    && at_least 1 storage.cache_size_bytes
    && at_least (64 * 1024 * 1024) storage.max_journaling_size_bytes
    && at_least 10 storage.max_cached_files
    && at_least 1 storage.worker_threads

-- The range check of a double, `!(x < 0.0) && !(x > 1.0)`, on its bits: those of +0.0 to 1.0 are in
-- order, -0.0 equals 0.0, and neither comparison holds of a NaN.
abbrev pub is_ratio : ℕ → Bool
is_ratio bits =
    leb bits 0x3ff0000000000000
    || bits == 0x8000000000000000
    || ltb 0x7ff0000000000000 (bits % 2 ^ 63)

abbrev nonempty_if_some : Option Text → Bool
nonempty_if_some none = true
nonempty_if_some (some t) = is_nonempty t

unfoldable pub validate_server : ServerConfig → Bool
validate_server server =
    is_nonempty server.db_path
    && nonempty_if_some server.tls_cert_path
    && nonempty_if_some server.tls_key_path

-- The certificate and the key are both set, or neither.
unfoldable pub validate_tls : String → Option Text → Option Text → Check ConfigError
validate_tls part (some cert) none = fail (one_sided_tls part)
validate_tls part none (some key) = fail (one_sided_tls part)
validate_tls part _ _ = pass

-- `ip.is_loopback()`.
abbrev is_one : List ℕ → Bool
is_one [] = false
is_one (n ∷ []) = n == 1
is_one (n ∷ m ∷ ns) = n == 0 && is_one (m ∷ ns)

unfoldable pub is_loopback : IpAddr → Bool
is_loopback (v4 a b c d) = a == 127
is_loopback (v6 segments) = is_one segments

-- `(0x21..=0x7e).contains(&b)` for every byte.
unfoldable pub is_visible_ascii : Text → Bool
is_visible_ascii [] = true
is_visible_ascii (b ∷ bs) = leb 0x21 b && leb b 0x7e && is_visible_ascii bs

-- The keys that are left, with the names and the secrets seen.
unfoldable pub validate_admin_keys : List Text → List Text → List AdminKey → Check ConfigError
validate_admin_keys names secrets [] = pass
validate_admin_keys names secrets (k ∷ ks) =
    fail_if (not (is_nonempty k.name)) (must_not_be_empty "admin.keys[].name")
    then fail_if (not (is_nonempty k.key)) (empty_key "admin.keys" k.name)
    then fail_if (member k.name names) (duplicate_name "admin.keys" k.name)
    then fail_if (member k.key secrets) (shared_key "admin.keys" k.name)
    then validate_admin_keys (k.name ∷ names) (k.key ∷ secrets) ks

unfoldable pub validate_api_keys : List Text → List Text → List ApiKeyEntry → Check ConfigError
validate_api_keys names secrets [] = pass
validate_api_keys names secrets (k ∷ ks) =
    fail_if (not (is_nonempty k.name)) (must_not_be_empty "auth.api_keys[].name")
    then fail_if (not (is_nonempty k.key)) (empty_key "auth.api_keys" k.name)
    then fail_if (not (is_visible_ascii k.key)) (bad_ascii "auth.api_keys" k.name)
    then fail_if (member k.name names) (duplicate_name "auth.api_keys" k.name)
    then fail_if (member k.key secrets) (shared_key "auth.api_keys" k.name)
    then validate_api_keys (k.name ∷ names) (k.key ∷ secrets) ks

-- The cross-field rules before the limits.
unfoldable pub validate_tracing : TracingConfig → Check ConfigError
validate_tracing tracing =
    fail_if (tracing.enabled && not (is_nonempty tracing.service_name))
      (must_not_be_empty "tracing.service_name")

unfoldable pub validate_metrics : MetricsConfig → Check ConfigError
validate_metrics metrics =
    if metrics.enabled
    then fail_if (not (is_nonempty metrics.otlp_endpoint))
        (must_not_be_empty "metrics.otlp_endpoint")
    then fail_if (metrics.export_interval_ms == 0) (must_be_positive "metrics.export_interval_ms")
    else pass

unfoldable pub validate_admin : AdminConfig → Check ConfigError
validate_admin admin =
    validate_tls "admin" admin.tls_cert_path admin.tls_key_path
    then fail_if (admin.enabled && not (is_loopback admin.listen_addr.ip) && is_none admin.keys)
        non_loopback_without_keys
    then if_some admin.keys (validate_admin_keys [] [])

abbrev pub is_between : ℕ → ℕ → ℕ → Bool
is_between lo hi n = leb lo n && leb n hi

-- `Config::validate`.
unfoldable pub validate_config : Config → Check ConfigError
validate_config self =
    fail_if (not (validate_server self.server)) (out_of_range (section "server"))
    then fail_if (not (validate_limits self.limits)) (out_of_range (section "limits"))
    then fail_if (not (validate_storage self.storage)) (out_of_range (section "storage"))
    then fail_if (not (is_ratio self.tracing.sample_ratio)) (out_of_range (section "tracing"))
    then validate_tls "server" self.server.tls_cert_path self.server.tls_key_path
    then validate_tracing self.tracing
    then validate_metrics self.metrics
    then validate_admin self.admin
    then if_some self.auth.api_keys (validate_api_keys [] [])
    then fail_if (not (is_between 60000 31536000000 self.admin.session_ttl_ms))
        (not_between "admin.session_ttl_ms" 60000 31536000000)
    then fail_if (not (is_between 60000 21600000 self.admin.stats_history_ms))
        (not_between "admin.stats_history_ms" 60000 21600000)
    then validate (from_globals self.limits self.storage) self.limits.max_message_bytes
        (section "limits")
    then validate_queues self (from_globals self.limits self.storage)
