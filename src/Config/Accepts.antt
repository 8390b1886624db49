-- ===== src/Config/Accepts.antt =====
-- What `Config::validate` of src/config.rs lets through.
use sepp.Prelude.{
  ◌≡◌, true, not-true, ℕ, ◌≤◌, false, not, List, [], ◌∷◌, none, leb, ltb, arith, All, and-true,
  not-false, length, leb→le, Option-cases, inl, inr,
}
use sepp.Validate.{queue_name_error}
use sepp.Validate.Accepts.{IsQueueName, queue_name_error-IsQueueName}
use sepp.Prelude.Int.{pos, ◌≤ℤ◌, leb_ℤ}
use sepp.Prelude.Check.{fail, Passes, fail_if, fail_if-Passes, then-Passes, if_some}
use sepp.Std.Bytes.{Text}
use sepp.Std.HashMap.{bytes_eq}
use sepp.Config.{Config, EffectiveLimits, LimitsConfig, QueueConfig, from_globals, merged_with}
use sepp.Config.Validation.{
  ConfigError, Scope, validate_with, validate, validate_server, validate_limits, validate_storage,
  is_ratio, validate_tls, validate_tracing, validate_metrics, validate_admin, validate_api_keys,
  is_between, validate_queues_from, validate_queues, validate_config, payload_within_message_limit,
  valid_name, member,
}
use sepp.Queues.{effective, from_config, collect}
use sepp.Queues.Effective.{declared-Values}
use sepp.Std.HashMap

pub record InRange (max_message_bytes : ℕ) (l : EffectiveLimits) : Type 0 where
  pub lease : 1 ≤ l.max_lease_duration_ms
  pub attempts : 1 ≤ l.default_max_attempts
  pub ceiling : l.default_max_attempts ≤ l.max_attempts_ceiling
  pub priority : l.default_priority ≤ 9
  pub delay : l.retry_delay_ms ≤ l.retry_delay_max_ms
  pub payload : l.max_payload_bytes ≤ max_message_bytes
  pub horizon : 1 ≤ l.max_schedule_horizon_ms
  pub dedup : pos 1 ≤ℤ l.dedup_window_ms

ltb-false : (a b : ℕ) → ltb a b ≡ false → b ≤ a
ltb-false a b h = ground arith

failed : {X : Type 0} (e : ConfigError) → Passes (fail e) → X
failed e h = cc

validate-InRange :
    (l : EffectiveLimits) (n : ℕ) (scope : Scope) → Passes (validate l n scope) → InRange n l
unfolding validate validate_with payload_within_message_limit
validate-InRange l n scope h =
    let a = then-Passes (fail_if (not (validate_with l n)) _) _ h in
    let b = then-Passes (fail_if (ltb l.max_attempts_ceiling l.default_max_attempts) _) _ a.1 in
    let ranges = not-false (validate_with l n) (fail_if-Passes _ _ a.0) in
    let over = fail_if-Passes (ltb l.max_attempts_ceiling l.default_max_attempts) _ b.0 in
    let delay = fail_if-Passes (ltb l.retry_delay_max_ms l.retry_delay_ms) _ b.1 in
    let r = and-true _ (leb_ℤ (pos 1) l.dedup_window_ms) ranges in
    let q = and-true _ (leb 1 l.max_custom_key_bytes) r.0 in
    let p = and-true _ (leb 1 l.max_custom_total_bytes) q.0 in
    let o = and-true _ (leb 1 l.max_custom_entries) p.0 in
    let m = and-true _ (leb 1 l.max_schedule_horizon_ms) o.0 in
    let k = and-true _ _ m.0 in
    let j = and-true _ _ k.0 in
    let i = and-true _ (payload_within_message_limit l.max_payload_bytes n) j.0 in
    let g = and-true _ (leb 1 l.max_payload_bytes) i.0 in
    let f = and-true _ (leb 1 l.retry_delay_max_ms) g.0 in
    let e = and-true _ (leb l.default_priority 9) f.0 in
    let d = and-true _ (leb 1 l.max_attempts_ceiling) e.0 in
    let c = and-true (leb 1 l.max_lease_duration_ms) (leb 1 l.default_max_attempts) d.0 in
    record {
      lease = leb→le _ _ c.0;
      attempts = leb→le _ _ c.1;
      ceiling = ltb-false _ _ over;
      priority = leb→le _ _ e.1;
      delay = ltb-false _ _ delay;
      payload = ltb-false _ _ (not-true _ i.1);
      horizon = leb→le _ _ m.1;
      dedup = leb→le _ _ r.1;
    }

-- What the checks of the queues that are left give.
abbrev IsQueue : LimitsConfig → EffectiveLimits → QueueConfig → Type 0
IsQueue limits defaults q =
    IsQueueName q.name
    × (length q.name ≤ limits.max_queue_name_bytes)
    × InRange limits.max_message_bytes (merged_with defaults q)

named : (name : Text) → Passes (valid_name name) → queue_name_error name ≡ none
named name h = elim (Option-cases (queue_name_error name)) [
  | inl e ↦ e
  | inr (why, e) ↦ failed _ (rw (e, valid_name) at h)
]

validate_queues-IsQueue :
    (limits : LimitsConfig) (defaults : EffectiveLimits) (seen : List Text) (qs : List QueueConfig)
    → Passes (validate_queues_from limits defaults seen qs)
    → All (IsQueue limits defaults) qs
unfolding validate_queues_from
validate_queues-IsQueue limits defaults seen [] h = tt
validate_queues-IsQueue limits defaults seen (q ∷ qs) h =
    let a = then-Passes (valid_name q.name) _ h in
    let b = then-Passes (fail_if (ltb limits.max_queue_name_bytes (length q.name)) _) _ a.1 in
    let c = then-Passes (fail_if (member q.name seen) _) _ b.1 in
    let d =
      then-Passes (validate (merged_with defaults q) limits.max_message_bytes (Scope.queue q.name))
        _ c.1 in
    (
      (
        queue_name_error-IsQueueName q.name (named q.name a.0),
        ltb-false _ _ (fail_if-Passes _ _ b.0),
        validate-InRange (merged_with defaults q) limits.max_message_bytes _ d.0,
      ),
      validate_queues-IsQueue limits defaults (q.name ∷ seen) qs d.1,
    )

limits_pass :
    (cfg : Config)
    → Passes (validate_config cfg)
    → Passes (
        validate
          (from_globals cfg.limits cfg.storage)
          cfg.limits.max_message_bytes
          (Scope.section "limits"))
      × Passes (validate_queues cfg (from_globals cfg.limits cfg.storage))
unfolding validate_config
limits_pass cfg h =
    let a = then-Passes (fail_if (not (validate_server cfg.server)) _) _ h in
    let b = then-Passes (fail_if (not (validate_limits cfg.limits)) _) _ a.1 in
    let c = then-Passes (fail_if (not (validate_storage cfg.storage)) _) _ b.1 in
    let d = then-Passes (fail_if (not (is_ratio cfg.tracing.sample_ratio)) _) _ c.1 in
    let e = then-Passes (validate_tls _ cfg.server.tls_cert_path cfg.server.tls_key_path) _ d.1 in
    let f = then-Passes (validate_tracing cfg.tracing) _ e.1 in
    let g = then-Passes (validate_metrics cfg.metrics) _ f.1 in
    let i = then-Passes (validate_admin cfg.admin) _ g.1 in
    let j = then-Passes (if_some cfg.auth.api_keys (validate_api_keys [] [])) _ i.1 in
    let k =
      then-Passes (fail_if (not (is_between 60000 31536000000 cfg.admin.session_ttl_ms)) _) _ j.1 in
    let l =
      then-Passes (fail_if (not (is_between 60000 21600000 cfg.admin.stats_history_ms)) _) _ k.1 in
    then-Passes
      (validate (from_globals cfg.limits cfg.storage) cfg.limits.max_message_bytes
        (Scope.section "limits"))
      _ l.1

-- A configuration that passes puts the limits of every queue, declared or not, in range: at least
-- one attempt and at most the ceiling, a priority of at most 9, a retry delay within its longest, a
-- payload within the message limit, and a lease, a horizon and a deduplication window that are
-- positive.
pub validate_config-InRange :
    (cfg : Config) (queue : Text)
    → Passes (validate_config cfg)
    → InRange cfg.limits.max_message_bytes (effective (from_config cfg) queue)
unfolding from_config effective validate_queues
validate_config-InRange cfg queue h =
    let defaults = from_globals cfg.limits cfg.storage in
    let n = cfg.limits.max_message_bytes in
    let (own, queues) = limits_pass cfg h in
    elim (Option-cases (HashMap.get (collect [] cfg.queues) queue)) [
      | inl e ↦ rw (e, effective) (validate-InRange defaults n _ own)
      | inr (q, e) ↦
          rw (e, effective)
            (declared-Values (IsQueue cfg.limits defaults) cfg
              (validate_queues-IsQueue cfg.limits defaults [] cfg.queues queues) queue q e).2
    ]

limits_hold : (cfg : Config) → Passes (validate_config cfg) → validate_limits cfg.limits ≡ true
unfolding validate_config
limits_hold cfg h =
    let a = then-Passes (fail_if (not (validate_server cfg.server)) _) _ h in
    let b = then-Passes (fail_if (not (validate_limits cfg.limits)) _) _ a.1 in
    not-false (validate_limits cfg.limits) (fail_if-Passes _ _ b.0)

-- A queue name that is within its limit fits the two bytes of its length in a key.
pub validate_config-name_bytes :
    (cfg : Config) → Passes (validate_config cfg) → cfg.limits.max_queue_name_bytes ≤ 65535
unfolding validate_limits
validate_config-name_bytes cfg h =
    let c = and-true _ (leb 1 cfg.limits.max_idempotency_key_bytes) (limits_hold cfg h) in
    let d = and-true _ (leb 1 cfg.limits.max_job_type_bytes) c.0 in
    let e = and-true _ (leb cfg.limits.max_queue_name_bytes 65535) d.0 in leb→le _ _ e.1

pub validate_config-reserve_batch :
    (cfg : Config) → Passes (validate_config cfg) → 1 ≤ cfg.limits.max_reserve_batch
unfolding validate_limits
validate_config-reserve_batch cfg h = ground (arith, limits_hold cfg h)
