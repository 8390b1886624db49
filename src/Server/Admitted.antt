-- ===== src/Server/Admitted.antt =====
-- What the admission of src/queue_server.rs lets through, and the keys that it makes room for.
use sepp.Prelude.{
  ◌≡◌, Option, some, true, List, ap, min, not-false, ℕ, ◌+◌, ◌≤◌, Bool, not, ◌&&◌, [], ◌∷◌, ltb,
  length, All, arith,
}
use sepp.Config.{Config, EffectiveLimits}
use sepp.Config.Validation.{validate_config}
use sepp.Config.Accepts.{validate_config-name_bytes}
use sepp.Queues.{from_config, QueueRegistry, effective, is_declared}
use sepp.Op.{JobLimits, resolve}
use sepp.Op.Limits.{resolve-IsJobLimits}
use sepp.Keys.{ReadyKey, encode_ready, decode_ready}
use sepp.Keys.RoundTrip.{decode_ready-encode_ready}
use sepp.Server.{
  server_limits, allows, ServerLimits, primitive_value_bytes, check_custom, check_enqueue_limits,
  map_fail, classify_enqueue,
}
use sepp.Std.Utf8.{IsUtf8}
use sepp.Prelude.Int.{IsI64, ℤ}
use sepp.Prelude.Check.{
  map_fail, map_fail-Passes, fail_if-Passes, if_some-Passes, Passes, IfSome, fail_if, if_some,
  then-Passes,
}
use sepp.Std.Bytes.{Text}
use sepp.Std.HashMap.{HashMap}
use sepp.Proto.{Prost, EnqueueRequest, JobRejection, PrimitiveValue}
use sepp.Validate.{enqueue_request}
use sepp.Validate.Accepts.{IsEnqueueRequest, enqueue_request-IsEnqueueRequest}

-- The bytes of a custom map, by its entries.
abbrev pub custom_size : HashMap Text PrimitiveValue → ℕ
custom_size [] = 0
custom_size ((key, value) ∷ rest) = length key + primitive_value_bytes value + custom_size rest

abbrev Allows : Option (List Text) → Text → Type 0
Allows allowed x = IfSome allowed (λ a. allows a x ≡ true)

abbrev pub ready_key : EnqueueRequest → JobLimits → ℤ → Text → ReadyKey
ready_key job limits now id = record {
  queue = job.queue;
  priority = limits.priority;
  enqueued_at = now;
  job_id = id;
}

pub record IsAdmitted (job : EnqueueRequest) (limits : EffectiveLimits) (s : ServerLimits)
    : Type 0 where
  pub type_allowed : Allows limits.allowed_job_types job.job_type
  pub encoding_allowed : IfSome job.payload (λ p. Allows limits.allowed_encodings p.encoding)
  pub valid : IsEnqueueRequest job
  pub queue : length job.queue ≤ s.max_queue_name_bytes
  pub job_type : length job.job_type ≤ s.max_job_type_bytes
  pub key : IfSome job.idempotency_key (λ k. length k ≤ s.max_idempotency_key_bytes)
  pub payload : IfSome job.payload (λ p. length p.bytes ≤ limits.max_payload_bytes)
  pub entries : length job.custom ≤ limits.max_custom_entries
  pub keys : All (λ kv. length kv.0 ≤ limits.max_custom_key_bytes) job.custom
  pub size : custom_size job.custom ≤ limits.max_custom_total_bytes

within : (a b : ℕ) (r : JobRejection) → Passes (fail_if (ltb b a) r) → a ≤ b
within a b r h = ground (arith, fail_if-Passes (ltb b a) r h)

allowed_of : (b : Bool) (r : JobRejection) → Passes (fail_if (not b) r) → b ≡ true
allowed_of b r h = not-false b (fail_if-Passes (not b) r h)

check_custom-size :
    (max_key max_total acc : ℕ) (m : HashMap Text PrimitiveValue)
    → Passes (check_custom max_key max_total acc m)
    → (All (λ kv. length kv.0 ≤ max_key) m) × (acc + custom_size m ≤ max_total)
unfolding check_custom
check_custom-size max_key max_total acc [] h = (tt, omega (arith, within acc max_total _ h))
check_custom-size max_key max_total acc ((key, value) ∷ rest) h =
    let a = then-Passes (fail_if (ltb max_key (length key)) _) _ h in
    let b =
      check_custom-size max_key max_total (acc + (length key + primitive_value_bytes value)) rest
        a.1 in
    ((within (length key) max_key _ a.0, b.0), omega (arith, b.1))

module _ ⦃prost : Prost⦄ where
  check_enqueue_limits-IsAdmitted :
      (job : EnqueueRequest) (limits : EffectiveLimits) (s : ServerLimits) (now : ℤ)
      → IsEnqueueRequest job
      → Passes (check_enqueue_limits job limits s now)
      → IsAdmitted job limits s
  unfolding check_enqueue_limits
  check_enqueue_limits-IsAdmitted job limits s now v h =
      let a = then-Passes (fail_if (ltb s.max_queue_name_bytes (length job.queue)) _) _ h in
      let b = then-Passes (fail_if (ltb s.max_job_type_bytes (length job.job_type)) _) _ a.1 in
      let c = then-Passes (if_some limits.allowed_job_types _) _ b.1 in
      let d = then-Passes (if_some job.idempotency_key _) _ c.1 in
      let e = then-Passes (if_some job.payload _) _ d.1 in
      let f = then-Passes (if_some job.payload _) _ e.1 in
      let g = then-Passes (fail_if (ltb limits.max_custom_entries (length job.custom)) _) _ f.1 in
      let i = then-Passes (check_custom _ _ 0 job.custom) _ g.1 in
      let custom = check_custom-size _ _ 0 job.custom i.0 in
      record {
        valid = v;
        type_allowed =
            if_some-Passes limits.allowed_job_types _ (λ a. allows a job.job_type ≡ true)
              (λ allowed. allowed_of (allows allowed job.job_type) _) c.0;
        encoding_allowed =
            if_some-Passes job.payload _ (λ p. Allows limits.allowed_encodings p.encoding)
              (λ p.
                if_some-Passes limits.allowed_encodings _ (λ a. allows a p.encoding ≡ true)
                  λ allowed. allowed_of (allows allowed p.encoding) _)
              f.0;
        queue = within (length job.queue) _ _ a.0;
        job_type = within (length job.job_type) _ _ b.0;
        key = if_some-Passes job.idempotency_key _ _ (λ k. within (length k) _ _) d.0;
        payload = if_some-Passes job.payload _ _ (λ p. within (length p.bytes) _ _) e.0;
        entries = within (length job.custom) _ _ g.0;
        keys = custom.0;
        size = omega (arith, custom.1);
      }

  classify_enqueue-Passes :
      (job : EnqueueRequest) (registry : QueueRegistry) (strict : Bool) (s : ServerLimits) (now : ℤ)
      → Passes (classify_enqueue job registry strict s now)
      → Passes (enqueue_request job)
  unfolding classify_enqueue
  classify_enqueue-Passes job registry strict s now h =
      map_fail-Passes JobRejection.invalid_request (enqueue_request job)
        (then-Passes (map_fail JobRejection.invalid_request (enqueue_request job)) _ h).0

  -- A job that passes the admission has a well-formed request, a job type and an encoding that its
  -- queue allows, and a queue name, job type, idempotency key, payload, number of custom entries,
  -- custom keys and custom bytes within the limits in force.
  pub classify_enqueue-IsAdmitted :
      (job : EnqueueRequest) (registry : QueueRegistry) (strict : Bool) (s : ServerLimits) (now : ℤ)
      → Passes (classify_enqueue job registry strict s now)
      → IsAdmitted job (effective registry job.queue) s
  unfolding classify_enqueue
  classify_enqueue-IsAdmitted job registry strict s now h =
      let a = then-Passes (map_fail JobRejection.invalid_request (enqueue_request job)) _ h in
      let b = then-Passes (fail_if (strict && not (is_declared registry job.queue)) _) _ a.1 in
      check_enqueue_limits-IsAdmitted job _ s now
        (enqueue_request-IsEnqueueRequest job (classify_enqueue-Passes job registry strict s now h))
        b.1

  -- Under a configuration that passes its checks, the ready key of an admitted job can be read back,
  -- its priority included: the queue name fits its length prefix, and the priority its byte. The
  -- strings are UTF-8, as those of the source are.
  pub classify_enqueue-ready_key :
      (cfg boot : Config) (job : EnqueueRequest) (now : ℤ) (id : Text)
      → Passes (validate_config cfg)
      → Passes (validate_config boot)
      → Passes
          (classify_enqueue job (from_config cfg) cfg.server.strict_queues (server_limits cfg) now)
      → IsUtf8 job.queue
      → IsUtf8 id
      → IsI64 now
      → decode_ready
          (encode_ready (ready_key job (resolve job (from_config cfg) (from_config boot)) now id))
        ≡ some (ready_key job (resolve job (from_config cfg) (from_config boot)) now id)
  unfolding server_limits
  classify_enqueue-ready_key cfg boot job now id c b h q u t =
      let admitted =
        classify_enqueue-IsAdmitted job (from_config cfg) _ (server_limits cfg) now h in
      let limits = resolve job (from_config cfg) (from_config boot) in
      let name_bytes = validate_config-name_bytes cfg c in
      let priority : min limits.priority 9 ≡ limits.priority = omega (
        arith,
        (resolve-IsJobLimits cfg boot job c b (classify_enqueue-Passes job _ _ _ _ h)).priority,
      ) in
      rw
        (decode_ready-encode_ready (ready_key job limits now id)
          (record { short = omega (arith, admitted.queue, name_bytes); utf8 = q }) t u)
        (ap (λ p. some (record (ready_key job limits now id) { priority = p })) priority)
