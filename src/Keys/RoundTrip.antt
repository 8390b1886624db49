-- ===== src/Keys/RoundTrip.antt =====
-- src/keys.rs: decoding what was encoded. Queue names are UTF-8 and shorter than 2^16 bytes, and
-- times are in the range of `i64`, as Rust's types and the length limit of the server make them.
use mathlib.Core.List.{append-nil}
use sepp.Prelude.{
  ℕ, ◌-◌, ◌<◌, ◌^◌, ◌≡◌, ◌≢◌, refl, ap, [], ◌∷◌, ◌++◌, Option, none, some, min, arith, length,
  and_then,
}
use sepp.Prelude.Int.{ℤ, IsI64}
use sepp.Prelude.Result.{ok}
use sepp.Std.Bytes.{Bytes, Text, starts_with-append}
use sepp.Std.Utf8.{IsUtf8, from_utf8-some}
use sepp.Proto.{Prost, Job, TraceContext}
use sepp.Keys.Writer
use sepp.Keys.Reader
use sepp.Keys.Reader.{u8_lem, i64_lem, u32_lem, prefixed_str_lem, tail_str_lem, message_lem, ◌>>=◌}
use sepp.Keys.{
  ReadyKey, encode_ready, decode_ready, DedupValue, encode_dedup_value, decode_dedup_value,
  read_queue, queue_prefix, TimerKey, encode_timer, timer_job_id, deadline_of, DedupTimerKey,
  dedup_timer_key, encode_dedup_timer, DeadLetterKey, dead_letter_queue, dead_letter_job_id,
  encode_dead_letter_key, closing_queue, closing_key, closing_prefix, decode_job_value,
  encode_job_value, Inflight, encode_inflight, decode_inflight, read_trace, trace_bytes,
}

pub record IsName (queue : Text) : Type 0 where
  pub short : length queue < 2 ^ 16
  pub utf8 : IsUtf8 queue

pub read_queue-prefix :
    (queue rest : Text) → IsName queue → read_queue (queue_prefix queue ++ rest) ≡ some queue
unfolding read_queue queue_prefix
read_queue-prefix queue rest h =
    ap (λ r. and_then r (λ f. some f.0)) (prefixed_str_lem queue rest h.short h.utf8)

pub read_queue_only : (queue : Text) → IsName queue → read_queue (queue_prefix queue) ≡ some queue
read_queue_only queue h = rw (append-nil (queue_prefix queue)) at (read_queue-prefix queue [] h)

-- A ready key decodes to the fields that were encoded, its priority capped at 9, for a queue name
-- that is UTF-8 and shorter than 2^16 bytes, a time in the range of `i64` and a job id that is UTF-8.
pub decode_ready-encode_ready :
    (k : ReadyKey)
    → IsName k.queue
    → IsI64 k.enqueued_at
    → IsUtf8 k.job_id
    → decode_ready (encode_ready k) ≡ some (record k { priority = min k.priority 9 })
unfolding decode_ready encode_ready Writer.u8 ◌>>=◌
decode_ready-encode_ready k q t j =
    let p : ℕ = 9 - min k.priority 9 in
    let e : 9 - p ≡ min k.priority 9 = omega arith in
    rw
      (
        prefixed_str_lem k.queue (p ∷ (Writer.i64 k.enqueued_at ++ k.job_id)) q.short q.utf8,
        u8_lem p (Writer.i64 k.enqueued_at ++ k.job_id),
        i64_lem k.enqueued_at k.job_id t,
        tail_str_lem k.job_id j,
      )
      (ap (λ x. some (record k { priority = x })) e)

-- The queue of a ready key is read back from its prefix.
pub read_queue-encode_ready :
    (k : ReadyKey) → IsName k.queue → read_queue (encode_ready k) ≡ some k.queue
unfolding encode_ready queue_prefix
read_queue-encode_ready k h = unfold queue_prefix in read_queue-prefix k.queue _ h

pub timer_job_id-encode_timer :
    (k : TimerKey) → IsI64 k.deadline → timer_job_id (encode_timer k) ≡ some k.job_id
unfolding timer_job_id encode_timer Reader.tail ◌>>=◌
timer_job_id-encode_timer k h = rw (i64_lem k.deadline k.job_id h)

pub deadline_of-i64 : (d : ℤ) (rest : Bytes) → IsI64 d → deadline_of (Writer.i64 d ++ rest) ≡ d
unfolding deadline_of
deadline_of-i64 d rest h = rw (i64_lem d rest h)

-- A dedup record decodes to the fields that were encoded, for times in the range of `i64` and a job
-- id that is UTF-8.
pub decode_dedup_value-encode :
    (v : DedupValue)
    → IsI64 v.enqueued_at
    → IsI64 v.deadline
    → IsUtf8 v.job_id
    → decode_dedup_value (encode_dedup_value v) ≡ some v
unfolding decode_dedup_value encode_dedup_value ◌>>=◌
decode_dedup_value-encode v e d j = rw (
  i64_lem v.enqueued_at (Writer.i64 v.deadline ++ v.job_id) e,
  i64_lem v.deadline v.job_id d,
  tail_str_lem v.job_id j,
)

pub dedup_timer_key-encode :
    (k : DedupTimerKey)
    → IsI64 k.deadline
    → dedup_timer_key (encode_dedup_timer k) ≡ some k.dedup_key
unfolding dedup_timer_key encode_dedup_timer Reader.tail ◌>>=◌
dedup_timer_key-encode k h = rw (i64_lem k.deadline k.dedup_key h)

-- The queue and the job id of a dead-letter key are read back, for a time in the range of `i64`, a
-- queue name that is UTF-8 and shorter than 2^16 bytes and a job id that is UTF-8.
pub dead_letter-encode :
    (k : DeadLetterKey)
    → IsI64 k.failed_at
    → IsName k.queue
    → IsUtf8 k.job_id
    → (dead_letter_queue (encode_dead_letter_key k) ≡ some k.queue)
      × (dead_letter_job_id (encode_dead_letter_key k) ≡ some k.job_id)
unfolding dead_letter_queue dead_letter_job_id encode_dead_letter_key ◌>>=◌
dead_letter-encode k t q j =
    let e = i64_lem k.failed_at (Writer.prefixed k.queue ++ k.job_id) t in
    let f = prefixed_str_lem k.queue k.job_id q.short q.utf8 in
    (rw (e, f), rw (e, f, tail_str_lem k.job_id j))

pub closing_queue-closing_key :
    (queue : Text) → IsUtf8 queue → closing_queue (closing_key queue) ≡ some queue
unfolding closing_queue closing_key
closing_queue-closing_key queue u =
    rw (starts_with-append closing_prefix queue) (from_utf8-some queue u)

module _ (prost : Prost) where
  -- A job row decodes to the queue and the job that were encoded, for a queue name that is UTF-8 and
  -- shorter than 2^16 bytes.
  pub decode_job_value-encode :
      (queue : Text) (job : Job)
      → IsName queue
      → decode_job_value ⦃prost = prost⦄ (encode_job_value ⦃prost = prost⦄ queue job)
        ≡ ok (queue, job)
  unfolding decode_job_value encode_job_value queue_prefix ◌>>=◌
  decode_job_value-encode queue job q = rw (
    prefixed_str_lem queue (prost.encode_job job) q.short q.utf8,
    message_lem prost.decode_job (prost.encode_job job) (prost.decode_job-encode_job job),
  )

  pub record IsRecord (i : Inflight) : Type 0 where
    pub attempt : i.attempt < 2 ^ 32
    pub lease : IsI64 i.lease_expires_at
    pub enqueued : IsI64 i.enqueued_at
    pub priority : i.priority < 2 ^ 32
    pub max_attempts : i.max_attempts < 2 ^ 32
    pub name : IsName i.queue
    pub trace : (t : TraceContext) → i.trace_context ≡ some t → prost.encode_trace_context t ≢ []

  read_trace_bytes :
      (bs : Bytes) (c : TraceContext)
      → bs ≢ []
      → prost.decode_trace_context bs ≡ some c
      → read_trace ⦃prost = prost⦄ bs ≡ some (some c)
  unfolding read_trace
  read_trace_bytes [] c h e = absurd (h refl)
  read_trace_bytes (b ∷ bs) c h e = rw e

  read_trace_lem :
      (t : Option TraceContext)
      → ((c : TraceContext) → t ≡ some c → prost.encode_trace_context c ≢ [])
      → read_trace ⦃prost = prost⦄ (trace_bytes ⦃prost = prost⦄ t) ≡ some t
  unfolding trace_bytes
  read_trace_lem none h = unfold read_trace in refl
  read_trace_lem (some c) h =
      read_trace_bytes (prost.encode_trace_context c) c (h c refl)
        (prost.decode_trace_context-encode_trace_context c)

  -- An inflight record decodes to the fields that were encoded, if they are in the ranges of their
  -- types, the queue name is UTF-8 and shorter than 2^16 bytes, and a trace context that is present
  -- has an encoding of at least one byte.
  pub decode_inflight-encode_inflight :
      (i : Inflight)
      → IsRecord i
      → decode_inflight ⦃prost = prost⦄ (encode_inflight ⦃prost = prost⦄ i) ≡ ok i
  unfolding decode_inflight encode_inflight ◌>>=◌
  decode_inflight-encode_inflight i h =
      let tail = trace_bytes ⦃prost = prost⦄ i.trace_context in
      let r₅ = Writer.prefixed i.queue ++ tail in
      let r₄ = Writer.u32 i.max_attempts ++ r₅ in
      let r₃ = Writer.u32 i.priority ++ r₄ in
      let r₂ = Writer.i64 i.enqueued_at ++ r₃ in
      let r₁ = Writer.i64 i.lease_expires_at ++ r₂ in
      rw (
        u32_lem i.attempt r₁ h.attempt,
        i64_lem i.lease_expires_at r₂ h.lease,
        i64_lem i.enqueued_at r₃ h.enqueued,
        u32_lem i.priority r₄ h.priority,
        u32_lem i.max_attempts r₅ h.max_attempts,
        prefixed_str_lem i.queue tail h.name.short h.name.utf8,
        message_lem (read_trace ⦃prost = prost⦄) tail (read_trace_lem i.trace_context h.trace),
      )
