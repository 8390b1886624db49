-- ===== src/Retry.antt =====
-- src/storage.rs: the retry delay and the lease that the handle of the storage layer puts into a nack
-- and into an extend before it sends them to the committer.
pub mod Bounds
pub mod Shortcut
use sepp.Prelude.{
  ℕ, ◌+◌, ◌-◌, ◌/◌, ◌%◌, Bool, not, true, false, ◌&&◌, Option, none, some, leb, ◌==◌, min, max,
  if◌then◌else◌, and_then, String,
}
use sepp.Prelude.Int.{saturating_mul_u64, saturating_pow_u64}
use sepp.Prelude.Result.{Result, ok, err, not_found_status}
use sepp.Std.Bytes.{Bytes, Text}
use sepp.Proto.{Prost, NackRequest, ExtendRequest, RetryStrategy, duration_to_millis}
use sepp.Fjall.{Fjall}
use sepp.Config.{constant, exponential}
use sepp.Queues.{QueueRegistry, RetryPolicy, effective, retry_policy}
use sepp.Keys.{decode_inflight}
use sepp.Storage.{Tx, stg_err}

-- The hash of `DefaultHasher`, a 64-bit number whose algorithm the standard library leaves open.
pub record JitterHash : Type 0 where
  pub hash : Text → ℕ → ℕ

abbrev is_none : {A : Type 0} → Option A → Bool
is_none none = true
is_none (some a) = false

-- The operator `?` on the result of a read.
abbrev on_ok {ℓ κ} : {A : Type ℓ} {B : Type κ} → Result A → (A → Result B) → Result B
on_ok (ok a) f = f a
on_ok (err e) f = err e

-- The delay before jitter and cap.
unfoldable pub grown : RetryPolicy → ℕ → ℕ
grown policy attempt = elim policy.retry_backoff [
  | constant ↦ policy.retry_delay_ms
  | exponential ↦ saturating_mul_u64 policy.retry_delay_ms (saturating_pow_u64 2 (attempt - 1))
]

unfoldable pub capped : RetryPolicy → ℕ → ℕ
capped policy attempt =
    min (grown policy attempt) (min policy.retry_delay_max_ms policy.max_schedule_horizon_ms)

module _ ⦃h : JitterHash⦄ where
  unfoldable pub policy_retry_delay_ms : RetryPolicy → ℕ → Text → ℕ
  policy_retry_delay_ms policy attempt job_id =
      if policy.retry_delay_ms == 0
      then 0
      else capped policy attempt - h.hash job_id attempt % (capped policy attempt / 4 + 1)

module _ ⦃db : Fjall⦄ ⦃prost : Prost⦄ where
  abbrev queue_of_stored : Option Bytes → Result (Option Text)
  queue_of_stored none = ok none
  queue_of_stored (some stored) = on_ok (decode_inflight stored) λ i. ok (some i.queue)

  abbrev unless_error : Option String → Option Bytes → Result (Option Bytes)
  unless_error none found = ok found
  unless_error (some e) found = err (stg_err e)

  -- A read of a snapshot, beside the committer.
  unfoldable pub queue_of_inflight_job : Tx → Text → Result (Option Text)
  queue_of_inflight_job snap job_id =
      on_ok (unless_error (db.read_error snap.inflight job_id) (db.get snap.inflight job_id))
        queue_of_stored

  unfoldable pub explicit_delay : NackRequest → Option ℕ
  explicit_delay req = and_then req.retry λ r.
      and_then r.strategy elim [ RetryStrategy.delay d ↦ some (duration_to_millis d) | _ ↦ none ]

  unfoldable pub requested_lease : ExtendRequest → ℕ
  requested_lease req = max (elim req.lease_duration [ none ↦ 0 | some d ↦ duration_to_millis d ]) 1

  unfoldable pub resolve_extend_lease : QueueRegistry → Tx → ExtendRequest → Result ℕ
  resolve_extend_lease registry snap req =
      if leb (requested_lease req) registry.min_max_lease_ms
      then ok (requested_lease req)
      else on_ok (queue_of_inflight_job snap req.job_id) elim [
        | none ↦ err (not_found_status "job not found")
        | some queue ↦
            ok (min (requested_lease req) (effective registry queue).max_lease_duration_ms)
      ]

module _ ⦃db : Fjall⦄ ⦃prost : Prost⦄ ⦃h : JitterHash⦄ where
  unfoldable pub delay_under : RetryPolicy → NackRequest → ℕ
  delay_under policy req = elim (explicit_delay req) [
    | some ms ↦ min ms policy.max_schedule_horizon_ms
    | none ↦ policy_retry_delay_ms policy req.attempt req.job_id
  ]

  -- The registry is loaded when the lookup is to be skipped, and again after the lookup.
  unfoldable pub resolve_retry_delay : QueueRegistry → QueueRegistry → Tx → NackRequest → Result ℕ
  resolve_retry_delay before after snap req =
      if is_none (explicit_delay req) && not before.any_retry_policy
      then ok 0
      else on_ok (queue_of_inflight_job snap req.job_id)
          elim [ none ↦ ok 0 | some queue ↦ ok (delay_under (retry_policy after queue) req) ]
