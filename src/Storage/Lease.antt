-- ===== src/Storage/Lease.antt =====
-- `apply_ack`, `apply_nack` and `apply_extend` of src/storage.rs: what a worker does with the lease
-- that it holds on a job.
pub mod Keep
pub mod Atomic
pub mod Fencing
pub mod Over
use sepp.Prelude.{
  ℕ, ◌+◌, Bool, true, false, ◌||◌, Option, some, [], if◌then◌else◌, leb, ltb, ◌==◌, max, and_then,
}
use sepp.Prelude.Int.{ℤ, saturating_add, i64_of_u64}
use sepp.Prelude.Result.{
  Exec, pure, raise, lift, ◌>>=◌, ◌>>◌, not_found_status, failed_precondition_status, ok_or,
}
use sepp.Std.Bytes.{Bytes, Text}
use sepp.Std.BigEndian.{u32_to_be}
use sepp.Proto.{Prost, TraceContext, NackRequest, RetryStrategy, ExtendRequest, DeadLetterCause}
use sepp.Fjall.{Fjall}
use sepp.Keys.{Inflight, encode_timer, encode_ready, encode_inflight, decode_inflight}
use sepp.Storage.{
  State, Space, Timer, tx_get, tx_insert, tx_remove, index_timer, unindex_timer, index_ready, note,
  mark_dirty, add_ready, acked, nacked, dead_lettered,
}
use sepp.Storage.DeadLetter.{maybe_store_dead_letter}

pub record AckOutcome : Type 0 where
  pub queue : Text
  pub trace_context : Option TraceContext

pub record NackOutcome : Type 0 where
  pub queue : Text
  pub dead_lettered : Bool
  pub retry_delay_ms : ℕ
  pub trace_context : Option TraceContext

pub record ExtendOutcome : Type 0 where
  pub queue : Text
  pub lease_expires_at : ℤ
  pub trace_context : Option TraceContext

module _ ⦃db : Fjall⦄ ⦃prost : Prost⦄ where
  -- The steps that the three functions begin with: the record must be there, must decode, and must
  -- be of the attempt that the caller names.
  unfoldable pub leased : Text → ℕ → Exec State Inflight
  leased job_id attempt = do
    found ← tx_get Space.inflight job_id
    stored ← lift (ok_or (not_found_status "job not found") found)
    inflight ← lift (decode_inflight stored)
    if inflight.attempt == attempt
        then pure inflight
        else raise (failed_precondition_status "attempt mismatch")

  unfoldable pub lease_timer : Inflight → Text → Bytes
  lease_timer i job_id = encode_timer (record { deadline = i.lease_expires_at; job_id = job_id })

  unfoldable pub ack_leased : Text → Inflight → Exec State AckOutcome
  ack_leased job_id inflight = do
    tx_remove Space.jobs job_id
    tx_remove Space.payloads job_id
    tx_remove Space.inflight job_id
    tx_remove Space.leases (lease_timer inflight job_id)
    unindex_timer Timer.leases (lease_timer inflight job_id)
    note (acked inflight.queue)
    note mark_dirty
    pure (record { queue = inflight.queue; trace_context = inflight.trace_context })

  unfoldable pub apply_ack : Text → ℕ → Exec State AckOutcome
  apply_ack job_id attempt = do inflight ← leased job_id attempt; ack_leased job_id inflight

  unfoldable pub force_dead_letter : NackRequest → Bool
  force_dead_letter req = elim (and_then req.retry (λ r. r.strategy)) [
    | some RetryStrategy.dead_letter ↦ true
    | _ ↦ false
  ]

  unfoldable pub nack_dead : NackRequest → Bool → Bool → ℤ → Inflight → Exec State NackOutcome
  nack_dead req forced dead_letter_enabled now inflight = do
    maybe_store_dead_letter req.job_id
        (record {
          cause = if forced then DeadLetterCause.rejected else DeadLetterCause.attempts_exhausted;
          failed_at = now;
          attempt = inflight.attempt;
          last_reason = req.reason;
        })
        dead_letter_enabled
    tx_remove Space.jobs req.job_id
    tx_remove Space.payloads req.job_id
    tx_remove Space.inflight req.job_id
    tx_remove Space.leases (lease_timer inflight req.job_id)
    unindex_timer Timer.leases (lease_timer inflight req.job_id)
    note (nacked inflight.queue)
    note (dead_lettered inflight.queue (if forced then "rejected" else "attempts_exhausted"))
    note mark_dirty
    pure (record {
      queue = inflight.queue;
      dead_lettered = true;
      retry_delay_ms = 0;
      trace_context = inflight.trace_context;
    })

  -- Where the next attempt waits: in `scheduled` until the delay is over, or in `ready`.
  unfoldable pub requeue : NackRequest → ℕ → ℤ → Inflight → Exec State Unit
  requeue req retry_delay_ms now inflight =
      let attempt = inflight.attempt + 1 in
      if ltb 0 retry_delay_ms
      then (do
        let tk = encode_timer (record {
          deadline = saturating_add now (i64_of_u64 retry_delay_ms);
          job_id = req.job_id;
        })
        tx_insert Space.scheduled tk (u32_to_be attempt)
        index_timer Timer.scheduled tk inflight.queue)
      else do
        let rk = encode_ready (record {
          queue = inflight.queue;
          priority = inflight.priority;
          enqueued_at = inflight.enqueued_at;
          job_id = req.job_id;
        })
        tx_insert Space.ready rk (u32_to_be attempt)
        index_ready rk attempt
        note (add_ready inflight.queue)

  unfoldable pub nack_retry : NackRequest → ℕ → ℤ → Inflight → Exec State NackOutcome
  nack_retry req retry_delay_ms now inflight = do
    requeue req retry_delay_ms now inflight
    tx_remove Space.inflight req.job_id
    tx_remove Space.leases (lease_timer inflight req.job_id)
    unindex_timer Timer.leases (lease_timer inflight req.job_id)
    note (nacked inflight.queue)
    note mark_dirty
    pure (record {
      queue = inflight.queue;
      dead_lettered = false;
      retry_delay_ms = retry_delay_ms;
      trace_context = inflight.trace_context;
    })

  unfoldable pub apply_nack : NackRequest → ℕ → Bool → ℤ → Exec State NackOutcome
  apply_nack req retry_delay_ms dead_letter_enabled now = do
    inflight ← leased req.job_id req.attempt
    if force_dead_letter req || leb inflight.max_attempts inflight.attempt
        then nack_dead req (force_dead_letter req) dead_letter_enabled now inflight
        else nack_retry req retry_delay_ms now inflight

  unfoldable pub extend_leased : Text → ℤ → Inflight → Exec State ExtendOutcome
  extend_leased job_id lease_expires_at inflight = do
    tx_insert Space.inflight job_id
        (encode_inflight (record inflight { lease_expires_at = lease_expires_at }))
    tx_remove Space.leases (lease_timer inflight job_id)
    unindex_timer Timer.leases (lease_timer inflight job_id)
    let new_timer = encode_timer (record { deadline = lease_expires_at; job_id = job_id })
    tx_insert Space.leases new_timer []
    index_timer Timer.leases new_timer inflight.queue
    note mark_dirty
    pure (record {
      queue = inflight.queue;
      lease_expires_at = lease_expires_at;
      trace_context = inflight.trace_context;
    })

  -- The lease is at least one millisecond long.
  unfoldable pub apply_extend : ExtendRequest → ℕ → ℤ → Exec State ExtendOutcome
  apply_extend req lease_ms now = do
    inflight ← leased req.job_id req.attempt
    extend_leased req.job_id (saturating_add now (i64_of_u64 (max lease_ms 1))) inflight
