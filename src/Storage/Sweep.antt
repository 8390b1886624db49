-- ===== src/Storage/Sweep.antt =====
-- `apply_sweep` of src/storage.rs: close tombstones, scheduled promotions, expired leases, dedup
-- records and dead letters past their retention. Each of the last four has a budget of its own.
pub mod Keep
pub mod Bounds
pub mod Tombstones
use sepp.Prelude.{
  ℕ, zero, suc, ◌+◌, Bool, false, List, [], ◌∷◌, Option, none, some, if◌then◌else◌, leb, ltb,
  unwrap_or, and_then,
}
use sepp.Prelude.Int.{ℤ, ltb_ℤ, leb_ℤ}
use sepp.Prelude.Result.{Result, ok, err, Exec, pure, gets, modify, ◌>>=◌, ◌>>◌}
use sepp.Std.Bytes.{Bytes, Text}
use sepp.Std.BigEndian.{u32_to_be}
use sepp.Std.Utf8.{from_utf8}
use sepp.Std.HashMap.{HashMap}
use sepp.Proto.{Prost, Job, DeadLetterCause}
use sepp.Fjall.{Fjall}
use sepp.Keys.{
  Inflight, encode_ready, decode_job_value, decode_inflight, decode_dedup_value, timer_job_id,
  dedup_timer_key, closing_key,
}
use sepp.Storage.{
  State, Space, Timer, tx_get, tx_remove, tx_insert, index_ready, pop_timer, note, mark_dirty,
  add_ready, sweep_promotion, sweep_lease_redelivery, sweep_dedup_expiration, dead_letter_expired,
  dead_lettered, attempt_of_chunk,
}
use sepp.Storage.DeadLetter.{maybe_store_dead_letter}
use sepp.Storage.Reserve.{millis_or_zero}

-- `closing.retain(|_, deadline| deadline > now)`, and the queues whose entry goes.
unfoldable pub kept : ℤ → HashMap Text ℤ → HashMap Text ℤ
kept now [] = []
kept now ((queue, deadline) ∷ rest) =
    let others = kept now rest in if ltb_ℤ now deadline then (queue, deadline) ∷ others else others

unfoldable pub lapsed : ℤ → HashMap Text ℤ → List Text
lapsed now [] = []
lapsed now ((queue, deadline) ∷ rest) =
    let others = lapsed now rest in if ltb_ℤ now deadline then others else queue ∷ others

module _ ⦃db : Fjall⦄ ⦃prost : Prost⦄ where
  unfoldable pub drop_tombstones : List Text → Exec State Unit
  drop_tombstones [] = pure tt
  drop_tombstones (queue ∷ queues) = do
    tx_remove Space.meta (closing_key queue)
    note mark_dirty
    drop_tombstones queues

  unfoldable pub sweep_closing : ℤ → Exec State Unit
  sweep_closing now = do
    closing ← gets (λ s. s.indexes.closing)
    drop_tombstones (lapsed now closing)
    modify (λ s. record s { indexes = record s.indexes { closing = kept now s.indexes.closing } })

  -- A phase of the sweep: at most `remaining` due timers, each handled in turn; the result is their
  -- number.
  unfoldable pub sweep_due : Timer → ℤ → (Bytes → Text → Exec State Unit) → ℕ → Exec State ℕ
  sweep_due t now handle zero = pure 0
  sweep_due t now handle (suc remaining) = do
    popped ← pop_timer t now
    elim popped [
      | none ↦ pure 0
      | some (timer_k, queue) ↦ do
        handle timer_k queue
        rest ← sweep_due t now handle remaining
        pure (suc rest)
    ]

  promote : Option ℕ → Result (Text × Job) → Exec State Unit
  promote hint (err e) = pure tt
  promote hint (ok (queue, job)) = do
    let attempt = unwrap_or hint job.attempt
    let rk = encode_ready (record {
      queue = queue;
      priority = job.priority;
      enqueued_at = millis_or_zero job.enqueued_at;
      job_id = job.id;
    })
    tx_insert Space.ready rk (u32_to_be attempt)
    index_ready rk attempt
    note (sweep_promotion queue)
    note (add_ready queue)

  promote_stored : Option ℕ → Option Bytes → Exec State Unit
  unfolding promote
  promote_stored hint none = pure tt
  promote_stored hint (some stored) = promote hint (decode_job_value stored)

  promote_job : Option ℕ → Option Bytes → Exec State Unit
  unfolding promote_stored
  promote_job hint none = pure tt
  promote_job hint (some job_id) = do stored ← tx_get Space.jobs job_id; promote_stored hint stored

  unfoldable pub sweep_scheduled : Bytes → Text → Exec State Unit
  unfolding promote_job
  sweep_scheduled timer_k queue = do
    v ← tx_get Space.scheduled timer_k
    tx_remove Space.scheduled timer_k
    note mark_dirty
    promote_job (and_then v attempt_of_chunk) (timer_job_id timer_k)

  expire_dead : ℤ → Bool → Bytes → Inflight → Exec State Unit
  expire_dead now dead_letter_enabled job_id inflight = do
    maybe_store_dead_letter job_id
        (record {
          cause = DeadLetterCause.lease_expired;
          failed_at = now;
          attempt = inflight.attempt;
          last_reason = none;
        })
        dead_letter_enabled
    tx_remove Space.jobs job_id
    tx_remove Space.payloads job_id
    tx_remove Space.inflight job_id
    note (dead_lettered inflight.queue "lease_expired")

  redeliver : Bytes → Inflight → Option Text → Exec State Unit
  redeliver job_id inflight none = pure tt
  redeliver job_id inflight (some id) = do
    let attempt = inflight.attempt + 1
    let rk = encode_ready (record {
      queue = inflight.queue;
      priority = inflight.priority;
      enqueued_at = inflight.enqueued_at;
      job_id = id;
    })
    tx_insert Space.ready rk (u32_to_be attempt)
    index_ready rk attempt
    tx_remove Space.inflight job_id
    note (sweep_lease_redelivery inflight.queue)
    note (add_ready inflight.queue)

  expire : ℤ → Bool → Bytes → Result Inflight → Exec State Unit
  unfolding expire_dead redeliver
  expire now dead job_id (err e) = pure tt
  expire now dead job_id (ok inflight) =
      if leb inflight.max_attempts inflight.attempt
      then expire_dead now dead job_id inflight
      else redeliver job_id inflight (from_utf8 job_id)

  expire_stored : ℤ → Bool → Bytes → Option Bytes → Exec State Unit
  unfolding expire
  expire_stored now dead job_id none = pure tt
  expire_stored now dead job_id (some stored) = expire now dead job_id (decode_inflight stored)

  expire_lease : ℤ → Bool → Option Bytes → Exec State Unit
  unfolding expire_stored
  expire_lease now dead none = pure tt
  expire_lease now dead (some job_id) = do
    stored ← tx_get Space.inflight job_id
    expire_stored now dead job_id stored

  unfoldable pub sweep_leases : ℤ → Bool → Bytes → Text → Exec State Unit
  unfolding expire_lease
  sweep_leases now dead timer_k queue = do
    tx_remove Space.leases timer_k
    note mark_dirty
    expire_lease now dead (timer_job_id timer_k)

  -- `record_deadline.is_some_and(|d| d <= now)`.
  past : ℤ → Option Bytes → Bool
  past now found = elim (and_then found decode_dedup_value) [
    | none ↦ false
    | some dv ↦ leb_ℤ dv.deadline now
  ]

  expire_dedup : ℤ → Option Bytes → Exec State Unit
  unfolding past
  expire_dedup now none = pure tt
  expire_dedup now (some dedup_k) = do
    found ← tx_get Space.dedup dedup_k
    if past now found then tx_remove Space.dedup dedup_k else pure tt

  unfoldable pub sweep_dedup : ℤ → Bytes → Text → Exec State Unit
  unfolding expire_dedup
  sweep_dedup now timer_k queue = do
    expire_dedup now (dedup_timer_key timer_k)
    tx_remove Space.dedup_timers timer_k
    note (sweep_dedup_expiration queue)
    note mark_dirty

  unfoldable pub sweep_dead_letter : Bytes → Text → Exec State Unit
  sweep_dead_letter key queue = do tx_remove Space.dead_letter key; note mark_dirty

  sweep_retention : ℕ → Option ℤ → Exec State ℕ
  sweep_retention budget none = pure 0
  sweep_retention budget (some cutoff) = do
    expired ← sweep_due Timer.dead_letter cutoff sweep_dead_letter budget
    if ltb 0 expired then note (dead_letter_expired expired) else pure tt
    pure expired

  unfoldable pub apply_sweep : ℤ → ℕ → Option ℤ → Bool → Exec State ℕ
  unfolding sweep_retention
  apply_sweep now budget retention_cutoff_ms dead_letter_enabled = do
    sweep_closing now
    promoted ← sweep_due Timer.scheduled now sweep_scheduled budget
    lapsed_leases ← sweep_due Timer.leases now (sweep_leases now dead_letter_enabled) budget
    forgotten ← sweep_due Timer.dedup_timers now (sweep_dedup now) budget
    expired ← sweep_retention budget retention_cutoff_ms
    pure (promoted + lapsed_leases + forgotten + expired)
