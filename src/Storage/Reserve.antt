-- ===== src/Storage/Reserve.antt =====
-- `apply_reserve` of src/storage.rs.
pub mod Keep
pub mod Fuel
pub mod Bounds
use sepp.Prelude.{ℕ, zero, suc, true, false, List, [], ◌∷◌, ◌++◌, Option, none, some, leb, length}
use sepp.Prelude.Int.{ℤ, pos, saturating_add, i64_of_u64}
use sepp.Prelude.Result.{Result, ok, err, Exec, pure, gets, ◌>>=◌, ◌>>◌}
use sepp.Std.Bytes.{Bytes, Text}
use sepp.Proto.{Prost, Job, Timestamp, millis_to_timestamp, timestamp_to_millis}
use sepp.Fjall.{Fjall}
use sepp.Keys.{
  ReadyKey, decode_ready, queue_prefix, decode_job_value, encode_inflight, encode_timer,
}
use sepp.Storage.{
  State, Space, Timer, tx_get, tx_insert, tx_remove, pop_ready, index_timer, note, mark_dirty,
  reserved,
}

module _ ⦃db : Fjall⦄ ⦃prost : Prost⦄ where
  -- `timestamp.map(timestamp_to_millis).unwrap_or(0)`.
  abbrev pub millis_or_zero : Option Timestamp → ℤ
  millis_or_zero none = pos 0
  millis_or_zero (some t) = timestamp_to_millis t

  -- An entry that cannot be served is removed; a corrupt job is removed with it.
  drop_entry : Bytes → Exec State (Option Job)
  drop_entry ready_k = do tx_remove Space.ready ready_k; note mark_dirty; pure none

  drop_job : Bytes → Text → Exec State (Option Job)
  drop_job ready_k job_id = do
    tx_remove Space.ready ready_k
    tx_remove Space.jobs job_id
    tx_remove Space.payloads job_id
    note mark_dirty
    pure none

  unfoldable pub lease_job : ℤ → Bytes → ℕ → Text → Job → Exec State (Option Job)
  lease_job lease_expires_at ready_k attempt job_queue found = do
    let job = record found {
      attempt = attempt;
      lease_expires_at = some (millis_to_timestamp lease_expires_at);
    }
    tx_remove Space.ready ready_k
    tx_insert Space.inflight job.id (
        encode_inflight (record {
          attempt = attempt;
          lease_expires_at = lease_expires_at;
          enqueued_at = millis_or_zero job.enqueued_at;
          priority = job.priority;
          max_attempts = job.max_attempts;
          queue = job_queue;
          trace_context = job.trace_context;
        }))
    let lease_timer = encode_timer (record { deadline = lease_expires_at; job_id = job.id })
    tx_insert Space.leases lease_timer []
    index_timer Timer.leases lease_timer job_queue
    note (reserved job_queue)
    note mark_dirty
    pure (some job)

  with_payload : ℤ → Bytes → ℕ → Text → Text → Job → Option Bytes → Exec State (Option Job)
  unfolding drop_job
  with_payload lease_at ready_k attempt job_id job_queue job none =
      lease_job lease_at ready_k attempt job_queue job
  with_payload lease_at ready_k attempt job_id job_queue job (some bytes) =
      elim (prost.decode_payload bytes) [
        | none ↦ drop_job ready_k job_id
        | some p ↦ lease_job lease_at ready_k attempt job_queue (record job { payload = some p })
      ]

  decoded : ℤ → Bytes → ℕ → Text → Result (Text × Job) → Exec State (Option Job)
  unfolding drop_job with_payload
  decoded lease_at ready_k attempt job_id (err e) = drop_job ready_k job_id
  decoded lease_at ready_k attempt job_id (ok (job_queue, job)) = do
    bytes ← tx_get Space.payloads job_id
    with_payload lease_at ready_k attempt job_id job_queue (record job { queue = job_queue }) bytes

  stored_job : ℤ → Bytes → ℕ → Text → Option Bytes → Exec State (Option Job)
  unfolding drop_entry decoded
  stored_job lease_at ready_k attempt job_id none = drop_entry ready_k
  stored_job lease_at ready_k attempt job_id (some stored) =
      decoded lease_at ready_k attempt job_id (decode_job_value stored)

  -- One round of the inner loop, after the pop.
  unfoldable pub reserve_entry : ℤ → Bytes → ℕ → Option ReadyKey → Exec State (Option Job)
  unfolding drop_entry stored_job
  reserve_entry lease_at ready_k attempt none = drop_entry ready_k
  reserve_entry lease_at ready_k attempt (some rk) = do
    stored ← tx_get Space.jobs rk.job_id
    stored_job lease_at ready_k attempt rk.job_id stored

  abbrev pub push_some : List Job → Option Job → List Job
  push_some jobs none = jobs
  push_some jobs (some job) = jobs ++ job ∷ []

  -- The inner loop, `while jobs.len() < max_jobs`. Each round takes a key out of the index, so as
  -- many rounds as the index has keys, and one, are enough.
  unfoldable pub reserve_queue : ℕ → ℤ → ℕ → Bytes → List Job → Exec State (List Job)
  reserve_queue zero lease_at max_jobs prefix jobs = pure jobs
  reserve_queue (suc fuel) lease_at max_jobs prefix jobs = elim (leb max_jobs (length jobs)) [
    | true ↦ pure jobs
    | false ↦ do
      popped ← pop_ready prefix
      elim popped [
        | none ↦ pure jobs
        | some (ready_k, attempt) ↦ do
          job ← reserve_entry lease_at ready_k attempt (decode_ready ready_k)
          reserve_queue fuel lease_at max_jobs prefix (push_some jobs job)
      ]
  ]

  -- The outer loop; the test at its head stops it as the inner loop's test would.
  unfoldable pub reserve_queues : ℤ → ℕ → List Text → List Job → Exec State (List Job)
  reserve_queues lease_at max_jobs [] jobs = pure jobs
  reserve_queues lease_at max_jobs (queue ∷ queues) jobs = elim (leb max_jobs (length jobs)) [
    | true ↦ pure jobs
    | false ↦ do
      keys ← gets (λ s. s.indexes.ready.keys)
      jobs' ← reserve_queue (suc (length keys)) lease_at max_jobs (queue_prefix queue) jobs
      reserve_queues lease_at max_jobs queues jobs'
  ]

  unfoldable pub apply_reserve : List Text → ℕ → ℕ → ℤ → Exec State (List Job)
  apply_reserve queues lease_ms max_jobs now =
      reserve_queues (saturating_add now (i64_of_u64 lease_ms)) max_jobs queues []
