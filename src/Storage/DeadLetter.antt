-- ===== src/Storage/DeadLetter.antt =====
-- `maybe_store_dead_letter` of src/storage.rs and the read that it begins with.
pub mod Keep
pub mod Atomic
use sepp.Prelude.{ℕ, Bool, Option, none, some, not, if◌then◌else◌}
use sepp.Prelude.Int.{ℤ}
use sepp.Prelude.Result.{Result, ok, err, Exec, pure, ◌>>=◌, ◌>>◌}
use sepp.Std.Bytes.{Bytes, Text}
use sepp.Proto.{Prost, Job, DeadLetterCause, millis_to_timestamp}
use sepp.Fjall.{Fjall}
use sepp.Keys.{encode_dead_letter_key, decode_job_value}
use sepp.Storage.{State, Space, Timer, tx_get, tx_insert, index_timer}

pub record DeadLetterMeta : Type 0 where
  pub cause : DeadLetterCause
  pub failed_at : ℤ
  pub attempt : ℕ
  pub last_reason : Option Text

module _ ⦃db : Fjall⦄ ⦃prost : Prost⦄ where
  -- A payload that does not decode is dropped from the record.
  with_payload : Job → Option Bytes → Job
  with_payload job none = job
  with_payload job (some bytes) = elim (prost.decode_payload bytes) [
    | none ↦ job
    | some p ↦ record job { payload = some p }
  ]

  decoded_job : Bytes → Result (Text × Job) → Exec State (Option Job)
  unfolding with_payload
  decoded_job job_id (err e) = pure none
  decoded_job job_id (ok (queue, job)) = do
    bytes ← tx_get Space.payloads job_id
    pure (some (record (with_payload job bytes) { queue = queue }))

  stored_job : Bytes → Option Bytes → Exec State (Option Job)
  unfolding decoded_job
  stored_job job_id none = pure none
  stored_job job_id (some stored) = decoded_job job_id (decode_job_value stored)

  unfoldable pub read_dead_letter_job : Bytes → Exec State (Option Job)
  unfolding stored_job
  read_dead_letter_job job_id = do stored ← tx_get Space.jobs job_id; stored_job job_id stored

  store_record : Bytes → DeadLetterMeta → Option Job → Exec State Unit
  store_record job_id m none = pure tt
  store_record job_id m (some found) = do
    let job = record found { attempt = m.attempt }
    let key =
        encode_dead_letter_key
          (record { failed_at = m.failed_at; queue = job.queue; job_id = job_id })
    index_timer Timer.dead_letter key job.queue
    tx_insert Space.dead_letter key (
        prost.encode_dead_letter (record {
          job = some job;
          cause = m.cause;
          failed_at = some (millis_to_timestamp m.failed_at);
          final_attempt = m.attempt;
          last_reason = m.last_reason;
        }))

  unfoldable pub maybe_store_dead_letter : Bytes → DeadLetterMeta → Bool → Exec State Unit
  unfolding store_record
  maybe_store_dead_letter job_id m dead_letter_enabled =
      if not dead_letter_enabled
      then pure tt
      else do job ← read_dead_letter_job job_id; store_record job_id m job
