-- ===== src/Storage/DeadLetter/Atomic.antt =====
-- What `maybe_store_dead_letter` of src/storage.rs leaves behind when it fails.
use sepp.Prelude.{Bool, true, false, Option, none, some}
use sepp.Prelude.Result.{Result, ok, err}
use sepp.Prelude.Atomic.{
  Reads, Succeeds, IsAtomic, IsAtomic-Succeeds, IsAtomic-bind, reads_rules, succeeds_rules,
}
use sepp.Std.Bytes.{Bytes, Text}
use sepp.Proto.{Prost, Job}
use sepp.Fjall.{Fjall}
use sepp.Keys.{decode_job_value}
use sepp.Storage.DeadLetter.{
  DeadLetterMeta, decoded_job, stored_job, read_dead_letter_job, store_record,
  maybe_store_dead_letter,
}
use sepp.Storage.Atomic.{tx_get-Reads, write_rules}

module _ ⦃db : Fjall⦄ ⦃prost : Prost⦄ where
  decoded_job-Reads : (id : Bytes) (r : Result (Text × Job)) → Reads (decoded_job id r)
  unfolding decoded_job
  decoded_job-Reads id (ok (q, job)) = search (reads_rules, tx_get-Reads)
  decoded_job-Reads id (err e) = search reads_rules

  stored_job-Reads : (id : Bytes) (v : Option Bytes) → Reads (stored_job id v)
  unfolding stored_job
  stored_job-Reads id none = search reads_rules
  stored_job-Reads id (some v) = decoded_job-Reads id (decode_job_value v)

  read_dead_letter_job-Reads : (id : Bytes) → Reads (read_dead_letter_job id)
  unfolding read_dead_letter_job
  read_dead_letter_job-Reads id = search (reads_rules, tx_get-Reads, stored_job-Reads)

  store_record-Succeeds :
      (id : Bytes) (m : DeadLetterMeta) (job : Option Job) → Succeeds (store_record id m job)
  unfolding store_record
  store_record-Succeeds id m none = search succeeds_rules
  store_record-Succeeds id m (some job) = search write_rules

  pub maybe_store_dead_letter-IsAtomic :
      (id : Bytes) (m : DeadLetterMeta) (enabled : Bool)
      → IsAtomic (maybe_store_dead_letter id m enabled)
  unfolding maybe_store_dead_letter
  maybe_store_dead_letter-IsAtomic id m true =
      IsAtomic-bind _ _ (read_dead_letter_job-Reads id)
        λ job. IsAtomic-Succeeds _ (store_record-Succeeds id m job)
  maybe_store_dead_letter-IsAtomic id m false = IsAtomic-Succeeds _ (search succeeds_rules)
