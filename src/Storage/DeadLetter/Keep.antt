-- ===== src/Storage/DeadLetter/Keep.antt =====
-- `maybe_store_dead_letter` of src/storage.rs, on the mirror.
use sepp.Prelude.{Bool, true, false, Option, none, some}
use sepp.Prelude.Result.{Result, ok, err}
use sepp.Prelude.Maintains.{Maintains, maintains_rules}
use sepp.Std.Bytes.{Bytes, Text}
use sepp.Proto.{Prost, Job}
use sepp.Fjall.{Fjall}
use sepp.Storage.Mirror.{Mirrors, mirror_rules}
use sepp.Storage.DeadLetter.{
  DeadLetterMeta, decoded_job, stored_job, read_dead_letter_job, store_record,
  maybe_store_dead_letter,
}

module _ ⦃db : Fjall⦄ ⦃prost : Prost⦄ where
  decoded_job-Mirrors :
      (id : Bytes) (r : Result (Text × Job)) → Maintains Mirrors (decoded_job id r)
  unfolding decoded_job
  decoded_job-Mirrors id (ok (q, job)) = search (maintains_rules, mirror_rules)
  decoded_job-Mirrors id (err e) = search (maintains_rules, mirror_rules)

  stored_job-Mirrors : (id : Bytes) (v : Option Bytes) → Maintains Mirrors (stored_job id v)
  unfolding stored_job
  stored_job-Mirrors id none = search (maintains_rules, mirror_rules)
  stored_job-Mirrors id (some v) = decoded_job-Mirrors id _

  pub read_dead_letter_job-Mirrors : (id : Bytes) → Maintains Mirrors (read_dead_letter_job id)
  unfolding read_dead_letter_job
  read_dead_letter_job-Mirrors id = search (maintains_rules, mirror_rules, stored_job-Mirrors)

  store_record-Mirrors :
      (id : Bytes) (m : DeadLetterMeta) (job : Option Job)
      → Maintains Mirrors (store_record id m job)
  unfolding store_record
  store_record-Mirrors id m none = search (maintains_rules, mirror_rules)
  store_record-Mirrors id m (some job) = search mirror_rules

  pub maybe_store_dead_letter-Mirrors :
      (id : Bytes) (m : DeadLetterMeta) (enabled : Bool)
      → Maintains Mirrors (maybe_store_dead_letter id m enabled)
  unfolding maybe_store_dead_letter
  maybe_store_dead_letter-Mirrors id m true =
      search (maintains_rules, read_dead_letter_job-Mirrors, store_record-Mirrors)
  maybe_store_dead_letter-Mirrors id m false = search maintains_rules
