-- ===== src/Storage/Apply.antt =====
-- `apply_op` of src/storage.rs, and `apply_command`'s stamp before it.
pub mod Keep
use sepp.Prelude.{ℕ, List}
use sepp.Prelude.Int.{ℤ}
use sepp.Prelude.Result.{Exec, pure, ◌>>=◌}
use sepp.Proto.{Prost, Job, DeadLetterRecord}
use sepp.Fjall.{Fjall}
use sepp.Op.{
  Op, stamp, enqueue, enqueue_atomic, reserve, ack, nack, extend, drain_dead_letters, close_queue,
  open_queue, requeue_dead_letters, dead_letter_jobs, delete_dead_letters, purge_queue_chunk, sweep,
  audit_append,
}
use sepp.Storage.{State}
use sepp.Storage.Lease.{AckOutcome, NackOutcome, ExtendOutcome, apply_ack, apply_nack, apply_extend}
use sepp.Storage.Enqueue.{EnqueueResult, AtomicEnqueueOutcome, apply_enqueue, apply_enqueue_atomic}
use sepp.Storage.Reserve.{apply_reserve}
use sepp.Storage.Admin.{
  Outcome, apply_drain, apply_requeue_dead_letters, apply_dead_letter_jobs,
  apply_delete_dead_letters,
}
use sepp.Storage.Queue.{
  PurgeOutcome, apply_close_queue, apply_open_queue, apply_purge_queue_chunk, apply_audit_append,
}
use sepp.Storage.Sweep.{apply_sweep}

pub data OpOutcome : Type 0 where
  enqueue_outcome : List EnqueueResult → OpOutcome
  enqueue_atomic_outcome : AtomicEnqueueOutcome → OpOutcome
  reserve_outcome : List Job → OpOutcome
  ack_outcome : AckOutcome → OpOutcome
  nack_outcome : NackOutcome → OpOutcome
  extend_outcome : ExtendOutcome → OpOutcome
  drain_outcome : List DeadLetterRecord → OpOutcome
  close_outcome open_outcome : OpOutcome
  requeue_outcome dead_letter_outcome delete_outcome : Outcome → OpOutcome
  purge_outcome : PurgeOutcome → OpOutcome
  sweep_outcome : ℕ → OpOutcome
  audit_outcome : (seq : ℕ) (ts_ms : ℤ) → OpOutcome

module _ ⦃db : Fjall⦄ ⦃prost : Prost⦄ where
  abbrev pub returning : {A : Type 0} → (A → OpOutcome) → Exec State A → Exec State OpOutcome
  returning f m = m >>= λ a. pure (f a)

  unfoldable pub apply_op : Op → Exec State OpOutcome
  apply_op (enqueue jobs now_ms) = returning enqueue_outcome (apply_enqueue jobs now_ms)
  apply_op (enqueue_atomic jobs now_ms) =
      returning enqueue_atomic_outcome (apply_enqueue_atomic jobs now_ms)
  apply_op (reserve queues lease_ms max_jobs now_ms) =
      returning reserve_outcome (apply_reserve queues lease_ms max_jobs now_ms)
  apply_op (ack job_id attempt) = returning ack_outcome (apply_ack job_id attempt)
  apply_op (nack req retry_delay_ms dead_letter_enabled now_ms) =
      returning nack_outcome (apply_nack req retry_delay_ms dead_letter_enabled now_ms)
  apply_op (extend req lease_ms now_ms) =
      returning extend_outcome (apply_extend req lease_ms now_ms)
  apply_op (drain_dead_letters queue max scan_cap) =
      returning drain_outcome (apply_drain queue max scan_cap)
  apply_op (close_queue queue now_ms grace_ms) =
      returning (λ _. close_outcome) (apply_close_queue queue now_ms grace_ms)
  apply_op (open_queue queue) = returning (λ _. open_outcome) (apply_open_queue queue)
  apply_op (requeue_dead_letters queue keys now_ms) =
      returning requeue_outcome (apply_requeue_dead_letters queue keys now_ms)
  apply_op (dead_letter_jobs queue state keys reason dead_letter_enabled now_ms) =
      returning dead_letter_outcome
        (apply_dead_letter_jobs queue state keys reason dead_letter_enabled now_ms)
  apply_op (delete_dead_letters queue keys) =
      returning delete_outcome (apply_delete_dead_letters queue keys)
  apply_op (purge_queue_chunk queue max) =
      returning purge_outcome (apply_purge_queue_chunk queue max)
  apply_op (sweep now_ms budget retention_cutoff_ms dead_letter_enabled) =
      returning sweep_outcome (apply_sweep now_ms budget retention_cutoff_ms dead_letter_enabled)
  apply_op (audit_append r now_ms) =
      returning (λ seq. audit_outcome seq now_ms) (apply_audit_append r now_ms)

  -- The drain-time stamp, then the operation.
  unfoldable pub apply_command : Op → ℤ → Exec State OpOutcome
  apply_command op now = apply_op (stamp op now)
