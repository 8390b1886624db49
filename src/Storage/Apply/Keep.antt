-- ===== src/Storage/Apply/Keep.antt =====
-- `apply_command` and `apply_op` of src/storage.rs, on the mirror of Storage/Mirror.
use sepp.Prelude.{◌≡◌, false}
use sepp.Prelude.Int.{ℤ}
use sepp.Prelude.Maintains.{Maintains, is_fatal, maintains_rules}
use sepp.Proto.{Prost}
use sepp.Fjall.{Fjall}
use sepp.Op.{
  Op, stamp, enqueue, enqueue_atomic, reserve, ack, nack, extend, drain_dead_letters, close_queue,
  open_queue, requeue_dead_letters, dead_letter_jobs, delete_dead_letters, purge_queue_chunk, sweep,
  audit_append,
}
use sepp.Storage.{State}
use sepp.Storage.Mirror.{Mirrors}
use sepp.Storage.Apply.{apply_op, apply_command}
use sepp.Storage.Lease.Keep.{apply_ack-Mirrors, apply_nack-Mirrors, apply_extend-Mirrors}
use sepp.Storage.Enqueue.Keep.{apply_enqueue-Mirrors, apply_enqueue_atomic-Mirrors}
use sepp.Storage.Reserve.Keep.{apply_reserve-Mirrors}
use sepp.Storage.Admin.Keep.{
  apply_drain-Mirrors, apply_requeue_dead_letters-Mirrors, apply_dead_letter_jobs-Mirrors,
  apply_delete_dead_letters-Mirrors,
}
use sepp.Storage.Queue.Keep.{
  apply_close_queue-Mirrors, apply_open_queue-Mirrors, apply_purge_queue_chunk-Mirrors,
  apply_audit_append-Mirrors,
}
use sepp.Storage.Sweep.Keep.{apply_sweep-Mirrors}

ruleset op_rules = (
  maintains_rules, apply_ack-Mirrors, apply_nack-Mirrors, apply_extend-Mirrors,
  apply_enqueue-Mirrors, apply_enqueue_atomic-Mirrors, apply_reserve-Mirrors, apply_drain-Mirrors,
  apply_requeue_dead_letters-Mirrors, apply_dead_letter_jobs-Mirrors,
  apply_delete_dead_letters-Mirrors, apply_close_queue-Mirrors, apply_open_queue-Mirrors,
  apply_purge_queue_chunk-Mirrors, apply_audit_append-Mirrors, apply_sweep-Mirrors,
)

module _ ⦃db : Fjall⦄ ⦃prost : Prost⦄ where
  apply_op-Maintains : (op : Op) → Maintains Mirrors (apply_op op)
  unfolding apply_op
  apply_op-Maintains (enqueue jobs now) = search op_rules
  apply_op-Maintains (enqueue_atomic jobs now) = search op_rules
  apply_op-Maintains (reserve queues lease_ms max_jobs now) = search op_rules
  apply_op-Maintains (ack id attempt) = search op_rules
  apply_op-Maintains (nack req delay dead now) = search op_rules
  apply_op-Maintains (extend req lease_ms now) = search op_rules
  apply_op-Maintains (drain_dead_letters q max scan_cap) = search op_rules
  apply_op-Maintains (close_queue q now grace) = search op_rules
  apply_op-Maintains (open_queue q) = search op_rules
  apply_op-Maintains (requeue_dead_letters q keys now) = search op_rules
  apply_op-Maintains (dead_letter_jobs q st keys reason dead now) = search op_rules
  apply_op-Maintains (delete_dead_letters q keys) = search op_rules
  apply_op-Maintains (purge_queue_chunk q max) = search op_rules
  apply_op-Maintains (sweep now budget cutoff dead) = search op_rules
  apply_op-Maintains (audit_append r now) = search op_rules

  -- If the indexes and the keyspaces are alike before an operation, and it does not end in an internal
  -- error, they are alike after it, at whatever time it is stamped with: each index has exactly the
  -- keys of its keyspace, in order, the ready counts are those of the keys, and the close tombstones are the rows
  -- of `meta`.
  pub apply_command-Mirrors :
      (op : Op) (now : ℤ) (s : State)
      → Mirrors s
      → is_fatal (apply_command op now s).0 ≡ false
      → Mirrors (apply_command op now s).1
  unfolding apply_command
  apply_command-Mirrors op now = (apply_op-Maintains (stamp op now)).at
