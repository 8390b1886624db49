-- ===== src/Handle.antt =====
-- src/storage.rs: the methods of the `Storage` handle, which build an operation, send it to the
-- committer and unwrap its outcome. A call is modelled from the moment at which the committer takes
-- the operation off the channel, with the clock it then reads.
pub mod Matched
use sepp.Prelude.{
  ℕ, suc, ◌+◌, Bool, List, [], ◌∷◌, Option, none, some, min, max, and_then, if◌then◌else◌,
}
use sepp.Prelude.Int.{ℤ, pos}
use sepp.Prelude.Result.{Result, ok, err, Exec, pure, raise, lift, ◌>>=◌, internal_status}
use sepp.Std.Bytes.{Bytes, Text}
use sepp.Proto.{
  Prost, EnqueueRequest, NackRequest, ExtendRequest, RetryStrategy, AuditRecord, DeadLetterRecord,
  Job,
}
use sepp.Fjall.{Fjall}
use sepp.Queues.{QueueRegistry}
use sepp.Retry.{JitterHash, resolve_retry_delay, resolve_extend_lease}
use sepp.Op
use sepp.Op.{Op, PreparedJob, PeekState, resolve}
use sepp.Storage.{State, Tx}
use sepp.Storage.Lease.{AckOutcome, NackOutcome, ExtendOutcome}
use sepp.Storage.Enqueue.{EnqueueResult, AtomicEnqueueOutcome}
use sepp.Storage.Admin.{Outcome}
use sepp.Storage.Queue.{PurgeOutcome}
use sepp.Storage.Apply.{OpOutcome, apply_command}

-- The settings of the handle. `live` is what the shared registry holds at the call.
pub record Handle : Type 0 where
  pub drain_scan_cap : ℕ
  pub dead_letter_enabled : Bool
  pub live : QueueRegistry
  pub boot_registry : QueueRegistry

pub record AuditEntry : Type 0 where
  pub seq : ℕ
  pub ts_ms : ℤ
  pub entry : AuditRecord

-- `PreparedJob::new`: the identifier is drawn by `Uuid::new_v4`.
unfoldable pub new_prepared_job :
    Text → EnqueueRequest → QueueRegistry → QueueRegistry → PreparedJob
new_prepared_job id req live boot = record { id = id; req = req; limits = resolve req live boot }

-- `fresh n` is the identifier drawn for the job at position n.
unfoldable pub prepare_jobs : Handle → (ℕ → Text) → ℕ → List EnqueueRequest → List PreparedJob
prepare_jobs h fresh n [] = []
prepare_jobs h fresh n (req ∷ reqs) =
    new_prepared_job (fresh n) req h.live h.boot_registry ∷ prepare_jobs h fresh (suc n) reqs

unfoldable pub close_grace_ms : ℤ
close_grace_ms = pos 30000

unfoldable pub purge_chunk_max : ℕ
purge_chunk_max = 1000

-- What each method takes of an outcome.
abbrev pub as_enqueue : OpOutcome → Option (List EnqueueResult)
as_enqueue (OpOutcome.enqueue_outcome a) = some a
as_enqueue _ = none

abbrev pub as_enqueue_atomic : OpOutcome → Option AtomicEnqueueOutcome
as_enqueue_atomic (OpOutcome.enqueue_atomic_outcome a) = some a
as_enqueue_atomic _ = none

abbrev pub as_reserve : OpOutcome → Option (List Job)
as_reserve (OpOutcome.reserve_outcome a) = some a
as_reserve _ = none

abbrev pub as_ack : OpOutcome → Option AckOutcome
as_ack (OpOutcome.ack_outcome a) = some a
as_ack _ = none

abbrev pub as_nack : OpOutcome → Option NackOutcome
as_nack (OpOutcome.nack_outcome a) = some a
as_nack _ = none

abbrev pub as_extend : OpOutcome → Option ExtendOutcome
as_extend (OpOutcome.extend_outcome a) = some a
as_extend _ = none

abbrev pub as_drain : OpOutcome → Option (List DeadLetterRecord)
as_drain (OpOutcome.drain_outcome a) = some a
as_drain _ = none

abbrev pub as_close : OpOutcome → Option (Unit {0})
as_close OpOutcome.close_outcome = some tt
as_close _ = none

abbrev pub as_open : OpOutcome → Option (Unit {0})
as_open OpOutcome.open_outcome = some tt
as_open _ = none

abbrev pub as_requeue : OpOutcome → Option Outcome
as_requeue (OpOutcome.requeue_outcome a) = some a
as_requeue _ = none

abbrev pub as_dead_letter : OpOutcome → Option Outcome
as_dead_letter (OpOutcome.dead_letter_outcome a) = some a
as_dead_letter _ = none

abbrev pub as_delete : OpOutcome → Option Outcome
as_delete (OpOutcome.delete_outcome a) = some a
as_delete _ = none

abbrev pub as_purge : OpOutcome → Option PurgeOutcome
as_purge (OpOutcome.purge_outcome a) = some a
as_purge _ = none

abbrev pub as_audit : AuditRecord → OpOutcome → Option AuditEntry
as_audit r (OpOutcome.audit_outcome seq ts_ms) =
    some (record { seq = seq; ts_ms = ts_ms; entry = r })
as_audit r _ = none

module _ ⦃db : Fjall⦄ ⦃prost : Prost⦄ where
  -- `mismatched_outcome` of an outcome of another kind.
  abbrev pub unwrapped : {A : Type 0} → Option A → Exec State A
  unwrapped none = raise (internal_status "storage returned a mismatched op outcome")
  unwrapped (some a) = pure a

  unfoldable pub send_op : {A : Type 0} → (OpOutcome → Option A) → Op → ℤ → Exec State A
  send_op as' op now = apply_command op now >>= λ outcome. unwrapped (as' outcome)

  unfoldable pub enqueue :
      Handle → (ℕ → Text) → List EnqueueRequest → ℤ → Exec State (List EnqueueResult)
  enqueue h fresh jobs = send_op as_enqueue (Op.enqueue (prepare_jobs h fresh 0 jobs) (pos 0))

  unfoldable pub enqueue_atomic :
      Handle → (ℕ → Text) → List EnqueueRequest → ℤ → Exec State AtomicEnqueueOutcome
  enqueue_atomic h fresh jobs =
      send_op as_enqueue_atomic (Op.enqueue_atomic (prepare_jobs h fresh 0 jobs) (pos 0))

  unfoldable pub reserve_once : List Text → ℕ → ℕ → ℤ → Exec State (List Job)
  reserve_once queues lease_ms max_jobs =
      send_op as_reserve (Op.reserve queues lease_ms max_jobs (pos 0))

  unfoldable pub ack : Text → ℕ → ℤ → Exec State AckOutcome
  ack job_id attempt = send_op as_ack (Op.ack job_id attempt)

  -- The registry and the snapshot are those of the lookup before the operation is sent.
  unfoldable pub nack_delay :
      ⦃j : JitterHash⦄ → Handle → QueueRegistry → Tx → NackRequest → Result ℕ
  nack_delay h after snap req = elim (and_then req.retry (λ r. r.strategy)) [
    | some RetryStrategy.dead_letter ↦ ok 0
    | _ ↦ resolve_retry_delay h.live after snap req
  ]

  unfoldable pub nack :
      ⦃j : JitterHash⦄ → Handle → QueueRegistry → Tx → NackRequest → ℤ → Exec State NackOutcome
  nack h after snap req now = do
    retry_delay_ms ← lift (nack_delay h after snap req)
    send_op as_nack (Op.nack req retry_delay_ms h.dead_letter_enabled (pos 0)) now

  unfoldable pub extend : Handle → Tx → ExtendRequest → ℤ → Exec State ExtendOutcome
  extend h snap req now = do
    lease_ms ← lift (resolve_extend_lease h.live snap req)
    send_op as_extend (Op.extend req lease_ms (pos 0)) now

  unfoldable pub drain_dead_letters :
      Handle → Option Text → ℕ → ℤ → Exec State (List DeadLetterRecord)
  drain_dead_letters h queue max =
      send_op as_drain (Op.drain_dead_letters queue max h.drain_scan_cap)

  unfoldable pub close_queue : Text → ℤ → Exec State Unit
  close_queue queue = send_op as_close (Op.close_queue queue (pos 0) close_grace_ms)

  unfoldable pub open_queue : Text → ℤ → Exec State Unit
  open_queue queue = send_op as_open (Op.open_queue queue)

  unfoldable pub requeue_dead_letters : Text → List Bytes → ℤ → Exec State Outcome
  requeue_dead_letters queue keys = send_op as_requeue (Op.requeue_dead_letters queue keys (pos 0))

  unfoldable pub dead_letter_jobs :
      Handle → Text → PeekState → List Bytes → Option Text → ℤ → Exec State Outcome
  dead_letter_jobs h queue state keys reason =
      send_op as_dead_letter
        (Op.dead_letter_jobs queue state keys reason h.dead_letter_enabled (pos 0))

  unfoldable pub delete_dead_letters : Text → List Bytes → ℤ → Exec State Outcome
  delete_dead_letters queue keys = send_op as_delete (Op.delete_dead_letters queue keys)

  -- `max.clamp(1, PURGE_CHUNK_MAX)`.
  unfoldable pub purge_queue_chunk : Text → ℕ → ℤ → Exec State PurgeOutcome
  purge_queue_chunk queue n =
      send_op as_purge (Op.purge_queue_chunk queue (min (max n 1) purge_chunk_max))

  unfoldable pub append_audit : AuditRecord → ℤ → Exec State AuditEntry
  append_audit r = send_op (as_audit r) (Op.audit_append r (pos 0))
