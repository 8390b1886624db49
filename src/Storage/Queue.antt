-- ===== src/Storage/Queue.antt =====
-- `apply_close_queue`, `apply_open_queue`, `apply_purge_queue_chunk` and `apply_audit_append` of
-- src/storage.rs.
pub mod Keep
use sepp.Prelude.{
  ℕ, zero, suc, ◌+◌, ◌-◌, ◌^◌, Bool, true, false, ◌||◌, List, [], ◌∷◌, Option, none, some,
  if◌then◌else◌, ltb, ◌==◌, length, is_some,
}
use sepp.Prelude.Int.{ℤ, saturating_add}
use sepp.Prelude.Result.{
  Exec, pure, raise, gets, modify, lift, ok_or, ◌>>=◌, ◌>>◌, failed_precondition_status,
  internal_status,
}
use sepp.Std.Bytes.{Bytes, Text, ◌=ᵇ◌}
use sepp.Std.BigEndian.{u64_to_be, i64_to_be, from_be}
use sepp.Std.BTreeMap.{BTreeMap}
use sepp.Std.HashMap
use sepp.Std.HashMap.{bytes_eq}
use sepp.Proto.{Prost, AuditRecord}
use sepp.Fjall.{Fjall}
use sepp.Index.{Indexes, queue_count}
use sepp.Keys.{
  ReadyKey, decode_ready, queue_prefix, closing_key, timer_job_id, dedup_timer_key, audit_seq_key,
  encode_audit_value,
}
use sepp.Storage.{
  State, Space, Timer, timer, tx_get, tx_insert, tx_remove, pop_ready, unindex_timer, note,
  mark_dirty, queue_purged,
}

pub record PurgeOutcome : Type 0 where
  pub purged : ℕ
  pub remaining : Bool

-- The first `n` keys of the queue, in order.
unfoldable pub owned_keys : Text → ℕ → BTreeMap Text → List Bytes
owned_keys queue zero entries = []
owned_keys queue (suc n) [] = []
owned_keys queue (suc n) ((key, q) ∷ rest) = elim (q =ᵇ queue) [
  | true ↦ key ∷ owned_keys queue n rest
  | false ↦ owned_keys queue (suc n) rest
]

unfoldable pub has_entries : Indexes → Text → Bool
has_entries ix queue =
    is_some (HashMap.get ix.ready.by_queue queue)
    || is_some (HashMap.get ix.scheduled.by_queue queue)
    || is_some (HashMap.get ix.dead_letter.by_queue queue)
    || is_some (HashMap.get ix.dedup_timers.by_queue queue)

module _ ⦃db : Fjall⦄ ⦃prost : Prost⦄ where
  unfoldable pub apply_close_queue : Text → ℤ → ℤ → Exec State Unit
  apply_close_queue queue now grace_ms = do
    let deadline = saturating_add now grace_ms
    tx_insert Space.meta (closing_key queue) (i64_to_be deadline)
    modify (λ s. record s {
      indexes = record s.indexes { closing = HashMap.insert s.indexes.closing queue deadline };
    })
    note mark_dirty

  reopen : Text → Option ℤ → Exec State Unit
  reopen queue none = pure tt
  reopen queue (some deadline) = do
    modify (λ s. record s {
      indexes = record s.indexes { closing = HashMap.remove s.indexes.closing queue };
    })
    tx_remove Space.meta (closing_key queue)
    note mark_dirty

  unfoldable pub apply_open_queue : Text → Exec State Unit
  unfolding reopen
  apply_open_queue queue = do
    found ← gets (λ s. HashMap.get s.indexes.closing queue)
    reopen queue found

  -- The job that a purged key names goes with its payload.
  remove_job : Option Bytes → Exec State Unit
  remove_job none = pure tt
  remove_job (some job_id) = do tx_remove Space.jobs job_id; tx_remove Space.payloads job_id

  id_of_ready : Option ReadyKey → Option Bytes
  id_of_ready none = none
  id_of_ready (some rk) = some rk.job_id

  -- `while purged < max`: the rounds left are `max - purged`, and the result is what is left.
  unfoldable pub purge_ready : ℕ → Bytes → Exec State ℕ
  unfolding remove_job id_of_ready
  purge_ready zero prefix = pure zero
  purge_ready (suc left) prefix = do
    popped ← pop_ready prefix
    elim popped [
      | none ↦ pure (suc left)
      | some (ready_k, _) ↦ do
        remove_job (id_of_ready (decode_ready ready_k))
        tx_remove Space.ready ready_k
        note mark_dirty
        purge_ready left prefix
    ]

  -- The rows of one timer index: what each of the keys leads to, then the row and its index entry.
  unfoldable pub purge_keys :
      (Bytes → Exec State Unit) → Space → Timer → List Bytes → Exec State Unit
  purge_keys follow sp t [] = pure tt
  purge_keys follow sp t (key ∷ keys) = do
    follow key
    tx_remove sp key
    unindex_timer t key
    note mark_dirty
    purge_keys follow sp t keys

  unfoldable pub purge_timers : (Bytes → Exec State Unit) → Space → Timer → Text → ℕ → Exec State ℕ
  purge_timers follow sp t queue left = do
    chosen ← gets (λ s. owned_keys queue left (timer s.indexes t).keys)
    purge_keys follow sp t chosen
    pure (left - length chosen)

  remove_dedup : Option Bytes → Exec State Unit
  remove_dedup none = pure tt
  remove_dedup (some dedup_k) = tx_remove Space.dedup dedup_k

  unfoldable pub purge_all : Text → ℕ → Exec State PurgeOutcome
  unfolding remove_job remove_dedup
  purge_all queue max = do
    left₁ ← purge_ready max (queue_prefix queue)
    left₂ ←
        purge_timers (λ k. remove_job (timer_job_id k)) Space.scheduled Timer.scheduled queue left₁
    left₃ ← purge_timers (λ _. pure tt) Space.dead_letter Timer.dead_letter queue left₂
    left₄ ←
        purge_timers (λ k. remove_dedup (dedup_timer_key k)) Space.dedup_timers Timer.dedup_timers
          queue left₃
    remaining ← gets (λ s. has_entries s.indexes queue)
    if remaining then pure tt else note (queue_purged queue)
    pure (record { purged = max - left₄; remaining = remaining })

  unfoldable pub apply_purge_queue_chunk : Text → ℕ → Exec State PurgeOutcome
  apply_purge_queue_chunk queue max = do
    leased ← gets (λ s. queue_count s.indexes.leases.by_queue queue)
    if ltb 0 leased
        then raise (failed_precondition_status "queue has in-flight jobs")
        else purge_all queue max

  -- `u64::from_be_bytes(b).checked_add(1)` of exactly eight bytes; the first number is 1.
  next_seq : Option Bytes → Option ℕ
  next_seq none = some 1
  next_seq (some v) =
      if length v == 8
      then (if ltb (from_be 0 v + 1) (2 ^ 64) then some (from_be 0 v + 1) else none)
      else none

  unfoldable pub apply_audit_append : AuditRecord → ℤ → Exec State ℕ
  unfolding next_seq
  apply_audit_append r now_ms = do
    found ← tx_get Space.meta audit_seq_key
    seq ← lift (ok_or (internal_status "corrupt audit_seq row") (next_seq found))
    tx_insert Space.meta audit_seq_key (u64_to_be seq)
    tx_insert Space.audit (u64_to_be seq) (encode_audit_value now_ms r)
    note mark_dirty
    pure seq
