-- ===== src/Storage.antt =====
-- src/storage.rs: what the committer's apply functions read and write, and the single calls that
-- they are made of. Each apply function is an action on the state: it returns a result or a status,
-- with the state that it leaves. The functions stand in the modules below.
pub mod DeadLetter
pub mod Lease
pub mod Enqueue
pub mod Reserve
pub mod Admin
pub mod Queue
pub mod Sweep
pub mod Apply
pub mod Mirror
pub mod Atomic
use sepp.Prelude.{
  ℕ, ◌+◌, ◌≡◌, Bool, true, false, List, [], ◌∷◌, Option, none, some, ◌++◌, ◌==◌, String, unwrap_or,
  if◌then◌else◌, length, leb,
}
use sepp.Prelude
use Prim.Native.String
use sepp.Prelude.Int.{ℤ}
use sepp.Prelude.Result.{Status, Result, ok, err, Exec, internal_status, modify}
use sepp.Std.Bytes.{Bytes, Text, ◌=ᵇ◌}
use sepp.Std.BigEndian.{from_be}
use sepp.Std.HashMap
use sepp.Std.HashMap.{HashMap, bytes_eq, labelled_eq}
use sepp.Fjall.{Fjall}
use sepp.Index.{
  Indexes, TimerIndex, bump_queue, ready_insert, ready_remove, pop_front, timer_insert,
  timer_remove, pop_due,
}

-- `CycleMetrics` of src/metrics.rs.
pub record CycleMetrics : Type 0 where
  pub enqueued_by_queue : HashMap Text ℕ
  pub reserved_by_queue : HashMap Text ℕ
  pub acked_by_queue : HashMap Text ℕ
  pub nacked_by_queue : HashMap Text ℕ
  pub dead_lettered_by_queue_cause : HashMap (Text × String) ℕ
  pub deduplicated_by_queue : HashMap Text ℕ
  pub sweep_promotions_by_queue : HashMap Text ℕ
  pub sweep_lease_redeliveries_by_queue : HashMap Text ℕ
  pub sweep_dedup_expirations_by_queue : HashMap Text ℕ
  pub dead_letters_expired : ℕ
  pub dead_letters_drained : ℕ
  pub purged_queues : List Text

-- `new_ready` is a set, as a list with no queue twice.
pub record Cycle : Type 0 where
  pub dirty : Bool
  pub new_ready : List Text
  pub metrics : Option CycleMetrics

abbrev on_metrics : (CycleMetrics → CycleMetrics) → Cycle → Cycle
on_metrics f c = record c { metrics = elim c.metrics [ none ↦ none | some m ↦ some (f m) ] }

-- The recorder methods of `Cycle`; without metrics each of them does nothing.
unfoldable pub enqueued : Text → Cycle → Cycle
enqueued q = on_metrics λ m. record m { enqueued_by_queue = bump_queue m.enqueued_by_queue q }

unfoldable pub reserved : Text → Cycle → Cycle
reserved q = on_metrics λ m. record m { reserved_by_queue = bump_queue m.reserved_by_queue q }

unfoldable pub acked : Text → Cycle → Cycle
acked q = on_metrics λ m. record m { acked_by_queue = bump_queue m.acked_by_queue q }

unfoldable pub nacked : Text → Cycle → Cycle
nacked q = on_metrics λ m. record m { nacked_by_queue = bump_queue m.nacked_by_queue q }

unfoldable pub deduplicated : Text → Cycle → Cycle
deduplicated q =
    on_metrics λ m. record m { deduplicated_by_queue = bump_queue m.deduplicated_by_queue q }

unfoldable pub queue_purged : Text → Cycle → Cycle
queue_purged q = on_metrics λ m. record m { purged_queues = m.purged_queues ++ q ∷ [] }

unfoldable pub dead_lettered : Text → String → Cycle → Cycle
dead_lettered q cause = on_metrics λ m. record m {
  dead_lettered_by_queue_cause =
      HashMap.insert m.dead_lettered_by_queue_cause (q, cause)
        (unwrap_or (HashMap.get m.dead_lettered_by_queue_cause (q, cause)) 0 + 1);
}

unfoldable pub sweep_promotion : Text → Cycle → Cycle
sweep_promotion q =
    on_metrics
      λ m. record m { sweep_promotions_by_queue = bump_queue m.sweep_promotions_by_queue q }

unfoldable pub sweep_lease_redelivery : Text → Cycle → Cycle
sweep_lease_redelivery q = on_metrics λ m. record m {
  sweep_lease_redeliveries_by_queue = bump_queue m.sweep_lease_redeliveries_by_queue q;
}

unfoldable pub sweep_dedup_expiration : Text → Cycle → Cycle
sweep_dedup_expiration q = on_metrics λ m. record m {
  sweep_dedup_expirations_by_queue = bump_queue m.sweep_dedup_expirations_by_queue q;
}

unfoldable pub dead_letter_expired : ℕ → Cycle → Cycle
dead_letter_expired n =
    on_metrics λ m. record m { dead_letters_expired = m.dead_letters_expired + n }

unfoldable pub dead_letter_drained : ℕ → Cycle → Cycle
dead_letter_drained n =
    on_metrics λ m. record m { dead_letters_drained = m.dead_letters_drained + n }

-- `value.first_chunk::<4>().map(u32::from_be_bytes)`, and the conversion of a whole slice.
unfoldable pub attempt_of_chunk : Bytes → Option ℕ
attempt_of_chunk v = if leb 4 (length v) then some (from_be 0 (Prelude.take 4 v)) else none

unfoldable pub attempt_of_slice : Bytes → Option ℕ
attempt_of_slice v = if length v == 4 then some (from_be 0 v) else none

-- `HashSet::insert`.
unfoldable pub set_insert : List Text → Text → List Text
set_insert [] q = q ∷ []
set_insert (p ∷ ps) q = if p =ᵇ q then p ∷ ps else p ∷ set_insert ps q

-- The keyspaces of `Store`, and the timer indexes of `Indexes`.
pub data Space : Type 0 where
  jobs payloads inflight ready dedup dedup_timers scheduled leases dead_letter meta audit : Space

pub data Timer : Type 0 where
  scheduled leases dedup_timers dead_letter : Timer

module _ ⦃db : Fjall⦄ where
  pub record Tx : Type 0 where
    pub jobs : db.Keyspace
    pub payloads : db.Keyspace
    pub inflight : db.Keyspace
    pub ready : db.Keyspace
    pub dedup : db.Keyspace
    pub dedup_timers : db.Keyspace
    pub scheduled : db.Keyspace
    pub leases : db.Keyspace
    pub dead_letter : db.Keyspace
    pub meta : db.Keyspace
    pub audit : db.Keyspace

  pub record State : Type 0 where
    pub tx : Tx
    pub indexes : Indexes
    pub cycle : Cycle

  abbrev pub space : Tx → Space → db.Keyspace
  space tx Space.jobs = tx.jobs
  space tx Space.payloads = tx.payloads
  space tx Space.inflight = tx.inflight
  space tx Space.ready = tx.ready
  space tx Space.dedup = tx.dedup
  space tx Space.dedup_timers = tx.dedup_timers
  space tx Space.scheduled = tx.scheduled
  space tx Space.leases = tx.leases
  space tx Space.dead_letter = tx.dead_letter
  space tx Space.meta = tx.meta
  space tx Space.audit = tx.audit

  abbrev pub on_space : Tx → Space → (db.Keyspace → db.Keyspace) → Tx
  on_space tx Space.jobs f = record tx { jobs = f tx.jobs }
  on_space tx Space.payloads f = record tx { payloads = f tx.payloads }
  on_space tx Space.inflight f = record tx { inflight = f tx.inflight }
  on_space tx Space.ready f = record tx { ready = f tx.ready }
  on_space tx Space.dedup f = record tx { dedup = f tx.dedup }
  on_space tx Space.dedup_timers f = record tx { dedup_timers = f tx.dedup_timers }
  on_space tx Space.scheduled f = record tx { scheduled = f tx.scheduled }
  on_space tx Space.leases f = record tx { leases = f tx.leases }
  on_space tx Space.dead_letter f = record tx { dead_letter = f tx.dead_letter }
  on_space tx Space.meta f = record tx { meta = f tx.meta }
  on_space tx Space.audit f = record tx { audit = f tx.audit }

  abbrev pub timer : Indexes → Timer → TimerIndex
  timer ix Timer.scheduled = ix.scheduled
  timer ix Timer.leases = ix.leases
  timer ix Timer.dedup_timers = ix.dedup_timers
  timer ix Timer.dead_letter = ix.dead_letter

  abbrev pub with_timer : Indexes → Timer → TimerIndex → Indexes
  with_timer ix Timer.scheduled t = record ix { scheduled = t }
  with_timer ix Timer.leases t = record ix { leases = t }
  with_timer ix Timer.dedup_timers t = record ix { dedup_timers = t }
  with_timer ix Timer.dead_letter t = record ix { dead_letter = t }

  unfoldable pub stg_err : String → Status
  stg_err e = internal_status (String.◌++◌ "storage error: " e)

  abbrev fetched : Option String → Option Bytes → State → Result (Option Bytes) × State
  unfolding stg_err
  fetched none found s = (ok found, s)
  fetched (some e) found s = (err (stg_err e), s)

  -- `tx.get(keyspace, key).map_err(stg_err)?`.
  unfoldable pub tx_get : Space → Bytes → Exec State (Option Bytes)
  unfolding stg_err
  tx_get sp key s = fetched (db.read_error (space s.tx sp) key) (db.get (space s.tx sp) key) s

  unfoldable pub tx_insert : Space → Bytes → Bytes → Exec State Unit
  tx_insert sp key value =
      modify λ s. record s { tx = on_space s.tx sp (λ ks. db.insert ks key value) }

  unfoldable pub tx_remove : Space → Bytes → Exec State Unit
  tx_remove sp key = modify λ s. record s { tx = on_space s.tx sp (λ ks. db.remove ks key) }

  -- `indexes.ready.insert`, `.remove` and `.pop_front`.
  unfoldable pub index_ready : Bytes → ℕ → Exec State Unit
  index_ready key attempt = modify λ s. record s {
    indexes = record s.indexes { ready = ready_insert s.indexes.ready key attempt };
  }

  unfoldable pub unindex_ready : Bytes → Exec State Unit
  unindex_ready key =
      modify λ s. record s {
        indexes = record s.indexes { ready = (ready_remove s.indexes.ready key).1 };
      }

  unfoldable pub pop_ready : Bytes → Exec State (Option (Bytes × ℕ))
  pop_ready prefix s =
      let (found, ix) = pop_front s.indexes.ready prefix in
      (ok found, record s { indexes = record s.indexes { ready = ix } })

  -- `insert`, `remove` and `pop_due` of a timer index.
  unfoldable pub index_timer : Timer → Bytes → Text → Exec State Unit
  index_timer t key queue = modify λ s. record s {
    indexes = with_timer s.indexes t (timer_insert (timer s.indexes t) key queue);
  }

  unfoldable pub unindex_timer : Timer → Bytes → Exec State Unit
  unindex_timer t key =
      modify
        λ s. record s { indexes = with_timer s.indexes t (timer_remove (timer s.indexes t) key) }

  unfoldable pub pop_timer : Timer → ℤ → Exec State (Option (Bytes × Text))
  pop_timer t now s =
      let (found, ix) = pop_due (timer s.indexes t) now in
      (ok found, record s { indexes = with_timer s.indexes t ix })

  -- A method of `Cycle`, `cycle.dirty = true` and `cycle.new_ready.insert(queue)`.
  unfoldable pub note : (Cycle → Cycle) → Exec State Unit
  note f = modify λ s. record s { cycle = f s.cycle }

  abbrev pub mark_dirty : Cycle → Cycle
  mark_dirty c = record c { dirty = true }

  abbrev pub add_ready : Text → Cycle → Cycle
  add_ready queue c = record c { new_ready = set_insert c.new_ready queue }
