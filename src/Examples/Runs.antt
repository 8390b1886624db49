-- ===== src/Examples/Runs.antt =====
-- The theorems on the apply functions, on small concrete states.
use sepp.Prelude.{arith}
use sepp.Keys.{queue_prefix}
use sepp.Storage.Reserve.{reserve_queue}
use sepp.Storage.Reserve.Fuel.{reserve_queue-fuel}
use sepp.Std.BTreeMap.Depth.{depth}
use sepp.Prelude.{ℕ, ◌≡◌, refl, Bool, true, false, List, [], ◌∷◌, Option, none, some, length, ◌≤◌}
use sepp.Prelude.Int.{ℤ, pos}
use sepp.Prelude.Maintains.{is_fatal}
use sepp.Prelude.Result.{◌>>=◌, ok, err}
use sepp.Std.Bytes.{Bytes, Text}
use sepp.Index.{Indexes, ReadyIndex, TimerIndex}
use sepp.Op.{PreparedJob, enqueue, stamp}
use sepp.Prelude.{◌*◌}
use sepp.Prelude.Atomic.{is_ok}
use sepp.Prelude.Result.{not_found_status}
use sepp.Proto.{Job, NackRequest, ExtendRequest}
use sepp.Keys.{encode_ready, encode_timer}
use sepp.Storage.Lease.{AckOutcome, apply_nack, apply_extend}
use sepp.Storage.Lease.Fencing.{HasLease, leased-HasLease, apply_ack-once}
use sepp.Storage.Lease.Atomic.{apply_ack-atomic, apply_nack-atomic, apply_extend-atomic}
use sepp.Storage.Reserve.{apply_reserve}
use sepp.Storage.Reserve.Bounds.{apply_reserve-max_jobs}
use sepp.Storage.Sweep.{apply_sweep}
use sepp.Storage.Sweep.Bounds.{apply_sweep-budget}
use sepp.Std.HashMap
use sepp.Std.BTreeMap
use sepp.Storage.Enqueue.{
  apply_enqueue, collect, enqueue_one, is_closing, check_dedup, check_key, dedup_decision, is_full,
  insert_job,
}
use sepp.Index.{live_depth}
use sepp.Storage.{tx_get, tx_insert, index_ready, index_timer, note}
use sepp.Storage.{State, Cycle, Tx}
use sepp.Storage.Mirror.{Mirrors, TimerMirror}
use sepp.Keys.{Inflight, encode_inflight, decode_inflight}
use sepp.Storage.Lease.{leased, apply_ack, ack_leased}
use sepp.Storage.Apply.{apply_op, apply_command}
use sepp.Storage.Apply.Keep.{apply_command-Mirrors}
use sepp.Prelude.{◌++◌}
use sepp.Op.{PeekState}
use sepp.Peek.{peek_keys}
use sepp.Peek.Covers.{keys_from, keys_left, peek_keys-Covers}
use sepp.Examples.Codec.{memory, codec}

abbrev no_timers : TimerIndex
no_timers = record { keys = []; by_queue = [] }

abbrev pub no_indexes : Indexes
no_indexes = record {
  ready = record { keys = []; by_queue = [] };
  scheduled = no_timers;
  leases = no_timers;
  dedup_timers = no_timers;
  dead_letter = no_timers;
  closing = [];
}

abbrev no_cycle : Cycle
no_cycle = record { dirty = false; new_ready = []; metrics = none }

abbrev no_rows : Tx
no_rows = record {
  jobs = [];
  payloads = [];
  inflight = [];
  ready = [];
  dedup = [];
  dedup_timers = [];
  scheduled = [];
  leases = [];
  dead_letter = [];
  meta = [];
  audit = [];
}

abbrev pub empty : State
empty = record { tx = no_rows; indexes = no_indexes; cycle = no_cycle }

-- A job `j` for the queue `q`.
abbrev pub queue_q : Text
queue_q = 113 ∷ []

abbrev pub job_j : PreparedJob
job_j = record {
  id = 106 ∷ [];
  req = record {
    queue = queue_q;
    job_type = [];
    payload = none;
    idempotency_key = some (107 ∷ []);
    priority = none;
    max_attempts = none;
    trace_context = none;
    custom = [];
    scheduled_at = none;
  };
  limits = record {
    priority = 5;
    max_attempts = 3;
    dedup_window_ms = pos 1000;
    max_queue_depth = some 10;
  };
}

empty-Mirrors : Mirrors empty
unfolding HashMap.get BTreeMap.get depth
empty-Mirrors =
    let timers : TimerMirror [] no_timers = record { sorted = tt; keys = λ k. refl } in
    (
      record { counted = record { sorted = tt; counts = λ q. refl }; keys = λ k. refl },
      timers,
      timers,
      timers,
      timers,
      record { distinct = tt; rows = λ q. refl },
    )

enqueue_ok : is_fatal (apply_command (enqueue (job_j ∷ []) (pos 0)) (pos 7) empty).0 ≡ false
unfolding apply_command stamp apply_op ◌>>=◌ apply_enqueue collect enqueue_one is_closing
    HashMap.get check_dedup check_key tx_get dedup_decision BTreeMap.get is_full live_depth
    insert_job tx_insert index_ready index_timer note
enqueue_ok = refl

apply_command-Mirrors_example :
    Mirrors (apply_command (enqueue (job_j ∷ []) (pos 0)) (pos 7) empty).1
apply_command-Mirrors_example =
    apply_command-Mirrors (enqueue (job_j ∷ []) (pos 0)) (pos 7) empty empty-Mirrors enqueue_ok

-- A second job of the queue, without an idempotency key.
abbrev job_k : PreparedJob
job_k = record job_j { id = 107 ∷ []; req = record job_j.req { idempotency_key = none } }

abbrev two_ready : State
two_ready = (apply_command (enqueue (job_j ∷ job_k ∷ []) (pos 0)) (pos 7) empty).1

two_ok : is_fatal (apply_command (enqueue (job_j ∷ job_k ∷ []) (pos 0)) (pos 7) empty).0 ≡ false
unfolding apply_command stamp apply_op ◌>>=◌ apply_enqueue collect enqueue_one is_closing
    HashMap.get check_dedup check_key tx_get dedup_decision BTreeMap.get is_full live_depth
    insert_job tx_insert index_ready index_timer note sepp.Index.ready_insert sepp.Keys.read_queue
    sepp.Keys.Reader.prefixed_str sepp.Keys.Reader.◌>>=◌ sepp.Keys.Reader.prefixed
    sepp.Keys.Reader.take encode_ready sepp.Keys.Writer.prefixed sepp.Std.BigEndian.to_be
    sepp.Keys.Writer.u8 sepp.Keys.Writer.i64 sepp.Std.BigEndian.from_be sepp.Std.Utf8.from_utf8
    sepp.Index.bump_queue HashMap.insert sepp.Std.Bytes.◌=ᵇ◌ sepp.Std.Bytes.cmp
    sepp.Std.Utf8.is_utf8 sepp.Std.BigEndian.i64_bits sepp.Keys.Writer.u32 sepp.Keys.Reader.u32
    sepp.Keys.Reader.message
two_ok = refl

peek_keys-Covers_example :
    keys_from two_ready.indexes PeekState.ready queue_q none
    ≡ (peek_keys two_ready.indexes PeekState.ready queue_q none 1).keys
      ++ keys_left two_ready.indexes PeekState.ready queue_q
          (peek_keys two_ready.indexes PeekState.ready queue_q none 1).next_cursor
peek_keys-Covers_example = peek_keys-Covers two_ready PeekState.ready queue_q none 1 (
    apply_command-Mirrors (enqueue (job_j ∷ job_k ∷ []) (pos 0)) (pos 7) empty empty-Mirrors two_ok)

-- The job in flight, with its lease.
abbrev pub lease_j : Inflight
lease_j = record {
  attempt = 1;
  lease_expires_at = pos 100;
  enqueued_at = pos 7;
  priority = 5;
  max_attempts = 3;
  queue = queue_q;
  trace_context = none;
}

abbrev pub held : State
held = record {
  tx = record no_rows { inflight = (106 ∷ [], encode_inflight lease_j) ∷ [] };
  indexes = no_indexes;
  cycle = no_cycle;
}

lease_ok : (leased (106 ∷ []) 1 held).0 ≡ ok lease_j
unfolding sepp.Prelude.Result.◌>>=◌ sepp.Storage.tx_get sepp.Std.BTreeMap.get sepp.Std.Bytes.◌=ᵇ◌
    sepp.Std.Bytes.cmp sepp.Storage.Lease.leased sepp.Keys.decode_inflight sepp.Keys.Reader.◌>>=◌
    sepp.Keys.Reader.u32 sepp.Keys.Reader.take sepp.Keys.encode_inflight sepp.Keys.Writer.u32
    sepp.Std.BigEndian.to_be sepp.Keys.Writer.i64 sepp.Keys.Writer.prefixed sepp.Keys.Reader.i64
    sepp.Keys.Reader.prefixed_str sepp.Keys.Reader.prefixed sepp.Keys.Reader.message
    sepp.Std.BigEndian.from_be sepp.Std.BigEndian.i64_bits sepp.Std.BigEndian.i64_of_bits
    sepp.Std.Utf8.from_utf8 sepp.Std.Utf8.is_utf8
lease_ok = refl

leased-HasLease_example : HasLease (106 ∷ []) 1 held lease_j
leased-HasLease_example = leased-HasLease (106 ∷ []) 1 held lease_j lease_ok

abbrev acked_j : AckOutcome
acked_j = record { queue = queue_q; trace_context = none }

ack_ok : (apply_ack (106 ∷ []) 1 held).0 ≡ ok acked_j
unfolding sepp.Prelude.Result.◌>>=◌ sepp.Storage.tx_get sepp.Std.BTreeMap.get sepp.Std.Bytes.◌=ᵇ◌
    sepp.Std.Bytes.cmp sepp.Storage.Lease.leased sepp.Keys.decode_inflight sepp.Keys.Reader.◌>>=◌
    sepp.Keys.Reader.u32 sepp.Keys.Reader.take sepp.Keys.encode_inflight sepp.Keys.Writer.u32
    sepp.Std.BigEndian.to_be sepp.Keys.Writer.i64 sepp.Keys.Writer.prefixed sepp.Keys.Reader.i64
    sepp.Keys.Reader.prefixed_str sepp.Keys.Reader.prefixed sepp.Keys.Reader.message
    sepp.Std.BigEndian.from_be sepp.Std.BigEndian.i64_bits sepp.Std.BigEndian.i64_of_bits
    sepp.Std.Utf8.from_utf8 sepp.Std.Utf8.is_utf8 sepp.Storage.tx_insert sepp.Storage.tx_remove
    sepp.Storage.index_ready sepp.Storage.index_timer sepp.Storage.unindex_timer sepp.Storage.note
    sepp.Storage.Lease.apply_ack sepp.Storage.Lease.ack_leased
ack_ok = refl

apply_ack-once_example :
    (apply_ack (106 ∷ []) 2 (apply_ack (106 ∷ []) 1 held).1).0
    ≡ err (not_found_status "job not found")
apply_ack-once_example = apply_ack-once (106 ∷ []) 1 2 held acked_j ack_ok refl

ack_stale : is_ok (apply_ack (106 ∷ []) 2 held).0 ≡ false
unfolding sepp.Prelude.Result.◌>>=◌ sepp.Storage.tx_get sepp.Std.BTreeMap.get sepp.Std.Bytes.◌=ᵇ◌
    sepp.Std.Bytes.cmp sepp.Storage.Lease.leased sepp.Keys.decode_inflight sepp.Keys.Reader.◌>>=◌
    sepp.Keys.Reader.u32 sepp.Keys.Reader.take sepp.Keys.encode_inflight sepp.Keys.Writer.u32
    sepp.Std.BigEndian.to_be sepp.Keys.Writer.i64 sepp.Keys.Writer.prefixed sepp.Keys.Reader.i64
    sepp.Keys.Reader.prefixed_str sepp.Keys.Reader.prefixed sepp.Keys.Reader.message
    sepp.Std.BigEndian.from_be sepp.Std.BigEndian.i64_bits sepp.Std.BigEndian.i64_of_bits
    sepp.Std.Utf8.from_utf8 sepp.Std.Utf8.is_utf8 sepp.Storage.Lease.apply_ack
ack_stale = refl

apply_ack-atomic_example : (apply_ack (106 ∷ []) 2 held).1 ≡ held
apply_ack-atomic_example = apply_ack-atomic (106 ∷ []) 2 held ack_stale

abbrev nack_j : NackRequest
nack_j = record { job_id = 106 ∷ []; attempt = 2; reason = none; retry = none; worker_id = none }

nack_stale : is_ok (apply_nack nack_j 0 true (pos 9) held).0 ≡ false
unfolding sepp.Prelude.Result.◌>>=◌ sepp.Storage.tx_get sepp.Std.BTreeMap.get sepp.Std.Bytes.◌=ᵇ◌
    sepp.Std.Bytes.cmp sepp.Storage.Lease.leased sepp.Keys.decode_inflight sepp.Keys.Reader.◌>>=◌
    sepp.Keys.Reader.u32 sepp.Keys.Reader.take sepp.Keys.encode_inflight sepp.Keys.Writer.u32
    sepp.Std.BigEndian.to_be sepp.Keys.Writer.i64 sepp.Keys.Writer.prefixed sepp.Keys.Reader.i64
    sepp.Keys.Reader.prefixed_str sepp.Keys.Reader.prefixed sepp.Keys.Reader.message
    sepp.Std.BigEndian.from_be sepp.Std.BigEndian.i64_bits sepp.Std.BigEndian.i64_of_bits
    sepp.Std.Utf8.from_utf8 sepp.Std.Utf8.is_utf8 sepp.Storage.Lease.apply_nack
nack_stale = refl

apply_nack-atomic_example : (apply_nack nack_j 0 true (pos 9) held).1 ≡ held
apply_nack-atomic_example = apply_nack-atomic nack_j 0 true (pos 9) held nack_stale

abbrev extend_j : ExtendRequest
extend_j = record { job_id = 106 ∷ []; attempt = 2; lease_duration = none; worker_id = none }

extend_stale : is_ok (apply_extend extend_j 50 (pos 9) held).0 ≡ false
unfolding sepp.Prelude.Result.◌>>=◌ sepp.Storage.tx_get sepp.Std.BTreeMap.get sepp.Std.Bytes.◌=ᵇ◌
    sepp.Std.Bytes.cmp sepp.Storage.Lease.leased sepp.Keys.decode_inflight sepp.Keys.Reader.◌>>=◌
    sepp.Keys.Reader.u32 sepp.Keys.Reader.take sepp.Keys.encode_inflight sepp.Keys.Writer.u32
    sepp.Std.BigEndian.to_be sepp.Keys.Writer.i64 sepp.Keys.Writer.prefixed sepp.Keys.Reader.i64
    sepp.Keys.Reader.prefixed_str sepp.Keys.Reader.prefixed sepp.Keys.Reader.message
    sepp.Std.BigEndian.from_be sepp.Std.BigEndian.i64_bits sepp.Std.BigEndian.i64_of_bits
    sepp.Std.Utf8.from_utf8 sepp.Std.Utf8.is_utf8 sepp.Storage.Lease.apply_extend
extend_stale = refl

apply_extend-atomic_example : (apply_extend extend_j 50 (pos 9) held).1 ≡ held
apply_extend-atomic_example = apply_extend-atomic extend_j 50 (pos 9) held extend_stale

-- A ready entry whose job has gone, and the timer of a lease that is over.
abbrev ready_j : Bytes
ready_j =
    encode_ready (record { queue = queue_q; priority = 5; enqueued_at = pos 7; job_id = 106 ∷ [] })

abbrev stray : State
stray = record {
  tx = record no_rows { ready = (ready_j, []) ∷ [] };
  indexes = record no_indexes {
    ready = record { keys = (ready_j, 1) ∷ []; by_queue = (queue_q, 1) ∷ [] };
  };
  cycle = no_cycle;
}

reserve_none : (apply_reserve (queue_q ∷ []) 1000 1 (pos 9) stray).0 ≡ ok []
unfolding sepp.Prelude.Result.◌>>=◌ sepp.Storage.tx_get sepp.Std.BTreeMap.get sepp.Std.Bytes.◌=ᵇ◌
    sepp.Std.Bytes.cmp sepp.Keys.Reader.◌>>=◌ sepp.Keys.Reader.u32 sepp.Keys.Reader.take
    sepp.Keys.Writer.u32 sepp.Std.BigEndian.to_be sepp.Keys.Writer.i64 sepp.Keys.Writer.prefixed
    sepp.Keys.Reader.i64 sepp.Keys.Reader.prefixed_str sepp.Keys.Reader.prefixed
    sepp.Keys.Reader.message sepp.Std.BigEndian.from_be sepp.Std.BigEndian.i64_bits
    sepp.Std.BigEndian.i64_of_bits sepp.Std.Utf8.from_utf8 sepp.Std.Utf8.is_utf8
    sepp.Storage.tx_insert sepp.Storage.tx_remove sepp.Storage.index_ready sepp.Storage.index_timer
    sepp.Storage.unindex_timer sepp.Storage.note sepp.Storage.Reserve.apply_reserve
    sepp.Storage.Reserve.reserve_queues sepp.Storage.Reserve.reserve_queue
    sepp.Storage.Reserve.reserve_entry sepp.Storage.pop_ready sepp.Index.pop_front
    sepp.Std.BTreeMap.range_from sepp.Std.Bytes.starts_with sepp.Keys.queue_prefix
    sepp.Keys.encode_ready sepp.Keys.decode_ready sepp.Keys.Writer.u8 sepp.Keys.Reader.u8
    sepp.Keys.Reader.tail_str sepp.Keys.Reader.tail sepp.Std.BTreeMap.remove
    sepp.Prelude.Int.saturating_add
reserve_none = refl

reserve_queue-fuel_example :
    reserve_queue 3 (pos 1009) 1 (queue_prefix queue_q) [] stray
    ≡ reserve_queue 2 (pos 1009) 1 (queue_prefix queue_q) [] stray
reserve_queue-fuel_example =
    reserve_queue-fuel 1 (pos 1009) 1 (queue_prefix queue_q) [] stray (omega arith)

apply_reserve-max_jobs_example : length {A = Job} [] ≤ 1
apply_reserve-max_jobs_example =
    apply_reserve-max_jobs (queue_q ∷ []) 1000 1 (pos 9) stray [] reserve_none

abbrev timer_j : Bytes
timer_j = encode_timer (record { deadline = pos 100; job_id = 106 ∷ [] })

abbrev leased_j : State
leased_j = record held {
  indexes = record no_indexes {
    leases = record { keys = (timer_j, queue_q) ∷ []; by_queue = (queue_q, 1) ∷ [] };
  };
}

-- A job whose time has come too: with a budget of 1, the sweep handles both.
abbrev two_due : State
two_due = record leased_j {
  indexes = record leased_j.indexes {
    scheduled = record { keys = (timer_j, queue_q) ∷ []; by_queue = (queue_q, 1) ∷ [] };
  };
}

sweep_two : (apply_sweep (pos 200) 1 none true two_due).0 ≡ ok 2
unfolding sepp.Prelude.Result.◌>>=◌ sepp.Storage.tx_get sepp.Std.BTreeMap.get sepp.Std.Bytes.◌=ᵇ◌
    sepp.Std.Bytes.cmp sepp.Keys.decode_inflight sepp.Keys.Reader.◌>>=◌ sepp.Keys.Reader.u32
    sepp.Keys.Reader.take sepp.Keys.encode_inflight sepp.Keys.Writer.u32 sepp.Std.BigEndian.to_be
    sepp.Keys.Writer.i64 sepp.Keys.Writer.prefixed sepp.Keys.Reader.i64
    sepp.Keys.Reader.prefixed_str sepp.Keys.Reader.prefixed sepp.Keys.Reader.message
    sepp.Std.BigEndian.from_be sepp.Std.BigEndian.i64_bits sepp.Std.BigEndian.i64_of_bits
    sepp.Std.Utf8.from_utf8 sepp.Std.Utf8.is_utf8 sepp.Storage.tx_insert sepp.Storage.tx_remove
    sepp.Storage.index_ready sepp.Storage.index_timer sepp.Storage.unindex_timer sepp.Storage.note
    sepp.Storage.Sweep.apply_sweep sepp.Storage.Sweep.sweep_closing sepp.Storage.Sweep.lapsed
    sepp.Storage.Sweep.kept sepp.Storage.Sweep.drop_tombstones sepp.Storage.Sweep.sweep_due
    sepp.Storage.Sweep.sweep_leases sepp.Storage.Sweep.sweep_scheduled sepp.Storage.pop_timer
    sepp.Index.pop_due sepp.Keys.deadline_of sepp.Keys.encode_timer sepp.Keys.timer_job_id
    sepp.Keys.Reader.tail sepp.Std.BTreeMap.remove
sweep_two = refl

apply_sweep-budget_example : 2 ≤ 3 * 1
apply_sweep-budget_example = apply_sweep-budget (pos 200) 1 none true two_due 2 sweep_two
