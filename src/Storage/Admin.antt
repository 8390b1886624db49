-- ===== src/Storage/Admin.antt =====
-- `apply_drain`, `apply_requeue_dead_letters`, `apply_dead_letter_jobs` and
-- `apply_delete_dead_letters` of src/storage.rs: what an operator does with dead and live jobs.
pub mod Keep
use sepp.Prelude.{
  ℕ, zero, suc, ◌+◌, Bool, true, false, List, [], ◌∷◌, ◌++◌, Option, none, some, if◌then◌else◌,
  length, unwrap_or, and_then,
}
use sepp.Prelude.Int.{ℤ, pos}
use sepp.Prelude.Result.{ok, err, Exec, pure, raise, gets, ◌>>=◌, ◌>>◌, invalid_argument_status}
use sepp.Std.Bytes.{Bytes, Text, ◌=ᵇ◌}
use sepp.Std.BigEndian.{u32_to_be}
use sepp.Std.BTreeMap
use sepp.Std.BTreeMap.{BTreeMap}
use sepp.Proto.{Prost, Job, Payload, DeadLetterRecord, DeadLetterCause, millis_to_timestamp}
use sepp.Fjall.{Fjall}
use sepp.Op.{PeekState}
use sepp.Index.{ready_attempt}
use sepp.Keys.{
  ReadyKey, decode_ready, encode_ready, encode_job_value, decode_job_value, dead_letter_queue,
  dead_letter_job_id, timer_job_id,
}
use sepp.Storage.{
  State, Space, Timer, tx_get, tx_insert, tx_remove, index_ready, unindex_ready, unindex_timer,
  note, mark_dirty, add_ready, dead_letter_drained, dead_lettered, attempt_of_slice,
}
use sepp.Storage.DeadLetter.{maybe_store_dead_letter}

-- `queue.is_none_or(|want| want == q)`.
abbrev wants : Option Text → Text → Bool
wants none q = true
wants (some want) q = want =ᵇ q

-- The loop over the oldest keys stops at `max` keys chosen or `scan_cap` keys examined.
unfoldable pub choose : Option Text → (max scan_cap : ℕ) → BTreeMap Text → List Bytes
choose queue zero scan_cap entries = []
choose queue (suc max) zero entries = []
choose queue (suc max) (suc scan_cap) [] = []
choose queue (suc max) (suc scan_cap) ((key, q) ∷ rest) = elim (wants queue q) [
  | true ↦ key ∷ choose queue max scan_cap rest
  | false ↦ choose queue (suc max) scan_cap rest
]

pub record Outcome : Type 0 where
  pub moved : ℕ
  pub missing : ℕ
  pub job_ids : List Text

abbrev pub no_outcome : Outcome
no_outcome = record { moved = 0; missing = 0; job_ids = [] }

abbrev one_missing : Outcome → Outcome
one_missing o = record o { missing = o.missing + 1 }

abbrev one_moved : Outcome → List Text → Outcome
one_moved o ids = record o { moved = o.moved + 1; job_ids = o.job_ids ++ ids }

-- A loop over keys that counts what it moves and what it does not find.
unfoldable pub each_key :
    {S : Type 0} → (Bytes → Outcome → Exec S Outcome) → List Bytes → Outcome → Exec S Outcome
each_key f [] o = pure o
each_key f (key ∷ keys) o = do o' ← f key o; each_key f keys o'

module _ ⦃db : Fjall⦄ ⦃prost : Prost⦄ where
  -- A record that does not decode stays; an index entry with no row is dropped.
  drain_found : Bytes → Option Bytes → Exec State (List DeadLetterRecord)
  drain_found key none = do unindex_timer Timer.dead_letter key; pure []
  drain_found key (some value) = elim (prost.decode_dead_letter value) [
    | none ↦ pure []
    | some r ↦ do
      unindex_timer Timer.dead_letter key
      tx_remove Space.dead_letter key
      pure (r ∷ [])
  ]

  unfoldable pub drain_keys : List Bytes → Exec State (List DeadLetterRecord)
  unfolding drain_found
  drain_keys [] = pure []
  drain_keys (key ∷ keys) = do
    found ← tx_get Space.dead_letter key
    r ← drain_found key found
    rest ← drain_keys keys
    pure (r ++ rest)

  drained : List DeadLetterRecord → Exec State Unit
  drained [] = pure tt
  drained (r ∷ rs) = do note (dead_letter_drained (length (r ∷ rs))); note mark_dirty

  unfoldable pub apply_drain : Option Text → (max scan_cap : ℕ) → Exec State (List DeadLetterRecord)
  unfolding drained
  apply_drain queue max scan_cap = do
    entries ← gets (λ s. s.indexes.dead_letter.keys)
    records ← drain_keys (choose queue max scan_cap entries)
    drained records
    pure records

  insert_payload : Text → Option Payload → Exec State Unit
  insert_payload id none = pure tt
  insert_payload id (some p) = tx_insert Space.payloads id (prost.encode_payload p)

  requeue_job : Bytes → ℤ → Outcome → Job → Exec State Outcome
  unfolding insert_payload
  requeue_job key now o found = do
    let job = record found {
      queue = [];
      payload = none;
      attempt = 1;
      enqueued_at = some (millis_to_timestamp now);
      lease_expires_at = some (millis_to_timestamp (pos 0));
      scheduled_at = none;
    }
    tx_insert Space.jobs job.id (encode_job_value found.queue job)
    insert_payload job.id found.payload
    let rk = encode_ready (record {
      queue = found.queue;
      priority = job.priority;
      enqueued_at = now;
      job_id = job.id;
    })
    tx_insert Space.ready rk (u32_to_be 1)
    index_ready rk 1
    tx_remove Space.dead_letter key
    unindex_timer Timer.dead_letter key
    note (add_ready found.queue)
    note mark_dirty
    pure (one_moved o (job.id ∷ []))

  requeue_record : Bytes → ℤ → Outcome → Option DeadLetterRecord → Exec State Outcome
  unfolding requeue_job
  requeue_record key now o none = pure (one_missing o)
  requeue_record key now o (some r) = elim r.job [
    | none ↦ pure (one_missing o)
    | some job ↦ requeue_job key now o job
  ]

  requeue_found : Bytes → ℤ → Outcome → Option Bytes → Exec State Outcome
  unfolding requeue_record
  requeue_found key now o none = do unindex_timer Timer.dead_letter key; pure (one_missing o)
  requeue_found key now o (some stored) = requeue_record key now o (prost.decode_dead_letter stored)

  -- `name == Some(queue)`.
  is_queue : Option Text → Text → Bool
  is_queue none queue = false
  is_queue (some q) queue = q =ᵇ queue

  unfoldable pub requeue_key : Text → ℤ → Bytes → Outcome → Exec State Outcome
  unfolding requeue_found is_queue
  requeue_key queue now key o =
      if is_queue (dead_letter_queue key) queue
      then (do stored ← tx_get Space.dead_letter key; requeue_found key now o stored)
      else pure (one_missing o)

  unfoldable pub apply_requeue_dead_letters : Text → List Bytes → ℤ → Exec State Outcome
  apply_requeue_dead_letters queue keys now = each_key (requeue_key queue now) keys no_outcome

  -- The job that a peeked key names, if the key is still there and is of the queue.
  ready_row : Bytes → ReadyKey → Option Bytes → Exec State (Option Bytes)
  ready_row key rk none = do unindex_ready key; pure none
  ready_row key rk (some v) = pure (some rk.job_id)

  ready_job : Text → Bytes → Option ReadyKey → Exec State (Option Bytes)
  unfolding ready_row
  ready_job queue key none = pure none
  ready_job queue key (some rk) =
      if rk.queue =ᵇ queue
      then (do row ← tx_get Space.ready key; ready_row key rk row)
      else pure none

  scheduled_row : Bytes → Bytes → Option Bytes → Exec State (Option Bytes)
  scheduled_row key id none = do unindex_timer Timer.scheduled key; pure none
  scheduled_row key id (some v) = pure (some id)

  scheduled_job : Bytes → Option Bytes → Exec State (Option Bytes)
  unfolding scheduled_row
  scheduled_job key none = pure none
  scheduled_job key (some id) = do row ← tx_get Space.scheduled key; scheduled_row key id row

  pub data Live : Type 0 where
    is_ready is_scheduled : Live

  named_job : Live → Text → Bytes → Exec State (Option Bytes)
  unfolding ready_job scheduled_job
  named_job is_ready queue key = ready_job queue key (decode_ready key)
  named_job is_scheduled queue key = scheduled_job key (timer_job_id key)

  -- The record is the authority on the queue.
  owned_by : Text → Option Bytes → Bool
  owned_by queue none = false
  owned_by queue (some stored) = elim (decode_job_value stored) [
    | ok found ↦ found.0 =ᵇ queue
    | err e ↦ false
  ]

  scheduled_attempt : Option Bytes → ℕ
  scheduled_attempt v = unwrap_or (and_then v attempt_of_slice) 1

  live_attempt : Live → Bytes → Exec State ℕ
  unfolding scheduled_attempt
  live_attempt is_ready key = gets (λ s. unwrap_or (ready_attempt s.indexes.ready key) 1)
  live_attempt is_scheduled key = do v ← tx_get Space.scheduled key; pure (scheduled_attempt v)

  take_live : Live → Bytes → Exec State Unit
  take_live is_ready key = do tx_remove Space.ready key; unindex_ready key
  take_live is_scheduled key = do tx_remove Space.scheduled key; unindex_timer Timer.scheduled key

  -- A job id is UTF-8, so the id that is reported is the id (the source writes one that is not with
  -- replacement characters).
  bury : Live → Text → Option Text → Bool → ℤ → Bytes → Outcome → Bytes → Exec State Outcome
  unfolding live_attempt take_live
  bury live queue reason dead_letter_enabled now key o job_id = do
    attempt ← live_attempt live key
    maybe_store_dead_letter job_id
        (record {
          cause = DeadLetterCause.admin;
          failed_at = now;
          attempt = attempt;
          last_reason = reason;
        })
        dead_letter_enabled
    take_live live key
    tx_remove Space.jobs job_id
    tx_remove Space.payloads job_id
    note (dead_lettered queue "admin")
    note mark_dirty
    pure (one_moved o (job_id ∷ []))

  bury_named :
      Live → Text → Option Text → Bool → ℤ → Bytes → Outcome → Option Bytes → Exec State Outcome
  unfolding bury owned_by
  bury_named live queue reason dead now key o none = pure (one_missing o)
  bury_named live queue reason dead now key o (some job_id) = do
    stored ← tx_get Space.jobs job_id
    if owned_by queue stored
        then bury live queue reason dead now key o job_id
        else pure (one_missing o)

  unfoldable pub dead_letter_key :
      Live → Text → Option Text → Bool → ℤ → Bytes → Outcome → Exec State Outcome
  unfolding bury_named named_job
  dead_letter_key live queue reason dead now key o = do
    job_id ← named_job live queue key
    bury_named live queue reason dead now key o job_id

  -- Only ready and scheduled jobs can be dead-lettered.
  live_state : PeekState → Option Live
  live_state PeekState.ready = some is_ready
  live_state PeekState.scheduled = some is_scheduled
  live_state PeekState.inflight = none
  live_state PeekState.dead_letter = none

  unfoldable pub apply_dead_letter_jobs :
      Text → PeekState → List Bytes → Option Text → Bool → ℤ → Exec State Outcome
  unfolding live_state
  apply_dead_letter_jobs queue state keys reason dead_letter_enabled now = elim (live_state state) [
    | none ↦ raise (invalid_argument_status "only ready or scheduled jobs can be dead-lettered")
    | some live ↦
        each_key (dead_letter_key live queue reason dead_letter_enabled now) keys no_outcome
  ]

  -- `if let Some(id) = DeadLetterKey::job_id(&key)`.
  id_of_key : Bytes → List Text
  id_of_key key = elim (dead_letter_job_id key) [ none ↦ [] | some id ↦ id ∷ [] ]

  unfoldable pub delete_key : Text → Bytes → Outcome → Exec State Outcome
  unfolding id_of_key is_queue
  delete_key queue key o = do
    owner ← gets (λ s. BTreeMap.get s.indexes.dead_letter.keys key)
    if is_queue owner queue
        then (do
          unindex_timer Timer.dead_letter key
          tx_remove Space.dead_letter key
          note mark_dirty
          pure (one_moved o (id_of_key key)))
        else pure (one_missing o)

  unfoldable pub apply_delete_dead_letters : Text → List Bytes → Exec State Outcome
  apply_delete_dead_letters queue keys = each_key (delete_key queue) keys no_outcome
