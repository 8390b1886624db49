-- ===== src/Storage/Enqueue.antt =====
-- `apply_enqueue`, `apply_enqueue_atomic`, `check_dedup` and `insert_job` of src/storage.rs.
pub mod Caps
pub mod Keep
pub mod Outcome
use sepp.Prelude.{
  ℕ, suc, ◌+◌, ◌%◌, ◌^◌, Bool, true, false, List, [], ◌∷◌, Option, none, some, if◌then◌else◌, leb,
  ltb,
}
use sepp.Prelude.Int.{ℤ, pos, ltb_ℤ, saturating_add}
use sepp.Prelude.Result.{Exec, pure, gets, ◌>>=◌, ◌>>◌}
use sepp.Std.Bytes.{Bytes, Text}
use sepp.Std.BigEndian.{u32_to_be}
use sepp.Std.HashMap
use sepp.Std.HashMap.{HashMap, bytes_eq}
use sepp.Proto.{
  Prost, Job, Payload, EnqueueRequest, EnqueueResponse, JobRejection, Timestamp,
  millis_to_timestamp, timestamp_to_millis,
}
use sepp.Fjall.{Fjall}
use sepp.Op.{PreparedJob}
use sepp.Index.{Indexes, live_depth}
use sepp.Keys.{
  encode_ready, encode_timer, encode_job_value, encode_dedup, encode_dedup_timer,
  encode_dedup_value, decode_dedup_value, DedupValue,
}
use sepp.Storage.{
  State, Space, Timer, tx_get, tx_insert, tx_remove, index_ready, index_timer, unindex_timer, note,
  mark_dirty, add_ready, enqueued, deduplicated,
}

pub data EnqueueResult : Type 0 where
  accepted : EnqueueResponse → EnqueueResult
  refused : JobRejection → EnqueueResult

pub data AtomicEnqueueOutcome : Type 0 where
  committed : List EnqueueResponse → AtomicEnqueueOutcome
  rejected : List (ℕ × JobRejection) → AtomicEnqueueOutcome

pub data DedupCheck : Type 0 where
  hit : EnqueueResponse → DedupCheck
  miss : (stale_timer : Option Bytes) → DedupCheck

-- A close tombstone whose deadline has not come.
unfoldable pub is_closing : Indexes → Text → ℤ → Bool
is_closing ix queue now = elim (HashMap.get ix.closing queue) [
  | none ↦ false
  | some deadline ↦ ltb_ℤ now deadline
]

-- The loops push one result for each job.
unfoldable pub collect : {S A B : Type 0} → (A → Exec S B) → List A → Exec S (List B)
collect f [] = pure []
collect f (a ∷ as') = let rest = collect f as' in do b ← f a; bs ← rest; pure (b ∷ bs)

module _ ⦃db : Fjall⦄ ⦃prost : Prost⦄ where
  dedup_key_of : EnqueueRequest → Text → Bytes
  dedup_key_of req key = encode_dedup (record { queue = req.queue; idempotency_key = key })

  unfoldable pub dedup_decision :
      EnqueueRequest → Bytes → ℤ → Option DedupValue → Exec State DedupCheck
  dedup_decision req dkey now none = pure (miss none)
  dedup_decision req dkey now (some dv) =
      if ltb_ℤ now dv.deadline
      then (do
        note (deduplicated req.queue)
        pure (hit (record { job_id = dv.job_id; deduplicated = true })))
      else pure
          (miss (some (encode_dedup_timer (record { deadline = dv.deadline; dedup_key = dkey }))))

  abbrev decode_found : Option Bytes → Option DedupValue
  decode_found none = none
  decode_found (some existing) = decode_dedup_value existing

  unfoldable pub check_key : EnqueueRequest → ℤ → Option Text → Exec State DedupCheck
  unfolding dedup_key_of
  check_key req now none = pure (miss none)
  check_key req now (some key) = do
    found ← tx_get Space.dedup (dedup_key_of req key)
    dedup_decision req (dedup_key_of req key) now (decode_found found)

  unfoldable pub check_dedup : EnqueueRequest → ℤ → Exec State DedupCheck
  check_dedup req now = check_key req now req.idempotency_key

  new_job : PreparedJob → ℤ → Job
  new_job p now = record {
    id = p.id;
    job_type = p.req.job_type;
    payload = none;
    priority = p.limits.priority;
    trace_context = p.req.trace_context;
    enqueued_at = some (millis_to_timestamp now);
    attempt = 1;
    max_attempts = p.limits.max_attempts;
    lease_expires_at = some (millis_to_timestamp (pos 0));
    custom = p.req.custom;
    scheduled_at = p.req.scheduled_at;
    queue = [];
  }

  insert_payload : Text → Option Payload → Exec State Unit
  insert_payload id none = pure tt
  insert_payload id (some payload) = tx_insert Space.payloads id (prost.encode_payload payload)

  insert_now : PreparedJob → ℤ → Exec State Unit
  insert_now p now = do
    let rk = encode_ready (record {
      queue = p.req.queue;
      priority = p.limits.priority;
      enqueued_at = now;
      job_id = p.id;
    })
    tx_insert Space.ready rk (u32_to_be 1)
    index_ready rk 1
    note (add_ready p.req.queue)

  -- A job goes to `scheduled` only if its time is still to come.
  insert_at : PreparedJob → ℤ → Option Timestamp → Exec State Unit
  unfolding insert_now
  insert_at p now none = insert_now p now
  insert_at p now (some at) =
      if ltb_ℤ now (timestamp_to_millis at)
      then (do
        let tk = encode_timer (record { deadline = timestamp_to_millis at; job_id = p.id })
        tx_insert Space.scheduled tk (u32_to_be 1)
        index_timer Timer.scheduled tk p.req.queue)
      else insert_now p now

  drop_stale : Option Bytes → Exec State Unit
  drop_stale none = pure tt
  drop_stale (some old_timer) = do
    tx_remove Space.dedup_timers old_timer
    unindex_timer Timer.dedup_timers old_timer

  insert_dedup : PreparedJob → ℤ → Option Bytes → Option Text → Exec State Unit
  unfolding drop_stale dedup_key_of
  insert_dedup p now stale none = pure tt
  insert_dedup p now stale (some key) = do
    let dkey = dedup_key_of p.req key
    drop_stale stale
    let deadline = saturating_add now p.limits.dedup_window_ms
    let dtk = encode_dedup_timer (record { deadline = deadline; dedup_key = dkey })
    tx_insert Space.dedup_timers dtk []
    index_timer Timer.dedup_timers dtk p.req.queue
    tx_insert Space.dedup dkey
        (encode_dedup_value (record { enqueued_at = now; deadline = deadline; job_id = p.id }))

  unfoldable pub insert_job : PreparedJob → ℤ → Option Bytes → Exec State EnqueueResponse
  unfolding new_job insert_payload insert_at insert_dedup
  insert_job p now stale_dedup_timer = do
    tx_insert Space.jobs p.id (encode_job_value p.req.queue (new_job p now))
    insert_payload p.id p.req.payload
    insert_at p now p.req.scheduled_at
    insert_dedup p now stale_dedup_timer p.req.idempotency_key
    note (enqueued p.req.queue)
    note mark_dirty
    pure (record { job_id = p.id; deduplicated = false })

  unfoldable pub is_full : Option ℕ → ℕ → Option ℕ
  is_full none depth = none
  is_full (some cap) depth = if leb cap depth then some cap else none

  -- The cap is checked against the live depth, which each insertion raises at once.
  insert_unless : PreparedJob → ℤ → Option Bytes → Option ℕ → Exec State EnqueueResult
  insert_unless p now stale (some cap) = pure (refused (JobRejection.queue_full p.req.queue cap))
  insert_unless p now stale none = do resp ← insert_job p now stale; pure (accepted resp)

  admit : PreparedJob → ℤ → DedupCheck → Exec State EnqueueResult
  unfolding insert_unless
  admit p now (hit resp) = pure (accepted resp)
  admit p now (miss stale) = do
    depth ← gets (λ s. live_depth s.indexes p.req.queue)
    insert_unless p now stale (is_full p.limits.max_queue_depth depth)

  unfoldable pub enqueue_one : ℤ → PreparedJob → Exec State EnqueueResult
  unfolding admit
  enqueue_one now p = do
    closing ← gets (λ s. is_closing s.indexes p.req.queue now)
    if closing
        then pure (refused (JobRejection.queue_closing p.req.queue))
        else do check ← check_dedup p.req now; admit p now check

  unfoldable pub apply_enqueue : List PreparedJob → ℤ → Exec State (List EnqueueResult)
  apply_enqueue jobs now = collect (enqueue_one now) jobs

  -- The jobs of a batch that target a queue being closed, by position.
  unfoldable pub closing_jobs : Indexes → ℤ → ℕ → List PreparedJob → List (ℕ × JobRejection)
  closing_jobs ix now index [] = []
  closing_jobs ix now index (p ∷ ps) =
      let rest = closing_jobs ix now (suc index) ps in
      if is_closing ix p.req.queue now
      then (index % 2 ^ 32, JobRejection.queue_closing p.req.queue) ∷ rest
      else rest

  -- How many jobs the batch has for each queue, with the cap of the first of them.
  unfoldable pub wanted :
      List PreparedJob → HashMap Text (ℕ × Option ℕ) → HashMap Text (ℕ × Option ℕ)
  wanted [] m = m
  wanted (p ∷ ps) m = wanted ps (elim (HashMap.get m p.req.queue) [
    | none ↦ HashMap.insert m p.req.queue (1, p.limits.max_queue_depth)
    | some (count, cap) ↦ HashMap.insert m p.req.queue (count + 1, cap)
  ])

  over : Indexes → Text → ℕ → Option ℕ → Bool
  over ix queue count none = false
  over ix queue count (some cap) = ltb cap (live_depth ix queue + count)

  cap_of : Option ℕ → ℕ
  cap_of none = 0
  cap_of (some cap) = cap

  unfoldable pub full_queues :
      Indexes → HashMap Text (ℕ × Option ℕ) → HashMap Text ℕ → HashMap Text ℕ
  unfolding over cap_of
  full_queues ix [] full = full
  full_queues ix ((queue, (count, cap)) ∷ rest) full =
      full_queues ix rest
        (if over ix queue count cap then HashMap.insert full queue (cap_of cap) else full)

  unfoldable pub full_jobs : HashMap Text ℕ → ℕ → List PreparedJob → List (ℕ × JobRejection)
  full_jobs full index [] = []
  full_jobs full index (p ∷ ps) =
      let rest = full_jobs full (suc index) ps in
      elim (HashMap.get full p.req.queue) [
        | none ↦ rest
        | some cap ↦ (index % 2 ^ 32, JobRejection.queue_full p.req.queue cap) ∷ rest
      ]

  respond : PreparedJob → ℤ → DedupCheck → Exec State EnqueueResponse
  respond p now (hit resp) = pure resp
  respond p now (miss stale) = insert_job p now stale

  unfoldable pub enqueue_checked : ℤ → PreparedJob → Exec State EnqueueResponse
  unfolding respond
  enqueue_checked now p = do check ← check_dedup p.req now; respond p now check

  unfoldable pub is_empty : {A : Type 0} → List A → Bool
  is_empty [] = true
  is_empty (x ∷ xs) = false

  unfoldable pub apply_enqueue_atomic : List PreparedJob → ℤ → Exec State AtomicEnqueueOutcome
  apply_enqueue_atomic jobs now = do
    ix ← gets (λ s. s.indexes)
    let closing = closing_jobs ix now 0 jobs
    let full = full_queues ix (wanted jobs []) []
    if is_empty closing
        then if is_empty full
          then (do responses ← collect (enqueue_checked now) jobs; pure (committed responses))
          else pure (rejected (full_jobs full 0 jobs))
        else pure (rejected closing)
