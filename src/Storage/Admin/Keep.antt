-- ===== src/Storage/Admin/Keep.antt =====
-- The operator actions of src/storage.rs, on the mirror.
use sepp.Prelude.{ℕ, ◌≡◌, refl, Bool, List, [], ◌∷◌, Option, none, some}
use sepp.Prelude.Int.{ℤ}
use sepp.Prelude.Result.{Exec}
use sepp.Prelude.Maintains.{
  Maintains, Maintains-if, Maintains-bind, Maintains-pure, maintains_rules,
}
use sepp.Std.Bytes.{Bytes, Text, ◌=ᵇ◌}
use sepp.Proto.{Prost, Job, Payload, DeadLetterRecord}
use sepp.Fjall.{Fjall}
use sepp.Op.{PeekState}
use sepp.Keys.{ReadyKey, decode_ready, dead_letter_queue, timer_job_id}
use sepp.Storage.{Space, Timer}
use sepp.Storage.DeadLetter.Keep.{maybe_store_dead_letter-Mirrors}
use sepp.Storage.Mirror.{Mirrors, mirror_rules, take_timer-Mirrors}
use sepp.Storage.Mirror.Pop.{Leads-bind}
use sepp.Storage.Mirror.Stale.{tx_get-cases, drop_stale_ready, drop_stale_timer}
use sepp.Storage.Admin.{
  Outcome, Live, is_ready, is_scheduled, each_key, drain_found, drain_keys, drained, apply_drain,
  insert_payload, requeue_job, requeue_record, requeue_found, requeue_key, is_queue,
  apply_requeue_dead_letters, ready_row, ready_job, scheduled_row, scheduled_job, named_job,
  live_attempt, take_live, bury, bury_named, dead_letter_key, live_state, apply_dead_letter_jobs,
  delete_key, apply_delete_dead_letters,
}

each_key-Maintains :
    {S : Type 0} {P : S → Type 0} (f : Bytes → Outcome → Exec S Outcome) (keys : List Bytes)
    (o : Outcome)
    → ((k : Bytes) (o : Outcome) → Maintains P (f k o))
    → Maintains P (each_key f keys o)
unfolding each_key
each_key-Maintains f [] o h = Maintains-pure o
each_key-Maintains f (k ∷ keys) o h =
    Maintains-bind _ _ (h k o) λ o'. each_key-Maintains f keys o' h

module _ ⦃db : Fjall⦄ ⦃prost : Prost⦄ where
  drain_some :
      (k v : Bytes) (r : Option DeadLetterRecord)
      → prost.decode_dead_letter v ≡ r
      → Maintains Mirrors (drain_found k (some v))
  unfolding drain_found
  drain_some k v none e = rw (e, drain_found) (search maintains_rules)
  drain_some k v (some r) e = rw (e, drain_found) (search (maintains_rules, mirror_rules))

  drain_keys-Mirrors : (keys : List Bytes) → Maintains Mirrors (drain_keys keys)
  unfolding drain_keys drain_found
  drain_keys-Mirrors [] = search maintains_rules
  drain_keys-Mirrors (k ∷ keys) =
      tx_get-cases Space.dead_letter k _
        (Leads-bind _ _ _ _ (drop_stale_timer Timer.dead_letter k _ (Maintains-pure []))
          λ r. search (maintains_rules, drain_keys-Mirrors keys))
        λ v.
          Maintains-bind _ _ (drain_some k v _ refl)
            λ r. search (maintains_rules, drain_keys-Mirrors keys)

  drained-Mirrors : (rs : List DeadLetterRecord) → Maintains Mirrors (drained rs)
  unfolding drained
  drained-Mirrors [] = search maintains_rules
  drained-Mirrors (r ∷ rs) = search (maintains_rules, mirror_rules)

  pub apply_drain-Mirrors :
      (q : Option Text) (max scan_cap : ℕ) → Maintains Mirrors (apply_drain q max scan_cap)
  unfolding apply_drain
  apply_drain-Mirrors q max scan_cap = search (maintains_rules, drain_keys-Mirrors, drained-Mirrors)

  insert_payload-Mirrors :
      (id : Text) (p : Option Payload) → Maintains Mirrors (insert_payload id p)
  unfolding insert_payload
  insert_payload-Mirrors id none = search maintains_rules
  insert_payload-Mirrors id (some p) = search mirror_rules

  requeue_job-Mirrors :
      (k : Bytes) (now : ℤ) (o : Outcome) (job : Job) → Maintains Mirrors (requeue_job k now o job)
  unfolding requeue_job
  requeue_job-Mirrors k now o job =
      search
        (
          maintains_rules,
          mirror_rules,
          insert_payload-Mirrors,
          take_timer-Mirrors Timer.dead_letter,
        )
        depth 14

  requeue_job_of-Mirrors :
      (k : Bytes) (now : ℤ) (o : Outcome) (r : DeadLetterRecord) (job : Option Job)
      → r.job ≡ job
      → Maintains Mirrors (requeue_record k now o (some r))
  unfolding requeue_record
  requeue_job_of-Mirrors k now o r none e = rw (e, requeue_record) (search maintains_rules)
  requeue_job_of-Mirrors k now o r (some job) e =
      rw (e, requeue_record) (requeue_job-Mirrors k now o job)

  requeue_record-Mirrors :
      (k : Bytes) (now : ℤ) (o : Outcome) (r : Option DeadLetterRecord)
      → Maintains Mirrors (requeue_record k now o r)
  unfolding requeue_record
  requeue_record-Mirrors k now o none = search maintains_rules
  requeue_record-Mirrors k now o (some r) = requeue_job_of-Mirrors k now o r r.job refl

  requeue_key-Mirrors :
      (q : Text) (now : ℤ) (k : Bytes) (o : Outcome) → Maintains Mirrors (requeue_key q now k o)
  unfolding requeue_key requeue_found
  requeue_key-Mirrors q now k o =
      Maintains-if (is_queue (dead_letter_queue k) q) _ _
        (tx_get-cases Space.dead_letter k _
          (drop_stale_timer Timer.dead_letter k _ (search maintains_rules))
          λ v. requeue_record-Mirrors k now o (prost.decode_dead_letter v))
        (search maintains_rules)

  pub apply_requeue_dead_letters-Mirrors :
      (q : Text) (keys : List Bytes) (now : ℤ)
      → Maintains Mirrors (apply_requeue_dead_letters q keys now)
  unfolding apply_requeue_dead_letters
  apply_requeue_dead_letters-Mirrors q keys now =
      each_key-Maintains _ keys _ (requeue_key-Mirrors q now)

  ready_job-Mirrors :
      (q : Text) (k : Bytes) (rk : Option ReadyKey) → Maintains Mirrors (ready_job q k rk)
  unfolding ready_job ready_row
  ready_job-Mirrors q k none = search maintains_rules
  ready_job-Mirrors q k (some rk) =
      Maintains-if (rk.queue =ᵇ q) _ _
        (tx_get-cases Space.ready k _ (drop_stale_ready k _ (search maintains_rules))
          λ v. search maintains_rules)
        (search maintains_rules)

  scheduled_job-Mirrors : (k : Bytes) (id : Option Bytes) → Maintains Mirrors (scheduled_job k id)
  unfolding scheduled_job scheduled_row
  scheduled_job-Mirrors k none = search maintains_rules
  scheduled_job-Mirrors k (some id) =
      tx_get-cases Space.scheduled k _
        (drop_stale_timer Timer.scheduled k _ (search maintains_rules)) λ v. search maintains_rules

  named_job-Mirrors : (live : Live) (q : Text) (k : Bytes) → Maintains Mirrors (named_job live q k)
  unfolding named_job
  named_job-Mirrors is_ready q k = ready_job-Mirrors q k (decode_ready k)
  named_job-Mirrors is_scheduled q k = scheduled_job-Mirrors k (timer_job_id k)

  live_attempt-Mirrors : (live : Live) (k : Bytes) → Maintains Mirrors (live_attempt live k)
  unfolding live_attempt
  live_attempt-Mirrors is_ready k = search maintains_rules
  live_attempt-Mirrors is_scheduled k = search (maintains_rules, mirror_rules)

  take_live-Mirrors : (live : Live) (k : Bytes) → Maintains Mirrors (take_live live k)
  unfolding take_live
  take_live-Mirrors is_ready k = search mirror_rules
  take_live-Mirrors is_scheduled k = search mirror_rules

  bury-Mirrors :
      (live : Live) (q : Text) (reason : Option Text) (dead : Bool) (now : ℤ) (k : Bytes)
      (o : Outcome) (id : Bytes)
      → Maintains Mirrors (bury live q reason dead now k o id)
  unfolding bury
  bury-Mirrors live q reason dead now k o id =
      search
        (
          maintains_rules, mirror_rules, live_attempt-Mirrors, take_live-Mirrors,
          maybe_store_dead_letter-Mirrors,
        )
        depth 12

  bury_named-Mirrors :
      (live : Live) (q : Text) (reason : Option Text) (dead : Bool) (now : ℤ) (k : Bytes)
      (o : Outcome) (id : Option Bytes)
      → Maintains Mirrors (bury_named live q reason dead now k o id)
  unfolding bury_named
  bury_named-Mirrors live q reason dead now k o none = search maintains_rules
  bury_named-Mirrors live q reason dead now k o (some id) =
      search (maintains_rules, mirror_rules, bury-Mirrors)

  dead_letter_key-Mirrors :
      (live : Live) (q : Text) (reason : Option Text) (dead : Bool) (now : ℤ) (k : Bytes)
      (o : Outcome)
      → Maintains Mirrors (dead_letter_key live q reason dead now k o)
  unfolding dead_letter_key
  dead_letter_key-Mirrors live q reason dead now k o =
      search (maintains_rules, named_job-Mirrors, bury_named-Mirrors)

  pub apply_dead_letter_jobs-Mirrors :
      (q : Text) (st : PeekState) (keys : List Bytes) (reason : Option Text) (dead : Bool) (now : ℤ)
      → Maintains Mirrors (apply_dead_letter_jobs q st keys reason dead now)
  unfolding apply_dead_letter_jobs live_state
  apply_dead_letter_jobs-Mirrors q PeekState.ready keys reason dead now =
      each_key-Maintains _ keys _ (dead_letter_key-Mirrors is_ready q reason dead now)
  apply_dead_letter_jobs-Mirrors q PeekState.scheduled keys reason dead now =
      each_key-Maintains _ keys _ (dead_letter_key-Mirrors is_scheduled q reason dead now)
  apply_dead_letter_jobs-Mirrors q PeekState.inflight keys reason dead now = search maintains_rules
  apply_dead_letter_jobs-Mirrors q PeekState.dead_letter keys reason dead now =
      search maintains_rules

  delete_key-Mirrors : (q : Text) (k : Bytes) (o : Outcome) → Maintains Mirrors (delete_key q k o)
  unfolding delete_key
  delete_key-Mirrors q k o = search (maintains_rules, mirror_rules) depth 10

  pub apply_delete_dead_letters-Mirrors :
      (q : Text) (keys : List Bytes) → Maintains Mirrors (apply_delete_dead_letters q keys)
  unfolding apply_delete_dead_letters
  apply_delete_dead_letters-Mirrors q keys = each_key-Maintains _ keys _ (delete_key-Mirrors q)
