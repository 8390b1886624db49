-- ===== src/Storage/Reserve/Keep.antt =====
-- `apply_reserve` of src/storage.rs, on the mirror: a popped entry is repaired before the next pop.
use sepp.Prelude.{Bool-cases, Option-cases, inl, inr}
use sepp.Prelude.{ℕ, zero, suc, List, [], ◌∷◌, Option, none, some, leb, length}
use sepp.Prelude.Int.{ℤ}
use sepp.Prelude.Result.{Result, ok, err, Exec}
use sepp.Prelude.Maintains.{
  Maintains, Maintains-bind, Maintains-pure, Maintains-gets, maintains_rules,
}
use sepp.Std.Bytes.{Bytes, Text}
use sepp.Proto.{Prost, Job}
use sepp.Fjall.{Fjall}
use sepp.Keys.{ReadyKey, decode_ready, decode_job_value, queue_prefix}
use sepp.Storage.{State, Space, Timer}
use sepp.Storage.Mirror.{Mirrors, mirror_rules, put_timer-Mirrors}
use sepp.Storage.Mirror.Pop.{
  IsPopped, Leads, Leads-get, Leads-remove, Leads-bind, pop_ready-Mirrors,
}
use sepp.Storage.Reserve.{
  drop_entry, drop_job, lease_job, with_payload, decoded, stored_job, reserve_entry, push_some,
  reserve_queue, reserve_queues, apply_reserve,
}

module _ ⦃db : Fjall⦄ ⦃prost : Prost⦄ where
  abbrev Restores : {A : Type 0} → Bytes → Exec State A → Type 0
  Restores k m = Leads (IsPopped Space.ready k) Mirrors m

  drop_entry-Restores : (k : Bytes) → Restores k (drop_entry k)
  unfolding drop_entry
  drop_entry-Restores k = Leads-remove Space.ready k _ (search (maintains_rules, mirror_rules))

  drop_job-Restores : (k : Bytes) (id : Text) → Restores k (drop_job k id)
  unfolding drop_job
  drop_job-Restores k id = Leads-remove Space.ready k _ (search (maintains_rules, mirror_rules))

  lease_job-Restores :
      (at_ms : ℤ) (k : Bytes) (attempt : ℕ) (q : Text) (job : Job)
      → Restores k (lease_job at_ms k attempt q job)
  unfolding lease_job
  lease_job-Restores at_ms k attempt q job =
      Leads-remove Space.ready k _
        (search (maintains_rules, mirror_rules, put_timer-Mirrors Timer.leases) depth 12)

  with_payload-Restores :
      (at_ms : ℤ) (k : Bytes) (attempt : ℕ) (id q : Text) (job : Job) (v : Option Bytes)
      → Restores k (with_payload at_ms k attempt id q job v)
  unfolding with_payload
  with_payload-Restores at_ms k attempt id q job none = lease_job-Restores at_ms k attempt q job
  with_payload-Restores at_ms k attempt id q job (some bytes) =
      elim (Option-cases (prost.decode_payload bytes)) [
        | inl e ↦ rw (e, with_payload) (drop_job-Restores k id)
        | inr (p, e) ↦
            rw (e, with_payload)
              (lease_job-Restores at_ms k attempt q (record job { payload = some p }))
      ]

  decoded-Restores :
      (at_ms : ℤ) (k : Bytes) (attempt : ℕ) (id : Text) (r : Result (Text × Job))
      → Restores k (decoded at_ms k attempt id r)
  unfolding decoded
  decoded-Restores at_ms k attempt id (err e) = drop_job-Restores k id
  decoded-Restores at_ms k attempt id (ok (q, job)) =
      Leads-get (IsPopped Space.ready k) Mirrors Space.payloads id _
        (with_payload-Restores at_ms k attempt id q (record job { queue = q }))

  stored_job-Restores :
      (at_ms : ℤ) (k : Bytes) (attempt : ℕ) (id : Text) (v : Option Bytes)
      → Restores k (stored_job at_ms k attempt id v)
  unfolding stored_job
  stored_job-Restores at_ms k attempt id none = drop_entry-Restores k
  stored_job-Restores at_ms k attempt id (some v) =
      decoded-Restores at_ms k attempt id (decode_job_value v)

  reserve_entry-Restores :
      (at_ms : ℤ) (k : Bytes) (attempt : ℕ) (rk : Option ReadyKey)
      → Restores k (reserve_entry at_ms k attempt rk)
  unfolding reserve_entry
  reserve_entry-Restores at_ms k attempt none = drop_entry-Restores k
  reserve_entry-Restores at_ms k attempt (some rk) =
      Leads-get (IsPopped Space.ready k) Mirrors Space.jobs rk.job_id _
        (stored_job-Restores at_ms k attempt rk.job_id)

  reserve_queue-Mirrors :
      (fuel : ℕ) (at_ms : ℤ) (max_jobs : ℕ) (p : Bytes) (jobs : List Job)
      → Maintains Mirrors (reserve_queue fuel at_ms max_jobs p jobs)
  unfolding reserve_queue
  reserve_queue-Mirrors zero at_ms max_jobs p jobs = Maintains-pure jobs
  reserve_queue-Mirrors (suc fuel) at_ms max_jobs p jobs =
      elim (Bool-cases (leb max_jobs (length jobs))) [
        | inl e ↦ rw (e, reserve_queue) (Maintains-pure jobs)
        | inr e ↦
            rw (e, reserve_queue)
              (pop_ready-Mirrors p _ (Maintains-pure jobs) λ k attempt.
                Leads-bind _ _ _ _ (reserve_entry-Restores at_ms k attempt (decode_ready k))
                  λ job. reserve_queue-Mirrors fuel at_ms max_jobs p (push_some jobs job))
      ]

  reserve_queues-Mirrors :
      (at_ms : ℤ) (max_jobs : ℕ) (queues : List Text) (jobs : List Job)
      → Maintains Mirrors (reserve_queues at_ms max_jobs queues jobs)
  unfolding reserve_queues
  reserve_queues-Mirrors at_ms max_jobs [] jobs = Maintains-pure jobs
  reserve_queues-Mirrors at_ms max_jobs (q ∷ queues) jobs =
      elim (Bool-cases (leb max_jobs (length jobs))) [
        | inl e ↦ rw (e, reserve_queues) (Maintains-pure jobs)
        | inr e ↦
            rw (e, reserve_queues)
              (Maintains-bind _ _ (Maintains-gets (λ s. s.indexes.ready.keys)) λ keys.
                Maintains-bind _ _
                  (reserve_queue-Mirrors (suc (length keys)) at_ms max_jobs (queue_prefix q) jobs)
                  λ jobs'. reserve_queues-Mirrors at_ms max_jobs queues jobs')
      ]

  -- A reservation that does not end in an internal error keeps every index alike with its keyspace.
  pub apply_reserve-Mirrors :
      (queues : List Text) (lease_ms max_jobs : ℕ) (now : ℤ)
      → Maintains Mirrors (apply_reserve queues lease_ms max_jobs now)
  unfolding apply_reserve
  apply_reserve-Mirrors queues lease_ms max_jobs now = reserve_queues-Mirrors _ max_jobs queues []
