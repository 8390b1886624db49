-- ===== src/Storage/Reserve/Bounds.antt =====
-- `apply_reserve` of src/storage.rs: the number of jobs that it hands out.
use sepp.Prelude.{length-append}
use sepp.Prelude.{
  ℕ, zero, suc, ◌≤◌, ◌≡◌, false, List, [], ◌∷◌, Option, none, some, leb, length, Bool-cases, inl,
  inr, arith,
}
use sepp.Prelude.Int.{ℤ}
use sepp.Prelude.Result.{ok}
use sepp.Prelude.Yields.{Yields, Yields-pure, Yields-bind, Yields-after, Yields-ok}
use sepp.Std.Bytes.{Bytes, Text}
use sepp.Proto.{Prost, Job}
use sepp.Fjall.{Fjall}
use sepp.Keys.{decode_ready, queue_prefix}
use sepp.Storage.{State, pop_ready}
use sepp.Storage.Reserve.{push_some, reserve_queue, reserve_queues, apply_reserve, reserve_entry}

module _ ⦃db : Fjall⦄ ⦃prost : Prost⦄ where
  abbrev AtMost : ℕ → List Job → Type 0
  AtMost max_jobs jobs = length jobs ≤ max_jobs

  push_some-length :
      (max_jobs : ℕ) (jobs : List Job) (job : Option Job)
      → leb max_jobs (length jobs) ≡ false
      → length (push_some jobs job) ≤ max_jobs
  push_some-length max_jobs jobs none h = ground arith
  push_some-length max_jobs jobs (some job) h = rw (length-append jobs (job ∷ [])) (ground arith)

  reserve_queue-AtMost :
      (fuel : ℕ) (at_ms : ℤ) (max_jobs : ℕ) (p : Bytes) (jobs : List Job)
      → AtMost max_jobs jobs
      → Yields (AtMost max_jobs) (reserve_queue fuel at_ms max_jobs p jobs)
  unfolding reserve_queue
  reserve_queue-AtMost zero at_ms max_jobs p jobs h = Yields-pure _ jobs h
  reserve_queue-AtMost (suc fuel) at_ms max_jobs p jobs h =
      elim (Bool-cases (leb max_jobs (length jobs))) [
        | inl e ↦ rw (e, reserve_queue) (Yields-pure _ jobs h)
        | inr e ↦
            rw (e, reserve_queue)
              (Yields-after _ (pop_ready p) _ (elim [
                | none ↦ Yields-pure _ jobs h
                | some (k, attempt) ↦
                    Yields-after _ (reserve_entry at_ms k attempt (decode_ready k)) _ λ job.
                      reserve_queue-AtMost fuel at_ms max_jobs p (push_some jobs job)
                        (push_some-length max_jobs jobs job e)
              ]))
      ]

  reserve_queues-AtMost :
      (at_ms : ℤ) (max_jobs : ℕ) (queues : List Text) (jobs : List Job)
      → AtMost max_jobs jobs
      → Yields (AtMost max_jobs) (reserve_queues at_ms max_jobs queues jobs)
  unfolding reserve_queues
  reserve_queues-AtMost at_ms max_jobs [] jobs h = Yields-pure _ jobs h
  reserve_queues-AtMost at_ms max_jobs (q ∷ queues) jobs h =
      elim (Bool-cases (leb max_jobs (length jobs))) [
        | inl e ↦ rw (e, reserve_queues) (Yields-pure _ jobs h)
        | inr e ↦
            rw (e, reserve_queues)
              (Yields-after _ _ _ λ keys.
                Yields-bind (AtMost max_jobs) _ _ _
                  (reserve_queue-AtMost (suc (length keys)) at_ms max_jobs (queue_prefix q) jobs h)
                  λ jobs' h'. reserve_queues-AtMost at_ms max_jobs queues jobs' h')
      ]

  -- A reservation never hands out more than `max_jobs` jobs, whatever the queues hold.
  pub apply_reserve-max_jobs :
      (queues : List Text) (lease_ms max_jobs : ℕ) (now : ℤ) (s : State) (jobs : List Job)
      → (apply_reserve queues lease_ms max_jobs now s).0 ≡ ok jobs
      → length jobs ≤ max_jobs
  unfolding apply_reserve
  apply_reserve-max_jobs queues lease_ms max_jobs now s jobs =
      Yields-ok (AtMost max_jobs) _ s jobs
        (reserve_queues-AtMost _ max_jobs queues [] (omega arith))
