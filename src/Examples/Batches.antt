-- ===== src/Examples/Batches.antt =====
-- The theorems on atomic batches, at concrete inputs.
use sepp.Prelude.{
  ℕ, ◌+◌, ◌≡◌, ◌≢◌, refl, true, false, List, [], ◌∷◌, none, some, length, arith, Bool-cases, inl,
  inr,
}
use sepp.Prelude.Int.{pos}
use sepp.Prelude.Result.{ok}
use sepp.Std.Bytes.{Text, ◌=ᵇ◌}
use sepp.Std.HashMap
use sepp.Proto.{EnqueueResponse, JobRejection}
use sepp.Op.{PreparedJob}
use sepp.Index.{live_depth}
use sepp.Storage.Enqueue.{committed, rejected, apply_enqueue_atomic}
use sepp.Storage.Enqueue.Caps.{AllOpen, IsWithin, cap_for, jobs_for}
use sepp.Storage.Enqueue.Outcome.{
  apply_enqueue_atomic-committed, apply_enqueue_atomic-admits, apply_enqueue_atomic-rejected,
}
use sepp.Examples.Codec.{memory, codec}
use sepp.Examples.Runs.{empty, no_indexes, job_j, queue_q}

abbrev responses_j : List EnqueueResponse
responses_j = record { job_id = 106 ∷ []; deduplicated = false } ∷ []

batch_ok : (apply_enqueue_atomic (job_j ∷ []) (pos 7) empty).0 ≡ ok (committed responses_j)
unfolding sepp.Prelude.Result.◌>>=◌ sepp.Storage.tx_get sepp.Std.BTreeMap.get sepp.Std.Bytes.◌=ᵇ◌
    sepp.Std.Bytes.cmp sepp.Storage.tx_insert sepp.Storage.tx_remove sepp.Storage.index_ready
    sepp.Storage.index_timer sepp.Storage.unindex_timer sepp.Storage.note
    sepp.Storage.Enqueue.collect sepp.Storage.Enqueue.check_dedup sepp.Storage.Enqueue.check_key
    sepp.Storage.Enqueue.dedup_decision sepp.Storage.Enqueue.is_closing sepp.Index.live_depth
    sepp.Std.HashMap.get sepp.Storage.Enqueue.insert_job sepp.Storage.Enqueue.enqueue_checked
    sepp.Storage.Enqueue.apply_enqueue_atomic sepp.Storage.Enqueue.closing_jobs
    sepp.Storage.Enqueue.wanted sepp.Storage.Enqueue.full_queues sepp.Storage.Enqueue.full_jobs
    sepp.Storage.Enqueue.is_empty sepp.Std.HashMap.insert
batch_ok = refl

apply_enqueue_atomic-committed_example :
    AllOpen no_indexes (pos 7) (job_j ∷ [])
    × ((q : Text)
        → IsWithin (cap_for q (job_j ∷ [])) (live_depth no_indexes q + jobs_for q (job_j ∷ [])))
    × (length responses_j ≡ 1)
apply_enqueue_atomic-committed_example =
    apply_enqueue_atomic-committed (job_j ∷ []) (pos 7) empty responses_j batch_ok

-- The job is within the cap of its queue, and no other queue has a job.
job_j-IsWithin :
    (q : Text)
    → IsWithin (cap_for q (job_j ∷ [])) (live_depth no_indexes q + jobs_for q (job_j ∷ []))
unfolding live_depth HashMap.get
job_j-IsWithin q = elim (Bool-cases (queue_q =ᵇ q)) [ inl e ↦ rw e (omega arith) | inr e ↦ rw e tt ]

job_j-AllOpen : AllOpen no_indexes (pos 7) (job_j ∷ [])
unfolding HashMap.get
job_j-AllOpen = (tt, tt)

apply_enqueue_atomic-admits_example :
    (apply_enqueue_atomic (job_j ∷ []) (pos 7) empty).0 ≢ ok (rejected [])
apply_enqueue_atomic-admits_example =
    apply_enqueue_atomic-admits (job_j ∷ []) (pos 7) empty [] job_j-AllOpen job_j-IsWithin

-- The queue takes no job at all.
abbrev capped_j : PreparedJob
capped_j = record job_j { limits = record job_j.limits { max_queue_depth = some 0 } }

abbrev full_j : List (ℕ × JobRejection)
full_j = (0, JobRejection.queue_full queue_q 0) ∷ (1, JobRejection.queue_full queue_q 0) ∷ []

batch_full : (apply_enqueue_atomic (capped_j ∷ job_j ∷ []) (pos 7) empty).0 ≡ ok (rejected full_j)
unfolding sepp.Prelude.Result.◌>>=◌ sepp.Storage.tx_get sepp.Std.BTreeMap.get sepp.Std.Bytes.◌=ᵇ◌
    sepp.Std.Bytes.cmp sepp.Storage.Enqueue.collect sepp.Storage.Enqueue.check_dedup
    sepp.Storage.Enqueue.check_key sepp.Storage.Enqueue.dedup_decision
    sepp.Storage.Enqueue.is_closing sepp.Index.live_depth sepp.Std.HashMap.get
    sepp.Storage.Enqueue.insert_job sepp.Storage.Enqueue.enqueue_checked
    sepp.Storage.Enqueue.apply_enqueue_atomic sepp.Storage.Enqueue.closing_jobs
    sepp.Storage.Enqueue.wanted sepp.Storage.Enqueue.full_queues sepp.Storage.Enqueue.full_jobs
    sepp.Storage.Enqueue.is_empty sepp.Std.HashMap.insert
batch_full = refl

apply_enqueue_atomic-rejected_example :
    (apply_enqueue_atomic (capped_j ∷ job_j ∷ []) (pos 7) empty).1 ≡ empty
apply_enqueue_atomic-rejected_example =
    apply_enqueue_atomic-rejected (capped_j ∷ job_j ∷ []) (pos 7) empty full_j batch_full
