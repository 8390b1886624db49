-- ===== src/Examples/Server.antt =====
-- The theorems on the handle and the handlers of the server, at concrete inputs.
use sepp.Examples.Limits.{config_c, request_q}
use sepp.Proto.{JobRejection, Complaint}
use sepp.Storage.Enqueue.{EnqueueResult, accepted, refused, rejected}
use sepp.Prelude.{
  ℕ, ◌≡◌, ◌≢◌, ◌≤◌, ◌+◌, ◌*◌, refl, Bool, true, false, List, [], ◌∷◌, Option, none, some, length,
  arith, min,
}
use sepp.Prelude.Int.{pos}
use sepp.Prelude.Result.{ok, err}
use sepp.Std.Bytes.{Bytes, Text}
use sepp.Proto.{EnqueueRequest}
use sepp.Config.{Config, QueueConfig, RetryBackoff}
use sepp.Queues.{from_config, effective, RetryPolicy}
use sepp.Op.{Op, resolve, stamp}
use sepp.Handle.{Handle}
use sepp.Server.{server_limits, classify_enqueue}
use sepp.Server.Handlers.{
  Call, Answer, done, turned_away, empty_batch, enqueue_batch_handler, enqueue_atomic_handler,
}
use sepp.Server.Handlers.Batch.{IsBatchAnswer, enqueue_batch_handler-IsBatchAnswer}
use sepp.Server.Handlers.Atomic.{enqueue_atomic_handler-kept}
use sepp.Server.Polling.{Round, nothing, armed, poll}
use sepp.Server.Polling.Ends.{Ends, poll-Ends}
use sepp.Examples.Codec.{memory, codec}
use sepp.Examples.Runs.{empty, queue_q}

abbrev pub handle_c : Handle
handle_c = record {
  drain_scan_cap = 100;
  dead_letter_enabled = true;
  live = from_config config_c;
  boot_registry = from_config config_c;
}

abbrev fresh_c : ℕ → Text
fresh_c n = n ∷ []

abbrev pub call_c : Call
call_c = record {
  config = config_c;
  registry = from_config config_c;
  handle = handle_c;
  clock = pos 6;
  drain_clock = pos 7;
  fresh = fresh_c;
  current = none;
}

abbrev round_c : List Round
round_c =
    record {
      meanwhile = λ s. s;
      now = pos 7;
      past_deadline = true;
      shutting_down = false;
      wake = armed;
    }
    ∷ []

-- A job without a type.
abbrev request_bad : EnqueueRequest
request_bad = record request_q { job_type = [] }

abbrev refusal_c : JobRejection
refusal_c = JobRejection.invalid_request (Complaint.must_not_be_empty "job_type")

abbrev results_c : List EnqueueResult
results_c = accepted (record { job_id = 0 ∷ []; deduplicated = false }) ∷ refused refusal_c ∷ []

batch_ok :
    (enqueue_batch_handler call_c (request_q ∷ request_bad ∷ []) empty).0 ≡ ok (done results_c)
unfolding sepp.Server.Handlers.enqueue_batch_handler sepp.Server.Handlers.sized
    sepp.Server.Handlers.slots sepp.Server.Handlers.valid sepp.Server.Handlers.errors
    sepp.Server.Handlers.fill sepp.Server.Handlers.classify_of sepp.Server.Handlers.commit_validated
    sepp.Server.Handlers.enqueue_atomic_handler sepp.Handle.enqueue sepp.Handle.send_op
    sepp.Handle.prepare_jobs sepp.Handle.new_prepared_job sepp.Op.resolve sepp.Op.stamp
    sepp.Storage.Apply.apply_command sepp.Storage.Apply.apply_op sepp.Prelude.Result.◌>>=◌
    sepp.Server.classify_enqueue sepp.Server.check_enqueue_limits sepp.Server.server_limits
    sepp.Server.check_custom sepp.Server.check_schedule sepp.Server.allows
    sepp.Server.primitive_value_bytes sepp.Validate.enqueue_request sepp.Validate.queue_name
    sepp.Validate.queue_name_error sepp.Validate.contains sepp.Validate.has_control
    sepp.Validate.min_len sepp.Validate.payload sepp.Validate.gte sepp.Validate.lte
    sepp.Validate.primitive_value sepp.Validate.trace_context sepp.Queues.effective
    sepp.Queues.from_config sepp.Queues.any_delay sepp.Queues.collect sepp.Queues.is_declared
    sepp.Queues.min_lease sepp.Queues.dedup_window_ms sepp.Std.HashMap.get sepp.Std.HashMap.insert
    sepp.Config.from_globals sepp.Config.merged_with sepp.Std.Bytes.cmp sepp.Std.Bytes.◌=ᵇ◌
    sepp.Storage.Enqueue.apply_enqueue sepp.Storage.Enqueue.collect sepp.Storage.Enqueue.enqueue_one
    sepp.Storage.Enqueue.is_closing sepp.Storage.Enqueue.check_dedup sepp.Storage.Enqueue.check_key
    sepp.Storage.Enqueue.dedup_decision sepp.Storage.Enqueue.is_full sepp.Storage.Enqueue.insert_job
    sepp.Storage.tx_get sepp.Std.BTreeMap.get sepp.Index.live_depth sepp.Storage.tx_insert
    sepp.Storage.index_ready sepp.Storage.index_timer sepp.Storage.note
batch_ok = refl

enqueue_batch_handler-IsBatchAnswer_example :
    IsBatchAnswer call_c (request_q ∷ request_bad ∷ []) (done results_c)
enqueue_batch_handler-IsBatchAnswer_example =
    enqueue_batch_handler-IsBatchAnswer call_c (request_q ∷ request_bad ∷ []) empty (done results_c)
      batch_ok

atomic_ok :
    (enqueue_atomic_handler call_c (request_q ∷ request_bad ∷ []) empty).0
    ≡ ok (done (rejected ((1, refusal_c) ∷ [])))
unfolding sepp.Server.Handlers.enqueue_batch_handler sepp.Server.Handlers.sized
    sepp.Server.Handlers.slots sepp.Server.Handlers.valid sepp.Server.Handlers.errors
    sepp.Server.Handlers.fill sepp.Server.Handlers.classify_of sepp.Server.Handlers.commit_validated
    sepp.Server.Handlers.enqueue_atomic_handler sepp.Handle.enqueue sepp.Handle.send_op
    sepp.Handle.prepare_jobs sepp.Handle.new_prepared_job sepp.Op.resolve sepp.Op.stamp
    sepp.Storage.Apply.apply_command sepp.Storage.Apply.apply_op sepp.Prelude.Result.◌>>=◌
    sepp.Server.classify_enqueue sepp.Server.check_enqueue_limits sepp.Server.server_limits
    sepp.Server.check_custom sepp.Server.check_schedule sepp.Server.allows
    sepp.Server.primitive_value_bytes sepp.Validate.enqueue_request sepp.Validate.queue_name
    sepp.Validate.queue_name_error sepp.Validate.contains sepp.Validate.has_control
    sepp.Validate.min_len sepp.Validate.payload sepp.Validate.gte sepp.Validate.lte
    sepp.Validate.primitive_value sepp.Validate.trace_context sepp.Queues.effective
    sepp.Queues.from_config sepp.Queues.any_delay sepp.Queues.collect sepp.Queues.is_declared
    sepp.Queues.min_lease sepp.Queues.dedup_window_ms sepp.Std.HashMap.get sepp.Std.HashMap.insert
    sepp.Config.from_globals sepp.Config.merged_with sepp.Std.Bytes.cmp sepp.Std.Bytes.◌=ᵇ◌
atomic_ok = refl

enqueue_atomic_handler-kept_example :
    (enqueue_atomic_handler call_c (request_q ∷ request_bad ∷ []) empty).1 ≡ empty
enqueue_atomic_handler-kept_example =
    enqueue_atomic_handler-kept call_c (request_q ∷ request_bad ∷ []) empty
      (done (rejected ((1, refusal_c) ∷ []))) tt atomic_ok

poll_ok : (poll (queue_q ∷ []) 50 2 round_c empty).0 ≡ ok nothing
unfolding poll sepp.Prelude.Result.◌>>=◌ sepp.Handle.reserve_once sepp.Handle.send_op
    sepp.Storage.Apply.apply_command sepp.Storage.Apply.apply_op stamp
    sepp.Storage.Reserve.apply_reserve sepp.Storage.Reserve.reserve_queues
    sepp.Storage.Reserve.reserve_queue sepp.Storage.pop_ready sepp.Index.pop_front
    sepp.Std.BTreeMap.range_from
poll_ok = refl

poll-Ends_example : Ends 2 round_c nothing
poll-Ends_example = poll-Ends (queue_q ∷ []) 50 2 round_c empty nothing poll_ok
