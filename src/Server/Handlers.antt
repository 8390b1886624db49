-- ===== src/Server/Handlers.antt =====
-- The handlers of src/queue_server.rs that take jobs in and give jobs out. Spans, log lines and
-- metrics are left out.
pub mod Batch
pub mod Atomic
use sepp.Prelude.{
  ℕ, suc, ◌+◌, ◌%◌, ◌^◌, Bool, true, false, not, ◌||◌, List, [], ◌∷◌, Option, none, some, map, ltb,
  length, if◌then◌else◌, min, max, unwrap_or, and_then,
}
use sepp.Prelude.Int.{ℤ, u64_max}
use sepp.Prelude.Result.{Exec, pure, modify, ◌>>=◌, ◌>>◌}
use sepp.Prelude.Check.{Check, pass, fail}
use sepp.Std.Bytes.{Text}
use sepp.Proto.{
  Prost, EnqueueRequest, ReserveRequest, JobRejection, TraceContext, Complaint, Job, Duration,
  duration_to_millis,
}
use sepp.Fjall.{Fjall}
use sepp.Config.{Config}
use sepp.Queues.{QueueRegistry, effective, is_declared}
use sepp.Validate.{reserve_request}
use sepp.Storage.{State}
use sepp.Storage.Enqueue.{
  EnqueueResult, accepted, refused, AtomicEnqueueOutcome, committed, rejected,
}
use sepp.Handle.{Handle, enqueue, enqueue_atomic, reserve_once}
use sepp.Server.{ServerLimits, server_limits, classify_enqueue}

-- The statuses that turn a request away: `failed_precondition` for queues that are not declared, and
-- `invalid_argument` for the others. Each constructor is one text of the source with the parts that
-- it formats.
pub data Refusal : Type 0 where
  malformed : Complaint → Refusal
  empty_batch : Refusal
  batch_exceeds reserve_exceeds : (limit : ℕ) → Refusal
  name_exceeds : (queue : Text) (limit : ℕ) → Refusal
  undeclared : List Text → Refusal

-- `panics` is the `expect` of the batch handler.
pub data Answer (A : Type 0) : Type 0 where
  done : A → Answer A
  turned_away : Refusal → Answer A
  panics : Answer A

-- What a handler reads besides the request: the configuration, the registry, the clocks of the
-- admission and of the committer, the identifiers drawn and the trace context of the call.
pub record Call : Type 0 where
  pub config : Config
  pub registry : QueueRegistry
  pub handle : Handle
  pub clock : ℤ
  pub drain_clock : ℤ
  pub fresh : ℕ → Text
  pub current : Option TraceContext

abbrev is_empty : {A : Type 0} → List A → Bool
is_empty [] = true
is_empty (x ∷ xs) = false

abbrev with_trace_context : Option TraceContext → EnqueueRequest → EnqueueRequest
with_trace_context current job = elim job.trace_context [
  | none ↦ record job { trace_context = current }
  | some tc ↦ job
]

module _ (classify : EnqueueRequest → Check JobRejection) where
  -- `slots` of the batch handler, which has no rejection for a valid job, and `valid` of both.
  unfoldable pub slots : List EnqueueRequest → List (Option JobRejection)
  slots [] = []
  slots (job ∷ jobs) = elim (classify job) [ pass ↦ none | fail r ↦ some r ] ∷ slots jobs

  unfoldable pub valid : List EnqueueRequest → List EnqueueRequest
  valid [] = []
  valid (job ∷ jobs) =
      let rest = valid jobs in elim (classify job) [ pass ↦ job ∷ rest | fail r ↦ rest ]

  -- `errors` of the atomic handler, by position.
  unfoldable pub errors : ℕ → List EnqueueRequest → List (ℕ × JobRejection)
  errors index [] = []
  errors index (job ∷ jobs) =
      let rest = errors (suc index) jobs in
      elim (classify job) [ pass ↦ rest | fail r ↦ (index % 2 ^ 32, r) ∷ rest ]

-- Each empty slot takes the next result; without one, the handler panics.
unfoldable pub fill : List (Option JobRejection) → List EnqueueResult → Option (List EnqueueResult)
fill [] results = some []
fill (some r ∷ rest) results = and_then (fill rest results) λ out. some (refused r ∷ out)
fill (none ∷ rest) [] = none
fill (none ∷ rest) (x ∷ results) = and_then (fill rest results) λ out. some (x ∷ out)

abbrev answered : {A : Type 0} → Option A → Answer A
answered none = panics
answered (some a) = done a

module _ ⦃db : Fjall⦄ ⦃prost : Prost⦄ where
  -- With one reading of the clock for the batch.
  unfoldable pub classify_of : Call → EnqueueRequest → Check JobRejection
  classify_of c job =
      classify_enqueue job c.registry c.config.server.strict_queues (server_limits c.config) c.clock

  unfoldable pub commit_validated : Call → List EnqueueRequest → Exec State (List EnqueueResult)
  commit_validated c jobs =
      enqueue c.handle c.fresh (map (with_trace_context c.current) jobs) c.drain_clock

  unfoldable pub commit_validated_atomic :
      Call → List EnqueueRequest → Exec State AtomicEnqueueOutcome
  commit_validated_atomic c jobs =
      enqueue_atomic c.handle c.fresh (map (with_trace_context c.current) jobs) c.drain_clock

  -- The guards on the size of a batch.
  unfoldable pub sized :
      {A : Type 0} → Call → List EnqueueRequest → Exec State (Answer A) → Exec State (Answer A)
  sized c jobs handler =
      if is_empty jobs
      then pure (turned_away empty_batch)
      else if ltb c.config.limits.max_enqueue_batch (length jobs)
      then pure (turned_away (batch_exceeds c.config.limits.max_enqueue_batch))
      else handler

  unfoldable pub enqueue_batch_handler :
      Call → List EnqueueRequest → Exec State (Answer (List EnqueueResult))
  enqueue_batch_handler c jobs = sized c jobs do
    enqueued ← commit_validated c (valid (classify_of c) jobs)
    pure (answered (fill (slots (classify_of c) jobs) enqueued))

  unfoldable pub commit_all : Call → List EnqueueRequest → Exec State (Answer AtomicEnqueueOutcome)
  commit_all c jobs = do
    outcome ← commit_validated_atomic c (valid (classify_of c) jobs)
    pure (done outcome)

  unfoldable pub enqueue_atomic_handler :
      Call → List EnqueueRequest → Exec State (Answer AtomicEnqueueOutcome)
  enqueue_atomic_handler c jobs = sized c jobs (
      if is_empty (errors (classify_of c) 0 jobs)
      then commit_all c jobs
      else pure (done (rejected (errors (classify_of c) 0 jobs))))
