-- ===== src/Server/Polling.antt =====
-- The reserve handler of src/queue_server.rs: the clamps of the request and the long poll.
pub mod Clamped
pub mod Ends
use sepp.Prelude.{
  ℕ, Bool, true, false, not, ◌&&◌, ◌||◌, List, [], ◌∷◌, Option, none, some, ltb, length,
  if◌then◌else◌, min, max, unwrap_or,
}
use sepp.Prelude.Int.{ℤ, u64_max}
use sepp.Prelude.Result.{Exec, pure, modify, ◌>>=◌, ◌>>◌}
use sepp.Prelude.Check.{Check, pass, fail, ◌then◌, fail_if, map_fail}
use sepp.Std.Bytes.{Text}
use sepp.Proto.{Prost, ReserveRequest, Job, Duration, duration_to_millis}
use sepp.Fjall.{Fjall}
use sepp.Config.{Config}
use sepp.Queues.{QueueRegistry, effective, is_declared}
use sepp.Validate.{reserve_request}
use sepp.Storage.{State}
use sepp.Handle.{reserve_once}
use sepp.Server.Handlers.{Refusal, malformed, reserve_exceeds, name_exceeds, undeclared}

-- `queues.iter().find(|q| q.len() > max)`.
unfoldable pub too_long : ℕ → List Text → Check Refusal
too_long limit [] = pass
too_long limit (q ∷ qs) =
    fail_if (ltb limit (length q)) (name_exceeds q limit) then too_long limit qs

unfoldable pub unknown : QueueRegistry → List Text → List Text
unknown registry [] = []
unknown registry (q ∷ qs) =
    let rest = unknown registry qs in if is_declared registry q then rest else q ∷ rest

abbrev none_unknown : List Text → Check Refusal
none_unknown [] = pass
none_unknown (q ∷ qs) = fail (undeclared (q ∷ qs))

-- The guards of the handler.
unfoldable pub check_reserve : Config → QueueRegistry → ReserveRequest → Check Refusal
check_reserve config registry req =
    map_fail malformed (reserve_request req)
    then fail_if (ltb config.limits.max_reserve_queues (length req.queues))
        (reserve_exceeds config.limits.max_reserve_queues)
    then too_long config.limits.max_queue_name_bytes req.queues
    then (if config.server.strict_queues then none_unknown (unknown registry req.queues) else pass)

-- `.map(..).min().unwrap_or(u64::MAX)`.
unfoldable pub max_lease : QueueRegistry → List Text → ℕ
max_lease registry [] = u64_max
max_lease registry (q ∷ qs) =
    min (effective registry q).max_lease_duration_ms (max_lease registry qs)

module _ ⦃prost : Prost⦄ where
  abbrev millis_or_zero : Option Duration → ℕ
  millis_or_zero none = 0
  millis_or_zero (some d) = duration_to_millis d

  unfoldable pub lease_of : QueueRegistry → ReserveRequest → ℕ
  lease_of registry req =
      max (min (millis_or_zero req.lease_duration) (max_lease registry req.queues)) 1

  -- `clamp(1, max_reserve_batch)`, where the batch limit is at least 1.
  unfoldable pub max_jobs_of : Config → ReserveRequest → ℕ
  max_jobs_of config req = min (max (unwrap_or req.max_jobs 1) 1) config.limits.max_reserve_batch

  unfoldable pub wait_of : Config → ReserveRequest → ℕ
  wait_of config req = min (millis_or_zero req.wait_timeout) config.limits.max_wait_timeout_ms

-- What ends the `select`: the waiter of the queues, the shutdown, or the deadline.
pub data Wake : Type 0 where
  armed shutdown_changed deadline_reached : Wake

pub data Polled : Type 0 where
  delivered : List Job → Polled
  nothing still_waiting : Polled

module _ ⦃db : Fjall⦄ ⦃prost : Prost⦄ where
  -- One round of the loop: what the other clients did to the store before its reservation, the clock
  -- that the committer reads, the two tests after an empty reservation, and what ends the wait.
  pub record Round : Type 0 where
    pub meanwhile : State → State
    pub now : ℤ
    pub past_deadline : Bool
    pub shutting_down : Bool
    pub wake : Wake

  abbrev is_nonempty : List Job → Bool
  is_nonempty [] = false
  is_nonempty (j ∷ js) = true

  abbrev woken : Wake → Exec State Polled → Exec State Polled
  woken armed rest = rest
  woken shutdown_changed rest = pure nothing
  woken deadline_reached rest = pure nothing

  -- After the rounds of the list the handler still waits. Telemetry, which would replace the trace
  -- contexts of the jobs, is off.
  unfoldable pub poll : List Text → (lease max_jobs : ℕ) → List Round → Exec State Polled
  poll queues lease max_jobs [] = pure still_waiting
  poll queues lease max_jobs (r ∷ rs) =
      let rest = poll queues lease max_jobs rs in
      modify r.meanwhile
      >> (reserve_once queues lease max_jobs r.now >>= λ jobs.
          if is_nonempty jobs
          then pure (delivered jobs)
          else if r.past_deadline || r.shutting_down
          then pure nothing
          else woken r.wake rest)
