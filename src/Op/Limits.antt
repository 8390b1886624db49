-- ===== src/Op/Limits.antt =====
-- `JobLimits::resolve` of src/op.rs, under configurations and requests that pass their checks.
use sepp.Prelude.{ℕ, ◌≤◌, Option, none, some, min, unwrap_or, arith}
use sepp.Prelude.Int.{pos, ◌≤ℤ◌}
use sepp.Prelude.Check.{Passes, IfSome}
use sepp.Proto.{EnqueueRequest}
use sepp.Config.{Config}
use sepp.Config.Validation.{validate_config}
use sepp.Config.Accepts.{validate_config-InRange}
use sepp.Validate.{enqueue_request}
use sepp.Validate.Accepts.{enqueue_request-IsEnqueueRequest}
use sepp.Queues.{effective, from_config}
use sepp.Queues.Effective.{retry_policy-effective}
use sepp.Op.{JobLimits, resolve}

-- What the committer gets with a job of an accepted request.
pub record IsJobLimits (ceiling : ℕ) (l : JobLimits) : Type 0 where
  pub priority : l.priority ≤ 9
  pub attempts : 1 ≤ l.max_attempts
  pub attempts_le : l.max_attempts ≤ ceiling
  pub dedup : pos 1 ≤ℤ l.dedup_window_ms

at_least :
    (o : Option ℕ) (d c : ℕ) → IfSome o (λ m. 1 ≤ m) → 1 ≤ d → d ≤ c → 1 ≤ min (unwrap_or o d) c
at_least none d c h k l = omega arith
at_least (some m) d c h k l = omega arith

at_most : (o : Option ℕ) (d : ℕ) → IfSome o (λ p. p ≤ 9) → d ≤ 9 → unwrap_or o d ≤ 9
at_most none d h k = k
at_most (some p) d h k = h

-- The limits of a job of a request that passes its checks, under configurations that pass theirs:
-- a priority that fits its byte of the ready key, at least one attempt and at most the ceiling of
-- the queue, and a positive deduplication window.
pub resolve-IsJobLimits :
    (live boot : Config) (req : EnqueueRequest)
    → Passes (validate_config live)
    → Passes (validate_config boot)
    → Passes (enqueue_request req)
    → IsJobLimits
        (effective (from_config live) req.queue).max_attempts_ceiling
        (resolve req (from_config live) (from_config boot))
unfolding resolve
resolve-IsJobLimits live boot req l b r =
    let range = validate_config-InRange live req.queue l in
    let valid = enqueue_request-IsEnqueueRequest req r in
    record {
      priority = at_most req.priority _ valid.priority range.priority;
      attempts = at_least req.max_attempts _ _ valid.max_attempts range.attempts range.ceiling;
      attempts_le = omega arith;
      dedup =
          rw (retry_policy-effective (from_config boot) req.queue).1
            (validate_config-InRange boot req.queue b).dedup;
    }
