-- ===== src/Retry/Bounds.antt =====
-- The bounds of the policy's delay of src/storage.rs.
use sepp.Prelude.{ℕ, ◌+◌, ◌*◌, ◌/◌, ◌%◌, ◌≤◌, ◌<◌, ◌≢◌, arith}
use sepp.Std.Bytes.{Text}
use sepp.Queues.{RetryPolicy}
use sepp.Retry.{JitterHash, capped, grown, policy_retry_delay_ms}

jitter : (c n : ℕ) → n % (c / 4 + 1) < c / 4 + 1
jitter c n = omega arith

-- A policy with a delay gives one that is at most the policy's longest delay, the schedule horizon,
-- and what the backoff has grown to; the jitter takes at most a quarter of the least of the three
-- off it.
pub policy_retry_delay_ms-capped :
    (h : JitterHash) (policy : RetryPolicy) (attempt : ℕ) (id : Text)
    → policy.retry_delay_ms ≢ 0
    → (policy_retry_delay_ms ⦃h = h⦄ policy attempt id ≤ policy.retry_delay_max_ms)
      × (policy_retry_delay_ms ⦃h = h⦄ policy attempt id ≤ policy.max_schedule_horizon_ms)
      × (policy_retry_delay_ms ⦃h = h⦄ policy attempt id ≤ grown policy attempt)
      × (3 * capped policy attempt ≤ 4 * policy_retry_delay_ms ⦃h = h⦄ policy attempt id)
unfolding policy_retry_delay_ms capped
policy_retry_delay_ms-capped h policy attempt id p =
    ground (arith, jitter (capped policy attempt) (h.hash id attempt))
